-- ===== src/Ranking/HandlerTests.antt =====
-- The handlers of the ranking and their snapshots at a concrete state.
use golf_rank.Base.{
  ℕ, ◌≡◌, ◌⊎◌, refl, true, false, none, some, List, [], ◌∷◌, arith, ok, err, HttpException,
}
use golf_rank.Base.Rounding.{half_even, round_half_even}
use golf_rank.Domain.Course.{Course, get_course, require_course}
use golf_rank.Domain.User.{User, find_user, stored_user_created}
use golf_rank.Ranking.Tier.{fairway, bunker}
use golf_rank.Ranking.Rating.{rating, in_band}
use golf_rank.Ranking.Table.{renumber}
use golf_rank.Ranking.Place.{Placement}
use golf_rank.Ranking.Normalize.{normalized_order, ordered_groups}
use golf_rank.Ranking.Compare.{course_b, too_close}
use golf_rank.Ranking.Snapshot.{
  Comparison, Counts, Entry, low, confidence, confidence_label, tier_count, entries_from,
  snapshot_entries, entry_of, projection_of, Projection,
}
use golf_rank.Ranking.Snapshot.Descending.{IsDescending, finished_ratings}
use golf_rank.Ranking.Snapshot.Entries.{snapshot_entries-IsDescending}
use golf_rank.Ranking.Projections.{RatingRound, sync_projections}
use golf_rank.Ranking.Projections.Latest.{IsFollowed}
use golf_rank.Ranking.Projections.Followed.{DistinctCourses, sync_projections_lem}
use golf_rank.Ranking.Handlers.{
  RankingState, Snapshot, resolve_all, has_duplicates, placed_courses, place_in_tiers,
  compare_courses,
}
use golf_rank.Ranking.Handlers.Placed.{IsPlaced, place_in_tiers_lem}
use golf_rank.Ranking.Handlers.Compared.{IsCompared, compare_courses_lem}
use golf_rank.Ranking.Handlers.Refused.{place_in_tiers_refuses}
use golf_rank.Ranking.Tests.{
  row, table, assignments, well_formed, to_front, new_bunker, found_10, found_30, dense,
  ranked as fairway_ranked,
}

abbrev course : ℕ → Course
course id = record { id = id; source = "seed"; source_course_id = none }

abbrev anna : User
anna = record { id = 7; provider_subject = "anna" }

abbrev state : RankingState
state = record {
  accounts = record { users = anna ∷ []; deleted = "carl" ∷ []; next_id = 9 };
  catalog = record {
    courses = course 10 ∷ course 20 ∷ course 30 ∷ course 40 ∷ [];
    reconciliations = [];
  };
  assignments = assignments;
  comparisons = [];
  certainties = λ _ _. none;
  snapshots = [];
  projections = λ _. [];
  rounds = [];
  activity = [];
}

abbrev payload : List Placement
payload = to_front ∷ new_bunker ∷ []

resolved : resolve_all state.catalog payload ≡ ok payload
unfolding resolve_all require_course get_course
resolved = refl

single : has_duplicates (placed_courses payload) ≡ false
unfolding has_duplicates
single = refl

known_anna : stored_user_created state.accounts "anna" ≡ ok (state.accounts, anna)
unfolding stored_user_created find_user
known_anna = refl

place_in_tiers_lem_example :
    (s' : RankingState) × (x : Snapshot) × (place_in_tiers half_even "anna" payload state
      ≡ ok (s', x))
    × IsPlaced 7 payload state s' x
place_in_tiers_lem_example =
    place_in_tiers_lem half_even "anna" payload payload state state.accounts anna well_formed
      resolved single known_anna

abbrev gone : HttpException
gone = record { status = 410; detail = "Account has been deleted"; headers = [] }

refused_carl : place_in_tiers half_even "carl" payload state ≡ err gone
unfolding place_in_tiers resolve_all require_course get_course has_duplicates stored_user_created
    find_user
refused_carl = refl

place_in_tiers_refuses_example : (gone.status ≡ 404) ⊎ (gone.status ≡ 422) ⊎ (gone.status ≡ 410)
place_in_tiers_refuses_example =
    place_in_tiers_refuses half_even "carl" payload state well_formed gone refused_carl

course_10 : require_course state.catalog 10 ≡ ok (course 10)
unfolding require_course get_course
course_10 = refl

course_30 : require_course state.catalog 30 ≡ ok (course 30)
unfolding require_course get_course
course_30 = refl

found_anna : find_user "anna" state.accounts.users ≡ some anna
unfolding find_user
found_anna = refl

compare_courses_lem_example :
    (s' : RankingState) × (x : Snapshot) × (compare_courses half_even "anna" 10 30 course_b state
      ≡ ok (s', x))
    × IsCompared 7 10 30 fairway course_b state s' x
compare_courses_lem_example =
    compare_courses_lem half_even "anna" 10 30 course_b state well_formed (course 10) (course 30)
      anna (row 1 7 10 fairway 1) (row 4 7 30 fairway 3) course_10 course_30 (λ e. omega arith)
      found_anna found_10 found_30 refl fairway_ranked dense

abbrev no_counts : ℕ → Counts
no_counts _ = record { decisive = 0; uncertain = 0 }

abbrev entry : ℕ → ℕ → ℕ → Entry
entry rank course_id score = record {
  rank = rank;
  course_id = course_id;
  tier = fairway;
  tier_position = rank;
  personal_rating = score;
  confidence_score = 35;
  label = low;
  incomplete = false;
}

abbrev entries : List Entry
entries = entry 1 10 84 ∷ entry 2 20 77 ∷ entry 3 30 70 ∷ []

entries_of_seven : snapshot_entries half_even no_counts (normalized_order 7 table) ≡ some entries
unfolding snapshot_entries entries_from normalized_order ordered_groups tier_count confidence
    confidence_label rating in_band round_half_even renumber
entries_of_seven = refl

snapshot_entries-IsDescending_example : IsDescending (finished_ratings entries)
snapshot_entries-IsDescending_example =
    snapshot_entries-IsDescending half_even no_counts 7 table entries entries_of_seven

abbrev comparisons : List Comparison
comparisons =
    record {
      user_id = 7;
      course_a_id = 10;
      course_b_id = 30;
      preferred_course_id = some 30;
      outcome = course_b;
    }
    ∷ record {
      user_id = 7;
      course_a_id = 30;
      course_b_id = 20;
      preferred_course_id = none;
      outcome = too_close;
    }
    ∷ []

abbrev rounds : List RatingRound
rounds = record { id = 5; user_id = 7; course_id = 10; is_rating_round = true; updated_at = 3 } ∷ []

abbrev projection : ℕ → Projection
projection course_id = record {
  rated_course = course_id;
  round_id = 4;
  rated_tier = bunker;
  score = 20;
  certainty = 35;
}

distinct_entries : DistinctCourses entries
unfolding entry_of
distinct_entries = (refl, (refl, (refl, tt)))

sync_projections_lem_example :
    IsFollowed 7 rounds
      (projection 20 ∷ projection 50 ∷ [])
      20
      (entry_of 20 entries)
      (projection_of 20 (sync_projections 7 rounds (projection 20 ∷ projection 50 ∷ []) entries))
sync_projections_lem_example =
    sync_projections_lem 7 rounds (projection 20 ∷ projection 50 ∷ []) 20 entries distinct_entries
