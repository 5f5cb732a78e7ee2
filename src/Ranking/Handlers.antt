-- ===== src/Ranking/Handlers.antt =====
-- The two handlers of ranking.py that write, `place_in_tiers` and `compare_courses`, with the
-- snapshot that ends both. A handler answers the state that it commits, or the error that it raises.
pub mod Staged
pub mod Placed
pub mod Compared
pub mod Refused
use golf_rank.Base.{
  ℕ, ◌+◌, String, Bool, true, false, not, ◌&&◌, Option, none, some, List, [], ◌∷◌, ◌++◌, ◌==◌,
  if◌then◌else◌, keep, map, any, length, Result, ok, err, raise, require, ◌>>=◌, ◌>>◌,
}
use golf_rank.Base.Rounding.{Rounding}
use golf_rank.Domain.Course.{Course, Catalog, require_course}
use golf_rank.Domain.User.{User, Accounts, find_user, stored_user_created}
use golf_rank.Ranking.Tier.{Tier}
use golf_rank.Ranking.Table.{Assignment}
use golf_rank.Ranking.Place.{Assignments, Placement, place_all}
use golf_rank.Ranking.Normalize.{normalize_positions, normalized_order}
use golf_rank.Ranking.Compare.{Answer, preferred_id, or_fail, compare_rows}
use golf_rank.Ranking.Snapshot.{
  Comparison, Counts, comparison_counts, confidence, Entry, ranked, unranked, snapshot_entries,
  overall_confidence, last_version, Projection,
}
use golf_rank.Ranking.Projections.{RatingRound, sync_projections}

-- A row of `ranking_snapshots`, which is also what the handler answers.
pub record Snapshot : Type 0 where
  pub user_id : ℕ
  pub version : ℕ
  pub overall : ℕ
  pub entries : List Entry
  pub unranked_courses : List ℕ

-- A row of `ranking_confidences`.
pub record Certainty : Type 0 where
  pub score : ℕ
  pub counts : Counts

-- The event `ranking_updated`.
pub record Activity : Type 0 where
  pub actor_user_id : ℕ
  pub version : ℕ
  pub course_count : ℕ

pub record RankingState : Type 0 where
  pub accounts : Accounts
  pub catalog : Catalog
  pub assignments : Assignments
  pub comparisons : List Comparison
  -- the row of a user and a course
  pub certainties : ℕ → ℕ → Option Certainty
  pub snapshots : List Snapshot
  -- the rows of a user
  pub projections : ℕ → List Projection
  pub rounds : List RatingRound
  pub activity : List Activity

-- `existing.score = confidence; ...; session.add(existing)`, for every ranked row.
unfoldable pub write_certainties :
    ℕ → (ℕ → Counts) → List Assignment → (ℕ → ℕ → Option Certainty) → ℕ → ℕ → Option Certainty
write_certainties user counts [] table = table
write_certainties user counts (r ∷ rows) table = write_certainties user counts rows (λ u c.
    if u == user && c == r.course_id
    then some (record { score = confidence (counts c); counts = counts c })
    else table u c)

-- `max(version) + 1` of the user's snapshots.
abbrev pub user_versions : ℕ → List Snapshot → List ℕ
user_versions user snapshots = map (λ x. x.version) (keep (λ x. x.user_id == user) snapshots)

abbrev pub emitted : Bool → Snapshot → List Activity
emitted emit x =
    if emit
    then record { actor_user_id = x.user_id; version = x.version; course_count = length x.entries }
      ∷ []
    else []

-- The state with a snapshot of these rows and entries.
abbrev pub commit_snapshot : ℕ → Bool → Snapshot → RankingState → RankingState
commit_snapshot user emit x s = record s {
  assignments = record s.assignments { rows = normalize_positions user s.assignments.rows };
  certainties =
      write_certainties user (comparison_counts user s.comparisons)
        (ranked (normalized_order user s.assignments.rows)) s.certainties;
  snapshots = s.snapshots ++ x ∷ [];
  projections = λ u.
      if u == user
      then sync_projections user s.rounds (s.projections user) x.entries
      else s.projections u;
  activity = s.activity ++ emitted emit x;
}

-- `any(earlier == course)`: `len(course_ids) != len(set(course_ids))`.
unfoldable pub has_duplicates : List ℕ → Bool
has_duplicates [] = false
has_duplicates (x ∷ xs) = if any (λ y. y == x) xs then true else has_duplicates xs

abbrev pub placed_courses : List Placement → List ℕ
placed_courses ps = map (λ p. p.course_id) ps

-- `[(placement, require_course(session, placement.course_id).id) for placement in assignments]`
unfoldable pub resolve_all : Catalog → List Placement → Result (List Placement)
resolve_all db [] = ok []
resolve_all db (p ∷ placements) = do
  course ← require_course db p.course_id
  rest ← resolve_all db placements
  ok (record p { course_id = course.id } ∷ rest)

-- `stored_user(session, user, create=False)`, with the error of `compare_courses`.
abbrev pub or_unplaced : Option User → Result User
or_unplaced none = raise 409 "Place both courses into tiers before comparing them"
or_unplaced (some u) = ok u

module _ (rd : Rounding) where
  abbrev pub make_snapshot : ℕ → RankingState → List Entry → Snapshot
  make_snapshot user s entries = record {
    user_id = user;
    version = last_version (user_versions user s.snapshots) + 1;
    overall = overall_confidence rd entries;
    entries = entries;
    unranked_courses = map (λ r. r.course_id) (unranked (normalized_order user s.assignments.rows));
  }

  abbrev pub with_entries :
      ℕ → Bool → RankingState → Option (List Entry) → Result (RankingState × Snapshot)
  with_entries user emit s none = raise 500 "Internal Server Error"
  with_entries user emit s (some entries) =
      ok (commit_snapshot user emit (make_snapshot user s entries) s, make_snapshot user s entries)

  -- `_stage_snapshot`
  unfoldable pub stage_snapshot : ℕ → Bool → RankingState → Result (RankingState × Snapshot)
  stage_snapshot user emit s = with_entries user emit s (
      snapshot_entries rd (comparison_counts user s.comparisons)
        (normalized_order user s.assignments.rows))

  abbrev pub place_for :
      RankingState → List Placement → Accounts × User → Result (RankingState × Snapshot)
  place_for s placements (accounts, user) =
      stage_snapshot user.id false
        (record s { accounts = accounts; assignments = place_all user.id s.assignments placements })

  -- `place_in_tiers`, for the identity of the caller.
  unfoldable pub place_in_tiers :
      String → List Placement → RankingState → Result (RankingState × Snapshot)
  place_in_tiers subject payload s = do
    placements ← resolve_all s.catalog payload
    require (not (has_duplicates (placed_courses placements))) 422
        "Each course can appear only once per request"
    account ← stored_user_created s.accounts subject
    place_for s placements account

  -- `compare_courses`
  unfoldable pub compare_courses :
      String → ℕ → ℕ → Answer → RankingState → Result (RankingState × Snapshot)
  compare_courses subject a b answer s = do
    course_a ← require_course s.catalog a
    course_b ← require_course s.catalog b
    require (not (course_a.id == course_b.id)) 422 "A course cannot be compared with itself"
    user ← or_unplaced (find_user subject s.accounts.users)
    rows ← compare_rows user.id course_a.id course_b.id answer s.assignments.rows
    stage_snapshot user.id false (record s {
      assignments = record s.assignments { rows = rows };
      comparisons =
          s.comparisons
          ++ record {
            user_id = user.id;
            course_a_id = course_a.id;
            course_b_id = course_b.id;
            preferred_course_id = preferred_id course_a.id course_b.id answer;
            outcome = answer;
          }
            ∷ [];
    })
