-- ===== src/Social/Summary.antt =====
-- `get_user_round_summary` of social.py: what one user sees of the rounds of another.
pub mod Private
use golf_rank.Base.{
  ℕ, String, Bool, true, false, not, ◌&&◌, ◌||◌, Option, none, some, List, [], ◌∷◌, ◌==◌,
  if◌then◌else◌, keep, map, length, sort_by, Result, ok, require, ◌>>=◌, ◌>>◌,
}
use golf_rank.Base.Rounding.{Rounding}
use golf_rank.Domain.Course.{Course, Catalog}
use golf_rank.Domain.Courses.{among, require_courses}
use golf_rank.Domain.Audience.{either_ids, unique}
use golf_rank.Domain.User.{User}
use golf_rank.Rounds.{Round, Visibility, only_me, friends, everyone, RoundState}
use golf_rank.Rounds.Output.{RoundOut, owner_blocked_ids, round_out}
use golf_rank.Rounds.Handlers.{
  require_user, RoundSummary, scores_of, best_of, average_of, is_newer, in_year, latest_out, first,
}
use golf_rank.Social.{SocialState}
use golf_rank.Social.Graph.{get_user, or_unknown, relationship_sets}

-- `visibilities`: the owner sees every round, who follows the owner those that are not private, and
-- anyone else none.
abbrev pub sees : Bool → Bool → Visibility → Bool
sees own follows only_me = own
sees own follows friends = own || follows
sees own follows everyone = own || follows

abbrev pub base_rounds : ℕ → Bool → Bool → List Round → List Round
base_rounds owner own follows rounds =
    keep (λ r. r.user_id == owner && sees own follows r.visibility) rounds

abbrev pub cons_id : Option Course → List ℕ → List ℕ
cons_id none ids = ids
cons_id (some c) ids = c.id ∷ ids

-- The ids of the canonical courses.
unfoldable pub canonical_ids_of : (ℕ → Option Course) → List ℕ → List ℕ
canonical_ids_of resolve [] = []
canonical_ids_of resolve (i ∷ ids) = cons_id (resolve i) (canonical_ids_of resolve ids)

abbrev pub distinct_courses : Catalog → List Round → ℕ
distinct_courses catalog rounds =
    let ids = unique (map (λ r. r.course_id) rounds) in
    length (unique (canonical_ids_of (require_courses catalog ids) ids))

abbrev pub is_for_friends : Visibility → Bool
is_for_friends friends = true
is_for_friends only_me = false
is_for_friends everyone = false

-- `latest_out.model_copy(update=...)`
abbrev pub masked : RoundOut → RoundOut
masked out = record out {
  round = record out.round { favorite_hole = none };
  note = none;
  companions = [];
}

abbrev pub mask_latest : Bool → Bool → Option RoundOut → Option RoundOut
mask_latest own is_mutual none = none
mask_latest own is_mutual (some out) =
    if not own && (is_for_friends out.round.visibility && not is_mutual)
    then some (masked out)
    else some out

module _ (rd : Rounding) where
  abbrev pub summary_of : ℕ → RoundState → Bool → Bool → List Round → Result RoundSummary
  summary_of year db own is_mutual rounds = do
    latest ← latest_out db (first (sort_by is_newer rounds))
    ok (record {
      total_rounds = length rounds;
      rounds_this_year = length (keep (in_year (some year)) rounds);
      average_score = average_of rd (scores_of rounds);
      best_score = best_of (scores_of rounds);
      distinct_courses = distinct_courses db.ranking.catalog rounds;
      latest_round = mask_latest own is_mutual latest;
    })

  abbrev pub summary_between : ℕ → ℕ → ℕ → SocialState → Result RoundSummary
  summary_between year viewer owner db =
      let own = owner == viewer in
      let (followed_ids, mutual_ids) = relationship_sets viewer db.base.follows in
      summary_of year db.base own (not own && among mutual_ids owner)
        (base_rounds owner own (among followed_ids owner) db.base.rounds)

  -- `get_user_round_summary`, in this year.
  unfoldable pub get_user_round_summary : String → ℕ → ℕ → SocialState → Result RoundSummary
  get_user_round_summary subject year owner db = do
    viewer ← require_user db.base.ranking.accounts subject
    target ← or_unknown (get_user owner db.base.ranking.accounts.users)
    require (not (among (either_ids viewer.id db.base.blocks) owner)) 404 "User not found"
    summary_between year viewer.id owner db
