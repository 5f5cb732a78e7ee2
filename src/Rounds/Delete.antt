-- ===== src/Rounds/Delete.antt =====
-- `delete_round` of rounds.py, with the cascades that models.py declares on the foreign keys to
-- `rounds`, and `delete_permanent_objects` of domain.py.
pub mod Gone
use golf_rank.Base.{
  ℕ, String, Bool, true, false, not, ◌&&◌, ◌||◌, Option, none, some, List, [], ◌∷◌, ◌++◌, ◌==◌,
  if◌then◌else◌, keep, map, Result, ok, ◌>>=◌,
}
use golf_rank.Base.Rounding.{Rounding}
use golf_rank.Domain.People.{is_about}
use golf_rank.Ranking.Handlers.{RankingState, Snapshot, stage_snapshot}
use golf_rank.Ranking.Projections.{RatingRound}
use golf_rank.Rounds.{Round, RoundPhoto, RoundState}
use golf_rank.Rounds.Refresh.{refresh_course_state}
use golf_rank.Rounds.Handlers.{require_user, find_round, or_no_round}
use golf_rank.Rounds.Update.{is_event_of}

-- `_delete_rating_ranking_evidence`
unfoldable pub delete_evidence : ℕ → ℕ → RankingState → RankingState
delete_evidence user course s = record s {
  comparisons =
      keep (λ c. not (c.user_id == user && (c.course_a_id == course || c.course_b_id == course)))
        s.comparisons;
  certainties = λ u c. if u == user && c == course then none else s.certainties u c;
  assignments = record s.assignments {
    rows = keep (λ r. not (r.user_id == user && r.course_id == course)) s.assignments.rows;
  };
}

abbrev pub key_of : Option String → List String
key_of none = []
key_of (some key) = key ∷ []

-- `photo_storage_keys`
unfoldable pub photo_keys : ℕ → List RoundPhoto → List String
photo_keys round_id [] = []
photo_keys round_id (p ∷ photos) =
    let rest = photo_keys round_id photos in
    if is_about round_id p.round_id then key_of p.storage_key ++ rest else rest

abbrev pub rating_round : Round → RatingRound
rating_round r = record {
  id = r.id;
  user_id = r.user_id;
  course_id = r.course_id;
  is_rating_round = r.is_rating_round;
  updated_at = r.updated_at;
}

-- What ranking.py sees: its own tables and the rounds.
abbrev pub ranking_view : RoundState → RankingState
ranking_view db = record db.ranking { rounds = map rating_round db.rounds }

-- `_delete_round_activity_event`
abbrev pub drop_event : ℕ → ℕ → RoundState → RoundState
drop_event user round_id db = record db {
  events = keep (λ e. not (is_event_of user round_id e)) db.events;
}

-- `session.delete(round_)` with the rows that refer to the round.
unfoldable pub drop_round : ℕ → RoundState → RoundState
drop_round round_id db = record db {
  rounds = keep (λ r. not (r.id == round_id)) db.rounds;
  notes = keep (λ n. not (n.round_id == round_id)) db.notes;
  companions = keep (λ c. not (c.round_id == round_id)) db.companions;
  notifications = keep (λ n. not (is_about round_id n.subject_id)) db.notifications;
  photos = keep (λ p. not (is_about round_id p.round_id)) db.photos;
  ranking = record db.ranking {
    projections = λ u. keep (λ p. not (p.round_id == round_id)) (db.ranking.projections u);
  };
}

abbrev pub with_ranking : RoundState → RankingState → RoundState
with_ranking db s = record db { ranking = s }

-- The evidence goes only with a rating round.
abbrev pub drop_evidence : Bool → ℕ → ℕ → RoundState → RoundState
drop_evidence false user course db = db
drop_evidence true user course db = with_ranking db (delete_evidence user course db.ranking)

-- The keys that `delete_permanent_objects` records; `storage` says which deletions succeed, and there
-- may be no storage.
unfoldable pub failed_keys : Option (String → Bool) → List String → List String
failed_keys none keys = keys
failed_keys (some deletes) keys = keep (λ k. not (deletes k)) keys

module _ (onboarding_played : ℕ → ℕ → Bool) where
  abbrev pub refresh : ℕ → ℕ → RoundState → RoundState
  refresh user course db = record db {
    states = refresh_course_state onboarding_played user course db.rounds db.states;
  }

  -- The deletes of the handler and the refresh after them.
  unfoldable pub deleted : ℕ → Round → RoundState → RoundState
  deleted user r db =
      refresh user r.course_id (
        drop_round r.id
          (drop_evidence r.is_rating_round user r.course_id (drop_event user r.id db)))

  module _ (rd : Rounding) where
    -- `if is_rating_round: _stage_snapshot(session, user.id)`
    abbrev pub restage : Bool → ℕ → RoundState → Result RoundState
    restage false user db = ok db
    restage true user db = do
      staged ← stage_snapshot rd user true (ranking_view db)
      ok (with_ranking db staged.0)

    -- `delete_round`
    unfoldable pub delete_round :
        Option (String → Bool) → String → ℕ → RoundState → Result RoundState
    delete_round storage subject round_id db = do
      user ← require_user db.ranking.accounts subject
      r ← or_no_round (find_round round_id user.id db.rounds)
      after ← restage r.is_rating_round user.id (deleted user.id r db)
      ok (record after {
        failed_deletions = db.failed_deletions ++ failed_keys storage (photo_keys r.id db.photos);
      })
