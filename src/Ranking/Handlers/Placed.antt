-- ===== src/Ranking/Handlers/Placed.antt =====
-- `place_in_tiers` as a whole.
use mathlib.Core.List.{foldl}
use golf_rank.Base.{ℕ, ◌≡◌, ◌∙◌, String, false, List, ok}
use golf_rank.Base.Rounding.{Rounding}
use golf_rank.Domain.User.{User, Accounts, stored_user_created}
use golf_rank.Ranking.Tier.{Tier}
use golf_rank.Ranking.Place.{Placement, place_all}
use golf_rank.Ranking.Place.Keys.{IsWellFormed}
use golf_rank.Ranking.Place.Refines.{board, place_on_board, place_all-refines}
use golf_rank.Ranking.Compare.Prefer.{IsNormalized}
use golf_rank.Ranking.Handlers.{
  Snapshot, RankingState, user_versions, commit_snapshot, has_duplicates, placed_courses,
  resolve_all, place_for, place_in_tiers,
}
use golf_rank.Ranking.Handlers.Staged.{
  IsSnapshot, stage_snapshot_lem, normalize_positions-IsWellFormed,
  normalize_positions-IsNormalized, board-normalize_positions,
}

-- What a request for these placements of a user does to the ranking, and what it answers.
pub record IsPlaced (user : ℕ) (placements : List Placement) (s s' : RankingState) (x : Snapshot)
    : Type 0 where
  pub placed :
      board user s'.assignments.rows
      ≡ foldl place_on_board (board user s.assignments.rows) placements
  pub normalized : (t : Tier) → IsNormalized user t s'.assignments.rows
  pub well_formed : IsWellFormed s'.assignments
  pub snapshot : IsSnapshot (user_versions user s.snapshots) s'.assignments.rows user x

module _ (rd : Rounding) (subject : String) (payload placements : List Placement) (s : RankingState)
    (accounts : Accounts) (user : User) where
  pub place_for_lem :
      IsWellFormed s.assignments
      → (s' : RankingState) × (x : Snapshot) × (place_for rd s placements (accounts, user)
          ≡ ok (s', x))
        × IsPlaced user.id placements s s' x
  place_for_lem w =
      let (moved, well) = place_all-refines user.id s.assignments placements w in
      let mid = record s {
        accounts = accounts;
        assignments = place_all user.id s.assignments placements;
      } in
      let (x, e, snap) = stage_snapshot_lem rd user.id mid well.ids false in
      (
        commit_snapshot user.id false x mid,
        x,
        e,
        record {
          placed = board-normalize_positions user.id mid.assignments.rows well.ids ∙ moved;
          normalized =
              λ t. normalize_positions-IsNormalized user.id t mid.assignments.rows well.ids;
          well_formed = normalize_positions-IsWellFormed user.id mid.assignments well;
          snapshot = snap;
        },
      )

  -- If the assignments are well formed, the courses of a request resolve, no course appears twice
  -- and the account is stored or can be created, the request to place them succeeds. The user's
  -- board then is the old one after the placements, one by one, the positions of each of the user's
  -- tiers are 1, 2, 3, ..., and the table is well formed. The snapshot that is answered has a
  -- version above all the user's earlier ones, lists what the tiers answer afterwards with ranks 1,
  -- 2, 3, ..., and rates no finished course above one of a better rank.
  pub place_in_tiers_lem :
      IsWellFormed s.assignments
      → resolve_all s.catalog payload ≡ ok placements
      → has_duplicates (placed_courses placements) ≡ false
      → stored_user_created s.accounts subject ≡ ok (accounts, user)
      → (s' : RankingState) × (x : Snapshot) × (place_in_tiers rd subject payload s ≡ ok (s', x))
        × IsPlaced user.id placements s s' x
  unfolding place_in_tiers
  place_in_tiers_lem w r n u =
      let (s', x, e, done) = place_for_lem w in (s', x, rw (r, n, u) e, done)
