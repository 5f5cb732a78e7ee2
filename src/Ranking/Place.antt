-- ===== src/Ranking/Place.antt =====
-- `place_in_tiers` of ranking.py: what it does to the assignments of the user.
pub mod Keys
pub mod Around
pub mod Written
pub mod Preserved
pub mod Refines
use golf_rank.Base.{
  ℕ, ◌+◌, ◌-◌, min, Bool, true, false, not, ◌&&◌, Option, none, some, List, [], ◌∷◌, ◌==◌,
  if◌then◌else◌, keep, length, sort_by, insert_at,
}
use golf_rank.Ranking.Tier.{Tier}
use golf_rank.Ranking.Table.{
  Assignment, before, in_tier, tier_rows, write_positions, save_row, find_row,
}

-- TierPlacementIn, its course id already resolved by `require_course`.
pub record Placement : Type 0 where
  pub course_id : ℕ
  pub tier : Tier
  pub position : Option ℕ

-- The table and the next value of its primary key.
pub record Assignments : Type 0 where
  pub rows : List Assignment
  pub next_id : ℕ

-- `placement.position or len(peers) + 1`: a position of 0 would count as absent.
abbrev pub requested_position : Option ℕ → ℕ → ℕ
requested_position none n = n + 1
requested_position (some p) n = if p == 0 then n + 1 else p

abbrev pub target_index : Option ℕ → ℕ → ℕ
target_index position n = min (requested_position position n - 1) n

-- The row of the user's course that the query found, or a new one.
abbrev pub row_or_new : ℕ → Placement → ℕ → Option Assignment → Assignment
row_or_new user p next_id (some r) = r
row_or_new user p next_id none = record {
  id = next_id;
  user_id = user;
  course_id = p.course_id;
  tier = p.tier;
  ordinal_position = 0;
  is_incomplete = false;
}

abbrev pub id_after : ℕ → Option Assignment → ℕ
id_after next_id (some r) = next_id
id_after next_id none = next_id + 1

abbrev pub placed_row : ℕ → Placement → ℕ → Option Assignment → Assignment
placed_row user p next_id found = record (row_or_new user p next_id found) {
  tier = p.tier;
  is_incomplete = false;
}

-- The other courses of the tier, in order.
abbrev pub peers : ℕ → Tier → ℕ → List Assignment → List Assignment
peers user tier course rows =
    sort_by before (keep (λ r. in_tier user tier r && not (r.course_id == course)) rows)

-- The body of the loop over the placements.
unfoldable pub place_one : ℕ → Assignments → Placement → Assignments
place_one user s p =
    let found = find_row user p.course_id s.rows in
    let a = placed_row user p s.next_id found in
    let saved = save_row a s.rows in
    let around = peers user p.tier p.course_id saved in
    record {
      rows = write_positions 1 (insert_at (target_index p.position (length around)) a around) saved;
      next_id = id_after s.next_id found;
    }

unfoldable pub place_all : ℕ → Assignments → List Placement → Assignments
place_all user s [] = s
place_all user s (p ∷ placements) = place_all user (place_one user s p) placements
