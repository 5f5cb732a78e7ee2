-- ===== src/Ranking/Table.antt =====
-- The table `tier_assignments` of models.py, and the two ways ranking.py works with it: the query
-- of a tier ordered by position and id, and the loop that writes positions.
pub mod Order
pub mod Distinct
pub mod Positions
pub mod Filtered
pub mod Saved
pub mod Untouched
pub mod Lookup
pub mod Members
use golf_rank.Base.{
  ℕ, ◌+◌, Bool, ◌&&◌, Option, none, some, List, [], ◌∷◌, map, leb, ltb, ◌==◌, if◌then◌else◌, keep,
  sort_by,
}
use golf_rank.Ranking.Tier.{Tier, same_tier}

pub record Assignment : Type 0 where
  pub id : ℕ
  pub user_id : ℕ
  pub course_id : ℕ
  pub tier : Tier
  pub ordinal_position : ℕ
  pub is_incomplete : Bool

-- `order_by(ordinal_position, id)`
abbrev pub before : Assignment → Assignment → Bool
before a b =
    if a.ordinal_position == b.ordinal_position
    then leb a.id b.id
    else ltb a.ordinal_position b.ordinal_position

abbrev pub in_tier : ℕ → Tier → Assignment → Bool
in_tier user tier r = r.user_id == user && same_tier r.tier tier

-- `select(TierAssignment).where(user_id == user, tier == tier).order_by(...)`
unfoldable pub tier_rows : ℕ → Tier → List Assignment → List Assignment
tier_rows user tier rows = sort_by before (keep (in_tier user tier) rows)

abbrev pub place_row : ℕ → ℕ → Assignment → Assignment
place_row i k r = if r.id == i then record r { ordinal_position = k } else r

-- `for position, row in enumerate(order, start=k): row.ordinal_position = position`
unfoldable pub write_positions : ℕ → List Assignment → List Assignment → List Assignment
write_positions k [] rows = rows
write_positions k (r ∷ order) rows = write_positions (k + 1) order (map (place_row r.id k) rows)

-- The rows of `order` as the loop leaves them.
unfoldable pub renumber : ℕ → List Assignment → List Assignment
renumber k [] = []
renumber k (r ∷ order) = record r { ordinal_position = k } ∷ renumber (k + 1) order

-- INSERT, or UPDATE of the row that has the primary key.
unfoldable pub save_row : Assignment → List Assignment → List Assignment
save_row a [] = a ∷ []
save_row a (r ∷ rows) = if r.id == a.id then a ∷ rows else r ∷ save_row a rows

-- `select(TierAssignment).where(user_id == user, course_id == course)`, for one row.
abbrev pub owns : ℕ → ℕ → Assignment → Bool
owns user course r = r.user_id == user && r.course_id == course

unfoldable pub find_row : ℕ → ℕ → List Assignment → Option Assignment
find_row user course [] = none
find_row user course (r ∷ rows) = if owns user course r then some r else find_row user course rows

-- The courses of a tier, best first: what the rows and their positions stand for.
unfoldable pub course_order : ℕ → Tier → List Assignment → List ℕ
course_order user tier rows = map (λ r. r.course_id) (tier_rows user tier rows)
