-- ===== src/Ranking/Normalize.antt =====
-- `_normalize_positions` of ranking.py: the positions of every tier of a user become 1, 2, 3, ...
pub mod Dense
use golf_rank.Base.{ℕ, ◌+◌, Bool, List, [], ◌∷◌, ◌++◌, ◌==◌, keep, sort_by}
use golf_rank.Ranking.Tier.{Tier, tier_order, same_tier}
use golf_rank.Ranking.Table.{Assignment, before, write_positions, renumber}

-- `select(TierAssignment).where(user_id == user).order_by(...)`
abbrev pub user_rows : ℕ → List Assignment → List Assignment
user_rows user rows = sort_by before (keep (λ r. r.user_id == user) rows)

-- `grouped[tier]`
abbrev pub group : Tier → List Assignment → List Assignment
group tier rows = keep (λ r. same_tier r.tier tier) rows

-- `for tier in tiers: for position, a in enumerate(grouped[tier], start=1): ...`
unfoldable pub write_groups : List Tier → List Assignment → List Assignment → List Assignment
write_groups [] grouped rows = rows
write_groups (tier ∷ tiers) grouped rows =
    write_groups tiers grouped (write_positions 1 (group tier grouped) rows)

unfoldable pub normalize_positions : ℕ → List Assignment → List Assignment
normalize_positions user rows = write_groups tier_order (user_rows user rows) rows

-- The list that the function returns: its rows tier by tier, renumbered.
unfoldable pub ordered_groups : List Tier → List Assignment → List Assignment
ordered_groups [] grouped = []
ordered_groups (tier ∷ tiers) grouped =
    renumber 1 (group tier grouped) ++ ordered_groups tiers grouped

unfoldable pub normalized_order : ℕ → List Assignment → List Assignment
normalized_order user rows = ordered_groups tier_order (user_rows user rows)
