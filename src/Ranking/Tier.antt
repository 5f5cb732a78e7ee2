-- ===== src/Ranking/Tier.antt =====
-- The tiers of ranking.py: `TIER_ORDER`, `TIER_BANDS` in tenths of a point, and `LEGACY_TIERS`.
use golf_rank.Base.{ℕ, ◌≡◌, Bool, true, Option, none, some, List, [], ◌∷◌, arith, ◌==◌}

pub data Tier : Type 0 where
  green fairway rough bunker not_sure : Tier

abbrev pub tier_order : List Tier
tier_order = green ∷ fairway ∷ rough ∷ bunker ∷ not_sure ∷ []

-- The place of a tier in `tier_order`.
abbrev pub tier_index : Tier → ℕ
tier_index green = 0
tier_index fairway = 1
tier_index rough = 2
tier_index bunker = 3
tier_index not_sure = 4

abbrev pub same_tier : Tier → Tier → Bool
same_tier s t = tier_index s == tier_index t

abbrev pub tier_bands : Tier → Option (ℕ × ℕ)
tier_bands green = some (85, 100)
tier_bands fairway = some (70, 84)
tier_bands rough = some (50, 69)
tier_bands bunker = some (10, 49)
tier_bands not_sure = none

pub same_tier-eq : (s t : Tier) → same_tier s t ≡ true → s ≡ t
same_tier-eq s t h = ground arith
