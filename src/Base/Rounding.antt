-- ===== src/Base/Rounding.antt =====
-- Python's `round(x, k)` on a fraction x, in units of the last kept digit. What the proofs use of
-- it is that it answers a nearest whole number; how a tie falls is left to the instance.
use mathlib.Core.Path.{◌≡◌}
use mathlib.Core.Logic.{◌⊎◌, inl, inr}
use Prim.Native.Nat.{ℕ, ◌+◌, ◌*◌, ◌/◌, ◌%◌, ◌≤◌, ◌<◌}
use native.Mathlib.Nat.{div-add-mod, mod-lt}
use native.Mathlib.Omega.{arith}
use golf_rank.Base.Tests.{ltb, ◌==◌, if◌then◌else◌}

pub record Rounding : Type 0 where
  -- `round_quot a b` rounds a / b.
  pub round_quot : ℕ → ℕ → ℕ
  pub not_below : (a b : ℕ) → 0 < b → 2 * a ≤ 2 * (b * round_quot a b) + b
  pub not_above : (a b : ℕ) → 0 < b → 2 * (b * round_quot a b) ≤ 2 * a + b

-- A tie goes to the even neighbour.
round_up : ℕ → ℕ → ℕ → ℕ
round_up q twice b =
    if ltb twice b then 0 else if ltb b twice then 1 else if q % 2 == 0 then 0 else 1

unfoldable pub round_half_even : ℕ → ℕ → ℕ
unfolding round_up
round_half_even a b = a / b + round_up (a / b) (2 * (a % b)) b

round_up_cases :
    (q twice b : ℕ)
    → (round_up q twice b ≡ 0) × (twice ≤ b) ⊎ (round_up q twice b ≡ 1) × (b ≤ twice)
unfolding round_up
round_up_cases q twice b = ground arith

pub half_even_nearest :
    (a b : ℕ)
    → 0 < b
    → (2 * a ≤ 2 * (b * round_half_even a b) + b) × (2 * (b * round_half_even a b) ≤ 2 * a + b)
unfolding round_half_even
half_even_nearest a b h = elim (round_up_cases (a / b) (2 * (a % b)) b) [
  | inl (e, le) ↦ rw e (omega (arith, div-add-mod a b, mod-lt a h))
  | inr (e, le) ↦ rw e (omega (arith, div-add-mod a b, mod-lt a h))
]

abbrev pub half_even : Rounding
half_even = record {
  round_quot = round_half_even;
  not_below = λ a b h. (half_even_nearest a b h).0;
  not_above = λ a b h. (half_even_nearest a b h).1;
}

module _ (rd : Rounding) where
  open rd use {round_quot, not_below, not_above}

  pub round_quot-le : (a b h : ℕ) → 0 < b → a ≤ h * b → round_quot a b ≤ h
  round_quot-le a b h p q = grind (arith, not_above a b p)

  pub le-round_quot : (a b l : ℕ) → 0 < b → l * b ≤ a → l ≤ round_quot a b
  le-round_quot a b l p q = grind (arith, not_below a b p)

  pub round_quot_mono : (a c b : ℕ) → 0 < b → a ≤ c → round_quot a b ≤ round_quot c b
  round_quot_mono a c b p q = grind (arith, not_above a b p, not_below c b p)

  pub round_quot-exact : (a b h : ℕ) → 0 < b → a ≡ h * b → round_quot a b ≡ h
  round_quot-exact a b h p q =
      omega (arith, round_quot-le a b h p (omega arith), le-round_quot a b h p (omega arith))
