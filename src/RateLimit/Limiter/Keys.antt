-- ===== src/RateLimit/Limiter/Keys.antt =====
-- The test of equal keys.
use text.Mathlib.TextEquality.{eq_iff}
use text.Mathlib.TextPositions.{eq_refl}
use text.Mathlib.Text.{◌==◌ as str_eq}
use golf_rank.Base.{◌≡◌, refl, ap₂, inl, inr, true, [], ◌∷◌, arith, Bool-cases}
use golf_rank.RateLimit.Limiter.{Key, same_key}

pub same_key_refl : (k : Key) → same_key k k ≡ true
same_key_refl [] = refl
same_key_refl (x ∷ xs) = rw (eq_refl x) (same_key_refl xs)

pub same_key-eq : (k j : Key) → same_key k j ≡ true → k ≡ j
same_key-eq [] [] h = refl
same_key-eq [] (y ∷ ys) h = cc
same_key-eq (x ∷ xs) [] h = cc
same_key-eq (x ∷ xs) (y ∷ ys) h = elim (Bool-cases (str_eq x y)) [
  | inl e ↦ ap₂ (λ z zs. z ∷ zs) ((eq_iff x y).0 e) (same_key-eq xs ys (ground (arith, h)))
  | inr e ↦ absurd (ground (arith, h))
]
