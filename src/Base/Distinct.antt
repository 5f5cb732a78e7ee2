-- ===== src/Base/Distinct.antt =====
-- Rows with different numbers, a table under its primary key, and relations between any two rows.
use Prim.Native.Nat.{ℕ}
use mathlib.Core.Path.{sym}
use mathlib.Core.Logic.{◌≢◌, inl, inr}
use mathlib.Core.Bool.{Bool}
use mathlib.Core.List.{List, [], ◌∷◌, ◌++◌, map}
use golf_rank.Base.Tests.{Bool-cases}
use golf_rank.Base.Lists.{keep, All, All-keep, All-append}

module _ {ℓ} {A : Type ℓ} (key : A → ℕ) where
  abbrev pub FreshIn : ℕ → List A → Type 0
  FreshIn k = All (λ x. key x ≢ k)

  abbrev pub DistinctOn : List A → Type 0
  DistinctOn [] = Unit {0}
  DistinctOn (x ∷ xs) = FreshIn (key x) xs × DistinctOn xs

  pub DistinctOn-keep : (p : A → Bool) (xs : List A) → DistinctOn xs → DistinctOn (keep p xs)
  DistinctOn-keep p [] h = tt
  DistinctOn-keep p (x ∷ xs) h = elim (Bool-cases (p x)) [
    | inl e ↦ rw e (All-keep (λ y. key y ≢ key x) p xs h.0, DistinctOn-keep p xs h.1)
    | inr e ↦ rw e (DistinctOn-keep p xs h.1)
  ]

  pub DistinctOn-append :
      (xs : List A) (x : A) → DistinctOn xs → FreshIn (key x) xs → DistinctOn (xs ++ x ∷ [])
  DistinctOn-append [] x h f = (tt, tt)
  DistinctOn-append (y ∷ xs) x h f = (
    All-append (λ z. key z ≢ key y) xs (x ∷ []) h.0 ((λ e. f.0 (sym e)), tt),
    DistinctOn-append xs x h.1 f.1,
  )

-- Each element stands to every later one as `R` says.
abbrev pub Pairwise {ℓ κ} : {A : Type ℓ} → (A → A → Type κ) → List A → Type κ
Pairwise R [] = Unit
Pairwise R (x ∷ xs) = All (R x) xs × Pairwise R xs

module _ {ℓ κ} {A : Type ℓ} (R : A → A → Type κ) where
  pub Pairwise-keep : (p : A → Bool) (xs : List A) → Pairwise R xs → Pairwise R (keep p xs)
  Pairwise-keep p [] h = tt
  Pairwise-keep p (x ∷ xs) h = elim (Bool-cases (p x)) [
    | inl e ↦ rw e (All-keep (R x) p xs h.0, Pairwise-keep p xs h.1)
    | inr e ↦ rw e (Pairwise-keep p xs h.1)
  ]

  pub Pairwise-append :
      (xs : List A) (x : A) → Pairwise R xs → All (λ y. R y x) xs → Pairwise R (xs ++ x ∷ [])
  Pairwise-append [] x h f = (tt, tt)
  Pairwise-append (y ∷ xs) x h f =
      (All-append (R y) xs (x ∷ []) h.0 (f.0, tt), Pairwise-append xs x h.1 f.1)

  pub All-mapped :
      (f : A → A) (x : A) (xs : List A)
      → ((y : A) → R x y → R (f x) (f y))
      → All (R x) xs
      → All (R (f x)) (map f xs)
  All-mapped f x [] keeps h = tt
  All-mapped f x (y ∷ xs) keeps h = (keeps y h.0, All-mapped f x xs keeps h.1)

  pub Pairwise-map :
      (f : A → A) (xs : List A)
      → ((x y : A) → R x y → R (f x) (f y))
      → Pairwise R xs
      → Pairwise R (map f xs)
  Pairwise-map f [] keeps h = tt
  Pairwise-map f (x ∷ xs) keeps h = (All-mapped f x xs (keeps x) h.0, Pairwise-map f xs keeps h.1)
