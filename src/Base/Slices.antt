-- ===== src/Base/Slices.antt =====
-- `xs[:n]` and `xs[n:]` against `++` and filters.
use Prim.Native.Nat.{ℕ, zero, suc, ◌+◌, ◌≤◌, ◌<◌}
use mathlib.Core.Path.{◌≡◌, refl, sym, ap, ◌∙◌}
use mathlib.Core.Logic.{inl, inr}
use mathlib.Core.Bool.{Bool}
use mathlib.Core.List.{List, [], ◌∷◌, ◌++◌}
use native.Mathlib.Omega.{arith}
use golf_rank.Base.Tests.{Bool-cases}
use golf_rank.Base.Lists.{length, keep}
use golf_rank.Base.Sequences.{take, drop}

module _ {ℓ} {A : Type ℓ} where
  pub append_nil : (xs : List A) → xs ++ [] ≡ xs
  append_nil [] = refl
  append_nil (x ∷ xs) = ap (λ ys. x ∷ ys) (append_nil xs)

  pub append_assoc : (xs ys zs : List A) → (xs ++ ys) ++ zs ≡ xs ++ (ys ++ zs)
  append_assoc [] ys zs = refl
  append_assoc (x ∷ xs) ys zs = ap (λ ws. x ∷ ws) (append_assoc xs ys zs)

  pub take-drop : (n : ℕ) (xs : List A) → take n xs ++ drop n xs ≡ xs
  take-drop zero xs = refl
  take-drop (suc n) [] = refl
  take-drop (suc n) (x ∷ xs) = ap (λ ys. x ∷ ys) (take-drop n xs)

  pub drop-length-take : (n : ℕ) (xs : List A) → drop (length (take n xs)) xs ≡ drop n xs
  drop-length-take zero xs = refl
  drop-length-take (suc n) [] = refl
  drop-length-take (suc n) (x ∷ xs) = drop-length-take n xs

  drop_nil : (k : ℕ) → drop {A = A} k [] ≡ []
  drop_nil zero = refl
  drop_nil (suc k) = refl

  pub drop-drop : (m n : ℕ) (xs : List A) → drop n (drop m xs) ≡ drop (m + n) xs
  drop-drop zero n xs = ap (λ k. drop k xs) (nothing n)
    where
      nothing : (n : ℕ) → n ≡ 0 + n
      nothing n = omega arith
  drop-drop (suc m) n [] = drop_nil n ∙ sym (drop_nil (suc m + n))
  drop-drop (suc m) n (x ∷ xs) = drop-drop m n xs ∙ ap (λ k. drop k (x ∷ xs)) (shift m n)
    where
      shift : (m n : ℕ) → suc (m + n) ≡ suc m + n
      shift m n = omega arith

  pub take-short : (n : ℕ) (xs : List A) → length xs ≤ n → take n xs ≡ xs
  take-short zero [] h = refl
  take-short zero (x ∷ xs) h = absurd (impossible h)
    where
      impossible : suc (length xs) ≤ 0 → ⊥
      impossible h = omega arith
  take-short (suc n) [] h = refl
  take-short (suc n) (x ∷ xs) h = ap (λ ys. x ∷ ys) (take-short n xs (omega arith))

  -- What has n elements already is not changed by what follows.
  pub take-append : (n : ℕ) (xs ys : List A) → n ≤ length xs → take n (xs ++ ys) ≡ take n xs
  take-append zero xs ys h = refl
  take-append (suc n) [] ys h = absurd (impossible h)
    where
      impossible : suc n ≤ 0 → ⊥
      impossible h = omega arith
  take-append (suc n) (x ∷ xs) ys h = ap (λ zs. x ∷ zs) (take-append n xs ys (omega arith))

  pub take-take : (k m : ℕ) (zs : List A) → k ≤ m → take k (take m zs) ≡ take k zs
  take-take zero m zs h = refl
  take-take (suc k) zero zs h = absurd (impossible h)
    where
      impossible : suc k ≤ 0 → ⊥
      impossible h = omega arith
  take-take (suc k) (suc m) [] h = refl
  take-take (suc k) (suc m) (z ∷ zs) h = ap (λ ws. z ∷ ws) (take-take k m zs (omega arith))

  pub take-append-take :
      (n m : ℕ) (xs ys : List A) → n ≤ m → take n (xs ++ take m ys) ≡ take n (xs ++ ys)
  take-append-take zero m xs ys h = refl
  take-append-take (suc n) m [] ys h = take-take (suc n) m ys h
  take-append-take (suc n) m (x ∷ xs) ys h =
      ap (λ zs. x ∷ zs) (take-append-take n m xs ys (omega arith))

  pub length-take-le : (n : ℕ) (xs : List A) → length (take n xs) ≤ n
  length-take-le zero xs = omega arith
  length-take-le (suc n) [] = omega arith
  length-take-le (suc n) (x ∷ xs) = omega (arith, length-take-le n xs)

  pub length-take-eq : (n : ℕ) (xs : List A) → n ≤ length xs → length (take n xs) ≡ n
  length-take-eq zero xs h = refl
  length-take-eq (suc n) [] h = absurd (impossible h)
    where
      impossible : suc n ≤ 0 → ⊥
      impossible h = omega arith
  length-take-eq (suc n) (x ∷ xs) h = omega (arith, length-take-eq n xs (omega arith))

  pub keep-append : (p : A → Bool) (xs ys : List A) → keep p (xs ++ ys) ≡ keep p xs ++ keep p ys
  keep-append p [] ys = refl
  keep-append p (x ∷ xs) ys = elim (Bool-cases (p x)) [
    | inl e ↦ rw e (ap (λ zs. x ∷ zs) (keep-append p xs ys))
    | inr e ↦ rw e (keep-append p xs ys)
  ]

  pub length-take-short : (n : ℕ) (xs : List A) → length (take n xs) ≤ length xs
  length-take-short zero xs = omega arith
  length-take-short (suc n) [] = omega arith
  length-take-short (suc n) (x ∷ xs) = omega (arith, length-take-short n xs)

  -- A slice that is shorter than asked for is the whole list.
  pub take_whole : (n : ℕ) (xs : List A) → length (take n xs) < n → take n xs ≡ xs
  take_whole zero xs h = absurd (impossible h)
    where
      impossible : length (take {A = A} 0 xs) < 0 → ⊥
      impossible h = omega arith
  take_whole (suc n) [] h = refl
  take_whole (suc n) (x ∷ xs) h = ap (λ ys. x ∷ ys) (take_whole n xs (omega arith))
