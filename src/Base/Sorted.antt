-- ===== src/Base/Sorted.antt =====
-- `sorted` by a total preorder: its order, its elements, and filters before or after it.
use Prim.Native.Nat.{ℕ}
use mathlib.Core.Path.{◌≡◌, refl, sym, ap, ◌∙◌}
use mathlib.Core.Logic.{◌≢◌, inl, inr}
use mathlib.Core.Bool.{Bool, true, false}
use mathlib.Core.List.{List, [], ◌∷◌}
use golf_rank.Base.Tests.{if◌then◌else◌, Bool-cases}
use golf_rank.Base.Lists.{keep, All, All-map, All-keep}
use golf_rank.Base.Sequences.{insert_by, sort_by}
use golf_rank.Base.Distinct.{FreshIn, DistinctOn}

module _ {ℓ} {A : Type ℓ} (le : A → A → Bool) where
  abbrev pub Before : A → List A → Type 0
  Before x = All (λ y. le x y ≡ true)

  abbrev pub IsSorted : List A → Type 0
  IsSorted [] = Unit {0}
  IsSorted (x ∷ xs) = Before x xs × IsSorted xs

  All-insert_by {κ} :
      (P : A → Type κ) (x : A) (xs : List A) → P x → All P xs → All P (insert_by le x xs)
  All-insert_by P x [] h a = (h, tt)
  All-insert_by P x (y ∷ xs) h a = elim (Bool-cases (le x y)) [
    | inl e ↦ rw e (h, a)
    | inr e ↦ rw e (a.0, All-insert_by P x xs h a.1)
  ]

  pub All-sort_by {κ} : (P : A → Type κ) (xs : List A) → All P xs → All P (sort_by le xs)
  All-sort_by P [] a = tt
  All-sort_by P (x ∷ xs) a = All-insert_by P x (sort_by le xs) a.0 (All-sort_by P xs a.1)

  module _ (key : A → ℕ) where
    DistinctOn-insert_by :
        (x : A) (xs : List A)
        → FreshIn key (key x) xs
        → DistinctOn key xs
        → DistinctOn key (insert_by le x xs)
    DistinctOn-insert_by x [] f d = (tt, tt)
    DistinctOn-insert_by x (y ∷ xs) f d = elim (Bool-cases (le x y)) [
      | inl e ↦ rw e (f, d)
      | inr e ↦ rw e (
        All-insert_by (λ z. key z ≢ key y) x xs (λ q. f.0 (sym q)) d.0,
        DistinctOn-insert_by x xs f.1 d.1,
      )
    ]

    pub DistinctOn-sort_by : (xs : List A) → DistinctOn key xs → DistinctOn key (sort_by le xs)
    DistinctOn-sort_by [] d = tt
    DistinctOn-sort_by (x ∷ xs) d =
        DistinctOn-insert_by x (sort_by le xs) (All-sort_by (λ z. key z ≢ key x) xs d.0)
          (DistinctOn-sort_by xs d.1)

  module _ (total : (a b : A) → le a b ≡ false → le b a ≡ true)
      (trans : (a b c : A) → le a b ≡ true → le b c ≡ true → le a c ≡ true) where
    Before-trans : (x y : A) (ys : List A) → le x y ≡ true → Before y ys → Before x ys
    Before-trans x y ys e a = All-map (λ z h. trans x y z e h) ys a

    IsSorted-insert_by : (x : A) (xs : List A) → IsSorted xs → IsSorted (insert_by le x xs)
    IsSorted-insert_by x [] s = (tt, tt)
    IsSorted-insert_by x (y ∷ xs) s = elim (Bool-cases (le x y)) [
      | inl e ↦ rw e ((e, Before-trans x y xs e s.0), s)
      | inr e ↦
          rw e
            (All-insert_by (λ z. le y z ≡ true) x xs (total x y e) s.0, IsSorted-insert_by x xs s.1)
    ]

    pub IsSorted-sort_by : (xs : List A) → IsSorted (sort_by le xs)
    IsSorted-sort_by [] = tt
    IsSorted-sort_by (x ∷ xs) = IsSorted-insert_by x (sort_by le xs) (IsSorted-sort_by xs)

    pub IsSorted-keep : (p : A → Bool) (xs : List A) → IsSorted xs → IsSorted (keep p xs)
    IsSorted-keep p [] s = tt
    IsSorted-keep p (x ∷ xs) s = elim (Bool-cases (p x)) [
      | inl e ↦ rw e (All-keep (λ z. le x z ≡ true) p xs s.0, IsSorted-keep p xs s.1)
      | inr e ↦ rw e (IsSorted-keep p xs s.1)
    ]

    insert_by-front : (x : A) (xs : List A) → Before x xs → insert_by le x xs ≡ x ∷ xs
    insert_by-front x [] b = refl
    insert_by-front x (y ∷ xs) b = rw b.0 refl

    keep-insert_by :
        (p : A → Bool) (x : A) (xs : List A)
        → IsSorted xs
        → keep p (insert_by le x xs) ≡ (if p x then insert_by le x (keep p xs) else keep p xs)
    keep-insert_by p x [] s = refl
    keep-insert_by p x (y ∷ xs) s =
        let step = keep-insert_by p x xs s.1 in
        let chosen = λ (b : Bool). if b then insert_by le x (keep p xs) else keep p xs in
        elim (Bool-cases (le x y)) [
          | inl e ↦ rw e (elim (Bool-cases (p x)) [
            | inl k ↦ rw k (
                sym (
                  insert_by-front x (keep p (y ∷ xs))
                    (All-keep (λ z. le x z ≡ true) p (y ∷ xs) (e, Before-trans x y xs e s.0))))
            | inr k ↦ rw k refl
          ])
          | inr e ↦ rw e (elim (Bool-cases (p x)) [
            | inl k ↦ rw k (elim (Bool-cases (p y)) [
              | inl q ↦ rw q (rw e (ap (λ zs. y ∷ zs) (step ∙ ap chosen k)))
              | inr q ↦ rw q (step ∙ ap chosen k)
            ])
            | inr k ↦ rw k (elim (Bool-cases (p y)) [
              | inl q ↦ rw q (ap (λ zs. y ∷ zs) (step ∙ ap chosen k))
              | inr q ↦ rw q (step ∙ ap chosen k)
            ])
          ])
        ]

    -- A filter before the sort is a filter after it.
    pub keep-sort_by :
        (p : A → Bool) (xs : List A) → keep p (sort_by le xs) ≡ sort_by le (keep p xs)
    keep-sort_by p [] = refl
    keep-sort_by p (x ∷ xs) =
        keep-insert_by p x (sort_by le xs) (IsSorted-sort_by xs) ∙ elim (Bool-cases (p x)) [
          | inl e ↦ rw e (ap (insert_by le x) (keep-sort_by p xs))
          | inr e ↦ rw e (keep-sort_by p xs)
        ]
