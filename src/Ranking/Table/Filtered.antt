-- ===== src/Ranking/Table/Filtered.antt =====
-- Filters over arrangements of rows and over sorted rows.
use mathlib.Core.List.{Permᴰ}
use mathlib.Core.List.Permᴰ
use golf_rank.Base.{
  ◌≡◌, refl, sym, ap, ◌∙◌, inl, inr, Bool, true, false, List, [], ◌∷◌, subst, arith, Bool-cases,
  All, All-keep, keep, insert_by, sort_by,
}
use golf_rank.Ranking.Table.{Assignment, before}
use golf_rank.Ranking.Table.Distinct.{DistinctIds, DistinctIds-keep}
use golf_rank.Ranking.Table.Order.{sort_by-perm, sort_by_unique}

keep_swap :
    (p : Assignment → Bool) (a b : Assignment) (l : List Assignment)
    → Permᴰ (keep p (a ∷ b ∷ l)) (keep p (b ∷ a ∷ l))
keep_swap p a b l = elim (Bool-cases (p a)) [
  | inl ea ↦ elim (Bool-cases (p b)) [
    | inl eb ↦ rw (ea, eb) (Permᴰ.swap refl refl)
    | inr eb ↦ rw (ea, eb) (Permᴰ.refl _)
  ]
  | inr ea ↦ elim (Bool-cases (p b)) [
    | inl eb ↦ rw (ea, eb) (Permᴰ.refl _)
    | inr eb ↦ rw (ea, eb) (Permᴰ.refl _)
  ]
]

keep_cons :
    (p : Assignment → Bool) (a : Assignment) (xs ys : List Assignment)
    → Permᴰ (keep p xs) (keep p ys)
    → Permᴰ (keep p (a ∷ xs)) (keep p (a ∷ ys))
keep_cons p a xs ys h = elim (Bool-cases (p a)) [
  | inl e ↦ rw e (Permᴰ.cons refl h)
  | inr e ↦ rw e h
]

pub keep-perm :
    (p : Assignment → Bool) {xs ys : List Assignment} → Permᴰ xs ys → Permᴰ (keep p xs) (keep p ys)
keep-perm p Permᴰ.nil = Permᴰ.nil
keep-perm p (Permᴰ.cons {a = a} {l₁ = xs} {l₂ = ys} e h) =
    subst (λ b. Permᴰ (keep p (a ∷ xs)) (keep p (b ∷ ys))) e (keep_cons p a xs ys (keep-perm p h))
keep-perm p (Permᴰ.swap {a = a} {b = b} {a' = c} {l = l} e f) =
    subst (λ d. Permᴰ (keep p (a ∷ b ∷ l)) (keep p (c ∷ d ∷ l))) e
      (subst (λ c. Permᴰ (keep p (a ∷ b ∷ l)) (keep p (c ∷ a ∷ l))) f (keep_swap p a b l))
keep-perm p (Permᴰ.trans g h) = Permᴰ.trans (keep-perm p g) (keep-perm p h)

abbrev IsSorted : List Assignment → Type 0
IsSorted [] = Unit {0}
IsSorted (r ∷ rows) = All (λ s. before r s ≡ true) rows × IsSorted rows

All-insert_by :
    (r s : Assignment) (rows : List Assignment)
    → before r s ≡ true
    → All (λ x. before r x ≡ true) rows
    → All (λ x. before r x ≡ true) (insert_by before s rows)
All-insert_by r s [] h k = (h, tt)
All-insert_by r s (x ∷ rows) h k = elim (Bool-cases (before s x)) [
  | inl e ↦ rw e (h, k)
  | inr e ↦ rw e (k.0, All-insert_by r s rows h k.1)
]

before_trans : (a b c : Assignment) → before a b ≡ true → before b c ≡ true → before a c ≡ true
before_trans a b c h k = ground arith

All-before :
    (r s : Assignment) (rows : List Assignment)
    → before r s ≡ true
    → All (λ x. before s x ≡ true) rows
    → All (λ x. before r x ≡ true) rows
All-before r s [] h k = tt
All-before r s (x ∷ rows) h k = (before_trans r s x h k.0, All-before r s rows h k.1)

before_total : (r s : Assignment) → before r s ≡ false → before s r ≡ true
before_total r s h = ground arith

insert_by-IsSorted :
    (r : Assignment) (rows : List Assignment) → IsSorted rows → IsSorted (insert_by before r rows)
insert_by-IsSorted r [] h = (tt, tt)
insert_by-IsSorted r (s ∷ rows) h = elim (Bool-cases (before r s)) [
  | inl e ↦ rw e ((e, All-before r s rows e h.0), h)
  | inr e ↦ rw e (All-insert_by s r rows (before_total r s e) h.0, insert_by-IsSorted r rows h.1)
]

sort_by-IsSorted : (rows : List Assignment) → IsSorted (sort_by before rows)
sort_by-IsSorted [] = tt
sort_by-IsSorted (r ∷ rows) = insert_by-IsSorted r _ (sort_by-IsSorted rows)

keep-IsSorted :
    (p : Assignment → Bool) (rows : List Assignment) → IsSorted rows → IsSorted (keep p rows)
keep-IsSorted p [] h = tt
keep-IsSorted p (r ∷ rows) h = elim (Bool-cases (p r)) [
  | inl e ↦ rw e (All-keep (λ x. before r x ≡ true) p rows h.0, keep-IsSorted p rows h.1)
  | inr e ↦ rw e (keep-IsSorted p rows h.1)
]

insert_by_head :
    (r : Assignment) (rows : List Assignment)
    → All (λ x. before r x ≡ true) rows
    → insert_by before r rows ≡ r ∷ rows
insert_by_head r [] h = refl
insert_by_head r (s ∷ rows) h = rw h.0

sort_by_sorted : (rows : List Assignment) → IsSorted rows → sort_by before rows ≡ rows
sort_by_sorted [] h = refl
sort_by_sorted (r ∷ rows) h =
    ap (insert_by before r) (sort_by_sorted rows h.1) ∙ insert_by_head r rows h.0

-- Filtering and ordering can be exchanged.
pub keep-sort_by :
    (p : Assignment → Bool) (rows : List Assignment)
    → DistinctIds rows
    → keep p (sort_by before rows) ≡ sort_by before (keep p rows)
keep-sort_by p rows d =
    sym (sort_by_sorted _ (keep-IsSorted p _ (sort_by-IsSorted rows)))
    ∙ sym
        (sort_by_unique (Permᴰ.symm (keep-perm p (sort_by-perm rows))) (DistinctIds-keep p rows d))
