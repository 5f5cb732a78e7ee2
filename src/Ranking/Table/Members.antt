-- ===== src/Ranking/Table/Members.antt =====
-- A row that a lookup found, among the rows of a query.
use mathlib.Core.List.{Permᴰ}
use golf_rank.Base.{
  ◌≡◌, refl, subst, ◌∙◌, inl, inr, Bool, true, List, [], ◌∷◌, arith, Bool-cases, if◌then◌else◌, All,
  any, keep, insert_by, sort_by,
}
use golf_rank.Ranking.Table.{Assignment, before}

pub All-perm :
    (P : Assignment → Type 0) {xs ys : List Assignment} → Permᴰ xs ys → All P xs → All P ys
All-perm P Permᴰ.nil h = tt
All-perm P (Permᴰ.cons e p) h = (subst P e h.0, All-perm P p h.1)
All-perm P (Permᴰ.swap e f) h = (subst P f h.1.0, (subst P e h.0, h.1.1))
All-perm P (Permᴰ.trans p q) h = All-perm P q (All-perm P p h)

-- What follows from the test holds of all that pass it.
pub All-kept :
    (P : Assignment → Type 0) (p : Assignment → Bool) (rows : List Assignment)
    → All (λ r. p r ≡ true → P r) rows
    → All P (keep p rows)
All-kept P p [] h = tt
All-kept P p (r ∷ rows) h = elim (Bool-cases (p r)) [
  | inl e ↦ rw e (h.0 e, All-kept P p rows h.1)
  | inr e ↦ rw e (All-kept P p rows h.1)
]

any-insert_by :
    (p : Assignment → Bool) (r : Assignment) (rows : List Assignment)
    → any p (insert_by before r rows) ≡ (if p r then true else any p rows)
any-insert_by p r [] = refl
any-insert_by p r (s ∷ rows) = elim (Bool-cases (before r s)) [
  | inl e ↦ rw e
  | inr e ↦ rw (e, any-insert_by p r rows) (swap_tests (p s) (p r) (any p rows))
]
  where
    swap_tests :
        (a b c : Bool)
        → (if a then true else if b then true else c) ≡ (if b then true else if a then true else c)
    swap_tests a b c = ground arith

pub any-sort_by :
    (p : Assignment → Bool) (rows : List Assignment) → any p (sort_by before rows) ≡ any p rows
any-sort_by p [] = refl
any-sort_by p (r ∷ rows) = any-insert_by p r (sort_by before rows) ∙ rw (any-sort_by p rows)
