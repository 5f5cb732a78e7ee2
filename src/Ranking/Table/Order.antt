-- ===== src/Ranking/Table/Order.antt =====
-- The order of the query of a tier, and the order in which the table holds its rows.
use mathlib.Core.List.{Permᴰ}
use mathlib.Core.List.Permᴰ
use golf_rank.Base.{
  ℕ, ◌+◌, ◌≡◌, refl, sym, ap, ◌∙◌, ◌≢◌, List, [], ◌∷◌, inl, inr, arith, Bool-cases, insert_by,
  sort_by,
}
use golf_rank.Ranking.Table.{Assignment, before, renumber}
use golf_rank.Ranking.Table.Distinct.{DistinctIds, DistinctIds-perm}

pub insert_by-perm :
    (r : Assignment) (rows : List Assignment) → Permᴰ (insert_by before r rows) (r ∷ rows)
insert_by-perm r [] = Permᴰ.refl _
insert_by-perm r (s ∷ rows) = elim (Bool-cases (before r s)) [
  | inl e ↦ rw e (Permᴰ.refl _)
  | inr e ↦ rw e (Permᴰ.trans (Permᴰ.cons refl (insert_by-perm r rows)) (Permᴰ.swap refl refl))
]

pub sort_by-perm : (rows : List Assignment) → Permᴰ (sort_by before rows) rows
sort_by-perm [] = Permᴰ.nil
sort_by-perm (r ∷ rows) =
    Permᴰ.trans (insert_by-perm r (sort_by before rows)) (Permᴰ.cons refl (sort_by-perm rows))

insert_comm :
    (r s : Assignment) (rows : List Assignment)
    → r.id ≢ s.id
    → insert_by before r (insert_by before s rows) ≡ insert_by before s (insert_by before r rows)
insert_comm r s [] h = ground arith
insert_comm r s (t ∷ rows) h = ground (arith, insert_comm r s rows h)

sort_by_swap :
    (a b c d : Assignment) (rows : List Assignment)
    → a ≡ d
    → b ≡ c
    → b.id ≢ a.id
    → sort_by before (a ∷ b ∷ rows) ≡ sort_by before (c ∷ d ∷ rows)
sort_by_swap a b c d rows e f h = insert_comm a b (sort_by before rows) (λ p. h (sym p)) ∙ cc (e, f)

-- Distinct ids make the order total, so any arrangement of the rows sorts to the same list.
pub sort_by_unique :
    {xs ys : List Assignment} → Permᴰ xs ys → DistinctIds xs → sort_by before xs ≡ sort_by before ys
sort_by_unique Permᴰ.nil h = refl
sort_by_unique (Permᴰ.cons {b = b} e p) h = cc (e, sort_by_unique p h.1)
sort_by_unique (Permᴰ.swap {a = a} {b = b} {a' = c} {b' = d} {l = l} e f) h =
    sort_by_swap a b c d l e f h.0.0
sort_by_unique (Permᴰ.trans p q) h = sort_by_unique p h ∙ sort_by_unique q (DistinctIds-perm p h)

-- Rows with rising positions are in order already.
insert_by_first :
    (r : Assignment) (k : ℕ) (rows : List Assignment)
    → insert_by before (record r { ordinal_position = k }) (renumber (k + 1) rows)
      ≡ record r { ordinal_position = k } ∷ renumber (k + 1) rows
unfolding renumber
insert_by_first r k [] = refl
insert_by_first r k (s ∷ rows) = ground arith

pub sort_by-renumber :
    (k : ℕ) (rows : List Assignment) → sort_by before (renumber k rows) ≡ renumber k rows
unfolding renumber
sort_by-renumber k [] = refl
sort_by-renumber k (r ∷ rows) =
    ap (insert_by before (record r { ordinal_position = k })) (sort_by-renumber (k + 1) rows)
    ∙ insert_by_first r k rows
