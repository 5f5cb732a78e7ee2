-- ===== src/Ranking/Table/Saved.antt =====
-- A saved row, and the rows that have another id.
use mathlib.Core.List.{Permᴰ}
use mathlib.Core.List.Permᴰ
use golf_rank.Base.{
  ℕ, ◌≡◌, ◌≢◌, refl, sym, subst, inl, inr, not, List, [], ◌∷◌, arith, ◌==◌, Bool-cases, keep,
}
use golf_rank.Ranking.Table.{Assignment, save_row}
use golf_rank.Ranking.Table.Distinct.{Fresh, DistinctIds}

abbrev pub others : ℕ → List Assignment → List Assignment
others i rows = keep (λ r. not (r.id == i)) rows

pub others-Fresh : (i : ℕ) (rows : List Assignment) → Fresh i rows → others i rows ≡ rows
others-Fresh i [] h = refl
others-Fresh i (r ∷ rows) h = ground (arith, others-Fresh i rows h.1)

pub save_row-perm :
    (a : Assignment) (rows : List Assignment)
    → DistinctIds rows
    → Permᴰ (save_row a rows) (a ∷ others a.id rows)
unfolding save_row
save_row-perm a [] h = Permᴰ.refl _
save_row-perm a (r ∷ rows) h = elim (Bool-cases (r.id == a.id)) [
  | inl e ↦ rw e (
      Permᴰ.cons refl (
        subst (Permᴰ rows)
          (sym (others-Fresh a.id rows (subst (λ i. Fresh i rows) (ground arith) h.0)))
          (Permᴰ.refl rows)))
  | inr e ↦ rw e (Permᴰ.trans (Permᴰ.cons refl (save_row-perm a rows h.1)) (Permᴰ.swap refl refl))
]

Fresh-save_row :
    (i : ℕ) (a : Assignment) (rows : List Assignment)
    → a.id ≢ i
    → Fresh i rows
    → Fresh i (save_row a rows)
unfolding save_row
Fresh-save_row i a [] h k = (h, tt)
Fresh-save_row i a (r ∷ rows) h k = elim (Bool-cases (r.id == a.id)) [
  | inl e ↦ rw e (h, k.1)
  | inr e ↦ rw e (k.0, Fresh-save_row i a rows h k.1)
]

pub DistinctIds-save_row :
    (a : Assignment) (rows : List Assignment) → DistinctIds rows → DistinctIds (save_row a rows)
unfolding save_row
DistinctIds-save_row a [] h = (tt, tt)
DistinctIds-save_row a (r ∷ rows) h = elim (Bool-cases (r.id == a.id)) [
  | inl e ↦ rw e (subst (λ i. Fresh i rows) (ground arith) h.0, h.1)
  | inr e ↦ rw e (Fresh-save_row r.id a rows (ground arith) h.0, DistinctIds-save_row a rows h.1)
]
