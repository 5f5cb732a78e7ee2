-- ===== src/Ranking/Table/Distinct.antt =====
-- The primary key of `tier_assignments`.
use mathlib.Core.List.{Permᴰ}
use golf_rank.Base.{
  ℕ, ◌+◌, ◌≡◌, sym, subst, ◌≢◌, Bool, List, [], ◌∷◌, map, arith, All, All-keep, keep,
}
use golf_rank.Ranking.Table.{Assignment, place_row, write_positions}

abbrev pub Fresh : ℕ → List Assignment → Type 0
Fresh i = All (λ r. r.id ≢ i)

abbrev pub DistinctIds : List Assignment → Type 0
DistinctIds [] = Unit {0}
DistinctIds (r ∷ rows) = Fresh r.id rows × DistinctIds rows

pub DistinctIds-keep :
    (p : Assignment → Bool) (rows : List Assignment) → DistinctIds rows → DistinctIds (keep p rows)
DistinctIds-keep p [] h = tt
DistinctIds-keep p (r ∷ rows) h =
    ground
      (arith, DistinctIds-keep p rows h.1, All-keep (λ (s : Assignment). s.id ≢ r.id) p rows h.0)

pub Fresh-map_place :
    (i k j : ℕ) (rows : List Assignment) → Fresh j rows → Fresh j (map (place_row i k) rows)
Fresh-map_place i k j [] h = tt
Fresh-map_place i k j (r ∷ rows) h = (ground arith, Fresh-map_place i k j rows h.1)

pub DistinctIds-map_place :
    (i k : ℕ) (rows : List Assignment) → DistinctIds rows → DistinctIds (map (place_row i k) rows)
DistinctIds-map_place i k [] h = tt
DistinctIds-map_place i k (r ∷ rows) h = (
  subst (λ j. Fresh j (map (place_row i k) rows)) (ground arith)
      (Fresh-map_place i k r.id rows h.0),
  DistinctIds-map_place i k rows h.1,
)

pub DistinctIds-write_positions :
    (k : ℕ) (order rows : List Assignment)
    → DistinctIds rows
    → DistinctIds (write_positions k order rows)
unfolding write_positions
DistinctIds-write_positions k [] rows h = h
DistinctIds-write_positions k (r ∷ order) rows h =
    DistinctIds-write_positions (k + 1) order _ (DistinctIds-map_place r.id k rows h)

pub Fresh-perm : (i : ℕ) {xs ys : List Assignment} → Permᴰ xs ys → Fresh i xs → Fresh i ys
Fresh-perm i Permᴰ.nil h = tt
Fresh-perm i (Permᴰ.cons e p) h = (subst (λ (r : Assignment). r.id ≢ i) e h.0, Fresh-perm i p h.1)
Fresh-perm i (Permᴰ.swap e f) h = (
  subst (λ (r : Assignment). r.id ≢ i) f h.1.0,
  (subst (λ (r : Assignment). r.id ≢ i) e h.0, h.1.1),
)
Fresh-perm i (Permᴰ.trans p q) h = Fresh-perm i q (Fresh-perm i p h)

DistinctIds-swap :
    (a b c d : Assignment) (l : List Assignment)
    → a ≡ d
    → b ≡ c
    → DistinctIds (a ∷ b ∷ l)
    → DistinctIds (c ∷ d ∷ l)
DistinctIds-swap a b c d l e f h =
    subst (λ x. DistinctIds (x ∷ d ∷ l)) f
      (subst (λ x. DistinctIds (b ∷ x ∷ l)) e (((λ p. h.0.0 (sym p)), h.1.0), (h.0.1, h.1.1)))

pub DistinctIds-perm : {xs ys : List Assignment} → Permᴰ xs ys → DistinctIds xs → DistinctIds ys
DistinctIds-perm Permᴰ.nil h = tt
DistinctIds-perm (Permᴰ.cons {a = a} {b = b} {l₂ = l} e p) h =
    (subst (λ (x : Assignment). Fresh x.id l) e (Fresh-perm a.id p h.0), DistinctIds-perm p h.1)
DistinctIds-perm (Permᴰ.swap {a = a} {b = b} {a' = c} {b' = d} {l = l} e f) h =
    DistinctIds-swap a b c d l e f h
DistinctIds-perm (Permᴰ.trans p q) h = DistinctIds-perm q (DistinctIds-perm p h)
