-- ===== src/Ranking/Table/Positions.antt =====
-- What the loop over `enumerate(order, start=1)` leaves behind in the query of a tier.
use mathlib.Core.List.{Permᴰ}
use mathlib.Core.List.Permᴰ
use golf_rank.Base.{
  ℕ, ◌+◌, ◌≡◌, refl, ap, ◌∙◌, List, [], ◌∷◌, map, arith, keep, sort_by, Bool-cases, inl, inr, ◌==◌,
  ==-refl, keep-map, ap₂,
}
use golf_rank.Ranking.Tier.{Tier}
use golf_rank.Ranking.Table.{
  Assignment, before, in_tier, tier_rows, place_row, write_positions, renumber,
}
use golf_rank.Ranking.Table.Distinct.{
  Fresh, DistinctIds, DistinctIds-perm, DistinctIds-keep, DistinctIds-write_positions,
}
use golf_rank.Ranking.Table.Order.{sort_by_unique, sort_by-renumber}

in_tier-place_row :
    (u : ℕ) (t : Tier) (i k : ℕ) (r : Assignment) → in_tier u t (place_row i k r) ≡ in_tier u t r
in_tier-place_row u t i k r = elim (Bool-cases (r.id == i)) [ inl e ↦ rw e | inr e ↦ rw e ]

pub keep-write_positions :
    (u : ℕ) (t : Tier) (k : ℕ) (order rows : List Assignment)
    → keep (in_tier u t) (write_positions k order rows)
      ≡ write_positions k order (keep (in_tier u t) rows)
unfolding write_positions
keep-write_positions u t k [] rows = refl
keep-write_positions u t k (r ∷ order) rows =
    keep-write_positions u t (k + 1) order _
    ∙ ap (write_positions (k + 1) order)
        (keep-map (in_tier u t) (place_row r.id k) rows (in_tier-place_row u t r.id k))

map_place_absent :
    (i k : ℕ) (rows : List Assignment) → Fresh i rows → map (place_row i k) rows ≡ rows
map_place_absent i k [] h = refl
map_place_absent i k (r ∷ rows) h = ground (arith, map_place_absent i k rows h.1)

-- Writing to rows of other ids passes a row by.
pub write_positions_absent :
    (k : ℕ) (order : List Assignment) (r : Assignment) (rows : List Assignment)
    → Fresh r.id order
    → write_positions k order (r ∷ rows) ≡ r ∷ write_positions k order rows
unfolding write_positions
write_positions_absent k [] r rows h = refl
write_positions_absent k (s ∷ order) r rows h =
    ap (λ x. write_positions (k + 1) order (x ∷ map (place_row s.id k) rows)) passed
    ∙ write_positions_absent (k + 1) order r (map (place_row s.id k) rows) h.1
  where
    passed : place_row s.id k r ≡ r
    passed = ground arith

write_positions_self :
    (k : ℕ) (order : List Assignment)
    → DistinctIds order
    → write_positions k order order ≡ renumber k order
unfolding write_positions renumber
write_positions_self k [] h = refl
write_positions_self k (r ∷ order) h =
    ap₂ (λ x xs. write_positions (k + 1) order (x ∷ xs)) placed (map_place_absent r.id k order h.0)
    ∙ write_positions_absent (k + 1) order (record r { ordinal_position = k }) order h.0
    ∙ ap (λ xs. record r { ordinal_position = k } ∷ xs) (write_positions_self (k + 1) order h.1)
  where
    placed : place_row r.id k r ≡ record r { ordinal_position = k }
    placed = rw (==-refl r.id)

write_positions-perm :
    (k : ℕ) (order : List Assignment) {xs ys : List Assignment}
    → Permᴰ xs ys
    → Permᴰ (write_positions k order xs) (write_positions k order ys)
unfolding write_positions
write_positions-perm k [] p = p
write_positions-perm k (r ∷ order) p =
    write_positions-perm (k + 1) order (Permᴰ.map (place_row r.id k) p)

-- Writing 1, 2, ... over some arrangement of a tier's rows makes the query of the tier answer that
-- arrangement, with those positions.
pub tier_rows-write_positions :
    (u : ℕ) (t : Tier) (order rows : List Assignment)
    → DistinctIds rows
    → Permᴰ (keep (in_tier u t) rows) order
    → tier_rows u t (write_positions 1 order rows) ≡ renumber 1 order
unfolding tier_rows
tier_rows-write_positions u t order rows d p =
    ap (sort_by before) (keep-write_positions u t 1 order rows)
    ∙ sort_by_unique (write_positions-perm 1 order p) (DistinctIds-write_positions 1 order _ kept)
    ∙ ap (sort_by before) (write_positions_self 1 order (DistinctIds-perm p kept))
    ∙ sort_by-renumber 1 order
  where
    kept : DistinctIds (keep (in_tier u t) rows)
    kept = DistinctIds-keep (in_tier u t) rows d
