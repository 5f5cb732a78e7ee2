-- ===== src/Ranking/Place/Written.antt =====
-- The query of each tier after a placement has been written.
use mathlib.Core.List.{Permᴰ}
use mathlib.Core.List.Permᴰ
use golf_rank.Base.{
  ℕ, ◌+◌, ◌≡◌, ◌≢◌, refl, sym, ap, subst, ◌∙◌, true, false, List, [], ◌∷◌, map, arith, keep, remove,
  sort_by, insert_at, zero, suc,
}
use golf_rank.Ranking.Tier.{Tier}
use golf_rank.Ranking.Table.{
  Assignment, before, in_tier, owns, tier_rows, course_order, write_positions, renumber, save_row,
}
use golf_rank.Ranking.Table.Distinct.{DistinctIds, DistinctIds-keep}
use golf_rank.Ranking.Table.Order.{sort_by-perm, sort_by_unique}
use golf_rank.Ranking.Table.Positions.{tier_rows-write_positions}
use golf_rank.Ranking.Table.Saved.{others, DistinctIds-save_row}
use golf_rank.Ranking.Table.Untouched.{tier_rows_other}
use golf_rank.Ranking.Place.{peers}
use golf_rank.Ranking.Table.Lookup.{Picks}
use golf_rank.Ranking.Place.Around.{saved_in, saved_out, others_order, peers-others, others_of_user}

pub insert_at-perm :
    (i : ℕ) (r : Assignment) (rows : List Assignment) → Permᴰ (r ∷ rows) (insert_at i r rows)
insert_at-perm zero r rows = Permᴰ.refl _
insert_at-perm (suc i) r [] = Permᴰ.refl _
insert_at-perm (suc i) r (s ∷ rows) =
    Permᴰ.trans (Permᴰ.swap refl refl) (Permᴰ.cons refl (insert_at-perm i r rows))

pub map-insert_at :
    (i : ℕ) (r : Assignment) (rows : List Assignment)
    → map (λ x. x.course_id) (insert_at i r rows)
      ≡ insert_at i r.course_id (map (λ x. x.course_id) rows)
map-insert_at zero r rows = refl
map-insert_at (suc i) r [] = refl
map-insert_at (suc i) r (s ∷ rows) = ap (λ xs. s.course_id ∷ xs) (map-insert_at i r rows)

pub map-renumber :
    (k : ℕ) (rows : List Assignment)
    → map (λ x. x.course_id) (renumber k rows) ≡ map (λ x. x.course_id) rows
unfolding renumber
map-renumber k [] = refl
map-renumber k (r ∷ rows) = ap (λ xs. r.course_id ∷ xs) (map-renumber (k + 1) rows)

module _ (u c : ℕ) (t : Tier) (a : Assignment) (rows : List Assignment) (ids : DistinctIds rows)
    (picks : Picks u c a.id rows) (mine : owns u c a ≡ true) (here : in_tier u t a ≡ true)
    (i : ℕ) where
  abbrev around : List Assignment
  around = peers u t c (save_row a rows)

  abbrev order : List Assignment
  order = insert_at i a around

  order-perm : Permᴰ (keep (in_tier u t) (save_row a rows)) order
  order-perm = Permᴰ.trans (saved_in (in_tier u t) a rows ids here) (
      Permᴰ.trans
        (Permᴰ.cons refl (
          Permᴰ.symm (
            subst (λ xs. Permᴰ xs (keep (in_tier u t) (others a.id rows)))
              (sym (peers-others u c t a rows ids picks mine)) (sort_by-perm _))))
        (insert_at-perm i a around))

  abbrev written : List Assignment
  written = write_positions 1 order (save_row a rows)

  pub around_order : map (λ r. r.course_id) around ≡ remove c (course_order u t rows)
  around_order =
      ap (map (λ r. r.course_id)) (peers-others u c t a rows ids picks mine)
      ∙ others_order u c t a rows ids picks

  pub placed_order :
      course_order u t written ≡ insert_at i a.course_id (remove c (course_order u t rows))
  unfolding course_order
  placed_order =
      ap (map (λ r. r.course_id)) (
        tier_rows-write_positions u t order (save_row a rows) (DistinctIds-save_row a rows ids)
          order-perm)
      ∙ map-renumber 1 order
      ∙ map-insert_at i a around
      ∙ ap (insert_at i a.course_id) around_order

  elsewhere :
      (v : ℕ) (s : Tier)
      → in_tier v s a ≡ false
      → (r : Assignment) → in_tier u t r ≡ true
      → in_tier v s r ≡ false
  elsewhere v s out r e = ground arith

  other_order :
      (v : ℕ) (s : Tier)
      → in_tier v s a ≡ false
      → course_order v s written
        ≡ map (λ r. r.course_id) (sort_by before (keep (in_tier v s) (others a.id rows)))
  unfolding course_order tier_rows
  other_order v s out = ap (map (λ r. r.course_id)) (
      tier_rows_other u v t s 1 order (save_row a rows) (DistinctIds-save_row a rows ids) order-perm
        (elsewhere v s out)
      ∙ sort_by_unique (saved_out (in_tier v s) a rows ids out)
          (DistinctIds-keep _ _ (DistinctIds-save_row a rows ids)))

  pub other_tier_order :
      (s : Tier)
      → in_tier u s a ≡ false
      → course_order u s written ≡ remove c (course_order u s rows)
  other_tier_order s out = other_order u s out ∙ others_order u c s a rows ids picks

  pub other_user_order :
      (v : ℕ) (s : Tier) → u ≢ v → course_order v s written ≡ course_order v s rows
  unfolding course_order tier_rows
  other_user_order v s ne =
      other_order v s (ground arith)
      ∙ ap (λ xs. map (λ r. r.course_id) (sort_by before xs))
          (others_of_user u c t a rows ids picks v s ne)
