-- ===== src/Ranking/Table/Untouched.antt =====
-- The tiers whose rows a loop over positions does not write.
use mathlib.Core.List.{Permᴰ}
use golf_rank.Base.{
  ℕ, ◌+◌, ◌≡◌, ◌≢◌, refl, sym, ap, ◌∙◌, inl, inr, Bool, true, false, List, [], ◌∷◌, Bool-cases, All,
  All-keep, All-map, keep, sort_by,
}
use golf_rank.Ranking.Tier.{Tier}
use golf_rank.Ranking.Table.{Assignment, before, in_tier, tier_rows, write_positions}
use golf_rank.Ranking.Table.Distinct.{Fresh, Fresh-perm, DistinctIds}
use golf_rank.Ranking.Table.Positions.{keep-write_positions, write_positions_absent}

-- No row that passes one test has the id of a row that passes the other.
abbrev pub Apart : List Assignment → List Assignment → Type 0
Apart xs ys = All (λ x. Fresh x.id ys) xs

Apart-cons :
    (r : Assignment) (xs ys : List Assignment) → Fresh r.id xs → Apart xs ys → Apart xs (r ∷ ys)
Apart-cons r [] ys h k = tt
Apart-cons r (x ∷ xs) ys h k = (((λ e. h.0 (sym e)), k.0), Apart-cons r xs ys h.1 k.1)

keep-Apart :
    (p q : Assignment → Bool) (rows : List Assignment)
    → DistinctIds rows
    → ((r : Assignment) → q r ≡ true → p r ≡ false)
    → Apart (keep p rows) (keep q rows)
keep-Apart p q [] d h = tt
keep-Apart p q (r ∷ rows) d h = elim (Bool-cases (q r)) [
  | inl e ↦
      rw (e, h r e)
        (Apart-cons r (keep p rows) (keep q rows)
          (All-keep (λ (s : Assignment). s.id ≢ r.id) p rows d.0) (keep-Apart p q rows d.1 h))
  | inr e ↦ elim (Bool-cases (p r)) [
    | inl f ↦
        rw (e, f) (All-keep (λ (s : Assignment). s.id ≢ r.id) q rows d.0, keep-Apart p q rows d.1 h)
    | inr f ↦ rw (e, f) (keep-Apart p q rows d.1 h)
  ]
]

write_positions-nil : (k : ℕ) (order : List Assignment) → write_positions k order [] ≡ []
unfolding write_positions
write_positions-nil k [] = refl
write_positions-nil k (r ∷ order) = write_positions-nil (k + 1) order

write_positions-Apart :
    (k : ℕ) (order rows : List Assignment) → Apart rows order → write_positions k order rows ≡ rows
write_positions-Apart k order [] h = write_positions-nil k order
write_positions-Apart k order (r ∷ rows) h =
    write_positions_absent k order r rows h.0
    ∙ ap (λ xs. r ∷ xs) (write_positions-Apart k order rows h.1)

pub tier_rows_other :
    (u v : ℕ) (s t : Tier) (k : ℕ) (order rows : List Assignment)
    → DistinctIds rows
    → Permᴰ (keep (in_tier u s) rows) order
    → ((r : Assignment) → in_tier u s r ≡ true → in_tier v t r ≡ false)
    → tier_rows v t (write_positions k order rows) ≡ tier_rows v t rows
unfolding tier_rows
tier_rows_other u v s t k order rows d p h =
    ap (sort_by before)
      (keep-write_positions v t k order rows ∙ write_positions-Apart k order _ apart)
  where
    apart : Apart (keep (in_tier v t) rows) order
    apart = All-map (λ x. Fresh-perm x.id p) _ (keep-Apart (in_tier v t) (in_tier u s) rows d h)
