-- ===== src/Ranking/Compare/Rows.antt =====
-- The rows of the two courses, and the winner among the rows of its tier.
use mathlib.Core.List.{Permᴰ}
use mathlib.Core.List.Permᴰ
use golf_rank.Base.{
  ℕ, ◌≡◌, ◌≢◌, refl, sym, ap₂, subst, ◌∙◌, ◌⊎◌, inl, inr, true, false, some, List, [], ◌∷◌, arith,
  ◌==◌, Bool-cases, All, All-map, keep, keep-cong,
}
use golf_rank.Ranking.Tier.{Tier}
use golf_rank.Ranking.Table.{Assignment, in_tier, owns, find_row, tier_rows}
use golf_rank.Ranking.Table.Lookup.{
  DistinctKeys, find_row_here, find_row_next, find_row-owns, find_row-Picks, find_row_unique,
  any-find_row, unowned_below, keep-owns,
}
use golf_rank.Ranking.Table.Distinct.{Fresh, DistinctIds}
use golf_rank.Ranking.Table.Order.{sort_by-perm}
use golf_rank.Ranking.Table.Saved.{others, others-Fresh}
use golf_rank.Ranking.Table.Members.{All-perm, All-kept, any-sort_by}
use golf_rank.Ranking.Compare.{in_pair, pair_rows}
use golf_rank.Ranking.Compare.Ahead.{Names, Has}

pair_test : (u a b : ℕ) (r : Assignment) → owns u a r ≡ false → in_pair u a b r ≡ owns u b r
pair_test u a b r h = ground arith

pair_test' : (u a b : ℕ) (r : Assignment) → owns u b r ≡ false → in_pair u a b r ≡ owns u a r
pair_test' u a b r h = ground arith

in_pair_left : (u a b : ℕ) (r : Assignment) → owns u a r ≡ true → in_pair u a b r ≡ true
in_pair_left u a b r h = ground arith

in_pair_right : (u a b : ℕ) (r : Assignment) → owns u b r ≡ true → in_pair u a b r ≡ true
in_pair_right u a b r h = ground arith

owns_apart : (u a b : ℕ) (r : Assignment) → a ≢ b → owns u a r ≡ true → owns u b r ≡ false
owns_apart u a b r ne h = ground arith

module _ (u a b : ℕ) (ne : a ≢ b) (x y : Assignment) where
  -- The query of both courses answers their two rows, in one order or the other.
  pub pair_rows_lem :
      (rows : List Assignment)
      → DistinctKeys rows
      → find_row u a rows ≡ some x
      → find_row u b rows ≡ some y
      → (pair_rows u a b rows ≡ x ∷ y ∷ []) ⊎ (pair_rows u a b rows ≡ y ∷ x ∷ [])
  pair_rows_lem [] k ex ey = unfold find_row in absurd (cc ex)
  pair_rows_lem (r ∷ rows) k ex ey = elim (Bool-cases (owns u a r)) [
    | inl o ↦ inl (
        rw (in_pair_left u a b r o) (
          ap₂ (λ z zs. z ∷ zs) (find_row_here u a x r rows o ex)
            (keep-cong _ _ rows (All-map (pair_test u a b) rows (unowned_below u a r rows o k.0))
              ∙ keep-owns u b y rows k.1
                  (find_row_next u b r rows _ (owns_apart u a b r ne o) ey))))
    | inr o ↦ elim (Bool-cases (owns u b r)) [
      | inl q ↦ inr (
          rw (in_pair_right u a b r q) (
            ap₂ (λ z zs. z ∷ zs) (find_row_here u b y r rows q ey)
              (keep-cong _ _ rows (All-map (pair_test' u a b) rows (unowned_below u b r rows q k.0))
                ∙ keep-owns u a x rows k.1 (find_row_next u a r rows _ o ex))))
      | inr q ↦ rw (pair_test u a b r o ∙ q) (
          pair_rows_lem rows k.1 (find_row_next u a r rows _ o ex)
            (find_row_next u b r rows _ q ey))
    ]
  ]

-- A winner among the rows of its tier.
module _ (u c : ℕ) (t : Tier) (w : Assignment) (rows : List Assignment) (ids : DistinctIds rows)
    (keys : DistinctKeys rows) (found : find_row u c rows ≡ some w) (here : w.tier ≡ t) where
  pub in_own_tier : in_tier u t w ≡ true
  in_own_tier = ground (arith, find_row-owns u c w rows found)

  pub Names-tier : Names w (tier_rows u t rows)
  unfolding tier_rows
  Names-tier =
      All-perm (λ r. ((r.course_id == w.course_id) ≡ (r.id == w.id)) × (r.id ≡ w.id → r ≡ w))
        (Permᴰ.symm (sort_by-perm _))
        (All-kept _ (in_tier u t) rows (
          facts rows (find_row-Picks u c w rows ids keys found)
            (find_row_unique u c w rows ids found)))
    where
      facts :
          (xs : List Assignment)
          → All (λ r. owns u c r ≡ (r.id == w.id)) xs
          → All (λ r. r.id ≡ w.id → r ≡ w) xs
          → All
              (λ r.
                in_tier u t r ≡ true
                → ((r.course_id == w.course_id) ≡ (r.id == w.id)) × (r.id ≡ w.id → r ≡ w))
              xs
      facts [] h k = tt
      facts (r ∷ xs) h k =
          ((λ e. (ground (arith, h.0, find_row-owns u c w rows found), k.0)), facts xs h.1 k.1)

  pub Has-tier : Has w.id (tier_rows u t rows)
  unfolding tier_rows
  Has-tier =
      any-sort_by _ (keep (in_tier u t) rows)
      ∙ any-find_row u c w (in_tier u t) rows found in_own_tier

-- A row and the rows that have another id.
pub extract :
    (w : Assignment) (rows : List Assignment)
    → DistinctIds rows
    → Names w rows
    → Has w.id rows
    → Permᴰ rows (w ∷ others w.id rows)
extract w [] d n h = absurd (cc h)
extract w (r ∷ rows) d n h = elim (Bool-cases (r.id == w.id)) [
  | inl e ↦ rw e (
      Permᴰ.cons (n.0.1 (ground arith)) (
        subst (Permᴰ rows)
          (sym (others-Fresh w.id rows (subst (λ i. Fresh i rows) (ground arith) d.0)))
          (Permᴰ.refl rows)))
  | inr e ↦
      rw e
        (Permᴰ.trans (Permᴰ.cons refl (extract w rows d.1 n.1 (rw e at h))) (Permᴰ.swap refl refl))
]
