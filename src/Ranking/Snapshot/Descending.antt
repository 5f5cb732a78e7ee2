-- ===== src/Ranking/Snapshot/Descending.antt =====
-- The ratings of the entries of `_stage_snapshot`, by rank.
use golf_rank.Base.{
  ℕ, ◌+◌, ◌≡◌, ◌≤◌, ◌<◌, refl, sym, subst, inl, inr, Bool, true, false, not, Option, none, some,
  List, [], ◌∷◌, map, arith, keep, All, Bool-cases,
}
use golf_rank.Base.Rounding.{Rounding}
use golf_rank.Ranking.Tier.{Tier, tier_index, same_tier, same_tier-eq}
use golf_rank.Ranking.Rating.{rating, rating_antitone, rating_separates_tiers}
use golf_rank.Ranking.Table.{Assignment}
use golf_rank.Ranking.Snapshot.{
  Counts, Entry, alike, tier_count, step_index, cons_entry, entries_from,
}

abbrev pub IsDescending : List ℕ → Type 0
IsDescending [] = Unit {0}
IsDescending (x ∷ xs) = All (λ y. y ≤ x) xs × IsDescending xs

-- The ratings of the finished courses, by rank.
abbrev pub finished_ratings : List Entry → List ℕ
finished_ratings entries = map (λ e. e.personal_rating) (keep (λ e. not e.incomplete) entries)

-- Rows that go from the best tier to the worst.
abbrev pub IsTiered : List Assignment → Type 0
IsTiered [] = Unit {0}
IsTiered (r ∷ rows) = All (λ q. tier_index r.tier ≤ tier_index q.tier) rows × IsTiered rows

cons_entry_parts :
    (make : ℕ → Entry) (a : Option ℕ) (b : Option (List Entry)) (es : List Entry)
    → cons_entry make a b ≡ some es
    → (x : ℕ) × (rest : List Entry) × (a ≡ some x) × (b ≡ some rest) × (es ≡ make x ∷ rest)
cons_entry_parts make none b es h = absurd (cc h)
cons_entry_parts make (some x) none es h = absurd (cc h)
cons_entry_parts make (some x) (some rest) es h = (x, rest, refl, refl, cc)

some-inj : (xs ys : List Entry) → some xs ≡ some ys → xs ≡ ys
some-inj xs ys h = cc

module _ (rd : Rounding) (counts : ℕ → Counts) (totals : Tier → Bool → ℕ) where
  -- What is still to be indexed fits the totals.
  abbrev Fits : (Tier → Bool → ℕ) → List Assignment → Type 0
  Fits indexes rows = (t : Tier) (f : Bool) → indexes t f + tier_count t f rows ≤ totals t f

  Fits-step :
      (indexes : Tier → Bool → ℕ) (r : Assignment) (rows : List Assignment)
      → Fits indexes (r ∷ rows)
      → Fits (step_index r indexes) rows
  unfolding tier_count
  Fits-step indexes r rows h t f = elim (Bool-cases (alike t f r)) [
    | inl e ↦ rw e (let k = h t f in ground (arith, k, e))
    | inr e ↦ rw e (let k = h t f in ground (arith, k, e))
  ]

  own-index :
      (indexes : Tier → Bool → ℕ) (r : Assignment) (rows : List Assignment)
      → Fits indexes (r ∷ rows)
      → r.is_incomplete ≡ false
      → indexes r.tier false < totals r.tier false
  unfolding tier_count
  own-index indexes r rows h e = let k = h r.tier false in ground (arith, k, e)

  -- A row that comes later is rated no higher.
  later_rating :
      (s t : Tier) (i j x y : ℕ)
      → tier_index s ≤ tier_index t
      → i < totals s false
      → j < totals t false
      → ((same_tier s t ≡ true) → i ≤ j)
      → rating rd s i (totals s false) ≡ some x
      → rating rd t j (totals t false) ≡ some y
      → y ≤ x
  later_rating s t i j x y le hi hj after ex ey = elim (Bool-cases (same_tier s t)) [
    | inl e ↦
        rating_antitone rd t i j (totals t false) x y (after e) hj
          (subst (λ z. rating rd z i (totals z false) ≡ some x) (same_tier-eq s t e) ex) ey
    | inr e ↦
        let less =
          rating_separates_tiers rd s t i (totals s false) j (totals t false) x y
            (ground (arith, le, e)) hi hj ex ey in
        omega (arith, less)
  ]

  -- The finished rows that are still to come are rated no higher than a row before them.
  rated_below :
      (s : Tier) (i x rank : ℕ) (indexes : Tier → Bool → ℕ) (rows : List Assignment)
      (es : List Entry)
      → i < totals s false
      → i ≤ indexes s false
      → rating rd s i (totals s false) ≡ some x
      → Fits indexes rows
      → All (λ q. tier_index s ≤ tier_index q.tier) rows
      → entries_from rd counts totals indexes rank rows ≡ some es
      → All (λ y. y ≤ x) (finished_ratings es)
  unfolding entries_from
  rated_below s i x rank indexes [] es hi hs ex fits le h =
      subst (λ z. All (λ y. y ≤ x) (finished_ratings z)) (some-inj [] es h) tt
  rated_below s i x rank indexes (r ∷ rows) es hi hs ex fits le h =
      let (y, rest, ey, er, e) = cons_entry_parts _ _ _ es h in
      let below =
        rated_below s i x (rank + 1) (step_index r indexes) rows rest hi (ground (arith, hs)) ex
          (Fits-step indexes r rows fits) le.1 er in
      subst (λ z. All (λ y. y ≤ x) (finished_ratings z)) (sym e)
        (elim (Bool-cases r.is_incomplete) [
          | inl c ↦ rw c below
          | inr c ↦ rw c (
            later_rating s r.tier i (indexes r.tier false) x y le.0 hi
                (own-index indexes r rows fits c)
                (λ same. subst (λ z. i ≤ indexes z false) (same_tier-eq s r.tier same) hs) ex
                (subst (λ b. rating rd r.tier (indexes r.tier b) (totals r.tier b) ≡ some y) c ey),
            below,
          )
        ])

  pub descending :
      (rank : ℕ) (indexes : Tier → Bool → ℕ) (rows : List Assignment) (es : List Entry)
      → Fits indexes rows
      → IsTiered rows
      → entries_from rd counts totals indexes rank rows ≡ some es
      → IsDescending (finished_ratings es)
  unfolding entries_from
  descending rank indexes [] es fits le h =
      subst (λ z. IsDescending (finished_ratings z)) (some-inj [] es h) tt
  descending rank indexes (r ∷ rows) es fits le h =
      let (y, rest, ey, er, e) = cons_entry_parts _ _ _ es h in
      let below =
        descending (rank + 1) (step_index r indexes) rows rest (Fits-step indexes r rows fits) le.1
          er in
      subst (λ z. IsDescending (finished_ratings z)) (sym e)
        (elim (Bool-cases r.is_incomplete) [
          | inl c ↦ rw c below
          | inr c ↦ rw c (
            rated_below r.tier (indexes r.tier false) y (rank + 1) (step_index r indexes) rows rest
                (own-index indexes r rows fits c) (ground arith)
                (subst (λ b. rating rd r.tier (indexes r.tier b) (totals r.tier b) ≡ some y) c ey)
                (Fits-step indexes r rows fits) le.0 er,
            below,
          )
        ])
