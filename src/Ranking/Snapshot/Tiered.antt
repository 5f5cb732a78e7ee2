-- ===== src/Ranking/Snapshot/Tiered.antt =====
-- The tiers of the rows that `_normalize_positions` returns.
use golf_rank.Base.{
  ℕ, ◌+◌, ◌≡◌, ◌≤◌, inl, inr, Bool, List, [], ◌∷◌, ◌++◌, arith, keep, All, All-keep, All-append,
  Bool-cases,
}
use golf_rank.Ranking.Tier.{Tier, tier_order, tier_index, same_tier}
use golf_rank.Ranking.Table.{Assignment, renumber}
use golf_rank.Ranking.Normalize.{normalized_order, ordered_groups, group, user_rows}
use golf_rank.Ranking.Snapshot.Descending.{IsTiered}

abbrev Of : ℕ → List Assignment → Type 0
Of i rows = All (λ r. tier_index r.tier ≡ i) rows

abbrev From : ℕ → List Assignment → Type 0
From i rows = All (λ r. i ≤ tier_index r.tier) rows

Of-From : (i j : ℕ) (rows : List Assignment) → j ≤ i → Of i rows → From j rows
Of-From i j [] h o = tt
Of-From i j (r ∷ rows) h o = (omega (arith, o.0), Of-From i j rows h o.1)

From-earlier : (i j : ℕ) (rows : List Assignment) → j ≤ i → From i rows → From j rows
From-earlier i j [] h o = tt
From-earlier i j (r ∷ rows) h o = (omega (arith, o.0), From-earlier i j rows h o.1)

Of-group : (t : Tier) (rows : List Assignment) → Of (tier_index t) (group t rows)
Of-group t [] = tt
Of-group t (r ∷ rows) = elim (Bool-cases (same_tier r.tier t)) [
  | inl e ↦ rw e (ground (arith, e), Of-group t rows)
  | inr e ↦ rw e (Of-group t rows)
]

Of-renumber : (i k : ℕ) (rows : List Assignment) → Of i rows → Of i (renumber k rows)
unfolding renumber
Of-renumber i k [] o = tt
Of-renumber i k (r ∷ rows) o = (o.0, Of-renumber i (k + 1) rows o.1)

-- Rows of one tier, and then rows of no better tier.
Tiered-append :
    (i : ℕ) (xs ys : List Assignment) → Of i xs → From i ys → IsTiered ys → IsTiered (xs ++ ys)
Tiered-append i [] ys o f t = t
Tiered-append i (x ∷ xs) ys o f t = (
  All-append (λ q. tier_index x.tier ≤ tier_index q.tier) xs ys
      (Of-From i (tier_index x.tier) xs (omega (arith, o.0)) o.1)
      (From-earlier i (tier_index x.tier) ys (omega (arith, o.0)) f),
  Tiered-append i xs ys o.1 f t,
)

abbrev Ascending : List Tier → Type 0
Ascending [] = Unit {0}
Ascending (t ∷ tiers) = All (λ u. tier_index t ≤ tier_index u) tiers × Ascending tiers

groups-From :
    (i : ℕ) (tiers : List Tier) (grouped : List Assignment)
    → All (λ u. i ≤ tier_index u) tiers
    → From i (ordered_groups tiers grouped)
unfolding ordered_groups
groups-From i [] grouped h = tt
groups-From i (t ∷ tiers) grouped h =
    All-append (λ r. i ≤ tier_index r.tier) (renumber 1 (group t grouped))
      (ordered_groups tiers grouped)
      (Of-From (tier_index t) i _ h.0 (Of-renumber (tier_index t) 1 _ (Of-group t grouped)))
      (groups-From i tiers grouped h.1)

groups-IsTiered :
    (tiers : List Tier) (grouped : List Assignment)
    → Ascending tiers
    → IsTiered (ordered_groups tiers grouped)
unfolding ordered_groups
groups-IsTiered [] grouped a = tt
groups-IsTiered (t ∷ tiers) grouped a =
    Tiered-append (tier_index t) (renumber 1 (group t grouped)) (ordered_groups tiers grouped)
      (Of-renumber (tier_index t) 1 _ (Of-group t grouped))
      (groups-From (tier_index t) tiers grouped a.0) (groups-IsTiered tiers grouped a.1)

tiers_ascend : Ascending tier_order
tiers_ascend = ground arith

pub normalized_order-IsTiered :
    (u : ℕ) (rows : List Assignment) → IsTiered (normalized_order u rows)
unfolding normalized_order
normalized_order-IsTiered u rows = groups-IsTiered tier_order (user_rows u rows) tiers_ascend

pub keep-IsTiered :
    (p : Assignment → Bool) (rows : List Assignment) → IsTiered rows → IsTiered (keep p rows)
keep-IsTiered p [] t = tt
keep-IsTiered p (r ∷ rows) t = elim (Bool-cases (p r)) [
  | inl e ↦
      rw e
        (All-keep (λ q. tier_index r.tier ≤ tier_index q.tier) p rows t.0, keep-IsTiered p rows t.1)
  | inr e ↦ rw e (keep-IsTiered p rows t.1)
]
