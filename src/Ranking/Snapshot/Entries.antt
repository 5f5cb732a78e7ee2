-- ===== src/Ranking/Snapshot/Entries.antt =====
-- What a snapshot says of the rows that it is made from.
use golf_rank.Base.{
  ℕ, ◌+◌, ◌≡◌, refl, ap, inl, inr, Bool, false, some, List, [], ◌∷◌, map, arith, length, range_from,
  All, Bool-cases,
}
use golf_rank.Base.Rounding.{Rounding}
use golf_rank.Ranking.Tier.{Tier, green, fairway, rough, bunker, not_sure, same_tier}
use golf_rank.Ranking.Rating.{rating, in_band}
use golf_rank.Ranking.Table.{Assignment}
use golf_rank.Ranking.Normalize.{normalized_order}
use golf_rank.Ranking.Snapshot.{
  Counts, Entry, ranked, step_index, make_entry, entries_from, snapshot_entries,
}
use golf_rank.Ranking.Snapshot.Descending.{IsDescending, finished_ratings, descending}
use golf_rank.Ranking.Snapshot.Tiered.{normalized_order-IsTiered, keep-IsTiered}

rating_given :
    (rd : Rounding) (t : Tier) (i n : ℕ)
    → same_tier t not_sure ≡ false
    → (x : ℕ) × (rating rd t i n ≡ some x)
unfolding rating
rating_given rd green i n h = (in_band rd 85 100 i n, refl)
rating_given rd fairway i n h = (in_band rd 70 84 i n, refl)
rating_given rd rough i n h = (in_band rd 50 69 i n, refl)
rating_given rd bunker i n h = (in_band rd 10 49 i n, refl)
rating_given rd not_sure i n h = absurd (cc h)

All-ranked : (rows : List Assignment) → All (λ r. same_tier r.tier not_sure ≡ false) (ranked rows)
All-ranked [] = tt
All-ranked (r ∷ rows) = elim (Bool-cases (same_tier r.tier not_sure)) [
  | inl e ↦ rw e (All-ranked rows)
  | inr e ↦ rw e (e, All-ranked rows)
]

-- The entries are the rows, in their order, with the ranks counted from `rank`.
abbrev pub Lists : ℕ → List Assignment → List Entry → Type 0
Lists rank rows es =
    (map (λ e. e.course_id) es ≡ map (λ r. r.course_id) rows)
    × (map (λ e. e.tier) es ≡ map (λ r. r.tier) rows)
    × (map (λ e. e.rank) es ≡ range_from rank (length rows))

module _ (rd : Rounding) (counts : ℕ → Counts) where
  entries_listed :
      (totals indexes : Tier → Bool → ℕ) (rank : ℕ) (rows : List Assignment)
      → All (λ r. same_tier r.tier not_sure ≡ false) rows
      → (es : List Entry) × (entries_from rd counts totals indexes rank rows ≡ some es)
        × Lists rank rows es
  unfolding entries_from
  entries_listed totals indexes rank [] h = ([], refl, (refl, refl, refl))
  entries_listed totals indexes rank (r ∷ rows) h =
      let (x, ex) =
        rating_given rd r.tier (indexes r.tier r.is_incomplete) (totals r.tier r.is_incomplete)
          h.0 in
      let (es, ee, (c, t, k)) = entries_listed totals (step_index r indexes) (rank + 1) rows h.1 in
      (
        make_entry counts rank r x ∷ es,
        rw (ex, ee) refl,
        (ap (λ z. r.course_id ∷ z) c, ap (λ z. r.tier ∷ z) t, ap (λ z. rank ∷ z) k),
      )

  -- Making the entries never fails, and they are the ranked rows in their order, with their
  -- courses, their tiers and the ranks 1, 2, 3, ...
  pub snapshot_entries-Lists :
      (rows : List Assignment)
      → (es : List Entry) × (snapshot_entries rd counts rows ≡ some es) × Lists 1 (ranked rows) es
  unfolding snapshot_entries
  snapshot_entries-Lists rows = entries_listed _ _ 1 (ranked rows) (All-ranked rows)

  -- In the entries that are made from the normalised rows of a user, the ratings of the finished
  -- courses never rise with the rank.
  pub snapshot_entries-IsDescending :
      (u : ℕ) (rows : List Assignment) (es : List Entry)
      → snapshot_entries rd counts (normalized_order u rows) ≡ some es
      → IsDescending (finished_ratings es)
  unfolding snapshot_entries
  snapshot_entries-IsDescending u rows es h =
      descending rd counts _ 1 _ (ranked (normalized_order u rows)) es (λ t f. omega arith)
        (keep-IsTiered _ _ (normalized_order-IsTiered u rows)) h
