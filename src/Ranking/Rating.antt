-- ===== src/Ranking/Rating.antt =====
-- `_rating` of ranking.py: the score of the course at a place of its tier, in tenths of a point.
use golf_rank.Base.{
  ℕ, ◌+◌, ◌-◌, ◌*◌, ◌≤◌, ◌<◌, ◌≡◌, subst, Option, none, some, arith, ◌==◌, if◌then◌else◌,
  Bool-cases, inl, inr,
}
use golf_rank.Base.Rounding.{
  Rounding, round_quot-le, le-round_quot, round_quot_mono, round_quot-exact,
}
use golf_rank.Ranking.Tier.{Tier, green, fairway, rough, bunker, not_sure, tier_bands, tier_index}

module _ (rd : Rounding) where
  -- The value in the band from `low` to `high` for place `index` of `count`, where index < count.
  unfoldable pub in_band : ℕ → ℕ → ℕ → ℕ → ℕ
  in_band low high index count =
      if count == 1
      then rd.round_quot (low + high) 2
      else rd.round_quot (high * (count - 1) - (high - low) * index) (count - 1)

  -- `none` is the KeyError of a tier that has no band.
  unfoldable pub rating : Tier → ℕ → ℕ → Option ℕ
  rating tier index count = elim (tier_bands tier) [
    | none ↦ none
    | some (low, high) ↦ some (in_band low high index count)
  ]

-- A band as its lower end and its width.
above_low : (low d i m : ℕ) → i ≤ m → low * m ≤ (low + d) * m - d * i
above_low low d i m h = grind arith

step_down : (x d i j m : ℕ) → i ≤ j → x * m - d * j ≤ x * m - d * i
step_down x d i j m h = grind arith

low-le-point : (low high i m : ℕ) → low ≤ high → i ≤ m → low * m ≤ high * m - (high - low) * i
low-le-point low high i m h k =
    let width : low + (high - low) ≡ high = omega arith in
    subst (λ x. low * m ≤ x * m - (high - low) * i) width (above_low low (high - low) i m k)

point-low : (low high m : ℕ) → low ≤ high → high * m - (high - low) * m ≡ low * m
point-low low high m h =
    let width : low + (high - low) ≡ high = omega arith in
    subst (λ x. x * m - (high - low) * m ≡ low * m) width (omega arith)

band_ordered : (tier : Tier) (low high : ℕ) → tier_bands tier ≡ some (low, high) → low ≤ high
band_ordered tier low high e = ground arith

abbrev band_bottom : Tier → ℕ
band_bottom t = elim (tier_bands t) [ none ↦ 0 | some (low, _) ↦ low ]

abbrev band_top : Tier → ℕ
band_top t = elim (tier_bands t) [ none ↦ 0 | some (_, high) ↦ high ]

bands_apart : (s t : Tier) → tier_index s < tier_index t → band_top t < band_bottom s
bands_apart s t less = ground arith

module _ (rd : Rounding) where
  -- A place of a tier scores within the band of the tier.
  pub in_band_bounds :
      (low high index count : ℕ)
      → low ≤ high
      → index < count
      → (low ≤ in_band rd low high index count) × (in_band rd low high index count ≤ high)
  unfolding in_band
  in_band_bounds low high index count h k = elim (Bool-cases (count == 1)) [
    | inl e ↦ rw e (
      le-round_quot rd (low + high) 2 low (omega arith) (omega arith),
      round_quot-le rd (low + high) 2 high (omega arith) (omega arith),
    )
    | inr e ↦ rw e (
      le-round_quot rd _ _ low (ground arith)
          (low-le-point low high index (count - 1) h (omega arith)),
      round_quot-le rd _ _ high (ground arith) (omega arith),
    )
  ]

  -- A later place of the same tier never scores more.
  pub in_band_antitone :
      (low high i j count : ℕ)
      → i ≤ j
      → j < count
      → in_band rd low high j count ≤ in_band rd low high i count
  unfolding in_band
  in_band_antitone low high i j count h k = elim (Bool-cases (count == 1)) [
    | inl e ↦ rw e (omega arith)
    | inr e ↦ rw e (
        round_quot_mono rd _ _ (count - 1) (ground arith)
          (step_down high (high - low) i j (count - 1) h))
  ]

  -- In a band with at least two courses the first place scores the top of the band and the last its
  -- bottom.
  pub in_band_ends :
      (low high count : ℕ)
      → low ≤ high
      → 2 ≤ count
      → (in_band rd low high 0 count ≡ high) × (in_band rd low high (count - 1) count ≡ low)
  unfolding in_band
  in_band_ends low high count h k = elim (Bool-cases (count == 1)) [
    | inl e ↦ absurd (ground arith)
    | inr e ↦ rw e (
      round_quot-exact rd _ (count - 1) high (omega arith) (omega arith),
      round_quot-exact rd _ (count - 1) low (omega arith) (point-low low high (count - 1) h),
    )
  ]

  -- Every place of a tier that has a band gets a rating, and it lies in the band of the tier.
  pub rating_in_band :
      (tier : Tier) (low high index count : ℕ)
      → tier_bands tier ≡ some (low, high)
      → index < count
      → (r : ℕ) × (rating rd tier index count ≡ some r) × (low ≤ r) × (r ≤ high)
  unfolding rating
  rating_in_band tier low high index count e k =
      let (lo, hi) = in_band_bounds low high index count (band_ordered tier low high e) k in
      (in_band rd low high index count, rw (e, rating), lo, hi)

  rating_range :
      (t : Tier) (i n x : ℕ)
      → i < n
      → rating rd t i n ≡ some x
      → (band_bottom t ≤ x) × (x ≤ band_top t)
  unfolding rating
  rating_range green i n x k e = ground (arith, in_band_bounds 85 100 i n (omega arith) k)
  rating_range fairway i n x k e = ground (arith, in_band_bounds 70 84 i n (omega arith) k)
  rating_range rough i n x k e = ground (arith, in_band_bounds 50 69 i n (omega arith) k)
  rating_range bunker i n x k e = ground (arith, in_band_bounds 10 49 i n (omega arith) k)
  rating_range not_sure i n x k e = cc

  -- Whatever their places, a course of a better tier that has a rating is rated strictly above one
  -- of a worse tier.
  pub rating_separates_tiers :
      (s t : Tier) (i m j n x y : ℕ)
      → tier_index s < tier_index t
      → i < m
      → j < n
      → rating rd s i m ≡ some x
      → rating rd t j n ≡ some y
      → y < x
  rating_separates_tiers s t i m j n x y less hi hj ex ey =
      omega (arith, rating_range s i m x hi ex, rating_range t j n y hj ey, bands_apart s t less)

  -- Among the courses of a tier, a later place is never rated higher.
  pub rating_antitone :
      (t : Tier) (i j n x y : ℕ)
      → i ≤ j
      → j < n
      → rating rd t i n ≡ some x
      → rating rd t j n ≡ some y
      → y ≤ x
  unfolding rating
  rating_antitone green i j n x y h k ex ey = ground (arith, in_band_antitone 85 100 i j n h k)
  rating_antitone fairway i j n x y h k ex ey = ground (arith, in_band_antitone 70 84 i j n h k)
  rating_antitone rough i j n x y h k ex ey = ground (arith, in_band_antitone 50 69 i j n h k)
  rating_antitone bunker i j n x y h k ex ey = ground (arith, in_band_antitone 10 49 i j n h k)
  rating_antitone not_sure i j n x y h k ex ey = cc
