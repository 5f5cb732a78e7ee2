-- ===== src/Ranking/Compare/Prefer.antt =====
-- The order of a tier after one answer of `compare_courses`.
use mathlib.Core.List.{Permᴰ}
use mathlib.Core.List.Permᴰ
use golf_rank.Base.{
  ℕ, ◌+◌, ◌≡◌, ◌≢◌, ◌≤◌, ◌<◌, refl, sym, ap, subst, ◌∙◌, inl, inr, true, false, some, List, [], ◌∷◌,
  arith, ◌==◌, ==-refl, subst₂, ltb, ok-inj, Bool-cases, All, keep, insert_at, ok,
}
use golf_rank.Ranking.Tier.{Tier, not_sure, same_tier}
use golf_rank.Ranking.Table.{
  Assignment, in_tier, owns, find_row, tier_rows, course_order, write_positions, renumber,
}
use golf_rank.Ranking.Table.Distinct.{DistinctIds, DistinctIds-keep, DistinctIds-perm}
use golf_rank.Ranking.Table.Order.{sort_by-perm}
use golf_rank.Ranking.Table.Positions.{tier_rows-write_positions}
use golf_rank.Ranking.Table.Saved.{others}
use golf_rank.Ranking.Table.Untouched.{tier_rows_other}
use golf_rank.Ranking.Table.Lookup.{
  DistinctKeys, owner, find_row-owns, find_row-Picks, find_row-All,
}
use golf_rank.Ranking.Place.Written.{map-renumber, insert_at-perm}
use golf_rank.Ranking.Compare.{
  Answer, course_a, course_b, too_close, preferred_id, compare_rows, move_ahead, settle,
  answer_rows, by_course,
}
use golf_rank.Ranking.Compare.Ahead.{prefer, courses, Rising, Names, Has, prefer_ahead, moved_ahead}
use golf_rank.Ranking.Compare.Rows.{pair_rows_lem, Names-tier, Has-tier, extract}

-- The positions of the tier are 1, 2, 3, ..., as every snapshot leaves them.
abbrev pub IsNormalized : ℕ → Tier → List Assignment → Type 0
IsNormalized user tier rows = tier_rows user tier rows ≡ renumber 1 (tier_rows user tier rows)

later :
    (k j : ℕ) (rows : List Assignment) → k < j → All (λ s. k < s.ordinal_position) (renumber j rows)
unfolding renumber
later k j [] h = tt
later k j (r ∷ rows) h = (h, later k (j + 1) rows (omega arith))

Rising-renumber : (k : ℕ) (rows : List Assignment) → Rising (renumber k rows)
unfolding renumber
Rising-renumber k [] = tt
Rising-renumber k (r ∷ rows) = (later k (k + 1) rows (omega arith), Rising-renumber (k + 1) rows)

-- The order of the tier is the old one with the winner preferred, and no other query changed.
abbrev pub Settled : ℕ → Tier → ℕ → ℕ → List Assignment → List Assignment → Type 0
Settled u t w l rows rows' =
    (course_order u t rows' ≡ prefer w l (course_order u t rows))
    × ((v : ℕ) (s : Tier)
        → ((r : Assignment) → in_tier u t r ≡ true → in_tier v s r ≡ false)
        → course_order v s rows' ≡ course_order v s rows)

module _ (u cw cl : ℕ) (w l : Assignment) (rows : List Assignment) (ids : DistinctIds rows)
    (keys : DistinctKeys rows) (ne : cw ≢ cl) (fw : find_row u cw rows ≡ some w)
    (fl : find_row u cl rows ≡ some l) (same : l.tier ≡ w.tier)
    (dense : IsNormalized u w.tier rows) where
  abbrev order : List Assignment
  order = tier_rows u w.tier rows

  distinct : w.id ≢ l.id
  distinct e = ground (
    arith,
    find_row-owns u cl l rows fl,
    find_row-All (λ r. owns u cw r ≡ (r.id == w.id)) u cl l rows
        (find_row-Picks u cw w rows ids keys fw) fl,
  )

  rising : Rising order
  rising = subst Rising (sym dense) (Rising-renumber 1 order)

  order_ids : DistinctIds order
  unfolding tier_rows
  order_ids =
      DistinctIds-perm (Permᴰ.symm (sort_by-perm _)) (DistinctIds-keep (in_tier u w.tier) rows ids)

  nw : Names w order
  nw = Names-tier u cw w.tier w rows ids keys fw refl

  nl : Names l order
  nl = Names-tier u cl w.tier l rows ids keys fl same

  hw : Has w.id order
  hw = Has-tier u cw w.tier w rows ids keys fw refl

  hl : Has l.id order
  hl = Has-tier u cl w.tier l rows ids keys fl same

  arrangement : (n : ℕ) → Permᴰ (keep (in_tier u w.tier) rows) (insert_at n w (others w.id order))
  unfolding tier_rows
  arrangement n =
      Permᴰ.trans (Permᴰ.symm (sort_by-perm _))
        (Permᴰ.trans (extract w order order_ids nw hw) (insert_at-perm n w _))

  moves :
      (n : ℕ)
      → courses (insert_at n w (others w.id order)) ≡ prefer w.course_id l.course_id (courses order)
      → Settled u w.tier w.course_id l.course_id rows
          (write_positions 1 (insert_at n w (others w.id order)) rows)
  unfolding course_order
  moves n c = (
    ap courses (
          tier_rows-write_positions u w.tier (insert_at n w (others w.id order)) rows ids
            (arrangement n))
        ∙ map-renumber 1 _
        ∙ c,
    λ v s out. ap courses (
        tier_rows_other u v w.tier s 1 (insert_at n w (others w.id order)) rows ids (arrangement n)
          out),
  )

  stays :
      w.ordinal_position ≤ l.ordinal_position
      → course_order u w.tier rows ≡ prefer w.course_id l.course_id (course_order u w.tier rows)
  unfolding course_order
  stays h = sym (prefer_ahead w l order distinct rising nw nl hw hl h)

  pub settle_lem :
      (rows' : List Assignment) × (settle u rows w l ≡ ok rows')
      × Settled u w.tier w.course_id l.course_id rows rows'
  settle_lem = elim (Bool-cases (ltb l.ordinal_position w.ordinal_position)) [
    | inl e ↦
        let (n, i, c) = moved_ahead w l order distinct rising nw nl hw hl (ground arith) in
        (
          write_positions 1 (insert_at n w (others w.id order)) rows,
          rw e (unfold move_ahead in rw i),
          moves n c,
        )
    | inr e ↦ (rows, rw e, (stays (ground arith), λ v s out. refl))
  ]

-- What the answer asks of the order of the tier.
abbrev pub preferred_order : ℕ → ℕ → Answer → List ℕ → List ℕ
preferred_order a b course_a order = prefer a b order
preferred_order a b course_b order = prefer b a order
preferred_order a b too_close order = order

module _ (u a b : ℕ) (x y : Assignment) (rows : List Assignment) (ids : DistinctIds rows)
    (keys : DistinctKeys rows) (ne : a ≢ b) (fx : find_row u a rows ≡ some x)
    (fy : find_row u b rows ≡ some y) (same : y.tier ≡ x.tier) (ranked : x.tier ≢ not_sure)
    (dense : IsNormalized u x.tier rows) where
  abbrev Answered : Answer → List Assignment → Type 0
  Answered answer rows' =
      (course_order u x.tier rows' ≡ preferred_order a b answer (course_order u x.tier rows))
      × ((v : ℕ) (s : Tier)
          → ((r : Assignment) → in_tier u x.tier r ≡ true → in_tier v s r ≡ false)
          → course_order v s rows' ≡ course_order v s rows)

  xa : x.course_id ≡ a
  xa = (owner u a x (find_row-owns u a x rows fx)).1

  yb : y.course_id ≡ b
  yb = (owner u b y (find_row-owns u b y rows fy)).1

  module _ (p q : Assignment) (pa : by_course a p q ≡ some x) (pb : by_course b p q ≡ some y) where
    -- In whichever order the query answers the two rows.
    answered :
        (answer : Answer)
        → (rows' : List Assignment) × (answer_rows u a b rows p q (preferred_id a b answer)
            ≡ ok rows')
          × Answered answer rows'
    answered course_a =
        let (rows', e, s) = settle_lem u a b x y rows ids keys ne fx fy same dense in
        (rows', rw (pa, ==-refl a, pb) e, subst₂ (λ w l. Settled u x.tier w l rows rows') xa yb s)
    answered course_b =
        let (rows', e, s) =
          settle_lem u b a y x rows ids keys (λ e. ne (sym e)) fy fx (sym same)
            (subst (λ t. IsNormalized u t rows) (sym same) dense) in
        (
          rows',
          rw (pb, ne_test, pa) e,
          subst (λ t. Settled u t b a rows rows') same
              (subst₂ (λ w l. Settled u y.tier w l rows rows') yb xa s),
        )
      where
        ne_test : (b == a) ≡ false
        ne_test = ground arith
    answered too_close = (rows, refl, (refl, λ v s out. refl))

  by_course_lem :
      (by_course a x y ≡ some x)
      × (by_course b x y ≡ some y)
      × (by_course a y x ≡ some x)
      × (by_course b y x ≡ some y)
  unfolding by_course
  by_course_lem = (
    ground (arith, xa, yb),
    ground (arith, xa, yb),
    ground (arith, xa, yb),
    ground (arith, xa, yb),
  )

  tests :
      (same_tier x.tier y.tier ≡ true)
      × (same_tier x.tier not_sure ≡ false)
      × (same_tier y.tier x.tier ≡ true)
      × (same_tier y.tier not_sure ≡ false)
  tests = ground arith

  compared :
      (answer : Answer)
      → (rows' : List Assignment) × (compare_rows u a b answer rows ≡ ok rows')
        × Answered answer rows'
  unfolding compare_rows
  compared answer = elim (pair_rows_lem u a b ne x y rows keys fx fy) [
    | inl e ↦ rw (e, tests.0, tests.1) (answered x y by_course_lem.0 by_course_lem.1 answer)
    | inr e ↦ rw (e, tests.2, tests.3) (answered y x by_course_lem.2 by_course_lem.3 answer)
  ]

  -- In a table with distinct ids and one row at most for a user and a course, two different courses
  -- that a user has in one ranking tier, whose positions are 1, 2, 3, ..., can be compared: the
  -- call succeeds, and the order of the tier is the old one in which the preferred course, if it
  -- stood behind the other, is moved to just before it. It is the old order if neither is
  -- preferred.
  pub compare_rows-prefers :
      (answer : Answer)
      → (rows' : List Assignment) × (compare_rows u a b answer rows ≡ ok rows')
        × (course_order u x.tier rows' ≡ preferred_order a b answer (course_order u x.tier rows))
  compare_rows-prefers answer = let (rows', e, (order, _)) = compared answer in (rows', e, order)

  -- Under the conditions of `compare_rows-prefers`, a comparison that succeeds leaves the order of
  -- a tier of a user as it was, if that tier shares no row with the tier of the two courses.
  pub compare_rows-others :
      (answer : Answer) (rows' : List Assignment) (v : ℕ) (s : Tier)
      → compare_rows u a b answer rows ≡ ok rows'
      → ((r : Assignment) → in_tier u x.tier r ≡ true → in_tier v s r ≡ false)
      → course_order v s rows' ≡ course_order v s rows
  compare_rows-others answer rows' v s e out =
      let (rows'', e', (_, rest)) = compared answer in
      subst (λ rs. course_order v s rs ≡ course_order v s rows) (ok-inj rows'' rows' (sym e' ∙ e))
        (rest v s out)
