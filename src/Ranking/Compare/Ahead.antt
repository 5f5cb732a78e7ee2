-- ===== src/Ranking/Compare/Ahead.antt =====
-- Moving a row ahead of another, seen on the list of course ids.
use golf_rank.Base.{
  ℕ, ◌≡◌, ◌≢◌, ◌≤◌, ◌<◌, refl, sym, ap, subst, ◌∙◌, inl, inr, true, false, not, some, List, [], ◌∷◌,
  map, arith, ◌==◌, Bool-cases, if◌then◌else◌, All, any, keep, remove, insert_at, map-keep,
  keep-cong, All-map, suc,
}
use golf_rank.Ranking.Table.{Assignment}
use golf_rank.Ranking.Compare.{index_of}

-- The winner goes directly before the loser, unless it is ahead already.
unfoldable pub prefer : ℕ → ℕ → List ℕ → List ℕ
prefer winner loser [] = []
prefer winner loser (x ∷ xs) =
    if x == winner
    then x ∷ xs
    else if x == loser
    then winner ∷ x ∷ remove winner xs
    else x ∷ prefer winner loser xs

abbrev pub courses : List Assignment → List ℕ
courses = map (λ r. r.course_id)

-- Positions rise along the list.
abbrev pub Rising : List Assignment → Type 0
Rising [] = Unit {0}
Rising (r ∷ rows) = All (λ s. r.ordinal_position < s.ordinal_position) rows × Rising rows

-- In these rows the id and the course of `a` name the same row, which has the position of `a`.
abbrev pub Names : Assignment → List Assignment → Type 0
Names a = All (λ r. ((r.course_id == a.course_id) ≡ (r.id == a.id)) × (r.id ≡ a.id → r ≡ a))

abbrev pub Has : ℕ → List Assignment → Type 0
Has i rows = any (λ r. r.id == i) rows ≡ true

after_head :
    (r a : Assignment) (rows : List Assignment)
    → All (λ s. r.ordinal_position < s.ordinal_position) rows
    → Names a rows
    → Has a.id rows
    → r.ordinal_position < a.ordinal_position
after_head r a [] h n e = cc
after_head r a (s ∷ rows) h n e = elim (Bool-cases (s.id == a.id)) [
  | inl f ↦
      subst (λ (x : Assignment). r.ordinal_position < x.ordinal_position) (n.0.1 (ground arith)) h.0
  | inr f ↦ after_head r a rows h.1 n.1 (rw f at e)
]

module _ (w l : Assignment) where
  -- A winner with the smaller position is ahead already.
  pub prefer_ahead :
      (rows : List Assignment)
      → w.id ≢ l.id
      → Rising rows
      → Names w rows
      → Names l rows
      → Has w.id rows
      → Has l.id rows
      → w.ordinal_position ≤ l.ordinal_position
      → prefer w.course_id l.course_id (courses rows) ≡ courses rows
  unfolding prefer
  prefer_ahead [] d r nw nl hw hl h = refl
  prefer_ahead (x ∷ rows) d r nw nl hw hl h = elim (Bool-cases (x.id == w.id)) [
    | inl e ↦ rw (nw.0.0, e)
    | inr e ↦ elim (Bool-cases (x.id == l.id)) [
      | inl f ↦ absurd (late (nl.0.1 (ground arith)) (after_head x w rows r.0 nw.1 (rw e at hw)))
      | inr f ↦
          rw (nw.0.0, e, nl.0.0, f)
            (ap (λ xs. x.course_id ∷ xs)
              (prefer_ahead rows d r.1 nw.1 nl.1 (rw e at hw) (rw f at hl) h))
    ]
  ]
    where
      late : x ≡ l → x.ordinal_position < w.ordinal_position → ⊥
      late e k =
          omega (arith, subst (λ (y : Assignment). y.ordinal_position < w.ordinal_position) e k)

  abbrev without : List Assignment → List Assignment
  without rows = keep (λ r. not (r.id == w.id)) rows

  courses-without :
      (rows : List Assignment)
      → Names w rows
      → courses (without rows) ≡ remove w.course_id (courses rows)
  courses-without rows n =
      ap courses (keep-cong _ _ rows (All-map (λ r k. ap not (sym k.0)) rows n))
      ∙ sym (map-keep (λ x. not (x == w.course_id)) (λ (r : Assignment). r.course_id) rows)

  -- A winner with the larger position is moved directly before the loser.
  pub moved_ahead :
      (rows : List Assignment)
      → w.id ≢ l.id
      → Rising rows
      → Names w rows
      → Names l rows
      → Has w.id rows
      → Has l.id rows
      → l.ordinal_position < w.ordinal_position
      → (n : ℕ) × (index_of l.id (without rows) ≡ some n)
        × (courses (insert_at n w (without rows)) ≡ prefer w.course_id l.course_id (courses rows))
  unfolding index_of prefer
  moved_ahead [] d r nw nl hw hl h = absurd (cc hl)
  moved_ahead (x ∷ rows) d r nw nl hw hl h = elim (Bool-cases (x.id == w.id)) [
    | inl e ↦
        absurd (late (nw.0.1 (ground arith)) (after_head x l rows r.0 nl.1 (ground (arith, hl))))
    | inr e ↦ elim (Bool-cases (x.id == l.id)) [
      | inl f ↦ (
        0,
        rw (e, f),
        rw (e, nw.0.0, e, nl.0.0, f)
            (ap (λ xs. w.course_id ∷ x.course_id ∷ xs) (courses-without rows nw.1)),
      )
      | inr f ↦ further e f (moved_ahead rows d r.1 nw.1 nl.1 (rw e at hw) (rw f at hl) h)
    ]
  ]
    where
      late : x ≡ w → x.ordinal_position < l.ordinal_position → ⊥
      late e k =
          omega (arith, subst (λ (y : Assignment). y.ordinal_position < l.ordinal_position) e k)

      further :
          (x.id == w.id) ≡ false
          → (x.id == l.id) ≡ false
          → (n : ℕ) × (index_of l.id (without rows) ≡ some n)
            × (courses (insert_at n w (without rows))
                ≡ prefer w.course_id l.course_id (courses rows))
          → (n : ℕ) × (index_of l.id (without (x ∷ rows)) ≡ some n)
            × (courses (insert_at n w (without (x ∷ rows)))
                ≡ prefer w.course_id l.course_id (courses (x ∷ rows)))
      further e f (n, i, c) =
          (suc n, rw (e, f, i), rw (e, nw.0.0, e, nl.0.0, f) (ap (λ xs. x.course_id ∷ xs) c))
