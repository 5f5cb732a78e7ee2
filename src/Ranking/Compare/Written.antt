-- ===== src/Ranking/Compare/Written.antt =====
-- The rows that `compare_courses` writes.
use golf_rank.Base.{
  ℕ, ◌<◌, ◌≡◌, ◌⊎◌, inl, inr, sym, Option, none, some, List, ◌==◌, ltb, if◌then◌else◌, Bool-cases,
  Result, ok, err, ok_or_err, ok-inj, err≢ok, ◌>>◌,
}
use golf_rank.Ranking.Table.{Assignment, tier_rows, write_positions}
use golf_rank.Ranking.Table.Distinct.{DistinctIds-write_positions}
use golf_rank.Ranking.Place.{Assignments}
use golf_rank.Ranking.Place.Keys.{IsWellFormed}
use golf_rank.Ranking.Place.Preserved.{
  DistinctKeys-write_positions, All-write_positions, issued_place,
}
use golf_rank.Ranking.Compare.{
  Answer, pair_rows, two_rows, by_course, or_fail, move_ahead, settle, answer_rows, compare_rows,
  preferred_id,
}

abbrev Written : List Assignment → List Assignment → Type 0
Written rows rows' =
    (rows' ≡ rows) ⊎ ((order : List Assignment) × (rows' ≡ write_positions 1 order rows))

settle-Written :
    (u : ℕ) (rows rows' : List Assignment) (w l : Assignment)
    → settle u rows w l ≡ ok rows'
    → Written rows rows'
settle-Written u rows rows' w l = elim (Bool-cases (ltb l.ordinal_position w.ordinal_position)) [
  | inl e ↦ elim (ok_or_err (move_ahead w l (tier_rows u w.tier rows))) [
    | inl (order, k) ↦ rw (e, k) (λ h. inr (order, sym (ok-inj _ _ h)))
    | inr (x, k) ↦ rw (e, k) (λ h. absurd (err≢ok x rows' h))
  ]
  | inr e ↦ rw e (λ h. inl (sym (ok-inj _ _ h)))
]

answer_rows-Written :
    (u a b : ℕ) (rows rows' : List Assignment) (x y : Assignment) (c : Option ℕ)
    → answer_rows u a b rows x y c ≡ ok rows'
    → Written rows rows'
answer_rows-Written u a b rows rows' x y none = λ h. inl (sym (ok-inj _ _ h))
answer_rows-Written u a b rows rows' x y (some c) = elim (ok_or_err (or_fail (by_course c x y))) [
  | inl (w, k) ↦ elim (ok_or_err (or_fail (by_course (if c == a then b else a) x y))) [
    | inl (l, m) ↦ rw (k, m) (settle-Written u rows rows' w l)
    | inr (e, m) ↦ rw (k, m) (λ h. absurd (err≢ok e rows' h))
  ]
  | inr (e, k) ↦ rw k (λ h. absurd (err≢ok e rows' h))
]

checked :
    (u a b : ℕ) (rows rows' : List Assignment) (x y : Assignment) (c : Option ℕ)
    → (p' : Result (Unit {0})) (q' : Result (Unit {0}))
    → (p' >> (q' >> answer_rows u a b rows x y c)) ≡ ok rows'
    → Written rows rows'
checked u a b rows rows' x y c (ok t) (ok t') = answer_rows-Written u a b rows rows' x y c
checked u a b rows rows' x y c (ok t) (err e) = λ h. absurd (err≢ok e rows' h)
checked u a b rows rows' x y c (err e) q' = λ h. absurd (err≢ok e rows' h)

compare_rows-Written :
    (u a b : ℕ) (answer : Answer) (rows rows' : List Assignment)
    → compare_rows u a b answer rows ≡ ok rows'
    → Written rows rows'
unfolding compare_rows
compare_rows-Written u a b answer rows rows' = elim (ok_or_err (two_rows (pair_rows u a b rows))) [
  | inl ((x, y), k) ↦ rw k (checked u a b rows rows' x y (preferred_id a b answer) _ _)
  | inr (e, k) ↦ rw k (λ h. absurd (err≢ok e rows' h))
]

-- A comparison keeps the table well formed.
pub compare_rows-IsWellFormed :
    (u a b : ℕ) (answer : Answer) (s : Assignments) (rows' : List Assignment)
    → IsWellFormed s
    → compare_rows u a b answer s.rows ≡ ok rows'
    → IsWellFormed (record s { rows = rows' })
compare_rows-IsWellFormed u a b answer s rows' w h =
    elim (compare_rows-Written u a b answer s.rows rows' h) [
      | inl e ↦ rw e w
      | inr (order, e) ↦ rw e (record {
        ids = DistinctIds-write_positions 1 order s.rows w.ids;
        keys = DistinctKeys-write_positions 1 order s.rows w.keys;
        issued =
            All-write_positions (λ r. r.id < s.next_id) (issued_place s.next_id) 1 order s.rows
              w.issued;
      })
    ]
