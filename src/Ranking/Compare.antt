-- ===== src/Ranking/Compare.antt =====
-- `compare_courses` of ranking.py: one pairwise answer, and the move that it causes in the tier.
pub mod Ahead
pub mod Rows
pub mod Prefer
pub mod Written
use golf_rank.Base.{
  ℕ, Bool, true, false, not, ◌&&◌, ◌||◌, Option, none, some, List, [], ◌∷◌, ◌==◌, ltb,
  if◌then◌else◌, keep, insert_at, Result, ok, err, raise, require, ◌>>=◌, ◌>>◌, suc,
}
use golf_rank.Ranking.Tier.{Tier, not_sure, same_tier}
use golf_rank.Ranking.Table.{Assignment, tier_rows, write_positions}

-- ComparisonIn.result
pub data Answer : Type 0 where
  course_a course_b too_close : Answer

-- `preferred_id`
abbrev pub preferred_id : ℕ → ℕ → Answer → Option ℕ
preferred_id a b course_a = some a
preferred_id a b course_b = some b
preferred_id a b too_close = none

-- `where(user_id == user, course_id.in_([a, b]))`
abbrev pub in_pair : ℕ → ℕ → ℕ → Assignment → Bool
in_pair user a b r = r.user_id == user && (r.course_id == a || r.course_id == b)

abbrev pub pair_rows : ℕ → ℕ → ℕ → List Assignment → List Assignment
pair_rows user a b rows = keep (in_pair user a b) rows

-- `{item.course_id: item for item in assignments}[course]`; `none` is a KeyError.
unfoldable pub by_course : ℕ → Assignment → Assignment → Option Assignment
by_course course x y =
    if y.course_id == course then some y else if x.course_id == course then some x else none

abbrev next : Option ℕ → Option ℕ
next none = none
next (some n) = some (suc n)

-- `xs.index(row)`; `none` is a ValueError.
unfoldable pub index_of : ℕ → List Assignment → Option ℕ
index_of i [] = none
index_of i (r ∷ rows) = if r.id == i then some 0 else next (index_of i rows)

-- An exception that is no HTTPException ends the request with status 500.
abbrev pub or_fail {ℓ} : {A : Type ℓ} → Option A → Result A
or_fail (some a) = ok a
or_fail none = raise 500 "Internal Server Error"

-- `tier_order.remove(winner); tier_order.insert(tier_order.index(loser), winner)`
unfoldable pub move_ahead : Assignment → Assignment → List Assignment → Result (List Assignment)
move_ahead winner loser order =
    let rest = keep (λ r. not (r.id == winner.id)) order in
    do i ← or_fail (index_of loser.id rest); ok (insert_at i winner rest)

-- `if len(assignments) != 2: raise HTTPException(409, ...)`
abbrev pub two_rows : List Assignment → Result (Assignment × Assignment)
two_rows (x ∷ y ∷ []) = ok (x, y)
two_rows _ = raise 409 "Place both courses into tiers before comparing them"

abbrev pub settle : ℕ → List Assignment → Assignment → Assignment → Result (List Assignment)
settle user rows winner loser =
    if ltb loser.ordinal_position winner.ordinal_position
    then (do
      order ← move_ahead winner loser (tier_rows user winner.tier rows)
      ok (write_positions 1 order rows))
    else ok rows

-- What the answer does to the rows, once it is known that they may be compared.
abbrev pub answer_rows :
    ℕ → ℕ → ℕ → List Assignment → Assignment → Assignment → Option ℕ → Result (List Assignment)
answer_rows user a b rows x y none = ok rows
answer_rows user a b rows x y (some c) = do
  winner ← or_fail (by_course c x y)
  loser ← or_fail (by_course (if c == a then b else a) x y)
  settle user rows winner loser

unfoldable pub compare_rows : ℕ → ℕ → ℕ → Answer → List Assignment → Result (List Assignment)
unfolding move_ahead by_course
compare_rows user a b answer rows = do
  (x, y) ← two_rows (pair_rows user a b rows)
  require (same_tier x.tier y.tier) 409 "Pairwise refinement only compares courses in the same tier"
  require (not (same_tier x.tier not_sure)) 409
      "Place both courses into ranking tiers before comparing them"
  answer_rows user a b rows x y (preferred_id a b answer)
