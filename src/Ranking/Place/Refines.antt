-- ===== src/Ranking/Place/Refines.antt =====
-- `place_in_tiers` against an abstract board: for each tier the list of its courses, best first.
use mathlib.Core.Path.{fun_ext}
use mathlib.Core.List.{foldl}
use golf_rank.Base.{
  ℕ, zero, suc, min, Option, none, some, ◌++◌, ◌≡◌, ◌≢◌, true, refl, sym, ap, ap₂, subst, ◌∙◌, inl,
  inr, List, [], ◌∷◌, arith, Bool-cases, if◌then◌else◌, remove, length, length-map, insert_at,
}
use golf_rank.Ranking.Tier.{Tier, same_tier, same_tier-eq}
use golf_rank.Ranking.Table.{Assignment, course_order, find_row, save_row, in_tier, owns}
use golf_rank.Ranking.Place.{
  Assignments, Placement, target_index, placed_row, peers, place_one, place_all,
}
use golf_rank.Ranking.Table.Lookup.{Picks, owner}
use golf_rank.Ranking.Place.Keys.{IsWellFormed, placed_row-Picks, placed_row-owns}
use golf_rank.Ranking.Place.Written.{around_order, placed_order, other_tier_order, other_user_order}
use golf_rank.Ranking.Place.Preserved.{place_one-IsWellFormed}

abbrev pub Board : Type 0
Board = Tier → List ℕ

abbrev pub board : ℕ → List Assignment → Board
board user rows tier = course_order user tier rows

-- The course goes behind the first `n` courses, or to the end if there are fewer.
unfoldable pub put_behind : ℕ → ℕ → List ℕ → List ℕ
put_behind n course [] = course ∷ []
put_behind zero course (c ∷ courses) = course ∷ c ∷ courses
put_behind (suc n) course (c ∷ courses) = c ∷ put_behind n course courses

-- To the place that is asked for, the first one being 1, and to the end if none is asked for; a
-- place of 0 is none.
abbrev pub put : Option ℕ → ℕ → List ℕ → List ℕ
put none course courses = courses ++ course ∷ []
put (some zero) course courses = courses ++ course ∷ []
put (some (suc n)) course courses = put_behind n course courses

-- The course leaves its tier and goes to its place in the tier of the placement.
unfoldable pub place_on_board : Board → Placement → Board
place_on_board b p tier =
    let rest = remove p.course_id (b tier) in
    if same_tier p.tier tier then put p.position p.course_id rest else rest

insert_at_end :
    (course : ℕ) (courses : List ℕ)
    → insert_at (length courses) course courses ≡ courses ++ course ∷ []
insert_at_end course [] = refl
insert_at_end course (c ∷ courses) = ap (λ xs. c ∷ xs) (insert_at_end course courses)

insert_at_behind :
    (n course : ℕ) (courses : List ℕ)
    → insert_at (min n (length courses)) course courses ≡ put_behind n course courses
unfolding put_behind
insert_at_behind n course [] =
    let e : min n (length {A = ℕ} []) ≡ 0 = omega arith in ap (λ i. insert_at i course []) e
insert_at_behind zero course (c ∷ courses) =
    let e : min 0 (length (c ∷ courses)) ≡ 0 = omega arith in
    ap (λ i. insert_at i course (c ∷ courses)) e
insert_at_behind (suc n) course (c ∷ courses) =
    let e : min (suc n) (length (c ∷ courses)) ≡ suc (min n (length courses)) = omega arith in
    ap (λ i. insert_at i course (c ∷ courses)) e
    ∙ ap (λ xs. c ∷ xs) (insert_at_behind n course courses)

-- The index that the code computes is the place that is asked for.
insert_at-put :
    (o : Option ℕ) (course : ℕ) (courses : List ℕ)
    → insert_at (target_index o (length courses)) course courses ≡ put o course courses
insert_at-put none course courses =
    let e : target_index none (length courses) ≡ length courses = omega arith in
    ap (λ i. insert_at i course courses) e ∙ insert_at_end course courses
insert_at-put (some zero) course courses =
    let e : target_index (some zero) (length courses) ≡ length courses = grind arith in
    ap (λ i. insert_at i course courses) e ∙ insert_at_end course courses
insert_at-put (some (suc n)) course courses =
    let e : target_index (some (suc n)) (length courses) ≡ min n (length courses) = grind arith in
    ap (λ i. insert_at i course courses) e ∙ insert_at_behind n course courses

module _ (u : ℕ) (s : Assignments) (p : Placement) (w : IsWellFormed s) where
  -- The row that is written.
  abbrev row : Assignment
  row = placed_row u p s.next_id (find_row u p.course_id s.rows)

  abbrev rows' : List Assignment
  rows' = (place_one u s p).rows

  abbrev rest : List ℕ
  rest = remove p.course_id (board u s.rows p.tier)

  mine : owns u p.course_id row ≡ true
  mine = placed_row-owns u s p _ refl

  picks : Picks u p.course_id row.id s.rows
  picks = placed_row-Picks u s p _ w refl

  here : in_tier u p.tier row ≡ true
  here = ground (arith, mine)

  length-around : length (peers u p.tier p.course_id (save_row row s.rows)) ≡ length rest
  length-around =
      sym (length-map (λ (r : Assignment). r.course_id) _)
      ∙ ap length (around_order u p.course_id p.tier row s.rows w.ids picks mine here 0)

  own_tier : board u rows' p.tier ≡ put p.position p.course_id rest
  unfolding place_one
  own_tier =
      placed_order u p.course_id p.tier row s.rows w.ids picks mine here _
      ∙ ap₂ (λ n c. insert_at (target_index p.position n) c rest) length-around
          (owner u p.course_id row mine).1
      ∙ insert_at-put p.position p.course_id rest

  -- One placement is one move on the board.
  pub place_one-refines : board u (place_one u s p).rows ≡ place_on_board (board u s.rows) p
  unfolding place_one place_on_board
  place_one-refines = fun_ext λ t. elim (Bool-cases (same_tier p.tier t)) [
    | inl e ↦ rw e (
        subst
          (λ x.
            board u rows' x ≡ put p.position p.course_id (remove p.course_id (board u s.rows x)))
          (same_tier-eq p.tier t e) own_tier)
    | inr e ↦ rw e (
        other_tier_order u p.course_id p.tier row s.rows w.ids picks mine here _ t
          (ground (arith, mine)))
  ]

  -- And it changes no other user's board.
  pub place_one-other_user : (v : ℕ) → u ≢ v → board v (place_one u s p).rows ≡ board v s.rows
  unfolding place_one
  place_one-other_user v ne =
      fun_ext λ t. other_user_order u p.course_id p.tier row s.rows w.ids picks mine here _ v t ne

-- A batch of placements on a well-formed table moves the user's board, the list of the courses of
-- each tier in order, as the batch moves an abstract board one placement after the other: the
-- course leaves its tier, and in the tier of the placement it goes to the end if no place or the
-- place 0 is asked for, and otherwise to the place p, which is behind the first p - 1 of the other
-- courses or at the end if there are fewer. The table stays well formed.
pub place_all-refines :
    (u : ℕ) (s : Assignments) (ps : List Placement)
    → IsWellFormed s
    → (board u (place_all u s ps).rows ≡ foldl place_on_board (board u s.rows) ps)
      × IsWellFormed (place_all u s ps)
unfolding place_all
place_all-refines u s [] w = (refl, w)
place_all-refines u s (p ∷ ps) w =
    let (moved, well) = place_all-refines u (place_one u s p) ps (place_one-IsWellFormed u s p w) in
    (moved ∙ ap (λ b. foldl place_on_board b ps) (place_one-refines u s p w), well)

-- A batch of placements on a well-formed table leaves the board of every other user as it was.
pub place_all-other_user :
    (u v : ℕ) (s : Assignments) (ps : List Placement)
    → IsWellFormed s
    → u ≢ v
    → board v (place_all u s ps).rows ≡ board v s.rows
unfolding place_all
place_all-other_user u v s [] w ne = refl
place_all-other_user u v s (p ∷ ps) w ne =
    place_all-other_user u v (place_one u s p) ps (place_one-IsWellFormed u s p w) ne
    ∙ place_one-other_user u s p w v ne
