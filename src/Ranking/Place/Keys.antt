-- ===== src/Ranking/Place/Keys.antt =====
-- The table that a placement works on, and the row that it writes.
use golf_rank.Base.{ℕ, ◌≡◌, ◌<◌, true, Option, none, some, List, [], ◌∷◌, arith, All}
use golf_rank.Ranking.Table.{Assignment, owns, find_row}
use golf_rank.Ranking.Table.Distinct.{Fresh, DistinctIds}
use golf_rank.Ranking.Table.Lookup.{
  DistinctKeys, Picks, Picks-tail, find_row-none, find_row-Picks, find_row-owns,
}
use golf_rank.Ranking.Place.{Assignments, Placement, placed_row}

pub record IsWellFormed (s : Assignments) : Type 0 where
  pub ids : DistinctIds s.rows
  pub keys : DistinctKeys s.rows
  pub issued : All (λ r. r.id < s.next_id) s.rows

Fresh-issued : (n : ℕ) (rows : List Assignment) → All (λ r. r.id < n) rows → Fresh n rows
Fresh-issued n [] h = tt
Fresh-issued n (r ∷ rows) h = ((λ e. omega arith), Fresh-issued n rows h.1)

-- The row that a placement writes is the user's row of the course, and the only one.
pub placed_row-Picks :
    (u : ℕ) (s : Assignments) (p : Placement) (found : Option Assignment)
    → IsWellFormed s
    → find_row u p.course_id s.rows ≡ found
    → Picks u p.course_id (placed_row u p s.next_id found).id s.rows
placed_row-Picks u s p none w e =
    Picks-tail u p.course_id s.next_id s.rows (find_row-none u p.course_id s.rows e)
      (Fresh-issued s.next_id s.rows w.issued)
placed_row-Picks u s p (some r) w e = find_row-Picks u p.course_id r s.rows w.ids w.keys e

pub placed_row-owns :
    (u : ℕ) (s : Assignments) (p : Placement) (found : Option Assignment)
    → find_row u p.course_id s.rows ≡ found
    → owns u p.course_id (placed_row u p s.next_id found) ≡ true
placed_row-owns u s p none e = ground arith
placed_row-owns u s p (some r) e = find_row-owns u p.course_id r s.rows e
