-- ===== src/Ranking/Tests.antt =====
-- The ranking on a small table: the properties of its parts at concrete rows.
use mathlib.Core.List.{foldl}
use golf_rank.Base.{ℕ, ◌≡◌, ◌≢◌, ◌≤◌, ◌<◌, refl, true, false, none, some, List, [], ◌∷◌, arith, ok}
use golf_rank.Base.Rounding.{half_even, round_half_even}
use golf_rank.Ranking.Tier.{Tier, green, fairway, rough, bunker, not_sure}
use golf_rank.Ranking.Rating.{rating, in_band, rating_separates_tiers, rating_in_band}
use golf_rank.Ranking.Table.{
  Assignment, tier_rows, course_order, find_row, renumber, in_tier, write_positions, save_row,
}
use golf_rank.Ranking.Table.Distinct.{DistinctIds}
use golf_rank.Ranking.Table.Lookup.{DistinctKeys}
use golf_rank.Ranking.Place.{Assignments, Placement, place_one, place_all}
use golf_rank.Ranking.Place.Keys.{IsWellFormed}
use golf_rank.Ranking.Place.Refines.{board, place_on_board, place_all-refines}
use golf_rank.Ranking.Compare.{course_b, compare_rows, move_ahead, by_course, index_of}
use golf_rank.Ranking.Compare.Prefer.{IsNormalized, preferred_order, compare_rows-prefers}

abbrev pub row : ℕ → ℕ → ℕ → Tier → ℕ → Assignment
row id user course tier position = record {
  id = id;
  user_id = user;
  course_id = course;
  tier = tier;
  ordinal_position = position;
  is_incomplete = false;
}

abbrev pub table : List Assignment
table = row 1 7 10 fairway 1 ∷ row 2 7 20 fairway 2 ∷ row 3 8 10 green 1 ∷ row 4 7 30 fairway 3 ∷ []

abbrev pub assignments : Assignments
assignments = record { rows = table; next_id = 5 }

pub table_ids : DistinctIds table
table_ids = ground arith

pub table_keys : DistinctKeys table
table_keys = ground arith

pub well_formed : IsWellFormed assignments
well_formed = record { ids = table_ids; keys = table_keys; issued = ground arith }

order_of_seven : course_order 7 fairway table ≡ 10 ∷ 20 ∷ 30 ∷ []
unfolding course_order tier_rows
order_of_seven = refl

abbrev pub to_front : Placement
to_front = record { course_id = 30; tier = fairway; position = some 1 }

abbrev pub new_bunker : Placement
new_bunker = record { course_id = 40; tier = bunker; position = none }

moved :
    course_order 7 fairway (place_all 7 assignments (to_front ∷ new_bunker ∷ [])).rows
    ≡ 30 ∷ 10 ∷ 20 ∷ []
unfolding course_order tier_rows place_all place_one find_row write_positions save_row
moved = refl

-- The witnesses.
place_all-refines_example :
    (board 7 (place_all 7 assignments (to_front ∷ new_bunker ∷ [])).rows
      ≡ foldl place_on_board (board 7 table) (to_front ∷ new_bunker ∷ []))
    × IsWellFormed (place_all 7 assignments (to_front ∷ new_bunker ∷ []))
place_all-refines_example = place_all-refines 7 assignments (to_front ∷ new_bunker ∷ []) well_formed

pub found_10 : find_row 7 10 table ≡ some (row 1 7 10 fairway 1)
unfolding find_row
found_10 = refl

pub found_30 : find_row 7 30 table ≡ some (row 4 7 30 fairway 3)
unfolding find_row
found_30 = refl

pub dense : IsNormalized 7 fairway table
unfolding tier_rows renumber
dense = refl

pub ranked : fairway ≢ not_sure
ranked e = cc

compare_rows-prefers_example :
    (rows' : List Assignment) × (compare_rows 7 10 30 course_b table ≡ ok rows')
    × (course_order 7 fairway rows' ≡ preferred_order 10 30 course_b (course_order 7 fairway table))
compare_rows-prefers_example =
    compare_rows-prefers 7 10 30 (row 1 7 10 fairway 1) (row 4 7 30 fairway 3) table table_ids
      table_keys (λ e. omega arith) found_10 found_30 refl ranked dense course_b

abbrev compared_table : List Assignment
compared_table =
    row 1 7 10 fairway 2 ∷ row 2 7 20 fairway 3 ∷ row 3 8 10 green 1 ∷ row 4 7 30 fairway 1 ∷ []

compared : compare_rows 7 10 30 course_b table ≡ ok compared_table
unfolding compare_rows move_ahead by_course tier_rows write_positions index_of
compared = refl

other_tiers : (r : Assignment) → in_tier 7 fairway r ≡ true → in_tier 8 green r ≡ false
other_tiers r h = ground arith

green_last : rating half_even green 2 3 ≡ some 85
unfolding rating in_band round_half_even
green_last = refl

fairway_first : rating half_even fairway 0 2 ≡ some 84
unfolding rating in_band round_half_even
fairway_first = refl

fairway_last : rating half_even fairway 1 2 ≡ some 70
unfolding rating in_band round_half_even
fairway_last = refl

rating_separates_tiers_example : 84 < 85
rating_separates_tiers_example =
    rating_separates_tiers half_even green fairway 2 3 0 2 85 84 (omega arith) (omega arith)
      (omega arith) green_last fairway_first

rating_in_band_example : (r : ℕ) × (rating half_even rough 1 3 ≡ some r) × (50 ≤ r) × (r ≤ 69)
rating_in_band_example = rating_in_band half_even rough 50 69 1 3 refl (omega arith)
