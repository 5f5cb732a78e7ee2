-- ===== src/Ranking/Place/Preserved.antt =====
-- The ids and the (user, course) pairs of the table after a placement of `place_in_tiers`.
use native.Mathlib.Nat.{le_trans}
use golf_rank.Base.{
  ℕ, ◌+◌, ◌≡◌, ◌<◌, ◌≤◌, refl, sym, subst, subst₂, inl, inr, false, true, List, [], ◌∷◌, map, arith,
  ◌==◌, Bool-cases, All, All-map, Option, none, some,
}
use golf_rank.Ranking.Table.{Assignment, owns, find_row, save_row, place_row, write_positions}
use golf_rank.Ranking.Table.Distinct.{Fresh, DistinctIds, DistinctIds-write_positions}
use golf_rank.Ranking.Table.Saved.{DistinctIds-save_row}
use golf_rank.Ranking.Place.{Assignments, Placement, placed_row, id_after, place_one}
use golf_rank.Ranking.Table.Lookup.{DistinctKeys, Picks, owner, find_row-All}
use golf_rank.Ranking.Place.Keys.{IsWellFormed, placed_row-Picks, placed_row-owns}

module _ (P : Assignment → Type 0)
    (keeps : (i k : ℕ) (r : Assignment) → P r → P (place_row i k r)) where
  All-map_place : (i k : ℕ) (rows : List Assignment) → All P rows → All P (map (place_row i k) rows)
  All-map_place i k [] h = tt
  All-map_place i k (r ∷ rows) h = (keeps i k r h.0, All-map_place i k rows h.1)

  pub All-write_positions :
      (k : ℕ) (order rows : List Assignment) → All P rows → All P (write_positions k order rows)
  unfolding write_positions
  All-write_positions k [] rows h = h
  All-write_positions k (r ∷ order) rows h =
      All-write_positions (k + 1) order _ (All-map_place r.id k rows h)

owns_place :
    (u c i k : ℕ) (r : Assignment) → owns u c r ≡ false → owns u c (place_row i k r) ≡ false
owns_place u c i k r h = elim (Bool-cases (r.id == i)) [ inl e ↦ rw e h | inr e ↦ rw e h ]

pub issued_place : (n i k : ℕ) (r : Assignment) → r.id < n → (place_row i k r).id < n
issued_place n i k r h = elim (Bool-cases (r.id == i)) [ inl e ↦ rw e h | inr e ↦ rw e h ]

DistinctKeys-map_place :
    (i k : ℕ) (rows : List Assignment) → DistinctKeys rows → DistinctKeys (map (place_row i k) rows)
DistinctKeys-map_place i k [] h = tt
DistinctKeys-map_place i k (r ∷ rows) h = (head, DistinctKeys-map_place i k rows h.1)
  where
    tail : All (λ s. owns r.user_id r.course_id s ≡ false) (map (place_row i k) rows)
    tail =
        All-map_place (λ s. owns r.user_id r.course_id s ≡ false) (owns_place r.user_id r.course_id)
          i k rows h.0

    head :
        All
          (λ s. owns (place_row i k r).user_id (place_row i k r).course_id s ≡ false)
          (map (place_row i k) rows)
    head = elim (Bool-cases (r.id == i)) [ inl e ↦ rw e tail | inr e ↦ rw e tail ]

pub DistinctKeys-write_positions :
    (k : ℕ) (order rows : List Assignment)
    → DistinctKeys rows
    → DistinctKeys (write_positions k order rows)
unfolding write_positions
DistinctKeys-write_positions k [] rows h = h
DistinctKeys-write_positions k (r ∷ order) rows h =
    DistinctKeys-write_positions (k + 1) order _ (DistinctKeys-map_place r.id k rows h)

All-save_row :
    (P : Assignment → Type 0) (a : Assignment) (rows : List Assignment)
    → P a
    → All P rows
    → All P (save_row a rows)
unfolding save_row
All-save_row P a [] h k = (h, tt)
All-save_row P a (r ∷ rows) h k = elim (Bool-cases (r.id == a.id)) [
  | inl e ↦ rw e (h, k.1)
  | inr e ↦ rw e (k.0, All-save_row P a rows h k.1)
]

unowned_tail :
    (u c i : ℕ) (rows : List Assignment)
    → Fresh i rows
    → Picks u c i rows
    → All (λ s. owns u c s ≡ false) rows
unowned_tail u c i [] h k = tt
unowned_tail u c i (s ∷ rows) h k = (ground arith, unowned_tail u c i rows h.1 k.1)

module _ (u c : ℕ) (a : Assignment) (mine : owns u c a ≡ true) where
  owned_tail :
      (i : ℕ) (rows : List Assignment)
      → i ≡ a.id
      → Fresh i rows
      → Picks u c a.id rows
      → All (λ s. owns a.user_id a.course_id s ≡ false) rows
  owned_tail i rows e h k =
      subst₂ (λ x y. All (λ s. owns x y s ≡ false) rows) (sym (owner u c a mine).0)
        (sym (owner u c a mine).1) (unowned_tail u c a.id rows (subst (λ j. Fresh j rows) e h) k)

  DistinctKeys-save_row :
      (rows : List Assignment)
      → DistinctIds rows
      → DistinctKeys rows
      → Picks u c a.id rows
      → DistinctKeys (save_row a rows)
  unfolding save_row
  DistinctKeys-save_row [] d k h = (tt, tt)
  DistinctKeys-save_row (r ∷ rows) d k h = elim (Bool-cases (r.id == a.id)) [
    | inl e ↦ rw e (owned_tail r.id rows (ground arith) d.0 h.1, k.1)
    | inr e ↦ rw e (
      All-save_row (λ s. owns r.user_id r.course_id s ≡ false) a rows (ground (arith, h.0)) k.0,
      DistinctKeys-save_row rows d.1 k.1 h.1,
    )
  ]

module _ (u : ℕ) (s : Assignments) (p : Placement) (w : IsWellFormed s) where
  issued_before :
      (found : Option Assignment)
      → find_row u p.course_id s.rows ≡ found
      → ((placed_row u p s.next_id found).id < id_after s.next_id found)
        × (s.next_id ≤ id_after s.next_id found)
  issued_before none e = omega arith
  issued_before (some r) e =
      (find_row-All (λ r. r.id < s.next_id) u p.course_id r s.rows w.issued e, omega arith)

  pub place_one-IsWellFormed : IsWellFormed (place_one u s p)
  unfolding place_one
  place_one-IsWellFormed = record {
    ids = DistinctIds-write_positions 1 _ _ (DistinctIds-save_row row s.rows w.ids);
    keys = DistinctKeys-write_positions 1 _ _ (
        DistinctKeys-save_row u p.course_id row (placed_row-owns u s p _ refl) s.rows w.ids w.keys
          (placed_row-Picks u s p _ w refl));
    issued =
        All-write_positions (λ r. r.id < next) (issued_place next) 1 _ _
          (All-save_row (λ r. r.id < next) row s.rows (issued_before _ refl).0
            (All-map (λ r h. le_trans h (issued_before _ refl).1) s.rows w.issued));
  }
    where
      row : Assignment
      row = placed_row u p s.next_id (find_row u p.course_id s.rows)

      next : ℕ
      next = id_after s.next_id (find_row u p.course_id s.rows)
