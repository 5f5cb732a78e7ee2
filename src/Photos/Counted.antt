-- ===== src/Photos/Counted.antt =====
-- `add_user_image` and the photos of one round.
use golf_rank.Base.{
  ℕ, String, false, ◌≢◌, ◌||◌, ◌==◌, ◌+◌, ◌≤◌, ◌<◌, ◌≡◌, refl, inl, inr, Bool, true, ◌&&◌, Option,
  none, some, List, [], ◌∷◌, ◌++◌, arith, any, if◌then◌else◌, Bool-cases, Option-cases, All,
}
use golf_rank.Domain.People.{is_about}
use golf_rank.Photos.{CourseImage, Images, is_by_user}
use golf_rank.Photos.Add.{
  has_key, find_by_storage_key, next_position, count_for_round, NewImage, new_row, clashes,
  add_attempts, add_user_image,
}

-- No round has more than five photos.
abbrev pub Capped : List CourseImage → Type 0
Capped rows = (r : ℕ) → count_for_round r rows ≤ 5

-- The round of a request, if it names one, has room for a photo.
abbrev pub HasRoom : Option ℕ → List CourseImage → Type 0
HasRoom none rows = Unit
HasRoom (some r) rows = count_for_round r rows < 5

-- Transactions that keep the caps and, as they wait for the lock of the round, its room.
abbrev pub KeepsRoom : Option ℕ → (Images → Images) → Type 0
KeepsRoom o others =
    (images : Images)
    → Capped images.rows
    → HasRoom o images.rows
    → Capped (others images).rows × HasRoom o (others images).rows

count-append :
    (r : ℕ) (rows : List CourseImage) (i : CourseImage)
    → count_for_round r (rows ++ i ∷ [])
      ≡ count_for_round r rows + (if is_about r i.round_id then 1 else 0)
unfolding count_for_round
count-append r [] i = elim (Bool-cases (is_about r i.round_id)) [
  | inl e ↦ rw e refl
  | inr e ↦ rw e refl
]
count-append r (j ∷ rows) i = elim (Bool-cases (is_about r j.round_id)) [
  | inl e ↦ rw e (omega (arith, count-append r rows i))
  | inr e ↦ rw e (count-append r rows i)
]

insert-Capped :
    (new : NewImage) (id position : ℕ) (rows : List CourseImage)
    → Capped rows
    → HasRoom new.round_id rows
    → Capped (rows ++ new_row new id position ∷ [])
insert-Capped new id position rows c room r =
    within new.round_id room (count-append r rows (new_row new id position))
  where
    within :
        (o : Option ℕ)
        → HasRoom o rows
        → count_for_round r (rows ++ new_row new id position ∷ [])
          ≡ count_for_round r rows + (if is_about r o then 1 else 0)
        → count_for_round r (rows ++ new_row new id position ∷ []) ≤ 5
    within none h e = omega (arith, c r, e)
    within (some q) h e = ground (arith, c r, h, e)

-- The position and the key of an upload are free among the rows.
abbrev pub SeatFree : ℕ → String → ℕ → List CourseImage → Type 0
SeatFree course key position =
    All (λ i. (i.course_id ≡ course → i.position ≢ position) × (has_key key i.storage_key ≡ false))

free_row :
    (new : NewImage) (id position : ℕ) (rows : List CourseImage)
    → SeatFree new.course_id new.storage_key position rows
    → any (clashes (new_row new id position)) rows ≡ false
unfolding clashes
free_row new id position [] h = refl
free_row new id position (i ∷ rows) h =
    rw
      (no_clash (new.course_id == i.course_id) (position == i.position) (is_by_user i.source_type)
        (has_key new.storage_key i.storage_key) other h.0.1)
      (free_row new id position rows h.1)
  where
    other : (new.course_id == i.course_id && position == i.position) ≡ false
    other = elim (Bool-cases (new.course_id == i.course_id && position == i.position)) [
      | inr e ↦ e
      | inl e ↦ absurd (h.0.0 (ground (arith, e)) (ground (arith, e)))
    ]

    no_clash :
        (a b c d : Bool) → (a && b) ≡ false → d ≡ false → ((a && b) || ((true && c) && d)) ≡ false
    no_clash a b c d p q = ground (arith, p, q)

module _ (has_user : Bool) (new : NewImage) (first : Images → Images)
    (rest : List (Images → Images)) (images : Images) where
  -- The place that the first attempt read is free when it commits.
  abbrev pub FirstIsFree : Type 0
  FirstIsFree =
      SeatFree new.course_id new.storage_key (next_position new.course_id images.rows)
        (first images).rows

  pub add_user_image-Capped :
      KeepsRoom new.round_id first
      → FirstIsFree
      → Capped images.rows
      → HasRoom new.round_id images.rows
      → Capped (add_user_image has_user new (first ∷ rest) images).0.rows
  unfolding add_user_image add_attempts
  add_user_image-Capped h free c room =
      elim (Option-cases (find_by_storage_key new.storage_key images.rows)) [
        | inl q ↦ rw q (
            rw
              (free_row new (first images).next_id (next_position new.course_id images.rows)
                (first images).rows free)
              (insert-Capped new (first images).next_id (next_position new.course_id images.rows)
                (first images).rows (h images c room).0 (h images c room).1))
        | inr (i, q) ↦ rw q c
      ]
