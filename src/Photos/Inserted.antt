-- ===== src/Photos/Inserted.antt =====
-- `add_user_image` on the rows of `course_images`, with what other transactions commit meanwhile.
use golf_rank.Base.{
  ℕ, suc, ◌<◌, ◌≡◌, inl, inr, Bool, true, false, not, ◌&&◌, List, [], ◌∷◌, ◌++◌, arith,
  if◌then◌else◌, any, Bool-cases, Option-cases, All, All-map, All-append,
}
use golf_rank.Base.Distinct.{Pairwise-append}
use golf_rank.Photos.{CourseImage, Images}
use golf_rank.Photos.Add.{
  clashes, NewImage, new_row, next_position, find_by_storage_key, add_attempts, add_user_image,
}
use golf_rank.Photos.Consistent.{Compatible, IsProper, IsConsistent}

-- What a row that clashes with none is beside the others.
fresh_row :
    (limit next : ℕ) (new : NewImage) (position : ℕ) (rows : List CourseImage)
    → any (clashes (new_row new next position)) rows ≡ false
    → All (IsProper limit next) rows
    → All (λ i. Compatible i (new_row new next position)) rows
fresh_row limit next new position [] h k = tt
fresh_row limit next new position (i ∷ rows) h k = (
  record {
    apart = λ e. impossible i.id k.0.issued e;
    free = not_first (clashes (new_row new next position) i) _ h;
    one_hero = λ p q e. absurd cc;
  },
  fresh_row limit next new position rows (not_rest (clashes (new_row new next position) i) _ h) k.1,
)
  where
    impossible : (j : ℕ) → j < next → j ≡ next → ⊥
    impossible j l e = omega arith

    not_first : (a b : Bool) → (if a then true else b) ≡ false → a ≡ false
    not_first a b h = ground (arith, h)

    not_rest : (a b : Bool) → (if a then true else b) ≡ false → b ≡ false
    not_rest a b h = ground (arith, h)

pub insert-IsConsistent :
    (limit next : ℕ) (new : NewImage) (position : ℕ) (rows : List CourseImage)
    → any (clashes (new_row new next position)) rows ≡ false
    → IsConsistent limit next rows
    → IsConsistent limit (suc next) (rows ++ new_row new next position ∷ [])
insert-IsConsistent limit next new position rows h k = record {
  compatible =
      Pairwise-append Compatible rows (new_row new next position) k.compatible
        (fresh_row limit next new position rows h k.proper);
  proper =
      All-append (IsProper limit (suc next)) rows (new_row new next position ∷ [])
        (All-map (λ i p. grown i p) rows k.proper)
        (record { hero = λ q. absurd cc; attempts = omega arith; issued = omega arith }, tt);
}
  where
    grown : (i : CourseImage) → IsProper limit next i → IsProper limit (suc next) i
    grown i p = record { hero = p.hero; attempts = p.attempts; issued = later i.id p.issued }
      where
        later : (j : ℕ) → j < next → j < suc next
        later j l = omega arith

-- The table is consistent, and its ids have been issued.
abbrev pub IsSound : ℕ → Images → Type 0
IsSound limit images = IsConsistent limit images.next_id images.rows

abbrev pub KeepsSound : ℕ → (Images → Images) → Type 0
KeepsSound limit others = (images : Images) → IsSound limit images → IsSound limit (others images)

module _ (limit : ℕ) (has_user : Bool) (new : NewImage) where
  add_attempts-IsSound :
      (user_there : Bool) (others : List (Images → Images)) (images : Images)
      → All (KeepsSound limit) others
      → IsSound limit images
      → IsSound limit (add_attempts has_user new user_there others images).0
  unfolding add_attempts
  add_attempts-IsSound user_there [] images h k = k
  add_attempts-IsSound user_there (other ∷ others) images h k =
      elim (Bool-cases (user_there && not (any (clashes row) now.rows))) [
        | inl e ↦ rw e (
            insert-IsConsistent limit now.next_id new (next_position new.course_id images.rows)
              now.rows (no_clash user_there (any (clashes row) now.rows) e) sound)
        | inr e ↦ rw e (elim (Option-cases (find_by_storage_key new.storage_key now.rows)) [
          | inl q ↦ rw q (add_attempts-IsSound has_user others now h.1 sound)
          | inr (i, q) ↦ rw q sound
        ])
      ]
    where
      now : Images
      now = other images

      row : CourseImage
      row = new_row new now.next_id (next_position new.course_id images.rows)

      sound : IsSound limit now
      sound = h.0 images k

      no_clash : (a b : Bool) → (a && not b) ≡ true → b ≡ false
      no_clash a b e = ground (arith, e)

  pub add_user_image-IsSound :
      (others : List (Images → Images)) (images : Images)
      → All (KeepsSound limit) others
      → IsSound limit images
      → IsSound limit (add_user_image has_user new others images).0
  unfolding add_user_image
  add_user_image-IsSound others images h k =
      elim (Option-cases (find_by_storage_key new.storage_key images.rows)) [
        | inl q ↦ rw q (add_attempts-IsSound true others images h k)
        | inr (i, q) ↦ rw q k
      ]
