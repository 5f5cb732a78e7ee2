-- ===== src/Photos/Add.antt =====
-- `find_by_storage_key`, `next_position`, `count_for_round` and `add_user_image` of
-- course_images/repository.py.
use text.Mathlib.Text.{◌==◌ as str_eq}
use golf_rank.Base.{
  ℕ, suc, max, String, Bool, true, false, not, ◌&&◌, ◌||◌, Option, none, some, List, [], ◌∷◌, ◌++◌,
  ◌==◌, if◌then◌else◌, any, keep, length, Result, ok, raise,
}
use golf_rank.Domain.People.{is_about}
use golf_rank.Photos.{CourseImage, Images, by_user, pending, is_by_user}

abbrev pub has_key : String → Option String → Bool
has_key key none = false
has_key key (some k) = str_eq k key

-- `find_by_storage_key`
unfoldable pub find_by_storage_key : String → List CourseImage → Option CourseImage
find_by_storage_key key [] = none
find_by_storage_key key (i ∷ rows) =
    if has_key key i.storage_key then some i else find_by_storage_key key rows

-- `next_position`
unfoldable pub next_position : ℕ → List CourseImage → ℕ
next_position course [] = 0
next_position course (i ∷ rows) =
    let rest = next_position course rows in
    if i.course_id == course then max (suc i.position) rest else rest

-- `count_for_round`
unfoldable pub count_for_round : ℕ → List CourseImage → ℕ
count_for_round round_id rows = length (keep (λ i. is_about round_id i.round_id) rows)

-- The arguments of `add_user_image`.
pub record NewImage : Type 0 where
  pub course_id : ℕ
  pub storage_key : String
  pub uploaded_by_user_id : ℕ
  pub round_id : Option ℕ

abbrev pub new_row : NewImage → ℕ → ℕ → CourseImage
new_row new id position = record {
  id = id;
  course_id = new.course_id;
  storage_key = some new.storage_key;
  position = position;
  is_hero = false;
  source_type = by_user;
  moderation_status = pending;
  uploaded_by_user_id = some new.uploaded_by_user_id;
  round_id = new.round_id;
  quality_score = none;
  quality_score_reasons = [];
  scored_at = none;
  scoring_attempts = 0;
  scoring_claimed_at = none;
  moderated_by_user_id = none;
  moderated_at = none;
  moderation_action = none;
  moderation_reason = none;
}

abbrev pub same_storage_key : Option String → Option String → Bool
same_storage_key none key = false
same_storage_key (some k) key = has_key k key

-- `uq_course_image_position` and `uq_course_image_user_storage_key`.
unfoldable pub clashes : CourseImage → CourseImage → Bool
clashes i j =
    (i.course_id == j.course_id && i.position == j.position)
    || ((is_by_user i.source_type && is_by_user j.source_type)
        && same_storage_key i.storage_key j.storage_key)

-- A row that was inserted, or the one that was there.
pub data Added : Type 0 where
  inserted there : CourseImage → Added

module _ (has_user : Bool) (new : NewImage) where
  -- The loop: one element for each attempt, what other transactions commit between its read of the
  -- position and its own commit or the read of the next attempt. A rollback drops a row of the user that this transaction created, so
  -- that later attempts have a user only if there was one before. It also ends the lock of the round,
  -- which `check_round` took: from the second attempt on, others may take the room of the round.
  unfoldable pub add_attempts : Bool → List (Images → Images) → Images → Images × Result Added
  add_attempts user_there [] images = (images, raise 500 "Internal Server Error")
  add_attempts user_there (others ∷ attempts) images =
      let position = next_position new.course_id images.rows in
      let now = others images in
      let row = new_row new now.next_id position in
      let again = add_attempts has_user attempts now in
      if user_there && not (any (clashes row) now.rows)
      then (record { rows = now.rows ++ row ∷ []; next_id = suc now.next_id }, ok (inserted row))
      else or_again again now (find_by_storage_key new.storage_key now.rows)
    where
      or_again : Images × Result Added → Images → Option CourseImage → Images × Result Added
      or_again again now none = again
      or_again again now (some i) = (now, ok (there i))

  abbrev pub add_new : List (Images → Images) → Images → Option CourseImage → Images × Result Added
  add_new others images none = add_attempts true others images
  add_new others images (some i) = (images, ok (there i))

  -- `add_user_image`
  unfoldable pub add_user_image : List (Images → Images) → Images → Images × Result Added
  add_user_image others images =
      add_new others images (find_by_storage_key new.storage_key images.rows)
