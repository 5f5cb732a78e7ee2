-- ===== src/Photos.antt =====
-- services/api/app/course_images/repository.py: the table `course_images` (models.py). A time counts
-- microseconds; the columns that only describe a picture are left out, and `created_at` is.
pub mod Moderate
pub mod Score
pub mod Add
pub mod Upload
pub mod Consistent
pub mod Kept
pub mod Featured
pub mod Inserted
pub mod Uploaded
pub mod Steps
pub mod Locks
pub mod Decided
pub mod Claimed
pub mod Counted
pub mod Capped
pub mod Tests
use golf_rank.Base.{
  ℕ, ◌+◌, max, String, Bool, true, false, ◌&&◌, ◌||◌, Option, none, some, List, [], ◌∷◌, ◌==◌,
  if◌then◌else◌, map,
}
use golf_rank.Rounds.{RoundState, RoundPhoto}

-- CourseImageSource.
pub data Source : Type 0 where
  official by_user wikimedia : Source

-- CourseImageModeration.
pub data Moderation : Type 0 where
  pending approved rejected : Moderation

-- CourseImageModerationAction.
pub data Action : Type 0 where
  did_approve did_reject did_feature did_unfeature did_auto_approve : Action

pub record CourseImage : Type 0 where
  pub id : ℕ
  pub course_id : ℕ
  pub storage_key : Option String
  pub position : ℕ
  pub is_hero : Bool
  pub source_type : Source
  pub moderation_status : Moderation
  pub uploaded_by_user_id : Option ℕ
  pub round_id : Option ℕ
  pub quality_score : Option ℕ
  pub quality_score_reasons : List String
  pub scored_at : Option ℕ
  pub scoring_attempts : ℕ
  pub scoring_claimed_at : Option ℕ
  pub moderated_by_user_id : Option ℕ
  pub moderated_at : Option ℕ
  pub moderation_action : Option Action
  pub moderation_reason : Option String

-- The table, with the id that the next row gets.
pub record Images : Type 0 where
  pub rows : List CourseImage
  pub next_id : ℕ

-- The photos and what the handlers of rounds.py keep, whose `photos` are a view of these rows.
pub record PhotoState : Type 0 where
  pub base : RoundState
  pub images : Images

abbrev pub is_by_user : Source → Bool
is_by_user by_user = true
is_by_user official = false
is_by_user wikimedia = false

abbrev pub is_curated_or_user : Source → Bool
is_curated_or_user official = true
is_curated_or_user by_user = true
is_curated_or_user wikimedia = false

abbrev pub is_pending : Moderation → Bool
is_pending pending = true
is_pending approved = false
is_pending rejected = false

abbrev pub is_approved : Moderation → Bool
is_approved approved = true
is_approved pending = false
is_approved rejected = false

-- The USER row with the id, which the moderation and the scorer load for an update.
abbrev pub is_user_image : ℕ → CourseImage → Bool
is_user_image id i = i.id == id && is_by_user i.source_type

-- `lock_image_for_moderation`
unfoldable pub lock_image : ℕ → List CourseImage → Option CourseImage
lock_image id [] = none
lock_image id (i ∷ rows) = if is_user_image id i then some i else lock_image id rows

-- The row is written back with its changes.
abbrev pub with_change : ℕ → (CourseImage → CourseImage) → CourseImage → CourseImage
with_change id f i = if i.id == id then f i else i

abbrev pub change_image : ℕ → (CourseImage → CourseImage) → List CourseImage → List CourseImage
change_image id f rows = map (with_change id f) rows

-- `has_featured_hero`
unfoldable pub has_featured_hero : ℕ → List CourseImage → Bool
has_featured_hero course [] = false
has_featured_hero course (i ∷ rows) =
    (i.course_id == course && (is_curated_or_user i.source_type && i.is_hero))
    || has_featured_hero course rows
