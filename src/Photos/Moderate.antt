-- ===== src/Photos/Moderate.antt =====
-- The moderation of photos: `set_moderation`, `feature_user_image` and `delete_image` of
-- course_images/repository.py and the handlers of course_photo_moderation.py behind their guard.
use golf_rank.Base.{
  ℕ, ◌+◌, String, Bool, true, false, not, ◌&&◌, Option, none, some, List, ◌++◌, ◌==◌, ltb, leb,
  if◌then◌else◌, keep, map, Result, ok, raise, ◌>>=◌,
}
use golf_rank.Domain.User.{User, Accounts, stored_user_created}
use golf_rank.Rounds.Delete.{key_of, failed_keys}
use golf_rank.Social.Graph.{with_accounts}
use golf_rank.Photos.{
  Moderation, pending, approved, rejected, Action, did_approve, did_reject, did_feature,
  did_unfeature, did_auto_approve, CourseImage, PhotoState, is_by_user, lock_image, change_image,
  has_featured_hero,
}

-- The action of a decision that names none.
abbrev pub default_action : Moderation → Option ℕ → Option Action → Option Action
default_action pending moderator before = before
default_action approved none before = some did_auto_approve
default_action approved (some m) before = some did_approve
default_action rejected moderator before = some did_reject

abbrev pub chosen_action : Option Action → Moderation → Option ℕ → Option Action → Option Action
chosen_action none status moderator before = default_action status moderator before
chosen_action (some a) status moderator before = some a

-- A rejected photo is not the hero.
abbrev pub hero_after : Moderation → Bool → Bool
hero_after rejected is_hero = false
hero_after pending is_hero = is_hero
hero_after approved is_hero = is_hero

-- The row that `set_moderation` writes.
unfoldable pub moderated :
    ℕ → Moderation → Option ℕ → Option String → Option Action → CourseImage → CourseImage
moderated now status moderator reason action i = record i {
  moderation_status = status;
  moderated_by_user_id = moderator;
  moderated_at = some now;
  moderation_reason = reason;
  moderation_action = chosen_action action status moderator i.moderation_action;
  is_hero = hero_after status i.is_hero;
}

abbrev pub with_action : ℕ → ℕ → Action → CourseImage → CourseImage
with_action now moderator action i = record i {
  moderated_by_user_id = some moderator;
  moderated_at = some now;
  moderation_reason = none;
  moderation_action = some action;
}

abbrev pub as_hero : Bool → CourseImage → CourseImage
as_hero is_hero i = record i { is_hero = is_hero }

-- A row of the tier loses the flag.
abbrev pub unfeatured : ℕ → ℕ → CourseImage → CourseImage
unfeatured now moderator i =
    if i.is_hero then as_hero false (with_action now moderator did_unfeature i) else as_hero false i

abbrev pub featured_row : ℕ → ℕ → CourseImage → CourseImage
featured_row now moderator i = record (as_hero true (with_action now moderator did_feature i)) {
  moderation_status = approved;
}

abbrev pub is_in_tier : ℕ → CourseImage → Bool
is_in_tier course i = i.course_id == course && is_by_user i.source_type

-- What featuring makes of a row of the table.
unfoldable pub feature_in : ℕ → ℕ → CourseImage → CourseImage → CourseImage
feature_in now moderator target i =
    if is_in_tier target.course_id i
    then (if i.id == target.id then featured_row now moderator i else unfeatured now moderator i)
    else i

abbrev pub feature_found :
    ℕ → ℕ → Bool → List CourseImage → Option CourseImage → Option (List CourseImage)
feature_found now moderator featured rows none = none
feature_found now moderator featured rows (some target) = some (
    if featured
    then map (feature_in now moderator target) rows
    else change_image target.id (λ i. as_hero false (with_action now moderator did_unfeature i))
        rows)

-- `feature_user_image`
unfoldable pub feature_user_image : ℕ → ℕ → Bool → ℕ → List CourseImage → Option (List CourseImage)
feature_user_image now id featured moderator rows =
    feature_found now moderator featured rows (lock_image id rows)

-- AdminCoursePhotoOut.
pub record AdminPhoto : Type 0 where
  pub image : CourseImage
  pub course_hero_locked : Bool
  pub is_scoring : Bool
  pub scoring_exhausted : Bool

abbrev pub is_none {ℓ} : {A : Type ℓ} → Option A → Bool
is_none none = true
is_none (some a) = false

-- A claim holds while its lease runs: `(now - claimed_at).total_seconds() < lease_seconds`.
abbrev pub is_claimed : ℕ → ℕ → Option ℕ → Bool
is_claimed lease now none = false
is_claimed lease now (some claimed_at) = ltb now (claimed_at + lease)

-- `lease_seconds = 300`
abbrev pub lease_time : ℕ
lease_time = 300000000

-- `_admin_photo_out`, without the names.
unfoldable pub admin_photo_out : ℕ → ℕ → Bool → CourseImage → AdminPhoto
admin_photo_out max_attempts now hero_locked i =
    let unscored = is_none i.scored_at && is_none i.quality_score in
    record {
      image = i;
      course_hero_locked = hero_locked;
      is_scoring = is_claimed lease_time now i.scoring_claimed_at && unscored;
      scoring_exhausted = leb max_attempts i.scoring_attempts && unscored;
    }

abbrev pub or_not_found : Option CourseImage → Result CourseImage
or_not_found none = raise 404 "Not found"
or_not_found (some i) = ok i

abbrev pub with_rows : List CourseImage → PhotoState → PhotoState
with_rows rows db = record db { images = record db.images { rows = rows } }

abbrev pub with_users : Accounts → PhotoState → PhotoState
with_users accounts db = record db { base = with_accounts accounts db.base }

module _ (max_attempts now : ℕ) where
  -- `_single`
  abbrev pub single : ℕ → PhotoState → Result (PhotoState × AdminPhoto)
  single id db = do
    i ← or_not_found (lock_image id db.images.rows)
    ok (db, admin_photo_out max_attempts now (has_featured_hero i.course_id db.images.rows) i)

  -- `set_moderation` and its answer.
  abbrev pub decide_for :
      Moderation → Option String → Action → ℕ → PhotoState → User → Result (PhotoState × AdminPhoto)
  decide_for status reason action id db user = do
    i ← or_not_found (lock_image id db.images.rows)
    single id (
        with_rows
          (change_image i.id (moderated now status (some user.id) reason (some action))
            db.images.rows)
          db)

  unfoldable pub decide_photo :
      Moderation
      → Option String
      → Action
      → String
      → ℕ
      → PhotoState
      → Result (PhotoState × AdminPhoto)
  decide_photo status reason action subject id db = do
    account ← stored_user_created db.base.ranking.accounts subject
    decide_for status reason action id (with_users account.0 db) account.1

  -- `approve_course_photo`
  abbrev pub approve_course_photo : String → ℕ → PhotoState → Result (PhotoState × AdminPhoto)
  approve_course_photo subject id db = decide_photo approved none did_approve subject id db

  -- `reject_course_photo`
  abbrev pub reject_course_photo :
      Option String → String → ℕ → PhotoState → Result (PhotoState × AdminPhoto)
  reject_course_photo reason subject id db = decide_photo rejected reason did_reject subject id db

  abbrev pub answer_featured :
      ℕ → PhotoState → Option (List CourseImage) → Result (PhotoState × AdminPhoto)
  answer_featured id db none = raise 404 "Not found"
  answer_featured id db (some rows) = single id (with_rows rows db)

  abbrev pub feature_for : Bool → ℕ → PhotoState → User → Result (PhotoState × AdminPhoto)
  feature_for featured id db user =
      answer_featured id db (feature_user_image now id featured user.id db.images.rows)

  -- `feature_course_photo`
  unfoldable pub feature_course_photo :
      Bool → String → ℕ → PhotoState → Result (PhotoState × AdminPhoto)
  feature_course_photo featured subject id db = do
    account ← stored_user_created db.base.ranking.accounts subject
    feature_for featured id (with_users account.0 db) account.1

-- `delete_course_photo`
unfoldable pub delete_course_photo : Option (String → Bool) → ℕ → PhotoState → Result PhotoState
delete_course_photo storage id db = do
  i ← or_not_found (lock_image id db.images.rows)
  ok (record (with_rows (keep (λ j. not (j.id == i.id)) db.images.rows) db) {
    base = record db.base {
      failed_deletions = db.base.failed_deletions ++ failed_keys storage (key_of i.storage_key);
    };
  })
