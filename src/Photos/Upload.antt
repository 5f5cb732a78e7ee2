-- ===== src/Photos/Upload.antt =====
-- The handlers `confirm_upload` and `discard_upload` of course_photo_uploads.py, and what they ask of
-- storage.py.
use text.Mathlib.Text.{◌==◌ as str_eq}
use Prim.Native.String.{◌++◌ as ◌⊹◌}
use golf_rank.Base.{
  ℕ, String, Bool, true, false, not, ◌&&◌, ◌||◌, Option, none, some, List, [], ◌∷◌, ◌++◌, ◌==◌, leb,
  if◌then◌else◌, any, Result, ok, err, raise, require,
}
use golf_rank.Base.Exec.{Exec, pure, lift, ◌>>=◌, ◌>>◌}
use golf_rank.Base.Texts.{after_prefix, decimal}
use golf_rank.Domain.Course.{require_course}
use golf_rank.Domain.User.{User, Accounts, stored_user_created}
use golf_rank.Rounds.{Round}
use golf_rank.Rounds.Delete.{failed_keys}
use golf_rank.Social.Feed.{round_row}
use golf_rank.Photos.{CourseImage, Images, PhotoState}
use golf_rank.Photos.Add.{
  find_by_storage_key, count_for_round, Added, inserted, there, add_user_image,
}
use golf_rank.Photos.Moderate.{with_users}

-- ObjectMeta.
pub record ObjectMeta : Type 0 where
  pub content_type : String
  pub content_length : ℕ

-- What the object storage answers: what stands at a key, and whether a deletion or a copy succeeds.
pub record Storage : Type 0 where
  pub head : String → Option ObjectMeta
  pub deletes : String → Bool
  pub promotes : String → Bool

-- The calls that change the object storage.
pub data StorageCall : Type 0 where
  delete_object : String → StorageCall
  promote_object : String → String → StorageCall

pub record UploadState : Type 0 where
  pub db : PhotoState
  pub calls : List StorageCall

abbrev pub change_objects : StorageCall → Exec UploadState (Unit {0})
change_objects c s = (ok tt, record s { calls = s.calls ++ c ∷ [] })

-- An object of a rejected upload is deleted first.
abbrev pub reject_object : String → ℕ → String → Exec UploadState (Unit {0})
reject_object key status detail = change_objects (delete_object key) >> lift (raise status detail)

abbrev pub require_object : Bool → String → ℕ → String → Exec UploadState (Unit {0})
require_object true key status detail = pure tt
require_object false key status detail = reject_object key status detail

abbrev pub reading : {A : Type 0} → (PhotoState → Result A) → Exec UploadState A
reading f s = (f s.db, s)

abbrev pub or_unavailable : Option Storage → Result Storage
or_unavailable none = raise 503 "Photo uploads are temporarily unavailable"
or_unavailable (some storage) = ok storage

-- `_PENDING_PREFIX`
abbrev pub pending_prefix : String
pending_prefix = "course-photos/pending/"

abbrev pub promoted : Option String → Result String
promoted none = raise 500 "Internal Server Error"
promoted (some name) = ok ("course-photos/" ⊹ name)

-- `promote_storage_key`
unfoldable pub promote_storage_key : String → Result String
promote_storage_key key = promoted (after_prefix pending_prefix key)

-- Whether the key was issued for the course.
abbrev pub is_key_of : ℕ → String → Bool
is_key_of course key =
    starts_with_prefix (after_prefix (pending_prefix ⊹ (decimal course ⊹ "/")) key)
  where
    starts_with_prefix : Option String → Bool
    starts_with_prefix none = false
    starts_with_prefix (some rest) = true

-- CoursePhotoConfirmRequest; width and height are left out.
pub record ConfirmRequest : Type 0 where
  pub storage_key : String
  pub round_id : Option ℕ

-- CourseImageOut, and whether a run of the scorer was scheduled.
pub record Confirmed : Type 0 where
  pub image : CourseImage
  pub is_scheduled : Bool

-- What a handler is told of the settings.
pub record PhotoSettings : Type 0 where
  pub min_bytes : ℕ
  pub max_bytes : ℕ
  -- `course_photo_autoscore_on_confirm and gemini_api_key`
  pub autoscore : Bool

-- `MAX_PHOTOS_PER_ROUND`
abbrev pub max_photos_per_round : ℕ
max_photos_per_round = 5

abbrev pub is_image_type : String → Bool
is_image_type t = str_eq t "image/jpeg" || (str_eq t "image/png" || str_eq t "image/webp")

abbrev pub or_no_object : Option ObjectMeta → Result ObjectMeta
or_no_object none = raise 422 "Uploaded object not found"
or_no_object (some meta) = ok meta

abbrev pub is_round_of : ℕ → ℕ → Option Round → Bool
is_round_of user course none = false
is_round_of user course (some r) = r.user_id == user && r.course_id == course

abbrev pub is_uploader : ℕ → Option ℕ → Bool
is_uploader user none = false
is_uploader user (some u) = u == user

-- The size and the type of the object.
unfoldable pub check_object : PhotoSettings → Storage → String → Exec UploadState (Unit {0})
check_object settings storage key = lift (or_no_object (storage.head key)) >>= λ meta.
    require_object (is_image_type meta.content_type) key 422
      "Uploaded object has an unsupported content type"
    >> require_object
        (leb settings.min_bytes meta.content_length && leb meta.content_length settings.max_bytes)
        key 422 "Uploaded object size is out of range"

-- The round that the photo is linked to.
unfoldable pub check_round : ℕ → ℕ → String → Option ℕ → Exec UploadState (Unit {0})
check_round user course key none s = pure tt s
check_round user course key (some round_id) s =
    (require_object (is_round_of user course (round_row round_id s.db.base.rounds)) key 400
          "round_id does not match this course or user"
        >> require_object
            (not (leb max_photos_per_round (count_for_round round_id s.db.images.rows))) key 422
            "A round can have at most 5 photos")
      s

-- `promote_object`; an error of the client is the error 500.
unfoldable pub promote : Storage → String → String → Exec UploadState (Unit {0})
promote storage key permanent =
    change_objects (promote_object key permanent)
    >> lift (require (storage.promotes permanent) 500 "Internal Server Error")

abbrev pub with_images : Images → PhotoState → PhotoState
with_images images db = record db { images = images }

-- The commit of `add_user_image`, or the cleanup after its error.
abbrev pub settle_added :
    PhotoSettings
    → Storage
    → String
    → Accounts
    → UploadState
    → Images × Result Added
    → Result Confirmed × UploadState
settle_added settings storage permanent accounts s (images, ok (inserted row)) = (
  ok (record { image = row; is_scheduled = settings.autoscore }),
  record s { db = with_images images (with_users accounts s.db) },
)
settle_added settings storage permanent accounts s (images, ok (there row)) = (
  ok (record { image = row; is_scheduled = settings.autoscore }),
  record s { db = with_images images s.db },
)
settle_added settings storage permanent accounts s (images, err e) = (
  err e,
  record {
    db = with_images images (record s.db {
      base = record s.db.base {
        failed_deletions =
            s.db.base.failed_deletions ++ failed_keys (some storage.deletes) (permanent ∷ []);
      };
    });
    calls = s.calls ++ delete_object permanent ∷ [];
  },
)

module _ (settings : PhotoSettings) (others : List (Images → Images)) where
  unfoldable pub persist :
      Storage → String → Accounts × User → ℕ → Option ℕ → Exec UploadState Confirmed
  persist storage permanent (accounts, user) course round_id s =
      settle_added settings storage permanent accounts s (
        add_user_image (any (λ u. u.id == user.id) s.db.base.ranking.accounts.users)
          (record {
            course_id = course;
            storage_key = permanent;
            uploaded_by_user_id = user.id;
            round_id = round_id;
          })
          others s.db.images)

  -- A key that has no row.
  unfoldable pub confirm_new :
      Storage → Accounts × User → ℕ → ConfirmRequest → String → Exec UploadState Confirmed
  confirm_new storage account course p permanent =
      check_object settings storage p.storage_key
      >> check_round account.1.id course p.storage_key p.round_id
      >> promote storage p.storage_key permanent
      >> persist storage permanent account course p.round_id

  abbrev pub replay : ℕ → CourseImage → Result Confirmed
  replay user i =
      if is_uploader user i.uploaded_by_user_id
      then ok (record { image = i; is_scheduled = false })
      else raise 403 "storage_key belongs to another user"

  abbrev pub confirm_found :
      Storage
      → Accounts × User
      → ℕ
      → ConfirmRequest
      → String
      → Option CourseImage
      → Exec UploadState Confirmed
  confirm_found storage account course p permanent none =
      confirm_new storage account course p permanent
  confirm_found storage account course p permanent (some i) = lift (replay account.1.id i)

  abbrev pub confirm_key :
      Storage → Accounts × User → ℕ → ConfirmRequest → String → Exec UploadState Confirmed
  confirm_key storage account course p permanent s =
      confirm_found storage account course p permanent
        (find_by_storage_key permanent s.db.images.rows) s

  -- `confirm_upload`
  unfoldable pub confirm_upload :
      Option Storage → String → ℕ → ConfirmRequest → Exec UploadState Confirmed
  confirm_upload storage subject course_id p =
      reading (λ db. stored_user_created db.base.ranking.accounts subject) >>= λ account.
      reading (λ db. require_course db.base.ranking.catalog course_id) >>= λ course.
      lift (or_unavailable storage) >>= λ storage.
      lift (require (is_key_of course.id p.storage_key) 400 "storage_key does not match course")
      >> lift (promote_storage_key p.storage_key)
      >>= λ permanent. confirm_key storage account course.id p permanent

-- `discard_upload`
unfoldable pub discard_upload : Option Storage → String → ℕ → String → Exec UploadState (Unit {0})
discard_upload storage subject course_id key =
    reading (λ db. stored_user_created db.base.ranking.accounts subject) >>= λ account.
    reading (λ db. require_course db.base.ranking.catalog course_id) >>= λ course.
    lift (or_unavailable storage) >>= λ storage.
    lift (require (is_key_of course_id key) 400 "storage_key does not match course")
    >> lift (promote_storage_key key)
    >>= λ permanent.
        reading (λ db. unconfirmed (find_by_storage_key permanent db.images.rows))
        >> change_objects (delete_object key)
  where
    unconfirmed : Option CourseImage → Result (Unit {0})
    unconfirmed none = ok tt
    unconfirmed (some i) = raise 409 "storage_key is already confirmed"
