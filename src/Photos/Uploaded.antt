-- ===== src/Photos/Uploaded.antt =====
-- `confirm_upload` on a table of photos.
use golf_rank.Base.{ℕ, String, Bool, true, false, Option, none, some, List, All, Result, ok, err}
use golf_rank.Base.Exec.{Holds, Holds->>=, lift}
use golf_rank.Domain.User.{User, Accounts}
use golf_rank.Photos.{CourseImage, Images, PhotoState}
use golf_rank.Photos.Add.{find_by_storage_key, Added, inserted, there, add_user_image}
use golf_rank.Photos.Upload.{
  Storage, UploadState, ConfirmRequest, PhotoSettings, change_objects, require_object, reading,
  check_object, check_round, promote, settle_added, persist, confirm_new, confirm_found,
  confirm_key, confirm_upload,
}
use golf_rank.Photos.Inserted.{IsSound, KeepsSound, add_user_image-IsSound}

abbrev pub IsSoundState : ℕ → PhotoState → Type 0
IsSoundState limit db = IsSound limit db.images

module _ (limit : ℕ) where
  abbrev pub IsSoundUpload : UploadState → Type 0
  IsSoundUpload s = IsSoundState limit s.db

  require_object-Holds :
      (b : Bool) (key : String) (status : ℕ) (detail : String)
      → Holds IsSoundUpload (require_object b key status detail)
  require_object-Holds true key status detail s k = k
  require_object-Holds false key status detail s k =
      Holds->>= IsSoundUpload (change_objects _) _ (λ t p. p) (λ a t p. p) s k

  module _ (settings : PhotoSettings) (others : List (Images → Images)) where
    persist-Holds :
        (storage : Storage) (permanent : String) (account : Accounts × User) (course : ℕ)
        (round_id : Option ℕ)
        → All (KeepsSound limit) others
        → Holds IsSoundUpload (persist settings others storage permanent account course round_id)
    unfolding persist
    persist-Holds storage permanent (accounts, user) course round_id h s k =
        settled (add_user_image _ _ others s.db.images)
          (add_user_image-IsSound limit _ _ others s.db.images h k)
      where
        settled :
            (added : Images × Result Added)
            → IsSound limit added.0
            → IsSoundUpload (settle_added settings storage permanent accounts s added).1
        settled (images, ok (inserted row)) p = p
        settled (images, ok (there row)) p = p
        settled (images, err e) p = p

    check_round-Holds :
        (user course : ℕ) (key : String) (round_id : Option ℕ)
        → Holds IsSoundUpload (check_round user course key round_id)
    unfolding check_round
    check_round-Holds user course key none s k = k
    check_round-Holds user course key (some round_id) s k =
        Holds->>= IsSoundUpload (require_object _ key _ _) _ (require_object-Holds _ key _ _)
          (λ a. require_object-Holds _ key _ _) s k

    check_object-Holds :
        (storage : Storage) (key : String) → Holds IsSoundUpload (check_object settings storage key)
    unfolding check_object
    check_object-Holds storage key =
        Holds->>= IsSoundUpload (lift _) _ (λ s k. k)
          (λ meta.
            Holds->>= IsSoundUpload (require_object _ key _ _) _ (require_object-Holds _ key _ _)
              (λ a. require_object-Holds _ key _ _))

    promote-Holds :
        (storage : Storage) (key permanent : String)
        → Holds IsSoundUpload (promote storage key permanent)
    unfolding promote
    promote-Holds storage key permanent =
        Holds->>= IsSoundUpload (change_objects _) _ (λ s k. k) (λ a s k. k)

    confirm_new-Holds :
        (storage : Storage) (account : Accounts × User) (course : ℕ) (p : ConfirmRequest)
        (permanent : String)
        → All (KeepsSound limit) others
        → Holds IsSoundUpload (confirm_new settings others storage account course p permanent)
    unfolding confirm_new
    confirm_new-Holds storage account course p permanent h =
        Holds->>= IsSoundUpload _ _
          (Holds->>= IsSoundUpload _ _
            (Holds->>= IsSoundUpload _ _ (check_object-Holds storage p.storage_key)
              (λ a. check_round-Holds account.1.id course p.storage_key p.round_id))
            (λ a. promote-Holds storage p.storage_key permanent))
          (λ a. persist-Holds storage permanent account course p.round_id h)

    confirm_key-Holds :
        (storage : Storage) (account : Accounts × User) (course : ℕ) (p : ConfirmRequest)
        (permanent : String)
        → All (KeepsSound limit) others
        → Holds IsSoundUpload (confirm_key settings others storage account course p permanent)
    confirm_key-Holds storage account course p permanent h s k =
        found (find_by_storage_key permanent s.db.images.rows)
      where
        found :
            (i : Option CourseImage)
            → IsSoundUpload (confirm_found settings others storage account course p permanent i s).1
        found none = confirm_new-Holds storage account course p permanent h s k
        found (some i) = k

    pub confirm_upload-IsSound :
        (storage : Option Storage) (subject : String) (course_id : ℕ) (p : ConfirmRequest)
        → All (KeepsSound limit) others
        → Holds IsSoundUpload (confirm_upload settings others storage subject course_id p)
    unfolding confirm_upload
    confirm_upload-IsSound storage subject course_id p h =
        Holds->>= IsSoundUpload (reading _) _ (λ s k. k)
          (λ account.
            Holds->>= IsSoundUpload (reading _) _ (λ s k. k)
              (λ course.
                Holds->>= IsSoundUpload (lift _) _ (λ s k. k)
                  (λ storage.
                    Holds->>= IsSoundUpload _ _
                      (Holds->>= IsSoundUpload (lift _) _ (λ s k. k) (λ a s k. k))
                      (λ permanent. confirm_key-Holds storage account course.id p permanent h))))
