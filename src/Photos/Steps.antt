-- ===== src/Photos/Steps.antt =====
-- What moderators, uploads and the scorer do to the photos, one step after another.
use golf_rank.Base.{
  ℕ, ◌≡◌, subst, String, Bool, not, Option, none, some, List, ◌==◌, All, ok, bind_ok, ok-inj,
}
use golf_rank.Domain.User.{stored_user_created}
use golf_rank.Photos.{
  Moderation, approved, rejected, Action, CourseImage, Images, PhotoState, lock_image,
}
use golf_rank.Photos.Moderate.{
  AdminPhoto, or_not_found, with_rows, with_users, single, decide_photo, approve_course_photo,
  reject_course_photo, answer_featured, feature_course_photo, feature_user_image,
  delete_course_photo,
}
use golf_rank.Photos.Score.{ScoreStep, claims, completes, releases, fails}
use golf_rank.Photos.Upload.{Storage, UploadState, ConfirmRequest, PhotoSettings, confirm_upload}
use golf_rank.Photos.Consistent.{IsConsistent, keep-IsConsistent}
use golf_rank.Photos.Kept.{
  IsDecision, moderated-IsConsistent, claim_for_scoring-IsConsistent, complete_scoring-IsConsistent,
  release_score_claim-IsConsistent, record_permanent_score_failure-IsConsistent,
}
use golf_rank.Photos.Featured.{IsKept, feature_user_image-IsKept}
use golf_rank.Photos.Inserted.{KeepsSound}
use golf_rank.Photos.Uploaded.{IsSoundState, confirm_upload-IsSound}

module _ (limit : ℕ) where
  -- An answer does not change the state.
  single-state :
      (max_attempts now id : ℕ) (db : PhotoState) (out : PhotoState × AdminPhoto)
      → single max_attempts now id db ≡ ok out
      → IsSoundState limit db
      → IsSoundState limit out.0
  single-state max_attempts now id db out h k =
      let (i, e, h1) = bind_ok (or_not_found (lock_image id db.images.rows)) _ out h in
      subst (λ x. IsSoundState limit x.0) (ok-inj _ out h1) k

  decide_photo-IsSound :
      (max_attempts now : ℕ) (status : Moderation) (reason : Option String) (action : Action)
      (subject : String) (id : ℕ) (db : PhotoState) (out : PhotoState × AdminPhoto)
      → IsDecision status
      → decide_photo max_attempts now status reason action subject id db ≡ ok out
      → IsSoundState limit db
      → IsSoundState limit out.0
  unfolding decide_photo
  decide_photo-IsSound max_attempts now status reason action subject id db out d h k =
      let (account, a, h1) =
        bind_ok (stored_user_created db.base.ranking.accounts subject) _ out h in
      let (i, e, h2) = bind_ok (or_not_found (lock_image id db.images.rows)) _ out h1 in
      single-state max_attempts now id _ out h2 (
        moderated-IsConsistent limit db.images.next_id now i.id status (some account.1.id) reason
          (some action) db.images.rows d k)

  feature_course_photo-IsSound :
      (max_attempts now : ℕ) (featured : Bool) (subject : String) (id : ℕ) (db : PhotoState)
      (out : PhotoState × AdminPhoto)
      → feature_course_photo max_attempts now featured subject id db ≡ ok out
      → IsSoundState limit db
      → IsSoundState limit out.0
  unfolding feature_course_photo
  feature_course_photo-IsSound max_attempts now featured subject id db out h k =
      let (account, a, h1) =
        bind_ok (stored_user_created db.base.ranking.accounts subject) _ out h in
      answered (with_users account.0 db)
        (feature_user_image now id featured account.1.id db.images.rows)
        (feature_user_image-IsKept limit db.images.next_id now id account.1.id featured
          db.images.rows k)
        h1
    where
      answered :
          (db : PhotoState) (rows : Option (List CourseImage))
          → IsKept limit db.images.next_id rows
          → answer_featured max_attempts now id db rows ≡ ok out
          → IsSoundState limit out.0
      answered db none k h = absurd cc
      answered db (some rows) k h = single-state max_attempts now id _ out h k

  delete_course_photo-IsSound :
      (storage : Option (String → Bool)) (id : ℕ) (db after : PhotoState)
      → delete_course_photo storage id db ≡ ok after
      → IsSoundState limit db
      → IsSoundState limit after
  unfolding delete_course_photo
  delete_course_photo-IsSound storage id db after h k =
      let (i, e, h1) = bind_ok (or_not_found (lock_image id db.images.rows)) _ after h in
      subst (IsSoundState limit) (ok-inj _ after h1)
        (keep-IsConsistent limit db.images.next_id (λ j. not (j.id == i.id)) db.images.rows k)

-- One step on the photos; a claim goes to no photo that was claimed `max_attempts` times.
pub data PhotoStep (max_attempts : ℕ) : PhotoState → PhotoState → Type 0 where
  approved_by :
      (now : ℕ) (subject : String) (id : ℕ) (db : PhotoState) (out : PhotoState × AdminPhoto)
      → approve_course_photo max_attempts now subject id db ≡ ok out
      → PhotoStep max_attempts db out.0
  rejected_by :
      (now : ℕ) (reason : Option String) (subject : String) (id : ℕ) (db : PhotoState)
      (out : PhotoState × AdminPhoto)
      → reject_course_photo max_attempts now reason subject id db ≡ ok out
      → PhotoStep max_attempts db out.0
  featured_by :
      (now : ℕ) (featured : Bool) (subject : String) (id : ℕ) (db : PhotoState)
      (out : PhotoState × AdminPhoto)
      → feature_course_photo max_attempts now featured subject id db ≡ ok out
      → PhotoStep max_attempts db out.0
  deleted_by :
      (storage : Option (String → Bool)) (id : ℕ) (db after : PhotoState)
      → delete_course_photo storage id db ≡ ok after
      → PhotoStep max_attempts db after
  confirmed_by :
      (settings : PhotoSettings) (others : List (Images → Images)) (storage : Option Storage)
      (subject : String) (course_id : ℕ) (p : ConfirmRequest) (s : UploadState)
      → All (KeepsSound max_attempts) others
      → PhotoStep max_attempts s.db
          (confirm_upload settings others storage subject course_id p s).1.db
  scored_by :
      (db : PhotoState) (after : List CourseImage)
      → ScoreStep max_attempts db.images.rows after
      → PhotoStep max_attempts db (with_rows after db)

pub data PhotoSteps (max_attempts : ℕ) (start : PhotoState) : PhotoState → Type 0 where
  begun : PhotoSteps max_attempts start start
  followed :
      {v w : PhotoState}
      → PhotoSteps max_attempts start v
      → PhotoStep max_attempts v w
      → PhotoSteps max_attempts start w

stepped-IsConsistent :
    (limit next : ℕ) (rows after : List CourseImage)
    → ScoreStep limit rows after
    → IsConsistent limit next rows
    → IsConsistent limit next after
stepped-IsConsistent limit next rows after (claims lease now id) k =
    claim_for_scoring-IsConsistent limit next lease now id rows k
stepped-IsConsistent limit next rows after (completes threshold now claim score reasons id) k =
    complete_scoring-IsConsistent limit next threshold now claim score reasons id rows k
stepped-IsConsistent limit next rows after (releases claim id) k =
    release_score_claim-IsConsistent limit next claim id rows k
stepped-IsConsistent limit next rows after (fails now claim id) k =
    record_permanent_score_failure-IsConsistent limit next now claim id rows k

module _ (limit : ℕ) where
  step-IsSound :
      {v w : PhotoState} → PhotoStep limit v w → IsSoundState limit v → IsSoundState limit w
  step-IsSound (approved_by now subject id db out h) k =
      decide_photo-IsSound limit limit now approved _ _ subject id db out tt h k
  step-IsSound (rejected_by now reason subject id db out h) k =
      decide_photo-IsSound limit limit now rejected reason _ subject id db out tt h k
  step-IsSound (featured_by now featured subject id db out h) k =
      feature_course_photo-IsSound limit limit now featured subject id db out h k
  step-IsSound (deleted_by storage id db after h) k =
      delete_course_photo-IsSound limit storage id db after h k
  step-IsSound (confirmed_by settings others storage subject course_id p s h) k =
      confirm_upload-IsSound limit settings others storage subject course_id p h s k
  step-IsSound (scored_by db after step) k =
      stepped-IsConsistent limit db.images.next_id db.images.rows after step k

  -- From a sound table of photos, whatever sequence of approvals, rejections, features and unfeatures,
  -- deletions, uploads that are confirmed beside transactions that keep the table sound, and steps of
  -- the scorer follows, the table stays sound: ids are distinct and issued, no two rows clash on a
  -- unique constraint, a user's photo that is the hero is approved, a course has at most one such
  -- hero, and no photo was claimed for scoring more than `limit` times.
  pub photos_stay_sound :
      {v w : PhotoState} → PhotoSteps limit v w → IsSoundState limit v → IsSoundState limit w
  photos_stay_sound begun k = k
  photos_stay_sound (followed steps step) k = step-IsSound step (photos_stay_sound steps k)
