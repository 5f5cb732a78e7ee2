-- ===== src/Photos/Capped.antt =====
-- How many photos a round gets from `confirm_upload`.
use golf_rank.Base.{
  ℕ, ◌<◌, ◌≡◌, refl, sym, ap, subst, ◌∙◌, inl, inr, String, Bool, true, false, not, Option, none,
  some, List, ◌∷◌, arith, Bool-cases, leb, Result, ok, err, raise, err≢ok, ok_or_err,
}
use golf_rank.Base.Exec.{Exec, >>=_ok, >>=_keeps, >>=_raises, >>=_returns, lift, ◌>>=◌, ◌>>◌}
use golf_rank.Domain.Course.{Course, require_course}
use golf_rank.Domain.User.{User, Accounts, stored_user_created}
use golf_rank.Photos.{CourseImage, Images}
use golf_rank.Photos.Add.{
  find_by_storage_key, count_for_round, next_position, NewImage, Added, inserted, there,
  add_user_image,
}
use golf_rank.Photos.Counted.{Capped, HasRoom, KeepsRoom, SeatFree, add_user_image-Capped}
use golf_rank.Photos.Upload.{
  Storage, UploadState, ConfirmRequest, PhotoSettings, Confirmed, change_objects, require_object,
  check_object, check_round, promote, settle_added, persist, confirm_new, confirm_found,
  or_unavailable, is_key_of, promote_storage_key, confirm_key, confirm_upload,
}

abbrev pub CappedUpload : UploadState → Type 0
CappedUpload s = Capped s.db.images.rows

abbrev images_of : UploadState → Images
images_of s = s.db.images

-- The checks of an upload leave the rows.
require_object-images :
    (b : Bool) (key : String) (status : ℕ) (detail : String) (s : UploadState)
    → images_of (require_object b key status detail s).1 ≡ images_of s
require_object-images true key status detail s = refl
require_object-images false key status detail s =
    >>=_keeps images_of (change_objects _) (λ a. lift (raise status detail)) s refl (λ a t. refl)

require_object-true :
    (b : Bool) (key : String) (status : ℕ) (detail : String) (s : UploadState) (u : Unit {0})
    → (require_object b key status detail s).0 ≡ ok u
    → b ≡ true
unfolding ◌>>=◌
require_object-true true key status detail s u h = refl
require_object-true false key status detail s u h = absurd (err≢ok _ u h)

module _ (settings : PhotoSettings) where
  check_object-images :
      (storage : Storage) (key : String) (s : UploadState)
      → images_of (check_object settings storage key s).1 ≡ images_of s
  unfolding check_object
  check_object-images storage key s = >>=_keeps images_of (lift _) _ s refl (λ meta t.
      >>=_keeps images_of (require_object _ key _ _) _ t (require_object-images _ key _ _ t)
        (λ a v. require_object-images _ key _ _ v))

  check_round-images :
      (user course : ℕ) (key : String) (o : Option ℕ) (s : UploadState)
      → images_of (check_round user course key o s).1 ≡ images_of s
  unfolding check_round
  check_round-images user course key none s = refl
  check_round-images user course key (some r) s =
      >>=_keeps images_of (require_object _ key _ _) _ s (require_object-images _ key _ _ s)
        (λ a v. require_object-images _ key _ _ v)

  -- A request that passes has room.
  check_round-HasRoom :
      (user course : ℕ) (key : String) (o : Option ℕ) (s : UploadState) (u : Unit {0})
      → (check_round user course key o s).0 ≡ ok u
      → HasRoom o (images_of s).rows
  unfolding check_round
  check_round-HasRoom user course key none s u h = tt
  check_round-HasRoom user course key (some r) s u h =
      let (a, p, e) = >>=_ok (require_object _ key _ _) _ s u h in
      room (count_for_round r (images_of s).rows) (
        require_object-true (not (leb 5 (count_for_round r (images_of s).rows))) key _ _ _ u
          (sym (ap (λ x. x.0) e) ∙ h))
    where
      room : (n : ℕ) → not (leb 5 n) ≡ true → n < 5
      room n h = ground (arith, h)

  promote-images :
      (storage : Storage) (key permanent : String) (s : UploadState)
      → images_of (promote storage key permanent s).1 ≡ images_of s
  unfolding promote
  promote-images storage key permanent s =
      >>=_keeps images_of (change_objects _) _ s refl (λ a t. refl)

  module _ (first : Images → Images) (rest : List (Images → Images)) (p : ConfirmRequest) where
    -- The place of the photo is free when its first attempt commits.
    abbrev pub PlaceIsFree : ℕ → String → UploadState → Type 0
    PlaceIsFree course permanent s =
        SeatFree course permanent (next_position course (images_of s).rows)
          (first (images_of s)).rows

    persist-Capped :
        (storage : Storage) (permanent : String) (account : Accounts × User) (course : ℕ)
        (s : UploadState)
        → KeepsRoom p.round_id first
        → PlaceIsFree course permanent s
        → CappedUpload s
        → HasRoom p.round_id (images_of s).rows
        → CappedUpload
            (persist settings (first ∷ rest) storage permanent account course p.round_id s).1
    unfolding persist
    persist-Capped storage permanent (accounts, user) course s h free c room =
        settled (add_user_image _ new (first ∷ rest) s.db.images)
          (add_user_image-Capped _ new first rest s.db.images h free c room)
      where
        new : NewImage
        new = record {
          course_id = course;
          storage_key = permanent;
          uploaded_by_user_id = user.id;
          round_id = p.round_id;
        }

        settled :
            (added : Images × Result Added)
            → Capped added.0.rows
            → CappedUpload (settle_added settings storage permanent accounts s added).1
        settled (images, ok (inserted row)) k = k
        settled (images, ok (there row)) k = k
        settled (images, err e) k = k

    confirm_new-Capped :
        (storage : Storage) (account : Accounts × User) (course : ℕ) (permanent : String)
        (s : UploadState)
        → KeepsRoom p.round_id first
        → PlaceIsFree course permanent s
        → CappedUpload s
        → CappedUpload (confirm_new settings (first ∷ rest) storage account course p permanent s).1
    unfolding confirm_new
    confirm_new-Capped storage account course permanent s h free c =
        elim (ok_or_err (checked s).0) [
          | inl (u, e) ↦
              rw
                (>>=_returns checked (λ a. stored) s (checked s).1 u
                  (ap (λ x. (x, (checked s).1)) e))
                (persist-Capped storage permanent account course (checked s).1 h
                  (subst
                    (λ x. SeatFree course permanent (next_position course x.rows) (first x).rows)
                    (sym same) free)
                  (subst (λ x. Capped x.rows) (sym same) c)
                  (subst (λ x. HasRoom p.round_id x.rows) (sym same) (room u e)))
          | inr (x, e) ↦
              rw
                (>>=_raises checked (λ a. stored) s (checked s).1 x
                  (ap (λ y. (y, (checked s).1)) e))
                (subst (λ y. Capped y.rows) (sym same) c)
        ]
      where
        both : Exec UploadState (Unit {0})
        both =
            check_object settings storage p.storage_key
            >> check_round account.1.id course p.storage_key p.round_id

        checked : Exec UploadState (Unit {0})
        checked = both >> promote storage p.storage_key permanent

        stored : Exec UploadState Confirmed
        stored = persist settings (first ∷ rest) storage permanent account course p.round_id

        both_images : (t : UploadState) → images_of (both t).1 ≡ images_of t
        both_images t =
            >>=_keeps images_of (check_object settings storage p.storage_key) _ t
              (check_object-images storage p.storage_key t)
              (λ a v. check_round-images account.1.id course p.storage_key p.round_id v)

        same : images_of (checked s).1 ≡ images_of s
        same =
            >>=_keeps images_of both _ s (both_images s)
              (λ a v. promote-images storage p.storage_key permanent v)

        room : (u : Unit {0}) → (checked s).0 ≡ ok u → HasRoom p.round_id (images_of s).rows
        room u e =
            let (a, q, eq) = >>=_ok both (λ x. promote storage p.storage_key permanent) s u e in
            let (b, r, eq2) =
              >>=_ok (check_object settings storage p.storage_key)
                (λ x. check_round account.1.id course p.storage_key p.round_id) s a q in
            subst (λ x. HasRoom p.round_id x.rows) (check_object-images storage p.storage_key s)
              (check_round-HasRoom account.1.id course p.storage_key p.round_id _ a
                (sym (ap (λ x. x.0) eq2) ∙ q))

    confirm_key-Capped :
        (storage : Storage) (account : Accounts × User) (course : ℕ) (permanent : String)
        (s : UploadState)
        → KeepsRoom p.round_id first
        → PlaceIsFree course permanent s
        → CappedUpload s
        → CappedUpload (confirm_key settings (first ∷ rest) storage account course p permanent s).1
    confirm_key-Capped storage account course permanent s h free c =
        found (find_by_storage_key permanent s.db.images.rows)
      where
        found :
            (i : Option CourseImage)
            → CappedUpload
                (confirm_found settings (first ∷ rest) storage account course p permanent i s).1
        found none = confirm_new-Capped storage account course permanent s h free c
        found (some i) = c

    -- If no round has more than five photos, none has after a confirm, answered or refused, whose
    -- first attempt finds the position that it read and the key still free at its commit, beside
    -- transactions that until then keep this and, as they wait for the lock of the round that the
    -- request names, its room for a photo. Nothing is said of a confirm whose first attempt collides:
    -- the rollback ends the lock of the round.
    pub confirm_upload-Capped :
        (storage : Option Storage) (subject : String) (course_id : ℕ) (course : Course)
        (permanent : String) (s : UploadState)
        → require_course s.db.base.ranking.catalog course_id ≡ ok course
        → promote_storage_key p.storage_key ≡ ok permanent
        → KeepsRoom p.round_id first
        → PlaceIsFree course.id permanent s
        → CappedUpload s
        → CappedUpload (confirm_upload settings (first ∷ rest) storage subject course_id p s).1
    unfolding confirm_upload ◌>>=◌
    confirm_upload-Capped storage subject course_id course permanent s e k h free c =
        elim (ok_or_err (stored_user_created s.db.base.ranking.accounts subject)) [
          | inr (x, u) ↦ rw u c
          | inl (account, u) ↦
              rw (u, e)
                (elim (ok_or_err (or_unavailable storage)) [
                  | inr (x, o) ↦ rw o c
                  | inl (store, o) ↦ rw o (elim (Bool-cases (is_key_of course.id p.storage_key)) [
                    | inr b ↦ rw b c
                    | inl b ↦
                        rw (b, k) (confirm_key-Capped store account course.id permanent s h free c)
                  ])
                ])
        ]
