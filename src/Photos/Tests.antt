-- ===== src/Photos/Tests.antt =====
-- The photos of one course at a concrete state.
use golf_rank.Base.{
  ℕ, suc, String, ◌++◌, ◌≡◌, refl, Bool, true, false, none, some, List, [], ◌∷◌, arith, ok,
}
use golf_rank.Domain.User.{stored_user_created, find_user}
use golf_rank.Rounds.Tests.{value, course}
use golf_rank.Rounds.Tests.{state as rounds}
use golf_rank.Photos.{
  by_user, Moderation, pending, rejected, CourseImage, Images, PhotoState, lock_image,
  has_featured_hero,
}
use golf_rank.Photos.Moderate.{
  AdminPhoto, admin_photo_out, with_rows, feature_in, feature_user_image, feature_course_photo,
}
use golf_rank.Photos.Score.{
  is_unclaimable, claim_for_scoring, complete_scoring, release_score_claim, claims, completes,
  no_step, one_more,
}
use golf_rank.Base.Exec.{◌>>=◌}
use golf_rank.Domain.Course.{require_course, get_course}
use golf_rank.Social.Feed.{round_row}
use golf_rank.Photos.Add.{
  clashes, count_for_round, find_by_storage_key, new_row, next_position, add_attempts,
  add_user_image,
}
use golf_rank.Photos.Upload.{
  promote_storage_key, confirm_new, check_object, check_round, promote, persist, Storage,
  PhotoSettings, UploadState, ConfirmRequest, confirm_upload,
}
use golf_rank.Photos.Capped.{CappedUpload, PlaceIsFree, confirm_upload-Capped}
use golf_rank.Photos.Uploaded.{IsSoundState}
use golf_rank.Photos.Steps.{begun, followed, scored_by, featured_by, photos_stay_sound}
use golf_rank.Photos.Decided.{verdict, Decided, decisions_stand}
use golf_rank.Photos.Claimed.{alone, and_then, claims_too, releases_too, claim_excludes}

abbrev photo : ℕ → Moderation → Bool → CourseImage
photo id status is_hero = record {
  id = id;
  course_id = 1;
  storage_key = none;
  position = id;
  is_hero = is_hero;
  source_type = by_user;
  moderation_status = status;
  uploaded_by_user_id = some 7;
  round_id = none;
  quality_score = none;
  quality_score_reasons = [];
  scored_at = none;
  scoring_attempts = 0;
  scoring_claimed_at = none;
  moderated_by_user_id = none;
  moderated_at = none;
  moderation_action = none;
  moderation_reason = none;
}

abbrev rows : List CourseImage
rows = photo 1 pending false ∷ photo 2 pending false ∷ []

abbrev state : PhotoState
state = record { base = rounds; images = record { rows = rows; next_id = 3 } }

sound : IsSoundState 3 state
unfolding clashes
sound = record {
  compatible = (
    (
      record { apart = λ e. ground (arith, e); free = refl; one_hero = λ p q e. ground (arith, p) },
      tt,
    ),
    (tt, tt),
  );
  proper = (
    record { hero = λ h. ground (arith, h); attempts = omega arith; issued = omega arith },
    (record { hero = λ h. ground (arith, h); attempts = omega arith; issued = omega arith }, tt),
  );
}

abbrev claimed : PhotoState
claimed = with_rows (claim_for_scoring 3 100 10 1 rows).0 state

abbrev no_answer : PhotoState × AdminPhoto
no_answer = (
  state,
  record {
    image = photo 1 pending false;
    course_hero_locked = false;
    is_scoring = false;
    scoring_exhausted = false;
  },
)

abbrev featured : PhotoState × AdminPhoto
featured = value no_answer (feature_course_photo 3 20 true "anna" 2 claimed)

was_featured : feature_course_photo 3 20 true "anna" 2 claimed ≡ ok featured
unfolding claim_for_scoring is_unclaimable lock_image has_featured_hero feature_course_photo
    stored_user_created find_user feature_user_image feature_in admin_photo_out
was_featured = refl

photos_stay_sound_example : IsSoundState 3 featured.0
photos_stay_sound_example =
    photos_stay_sound 3
      (followed
        (followed begun (scored_by state (claim_for_scoring 3 100 10 1 rows).0 (claims 100 10 1)))
        (featured_by 20 true "anna" 2 claimed featured was_featured))
      sound

abbrev refused_rows : List CourseImage
refused_rows = record (photo 1 rejected false) { scoring_claimed_at = some 10 } ∷ []

refused : Decided 1 (verdict (photo 1 rejected false)) refused_rows
unfolding lock_image
refused = (record (photo 1 rejected false) { scoring_claimed_at = some 10 }, refl, refl, refl)

-- The score comes after the rejection.
decisions_stand_example :
    Decided 1 (verdict (photo 1 rejected false)) (complete_scoring 8 30 10 9 [] 1 refused_rows).0
decisions_stand_example =
    decisions_stand 1 (verdict (photo 1 rejected false)) 3
      (one_more no_step (completes 8 30 10 9 [] 1)) refused

claimable : is_unclaimable 3 100 10 rows (photo 1 pending false) ≡ false
unfolding is_unclaimable has_featured_hero
claimable = refl

first_photo : lock_image 1 rows ≡ some (photo 1 pending false)
unfolding lock_image
first_photo = refl

abbrev rival_rows : List CourseImage
rival_rows =
    (claim_for_scoring 3 100 12 2
      (release_score_claim 11 1 (claim_for_scoring 3 100 10 1 rows).0)).0

claim_excludes_example : claim_for_scoring 3 100 50 1 rival_rows ≡ (rival_rows, none)
claim_excludes_example =
    claim_excludes 1 10 3 100 rows rival_rows (photo 1 pending false) 50 first_photo claimable
      (and_then (and_then alone (releases_too 11 1 (λ e. ground (arith, e))))
        (claims_too 12 2 (omega arith)))
      (omega arith)

abbrev storage : Storage
storage = record {
  head = λ key. some (record { content_type = "image/png"; content_length = 2048 });
  deletes = λ key. true;
  promotes = λ key. true;
}

abbrev settings : PhotoSettings
settings = record { min_bytes = 1024; max_bytes = 10485760; autoscore = false }

abbrev upload : UploadState
upload = record { db = state; calls = [] }

abbrev confirm : ConfirmRequest
confirm = record { storage_key = "course-photos/pending/10/a.png"; round_id = some 1 }

abbrev undisturbed : List (Images → Images)
undisturbed = (λ images. images) ∷ (λ images. images) ∷ (λ images. images) ∷ []

capped : CappedUpload upload
unfolding count_for_round
capped r = omega arith

found_course : require_course state.base.ranking.catalog 10 ≡ ok (course 10)
unfolding require_course get_course
found_course = refl

permanent_key : promote_storage_key "course-photos/pending/10/a.png" ≡ ok "course-photos/10/a.png"
unfolding promote_storage_key
permanent_key = refl

free_place :
    PlaceIsFree settings
      (λ images. images)
      ((λ images. images) ∷ [])
      confirm
      10
      "course-photos/10/a.png"
      upload
free_place = ((λ e. ground (arith, e), refl), ((λ e. ground (arith, e), refl), tt))

confirm_upload-Capped_example :
    CappedUpload (confirm_upload settings undisturbed (some storage) "anna" 10 confirm upload).1
confirm_upload-Capped_example =
    confirm_upload-Capped settings (λ images. images) ((λ images. images) ∷ (λ images. images) ∷ [])
      confirm (some storage) "anna" 10 (course 10) "course-photos/10/a.png" upload found_course
      permanent_key (λ i c r. (c, r)) free_place capped

-- The upload is accepted and gets the next id.
accepted :
    (confirm_upload settings undisturbed
      (some storage)
      "anna"
      10
      confirm
      upload).1.db.images.next_id
    ≡ 4
unfolding confirm_upload stored_user_created find_user require_course get_course promote_storage_key
    find_by_storage_key confirm_new check_object check_round round_row count_for_round promote
    persist add_user_image add_attempts next_position clashes ◌>>=◌
accepted = refl

-- A photo of the course 10, by key, position and round.
abbrev photo_of : ℕ → String → ℕ → ℕ → CourseImage
photo_of id key position round_id =
    new_row
      (record {
        course_id = 10;
        storage_key = key;
        uploaded_by_user_id = 7;
        round_id = some round_id;
      })
      id position

abbrev add_photo : String → ℕ → ℕ → Images → Images
add_photo key position round_id images = record {
  rows = images.rows ++ photo_of images.next_id key position round_id ∷ [];
  next_id = suc images.next_id;
}

abbrev four_photos : Images
four_photos = record {
  rows = photo_of 1 "a" 0 1 ∷ photo_of 2 "b" 1 1 ∷ photo_of 3 "c" 2 1 ∷ photo_of 4 "d" 3 1 ∷ [];
  next_id = 5;
}

abbrev crowded : UploadState
crowded = record { db = record { base = rounds; images = four_photos }; calls = [] }

-- The first attempt loses its position to a photo of another round, and its rollback the lock of the
-- round, so that the second one loses it to a fifth photo of the round: the third adds a sixth.
sixth_photo :
    count_for_round 1
      (confirm_upload settings
        (add_photo "e" 4 2 ∷ add_photo "f" 5 1 ∷ (λ images. images) ∷ [])
        (some storage)
        "anna"
        10
        confirm
        crowded).1.db.images.rows
    ≡ 6
unfolding confirm_upload stored_user_created find_user require_course get_course promote_storage_key
    find_by_storage_key confirm_new check_object check_round round_row count_for_round promote
    persist add_user_image add_attempts next_position clashes ◌>>=◌
sixth_photo = refl
