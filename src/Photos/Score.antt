-- ===== src/Photos/Score.antt =====
-- The steps of the scorer in course_images/repository.py, which `score_and_moderate_image` of
-- course_photo_scoring_job.py runs around its calls of the provider. Each step is one transaction.
use golf_rank.Base.{
  ℕ, suc, String, Bool, true, false, not, ◌&&◌, ◌||◌, Option, none, some, List, ◌==◌, leb,
  if◌then◌else◌,
}
use golf_rank.Photos.{
  is_by_user, approved, did_auto_approve, CourseImage, is_pending, lock_image, change_image,
  has_featured_hero,
}
use golf_rank.Photos.Moderate.{is_none, is_claimed, lease_time}

abbrev pub claimed_row : ℕ → CourseImage → CourseImage
claimed_row now i = record i {
  scoring_attempts = suc i.scoring_attempts;
  scoring_claimed_at = some now;
}

abbrev pub unclaimed_row : CourseImage → CourseImage
unclaimed_row i = record i { scoring_claimed_at = none }

-- `scoring_claimed_at == claim_timestamp`
abbrev pub is_owned : ℕ → Option ℕ → Bool
is_owned claim none = false
is_owned claim (some claimed_at) = claimed_at == claim

-- The row as `complete_scoring` writes it. The threshold is the least whole number that is not below
-- the setting, as scores are whole.
abbrev pub scored_row : ℕ → ℕ → List String → CourseImage → CourseImage
scored_row now score reasons i = record i {
  quality_score = some score;
  quality_score_reasons = reasons;
  scored_at = some now;
  scoring_claimed_at = none;
}

abbrev pub auto_approved_row : ℕ → CourseImage → CourseImage
auto_approved_row now i = record i {
  moderation_status = approved;
  moderated_by_user_id = none;
  moderated_at = some now;
  moderation_reason = some "auto:gemini";
  moderation_action = some did_auto_approve;
}

unfoldable pub completed_row : ℕ → ℕ → ℕ → List String → CourseImage → CourseImage
completed_row threshold now score reasons i =
    if leb threshold score
    then auto_approved_row now (scored_row now score reasons i)
    else scored_row now score reasons i

abbrev pub failed_row : ℕ → CourseImage → CourseImage
failed_row now i = record i {
  scored_at = some now;
  scoring_claimed_at = none;
  quality_score = none;
}

-- What keeps `claim_for_scoring` from a claim.
unfoldable pub is_unclaimable : ℕ → ℕ → ℕ → List CourseImage → CourseImage → Bool
is_unclaimable max_attempts lease now rows i =
    (not (is_pending i.moderation_status) || not (is_none i.scored_at))
    || ((leb max_attempts i.scoring_attempts || has_featured_hero i.course_id rows)
        || is_claimed lease now i.scoring_claimed_at)

-- The table, and the claimed photo.
abbrev pub claim_found :
    ℕ → ℕ → ℕ → List CourseImage → Option CourseImage → List CourseImage × Option CourseImage
claim_found max_attempts lease now rows none = (rows, none)
claim_found max_attempts lease now rows (some i) =
    if is_unclaimable max_attempts lease now rows i
    then (rows, none)
    else (change_image i.id (claimed_row now) rows, some (claimed_row now i))

-- `claim_for_scoring`
unfoldable pub claim_for_scoring :
    ℕ → ℕ → ℕ → ℕ → List CourseImage → List CourseImage × Option CourseImage
claim_for_scoring max_attempts lease now id rows =
    claim_found max_attempts lease now rows (lock_image id rows)

module _ (threshold now claim score : ℕ) (reasons : List String) where
  abbrev pub complete_owned : List CourseImage → CourseImage → List CourseImage × Bool
  complete_owned rows i =
      if not (is_pending i.moderation_status) || has_featured_hero i.course_id rows
      then (change_image i.id unclaimed_row rows, false)
      else (change_image i.id (completed_row threshold now score reasons) rows, true)

  abbrev pub complete_found : List CourseImage → Option CourseImage → List CourseImage × Bool
  complete_found rows none = (rows, false)
  complete_found rows (some i) =
      if is_owned claim i.scoring_claimed_at then complete_owned rows i else (rows, false)

  -- `complete_scoring`
  unfoldable pub complete_scoring : ℕ → List CourseImage → List CourseImage × Bool
  complete_scoring id rows = complete_found rows (lock_image id rows)

abbrev pub change_owned :
    ℕ → (CourseImage → CourseImage) → List CourseImage → Option CourseImage → List CourseImage
change_owned claim f rows none = rows
change_owned claim f rows (some i) =
    if is_owned claim i.scoring_claimed_at then change_image i.id f rows else rows

-- `release_score_claim`
unfoldable pub release_score_claim : ℕ → ℕ → List CourseImage → List CourseImage
release_score_claim claim id rows = change_owned claim unclaimed_row rows (lock_image id rows)

-- `record_permanent_score_failure`
unfoldable pub record_permanent_score_failure : ℕ → ℕ → ℕ → List CourseImage → List CourseImage
record_permanent_score_failure now claim id rows =
    change_owned claim (failed_row now) rows (lock_image id rows)

-- `should_score`
abbrev pub should_score : ℕ → List CourseImage → CourseImage → Bool
should_score max_attempts rows i =
    (is_by_user i.source_type && is_pending i.moderation_status)
    && (is_none i.scored_at
        && (not (leb max_attempts i.scoring_attempts) && not (has_featured_hero i.course_id rows)))

-- What a run of the scorer meets outside: a photo without an address or that cannot be fetched, an
-- error of the provider, or a score.
pub data Outcome : Type 0 where
  not_fetched provider_failed : Outcome
  scored : ℕ → List String → Outcome

-- `score_and_moderate_image` after its claim; what other transactions do meanwhile is an argument. No
-- failure is permanent (`is_permanent_scoring_failure`).
unfoldable pub finish_scoring : ℕ → ℕ → ℕ → ℕ → Outcome → List CourseImage → List CourseImage
finish_scoring threshold now claim id not_fetched rows = release_score_claim claim id rows
finish_scoring threshold now claim id provider_failed rows = release_score_claim claim id rows
finish_scoring threshold now claim id (scored score reasons) rows =
    (complete_scoring threshold now claim score reasons id rows).0

module _ (max_attempts threshold : ℕ) where
  abbrev pub finish_claimed :
      ℕ
      → ℕ
      → Outcome
      → (List CourseImage → List CourseImage)
      → List CourseImage × Option CourseImage
      → List CourseImage
  finish_claimed finished id outcome others (rows, none) = rows
  finish_claimed finished id outcome others (rows, some i) =
      finish_of_claim finished id outcome i.scoring_claimed_at (others rows)
    where
      finish_of_claim : ℕ → ℕ → Outcome → Option ℕ → List CourseImage → List CourseImage
      finish_of_claim finished id outcome none rows = rows
      finish_of_claim finished id outcome (some claim) rows =
          finish_scoring threshold finished claim id outcome rows

  -- `score_and_moderate_image`, with at least one reference image if `has_references`.
  unfoldable pub score_and_moderate_image :
      Bool
      → ℕ
      → ℕ
      → ℕ
      → Outcome
      → (List CourseImage → List CourseImage)
      → List CourseImage
      → List CourseImage
  score_and_moderate_image false started finished id outcome others rows = rows
  score_and_moderate_image true started finished id outcome others rows =
      finish_claimed finished id outcome others
        (claim_for_scoring max_attempts lease_time started id rows)

-- One step of the scorer on the rows; a run is a claim and one of the others, with the steps of other
-- runs between them.
pub data ScoreStep (max_attempts : ℕ) (rows : List CourseImage) : List CourseImage → Type 0 where
  claims :
      (lease now id : ℕ)
      → ScoreStep max_attempts rows (claim_for_scoring max_attempts lease now id rows).0
  completes :
      (threshold now claim score : ℕ) (reasons : List String) (id : ℕ)
      → ScoreStep max_attempts rows (complete_scoring threshold now claim score reasons id rows).0
  releases : (claim id : ℕ) → ScoreStep max_attempts rows (release_score_claim claim id rows)
  fails :
      (now claim id : ℕ)
      → ScoreStep max_attempts rows (record_permanent_score_failure now claim id rows)

pub data ScoreSteps (max_attempts : ℕ) (start : List CourseImage) : List CourseImage → Type 0 where
  no_step : ScoreSteps max_attempts start start
  one_more :
      {v w : List CourseImage}
      → ScoreSteps max_attempts start v
      → ScoreStep max_attempts v w
      → ScoreSteps max_attempts start w
