-- ===== src/Photos/Kept.antt =====
-- The steps of moderators and of the scorer on the rows of `course_images`.
use mathlib.Core.Path.{fun_ext}
use golf_rank.Base.{
  ℕ, ◌<◌, ◌≡◌, refl, subst, inl, inr, String, Bool, true, false, not, ◌&&◌, ◌||◌, Option, some,
  List, arith, leb, leb→lt, Bool-cases, Option-cases, All-map,
}
use golf_rank.Photos.{
  Moderation, pending, approved, rejected, Action, CourseImage, is_by_user, is_approved, lock_image,
  change_image, has_featured_hero, is_pending,
}
use golf_rank.Photos.Moderate.{moderated, with_action, as_hero, is_claimed, is_none}
use golf_rank.Photos.Score.{
  claimed_row, unclaimed_row, scored_row, auto_approved_row, completed_row, failed_row,
  is_unclaimable, claim_found, claim_for_scoring, complete_owned, complete_found, complete_scoring,
  is_owned, change_owned, release_score_claim, record_permanent_score_failure,
}
use golf_rank.Photos.Consistent.{
  IsProper, IsConsistent, IsTame, change-IsConsistent, every_row, lock_image-only,
}

-- A decision is one of the two that a moderator takes.
abbrev pub IsDecision : Moderation → Type 0
IsDecision pending = ⊥
IsDecision approved = Unit
IsDecision rejected = Unit

no_user_hero : (b c : Bool) → (b && false) ≡ true → (b && c) ≡ true
no_user_hero b c h = ground (arith, h)

pub not_hero : (b : Bool) (c : Bool) → (b && false) ≡ true → c ≡ true
not_hero b c h = ground (arith, h)

module _ (limit next : ℕ) where
  pub moderated-IsConsistent :
      (now id : ℕ) (status : Moderation) (m : Option ℕ) (reason : Option String) (a : Option Action)
      (rows : List CourseImage)
      → IsDecision status
      → IsConsistent limit next rows
      → IsConsistent limit next (change_image id (moderated now status m reason a) rows)
  unfolding moderated
  moderated-IsConsistent now id pending m reason a rows d k = absurd d
  moderated-IsConsistent now id approved m reason a rows d k =
      change-IsConsistent limit next id (moderated now approved m reason a) rows
        (record { same_id = λ i. refl; same_seat = λ i. refl; no_hero = λ i h. h })
        (every_row (λ i e p. record { hero = λ h. refl; attempts = p.attempts; issued = p.issued })
          rows)
        k
  moderated-IsConsistent now id rejected m reason a rows d k =
      change-IsConsistent limit next id (moderated now rejected m reason a) rows
        (record {
          same_id = λ i. refl;
          same_seat = λ i. refl;
          no_hero = λ i h. no_user_hero (is_by_user i.source_type) i.is_hero h;
        })
        (every_row
          (λ i e p. record {
            hero = λ h. not_hero (is_by_user i.source_type) false h;
            attempts = p.attempts;
            issued = p.issued;
          })
          rows)
        k

  -- A change of the columns of the scorer, or of those that name the moderator.
  pub quiet-IsConsistent :
      (id : ℕ) (f : CourseImage → CourseImage) (rows : List CourseImage)
      → IsTame f
      → ((i : CourseImage) → IsProper limit next i → IsProper limit next (f i))
      → IsConsistent limit next rows
      → IsConsistent limit next (change_image id f rows)
  quiet-IsConsistent id f rows t h k =
      change-IsConsistent limit next id f rows t (every_row (λ i e. h i) rows) k

  pub unfeatured-IsConsistent :
      (now id m : ℕ) (a : Action) (rows : List CourseImage)
      → IsConsistent limit next rows
      → IsConsistent limit next (change_image id (λ i. as_hero false (with_action now m a i)) rows)
  unfeatured-IsConsistent now id m a rows k =
      quiet-IsConsistent id (λ i. as_hero false (with_action now m a i)) rows
        (record {
          same_id = λ i. refl;
          same_seat = λ i. refl;
          no_hero = λ i h. no_user_hero (is_by_user i.source_type) i.is_hero h;
        })
        (λ i p. record {
          hero = λ h. not_hero (is_by_user i.source_type) (is_approved i.moderation_status) h;
          attempts = p.attempts;
          issued = p.issued;
        })
        k

  unclaimed-IsConsistent :
      (id : ℕ) (rows : List CourseImage)
      → IsConsistent limit next rows
      → IsConsistent limit next (change_image id unclaimed_row rows)
  unclaimed-IsConsistent id rows k =
      quiet-IsConsistent id unclaimed_row rows
        (record { same_id = λ i. refl; same_seat = λ i. refl; no_hero = λ i h. h })
        (λ i p. record { hero = p.hero; attempts = p.attempts; issued = p.issued }) k

  completed-IsConsistent :
      (threshold now score : ℕ) (reasons : List String) (id : ℕ) (rows : List CourseImage)
      → IsConsistent limit next rows
      → IsConsistent limit next (change_image id (completed_row threshold now score reasons) rows)
  unfolding completed_row
  completed-IsConsistent threshold now score reasons id rows k =
      elim (Bool-cases (leb threshold score)) [
        | inl e ↦
            as_row (λ i. auto_approved_row now (scored_row now score reasons i)) (λ i. rw e refl)
              (quiet-IsConsistent id _ rows
                (record { same_id = λ i. refl; same_seat = λ i. refl; no_hero = λ i h. h })
                (λ i p. record { hero = λ h. refl; attempts = p.attempts; issued = p.issued }) k)
        | inr e ↦
            as_row (scored_row now score reasons) (λ i. rw e refl)
              (quiet-IsConsistent id _ rows
                (record { same_id = λ i. refl; same_seat = λ i. refl; no_hero = λ i h. h })
                (λ i p. record { hero = p.hero; attempts = p.attempts; issued = p.issued }) k)
      ]
    where
      as_row :
          (f : CourseImage → CourseImage)
          → ((i : CourseImage) → f i ≡ completed_row threshold now score reasons i)
          → IsConsistent limit next (change_image id f rows)
          → IsConsistent limit next
              (change_image id (completed_row threshold now score reasons) rows)
      as_row f h = subst (λ g. IsConsistent limit next (change_image id g rows)) (fun_ext h)

  under_limit :
      (lease now : ℕ) (rows : List CourseImage) (i : CourseImage)
      → is_unclaimable limit lease now rows i ≡ false
      → i.scoring_attempts < limit
  unfolding is_unclaimable
  under_limit lease now rows i h = leb→lt limit i.scoring_attempts (
      third (not (is_pending i.moderation_status)) (not (is_none i.scored_at))
        (leb limit i.scoring_attempts) (has_featured_hero i.course_id rows)
        (is_claimed lease now i.scoring_claimed_at) h)
    where
      third : (a b c d e : Bool) → ((a || b) || ((c || d) || e)) ≡ false → c ≡ false
      third a b c d e h = ground (arith, h)

  pub claim_for_scoring-IsConsistent :
      (lease now id : ℕ) (rows : List CourseImage)
      → IsConsistent limit next rows
      → IsConsistent limit next (claim_for_scoring limit lease now id rows).0
  unfolding claim_for_scoring
  claim_for_scoring-IsConsistent lease now id rows k = elim (Option-cases (lock_image id rows)) [
    | inl e ↦ rw e k
    | inr (i, e) ↦ rw e (claimed i e)
  ]
    where
      claimed :
          (i : CourseImage)
          → lock_image id rows ≡ some i
          → IsConsistent limit next (claim_found limit lease now rows (some i)).0
      claimed i e = elim (Bool-cases (is_unclaimable limit lease now rows i)) [
        | inl u ↦ rw u k
        | inr u ↦ rw u (
            change-IsConsistent limit next i.id (claimed_row now) rows
              (record { same_id = λ j. refl; same_seat = λ j. refl; no_hero = λ j h. h })
              (All-map (λ j l q p. record { hero = p.hero; attempts = l q; issued = p.issued }) rows
                (lock_image-only (λ j. j.scoring_attempts < limit) id rows i e k.compatible
                  (under_limit lease now rows i u)))
              k)
      ]

  pub complete_scoring-IsConsistent :
      (threshold now claim score : ℕ) (reasons : List String) (id : ℕ) (rows : List CourseImage)
      → IsConsistent limit next rows
      → IsConsistent limit next (complete_scoring threshold now claim score reasons id rows).0
  unfolding complete_scoring
  complete_scoring-IsConsistent threshold now claim score reasons id rows k =
      elim (Option-cases (lock_image id rows)) [ inl e ↦ rw e k | inr (i, e) ↦ rw e (found i) ]
    where
      owned :
          (i : CourseImage)
          → IsConsistent limit next (complete_owned threshold now claim score reasons rows i).0
      owned i =
          elim (Bool-cases
            (not (is_pending i.moderation_status) || has_featured_hero i.course_id rows)) [
              | inl u ↦ rw u (unclaimed-IsConsistent i.id rows k)
              | inr u ↦ rw u (completed-IsConsistent threshold now score reasons i.id rows k)
            ]

      found :
          (i : CourseImage)
          → IsConsistent limit next
              (complete_found threshold now claim score reasons rows (some i)).0
      found i = elim (Bool-cases (is_owned claim i.scoring_claimed_at)) [
        | inl u ↦ rw u (owned i)
        | inr u ↦ rw u k
      ]

  change_owned-IsConsistent :
      (claim id : ℕ) (f : CourseImage → CourseImage) (rows : List CourseImage)
      → ((key : ℕ) → IsConsistent limit next (change_image key f rows))
      → IsConsistent limit next rows
      → IsConsistent limit next (change_owned claim f rows (lock_image id rows))
  change_owned-IsConsistent claim id f rows h k = elim (Option-cases (lock_image id rows)) [
    | inl e ↦ rw e k
    | inr (i, e) ↦ rw e (elim (Bool-cases (is_owned claim i.scoring_claimed_at)) [
      | inl u ↦ rw u (h i.id)
      | inr u ↦ rw u k
    ])
  ]

  pub release_score_claim-IsConsistent :
      (claim id : ℕ) (rows : List CourseImage)
      → IsConsistent limit next rows
      → IsConsistent limit next (release_score_claim claim id rows)
  unfolding release_score_claim
  release_score_claim-IsConsistent claim id rows k =
      change_owned-IsConsistent claim id unclaimed_row rows
        (λ key. unclaimed-IsConsistent key rows k) k

  pub record_permanent_score_failure-IsConsistent :
      (now claim id : ℕ) (rows : List CourseImage)
      → IsConsistent limit next rows
      → IsConsistent limit next (record_permanent_score_failure now claim id rows)
  unfolding record_permanent_score_failure
  record_permanent_score_failure-IsConsistent now claim id rows k =
      change_owned-IsConsistent claim id (failed_row now) rows
        (λ key.
          quiet-IsConsistent key (failed_row now) rows
            (record { same_id = λ i. refl; same_seat = λ i. refl; no_hero = λ i h. h })
            (λ i p. record { hero = p.hero; attempts = p.attempts; issued = p.issued }) k)
        k
