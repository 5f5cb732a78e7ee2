-- ===== src/Photos/Claimed.antt =====
-- The claim of one run of the scorer beside the steps of others.
use golf_rank.Base.{
  ℕ, ◌+◌, ◌≡◌, ◌≢◌, ◌<◌, refl, sym, ap, ◌∙◌, inl, inr, String, Bool, true, false, not, ◌||◌, Option,
  none, some, List, arith, ◌==◌, leb, Bool-cases, Option-cases, ==-refl,
}
use golf_rank.Photos.{
  Moderation, Action, CourseImage, is_pending, lock_image, with_change, change_image,
  has_featured_hero,
}
use golf_rank.Photos.Moderate.{moderated, is_none, is_claimed}
use golf_rank.Photos.Locks.{KeepsRow, completed-KeepsRow, lock_image-change, lock_image-other}
use golf_rank.Photos.Score.{
  claimed_row, unclaimed_row, completed_row, failed_row, is_owned, is_unclaimable,
  claim_for_scoring, complete_owned, complete_scoring, change_owned, release_score_claim,
  record_permanent_score_failure,
}

-- A step beside the claim that was made at `held`, before its lease ends: a claim, the end of a claim
-- that has another time, or a decision.
pub data RivalStep (max_attempts lease held : ℕ) (rows : List CourseImage)
    : List CourseImage → Type 0 where
  claims_too :
      (now id : ℕ)
      → now < held + lease
      → RivalStep max_attempts lease held rows (claim_for_scoring max_attempts lease now id rows).0
  completes_too :
      (threshold now claim score : ℕ) (reasons : List String) (id : ℕ)
      → claim ≢ held
      → RivalStep max_attempts lease held rows
          (complete_scoring threshold now claim score reasons id rows).0
  releases_too :
      (claim id : ℕ)
      → claim ≢ held
      → RivalStep max_attempts lease held rows (release_score_claim claim id rows)
  fails_too :
      (now claim id : ℕ)
      → claim ≢ held
      → RivalStep max_attempts lease held rows (record_permanent_score_failure now claim id rows)
  moderates :
      (now id : ℕ) (status : Moderation) (m : Option ℕ) (reason : Option String) (a : Option Action)
      → RivalStep max_attempts lease held rows
          (change_image id (moderated now status m reason a) rows)

pub data RivalSteps (max_attempts lease held : ℕ) (start : List CourseImage)
    : List CourseImage → Type 0 where
  alone : RivalSteps max_attempts lease held start start
  and_then :
      {v w : List CourseImage}
      → RivalSteps max_attempts lease held start v
      → RivalStep max_attempts lease held v w
      → RivalSteps max_attempts lease held start w

-- The photo is there, claimed at the time.
abbrev pub Held : ℕ → ℕ → List CourseImage → Type 0
Held id held rows =
    (i : CourseImage) × (lock_image id rows ≡ some i) × (i.scoring_claimed_at ≡ some held)

module _ (id held : ℕ) where
  other-Held :
      (key : ℕ) (f : CourseImage → CourseImage) (rows : List CourseImage) (j : CourseImage)
      → KeepsRow f
      → lock_image key rows ≡ some j
      → (j.scoring_claimed_at ≡ some held → ⊥)
      → Held id held rows
      → Held id held (change_image j.id f rows)
  other-Held key f rows j t e differ (i, l, h) = (
    i,
    lock_image-other id key f rows i j t l e
        (λ x. differ (ap (λ y. y.scoring_claimed_at) (sym x) ∙ h)),
    h,
  )

  not_owned :
      (claim : ℕ) (o : Option ℕ) → claim ≢ held → is_owned claim o ≡ true → o ≡ some held → ⊥
  not_owned claim none d u e = cc
  not_owned claim (some c) d u e = d (ground (arith, u, same c e))
    where
      same : (c : ℕ) → some c ≡ some held → c ≡ held
      same c e = cc

  owned-Held :
      (claim key : ℕ) (f : CourseImage → CourseImage) (rows : List CourseImage)
      → KeepsRow f
      → claim ≢ held
      → Held id held rows
      → Held id held (change_owned claim f rows (lock_image key rows))
  owned-Held claim key f rows t d k = elim (Option-cases (lock_image key rows)) [
    | inl e ↦ rw e k
    | inr (j, e) ↦ rw e (elim (Bool-cases (is_owned claim j.scoring_claimed_at)) [
      | inl u ↦ rw u (other-Held key f rows j t e (not_owned claim j.scoring_claimed_at d u) k)
      | inr u ↦ rw u k
    ])
  ]

  complete-Held :
      (threshold now claim score : ℕ) (reasons : List String) (key : ℕ) (rows : List CourseImage)
      → claim ≢ held
      → Held id held rows
      → Held id held (complete_scoring threshold now claim score reasons key rows).0
  unfolding complete_scoring
  complete-Held threshold now claim score reasons key rows d k =
      elim (Option-cases (lock_image key rows)) [
        | inl e ↦ rw e k
        | inr (j, e) ↦ rw e (elim (Bool-cases (is_owned claim j.scoring_claimed_at)) [
          | inl u ↦ rw u (owned j e u)
          | inr u ↦ rw u k
        ])
      ]
    where
      owned :
          (j : CourseImage)
          → lock_image key rows ≡ some j
          → is_owned claim j.scoring_claimed_at ≡ true
          → Held id held (complete_owned threshold now claim score reasons rows j).0
      owned j e u =
          elim (Bool-cases
            (not (is_pending j.moderation_status) || has_featured_hero j.course_id rows)) [
              | inl q ↦ rw q (
                  other-Held key unclaimed_row rows j
                    (record { same_id = λ i. refl; same_source = λ i. refl }) e
                    (not_owned claim j.scoring_claimed_at d u) k)
              | inr q ↦ rw q (
                  other-Held key (completed_row threshold now score reasons) rows j
                    (completed-KeepsRow threshold now score reasons) e
                    (not_owned claim j.scoring_claimed_at d u) k)
            ]

  module _ (max_attempts lease : ℕ) where
    -- While the lease runs, no photo claimed at the time can be claimed.
    held_unclaimable :
        (now : ℕ) (rows : List CourseImage) (j : CourseImage)
        → now < held + lease
        → j.scoring_claimed_at ≡ some held
        → is_unclaimable max_attempts lease now rows j ≡ true
    unfolding is_unclaimable
    held_unclaimable now rows j l e =
        last (not (is_pending j.moderation_status)) (not (is_none j.scored_at))
          (leb max_attempts j.scoring_attempts) (has_featured_hero j.course_id rows)
          (is_claimed lease now j.scoring_claimed_at) (ap (is_claimed lease now) e ∙ ground arith)
      where
        last : (a b c d e : Bool) → e ≡ true → ((a || b) || ((c || d) || e)) ≡ true
        last a b c d e h = ground (arith, h)

    claim-Held :
        (now key : ℕ) (rows : List CourseImage)
        → now < held + lease
        → Held id held rows
        → Held id held (claim_for_scoring max_attempts lease now key rows).0
    unfolding claim_for_scoring
    claim-Held now key rows l k = elim (Option-cases (lock_image key rows)) [
      | inl e ↦ rw e k
      | inr (j, e) ↦ rw e (elim (Bool-cases (is_unclaimable max_attempts lease now rows j)) [
        | inl u ↦ rw u k
        | inr u ↦ rw u (
            other-Held key (claimed_row now) rows j
              (record { same_id = λ i. refl; same_source = λ i. refl }) e
              (λ h. clash _ (held_unclaimable now rows j l h) u) k)
      ])
    ]
      where
        clash : (b : Bool) → b ≡ true → b ≡ false → ⊥
        clash b p q = ground (arith, p, q)

    rival-Held :
        (rows after : List CourseImage)
        → RivalStep max_attempts lease held rows after
        → Held id held rows
        → Held id held after
    unfolding release_score_claim record_permanent_score_failure moderated
    rival-Held rows after (claims_too now key l) k = claim-Held now key rows l k
    rival-Held rows after (completes_too threshold now claim score reasons key d) k =
        complete-Held threshold now claim score reasons key rows d k
    rival-Held rows after (releases_too claim key d) k =
        owned-Held claim key unclaimed_row rows
          (record { same_id = λ i. refl; same_source = λ i. refl }) d k
    rival-Held rows after (fails_too now claim key d) k =
        owned-Held claim key (failed_row now) rows
          (record { same_id = λ i. refl; same_source = λ i. refl }) d k
    rival-Held rows after (moderates now key status m reason a) (i, l, h) = (
      with_change key (moderated now status m reason a) i,
      lock_image-change id key (moderated now status m reason a) rows i
          (record { same_id = λ i. refl; same_source = λ i. refl }) l,
      elim (Bool-cases (i.id == key)) [ inl q ↦ rw q h | inr q ↦ rw q h ],
    )

    rivals-Held :
        {rows after : List CourseImage}
        → RivalSteps max_attempts lease held rows after
        → Held id held rows
        → Held id held after
    rivals-Held alone k = k
    rivals-Held (and_then {v = v} {w = w} steps step) k = rival-Held v w step (rivals-Held steps k)

    claim_made :
        (rows : List CourseImage) (i : CourseImage)
        → lock_image id rows ≡ some i
        → is_unclaimable max_attempts lease held rows i ≡ false
        → Held id held (claim_for_scoring max_attempts lease held id rows).0
    unfolding claim_for_scoring
    claim_made rows i l u = rw l (
        rw u (
          with_change i.id (claimed_row held) i,
          lock_image-change id i.id (claimed_row held) rows i
              (record { same_id = λ j. refl; same_source = λ j. refl }) l,
          rw (==-refl i.id) refl,
        ))

    claim_refused :
        (now : ℕ) (after : List CourseImage)
        → now < held + lease
        → Held id held after
        → claim_for_scoring max_attempts lease now id after ≡ (after, none)
    unfolding claim_for_scoring
    claim_refused now after l (j, m, h) = rw m (rw (held_unclaimable now after j l h) refl)

    -- After a claim of a photo, as long as its lease runs and whatever other claims, ends of claims
    -- that have other times, and decisions of moderators come between, no second claim of the photo
    -- succeeds, and trying leaves the table as it is.
    pub claim_excludes :
        (rows after : List CourseImage) (i : CourseImage) (now : ℕ)
        → lock_image id rows ≡ some i
        → is_unclaimable max_attempts lease held rows i ≡ false
        → RivalSteps max_attempts lease held
            (claim_for_scoring max_attempts lease held id rows).0
            after
        → now < held + lease
        → claim_for_scoring max_attempts lease now id after ≡ (after, none)
    claim_excludes rows after i now l u steps before =
        claim_refused now after before (rivals-Held steps (claim_made rows i l u))
