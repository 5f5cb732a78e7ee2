-- ===== src/Photos/Decided.antt =====
-- The scorer beside the moderators: what its steps leave of a photo that has been decided.
use golf_rank.Base.{
  ℕ, ◌≡◌, refl, ap, ◌∙◌, inl, inr, String, Bool, true, false, not, ◌||◌, Option, some, List, arith,
  ◌==◌, Bool-cases, Option-cases,
}
use golf_rank.Photos.{
  Moderation, Action, CourseImage, is_pending, lock_image, with_change, change_image,
  has_featured_hero,
}
use golf_rank.Photos.Locks.{KeepsRow, completed-KeepsRow, lock_image-change, lock_image-other}
use golf_rank.Photos.Score.{
  claimed_row, unclaimed_row, completed_row, failed_row, is_owned, is_unclaimable,
  claim_for_scoring, complete_owned, complete_scoring, change_owned, release_score_claim,
  record_permanent_score_failure, ScoreStep, claims, completes, releases, fails, ScoreSteps,
  no_step, one_more,
}

-- What a moderator decides of a photo.
abbrev pub Verdict : Type 0
Verdict = Moderation × (Option ℕ × (Option ℕ × (Option String × (Option Action × Bool))))

abbrev pub verdict : CourseImage → Verdict
verdict i = (
  i.moderation_status,
  (
    i.moderated_by_user_id,
    (i.moderated_at, (i.moderation_reason, (i.moderation_action, i.is_hero))),
  ),
)

-- The photo is there with the decision, and it is not pending.
abbrev pub Decided : ℕ → Verdict → List CourseImage → Type 0
Decided id d rows =
    (i : CourseImage) × (lock_image id rows ≡ some i)
    × (verdict i ≡ d)
    × (is_pending i.moderation_status ≡ false)

module _ (id : ℕ) (d : Verdict) where
  -- A change that touches no decision.
  quiet-Decided :
      (key : ℕ) (f : CourseImage → CourseImage) (rows : List CourseImage)
      → KeepsRow f
      → ((i : CourseImage) → verdict (f i) ≡ verdict i)
      → Decided id d rows
      → Decided id d (change_image key f rows)
  quiet-Decided key f rows t h (i, l, e, p) = (
    with_change key f i,
    lock_image-change id key f rows i t l,
    same i ∙ e,
    ap (λ x. is_pending x.0) (same i) ∙ p,
  )
    where
      same : (i : CourseImage) → verdict (with_change key f i) ≡ verdict i
      same i = elim (Bool-cases (i.id == key)) [ inl q ↦ rw q (h i) | inr q ↦ rw q refl ]

  unclaimed-Decided :
      (key : ℕ) (rows : List CourseImage)
      → Decided id d rows
      → Decided id d (change_image key unclaimed_row rows)
  unclaimed-Decided key rows k =
      quiet-Decided key unclaimed_row rows (record { same_id = λ i. refl; same_source = λ i. refl })
        (λ i. refl) k

  claim-Decided :
      (max_attempts lease now key : ℕ) (rows : List CourseImage)
      → Decided id d rows
      → Decided id d (claim_for_scoring max_attempts lease now key rows).0
  unfolding claim_for_scoring
  claim-Decided max_attempts lease now key rows k = elim (Option-cases (lock_image key rows)) [
    | inl e ↦ rw e k
    | inr (j, e) ↦ rw e (elim (Bool-cases (is_unclaimable max_attempts lease now rows j)) [
      | inl u ↦ rw u k
      | inr u ↦ rw u (
          quiet-Decided j.id (claimed_row now) rows
            (record { same_id = λ i. refl; same_source = λ i. refl }) (λ i. refl) k)
    ])
  ]

  owned-Decided :
      (claim key : ℕ) (f : CourseImage → CourseImage) (rows : List CourseImage)
      → KeepsRow f
      → ((i : CourseImage) → verdict (f i) ≡ verdict i)
      → Decided id d rows
      → Decided id d (change_owned claim f rows (lock_image key rows))
  owned-Decided claim key f rows t h k = elim (Option-cases (lock_image key rows)) [
    | inl e ↦ rw e k
    | inr (j, e) ↦ rw e (elim (Bool-cases (is_owned claim j.scoring_claimed_at)) [
      | inl u ↦ rw u (quiet-Decided j.id f rows t h k)
      | inr u ↦ rw u k
    ])
  ]

  module _ (threshold now claim score : ℕ) (reasons : List String) where
    complete-Decided :
        (key : ℕ) (rows : List CourseImage)
        → Decided id d rows
        → Decided id d (complete_scoring threshold now claim score reasons key rows).0
    unfolding complete_scoring
    complete-Decided key rows k = elim (Option-cases (lock_image key rows)) [
      | inl e ↦ rw e k
      | inr (j, e) ↦ rw e (elim (Bool-cases (is_owned claim j.scoring_claimed_at)) [
        | inl u ↦ rw u (owned j e)
        | inr u ↦ rw u k
      ])
    ]
      where
        pending_or_not :
            (i j : CourseImage)
            → i ≡ j
            → is_pending i.moderation_status ≡ false
            → is_pending j.moderation_status ≡ true
            → ⊥
        pending_or_not i j x p q = clash (ap (λ y. is_pending y.moderation_status) x)
          where
            clash : is_pending i.moderation_status ≡ is_pending j.moderation_status → ⊥
            clash e = cc

        approved_another :
            (j : CourseImage)
            → lock_image key rows ≡ some j
            → is_pending j.moderation_status ≡ true
            → Decided id d (change_image j.id (completed_row threshold now score reasons) rows)
        approved_another j e q =
            let (i, l, h, p) = k in
            (
              i,
              lock_image-other id key (completed_row threshold now score reasons) rows i j
                  (completed-KeepsRow threshold now score reasons) l e
                  (λ x. pending_or_not i j x p q),
              h,
              p,
            )

        pending_of : (a b : Bool) → (not a || b) ≡ false → a ≡ true
        pending_of a b h = ground (arith, h)

        owned :
            (j : CourseImage)
            → lock_image key rows ≡ some j
            → Decided id d (complete_owned threshold now claim score reasons rows j).0
        owned j e =
            elim (Bool-cases
              (not (is_pending j.moderation_status) || has_featured_hero j.course_id rows)) [
                | inl u ↦ rw u (unclaimed-Decided j.id rows k)
                | inr u ↦ rw u (
                    approved_another j e (
                      pending_of (is_pending j.moderation_status)
                        (has_featured_hero j.course_id rows) u))
              ]

  stepped-Decided :
      (max_attempts : ℕ) (rows after : List CourseImage)
      → ScoreStep max_attempts rows after
      → Decided id d rows
      → Decided id d after
  unfolding release_score_claim record_permanent_score_failure
  stepped-Decided max_attempts rows after (claims lease now key) k =
      claim-Decided max_attempts lease now key rows k
  stepped-Decided max_attempts rows after (completes threshold now claim score reasons key) k =
      complete-Decided threshold now claim score reasons key rows k
  stepped-Decided max_attempts rows after (releases claim key) k =
      owned-Decided claim key unclaimed_row rows
        (record { same_id = λ i. refl; same_source = λ i. refl }) (λ i. refl) k
  stepped-Decided max_attempts rows after (fails now claim key) k =
      owned-Decided claim key (failed_row now) rows
        (record { same_id = λ i. refl; same_source = λ i. refl }) (λ i. refl) k

  -- A photo that has been decided, by a moderator or by the scorer itself, keeps its decision through
  -- every sequence of steps of any runs of the scorer, the late ones that claimed it before the
  -- decision included: the status, who decided when and for what reason, the action, and whether the
  -- photo is the hero.
  pub decisions_stand :
      (max_attempts : ℕ) {rows after : List CourseImage}
      → ScoreSteps max_attempts rows after
      → Decided id d rows
      → Decided id d after
  decisions_stand max_attempts no_step k = k
  decisions_stand max_attempts (one_more {v = v} {w = w} steps step) k =
      stepped-Decided max_attempts v w step (decisions_stand max_attempts steps k)
