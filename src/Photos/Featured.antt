-- ===== src/Photos/Featured.antt =====
-- `feature_user_image` on the rows of `course_images`.
use golf_rank.Base.{
  ℕ, ◌≡◌, ◌⊎◌, refl, sym, ap, ◌∙◌, inl, inr, Bool, true, false, ◌&&◌, Option, none, some, List,
  arith, ◌==◌, Bool-cases, Option-cases,
}
use golf_rank.Base.Distinct.{Pairwise-map, All-mapped}
use golf_rank.Photos.{Action, did_unfeature, CourseImage, is_by_user, is_approved, lock_image}
use golf_rank.Photos.Moderate.{
  with_action, as_hero, is_in_tier, feature_in, feature_found, feature_user_image,
}
use golf_rank.Photos.Consistent.{
  is_user_hero, Compatible, IsProper, IsConsistent, seat, clashes-seat,
}
use golf_rank.Photos.Kept.{not_hero, unfeatured-IsConsistent}

module _ (now m : ℕ) (target : CourseImage) where
  feature_in-same :
      (i : CourseImage)
      → ((feature_in now m target i).id ≡ i.id) × (seat (feature_in now m target i) ≡ seat i)
  unfolding feature_in
  feature_in-same i = elim (Bool-cases (is_in_tier target.course_id i)) [
    | inl e ↦ rw e (elim (Bool-cases (i.id == target.id)) [
      | inl q ↦ rw q (refl, refl)
      | inr q ↦
          rw q
            (elim (Bool-cases i.is_hero) [ inl r ↦ rw r (refl, refl) | inr r ↦ rw r (refl, refl) ])
    ])
    | inr e ↦ rw e (refl, refl)
  ]

  outside_tier :
      (i : CourseImage) → is_in_tier target.course_id i ≡ false → feature_in now m target i ≡ i
  unfolding feature_in
  outside_tier i e = rw e refl

  sibling :
      (i : CourseImage)
      → is_in_tier target.course_id i ≡ true
      → (i.id == target.id) ≡ false
      → is_user_hero (feature_in now m target i) ≡ false
  unfolding feature_in
  sibling i e q =
      rw (e, q)
        (elim (Bool-cases i.is_hero) [ inl r ↦ rw r (ground arith) | inr r ↦ rw r (ground arith) ])

  -- Who is a hero afterwards.
  feature_in-hero :
      (i : CourseImage)
      → is_user_hero (feature_in now m target i) ≡ true
      → ((is_in_tier target.course_id i ≡ true) × (i.id ≡ target.id))
        ⊎ ((is_in_tier target.course_id i ≡ false) × (is_user_hero i ≡ true))
  feature_in-hero i h = elim (Bool-cases (is_in_tier target.course_id i)) [
    | inl e ↦ elim (Bool-cases (i.id == target.id)) [
      | inl q ↦ inl (e, ground (arith, q))
      | inr q ↦ absurd (false≢true (sym (sibling i e q) ∙ h))
    ]
    | inr e ↦ inr (e, ap is_user_hero (sym (outside_tier i e)) ∙ h)
  ]
    where
      false≢true : false ≡ true → ⊥
      false≢true e = cc

  -- A hero of the course belongs to the tier.
  hero_in_tier :
      (i : CourseImage)
      → is_user_hero i ≡ true
      → i.course_id ≡ target.course_id
      → is_in_tier target.course_id i ≡ false
      → ⊥
  hero_in_tier i h e f =
      both (i.course_id == target.course_id) (is_by_user i.source_type) i.is_hero
        (ground (arith, e)) h f
    where
      both : (a b c : Bool) → a ≡ true → (b && c) ≡ true → (a && b) ≡ false → ⊥
      both a b c p q r = ground (arith, p, q, r)

  feature_in-Compatible :
      (x y : CourseImage)
      → Compatible x y
      → Compatible (feature_in now m target x) (feature_in now m target y)
  feature_in-Compatible x y c = record {
    apart = λ e. c.apart (sym (feature_in-same x).0 ∙ (e ∙ (feature_in-same y).0));
    free = clashes-seat _ _ y x (feature_in-same y).1 (feature_in-same x).1 ∙ c.free;
    one_hero = λ p q e. elim (feature_in-hero x p) [
      | inl (u, i) ↦ elim (feature_in-hero y q) [
        | inl (v, j) ↦ c.apart (i ∙ sym j)
        | inr (v, j) ↦ hero_in_tier y j (sym (course e) ∙ in_course x u) v
      ]
      | inr (u, i) ↦ elim (feature_in-hero y q) [
        | inl (v, j) ↦ hero_in_tier x i (course e ∙ in_course y v) u
        | inr (v, j) ↦ c.one_hero i j (course e)
      ]
    ];
  }
    where
      in_course :
          (i : CourseImage) → is_in_tier target.course_id i ≡ true → i.course_id ≡ target.course_id
      in_course i u = ground (arith, u)

      course :
          (feature_in now m target x).course_id ≡ (feature_in now m target y).course_id
          → x.course_id ≡ y.course_id
      course e =
          ap (λ t. t.0) (sym (feature_in-same x).1) ∙ (e ∙ ap (λ t. t.0) (feature_in-same y).1)

  feature_in-IsProper :
      (limit next : ℕ) (i : CourseImage)
      → IsProper limit next i
      → IsProper limit next (feature_in now m target i)
  unfolding feature_in
  feature_in-IsProper limit next i p = elim (Bool-cases (is_in_tier target.course_id i)) [
    | inl e ↦ rw e (elim (Bool-cases (i.id == target.id)) [
      | inl q ↦ rw q (record { hero = λ h. refl; attempts = p.attempts; issued = p.issued })
      | inr q ↦ rw q (elim (Bool-cases i.is_hero) [
        | inl r ↦ rw r (lowered now m did_unfeature i p)
        | inr r ↦ rw r (lowered_only i p)
      ])
    ])
    | inr e ↦ rw e p
  ]
    where
      lowered_only :
          (i : CourseImage) → IsProper limit next i → IsProper limit next (as_hero false i)
      lowered_only i p = record {
        hero = λ h. not_hero (is_by_user i.source_type) (is_approved i.moderation_status) h;
        attempts = p.attempts;
        issued = p.issued;
      }

      lowered :
          (now m : ℕ) (a : Action) (i : CourseImage)
          → IsProper limit next i
          → IsProper limit next (as_hero false (with_action now m a i))
      lowered now m a i p = record {
        hero = λ h. not_hero (is_by_user i.source_type) (is_approved i.moderation_status) h;
        attempts = p.attempts;
        issued = p.issued;
      }

module _ (limit next : ℕ) where
  -- The table after `feature_user_image`, if there is one.
  abbrev pub IsKept : Option (List CourseImage) → Type 0
  IsKept none = Unit
  IsKept (some rows) = IsConsistent limit next rows

  pub feature_user_image-IsKept :
      (now id m : ℕ) (featured : Bool) (rows : List CourseImage)
      → IsConsistent limit next rows
      → IsKept (feature_user_image now id featured m rows)
  unfolding feature_user_image
  feature_user_image-IsKept now id m featured rows k = elim (Option-cases (lock_image id rows)) [
    | inl e ↦ rw e tt
    | inr (i, e) ↦ rw e (found featured i)
  ]
    where
      found :
          (featured : Bool) (i : CourseImage) → IsKept (feature_found now m featured rows (some i))
      found true i = record {
        compatible =
            Pairwise-map Compatible (feature_in now m i) rows (feature_in-Compatible now m i)
              k.compatible;
        proper =
            All-mapped (λ j k. IsProper limit next k) (feature_in now m i) i rows
              (λ j. feature_in-IsProper now m i limit next j) k.proper;
      }
      found false i = unfeatured-IsConsistent limit next now i.id m did_unfeature rows k
