-- ===== src/Photos/Consistent.antt =====
-- The rows of `course_images` as repository.py keeps them.
use golf_rank.Base.{
  ℕ, String, ◌≤◌, ◌<◌, ◌≡◌, ◌≢◌, refl, sym, ap, ap₂, subst, ◌∙◌, inl, inr, Bool, true, false, ◌&&◌,
  ◌||◌, Option, some, List, [], ◌∷◌, arith, ◌==◌, if◌then◌else◌, keep, map, Bool-cases, All,
  All-map, All-keep,
}
use golf_rank.Base.Distinct.{Pairwise, Pairwise-keep, Pairwise-map}
use golf_rank.Photos.{
  Source, CourseImage, is_by_user, is_approved, is_user_image, lock_image, with_change,
  change_image,
}
use golf_rank.Photos.Add.{same_storage_key, clashes}

-- A photo that a moderator has featured.
abbrev pub is_user_hero : CourseImage → Bool
is_user_hero i = is_by_user i.source_type && i.is_hero

-- The ids of two rows differ, no unique constraint forbids them, and they are not the featured photos
-- of one course.
pub record Compatible (x y : CourseImage) : Type 0 where
  pub apart : x.id ≢ y.id
  pub free : clashes y x ≡ false
  pub one_hero : is_user_hero x ≡ true → is_user_hero y ≡ true → x.course_id ≢ y.course_id

-- A featured photo is approved, no photo was claimed more often than the limit says, and the id of
-- each has been issued.
pub record IsProper (limit next : ℕ) (i : CourseImage) : Type 0 where
  pub hero : is_user_hero i ≡ true → is_approved i.moderation_status ≡ true
  pub attempts : i.scoring_attempts ≤ limit
  pub issued : i.id < next

pub record IsConsistent (limit next : ℕ) (rows : List CourseImage) : Type 0 where
  pub compatible : Pairwise Compatible rows
  pub proper : All (IsProper limit next) rows

-- What the unique constraints read of a row.
abbrev pub seat : CourseImage → ℕ × (ℕ × (Source × Option String))
seat i = (i.course_id, (i.position, (i.source_type, i.storage_key)))

pub clashes-seat :
    (i j k l : CourseImage) → seat i ≡ seat k → seat j ≡ seat l → clashes i j ≡ clashes k l
unfolding clashes
clashes-seat i j k l e q = ap₂ clash_at e q
  where
    clash_at : ℕ × (ℕ × (Source × Option String)) → ℕ × (ℕ × (Source × Option String)) → Bool
    clash_at (c, (p, (s, key))) (d, (q, (t, other))) =
        (c == d && p == q) || ((is_by_user s && is_by_user t) && same_storage_key key other)

-- A change that takes no row to another place and features none.
pub record IsTame (f : CourseImage → CourseImage) : Type 0 where
  pub same_id : (i : CourseImage) → (f i).id ≡ i.id
  pub same_seat : (i : CourseImage) → seat (f i) ≡ seat i
  pub no_hero : (i : CourseImage) → is_user_hero (f i) ≡ true → is_user_hero i ≡ true

pub map-Compatible :
    (f : CourseImage → CourseImage) (rows : List CourseImage)
    → IsTame f
    → Pairwise Compatible rows
    → Pairwise Compatible (map f rows)
map-Compatible f rows t h = Pairwise-map Compatible f rows keeps h
  where
    course : (i : CourseImage) → (f i).course_id ≡ i.course_id
    course i = ap (λ x. x.0) (t.same_seat i)

    keeps : (x y : CourseImage) → Compatible x y → Compatible (f x) (f y)
    keeps x y c = record {
      apart = λ e. c.apart (sym (t.same_id x) ∙ (e ∙ t.same_id y));
      free = clashes-seat (f y) (f x) y x (t.same_seat y) (t.same_seat x) ∙ c.free;
      one_hero =
          λ p q e. c.one_hero (t.no_hero x p) (t.no_hero y q) (sym (course x) ∙ (e ∙ course y));
    }

pub keep-IsConsistent :
    (limit next : ℕ) (p : CourseImage → Bool) (rows : List CourseImage)
    → IsConsistent limit next rows
    → IsConsistent limit next (keep p rows)
keep-IsConsistent limit next p rows k = record {
  compatible = Pairwise-keep Compatible p rows k.compatible;
  proper = All-keep (IsProper limit next) p rows k.proper;
}

pub All-change {κ} :
    (P : CourseImage → Type κ) (id : ℕ) (f : CourseImage → CourseImage) (rows : List CourseImage)
    → All (λ i. i.id ≡ id → P i → P (f i)) rows
    → All P rows
    → All P (change_image id f rows)
All-change P id f [] h k = tt
All-change P id f (i ∷ rows) h k = elim (Bool-cases (i.id == id)) [
  | inl e ↦ rw e (h.0 (ground (arith, e)) k.0, All-change P id f rows h.1 k.1)
  | inr e ↦ rw e (k.0, All-change P id f rows h.1 k.1)
]

-- What holds for every row holds for those that a change names.
pub every_row {κ} :
    {P : CourseImage → Type κ} → ((i : CourseImage) → P i) → (rows : List CourseImage) → All P rows
every_row h [] = tt
every_row h (i ∷ rows) = (h i, every_row h rows)

-- A change of one row, if it is tame wherever it is made.
pub with_change-IsTame :
    (id : ℕ) (f : CourseImage → CourseImage) → IsTame f → IsTame (with_change id f)
with_change-IsTame id f t = record {
  same_id = λ i. elim (Bool-cases (i.id == id)) [ inl e ↦ rw e (t.same_id i) | inr e ↦ rw e refl ];
  same_seat =
      λ i. elim (Bool-cases (i.id == id)) [ inl e ↦ rw e (t.same_seat i) | inr e ↦ rw e refl ];
  no_hero = λ i h. elim (Bool-cases (i.id == id)) [
    | inl e ↦ t.no_hero i (ap (λ b. is_user_hero (if b then f i else i)) (sym e) ∙ h)
    | inr e ↦ ap (λ b. is_user_hero (if b then f i else i)) (sym e) ∙ h
  ];
}

-- A change of one row that is tame, and proper where it is made.
pub change-IsConsistent :
    (limit next id : ℕ) (f : CourseImage → CourseImage) (rows : List CourseImage)
    → IsTame f
    → All (λ i. i.id ≡ id → IsProper limit next i → IsProper limit next (f i)) rows
    → IsConsistent limit next rows
    → IsConsistent limit next (change_image id f rows)
change-IsConsistent limit next id f rows t h k = record {
  compatible = map-Compatible (with_change id f) rows (with_change-IsTame id f t) k.compatible;
  proper = All-change (IsProper limit next) id f rows h k.proper;
}

-- What the lock finds is one of the rows.
pub lock_image-in {κ} :
    (P : CourseImage → Type κ) (id : ℕ) (rows : List CourseImage) (i : CourseImage)
    → lock_image id rows ≡ some i
    → All P rows
    → P i
unfolding lock_image
lock_image-in P id [] i h k = absurd cc
lock_image-in P id (j ∷ rows) i h k = elim (Bool-cases (is_user_image id j)) [
  | inl e ↦ subst P (head e) k.0
  | inr e ↦ lock_image-in P id rows i (tail e) k.1
]
  where
    head : is_user_image id j ≡ true → j ≡ i
    head e = cc

    tail : is_user_image id j ≡ false → lock_image id rows ≡ some i
    tail e = sym (ap (λ b. if b then some j else lock_image id rows) e) ∙ h

-- Every row with the id of what the lock finds is that row.
pub lock_image-only {κ} :
    (P : CourseImage → Type κ) (id : ℕ) (rows : List CourseImage) (i : CourseImage)
    → lock_image id rows ≡ some i
    → Pairwise Compatible rows
    → P i
    → All (λ j. j.id ≡ i.id → P j) rows
unfolding lock_image
lock_image-only P id [] i h c p = tt
lock_image-only P id (j ∷ rows) i h c p = elim (Bool-cases (is_user_image id j)) [
  | inl e ↦ (
    (λ q. subst P (sym (head e)) p),
    All-map (λ k d q. absurd (d.apart (ap (λ x. x.id) (head e) ∙ sym q))) rows c.0,
  )
  | inr e ↦ (
    (λ q. absurd ((lock_image-in (λ k. Compatible j k) id rows i (tail e) c.0).apart q)),
    lock_image-only P id rows i (tail e) c.1 p,
  )
]
  where
    head : is_user_image id j ≡ true → j ≡ i
    head e = cc

    tail : is_user_image id j ≡ false → lock_image id rows ≡ some i
    tail e = sym (ap (λ b. if b then some j else lock_image id rows) e) ∙ h
