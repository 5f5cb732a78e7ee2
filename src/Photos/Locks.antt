-- ===== src/Photos/Locks.antt =====
-- The lock of one photo before and after a change of a row.
use golf_rank.Base.{
  ℕ, ◌≡◌, refl, sym, ap, ◌∙◌, inl, inr, true, false, some, List, [], ◌∷◌, arith, leb, String, ◌==◌,
  if◌then◌else◌, Bool-cases,
}
use golf_rank.Photos.{CourseImage, is_user_image, lock_image, with_change, change_image}
use golf_rank.Photos.Score.{completed_row}

-- A change that keeps the row under its id.
pub record KeepsRow (f : CourseImage → CourseImage) : Type 0 where
  pub same_id : (i : CourseImage) → (f i).id ≡ i.id
  pub same_source : (i : CourseImage) → (f i).source_type ≡ i.source_type

pub lock_image-id :
    (id : ℕ) (rows : List CourseImage) (i : CourseImage) → lock_image id rows ≡ some i → i.id ≡ id
unfolding lock_image
lock_image-id id [] i h = absurd cc
lock_image-id id (j ∷ rows) i h = elim (Bool-cases (is_user_image id j)) [
  | inl e ↦ ap (λ k. k.id) (sym (head e)) ∙ ground (arith, e)
  | inr e ↦ lock_image-id id rows i (tail e)
]
  where
    head : is_user_image id j ≡ true → j ≡ i
    head e = cc

    tail : is_user_image id j ≡ false → lock_image id rows ≡ some i
    tail e = sym (ap (λ b. if b then some j else lock_image id rows) e) ∙ h

-- A change is what a lock finds afterwards.
pub lock_image-change :
    (id key : ℕ) (f : CourseImage → CourseImage) (rows : List CourseImage) (i : CourseImage)
    → KeepsRow f
    → lock_image id rows ≡ some i
    → lock_image id (change_image key f rows) ≡ some (with_change key f i)
unfolding lock_image
lock_image-change id key f [] i t h = absurd cc
lock_image-change id key f (j ∷ rows) i t h = elim (Bool-cases (is_user_image id j)) [
  | inl e ↦ rw (same j ∙ e) (ap (λ k. some (with_change key f k)) (head e))
  | inr e ↦ rw (same j ∙ e) (lock_image-change id key f rows i t (tail e))
]
  where
    same : (j : CourseImage) → is_user_image id (with_change key f j) ≡ is_user_image id j
    same j = elim (Bool-cases (j.id == key)) [
      | inl q ↦ rw q (rw (t.same_id j, t.same_source j) refl)
      | inr q ↦ rw q refl
    ]

    head : is_user_image id j ≡ true → j ≡ i
    head e = cc

    tail : is_user_image id j ≡ false → lock_image id rows ≡ some i
    tail e = sym (ap (λ b. if b then some j else lock_image id rows) e) ∙ h

-- A change of the row that another lock found leaves this one.
pub lock_image-other :
    (id key : ℕ) (f : CourseImage → CourseImage) (rows : List CourseImage) (i j : CourseImage)
    → KeepsRow f
    → lock_image id rows ≡ some i
    → lock_image key rows ≡ some j
    → (i ≡ j → ⊥)
    → lock_image id (change_image j.id f rows) ≡ some i
lock_image-other id key f rows i j t l m differ =
    lock_image-change id j.id f rows i t l ∙ elim (Bool-cases (i.id == j.id)) [
      | inl e ↦ absurd (differ (found (ground (arith, e))))
      | inr e ↦ ap (λ b. some (if b then f i else i)) e
    ]
  where
    some-inj : (x y : CourseImage) → some x ≡ some y → x ≡ y
    some-inj x y h = cc

    found : i.id ≡ j.id → i ≡ j
    found e = some-inj i j (
        sym l
        ∙ (ap (λ x. lock_image x rows)
              (sym (lock_image-id id rows i l) ∙ (e ∙ lock_image-id key rows j m))
            ∙ m))

pub completed-KeepsRow :
    (threshold now score : ℕ) (reasons : List String)
    → KeepsRow (completed_row threshold now score reasons)
unfolding completed_row
completed-KeepsRow threshold now score reasons = record {
  same_id = λ i. elim (Bool-cases (leb threshold score)) [ inl e ↦ rw e refl | inr e ↦ rw e refl ];
  same_source =
      λ i. elim (Bool-cases (leb threshold score)) [ inl e ↦ rw e refl | inr e ↦ rw e refl ];
}
