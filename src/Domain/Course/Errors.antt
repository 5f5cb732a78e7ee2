-- ===== src/Domain/Course/Errors.antt =====
-- The errors of `require_course`.
use golf_rank.Base.{
  ℕ, ◌≡◌, sym, ap, ◌∙◌, inl, inr, String, Option, none, some, ◌==◌, Bool-cases, HttpException,
  Result, ok, err, err≢ok, ◌>>=◌,
}
use golf_rank.Domain.Course.{
  Course, Catalog, get_course, canonical_of, canonical_course, or_missing, require_course,
}

-- The status of an error.
abbrev pub status_of {ℓ} : {A : Type ℓ} → Result A → ℕ
status_of (ok a) = 200
status_of (err e) = e.status

pub err_status {ℓ} :
    {A : Type ℓ} (r : Result A) (e : HttpException) (n : ℕ)
    → r ≡ err e
    → status_of r ≡ n
    → e.status ≡ n
err_status r e n h k = ap status_of (sym h) ∙ k

missing_status {ℓ} :
    {A : Type ℓ} (o : Option A) (e : HttpException) → or_missing o ≡ err e → e.status ≡ 404
missing_status none e h = sym (ap status_of h)
missing_status (some a) e h = absurd (err≢ok e a (sym h))

course_status :
    (db : Catalog) (course : Course) (id : Option ℕ) (e : HttpException)
    → canonical_course db course id ≡ err e
    → e.status ≡ 404
course_status db course none e = λ h. absurd (err≢ok e course (sym h))
course_status db course (some id) e = elim (Bool-cases (id == course.id)) [
  | inl k ↦ rw k (λ h. absurd (err≢ok e course (sym h)))
  | inr k ↦ rw k (missing_status (get_course id db.courses) e)
]

canonical_status :
    (db : Catalog) (course : Course) (source : Option String) (e : HttpException)
    → canonical_of db course source ≡ err e
    → e.status ≡ 404
canonical_status db course none e h = absurd (err≢ok e course (sym h))
canonical_status db course (some s) e h = course_status db course _ e h

found_status :
    (db : Catalog) (found : Option Course) (e : HttpException)
    → (or_missing found >>= λ course. canonical_of db course course.source_course_id) ≡ err e
    → e.status ≡ 404
found_status db none e h = sym (ap status_of h)
found_status db (some c) e h = canonical_status db c c.source_course_id e h

pub require_course_status :
    (db : Catalog) (id : ℕ) (e : HttpException) → require_course db id ≡ err e → e.status ≡ 404
unfolding require_course
require_course_status db id e h = found_status db (get_course id db.courses) e h
