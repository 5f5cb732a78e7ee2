-- ===== src/Domain/Course.antt =====
-- `require_course` of domain.py: a course id is resolved to the canonical course of its source.
pub mod Errors
use text.Mathlib.Text.{◌==◌ as str_eq}
use golf_rank.Base.{
  ℕ, String, Bool, true, false, ◌&&◌, Option, none, some, List, [], ◌∷◌, ◌==◌, if◌then◌else◌,
  Result, ok, err, raise, ◌>>=◌,
}

pub record Course : Type 0 where
  pub id : ℕ
  pub source : String
  pub source_course_id : Option String

-- A row of `course_reconciliations`.
pub record Reconciliation : Type 0 where
  pub source : String
  pub source_course_id : String
  pub canonical_course_id : ℕ
  -- `match_status == "confirmed"`
  pub is_confirmed : Bool

pub record Catalog : Type 0 where
  pub courses : List Course
  pub reconciliations : List Reconciliation

-- `session.get(Course, id)`
unfoldable pub get_course : ℕ → List Course → Option Course
get_course id [] = none
get_course id (c ∷ courses) = if c.id == id then some c else get_course id courses

abbrev pub reconciles : String → String → Reconciliation → Bool
reconciles source source_course_id r =
    str_eq r.source source && (str_eq r.source_course_id source_course_id && r.is_confirmed)

unfoldable pub canonical_id : String → String → List Reconciliation → Option ℕ
canonical_id source source_course_id [] = none
canonical_id source source_course_id (r ∷ rows) =
    if reconciles source source_course_id r
    then some r.canonical_course_id
    else canonical_id source source_course_id rows

abbrev pub or_missing {ℓ} : {A : Type ℓ} → Option A → Result A
or_missing none = raise 404 "Course not found"
or_missing (some a) = ok a

-- The canonical row that a confirmed reconciliation names, or the course itself.
abbrev pub canonical_course : Catalog → Course → Option ℕ → Result Course
canonical_course db course none = ok course
canonical_course db course (some id) =
    if id == course.id then ok course else or_missing (get_course id db.courses)

abbrev pub canonical_of : Catalog → Course → Option String → Result Course
canonical_of db course none = ok course
canonical_of db course (some source_course_id) =
    canonical_course db course (canonical_id course.source source_course_id db.reconciliations)

unfoldable pub require_course : Catalog → ℕ → Result Course
require_course db id = do
  course ← or_missing (get_course id db.courses)
  canonical_of db course course.source_course_id
