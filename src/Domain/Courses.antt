-- ===== src/Domain/Courses.antt =====
-- `require_courses` of domain.py: many course ids resolved in a fixed number of queries. A table that
-- the code keys by a primary key is the list of its rows.
pub mod Fetched
pub mod Agree
use text.Mathlib.Text.{◌==◌ as str_eq}
use golf_rank.Base.{
  ℕ, String, Bool, true, false, not, ◌&&◌, Option, none, some, List, [], ◌∷◌, ◌++◌, ◌==◌,
  if◌then◌else◌, keep, any,
}
use golf_rank.Domain.Course.{Course, Reconciliation, Catalog, get_course}

abbrev pub among : List ℕ → ℕ → Bool
among ids x = any (λ i. i == x) ids

-- `select(Course).where(Course.id.in_(ids))`
abbrev pub fetch : List ℕ → List Course → List Course
fetch ids courses = keep (λ c. among ids c.id) courses

abbrev pub same_source : String → String → Reconciliation → Bool
same_source source source_course_id r =
    str_eq r.source source && str_eq r.source_course_id source_course_id

abbrev pub has_source : Option String → Bool
has_source none = false
has_source (some source_course_id) = true

-- The pair of a course that has a source identity is the pair of the reconciliation.
abbrev pub names : String → Option String → Reconciliation → Bool
names source none r = false
names source (some source_course_id) r = same_source source source_course_id r

-- `recon_rows`: the confirmed rows of the courses that need a lookup.
abbrev pub wanted : List Course → Reconciliation → Bool
wanted courses r = r.is_confirmed && any (λ c. names c.source c.source_course_id r) courses

unfoldable pub recon_rows : List Course → List Reconciliation → List Reconciliation
recon_rows courses rows = keep (wanted (keep (λ c. has_source c.source_course_id) courses)) rows

abbrev pub or_else {ℓ} : {A : Type ℓ} → Option A → Option A → Option A
or_else none b = b
or_else (some a) b = some a

-- `recon_map.get((source, source_course_id))`: of equal keys the last one stays.
unfoldable pub mapped_id : String → String → List Reconciliation → Option ℕ
mapped_id source source_course_id [] = none
mapped_id source source_course_id (r ∷ rows) =
    or_else (mapped_id source source_course_id rows)
      (if same_source source source_course_id r then some r.canonical_course_id else none)

abbrev pub other_id : ℕ → Option ℕ → Option ℕ
other_id own none = none
other_id own (some id) = if id == own then none else some id

-- `canonical_id_by_course_id.get(course.id)`
abbrev pub canonical_for : List Reconciliation → Course → Option String → Option ℕ
canonical_for rows c none = none
canonical_for rows c (some source_course_id) =
    other_id c.id (mapped_id c.source source_course_id rows)

abbrev pub cons_some : Option ℕ → List ℕ → List ℕ
cons_some none ids = ids
cons_some (some id) ids = id ∷ ids

unfoldable pub canonical_ids : List Reconciliation → List Course → List ℕ
canonical_ids rows [] = []
canonical_ids rows (c ∷ courses) =
    cons_some (canonical_for rows c c.source_course_id) (canonical_ids rows courses)

abbrev pub is_found : Option Course → Bool
is_found none = false
is_found (some c) = true

-- `missing_canonical_ids`
abbrev pub missing_ids : List Reconciliation → List Course → List ℕ
missing_ids rows courses =
    keep (λ i. not (is_found (get_course i courses))) (canonical_ids rows courses)

-- `canonical if canonical is not None else course`
abbrev pub or_own : Course → Option Course → Course
or_own c none = c
or_own c (some canonical) = canonical

abbrev pub canonical_or : List Course → Course → Option ℕ → Course
canonical_or courses c none = c
canonical_or courses c (some id) = or_own c (get_course id courses)

-- One item of the result.
abbrev pub result_of : List Course → List Reconciliation → Option Course → Option Course
result_of courses rows none = none
result_of courses rows (some c) =
    some (canonical_or courses c (canonical_for rows c c.source_course_id))

unfoldable pub require_courses : Catalog → List ℕ → ℕ → Option Course
require_courses db ids id =
    let fetched = fetch ids db.courses in
    let rows = recon_rows fetched db.reconciliations in
    let all = fetched ++ fetch (missing_ids rows fetched) db.courses in
    if among ids id then result_of all rows (get_course id all) else none
