-- ===== src/Domain/Courses/Agree.antt =====
-- `require_courses` beside `require_course`.
use golf_rank.Base.{
  ℕ, ◌≡◌, refl, sym, ◌∙◌, inl, inr, String, true, false, not, Option, none, some, List, ◌++◌, arith,
  ◌==◌, if◌then◌else◌, Bool-cases, Option-cases,
}
use golf_rank.Domain.Course.{
  Course, Reconciliation, Catalog, get_course, canonical_id, canonical_of, require_course,
}
use golf_rank.Domain.Courses.{
  among, fetch, recon_rows, mapped_id, canonical_for, canonical_ids, is_found, missing_ids,
  canonical_or, require_courses,
}
use golf_rank.Domain.Courses.Fetched.{
  get_course-fetch, get_course-append, UniqueSources, mapped_id-recon, named, collected, among-keep,
  HasCanonicals, canonical_found, to_option,
}

module _ (db : Catalog) (ids : List ℕ) (u : UniqueSources db.reconciliations)
    (f : HasCanonicals db.courses db.reconciliations) where
  abbrev fetched : List Course
  fetched = fetch ids db.courses

  abbrev rows : List Reconciliation
  rows = recon_rows fetched db.reconciliations

  abbrev all : List Course
  all = fetched ++ fetch (missing_ids rows fetched) db.courses

  in_fetched :
      (id : ℕ) (o : Option Course)
      → among ids id ≡ true
      → get_course id db.courses ≡ o
      → get_course id fetched ≡ o
  in_fetched id o h g = get_course-fetch id ids db.courses ∙ rw h g

  in_all :
      (id : ℕ) (o : Option Course)
      → among ids id ≡ true
      → get_course id db.courses ≡ o
      → get_course id all ≡ o
  in_all id none h g =
      get_course-append id fetched _
      ∙ rw (in_fetched id none h g) (
          get_course-fetch id (missing_ids rows fetched) db.courses
          ∙ elim (Bool-cases (among (missing_ids rows fetched) id)) [
            | inl k ↦ rw k g
            | inr k ↦ rw k refl
          ])
  in_all id (some c) h g = get_course-append id fetched _ ∙ rw (in_fetched id (some c) h g) refl

  -- The canonical course of a fetched course is in the table, from either query.
  canonical_in_all :
      (id i : ℕ) (c d : Course)
      → get_course id fetched ≡ some c
      → canonical_for rows c c.source_course_id ≡ some i
      → get_course i db.courses ≡ some d
      → get_course i all ≡ some d
  canonical_in_all id i c d g k e = elim (Option-cases (get_course i fetched)) [
    | inl n ↦
        let need =
          among-keep (λ j. not (is_found (get_course j fetched))) i (canonical_ids rows fetched)
            (rw n refl) (collected rows c id i fetched g k) in
        get_course-append i fetched _
        ∙ rw n (get_course-fetch i (missing_ids rows fetched) db.courses ∙ rw need e)
    | inr (x, n) ↦ elim (Bool-cases (among ids i)) [
      | inl m ↦ in_all i (some d) m e
      | inr m ↦ absurd (absent (sym (get_course-fetch i ids db.courses) ∙ n) m)
    ]
  ]
    where
      absent :
          {x : Course}
          → (if among ids i then get_course i db.courses else none) ≡ some x
          → among ids i ≡ false
          → ⊥
      absent h m = ground (arith, h, m)

  resolved :
      (id : ℕ) (c : Course) (source : Option String)
      → get_course id fetched ≡ some c
      → c.source_course_id ≡ source
      → some (canonical_or all c (canonical_for rows c c.source_course_id))
        ≡ to_option (canonical_of db c c.source_course_id)
  unfolding recon_rows
  resolved id c none g e = rw e refl
  resolved id c (some k) g e = elim (Option-cases (canonical_id c.source k db.reconciliations)) [
    | inl n ↦ rw (e, looked_up, n) refl
    | inr (i, n) ↦ elim (Bool-cases (i == c.id)) [
      | inl own ↦ rw (e, looked_up, n, own) refl
      | inr other ↦
          let (d, there) = canonical_found db.courses c.source k i db.reconciliations f n in
          let both = canonical_in_all id i c d g (rw (e, looked_up, n, other) refl) there in
          rw (e, looked_up, n, other, both, there) refl
    ]
  ]
    where
      looked_up : mapped_id c.source k rows ≡ canonical_id c.source k db.reconciliations
      looked_up =
          mapped_id-recon c.source k _ db.reconciliations (λ r h. named c id fetched k r g e h) u

  -- If a source and its id name one reconciliation at most and the canonical courses exist,
  -- resolving many ids at once finds for each of them the course that `require_course` finds, and
  -- nothing where that raises.
  pub require_courses_lem :
      (id : ℕ) → among ids id ≡ true → require_courses db ids id ≡ to_option (require_course db id)
  unfolding require_courses require_course
  require_courses_lem id h = elim (Option-cases (get_course id db.courses)) [
    | inl n ↦ rw (h, in_all id none h n, n) refl
    | inr (c, n) ↦
        rw (h, in_all id (some c) h n, n)
          (resolved id c c.source_course_id (in_fetched id (some c) h n) refl)
  ]
