-- ===== src/Domain/Courses/Fetched.antt =====
-- The rows that the queries of `require_courses` find, and the ids that they map to.
use text.Mathlib.TextEquality.{eq_iff}
use golf_rank.Base.{
  ℕ, ◌≡◌, refl, ap, subst, ◌∙◌, inl, inr, String, Bool, true, false, ◌&&◌, Option, none, some, List,
  [], ◌∷◌, ◌++◌, arith, ◌==◌, if◌then◌else◌, keep, any, All, Bool-cases, Result, ok, err,
}
use golf_rank.Domain.Course.{Course, Reconciliation, get_course, reconciles, canonical_id}
use golf_rank.Domain.Courses.{
  among, fetch, same_source, has_source, names, or_else, mapped_id, canonical_for, cons_some,
  canonical_ids, is_found,
}

pub get_course-fetch :
    (id : ℕ) (ids : List ℕ) (courses : List Course)
    → get_course id (fetch ids courses) ≡ (if among ids id then get_course id courses else none)
unfolding get_course
get_course-fetch id ids [] = elim (Bool-cases (among ids id)) [
  | inl e ↦ rw e refl
  | inr e ↦ rw e refl
]
get_course-fetch id ids (c ∷ courses) =
    let below = get_course-fetch id ids courses in
    elim (Bool-cases (c.id == id)) [
      | inl e ↦
          let same : among ids c.id ≡ among ids id = ap (among ids) (ground (arith, e)) in
          elim (Bool-cases (among ids id)) [
            | inl k ↦ rw (same, k) (rw e refl)
            | inr k ↦ rw (same, k) (below ∙ rw k refl)
          ]
      | inr e ↦ elim (Bool-cases (among ids c.id)) [
        | inl k ↦ rw k (rw e below)
        | inr k ↦ rw (k, e) below
      ]
    ]

pub get_course-append :
    (id : ℕ) (xs ys : List Course)
    → get_course id (xs ++ ys) ≡ or_else (get_course id xs) (get_course id ys)
unfolding get_course
get_course-append id [] ys = refl
get_course-append id (c ∷ xs) ys = ground (arith, get_course-append id xs ys)

-- The unique constraint on the pair of a source and its id.
abbrev pub UniqueSources : List Reconciliation → Type 0
UniqueSources [] = Unit {0}
UniqueSources (r ∷ rows) =
    All (λ q. same_source r.source r.source_course_id q ≡ false) rows × UniqueSources rows

mapped_id-none :
    (s k : String) (p : Reconciliation → Bool) (rows : List Reconciliation)
    → All (λ q. same_source s k q ≡ false) rows
    → mapped_id s k (keep p rows) ≡ none
unfolding mapped_id
mapped_id-none s k p [] h = refl
mapped_id-none s k p (r ∷ rows) h = elim (Bool-cases (p r)) [
  | inl e ↦ rw (e, mapped_id-none s k p rows h.1, h.0) refl
  | inr e ↦ rw e (mapped_id-none s k p rows h.1)
]

or_else-none {ℓ} : {A : Type ℓ} (o : Option A) → or_else o none ≡ o
or_else-none none = refl
or_else-none (some a) = refl

same_source-eq :
    (s k : String) (r : Reconciliation)
    → same_source s k r ≡ true
    → (r.source ≡ s) × (r.source_course_id ≡ k)
same_source-eq s k r h =
    ((eq_iff r.source s).0 (ground (arith, h)), (eq_iff r.source_course_id k).0 (ground (arith, h)))

-- Among unique rows the map holds what the single query answers.
pub mapped_id-recon :
    (s k : String) (w : Reconciliation → Bool) (rows : List Reconciliation)
    → ((r : Reconciliation) → same_source s k r ≡ true → w r ≡ true)
    → UniqueSources rows
    → mapped_id s k (keep (λ r. r.is_confirmed && w r) rows) ≡ canonical_id s k rows
unfolding mapped_id canonical_id
mapped_id-recon s k w [] h u = refl
mapped_id-recon s k w (r ∷ rows) h u =
    let below = mapped_id-recon s k w rows h u.1 in
    elim (Bool-cases (same_source s k r)) [
      | inl e ↦ elim (Bool-cases r.is_confirmed) [
        | inl c ↦
            let (es, ek) = same_source-eq s k r e in
            let none_later =
              mapped_id-none s k (λ q. q.is_confirmed && w q) rows
                (subst (λ x. All (λ q. same_source x k q ≡ false) rows) es
                  (subst (λ y. All (λ q. same_source r.source y q ≡ false) rows) ek u.0)) in
            rw (kept c (h r e), none_later, e, reconciled r e c) refl
        | inr c ↦ rw (dropped c, unconfirmed r c) below
      ]
      | inr e ↦ elim (Bool-cases (r.is_confirmed && w r)) [
        | inl p ↦ rw (p, e, other_key r e) (or_else-none _ ∙ below)
        | inr p ↦ rw (p, other_key r e) below
      ]
    ]
  where
    kept : r.is_confirmed ≡ true → w r ≡ true → (r.is_confirmed && w r) ≡ true
    kept c k = ground (arith, c, k)

    dropped : r.is_confirmed ≡ false → (r.is_confirmed && w r) ≡ false
    dropped c = ground (arith, c)

    reconciled :
        (r : Reconciliation)
        → same_source s k r ≡ true
        → r.is_confirmed ≡ true
        → reconciles s k r ≡ true
    reconciled r e c = ground (arith, e, c)

    unconfirmed : (r : Reconciliation) → r.is_confirmed ≡ false → reconciles s k r ≡ false
    unconfirmed r c = ground (arith, c)

    other_key : (r : Reconciliation) → same_source s k r ≡ false → reconciles s k r ≡ false
    other_key r e = ground (arith, e)

-- A fetched course with a source identity is among those that need a lookup.
pub named :
    (c : Course) (id : ℕ) (courses : List Course) (k : String) (r : Reconciliation)
    → get_course id courses ≡ some c
    → c.source_course_id ≡ some k
    → same_source c.source k r ≡ true
    → any
        (λ x. names x.source x.source_course_id r)
        (keep (λ x. has_source x.source_course_id) courses)
      ≡ true
unfolding get_course
named c id [] k r g e h = absurd (cc g)
named c id (x ∷ courses) k r g e h = elim (Bool-cases (x.id == id)) [
  | inl i ↦
      subst
        (λ z.
          any (λ y. names y.source y.source_course_id r)
            (keep (λ y. has_source y.source_course_id) (z ∷ courses))
          ≡ true)
        (found i) (rw e (rw h refl))
  | inr i ↦
      let below = named c id courses k r (further i) e h in
      elim (Bool-cases (has_source x.source_course_id)) [
        | inl t ↦ rw t (elim (Bool-cases (names x.source x.source_course_id r)) [
          | inl n ↦ rw n refl
          | inr n ↦ rw n below
        ])
        | inr t ↦ rw t below
      ]
]
  where
    found : (x.id == id) ≡ true → c ≡ x
    found i = ground (arith, i, g)

    further : (x.id == id) ≡ false → get_course id courses ≡ some c
    further i = ground (arith, i, g)

-- A canonical id of a fetched course is collected.
pub collected :
    (rows : List Reconciliation) (c : Course) (id i : ℕ) (courses : List Course)
    → get_course id courses ≡ some c
    → canonical_for rows c c.source_course_id ≡ some i
    → among (canonical_ids rows courses) i ≡ true
unfolding get_course canonical_ids
collected rows c id i [] g f = absurd (cc g)
collected rows c id i (x ∷ courses) g f = elim (Bool-cases (x.id == id)) [
  | inl e ↦
      subst
        (λ z.
          among (cons_some (canonical_for rows z z.source_course_id) (canonical_ids rows courses)) i
          ≡ true)
        (found e) (rw f (ground arith))
  | inr e ↦
      among-cons_some (canonical_for rows x x.source_course_id)
        (collected rows c id i courses (further e) f)
]
  where
    found : (x.id == id) ≡ true → c ≡ x
    found e = ground (arith, e, g)

    further : (x.id == id) ≡ false → get_course id courses ≡ some c
    further e = ground (arith, e, g)

    among-cons_some :
        (o : Option ℕ)
        → among (canonical_ids rows courses) i ≡ true
        → among (cons_some o (canonical_ids rows courses)) i ≡ true
    among-cons_some none h = h
    among-cons_some (some j) h = ground (arith, h)

pub among-keep :
    (p : ℕ → Bool) (i : ℕ) (ids : List ℕ)
    → p i ≡ true
    → among ids i ≡ true
    → among (keep p ids) i ≡ true
among-keep p i [] h k = k
among-keep p i (j ∷ ids) h k = elim (Bool-cases (j == i)) [
  | inl e ↦ subst (λ z. among (keep p (z ∷ ids)) i ≡ true) (same e) (rw h (ground arith))
  | inr e ↦ elim (Bool-cases (p j)) [
    | inl t ↦ rw (t, e) (among-keep p i ids h (ground (arith, k, e)))
    | inr t ↦ rw t (among-keep p i ids h (ground (arith, k, e)))
  ]
]
  where
    same : (j == i) ≡ true → i ≡ j
    same e = ground (arith, e)

-- The foreign key of the canonical course.
abbrev pub HasCanonicals : List Course → List Reconciliation → Type 0
HasCanonicals courses rows =
    All (λ r. is_found (get_course r.canonical_course_id courses) ≡ true) rows

pub canonical_found :
    (courses : List Course) (s k : String) (i : ℕ) (rows : List Reconciliation)
    → HasCanonicals courses rows
    → canonical_id s k rows ≡ some i
    → (d : Course) × (get_course i courses ≡ some d)
unfolding canonical_id
canonical_found courses s k i [] h e = absurd (cc e)
canonical_found courses s k i (r ∷ rows) h e = elim (Bool-cases (reconciles s k r)) [
  | inl t ↦
      there (get_course i courses)
        (subst (λ x. is_found (get_course x courses) ≡ true) (ground (arith, t, e)) h.0)
  | inr t ↦ canonical_found courses s k i rows h.1 (ground (arith, t, e))
]
  where
    there : (o : Option Course) → is_found o ≡ true → (d : Course) × (o ≡ some d)
    there none h = absurd (cc h)
    there (some d) h = (d, refl)

abbrev pub to_option : Result Course → Option Course
to_option (ok c) = some c
to_option (err e) = none
