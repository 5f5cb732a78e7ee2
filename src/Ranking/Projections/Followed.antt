-- ===== src/Ranking/Projections/Followed.antt =====
-- What the projections are after a snapshot.
use golf_rank.Base.{
  ℕ, ◌≡◌, refl, sym, ap, subst, ◌∙◌, inl, inr, true, Option, none, some, List, [], ◌∷◌, arith, ◌==◌,
  if◌then◌else◌, Bool-cases, Option-cases,
}
use golf_rank.Ranking.Snapshot.{Entry, Projection, entry_of, projection_of}
use golf_rank.Ranking.Projections.{
  RatingRound, is_listed, delete_orphans, projected, save_projection, save_if, projection_for,
  write_entries, sync_projections, latest_round,
}
use golf_rank.Ranking.Projections.Latest.{
  followed, Follows, IsFollowed, LatestOf, latest_round-LatestOf,
}

abbrev pub DistinctCourses : List Entry → Type 0
DistinctCourses [] = Unit {0}
DistinctCourses (e ∷ entries) = (entry_of e.course_id entries ≡ none) × DistinctCourses entries

projection_of-save_projection :
    (c : ℕ) (p : Projection) (ps : List Projection)
    → projection_of c (save_projection p ps)
      ≡ (if p.rated_course == c then some p else projection_of c ps)
unfolding projection_of save_projection
projection_of-save_projection c p [] = refl
projection_of-save_projection c p (q ∷ ps) = ground (arith, projection_of-save_projection c p ps)

projection_of-delete_orphans :
    (c : ℕ) (entries : List Entry) (ps : List Projection)
    → projection_of c (delete_orphans entries ps)
      ≡ (if is_listed (entry_of c entries) then projection_of c ps else none)
unfolding projection_of delete_orphans
projection_of-delete_orphans c entries [] = elim (Bool-cases (is_listed (entry_of c entries))) [
  | inl e ↦ rw e refl
  | inr e ↦ rw e refl
]
projection_of-delete_orphans c entries (p ∷ ps) =
    let below = projection_of-delete_orphans c entries ps in
    elim (Bool-cases (p.rated_course == c)) [
      | inl e ↦
          let same : entry_of p.rated_course entries ≡ entry_of c entries =
            ap (λ x. entry_of x entries) (ground (arith, e)) in
          rw (same, e)
            (elim (Bool-cases (is_listed (entry_of c entries))) [
              | inl k ↦ rw k (rw e refl)
              | inr k ↦ rw k (below ∙ rw k refl)
            ])
      | inr e ↦ elim (Bool-cases (is_listed (entry_of p.rated_course entries))) [
        | inl k ↦ rw k (rw e below)
        | inr k ↦ rw (k, e) below
      ]
    ]

-- What the projection of a course is to be, given its entry.
abbrev pub expected : ℕ → List RatingRound → List Projection → Option Entry → Option Projection
expected user rounds old none = none
expected user rounds old (some e) = projection_for user rounds old e

projection_of-course :
    (c : ℕ) (ps : List Projection) (p : Projection)
    → projection_of c ps ≡ some p
    → p.rated_course ≡ c
unfolding projection_of
projection_of-course c [] p h = absurd (cc h)
projection_of-course c (q ∷ ps) p h = elim (Bool-cases (q.rated_course == c)) [
  | inl e ↦ ground (arith, h, e)
  | inr e ↦ projection_of-course c ps p (ground (arith, h, e))
]

entry_of-course :
    (c : ℕ) (entries : List Entry) (e : Entry) → entry_of c entries ≡ some e → e.course_id ≡ c
unfolding entry_of
entry_of-course c [] e h = absurd (cc h)
entry_of-course c (q ∷ entries) e h = elim (Bool-cases (q.course_id == c)) [
  | inl k ↦ ground (arith, h, k)
  | inr k ↦ entry_of-course c entries e (ground (arith, h, k))
]

abbrev override : Option Projection → Option Projection → Option Projection
override none before = before
override (some p) before = some p

module _ (user : ℕ) (rounds : List RatingRound) (old : List Projection) where
  -- A projection made for an entry stands under the course of the entry.
  of_course :
      (c : ℕ) (op : Option Projection)
      → ((p : Projection) → op ≡ some p → p.rated_course ≡ c)
      → (d : ℕ) (ps : List Projection)
      → projection_of d (save_if op ps)
        ≡ (if c == d then override op (projection_of d ps) else projection_of d ps)
  of_course c none h d ps = ground arith
  of_course c (some p) h d ps = projection_of-save_projection d p ps ∙ rw (h p refl) refl

  projected-course :
      (e : Entry) (found : Option Projection) (round : Option RatingRound)
      → projection_of e.course_id old ≡ found
      → (p : Projection) → projected e found round ≡ some p
      → p.rated_course ≡ e.course_id
  projected-course e none none f p h = absurd (cc h)
  projected-course e none (some r) f p h = cc
  projected-course e (some q) round f p h = let k = projection_of-course e.course_id old q f in cc

  -- What writing the entries leaves under a course.
  abbrev written : Option Entry → Option Projection → Option Projection
  written none before = before
  written (some e) before = override (projection_for user rounds old e) before

  write_entries_lem :
      (c : ℕ) (entries : List Entry) (ps : List Projection)
      → DistinctCourses entries
      → projection_of c (write_entries user rounds old entries ps)
        ≡ written (entry_of c entries) (projection_of c ps)
  unfolding write_entries entry_of
  write_entries_lem c [] ps d = refl
  write_entries_lem c (e ∷ entries) ps d =
      write_entries_lem c entries _ d.1
      ∙ ap (written (entry_of c entries)) (
          of_course e.course_id (projection_for user rounds old e) (projected-course e _ _ refl) c
            ps)
      ∙ elim (Bool-cases (e.course_id == c)) [
        | inl k ↦ rw (k, ap (λ x. entry_of x entries) (sym (the_course k)) ∙ d.0) refl
        | inr k ↦ rw k refl
      ]
    where
      the_course : (e.course_id == c) ≡ true → e.course_id ≡ c
      the_course k = ground (arith, k)

  kept :
      (e : Entry) (found : Option Projection) (round : Option RatingRound)
      → override (projected e found round) found ≡ projected e found round
  kept e none none = refl
  kept e none (some r) = refl
  kept e (some q) round = refl

  written_lem :
      (c : ℕ) (entries : List Entry)
      → DistinctCourses entries
      → projection_of c (sync_projections user rounds old entries)
        ≡ expected user rounds old (entry_of c entries)
  unfolding sync_projections
  written_lem c entries d =
      write_entries_lem c entries (delete_orphans entries old) d
      ∙ ap (written (entry_of c entries)) (projection_of-delete_orphans c entries old)
      ∙ elim (Option-cases (entry_of c entries)) [
        | inl n ↦ rw n refl
        | inr (e, k) ↦ rw k (
            subst
              (λ x.
                override (projection_for user rounds old e) (projection_of x old)
                ≡ projection_for user rounds old e)
              (entry_of-course c entries e k) (kept e _ _))
      ]

  followed_lem :
      (e : Entry) (found : Option Projection) (round : Option RatingRound)
      → projection_of e.course_id old ≡ found
      → LatestOf user e.course_id rounds round
      → Follows user rounds e found (projected e found round)
  followed_lem e (some p) round f h =
      ap (λ c. some (record (followed e p.round_id) { rated_course = c }))
        (projection_of-course e.course_id old p f)
  followed_lem e none none f h = inl (refl, h)
  followed_lem e none (some r) f h = inr (r, h, refl)

  expected-IsFollowed :
      (c : ℕ) (oe : Option Entry)
      → ((e : Entry) → oe ≡ some e → e.course_id ≡ c)
      → IsFollowed user rounds old c oe (expected user rounds old oe)
  expected-IsFollowed c none h = refl
  expected-IsFollowed c (some e) h = (
    h e refl,
    subst (λ x. Follows user rounds e (projection_of x old) (projection_for user rounds old e))
        (h e refl)
        (followed_lem e (projection_of e.course_id old) (latest_round user e.course_id rounds) refl
          (latest_round-LatestOf user e.course_id rounds)),
  )

  -- If no two entries have one course, then afterwards a course without an entry has no projection,
  -- and a course with an entry has this one: its old projection with the tier, the rating and the
  -- confidence of the entry; or, if it had none, a new one with these for the latest of the user's
  -- rating rounds on the course, by the time of the update and then the id; or none, if there is no
  -- such round.
  pub sync_projections_lem :
      (c : ℕ) (entries : List Entry)
      → DistinctCourses entries
      → IsFollowed user rounds old c
          (entry_of c entries)
          (projection_of c (sync_projections user rounds old entries))
  sync_projections_lem c entries d =
      subst (IsFollowed user rounds old c (entry_of c entries)) (sym (written_lem c entries d))
        (expected-IsFollowed c (entry_of c entries) (entry_of-course c entries))
