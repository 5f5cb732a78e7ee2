-- ===== src/Ranking/Projections/Latest.antt =====
-- The latest rating round of a user on a course, and what a projection is to be after a snapshot.
use golf_rank.Base.{
  ℕ, ◌≡◌, ◌≤◌, ◌<◌, ◌⊎◌, inl, inr, refl, true, false, ◌&&◌, Option, none, some, List, [], ◌∷◌,
  arith, ◌==◌, ltb, Bool-cases, All, All-map,
}
use golf_rank.Ranking.Snapshot.{Entry, Projection, projection_of}
use golf_rank.Ranking.Projections.{RatingRound, is_later, later_of, latest_round}

-- A rating round of the user on the course.
abbrev pub IsRating : ℕ → ℕ → RatingRound → Type 0
IsRating user course r = (r.user_id ≡ user) × (r.course_id ≡ course) × (r.is_rating_round ≡ true)

abbrev pub IsIn : RatingRound → List RatingRound → Type 0
IsIn r [] = ⊥
IsIn r (q ∷ rounds) = (q ≡ r) ⊎ IsIn r rounds

-- The first time is earlier, or they are the same and the first id is not the greater one.
abbrev pub NotLater : ℕ × ℕ → ℕ × ℕ → Type 0
NotLater (t, i) (u, j) = (t < u) ⊎ ((t ≡ u) × (i ≤ j))

-- `r` is one of the rating rounds, and none of them was updated after it, or at the same time under
-- a greater id.
pub record IsLatest (user course : ℕ) (rounds : List RatingRound) (r : RatingRound) : Type 0 where
  pub there : IsIn r rounds
  pub rating : IsRating user course r
  pub latest :
      All (λ q. IsRating user course q → NotLater (q.updated_at, q.id) (r.updated_at, r.id)) rounds

-- What a projection is to be.
abbrev pub followed : Entry → ℕ → Projection
followed e round_id = record {
  rated_course = e.course_id;
  round_id = round_id;
  rated_tier = e.tier;
  score = e.personal_rating;
  certainty = e.confidence_score;
}

-- An old projection keeps its round, and a new one takes the latest rating round, if there is one.
abbrev pub Follows : ℕ → List RatingRound → Entry → Option Projection → Option Projection → Type 0
Follows user rounds e (some p) after = after ≡ some (followed e p.round_id)
Follows user rounds e none after =
    ((after ≡ none) × All (λ q. IsRating user e.course_id q → ⊥) rounds)
    ⊎ ((r : RatingRound) × IsLatest user e.course_id rounds r × (after ≡ some (followed e r.id)))

abbrev pub IsFollowed :
    ℕ → List RatingRound → List Projection → ℕ → Option Entry → Option Projection → Type 0
IsFollowed user rounds old c none after = after ≡ none
IsFollowed user rounds old c (some e) after =
    (e.course_id ≡ c) × Follows user rounds e (projection_of c old) after

NotLater-trans : (x y z : ℕ × ℕ) → NotLater x y → NotLater y z → NotLater x z
NotLater-trans (t, i) (u, j) (v, k) (inl l) (inl m) = inl (omega (arith, l, m))
NotLater-trans (t, i) (u, j) (v, k) (inl l) (inr m) = inl (omega (arith, l, m.0))
NotLater-trans (t, i) (u, j) (v, k) (inr l) (inl m) = inl (omega (arith, l.0, m))
NotLater-trans (t, i) (u, j) (v, k) (inr l) (inr m) =
    inr (omega (arith, l.0, m.0), omega (arith, l.1, m.1))

later_lem :
    (a b : RatingRound) → is_later a b ≡ true → NotLater (b.updated_at, b.id) (a.updated_at, a.id)
later_lem a b h = elim (Bool-cases (ltb b.updated_at a.updated_at)) [
  | inl e ↦ inl (ground (arith, e))
  | inr e ↦ inr (ground (arith, h, e), ground (arith, h, e))
]

not_later_lem :
    (a b : RatingRound) → is_later a b ≡ false → NotLater (a.updated_at, a.id) (b.updated_at, b.id)
not_later_lem a b h = elim (Bool-cases (ltb a.updated_at b.updated_at)) [
  | inl e ↦ inl (ground (arith, e))
  | inr e ↦ inr (ground (arith, h, e), ground (arith, h, e))
]

module _ (user course : ℕ) where
  abbrev pub LatestOf : List RatingRound → Option RatingRound → Type 0
  LatestOf rounds none = All (λ q. IsRating user course q → ⊥) rounds
  LatestOf rounds (some r) = IsLatest user course rounds r

  chosen :
      (r : RatingRound) (rounds : List RatingRound) (o : Option RatingRound)
      → IsRating user course r
      → LatestOf rounds o
      → LatestOf (r ∷ rounds) (later_of r o)
  chosen r rounds none i h = record {
    there = inl refl;
    rating = i;
    latest = ((λ q. inr (refl, omega arith)), All-map (λ q never is. absurd (never is)) rounds h);
  }
  chosen r rounds (some b) i h = elim (Bool-cases (is_later r b)) [
    | inl e ↦ rw e (record {
      there = inl refl;
      rating = i;
      latest = (
        (λ q. inr (refl, omega arith)),
        All-map (λ q k is. NotLater-trans _ _ _ (k is) (later_lem r b e)) rounds h.latest,
      );
    })
    | inr e ↦ rw e (record {
      there = inr h.there;
      rating = h.rating;
      latest = ((λ q. not_later_lem r b e), h.latest);
    })
  ]

  passed :
      (r : RatingRound) (rounds : List RatingRound) (o : Option RatingRound)
      → (IsRating user course r → ⊥)
      → LatestOf rounds o
      → LatestOf (r ∷ rounds) o
  passed r rounds none never h = (never, h)
  passed r rounds (some b) never h = record {
    there = inr h.there;
    rating = h.rating;
    latest = ((λ q. absurd (never q)), h.latest);
  }

  pub latest_round-LatestOf :
      (rounds : List RatingRound) → LatestOf rounds (latest_round user course rounds)
  unfolding latest_round
  latest_round-LatestOf [] = tt
  latest_round-LatestOf (r ∷ rounds) =
      elim (Bool-cases (r.user_id == user && (r.course_id == course && r.is_rating_round))) [
        | inl e ↦ rw e (
            chosen r rounds (latest_round user course rounds) (is_rating e)
              (latest_round-LatestOf rounds))
        | inr e ↦ rw e (
            passed r rounds (latest_round user course rounds) (is_none e)
              (latest_round-LatestOf rounds))
      ]
    where
      is_rating :
          (r.user_id == user && (r.course_id == course && r.is_rating_round)) ≡ true
          → IsRating user course r
      is_rating e = (ground (arith, e), ground (arith, e), ground (arith, e))

      is_none :
          (r.user_id == user && (r.course_id == course && r.is_rating_round)) ≡ false
          → IsRating user course r
          → ⊥
      is_none e (u, c, i) = ground (arith, e, u, c, i)
