-- ===== src/Ranking/Projections.antt =====
-- The last part of `_stage_snapshot` of ranking.py: the rows of `user_course_ratings` of the user
-- follow the entries of the snapshot.
pub mod Latest
pub mod Followed
use golf_rank.Base.{
  ℕ, Bool, true, false, ◌&&◌, ◌||◌, Option, none, some, List, [], ◌∷◌, ◌==◌, leb, ltb,
  if◌then◌else◌, keep,
}
use golf_rank.Ranking.Snapshot.{Entry, Projection, entry_of, projection_of, follow_entry}

-- What the query for a rating round reads of a row of `rounds`.
pub record RatingRound : Type 0 where
  pub id : ℕ
  pub user_id : ℕ
  pub course_id : ℕ
  pub is_rating_round : Bool
  pub updated_at : ℕ

-- `order_by(updated_at.desc(), id.desc())`
abbrev pub is_later : RatingRound → RatingRound → Bool
is_later a b = ltb b.updated_at a.updated_at || (a.updated_at == b.updated_at && ltb b.id a.id)

abbrev pub later_of : RatingRound → Option RatingRound → Option RatingRound
later_of a none = some a
later_of a (some b) = if is_later a b then some a else some b

unfoldable pub latest_round : ℕ → ℕ → List RatingRound → Option RatingRound
latest_round user course [] = none
latest_round user course (r ∷ rounds) =
    let rest = latest_round user course rounds in
    if r.user_id == user && (r.course_id == course && r.is_rating_round)
    then later_of r rest
    else rest

abbrev pub is_listed : Option Entry → Bool
is_listed none = false
is_listed (some e) = true

-- `session.delete(projection)` for the projections without an entry.
unfoldable pub delete_orphans : List Entry → List Projection → List Projection
delete_orphans entries ps = keep (λ p. is_listed (entry_of p.rated_course entries)) ps

-- A new projection belongs to the latest rating round of the course, if there is one.
abbrev pub new_projection : Entry → Option RatingRound → Option Projection
new_projection e none = none
new_projection e (some r) = some (record {
  rated_course = e.course_id;
  round_id = r.id;
  rated_tier = e.tier;
  score = e.personal_rating;
  certainty = e.confidence_score;
})

abbrev pub projected : Entry → Option Projection → Option RatingRound → Option Projection
projected e none round = new_projection e round
projected e (some p) round = some (follow_entry p e)

-- INSERT, or UPDATE of the row of the course.
unfoldable pub save_projection : Projection → List Projection → List Projection
save_projection p [] = p ∷ []
save_projection p (q ∷ ps) =
    if q.rated_course == p.rated_course then p ∷ ps else q ∷ save_projection p ps

abbrev pub save_if : Option Projection → List Projection → List Projection
save_if none ps = ps
save_if (some p) ps = save_projection p ps

module _ (user : ℕ) (rounds : List RatingRound) (old : List Projection) where
  abbrev pub projection_for : Entry → Option Projection
  projection_for e =
      projected e (projection_of e.course_id old) (latest_round user e.course_id rounds)

  unfoldable pub write_entries : List Entry → List Projection → List Projection
  write_entries [] ps = ps
  write_entries (e ∷ entries) ps = write_entries entries (save_if (projection_for e) ps)

  unfoldable pub sync_projections : List Entry → List Projection
  sync_projections entries = write_entries entries (delete_orphans entries old)
