-- ===== src/Ranking/Handlers/Compared.antt =====
-- `compare_courses` as a whole.
use golf_rank.Base.{ℕ, ◌≡◌, ◌≢◌, refl, ◌∙◌, String, false, some, [], ◌∷◌, ◌++◌, arith, ◌==◌, ok}
use golf_rank.Base.Rounding.{Rounding}
use golf_rank.Domain.Course.{Course, require_course}
use golf_rank.Domain.User.{User, find_user}
use golf_rank.Ranking.Tier.{Tier, not_sure}
use golf_rank.Ranking.Table.{Assignment, course_order, find_row}
use golf_rank.Ranking.Place.Keys.{IsWellFormed}
use golf_rank.Ranking.Normalize.Dense.{course_order-normalize_positions}
use golf_rank.Ranking.Compare.{Answer, preferred_id}
use golf_rank.Ranking.Compare.Prefer.{IsNormalized, preferred_order, compare_rows-prefers}
use golf_rank.Ranking.Compare.Written.{compare_rows-IsWellFormed}
use golf_rank.Ranking.Handlers.{
  Snapshot, RankingState, user_versions, commit_snapshot, compare_courses,
}
use golf_rank.Ranking.Handlers.Staged.{
  IsSnapshot, stage_snapshot_lem, normalize_positions-IsWellFormed,
  normalize_positions-IsNormalized,
}

-- What an answer of a user about two courses of a tier does to the ranking, and what it answers.
pub record IsCompared (user a b : ℕ) (tier : Tier) (answer : Answer) (s s' : RankingState)
    (x : Snapshot) : Type 0 where
  pub preferred :
      course_order user tier s'.assignments.rows
      ≡ preferred_order a b answer (course_order user tier s.assignments.rows)
  pub normalized : (t : Tier) → IsNormalized user t s'.assignments.rows
  pub well_formed : IsWellFormed s'.assignments
  pub noted :
      s'.comparisons
      ≡ s.comparisons
        ++ record {
          user_id = user;
          course_a_id = a;
          course_b_id = b;
          preferred_course_id = preferred_id a b answer;
          outcome = answer;
        }
          ∷ []
  pub snapshot : IsSnapshot (user_versions user s.snapshots) s'.assignments.rows user x

module _ (rd : Rounding) (subject : String) (a b : ℕ) (answer : Answer) (s : RankingState)
    (w : IsWellFormed s.assignments) (ca cb : Course) (user : User) (x y : Assignment) where
  -- If the assignments are well formed and the two courses resolve to different ones, which the
  -- user has in one ranking tier with positions 1, 2, 3, ..., the comparison succeeds. The order of
  -- the tier then is the old one with the preferred course moved to just before the other, if it
  -- stood behind, the answer is appended to the comparisons, and the positions, the table and the
  -- snapshot are as after a placement.
  pub compare_courses_lem :
      require_course s.catalog a ≡ ok ca
      → require_course s.catalog b ≡ ok cb
      → ca.id ≢ cb.id
      → find_user subject s.accounts.users ≡ some user
      → find_row user.id ca.id s.assignments.rows ≡ some x
      → find_row user.id cb.id s.assignments.rows ≡ some y
      → y.tier ≡ x.tier
      → x.tier ≢ not_sure
      → IsNormalized user.id x.tier s.assignments.rows
      → (s' : RankingState) × (snap : Snapshot) × (compare_courses rd subject a b answer s
          ≡ ok (s', snap))
        × IsCompared user.id ca.id cb.id x.tier answer s s' snap
  unfolding compare_courses
  compare_courses_lem ra rb ne u fx fy same tier dense =
      let (rows, e, order) =
        compare_rows-prefers user.id ca.id cb.id x y s.assignments.rows w.ids w.keys ne fx fy same
          tier dense answer in
      let well = compare_rows-IsWellFormed user.id ca.id cb.id answer s.assignments rows w e in
      let mid = record s {
        assignments = record s.assignments { rows = rows };
        comparisons =
            s.comparisons
            ++ record {
              user_id = user.id;
              course_a_id = ca.id;
              course_b_id = cb.id;
              preferred_course_id = preferred_id ca.id cb.id answer;
              outcome = answer;
            }
              ∷ [];
      } in
      let (snap, staged, is) = stage_snapshot_lem rd user.id mid well.ids false in
      (
        commit_snapshot user.id false snap mid,
        snap,
        rw (ra, rb, apart, u, e) staged,
        record {
          preferred = course_order-normalize_positions user.id x.tier rows well.ids ∙ order;
          normalized = λ t. normalize_positions-IsNormalized user.id t rows well.ids;
          well_formed = normalize_positions-IsWellFormed user.id mid.assignments well;
          noted = refl;
          snapshot = is;
        },
      )
    where
      apart : (ca.id == cb.id) ≡ false
      apart = ground arith
