-- ===== src/Rounds/Played.antt =====
-- `list_course_states` and `seed_onboarding_played_courses` of rounds.py.
use golf_rank.Base.{
  ℕ, String, Bool, true, false, not, ◌&&◌, Option, none, some, List, [], ◌∷◌, ◌==◌, leb, keep,
  sort_by, Result, ok, err,
}
use golf_rank.Domain.Course.{Course, Catalog, require_course}
use golf_rank.Domain.User.{User, find_user}
use golf_rank.Rounds.{Date, day_number, UserCourseState, RoundState}
use golf_rank.Rounds.Refresh.{state_at, save_state}

pub record CourseStateOut : Type 0 where
  pub course : Course
  pub state : UserCourseState

-- `last_played_on.desc()`: PostgreSQL puts nulls first.
abbrev pub plays_later : Option Date → Option Date → Bool
plays_later none b = true
plays_later (some a) none = false
plays_later (some a) (some b) = leb (day_number b) (day_number a)

abbrev pub played_states : ℕ → List UserCourseState → List UserCourseState
played_states user states =
    sort_by (λ a b. plays_later a.last_played_on b.last_played_on)
      (keep (λ s. s.user_id == user && s.has_played) states)

-- A state whose course cannot be resolved is left out.
abbrev pub cons_state : UserCourseState → Result Course → List CourseStateOut → List CourseStateOut
cons_state s (err e) outs = outs
cons_state s (ok course) outs = record { course = course; state = s } ∷ outs

unfoldable pub states_out : Catalog → List UserCourseState → List CourseStateOut
states_out catalog [] = []
states_out catalog (s ∷ states) =
    cons_state s (require_course catalog s.course_id) (states_out catalog states)

abbrev pub states_for : RoundState → Option User → List CourseStateOut
states_for db none = []
states_for db (some user) = states_out db.ranking.catalog (played_states user.id db.states)

-- `list_course_states`
unfoldable pub list_course_states : String → RoundState → List CourseStateOut
list_course_states subject db = states_for db (find_user subject db.ranking.accounts.users)

abbrev pub seeded : ℕ → ℕ → Option UserCourseState → UserCourseState
seeded user course none = record {
  user_id = user;
  course_id = course;
  has_played = true;
  round_count = 0;
  last_played_on = none;
}
seeded user course (some s) = record s { has_played = true }

-- `unique_courses`
abbrev pub unique_courses : List Course → List Course
unique_courses [] = []
unique_courses (c ∷ courses) = c ∷ keep (λ x. not (x.id == c.id)) (unique_courses courses)

-- The loop over the courses.
unfoldable pub mark_played : ℕ → List Course → List UserCourseState → List UserCourseState
mark_played user [] states = states
mark_played user (c ∷ courses) states =
    mark_played user courses (save_state (seeded user c.id (state_at user c.id states)) states)

-- `seed_onboarding_played_courses`, for the courses that its ids resolve to.
abbrev pub seed_played : ℕ → List Course → List UserCourseState → List UserCourseState
seed_played user resolved states = mark_played user (unique_courses resolved) states
