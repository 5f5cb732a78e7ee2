-- ===== src/Rounds/Refresh.antt =====
-- `_refresh_course_state` and `_event_data` of rounds.py: what the other tables say of the rounds.
pub mod Agrees
pub mod Dated
use golf_rank.Base.{
  ℕ, Bool, true, false, ◌&&◌, ◌||◌, Option, none, some, List, [], ◌∷◌, ◌++◌, ◌==◌, ltb, leb,
  if◌then◌else◌, keep, map, length, is_empty,
}
use golf_rank.Rounds.{Date, day_number, Round, RoundNote, UserCourseState, EventData}
use golf_rank.Base.Texts.{is_nonempty}
use golf_rank.Base.{String}

abbrev pub later_date : Date → Option Date → Option Date
later_date d none = some d
later_date d (some e) = if leb (day_number e) (day_number d) then some d else some e

-- `func.max(Round.played_on)`
unfoldable pub last_played : List Round → Option Date
last_played [] = none
last_played (r ∷ rounds) = later_date r.played_on (last_played rounds)

abbrev pub played_at : ℕ → ℕ → Round → Bool
played_at user course r = r.user_id == user && r.course_id == course

abbrev pub rounds_at : ℕ → ℕ → List Round → List Round
rounds_at user course rounds = keep (played_at user course) rounds

abbrev pub is_state_of : ℕ → ℕ → UserCourseState → Bool
is_state_of user course s = s.user_id == user && s.course_id == course

-- The row of the user and the course, if there is one, is replaced; else it is added.
unfoldable pub save_state : UserCourseState → List UserCourseState → List UserCourseState
save_state s [] = s ∷ []
save_state s (t ∷ states) =
    let rest = save_state s states in
    if is_state_of s.user_id s.course_id t then s ∷ states else t ∷ rest

unfoldable pub state_at : ℕ → ℕ → List UserCourseState → Option UserCourseState
state_at user course [] = none
state_at user course (s ∷ states) =
    if is_state_of user course s then some s else state_at user course states

-- The row that `_refresh_course_state` writes.
abbrev pub refreshed : (ℕ → ℕ → Bool) → ℕ → ℕ → List Round → UserCourseState
refreshed onboarding_played user course rounds =
    let here = rounds_at user course rounds in
    record {
      user_id = user;
      course_id = course;
      has_played = ltb 0 (length here) || onboarding_played user course;
      round_count = length here;
      last_played_on = last_played here;
    }

-- `_refresh_course_state`
unfoldable pub refresh_course_state :
    (ℕ → ℕ → Bool) → ℕ → ℕ → List Round → List UserCourseState → List UserCourseState
refresh_course_state onboarding_played user course rounds states =
    save_state (refreshed onboarding_played user course rounds) states

-- `if note and note.body`
abbrev pub body_of : Option String → Option String
body_of none = none
body_of (some body) = if is_nonempty body then some body else none

-- `_event_data`, of a round and its note.
unfoldable pub make_event_data : Round → Option String → EventData
make_event_data r note = record {
  course_id = r.course_id;
  played_on = r.played_on;
  score = r.score;
  tags = r.tags;
  note = body_of note;
  favorite_hole = r.favorite_hole;
  rating = none;
  tier = none;
}
