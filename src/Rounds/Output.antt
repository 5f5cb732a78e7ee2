-- ===== src/Rounds/Output.antt =====
-- `_round_out` of rounds.py: what a round shows.
use golf_rank.Base.{
  ℕ, String, Option, none, some, List, [], ◌∷◌, ◌==◌, leb, if◌then◌else◌, keep, map, sort_by,
  Result, ok, ◌>>=◌,
}
use golf_rank.Domain.Course.{Course, require_course}
use golf_rank.Domain.Courses.{among}
use golf_rank.Domain.Audience.{either_ids}
use golf_rank.Domain.People.{Preferences, DisplayName, display_name}
use golf_rank.Rounds.{RoundState, Round, RoundNote, RoundCompanion, Identity, friend, guest}

pub record CompanionOut : Type 0 where
  pub friend_user_id : Option ℕ
  pub display_name : Option DisplayName
  pub guest_name : Option String

-- RoundOut, the columns of the round in one field.
pub record RoundOut : Type 0 where
  pub round : Round
  pub course : Course
  pub note : Option String
  pub companions : List CompanionOut

-- `_owner_blocked_ids`
unfoldable pub owner_blocked_ids : RoundState → ℕ → List ℕ
owner_blocked_ids db owner = either_ids owner db.blocks

abbrev pub companion_out : List Preferences → List ℕ → Identity → CompanionOut
companion_out ps blocked (friend f) =
    if among blocked f
    then record { friend_user_id = none; display_name = none; guest_name = none }
    else record {
      friend_user_id = some f;
      display_name = some (display_name ps f);
      guest_name = none;
    }
companion_out ps blocked (guest name) = record {
  friend_user_id = none;
  display_name = none;
  guest_name = some name;
}

-- `session.get(RoundNote, round_id)`
unfoldable pub note_of : ℕ → List RoundNote → Option String
note_of round_id [] = none
note_of round_id (n ∷ notes) =
    if n.round_id == round_id then some n.body else note_of round_id notes

-- The rows of the round, by their ids.
unfoldable pub companions_of : ℕ → List RoundCompanion → List RoundCompanion
companions_of round_id rows =
    sort_by (λ a b. leb a.id b.id) (keep (λ c. c.round_id == round_id) rows)

unfoldable pub round_out : RoundState → List ℕ → Round → Result RoundOut
round_out db blocked r = do
  course ← require_course db.ranking.catalog r.course_id
  ok (record {
    round = r;
    course = course;
    note = note_of r.id db.notes;
    companions =
        map (λ c. companion_out db.preferences blocked c.who) (companions_of r.id db.companions);
  })

-- `[_round_out(...) for item in rounds]`
unfoldable pub rounds_out : RoundState → List ℕ → List Round → Result (List RoundOut)
rounds_out db blocked [] = ok []
rounds_out db blocked (r ∷ rounds) = do
  out ← round_out db blocked r
  outs ← rounds_out db blocked rounds
  ok (out ∷ outs)
