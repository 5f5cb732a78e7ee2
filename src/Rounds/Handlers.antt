-- ===== src/Rounds/Handlers.antt =====
-- The handlers of rounds.py that log and read rounds: `create_round`, `list_rounds`, `round_summary`
-- and `get_round`.
pub mod Shown
use golf_rank.Base.{
  ℕ, ◌+◌, ◌*◌, min, String, Bool, true, false, ◌&&◌, ◌||◌, Option, none, some, List, [], ◌∷◌, ◌++◌,
  ◌==◌, leb, ltb, if◌then◌else◌, keep, map, length, sort_by, take, drop, is_empty, Result, ok,
  raise, ◌>>=◌,
}
use golf_rank.Base.Rounding.{Rounding}
use golf_rank.Base.Texts.{is_nonempty}
use golf_rank.Domain.Course.{Course, require_course}
use golf_rank.Domain.Audience.{unique}
use golf_rank.Domain.User.{User, Accounts, find_user, stored_user_created}
use golf_rank.Domain.People.{Notification}
use golf_rank.Ranking.Handlers.{RankingState}
use golf_rank.Ranking.Snapshot.{sum}
use golf_rank.Rounds.{
  Date, day_number, Visibility, Round, RoundNote, RoundCompanion, RoundEvent, round_subject,
  RoundState,
}
use golf_rank.Rounds.Companions.{validate_friend_ids, replace_companions, notify_tagged}
use golf_rank.Rounds.Output.{RoundOut, owner_blocked_ids, note_of, round_out, rounds_out}
use golf_rank.Rounds.Refresh.{refresh_course_state, make_event_data}

-- RoundIn, after its validators.
pub record RoundIn : Type 0 where
  pub course_id : ℕ
  pub played_on : Date
  pub score : Option ℕ
  pub note : Option String
  pub favorite_hole : Option ℕ
  pub friend_user_ids : List ℕ
  pub guest_names : List String
  pub visibility : Visibility
  pub is_favorite : Bool
  pub tags : List String

-- What a handler has committed, the notifications that it hands to the push task, and its answer.
pub record Committed : Type 0 where
  pub state : RoundState
  pub pushed : List ℕ
  pub answer : Result RoundOut

abbrev pub answered : RoundState → List Notification → Round → Committed
answered db created r = record {
  state = db;
  pushed = map (λ n. n.id) created;
  answer = round_out db (owner_blocked_ids db r.user_id) r;
}

abbrev pub or_no_user : Option User → Result User
or_no_user none = raise 404 "User not found"
or_no_user (some u) = ok u

-- `require_user`
unfoldable pub require_user : Accounts → String → Result User
require_user accounts subject = or_no_user (find_user subject accounts.users)

abbrev pub new_round : ℕ → ℕ → ℕ → ℕ → RoundIn → Round
new_round now id user course p = record {
  id = id;
  user_id = user;
  course_id = course;
  played_on = p.played_on;
  score = p.score;
  favorite_hole = p.favorite_hole;
  is_favorite = p.is_favorite;
  is_rating_round = false;
  visibility = p.visibility;
  tags = p.tags;
  updated_at = now;
}

-- `if payload.note: session.add(RoundNote(...))`
abbrev pub new_notes : ℕ → Option String → List RoundNote
new_notes round_id none = []
new_notes round_id (some body) =
    if is_nonempty body then record { round_id = round_id; body = body } ∷ [] else []

module _ (onboarding_played : ℕ → ℕ → Bool) where
  -- The rows that a new round adds, its friends valid.
  unfoldable pub add_round :
      ℕ → ℕ → ℕ → RoundIn → List ℕ → RoundState → RoundState × List Notification
  add_round now user course p friend_ids db =
      let r = new_round now db.next_round user course p in
      let created =
        notify_tagged db.preferences user r.id [] db.next_notification friend_ids
          db.notifications in
      let notes = db.notes ++ new_notes r.id p.note in
      let rounds = db.rounds ++ r ∷ [] in
      (
        record db {
          rounds = rounds;
          notes = notes;
          companions =
              replace_companions db.next_companion r.id friend_ids p.guest_names db.companions;
          states = refresh_course_state onboarding_played user course rounds db.states;
          notifications = db.notifications ++ created;
          events =
              db.events
              ++ record {
                id = db.next_event;
                actor_user_id = user;
                subject_type = round_subject;
                subject_id = r.id;
                visibility = r.visibility;
                event_data = make_event_data r (note_of r.id notes);
              }
                ∷ [];
          next_round = db.next_round + 1;
          next_companion = db.next_companion + length friend_ids + length p.guest_names;
          next_notification = db.next_notification + length created;
          next_event = db.next_event + 1;
        },
        created,
      )

  abbrev pub create_for : ℕ → RoundIn → RoundState → Accounts × User → Result Committed
  create_for now p db (accounts, user) = do
    course ← require_course db.ranking.catalog p.course_id
    friend_ids ← validate_friend_ids accounts.users db.follows db.blocks user.id p.friend_user_ids
    ok (
        let (after, created) =
          add_round now user.id course.id p friend_ids
            (record db { ranking = record db.ranking { accounts = accounts } }) in
        answered after created (new_round now db.next_round user.id course.id p))

  -- `create_round`, for the identity of the caller.
  unfoldable pub create_round : ℕ → String → RoundIn → RoundState → Result Committed
  create_round now subject p db = do
    account ← stored_user_created db.ranking.accounts subject
    create_for now p db account

-- `order_by(Round.played_on.desc(), Round.id.desc())`
abbrev pub is_newer : Round → Round → Bool
is_newer a b =
    ltb (day_number b.played_on) (day_number a.played_on)
    || (day_number b.played_on == day_number a.played_on && leb b.id a.id)

abbrev pub owned_rounds : ℕ → List Round → List Round
owned_rounds user rounds = keep (λ r. r.user_id == user) rounds

abbrev pub in_year : Option ℕ → Round → Bool
in_year none r = true
in_year (some year) r = r.played_on.year == year

abbrev pub listed : Option ℕ → Bool → ℕ → ℕ → List Round → List Round
listed year favorites_only limit offset rounds = take limit (
    drop offset (
      sort_by is_newer
        (keep (λ r. in_year year r && (if favorites_only then r.is_favorite else true)) rounds)))

abbrev pub list_for : Option ℕ → Bool → ℕ → ℕ → RoundState → Option User → Result (List RoundOut)
list_for year favorites_only limit offset db none = ok []
list_for year favorites_only limit offset db (some user) =
    rounds_out db (owner_blocked_ids db user.id)
      (listed year favorites_only limit offset (owned_rounds user.id db.rounds))

-- `list_rounds`
unfoldable pub list_rounds : String → ℕ → ℕ → Option ℕ → Bool → RoundState → Result (List RoundOut)
list_rounds subject limit offset year favorites_only db =
    list_for year favorites_only limit offset db (find_user subject db.ranking.accounts.users)

pub record RoundSummary : Type 0 where
  pub total_rounds : ℕ
  pub rounds_this_year : ℕ
  -- in tenths
  pub average_score : Option ℕ
  pub best_score : Option ℕ
  pub distinct_courses : ℕ
  pub latest_round : Option RoundOut

abbrev pub cons_score : Option ℕ → List ℕ → List ℕ
cons_score none ns = ns
cons_score (some n) ns = n ∷ ns

-- The scores that are not null.
unfoldable pub scores_of : List Round → List ℕ
scores_of [] = []
scores_of (r ∷ rounds) = cons_score r.score (scores_of rounds)

abbrev pub lesser : ℕ → Option ℕ → Option ℕ
lesser n none = some n
lesser n (some m) = some (min n m)

-- `func.min`
unfoldable pub best_of : List ℕ → Option ℕ
best_of [] = none
best_of (n ∷ ns) = lesser n (best_of ns)

abbrev pub first {ℓ} : {A : Type ℓ} → List A → Option A
first [] = none
first (x ∷ xs) = some x

abbrev pub latest_out : RoundState → Option Round → Result (Option RoundOut)
latest_out db none = ok none
latest_out db (some r) = do out ← round_out db (owner_blocked_ids db r.user_id) r; ok (some out)

module _ (rd : Rounding) where
  -- `round(float(average), 1)`, if there is an average.
  unfoldable pub average_of : List ℕ → Option ℕ
  average_of [] = none
  average_of (n ∷ ns) = some (rd.round_quot (10 * sum (n ∷ ns)) (length (n ∷ ns)))

  abbrev pub summary_for : ℕ → RoundState → Option User → Result RoundSummary
  summary_for year db none = ok (record {
    total_rounds = 0;
    rounds_this_year = 0;
    average_score = none;
    best_score = none;
    distinct_courses = 0;
    latest_round = none;
  })
  summary_for year db (some user) = do
    latest ← latest_out db (first (sort_by is_newer (owned_rounds user.id db.rounds)))
    ok (
        let rounds = owned_rounds user.id db.rounds in
        record {
          total_rounds = length rounds;
          rounds_this_year = length (keep (in_year (some year)) rounds);
          average_score = average_of (scores_of rounds);
          best_score = best_of (scores_of rounds);
          distinct_courses = length (unique (map (λ r. r.course_id) rounds));
          latest_round = latest;
        })

  -- `round_summary`, in this year.
  unfoldable pub round_summary : String → ℕ → RoundState → Result RoundSummary
  round_summary subject year db = summary_for year db (find_user subject db.ranking.accounts.users)

-- `select(Round).where(Round.id == round_id, Round.user_id == user_id)`
unfoldable pub find_round : ℕ → ℕ → List Round → Option Round
find_round round_id user [] = none
find_round round_id user (r ∷ rounds) =
    if r.id == round_id && r.user_id == user then some r else find_round round_id user rounds

abbrev pub or_no_round : Option Round → Result Round
or_no_round none = raise 404 "Round not found"
or_no_round (some r) = ok r

-- `get_round`
unfoldable pub get_round : String → ℕ → RoundState → Result RoundOut
get_round subject round_id db = do
  user ← require_user db.ranking.accounts subject
  r ← or_no_round (find_round round_id user.id db.rounds)
  round_out db (owner_blocked_ids db r.user_id) r
