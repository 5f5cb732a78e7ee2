-- ===== src/Social/Reactions.antt =====
-- The reactions of social.py: `_require_visible_event`, `add_reaction`, `remove_reaction` and
-- `_notify_reaction`.
pub mod Toggled
use text.Mathlib.Text.{◌==◌ as str_eq}
use golf_rank.Base.{
  ℕ, ◌+◌, String, Bool, true, false, not, ◌&&◌, ◌||◌, Option, none, some, List, [], ◌∷◌, ◌++◌, ◌==◌,
  if◌then◌else◌, keep, map, any, length, Result, ok, raise, require, ◌>>=◌, ◌>>◌,
}
use golf_rank.Domain.Courses.{among}
use golf_rank.Domain.Audience.{either_ids}
use golf_rank.Domain.User.{User}
use golf_rank.Domain.People.{
  notifications_enabled, Notification, reacted_to_round, same_type, is_about,
}
use golf_rank.Rounds.{RoundState}
use golf_rank.Rounds.Handlers.{require_user}
use golf_rank.Social.{Event, Reaction, SocialState}
use golf_rank.Social.Graph.{relationship_sets, with_base}
use golf_rank.Social.Feed.{event_visible, matches_round, names_round}

-- `session.get(ActivityEvent, event_id)`
unfoldable pub get_event : ℕ → List Event → Option Event
get_event id [] = none
get_event id (e ∷ events) = if e.id == id then some e else get_event id events

abbrev pub is_hidden : ℕ → SocialState → Event → Bool
is_hidden user db e =
    among (either_ids user db.base.blocks ++ either_ids user db.mutes) e.actor_user_id

abbrev pub is_open_to : ℕ → SocialState → Event → Bool
is_open_to user db e =
    let (followed_ids, mutual_ids) = relationship_sets user db.base.follows in
    event_visible user followed_ids mutual_ids e && matches_round db.base.rounds e

abbrev pub or_hidden : ℕ → SocialState → Option Event → Result Event
or_hidden user db none = raise 404 "Activity not found"
or_hidden user db (some e) =
    if is_hidden user db e
    then raise 404 "Activity not found"
    else if is_open_to user db e
    then ok e
    else raise 404 "Activity not found"

-- `_require_visible_event`
unfoldable pub require_visible_event : ℕ → ℕ → SocialState → Result Event
require_visible_event user event_id db = or_hidden user db (get_event event_id db.activity)

abbrev pub is_reaction_of : ℕ → ℕ → Reaction → Bool
is_reaction_of event_id user r = r.event_id == event_id && r.user_id == user

-- ReactionOut.
pub record ReactionOut : Type 0 where
  pub event_id : ℕ
  pub reaction_count : ℕ
  pub viewer_reacted : Bool

-- `_reaction_state`
abbrev pub reaction_out : ℕ → ℕ → List Reaction → ReactionOut
reaction_out event_id user reactions = record {
  event_id = event_id;
  reaction_count = length (keep (λ r. r.event_id == event_id) reactions);
  viewer_reacted = any (is_reaction_of event_id user) reactions;
}

abbrev pub is_reaction_notice : ℕ → ℕ → ℕ → Notification → Bool
is_reaction_notice recipient actor subject n =
    n.recipient_user_id == recipient
    && (n.actor_user_id == actor
        && (same_type n.notification_type reacted_to_round && is_about subject n.subject_id))

-- Whether `_notify_reaction` returns before it notifies.
abbrev pub is_unnoticed : ℕ → Event → RoundState → Bool
is_unnoticed actor e db =
    (not (names_round e.subject_type) || e.actor_user_id == actor)
    || ((among (either_ids e.actor_user_id db.blocks) actor
          || not (notifications_enabled db.preferences e.actor_user_id))
        || any (is_reaction_notice e.actor_user_id actor e.subject_id) db.notifications)

-- `_notify_reaction`
unfoldable pub notify_reaction : ℕ → Event → RoundState → List Notification
notify_reaction actor e db =
    if is_unnoticed actor e db
    then []
    else record {
      id = db.next_notification;
      recipient_user_id = e.actor_user_id;
      actor_user_id = actor;
      notification_type = reacted_to_round;
      subject_id = some e.subject_id;
    }
      ∷ []

-- What an added reaction answers: the state, the notifications that are pushed, and the counts.
pub record Reacted : Type 0 where
  pub state : SocialState
  pub pushed : List ℕ
  pub out : ReactionOut

abbrev pub answer : ℕ → ℕ → List Notification → SocialState → Reacted
answer user event_id created db = record {
  state = db;
  pushed = map (λ n. n.id) created;
  out = reaction_out event_id user db.reactions;
}

abbrev pub put_reaction : ℕ → ℕ → Event → SocialState → Reacted
put_reaction user event_id e db =
    let created = notify_reaction user e db.base in
    answer user event_id created (record db {
      reactions = db.reactions ++ record { event_id = event_id; user_id = user } ∷ [];
      base = record db.base {
        notifications = db.base.notifications ++ created;
        next_notification = db.base.next_notification + length created;
      };
    })

-- `add_reaction`
unfoldable pub add_reaction : String → ℕ → String → SocialState → Result Reacted
add_reaction subject event_id reaction db = do
  require (str_eq reaction "like") 422 "Unsupported reaction"
  user ← require_user db.base.ranking.accounts subject
  e ← require_visible_event user.id event_id db
  ok (
      let there = any (is_reaction_of event_id user.id) db.reactions in
      if there then answer user.id event_id [] db else put_reaction user.id event_id e db)

abbrev pub is_row : ℕ → ℕ → Bool → Reaction → Bool
is_row event_id user is_like r = is_like && is_reaction_of event_id user r

-- `remove_reaction`; every row is a `like`, so another reaction deletes none.
unfoldable pub remove_reaction : String → ℕ → String → SocialState → Result Reacted
remove_reaction subject event_id reaction db = do
  user ← require_user db.base.ranking.accounts subject
  e ← require_visible_event user.id event_id db
  ok (
      answer user.id event_id [] (record db {
        reactions =
            keep (λ r. not (is_row event_id user.id (str_eq reaction "like") r)) db.reactions;
      }))

-- `get_activity`, without the details of the item.
pub record ActivityOut : Type 0 where
  pub event : Event
  pub counts : ReactionOut
  pub is_own_activity : Bool

unfoldable pub get_activity : String → ℕ → SocialState → Result ActivityOut
get_activity subject event_id db = do
  user ← require_user db.base.ranking.accounts subject
  e ← require_visible_event user.id event_id db
  ok (record {
    event = e;
    counts = reaction_out e.id user.id db.reactions;
    is_own_activity = e.actor_user_id == user.id;
  })
