-- ===== src/Rounds/Companions.antt =====
-- The companions of a round in rounds.py: `_owner_blocked_ids`, `_validate_friend_ids`,
-- `_replace_companions` and `_notify_tagged_companions`.
pub mod Valid
pub mod Notified
use golf_rank.Base.{
  ℕ, ◌+◌, String, Bool, true, false, not, ◌&&◌, ◌||◌, Option, none, some, List, [], ◌∷◌, ◌++◌, ◌==◌,
  if◌then◌else◌, keep, map, any, every, is_empty, dedupe, Result, ok, raise,
}
use golf_rank.Domain.Courses.{among}
use golf_rank.Domain.Audience.{Edge, outgoing, either_ids}
use golf_rank.Domain.User.{User}
use golf_rank.Domain.People.{
  Preferences, notifications_enabled, Notification, tagged_in_round, is_tag, is_about,
}
use golf_rank.Rounds.{RoundState, RoundCompanion, Identity, friend, guest}

-- `_companion_blocked_ids`
unfoldable pub companion_blocked_ids : List Edge → ℕ → List ℕ → List ℕ
companion_blocked_ids blocks owner companion_ids =
    if is_empty companion_ids then [] else keep (among companion_ids) (either_ids owner blocks)

-- `xs == ys` of two sets.
abbrev pub same_set : List ℕ → List ℕ → Bool
same_set xs ys = every (among ys) xs && every (among xs) ys

-- `select(User.id).where(User.id.in_(ids))`
abbrev pub user_ids : List User → List ℕ → List ℕ
user_ids users ids = keep (among ids) (map (λ u. u.id) users)

-- `select(Follow.followed_id)` of the user's rows among the ids.
abbrev pub followed_ids : List Edge → ℕ → List ℕ → List ℕ
followed_ids follows user ids = keep (among ids) (outgoing user follows)

abbrev pub are_taggable : List User → List Edge → List Edge → ℕ → List ℕ → Bool
are_taggable users follows blocks user ids =
    same_set (user_ids users ids) ids
    && (same_set (followed_ids follows user ids) ids
        && is_empty (companion_blocked_ids blocks user ids))

unfoldable pub validate_friend_ids :
    List User → List Edge → List Edge → ℕ → List ℕ → Result (List ℕ)
validate_friend_ids users follows blocks user friend_user_ids =
    let friend_ids = dedupe friend_user_ids in
    if is_empty friend_ids
    then ok []
    else if are_taggable users follows blocks user friend_ids
    then ok friend_ids
    else raise 422 "All friend_user_ids must be followed users"

-- `session.add_all`, in the order of the list.
unfoldable pub add_companions : ℕ → ℕ → List Identity → List RoundCompanion
add_companions next_id round_id [] = []
add_companions next_id round_id (w ∷ ws) =
    record { id = next_id; round_id = round_id; who = w } ∷ add_companions (next_id + 1) round_id ws

-- `_replace_companions`
unfoldable pub replace_companions :
    ℕ → ℕ → List ℕ → List String → List RoundCompanion → List RoundCompanion
replace_companions next_id round_id friend_user_ids guest_names rows =
    keep (λ c. not (c.round_id == round_id)) rows
    ++ add_companions next_id round_id (map friend friend_user_ids ++ map guest guest_names)

-- The user of a row, if it names one.
abbrev pub friends_of : Identity → List ℕ
friends_of (friend f) = f ∷ []
friends_of (guest name) = []

-- `previously_tagged_ids`
unfoldable pub tagged_ids : ℕ → List RoundCompanion → List ℕ
tagged_ids round_id [] = []
tagged_ids round_id (c ∷ rows) =
    let rest = tagged_ids round_id rows in
    if c.round_id == round_id then friends_of c.who ++ rest else rest

abbrev pub is_tag_of : ℕ → ℕ → ℕ → Notification → Bool
is_tag_of actor round_id recipient n =
    n.recipient_user_id == recipient
    && (n.actor_user_id == actor && (is_tag n.notification_type && is_about round_id n.subject_id))

abbrev pub tag_notification : ℕ → ℕ → ℕ → ℕ → Notification
tag_notification id actor round_id recipient = record {
  id = id;
  recipient_user_id = recipient;
  actor_user_id = actor;
  notification_type = tagged_in_round;
  subject_id = some round_id;
}

module _ (ps : List Preferences) (actor round_id : ℕ) (previous : List ℕ) where
  -- Whether the loop passes over the recipient.
  abbrev pub is_skipped : ℕ → List Notification → Bool
  is_skipped recipient sent =
      (among previous recipient || recipient == actor)
      || (not (notifications_enabled ps recipient) || any (is_tag_of actor round_id recipient) sent)

  -- `_notify_tagged_companions`: what it creates, given the rows that are there.
  unfoldable pub notify_tagged : ℕ → List ℕ → List Notification → List Notification
  notify_tagged next_id [] sent = []
  notify_tagged next_id (recipient ∷ recipients) sent =
      let n = tag_notification next_id actor round_id recipient in
      let skipped = notify_tagged next_id recipients sent in
      let added = notify_tagged (next_id + 1) recipients (sent ++ n ∷ []) in
      if is_skipped recipient sent then skipped else n ∷ added
