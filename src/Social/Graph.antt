-- ===== src/Social/Graph.antt =====
-- The relations between users in social.py: who follows, blocks and mutes whom.
pub mod Apart
pub mod Repeated
use golf_rank.Base.{
  ℕ, ◌+◌, String, Bool, true, false, not, ◌&&◌, ◌||◌, Option, none, some, List, [], ◌∷◌, ◌++◌, ◌==◌,
  if◌then◌else◌, keep, map, any, length, Result, ok, raise, require, ◌>>=◌, ◌>>◌,
}
use golf_rank.Domain.Courses.{among}
use golf_rank.Domain.Audience.{Edge, outgoing, incoming, either_ids}
use golf_rank.Domain.User.{User, Accounts, find_user, stored_user_created}
use golf_rank.Domain.People.{
  Preferences, notifications_enabled, Notification, NotificationType, followed_you, mutual_follow,
  has_notified,
}
use golf_rank.Rounds.{RoundState}
use golf_rank.Rounds.Handlers.{require_user}
use golf_rank.Social.{SocialState}

-- `session.get(User, user_id)`
unfoldable pub get_user : ℕ → List User → Option User
get_user id [] = none
get_user id (u ∷ users) = if u.id == id then some u else get_user id users

abbrev pub or_unknown : Option User → Result User
or_unknown none = raise 404 "User not found"
or_unknown (some u) = ok u

abbrev pub is_edge : ℕ → ℕ → Edge → Bool
is_edge u v e = e.source == u && e.target == v

-- Whether the table has the row.
abbrev pub has_edge : ℕ → ℕ → List Edge → Bool
has_edge u v edges = any (is_edge u v) edges

abbrev pub without_edge : ℕ → ℕ → List Edge → List Edge
without_edge u v edges = keep (λ e. not (is_edge u v e)) edges

-- The row is added unless it is there.
abbrev pub with_edge : ℕ → ℕ → List Edge → List Edge
with_edge u v edges =
    if has_edge u v edges then edges else edges ++ record { source = u; target = v } ∷ []

-- `_relationship_sets`
abbrev pub relationship_sets : ℕ → List Edge → List ℕ × List ℕ
relationship_sets user follows =
    (outgoing user follows, keep (among (incoming user follows)) (outgoing user follows))

abbrev pub new_notification : ℕ → ℕ → ℕ → NotificationType → Notification
new_notification id recipient actor type = record {
  id = id;
  recipient_user_id = recipient;
  actor_user_id = actor;
  notification_type = type;
  subject_id = none;
}

-- The notification, unless it is there or the recipient has turned them off.
unfoldable pub notify :
    List Preferences → ℕ → ℕ → ℕ → NotificationType → List Notification → List Notification
notify ps id recipient actor type sent =
    if not (has_notified recipient actor type sent) && notifications_enabled ps recipient
    then new_notification id recipient actor type ∷ []
    else []

-- `_notify_mutual_follow`
unfoldable pub notify_mutual : List Preferences → ℕ → ℕ → ℕ → List Notification → List Notification
notify_mutual ps id user other sent =
    let one = notify ps id user other mutual_follow sent in
    one ++ notify ps (id + length one) other user mutual_follow (sent ++ one)

-- What following sends to whom.
unfoldable pub follow_notifications :
    List Preferences → ℕ → ℕ → ℕ → Bool → List Notification → List Notification
follow_notifications ps id user target both sent =
    let one = notify ps id target user followed_you sent in
    one ++ (if both then notify_mutual ps (id + length one) user target (sent ++ one) else [])

-- FollowOut, with the ids of the notifications that are pushed.
pub record FollowOut : Type 0 where
  pub user_id : ℕ
  pub is_mutual : Bool
  pub pushed : List ℕ

-- A new row of `follows` and its notifications.
abbrev pub add_follow : ℕ → ℕ → Bool → RoundState → RoundState × FollowOut
add_follow user target both db =
    let created =
      follow_notifications db.preferences db.next_notification user target both db.notifications in
    (
      record db {
        follows = with_edge user target db.follows;
        notifications = db.notifications ++ created;
        next_notification = db.next_notification + length created;
      },
      record { user_id = target; is_mutual = both; pushed = map (λ n. n.id) created },
    )

abbrev pub follow_out : ℕ → ℕ → RoundState → RoundState × FollowOut
follow_out user target db =
    let both = has_edge target user db.follows in
    if has_edge user target db.follows
    then (db, record { user_id = target; is_mutual = both; pushed = [] })
    else add_follow user target both db

abbrev pub with_accounts : Accounts → RoundState → RoundState
with_accounts accounts db = record db { ranking = record db.ranking { accounts = accounts } }

abbrev pub with_base : SocialState → RoundState → SocialState
with_base db base = record db { base = base }

abbrev pub follow_for : ℕ → SocialState → Accounts × User → Result (SocialState × FollowOut)
follow_for target db (accounts, user) = do
  require (not (target == user.id)) 422 "You cannot follow yourself"
  known ← or_unknown (get_user target accounts.users)
  require (not (among (either_ids user.id db.base.blocks) target)) 404 "User not found"
  ok (
      let (base, out) = follow_out user.id target (with_accounts accounts db.base) in
      (with_base db base, out))

-- `follow_user`
unfoldable pub follow_user : String → ℕ → SocialState → Result (SocialState × FollowOut)
follow_user subject target db = do
  account ← stored_user_created db.base.ranking.accounts subject
  follow_for target db account

-- `unfollow_user`
unfoldable pub unfollow_user : String → ℕ → SocialState → Result SocialState
unfollow_user subject target db = do
  user ← require_user db.base.ranking.accounts subject
  ok (with_base db (record db.base { follows = without_edge user.id target db.base.follows }))

-- `_relationship_target`
unfoldable pub relationship_target : ℕ → ℕ → List User → Result User
relationship_target user target users = do
  require (not (target == user)) 422 "You cannot select yourself"
  or_unknown (get_user target users)

-- The block is there, and no follow between the two is.
abbrev pub block : ℕ → ℕ → RoundState → RoundState
block user target db = record db {
  blocks = with_edge user target db.blocks;
  follows = without_edge target user (without_edge user target db.follows);
}

-- `block_user`
unfoldable pub block_user : String → ℕ → SocialState → Result SocialState
block_user subject target db = do
  user ← require_user db.base.ranking.accounts subject
  known ← relationship_target user.id target db.base.ranking.accounts.users
  ok (with_base db (block user.id target db.base))

-- `unblock_user`
unfoldable pub unblock_user : String → ℕ → SocialState → Result SocialState
unblock_user subject target db = do
  user ← require_user db.base.ranking.accounts subject
  ok (with_base db (record db.base { blocks = without_edge user.id target db.base.blocks }))

-- `mute_user`
unfoldable pub mute_user : String → ℕ → SocialState → Result SocialState
mute_user subject target db = do
  user ← require_user db.base.ranking.accounts subject
  known ← relationship_target user.id target db.base.ranking.accounts.users
  ok (record db { mutes = with_edge user.id target db.mutes })

-- `unmute_user`
unfoldable pub unmute_user : String → ℕ → SocialState → Result SocialState
unmute_user subject target db = do
  user ← require_user db.base.ranking.accounts subject
  ok (record db { mutes = without_edge user.id target db.mutes })

-- The flags of PublicProfileOut.
pub record ProfileOut : Type 0 where
  pub user_id : ℕ
  pub is_self : Bool
  pub is_following : Bool
  pub is_followed_by : Bool
  pub is_mutual : Bool
  pub is_muted : Bool

abbrev pub profile_of : ℕ → ℕ → SocialState → ProfileOut
profile_of viewer target db =
    let is_following = among (outgoing viewer db.base.follows) target in
    let is_followed_by = has_edge target viewer db.base.follows in
    record {
      user_id = target;
      is_self = false;
      is_following = is_following;
      is_followed_by = is_followed_by;
      is_mutual = is_following && is_followed_by;
      is_muted = among (either_ids viewer db.mutes) target;
    }

abbrev pub own_profile : ℕ → ProfileOut
own_profile user = record {
  user_id = user;
  is_self = true;
  is_following = false;
  is_followed_by = false;
  is_mutual = false;
  is_muted = false;
}

abbrev pub other_profile : ℕ → ℕ → SocialState → Result ProfileOut
other_profile viewer target db = do
  require (not (among (either_ids viewer db.base.blocks) target)) 404 "User not found"
  known ← or_unknown (get_user target db.base.ranking.accounts.users)
  ok (profile_of viewer target db)

-- `get_user_profile`
unfoldable pub get_user_profile : String → ℕ → SocialState → Result ProfileOut
get_user_profile subject target db = do
  viewer ← require_user db.base.ranking.accounts subject
  let own = target == viewer.id in
      if own then ok (own_profile viewer.id) else other_profile viewer.id target db
