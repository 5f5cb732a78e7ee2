-- ===== src/Social/Lists.antt =====
-- The lists of social.py: `list_follows`, `list_blocked_users`, `list_muted_users` and
-- `list_notifications`. A user is shown by id; rows of the graph stand oldest first.
use golf_rank.Base.{
  ℕ, ◌+◌, String, Bool, true, false, not, ◌&&◌, Option, none, some, List, [], ◌∷◌, ◌++◌, ◌==◌, ltb,
  leb, if◌then◌else◌, keep, map, length, sort_by, take, Result, ok, ◌>>=◌,
}
use golf_rank.Domain.Course.{Course, get_course}
use golf_rank.Domain.Courses.{among}
use golf_rank.Domain.Audience.{outgoing, incoming, either_ids}
use golf_rank.Domain.User.{User, find_user}
use golf_rank.Domain.People.{
  notifications_enabled, Notification, NotificationType, followed_you, mutual_follow,
  contact_joined, tagged_in_round, reacted_to_round,
}
use golf_rank.Rounds.{Round, RoundState}
use golf_rank.Rounds.Handlers.{require_user}
use golf_rank.Social.{SocialState}
use golf_rank.Social.Graph.{get_user}
use golf_rank.Social.Feed.{round_row, is_known_user}

abbrev pub reverse_onto {ℓ} : {A : Type ℓ} → List A → List A → List A
reverse_onto [] ys = ys
reverse_onto (x ∷ xs) ys = reverse_onto xs (x ∷ ys)

-- `order_by(created_at.desc())`
abbrev pub newest_first {ℓ} : {A : Type ℓ} → List A → List A
newest_first xs = reverse_onto xs []

abbrev pub is_user : List User → ℕ → Bool
is_user users id = is_known_user (get_user id users)

pub record FollowEntry : Type 0 where
  pub user_id : ℕ
  pub is_mutual : Bool

abbrev pub follows_for : SocialState → Option User → List FollowEntry
follows_for db none = []
follows_for db (some user) =
    let followed =
      keep (λ i. not (among (either_ids user.id db.base.blocks) i))
        (outgoing user.id db.base.follows) in
    map (λ i. record { user_id = i; is_mutual = among (incoming user.id db.base.follows) i })
      (keep (is_user db.base.ranking.accounts.users) (newest_first followed))

-- `list_follows`
unfoldable pub list_follows : String → SocialState → List FollowEntry
list_follows subject db = follows_for db (find_user subject db.base.ranking.accounts.users)

-- `list_blocked_users`
unfoldable pub list_blocked_users : String → SocialState → Result (List ℕ)
list_blocked_users subject db = do
  user ← require_user db.base.ranking.accounts subject
  ok (
      keep (is_user db.base.ranking.accounts.users)
        (newest_first (outgoing user.id db.base.blocks)))

-- A muted user, or only the id of one with whom there is a block.
pub data MutedEntry : Type 0 where
  muted_account named_account : ℕ → MutedEntry

abbrev pub muted_entry : List User → List ℕ → ℕ → List MutedEntry
muted_entry users blocked i =
    if among blocked i
    then muted_account i ∷ []
    else if is_user users i
    then named_account i ∷ []
    else []

unfoldable pub muted_entries : List User → List ℕ → List ℕ → List MutedEntry
muted_entries users blocked [] = []
muted_entries users blocked (i ∷ ids) =
    muted_entry users blocked i ++ muted_entries users blocked ids

-- `list_muted_users`
unfoldable pub list_muted_users : String → SocialState → Result (List MutedEntry)
list_muted_users subject db = do
  user ← require_user db.base.ranking.accounts subject
  ok (
      muted_entries db.base.ranking.accounts.users (either_ids user.id db.base.blocks)
        (newest_first (outgoing user.id db.mutes)))

-- NotificationOut.
pub record NotificationOut : Type 0 where
  pub id : ℕ
  pub notification_type : NotificationType
  pub actor : ℕ
  pub is_following : Bool
  pub round_id : Option ℕ
  pub course : Option Course

-- `round_backed_types`
abbrev pub is_round_backed : NotificationType → Bool
is_round_backed tagged_in_round = true
is_round_backed reacted_to_round = true
is_round_backed followed_you = false
is_round_backed mutual_follow = false
is_round_backed contact_joined = false

-- `round_navigable_types`
abbrev pub is_navigable : NotificationType → Bool
is_navigable reacted_to_round = true
is_navigable tagged_in_round = false
is_navigable followed_you = false
is_navigable mutual_follow = false
is_navigable contact_joined = false

abbrev pub course_of_round : RoundState → Option Round → Option Course
course_of_round db none = none
course_of_round db (some r) = get_course r.course_id db.ranking.catalog.courses

abbrev pub course_of_subject : RoundState → Option ℕ → Option Course
course_of_subject db none = none
course_of_subject db (some id) = course_of_round db (round_row id db.rounds)

abbrev pub notification_out : RoundState → List ℕ → Notification → NotificationOut
notification_out db following n = record {
  id = n.id;
  notification_type = n.notification_type;
  actor = n.actor_user_id;
  is_following = among following n.actor_user_id;
  round_id = if is_navigable n.notification_type then n.subject_id else none;
  course = if is_round_backed n.notification_type then course_of_subject db n.subject_id else none;
}

pub record NotificationPage : Type 0 where
  pub items : List NotificationOut
  -- the id that the cursor encodes
  pub next_cursor : Option ℕ

abbrev pub is_older : Option ℕ → Notification → Bool
is_older none n = true
is_older (some id) n = ltb n.id id

unfoldable pub last_id : List Notification → Option ℕ
last_id [] = none
last_id (n ∷ []) = some n.id
last_id (n ∷ m ∷ ns) = last_id (m ∷ ns)

abbrev pub fetched_notifications : ℕ → ℕ → Option ℕ → SocialState → List Notification
fetched_notifications user limit cursor db = take (limit + 1) (
    sort_by (λ a b. leb b.id a.id)
      (keep
        (λ n.
          (n.recipient_user_id == user
            && not (
                among (either_ids user db.base.blocks ++ either_ids user db.mutes) n.actor_user_id))
          && is_older cursor n)
        db.base.notifications))

abbrev pub notification_page : ℕ → ℕ → SocialState → List Notification → NotificationPage
notification_page user limit db ns = record {
  items = map (notification_out db.base (outgoing user db.base.follows)) (take limit ns);
  next_cursor = if ltb limit (length ns) then last_id (take limit ns) else none;
}

abbrev pub notifications_for : ℕ → Option ℕ → SocialState → Option User → NotificationPage
notifications_for limit cursor db none = record { items = []; next_cursor = none }
notifications_for limit cursor db (some user) =
    if notifications_enabled db.base.preferences user.id
    then notification_page user.id limit db (fetched_notifications user.id limit cursor db)
    else record { items = []; next_cursor = none }

-- `list_notifications`
unfoldable pub list_notifications : String → ℕ → Option ℕ → SocialState → NotificationPage
list_notifications subject limit cursor db =
    notifications_for limit cursor db (find_user subject db.base.ranking.accounts.users)
