-- ===== src/Social/Feed.antt =====
-- The feed of social.py: which events a user sees, the loop that fills a page, and its cursor. A
-- cursor is the time and the id that its text encodes; the details of an item are left out.
pub mod Page
pub mod Paged
pub mod Hidden
use golf_rank.Base.{
  ℕ, zero, suc, ◌+◌, ◌*◌, max, String, Bool, true, false, not, ◌&&◌, ◌||◌, Option, none, some, List,
  [], ◌∷◌, ◌++◌, ◌==◌, ltb, leb, if◌then◌else◌, keep, length, is_empty, take, drop, sort_by,
}
use golf_rank.Domain.Courses.{among}
use golf_rank.Domain.Audience.{Edge, either_ids}
use golf_rank.Domain.User.{User, find_user}
use golf_rank.Rounds.{Round, Visibility, friends, everyone, RoundState}
use golf_rank.Rounds.Update.{visibility_code}
use golf_rank.Social.{
  SubjectType, a_round, a_rating_round, another, EventType, ranking_updated, other_event, Event,
  SocialState,
}
use golf_rank.Social.Graph.{get_user, relationship_sets}

abbrev pub has_visibility : Visibility → Event → Bool
has_visibility v e = visibility_code e.visibility == visibility_code v

-- `_event_visible`
abbrev pub event_visible : ℕ → List ℕ → List ℕ → Event → Bool
event_visible viewer followed_ids mutual_ids e =
    e.actor_user_id == viewer
    || ((among followed_ids e.actor_user_id && has_visibility everyone e)
        || (among mutual_ids e.actor_user_id && has_visibility friends e))

-- `session.get(Round, id)`
unfoldable pub round_row : ℕ → List Round → Option Round
round_row id [] = none
round_row id (r ∷ rounds) = if r.id == id then some r else round_row id rounds

abbrev pub names_round : SubjectType → Bool
names_round a_round = true
names_round a_rating_round = true
names_round another = false

abbrev pub backs : Event → Option Round → Bool
backs e none = false
backs e (some r) =
    r.user_id == e.actor_user_id && visibility_code r.visibility == visibility_code e.visibility

-- `_event_matches_current_round_visibility`
unfoldable pub matches_round : List Round → Event → Bool
matches_round rounds e =
    if names_round e.subject_type then backs e (round_row e.subject_id rounds) else true

abbrev pub is_feed_type : EventType → Bool
is_feed_type ranking_updated = false
is_feed_type other_event = true

-- Who an event of the feed can come from: the users whom the viewer follows, and the mutual friends.
pub record Circle : Type 0 where
  pub viewer : ℕ
  pub followed_ids : List ℕ
  pub mutual_ids : List ℕ
  -- blocked or muted
  pub excluded : List ℕ

unfoldable pub circle_of : ℕ → SocialState → Circle
circle_of user db =
    let (followed_ids, mutual_ids) = relationship_sets user db.base.follows in
    record {
      viewer = user;
      followed_ids = followed_ids;
      mutual_ids = mutual_ids;
      excluded = either_ids user db.base.blocks ++ either_ids user db.mutes;
    }

abbrev pub not_excluded : Circle → List ℕ → List ℕ
not_excluded c ids = keep (λ i. not (among c.excluded i)) ids

-- The condition of the query.
abbrev pub selected : Circle → Event → Bool
selected c e =
    is_feed_type e.event_type
    && event_visible c.viewer (not_excluded c c.followed_ids) (not_excluded c c.mutual_ids) e

abbrev pub is_known_user : Option User → Bool
is_known_user none = false
is_known_user (some u) = true

-- What the loop over the rows lets through.
abbrev pub survives : Circle → List Round → List User → Event → Bool
survives c rounds users e =
    (event_visible c.viewer c.followed_ids c.mutual_ids e && matches_round rounds e)
    && is_known_user (get_user e.actor_user_id users)

abbrev pub Cursor : Type 0
Cursor = ℕ × ℕ

-- `ActivityEvent.created_at <= created_at`
abbrev pub not_later : Option Cursor → Event → Bool
not_later none e = true
not_later (some c) e = leb e.created_at c.0

-- The events that the loop passes over for a cursor.
abbrev pub is_past : Option Cursor → Event → Bool
is_past none e = false
is_past (some c) e = ltb c.0 e.created_at || (e.created_at == c.0 && leb c.1 e.id)

-- `order_by(created_at.desc(), id.desc())`
abbrev pub comes_first : Event → Event → Bool
comes_first a b = ltb b.created_at a.created_at || (a.created_at == b.created_at && leb b.id a.id)

-- Appends the events that pass until more than `limit` are there.
unfoldable pub collect : (Event → Bool) → ℕ → List Event → List Event → List Event
collect p limit output [] = output
collect p limit output (e ∷ events) =
    let next = if p e then output ++ e ∷ [] else output in
    let rest = collect p limit next events in if p e && ltb limit (length next) then next else rest

module _ (rows : List Event) (passes : Event → Bool) (limit batch_size : ℕ) where
  -- The `while` loop, on fuel.
  unfoldable pub feed_loop : ℕ → ℕ → List Event → List Event
  feed_loop zero offset output = output
  feed_loop (suc fuel) offset output =
      let events = take batch_size (drop offset rows) in
      let next = collect (λ _. true) limit output (collect passes limit [] events) in
      let rest = feed_loop fuel (offset + length events) next in
      if is_empty events
      then output
      else if ltb limit (length next) || ltb (length events) batch_size
      then next
      else rest

pub record FeedPage : Type 0 where
  pub items : List Event
  pub next_cursor : Option Cursor

unfoldable pub last_of : List Event → Option Cursor
last_of [] = none
last_of (e ∷ []) = some (e.created_at, e.id)
last_of (e ∷ f ∷ events) = last_of (f ∷ events)

abbrev pub page_of : ℕ → List Event → FeedPage
page_of limit output =
    if ltb limit (length output)
    then record { items = take limit output; next_cursor = last_of (take limit output) }
    else record { items = output; next_cursor = none }

abbrev pub feed_rows : Circle → Option Cursor → List Event → List Event
feed_rows c cursor events =
    sort_by comes_first (keep (λ e. selected c e && not_later cursor e) events)

-- The page of a user.
abbrev pub feed_for : Circle → ℕ → Option Cursor → SocialState → FeedPage
feed_for c limit cursor db =
    let rows = feed_rows c cursor db.activity in
    page_of limit (
      feed_loop rows
        (λ e. not (is_past cursor e) && survives c db.base.rounds db.base.ranking.accounts.users e)
        limit (max 100 (limit * 2)) (suc (length rows)) 0 [])

abbrev pub feed_of_found : ℕ → Option Cursor → SocialState → Option User → FeedPage
feed_of_found limit cursor db none = record { items = []; next_cursor = none }
feed_of_found limit cursor db (some user) = feed_for (circle_of user.id db) limit cursor db

-- `activity_feed`
unfoldable pub activity_feed : String → ℕ → Option Cursor → SocialState → FeedPage
activity_feed subject limit cursor db =
    feed_of_found limit cursor db (find_user subject db.base.ranking.accounts.users)
