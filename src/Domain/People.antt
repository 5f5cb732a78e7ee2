-- ===== src/Domain/People.antt =====
-- What the handlers read of other users: `notifications_enabled` of domain.py, the names that
-- rounds.py shows, and the rows of `app_notifications`.
use Prim.Native.String.{◌++◌ as ◌⋯◌}
use golf_rank.Base.{
  ℕ, String, Bool, true, false, ◌&&◌, Option, none, some, List, [], ◌∷◌, ◌==◌, if◌then◌else◌, any,
}
use golf_rank.Base.Texts.{is_nonempty, strip}

-- A row of `onboarding_preferences` with the keys of its `onboarding_data` that are read; a missing
-- key, or no `onboarding_data`, is `none`.
pub record Preferences : Type 0 where
  pub user_id : ℕ
  pub first_name : Option String
  pub last_name : Option String
  pub notifications : Option Bool

unfoldable pub preferences_of : ℕ → List Preferences → Option Preferences
preferences_of user [] = none
preferences_of user (p ∷ ps) = if p.user_id == user then some p else preferences_of user ps

-- `value is not False`
abbrev pub is_not_false : Option Bool → Bool
is_not_false none = true
is_not_false (some b) = b

abbrev pub allows : Option Preferences → Bool
allows none = true
allows (some p) = is_not_false p.notifications

unfoldable pub notifications_enabled : List Preferences → ℕ → Bool
notifications_enabled ps user = allows (preferences_of user ps)

-- `Golfer {id}`, or a name.
pub data DisplayName : Type 0 where
  golfer : ℕ → DisplayName
  full_name : String → DisplayName

abbrev pub text_of : Option String → String
text_of none = ""
text_of (some s) = s

-- `" ".join(item for item in (first, last) if item).strip()`
abbrev pub joined : String → String → String
joined first last =
    strip
      (if is_nonempty first then (if is_nonempty last then first ⋯ " " ⋯ last else first) else last)

abbrev pub name_or_id : ℕ → Option Preferences → DisplayName
name_or_id user none = golfer user
name_or_id user (some p) =
    let name = joined (text_of p.first_name) (text_of p.last_name) in
    if is_nonempty name then full_name name else golfer user

unfoldable pub display_name : List Preferences → ℕ → DisplayName
display_name ps user = name_or_id user (preferences_of user ps)

pub data NotificationType : Type 0 where
  followed_you mutual_follow contact_joined tagged_in_round reacted_to_round : NotificationType

pub record Notification : Type 0 where
  pub id : ℕ
  pub recipient_user_id : ℕ
  pub actor_user_id : ℕ
  pub notification_type : NotificationType
  -- the round, for the two types that have one
  pub subject_id : Option ℕ

abbrev pub is_tag : NotificationType → Bool
is_tag tagged_in_round = true
is_tag followed_you = false
is_tag mutual_follow = false
is_tag contact_joined = false
is_tag reacted_to_round = false

abbrev pub is_about : ℕ → Option ℕ → Bool
is_about n none = false
is_about n (some m) = m == n

abbrev pub type_code : NotificationType → ℕ
type_code followed_you = 0
type_code mutual_follow = 1
type_code contact_joined = 2
type_code tagged_in_round = 3
type_code reacted_to_round = 4

abbrev pub same_type : NotificationType → NotificationType → Bool
same_type a b = type_code a == type_code b

-- Whether the actor has notified the recipient in this way.
abbrev pub has_notified : ℕ → ℕ → NotificationType → List Notification → Bool
has_notified recipient actor type ns =
    any
      (λ n.
        n.recipient_user_id == recipient
        && (n.actor_user_id == actor && same_type n.notification_type type))
      ns
