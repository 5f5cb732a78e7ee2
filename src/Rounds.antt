-- ===== src/Rounds.antt =====
-- services/api/app/rounds.py: the tables that its handlers read and write.
pub mod Companions
pub mod Output
pub mod Refresh
pub mod Handlers
pub mod Update
pub mod Delete
pub mod Played
pub mod Consistent
pub mod Kept
pub mod Tests
use golf_rank.Base.{ℕ, ◌+◌, ◌*◌, String, Bool, true, false, Option, List}
use golf_rank.Domain.Audience.{Edge}
use golf_rank.Domain.People.{Preferences, Notification}
use golf_rank.Ranking.Tier.{Tier}
use golf_rank.Ranking.Handlers.{RankingState}

-- A calendar date.
pub record Date : Type 0 where
  pub year : ℕ
  pub month : ℕ
  pub day : ℕ

-- Dates stand in the order of these numbers.
abbrev pub day_number : Date → ℕ
day_number d = d.year * 512 + d.month * 32 + d.day

pub data Visibility : Type 0 where
  only_me friends everyone : Visibility

pub record Round : Type 0 where
  pub id : ℕ
  pub user_id : ℕ
  pub course_id : ℕ
  pub played_on : Date
  pub score : Option ℕ
  pub favorite_hole : Option ℕ
  pub is_favorite : Bool
  pub is_rating_round : Bool
  pub visibility : Visibility
  pub tags : List String
  pub updated_at : ℕ

pub record RoundNote : Type 0 where
  pub round_id : ℕ
  pub body : String

-- `friend` of the users, `guest` of the names: the table's check constraint demands exactly one.
pub data Identity : Type 0 where
  friend : ℕ → Identity
  guest : String → Identity

pub record RoundCompanion : Type 0 where
  pub id : ℕ
  pub round_id : ℕ
  pub who : Identity

pub record UserCourseState : Type 0 where
  pub user_id : ℕ
  pub course_id : ℕ
  pub has_played : Bool
  pub round_count : ℕ
  pub last_played_on : Option Date

-- The values of `subject_type` that rounds.py handles.
pub data Subject : Type 0 where
  round_subject rating_subject : Subject

pub record EventData : Type 0 where
  pub course_id : ℕ
  pub played_on : Date
  pub score : Option ℕ
  pub tags : List String
  pub note : Option String
  pub favorite_hole : Option ℕ
  -- two keys of the event of a rating round
  pub rating : Option ℕ
  pub tier : Option Tier

pub record RoundEvent : Type 0 where
  pub id : ℕ
  pub actor_user_id : ℕ
  pub subject_type : Subject
  pub subject_id : ℕ
  pub visibility : Visibility
  pub event_data : EventData

-- What the deletion of a round reads of a row of `course_images`.
pub record RoundPhoto : Type 0 where
  pub round_id : Option ℕ
  pub storage_key : Option String

pub record RoundState : Type 0 where
  -- the accounts, the catalog and the tables of ranking.py
  pub ranking : RankingState
  pub follows : List Edge
  pub blocks : List Edge
  pub preferences : List Preferences
  pub rounds : List Round
  pub notes : List RoundNote
  pub companions : List RoundCompanion
  pub states : List UserCourseState
  pub notifications : List Notification
  pub events : List RoundEvent
  pub photos : List RoundPhoto
  -- `failed_object_deletions`
  pub failed_deletions : List String
  pub next_round : ℕ
  pub next_companion : ℕ
  pub next_notification : ℕ
  pub next_event : ℕ
