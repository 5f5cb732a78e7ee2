-- ===== src/Social.antt =====
-- services/api/app/social.py: the tables of the social graph, the feed and the reactions.
pub mod Graph
pub mod Feed
pub mod Reactions
pub mod Lists
pub mod Contacts
pub mod Summary
mod Tests
use golf_rank.Base.{ℕ, Option, List}
use golf_rank.Domain.Audience.{Edge}
use golf_rank.Rounds.{RoundState, Visibility}

-- The values of `subject_type`; only the first two name a round.
pub data SubjectType : Type 0 where
  a_round a_rating_round another : SubjectType

-- Whether `event_type` is `ranking_updated`.
pub data EventType : Type 0 where
  ranking_updated other_event : EventType

-- A row of `activity_events`.
pub record Event : Type 0 where
  pub id : ℕ
  pub actor_user_id : ℕ
  pub event_type : EventType
  pub subject_type : SubjectType
  pub subject_id : ℕ
  pub visibility : Visibility
  pub created_at : ℕ

-- A row of `activity_reactions`; `like` is the one reaction that the handlers store.
pub record Reaction : Type 0 where
  pub event_id : ℕ
  pub user_id : ℕ

pub record SocialState : Type 0 where
  -- the accounts, the follows, the blocks, the preferences, the rounds and the notifications
  pub base : RoundState
  pub mutes : List Edge
  pub activity : List Event
  pub reactions : List Reaction
