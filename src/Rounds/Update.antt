-- ===== src/Rounds/Update.antt =====
-- `update_round` of rounds.py. A field of the patch that the request leaves out is `none`.
pub mod Steps
pub mod Resaved
use text.Mathlib.Text.{◌==◌ as str_eq}
use golf_rank.Base.{
  ℕ, ◌+◌, String, Bool, true, false, not, ◌&&◌, Option, none, some, List, [], ◌∷◌, ◌++◌, ◌==◌,
  if◌then◌else◌, keep, map, length, Result, ok, ◌>>=◌,
}
use golf_rank.Base.Texts.{is_nonempty}
use golf_rank.Domain.People.{Notification}
use golf_rank.Rounds.{
  Date, day_number, Visibility, only_me, friends, everyone, Round, RoundNote, Subject,
  round_subject, rating_subject, EventData, RoundEvent, RoundState,
}
use golf_rank.Rounds.Companions.{validate_friend_ids, replace_companions, tagged_ids, notify_tagged}
use golf_rank.Rounds.Output.{note_of}
use golf_rank.Rounds.Refresh.{refresh_course_state, make_event_data}
use golf_rank.Rounds.Handlers.{Committed, answered, require_user, find_round, or_no_round}

-- RoundPatch, after its validators. A null is told apart from a field that is left out where the
-- code does so.
pub record RoundPatch : Type 0 where
  pub played_on : Option Date
  pub score : Option (Option ℕ)
  pub note : Option (Option String)
  pub favorite_hole : Option (Option ℕ)
  pub friend_user_ids : Option (List ℕ)
  pub guest_names : Option (List String)
  pub visibility : Option Visibility
  pub is_favorite : Option Bool
  pub tags : Option (List String)

abbrev pub or_old {ℓ} : {A : Type ℓ} → Option A → A → A
or_old none old = old
or_old (some new) old = new

abbrev pub same_number : Option ℕ → Option ℕ → Bool
same_number none none = true
same_number none (some b) = false
same_number (some a) none = false
same_number (some a) (some b) = a == b

abbrev pub visibility_code : Visibility → ℕ
visibility_code only_me = 0
visibility_code friends = 1
visibility_code everyone = 2

abbrev pub same_flag : Bool → Bool → Bool
same_flag true b = b
same_flag false b = not b

abbrev pub same_tags : List String → List String → Bool
same_tags [] [] = true
same_tags [] (t ∷ ts) = false
same_tags (s ∷ ss) [] = false
same_tags (s ∷ ss) (t ∷ ts) = str_eq s t && same_tags ss ts

-- No column that a patch can set Differs.
abbrev pub is_unchanged : Round → Round → Bool
is_unchanged a b =
    day_number a.played_on == day_number b.played_on
    && (same_number a.score b.score
        && (same_number a.favorite_hole b.favorite_hole
            && (same_flag a.is_favorite b.is_favorite
                && (visibility_code a.visibility == visibility_code b.visibility
                    && same_tags a.tags b.tags))))

abbrev pub patched : RoundPatch → Round → Round
patched p r = record r {
  played_on = or_old p.played_on r.played_on;
  score = or_old p.score r.score;
  favorite_hole = or_old p.favorite_hole r.favorite_hole;
  is_favorite = or_old p.is_favorite r.is_favorite;
  visibility = or_old p.visibility r.visibility;
  tags = or_old p.tags r.tags;
}

-- `onupdate=func.now()`: a row is written when a column of it has changed.
unfoldable pub patch_round : ℕ → RoundPatch → Round → Round
patch_round now p r =
    if is_unchanged r (patched p r) then patched p r else record (patched p r) { updated_at = now }

unfoldable pub save_round : Round → List Round → List Round
save_round r [] = []
save_round r (x ∷ rounds) =
    let rest = save_round r rounds in if x.id == r.id then r ∷ rest else x ∷ rest

abbrev pub drop_note : ℕ → List RoundNote → List RoundNote
drop_note round_id notes = keep (λ n. not (n.round_id == round_id)) notes

unfoldable pub set_note : ℕ → String → List RoundNote → List RoundNote
set_note round_id body [] = record { round_id = round_id; body = body } ∷ []
set_note round_id body (n ∷ notes) =
    let rest = set_note round_id body notes in
    if n.round_id == round_id then record n { body = body } ∷ notes else n ∷ rest

-- The branch on `"note" in payload.model_fields_set`.
abbrev pub patch_note : ℕ → Option (Option String) → List RoundNote → List RoundNote
patch_note round_id none notes = notes
patch_note round_id (some none) notes = drop_note round_id notes
patch_note round_id (some (some body)) notes =
    if is_nonempty body then set_note round_id body notes else drop_note round_id notes

-- The companions of the patch and what they cost: the state and the notifications created.
abbrev pub tag_friends : ℕ → ℕ → List ℕ → List String → RoundState → RoundState × List Notification
tag_friends user round_id friend_ids guest_names db =
    let created =
      notify_tagged db.preferences user round_id (tagged_ids round_id db.companions)
        db.next_notification friend_ids db.notifications in
    (
      record db {
        companions =
            replace_companions db.next_companion round_id friend_ids guest_names db.companions;
        notifications = db.notifications ++ created;
        next_companion = db.next_companion + length friend_ids + length guest_names;
        next_notification = db.next_notification + length created;
      },
      created,
    )

-- The branch on `friend_user_ids` and `guest_names`, both given.
unfoldable pub patch_companions :
    ℕ
    → ℕ
    → Option (List ℕ)
    → Option (List String)
    → RoundState
    → Result (RoundState × List Notification)
patch_companions user round_id none guest_names db = ok (db, [])
patch_companions user round_id (some friend_user_ids) none db = ok (db, [])
patch_companions user round_id (some friend_user_ids) (some guest_names) db = do
  friend_ids ←
      validate_friend_ids db.ranking.accounts.users db.follows db.blocks user friend_user_ids
  ok (tag_friends user round_id friend_ids guest_names db)

abbrev pub is_event_of : ℕ → ℕ → RoundEvent → Bool
is_event_of user round_id e = e.subject_id == round_id && e.actor_user_id == user

-- `event_data.update({"rating": ..., "tier": ...})` for a rating round.
abbrev pub kept_rating : Subject → EventData → EventData → EventData
kept_rating round_subject old new = new
kept_rating rating_subject old new = record new { rating = old.rating; tier = old.tier }

-- The event of the round follows it.
unfoldable pub update_event : ℕ → Round → Option String → List RoundEvent → List RoundEvent
update_event user r body [] = []
update_event user r body (e ∷ events) =
    let rest = update_event user r body events in
    if is_event_of user r.id e
    then record e {
      visibility = r.visibility;
      event_data = kept_rating e.subject_type e.event_data (make_event_data r body);
    }
      ∷ events
    else e ∷ rest

module _ (onboarding_played : ℕ → ℕ → Bool) where
  -- What follows the companions.
  abbrev pub finish_update : ℕ → Round → RoundState → RoundState
  finish_update user r db = record db {
    events = update_event user r (note_of r.id db.notes) db.events;
    states = refresh_course_state onboarding_played user r.course_id db.rounds db.states;
  }

  abbrev pub with_columns : RoundPatch → Round → RoundState → RoundState
  with_columns p r db = record db {
    rounds = save_round r db.rounds;
    notes = patch_note r.id p.note db.notes;
  }

  abbrev pub end_update : ℕ → Round → RoundState × List Notification → Committed
  end_update user r (db, created) = answered (finish_update user r db) created r

  -- `update_round`
  unfoldable pub update_round : ℕ → String → ℕ → RoundPatch → RoundState → Result Committed
  update_round now subject round_id p db = do
    user ← require_user db.ranking.accounts subject
    old ← or_no_round (find_round round_id user.id db.rounds)
    tagged ←
        patch_companions user.id old.id p.friend_user_ids p.guest_names
          (with_columns p (patch_round now p old) db)
    ok (end_update user.id (patch_round now p old) tagged)
