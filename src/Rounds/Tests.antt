-- ===== src/Rounds/Tests.antt =====
-- The rounds at a concrete state.
use golf_rank.Base.{
  ℕ, ◌≡◌, refl, Bool, true, false, ◌&&◌, none, some, List, [], ◌∷◌, arith, ok, raise, All, inl, inr,
  Bool-cases, ◌==◌, Result, err,
}
use golf_rank.Base.Rounding.{half_even}
use golf_rank.Domain.Course.{Course, get_course, require_course}
use golf_rank.Domain.User.{User, find_user, stored_user_created}
use golf_rank.Domain.People.{preferences_of, notifications_enabled}
use golf_rank.Ranking.Table.{renumber}
use golf_rank.Ranking.Normalize.{normalized_order, ordered_groups}
use golf_rank.Ranking.Snapshot.{snapshot_entries, entries_from}
use golf_rank.Ranking.Handlers.{RankingState, stage_snapshot}
use golf_rank.Rounds.{Date, friends, everyone, Round, friend, guest, RoundState}
use golf_rank.Rounds.Companions.{companion_blocked_ids, validate_friend_ids, notify_tagged}
use golf_rank.Rounds.Companions.Valid.{validate_friend_ids_lem}
use golf_rank.Rounds.Companions.Notified.{notified, notify_tagged_lem}
use golf_rank.Rounds.Output.{RoundOut, round_out, rounds_out}
use golf_rank.Rounds.Refresh.{last_played, state_at}
use golf_rank.Rounds.Refresh.Dated.{IsDated}
use golf_rank.Rounds.Handlers.{
  RoundIn, Committed, create_round, list_rounds, require_user, find_round, get_round,
}
use golf_rank.Rounds.Handlers.Shown.{IsUnblocked, list_rounds-IsUnblocked, get_round-create_round}
use golf_rank.Rounds.Update.{RoundPatch, patch_companions, update_round}
use golf_rank.Rounds.Update.Resaved.{update_round-resaved}
use golf_rank.Rounds.Delete.{drop_round, delete_evidence, deleted, delete_round}
use golf_rank.Rounds.Delete.Gone.{IsGone, delete_round-IsGone}
use golf_rank.Rounds.Consistent.{IsConsistent}
use golf_rank.Rounds.Kept.{created, begun, followed, course_states_agree}

abbrev pub anna : User
anna = record { id = 7; provider_subject = "anna" }

abbrev pub bob : User
bob = record { id = 8; provider_subject = "bob" }

abbrev pub course : ℕ → Course
course id = record { id = id; source = "seed"; source_course_id = none }

abbrev may : ℕ → Date
may day = record { year = 2026; month = 5; day = day }

abbrev first_round : Round
first_round = record {
  id = 1;
  user_id = 7;
  course_id = 10;
  played_on = may 2;
  score = some 90;
  favorite_hole = none;
  is_favorite = false;
  is_rating_round = true;
  visibility = friends;
  tags = [];
  updated_at = 0;
}

abbrev pub ranking : RankingState
ranking = record {
  accounts = record { users = anna ∷ bob ∷ []; deleted = []; next_id = 9 };
  catalog = record { courses = course 10 ∷ []; reconciliations = [] };
  assignments = record { rows = []; next_id = 1 };
  comparisons = [];
  certainties = λ _ _. none;
  snapshots = [];
  projections = λ _. [];
  rounds = [];
  activity = [];
}

-- Anna follows Bob and has one round.
abbrev pub state : RoundState
state = record {
  ranking = ranking;
  follows = record { source = 7; target = 8 } ∷ [];
  blocks = record { source = 9; target = 7 } ∷ [];
  preferences = [];
  rounds = first_round ∷ [];
  notes = [];
  companions =
      record { id = 1; round_id = 1; who = guest "Zoe" }
      ∷ record { id = 2; round_id = 1; who = friend 9 }
      ∷ [];
  states =
      record {
        user_id = 7;
        course_id = 10;
        has_played = true;
        round_count = 1;
        last_played_on = some (may 2);
      }
      ∷ [];
  notifications = [];
  events = [];
  photos = record { round_id = some 1; storage_key = some "k" } ∷ [];
  failed_deletions = [];
  next_round = 2;
  next_companion = 3;
  next_notification = 1;
  next_event = 1;
}

abbrev onboarding : ℕ → ℕ → Bool
onboarding u c = false

validate_friend_ids_lem_example :
    validate_friend_ids (anna ∷ bob ∷ []) state.follows state.blocks 7 (8 ∷ 8 ∷ []) ≡ ok (8 ∷ [])
validate_friend_ids_lem_example =
    validate_friend_ids_lem (anna ∷ bob ∷ []) state.follows state.blocks 7 (8 ∷ 8 ∷ [])

notify_tagged_lem_example : notified [] 7 1 [] 8 (notify_tagged [] 7 1 [] 1 (8 ∷ 7 ∷ []) []) ≡ true
unfolding notifications_enabled preferences_of
notify_tagged_lem_example = notify_tagged_lem [] 7 1 [] 1 (8 ∷ 7 ∷ []) [] 8

abbrev request : RoundIn
request = record {
  course_id = 10;
  played_on = may 9;
  score = some 85;
  note = some "windy";
  favorite_hole = none;
  friend_user_ids = 8 ∷ [];
  guest_names = "Zoe" ∷ [];
  visibility = everyone;
  is_favorite = true;
  tags = [];
}

abbrev pub value {ℓ} : {A : Type ℓ} → A → Result A → A
value a (err e) = a
value a (ok b) = b

abbrev nothing : Committed
nothing = record { state = state; pushed = []; answer = raise 500 "" }

abbrev logged : Committed
logged = value nothing (create_round onboarding 5 "anna" request state)

is_logged : create_round onboarding 5 "anna" request state ≡ ok logged
unfolding create_round stored_user_created find_user require_course get_course validate_friend_ids
    companion_blocked_ids
is_logged = refl

get_round-create_round_example : get_round "anna" 2 logged.state ≡ logged.answer
get_round-create_round_example =
    get_round-create_round onboarding 5 "anna" request state logged (omega arith, tt) is_logged

start : IsConsistent state
unfolding state_at last_played
start = record {
  distinct = (tt, tt);
  issued = (omega arith, tt);
  agrees = λ u c. elim (Bool-cases (7 == u && 10 == c)) [ inl e ↦ rw e refl | inr e ↦ rw e refl ];
}

course_states_agree_example : IsConsistent logged.state × IsDated logged.state
course_states_agree_example =
    course_states_agree onboarding half_even
      (followed begun (created 5 "anna" request state logged is_logged)) start

abbrev patch : RoundPatch
patch = record {
  played_on = none;
  score = some none;
  note = none;
  favorite_hole = none;
  friend_user_ids = some (8 ∷ []);
  guest_names = some [];
  visibility = none;
  is_favorite = none;
  tags = none;
}

abbrev patched_once : Committed
patched_once = value nothing (update_round onboarding 6 "anna" 1 patch state)

is_patched : update_round onboarding 6 "anna" 1 patch state ≡ ok patched_once
unfolding update_round require_user find_user find_round patch_companions validate_friend_ids
    companion_blocked_ids
is_patched = refl

update_round-resaved_example :
    (c' : Committed) × (update_round onboarding 8 "anna" 1 patch patched_once.state ≡ ok c')
    × (c'.pushed ≡ [])
update_round-resaved_example =
    update_round-resaved onboarding 6 8 "anna" 1 patch state patched_once is_patched

abbrev removed_state : RoundState
removed_state = value state (delete_round onboarding half_even none "anna" 1 state)

is_removed : delete_round onboarding half_even none "anna" 1 state ≡ ok removed_state
unfolding delete_round require_user find_user find_round stage_snapshot snapshot_entries
    entries_from normalized_order ordered_groups deleted drop_round delete_evidence renumber
is_removed = refl

delete_round-IsGone_example :
    (user : User) × (require_user ranking.accounts "anna" ≡ ok user)
    × IsGone user.id 1 removed_state
    × (get_round "anna" 1 removed_state ≡ raise 404 "Round not found")
delete_round-IsGone_example =
    delete_round-IsGone onboarding half_even none "anna" 1 state removed_state is_removed

abbrev shown : List RoundOut
shown = value [] (list_rounds "anna" 50 0 none false state)

is_shown : list_rounds "anna" 50 0 none false state ≡ ok shown
unfolding list_rounds find_user rounds_out round_out require_course get_course
is_shown = refl

known_anna : find_user "anna" ranking.accounts.users ≡ some anna
unfolding find_user
known_anna = refl

list_rounds-IsUnblocked_example : All (λ out. All (IsUnblocked state 7) out.companions) shown
list_rounds-IsUnblocked_example =
    list_rounds-IsUnblocked "anna" 50 0 none false state anna shown known_anna is_shown
