-- ===== src/Social/Tests.antt =====
-- The social graph, the feed and the reactions at a concrete state.
use golf_rank.Base.{ℕ, ◌≡◌, refl, false, none, some, [], ◌∷◌, arith, ok, All}
use golf_rank.Base.Rounding.{half_even}
use golf_rank.Domain.User.{User, find_user, stored_user_created}
use golf_rank.Rounds.{Visibility, only_me, everyone}
use golf_rank.Rounds.Handlers.{require_user}
use golf_rank.Rounds.Tests.{anna, bob, value}
use golf_rank.Rounds.Tests.{state as rounds}
use golf_rank.Social.{another, other_event, Event, SocialState}
use golf_rank.Social.Graph.{get_user, FollowOut, follow_user}
use golf_rank.Social.Graph.Apart.{StaysApart, begun, followed, follows_user, blocks_sever_follows}
use golf_rank.Social.Graph.Repeated.{repeated, follow_user-again}
use golf_rank.Social.Feed.{circle_of, activity_feed}
use golf_rank.Social.Feed.Paged.{whole_feed, read_feed, read_feed_lem}
use golf_rank.Social.Feed.Hidden.{IsProper, activity_feed-IsProper}
use golf_rank.Social.Reactions.{
  Reacted, require_visible_event, get_event, add_reaction, remove_reaction,
}
use golf_rank.Social.Reactions.Toggled.{add_reaction-again, remove_reaction-add_reaction}
use golf_rank.Social.Feed.{matches_round}
use golf_rank.Social.Summary.{get_user_round_summary}
use golf_rank.Social.Summary.Private.{hide_private, get_user_round_summary-private}

abbrev event : ℕ → ℕ → Visibility → Event
event id actor visibility = record {
  id = id;
  actor_user_id = actor;
  event_type = other_event;
  subject_type = another;
  subject_id = 0;
  visibility = visibility;
  created_at = 5;
}

-- Anna follows Bob, whose three events stand beside one of her own.
abbrev state : SocialState
state = record {
  base = rounds;
  mutes = [];
  activity = event 1 8 everyone ∷ event 2 8 only_me ∷ event 3 7 only_me ∷ event 4 8 everyone ∷ [];
  reactions = record { event_id = 4; user_id = 9 } ∷ [];
}

abbrev no_follow : FollowOut
no_follow = record { user_id = 0; is_mutual = false; pushed = [] }

abbrev bob_follows : SocialState × FollowOut
bob_follows = value (state, no_follow) (follow_user "bob" 7 state)

bob_followed : follow_user "bob" 7 state ≡ ok bob_follows
unfolding follow_user stored_user_created find_user get_user
bob_followed = refl

apart : StaysApart state
apart u v = ground arith

blocks_sever_follows_example : StaysApart bob_follows.0
blocks_sever_follows_example =
    blocks_sever_follows (followed begun (follows_user "bob" 7 state bob_follows bob_followed))
      apart

follow_user-again_example :
    (user : User) × (follow_user "bob" 7 bob_follows.0
      ≡ ok (bob_follows.0, repeated user.id 7 bob_follows.0.base))
follow_user-again_example = follow_user-again "bob" 7 state bob_follows bob_followed

read_feed_lem_example :
    read_feed (circle_of 7 state) state 1 5 none ≡ whole_feed (circle_of 7 state) state
unfolding circle_of matches_round get_user
read_feed_lem_example =
    read_feed_lem (circle_of 7 state) state 1 (omega arith)
      (
        ((λ e. omega (arith, e)), ((λ e. omega (arith, e)), ((λ e. omega (arith, e)), tt))),
        (
          ((λ e. omega (arith, e)), ((λ e. omega (arith, e)), tt)),
          (((λ e. omega (arith, e)), tt), (tt, tt)),
        ),
      )
      5 (omega arith)

known_anna : find_user "anna" rounds.ranking.accounts.users ≡ some anna
unfolding find_user
known_anna = refl

activity_feed-IsProper_example : All (IsProper state 7) (activity_feed "anna" 20 none state).items
activity_feed-IsProper_example = activity_feed-IsProper "anna" 20 none state anna known_anna

abbrev unreacted : Reacted
unreacted = record {
  state = state;
  pushed = [];
  out = record { event_id = 0; reaction_count = 0; viewer_reacted = false };
}

abbrev liked : Reacted
liked = value unreacted (add_reaction "anna" 4 "like" state)

is_liked : add_reaction "anna" 4 "like" state ≡ ok liked
unfolding add_reaction require_user find_user require_visible_event get_event matches_round
is_liked = refl

add_reaction-again_example :
    (x' : Reacted) × (add_reaction "anna" 4 "like" liked.state ≡ ok x')
    × (x'.state ≡ liked.state)
    × (x'.pushed ≡ [])
    × (x'.out ≡ liked.out)
add_reaction-again_example = add_reaction-again "anna" 4 "like" state liked is_liked

user_anna : require_user rounds.ranking.accounts "anna" ≡ ok anna
unfolding require_user find_user
user_anna = refl

remove_reaction-add_reaction_example :
    (x' : Reacted) × (remove_reaction "anna" 4 "like" liked.state ≡ ok x')
    × (x'.state.reactions ≡ state.reactions)
remove_reaction-add_reaction_example =
    remove_reaction-add_reaction "anna" 4 "like" state anna liked user_anna refl is_liked

user_bob : require_user rounds.ranking.accounts "bob" ≡ ok bob
unfolding require_user find_user
user_bob = refl

get_user_round_summary-private_example :
    get_user_round_summary half_even "bob" 2026 7 (hide_private 7 state)
    ≡ get_user_round_summary half_even "bob" 2026 7 state
get_user_round_summary-private_example =
    get_user_round_summary-private half_even "bob" 2026 7 state bob user_bob refl
