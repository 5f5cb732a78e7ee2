-- ===== src/Social/Feed/Hidden.antt =====
-- What the feed leaves out.
use golf_rank.Base.{
  ℕ, zero, suc, ◌+◌, String, ◌≡◌, refl, sym, ap, subst, ◌∙◌, inl, inr, Bool, true, not, ◌&&◌, ◌||◌,
  Option, none, some, List, [], ◌∷◌, arith, ◌==◌, ltb, keep, length, sort_by, take, Bool-cases, All,
  All-keep, if◌then◌else◌,
}
use golf_rank.Domain.Courses.{among}
use golf_rank.Domain.Audience.{either_ids, outgoing, incoming}
use golf_rank.Domain.Audience.Mutual.{
  linked, among-keep, among-append, among-outgoing, among-incoming, among-either_ids,
}
use golf_rank.Domain.User.{User, find_user}
use golf_rank.Rounds.{Round, Visibility, only_me, friends, everyone}
use golf_rank.Rounds.Update.{visibility_code}
use golf_rank.Social.{SubjectType, a_round, a_rating_round, another, Event, SocialState}
use golf_rank.Social.Feed.{
  circle_of, event_visible, comes_first, not_excluded, matches_round, round_row, names_round, backs,
  has_visibility, Cursor, page_of, feed_of_found, activity_feed,
}
use golf_rank.Social.Feed.Paged.{is_after, shown, whole_feed, feed_for_lem}

-- The viewer's own event, or one of a user whom the viewer follows and with whom there is neither a
-- block nor a mute: a public one, or one for friends where the two follow each other.
abbrev pub may_see : SocialState → ℕ → Event → Bool
may_see db viewer e =
    let actor = e.actor_user_id in
    actor == viewer
    || ((not (linked db.base.blocks viewer actor || linked db.base.blocks actor viewer)
          && not (linked db.mutes viewer actor || linked db.mutes actor viewer))
        && ((linked db.base.follows viewer actor && has_visibility everyone e)
            || ((linked db.base.follows actor viewer && linked db.base.follows viewer actor)
                && has_visibility friends e)))

-- The round that an event names is there, belongs to the author, and has the visibility of the event.
abbrev pub RoundBehind : List Round → Event → Type 0
RoundBehind rounds e =
    (r : Round) × (round_row e.subject_id rounds ≡ some r)
    × (r.user_id ≡ e.actor_user_id)
    × (r.visibility ≡ e.visibility)

abbrev pub Backed : SubjectType → List Round → Event → Type 0
Backed a_round rounds e = RoundBehind rounds e
Backed a_rating_round rounds e = RoundBehind rounds e
Backed another rounds e = Unit

-- An item of the feed: it may be seen, and a round behind it has the visibility of the event.
abbrev pub IsProper : SocialState → ℕ → Event → Type 0
IsProper db viewer e = (may_see db viewer e ≡ true) × Backed e.subject_type db.base.rounds e

same_visibility : (v w : Visibility) → (visibility_code v == visibility_code w) ≡ true → v ≡ w
same_visibility only_me only_me h = refl
same_visibility friends friends h = refl
same_visibility everyone everyone h = refl
same_visibility only_me friends h = absurd cc
same_visibility only_me everyone h = absurd cc
same_visibility friends only_me h = absurd cc
same_visibility friends everyone h = absurd cc
same_visibility everyone only_me h = absurd cc
same_visibility everyone friends h = absurd cc

backs-RoundBehind :
    (rounds : List Round) (e : Event) (found : Option Round)
    → round_row e.subject_id rounds ≡ found
    → backs e found ≡ true
    → RoundBehind rounds e
backs-RoundBehind rounds e none f h = absurd cc
backs-RoundBehind rounds e (some r) f h =
    (r, f, ground (arith, h), same_visibility r.visibility e.visibility (ground (arith, h)))

matches_round-Backed :
    (t : SubjectType) (rounds : List Round) (e : Event)
    → (if names_round t then backs e (round_row e.subject_id rounds) else true) ≡ true
    → Backed t rounds e
matches_round-Backed a_round rounds e h = backs-RoundBehind rounds e _ refl h
matches_round-Backed a_rating_round rounds e h = backs-RoundBehind rounds e _ refl h
matches_round-Backed another rounds e h = tt

excluded_lem :
    (user : ℕ) (db : SocialState) (v : ℕ)
    → among (circle_of user db).excluded v ≡ (
        (linked db.base.blocks user v || linked db.base.blocks v user)
        || (linked db.mutes user v || linked db.mutes v user))
unfolding circle_of
excluded_lem user db v =
    among-append v (either_ids user db.base.blocks) (either_ids user db.mutes)
    ∙ rw (among-either_ids user v db.base.blocks, among-either_ids user v db.mutes) refl

pick : (a b c d k : Bool) → ((a && b) && ((c && d) && k)) ≡ true → (b ≡ true) × (d ≡ true)
pick a b c d k h = ground (arith, h)

module _ (user : ℕ) (db : SocialState) where
  followed_lem :
      (v : ℕ)
      → among (not_excluded (circle_of user db) (circle_of user db).followed_ids) v
        ≡ (not (among (circle_of user db).excluded v) && linked db.base.follows user v)
  unfolding circle_of
  followed_lem v =
      among-keep _ v (outgoing user db.base.follows)
      ∙ ap (λ b. not (among (circle_of user db).excluded v) && b)
          (among-outgoing user v db.base.follows)

  mutual_lem :
      (v : ℕ)
      → among (not_excluded (circle_of user db) (circle_of user db).mutual_ids) v ≡ (
          not (among (circle_of user db).excluded v)
          && (linked db.base.follows v user && linked db.base.follows user v))
  unfolding circle_of
  mutual_lem v =
      among-keep _ v (keep (among (incoming user db.base.follows)) (outgoing user db.base.follows))
      ∙ ap (λ b. not (among (circle_of user db).excluded v) && b)
          (among-keep (among (incoming user db.base.follows)) v (outgoing user db.base.follows)
            ∙ rw (among-incoming user v db.base.follows, among-outgoing user v db.base.follows)
                refl)

  selected_lem : (e : Event) → shown (circle_of user db) db e ≡ true → IsProper db user e
  unfolding circle_of matches_round
  selected_lem e h =
      let (visible, matches) = pick _ _ _ _ _ h in
      (sym exact ∙ visible, matches_round-Backed e.subject_type db.base.rounds e matches)
    where
      algebra :
          (own x y f m p q : Bool)
          → (own || (((not (x || y) && f) && p) || ((not (x || y) && m) && q)))
            ≡ (own || ((not x && not y) && ((f && p) || (m && q))))
      algebra own x y f m p q = ground arith

      exact :
          event_visible user
            (not_excluded (circle_of user db) (circle_of user db).followed_ids)
            (not_excluded (circle_of user db) (circle_of user db).mutual_ids)
            e
          ≡ may_see db user e
      exact =
          rw
            (
              followed_lem e.actor_user_id,
              mutual_lem e.actor_user_id,
              excluded_lem user db e.actor_user_id,
            )
            (algebra (e.actor_user_id == user)
              (linked db.base.blocks user e.actor_user_id
                || linked db.base.blocks e.actor_user_id user)
              (linked db.mutes user e.actor_user_id || linked db.mutes e.actor_user_id user)
              (linked db.base.follows user e.actor_user_id)
              (linked db.base.follows e.actor_user_id user
                && linked db.base.follows user e.actor_user_id)
              (has_visibility everyone e) (has_visibility friends e))

  All-kept : (xs : List Event) → All (IsProper db user) (keep (shown (circle_of user db) db) xs)
  All-kept [] = tt
  All-kept (e ∷ xs) = elim (Bool-cases (shown (circle_of user db) db e)) [
    | inl k ↦ rw k (selected_lem e k, All-kept xs)
    | inr k ↦ rw k (All-kept xs)
  ]

All-take {ℓ} : (P : Event → Type ℓ) (n : ℕ) (xs : List Event) → All P xs → All P (take n xs)
All-take P zero xs h = tt
All-take P (suc n) [] h = tt
All-take P (suc n) (x ∷ xs) h = (h.0, All-take P n xs h.1)

All-page {ℓ} :
    (P : Event → Type ℓ) (limit : ℕ) (xs : List Event) → All P xs → All P (page_of limit xs).items
All-page P limit xs h = elim (Bool-cases (ltb limit (length xs))) [
  | inl e ↦ rw e (All-take P limit xs h)
  | inr e ↦ rw e h
]

feed_of_found-IsProper :
    (limit : ℕ) (cursor : Option Cursor) (db : SocialState) (user : User) (found : Option User)
    → found ≡ some user
    → All (IsProper db user.id) (feed_of_found limit cursor db found).items
feed_of_found-IsProper limit cursor db user none h = absurd cc
feed_of_found-IsProper limit cursor db user (some u) h =
    subst (λ v. All (IsProper db v) (feed_of_found limit cursor db (some u)).items) (same u user h)
      (subst (λ page. All (IsProper db u.id) page.items)
        (sym (feed_for_lem (circle_of u.id db) db limit cursor))
        (All-page (IsProper db u.id) limit _ (
          All-take (IsProper db u.id) (limit + 1) _ (
            All-keep (IsProper db u.id) (is_after cursor) (whole_feed (circle_of u.id db) db)
              (All-kept u.id db (sort_by comes_first db.activity))))))
  where
    same : (a b : User) → some a ≡ some b → a.id ≡ b.id
    same a b e = cc

-- Every item of a page of the feed is the user's own, or public and of somebody whom the user follows,
-- or for friends and of a mutual friend; with nobody else's author is there a block or a mute in either
-- direction; and the round that an item names is there, is the author's, and still has
-- the visibility that the item had.
pub activity_feed-IsProper :
    (subject : String) (limit : ℕ) (cursor : Option Cursor) (db : SocialState) (user : User)
    → find_user subject db.base.ranking.accounts.users ≡ some user
    → All (IsProper db user.id) (activity_feed subject limit cursor db).items
unfolding activity_feed
activity_feed-IsProper subject limit cursor db user h =
    feed_of_found-IsProper limit cursor db user (find_user subject db.base.ranking.accounts.users) h
