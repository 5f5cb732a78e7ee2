-- ===== src/Social/Graph/Apart.antt =====
-- Follows and blocks of social.py together.
use golf_rank.Base.{
  ℕ, String, ◌≡◌, refl, sym, subst, subst₂, ◌∙◌, inl, inr, Bool, true, false, not, ◌&&◌, ◌||◌, List,
  [], ◌∷◌, ◌++◌, arith, ◌==◌, Bool-cases, ok, require, bind_ok, ok-inj, err≢ok,
}
use golf_rank.Domain.Courses.{among}
use golf_rank.Domain.Audience.{Edge, either_ids}
use golf_rank.Domain.Audience.Mutual.{linked, among-either_ids}
use golf_rank.Domain.User.{User, Accounts, stored_user_created}
use golf_rank.Rounds.{RoundState}
use golf_rank.Rounds.Handlers.{require_user}
use golf_rank.Social.{SocialState}
use golf_rank.Social.Graph.{
  get_user, or_unknown, has_edge, without_edge, with_edge, follow_out, FollowOut, follow_for,
  follow_user, unfollow_user, relationship_target, block_user, unblock_user, mute_user, unmute_user,
  with_accounts,
}

pub has_edge-without_edge :
    (u v a b : ℕ) (edges : List Edge)
    → has_edge u v (without_edge a b edges) ≡ (not (a == u && b == v) && has_edge u v edges)
has_edge-without_edge u v a b [] = ground arith
has_edge-without_edge u v a b (e ∷ edges) = ground (arith, has_edge-without_edge u v a b edges)

pub has_edge-added :
    (u v a b : ℕ) (edges : List Edge)
    → has_edge u v (edges ++ record { source = a; target = b } ∷ [])
      ≡ ((a == u && b == v) || has_edge u v edges)
has_edge-added u v a b [] = ground arith
has_edge-added u v a b (e ∷ edges) = ground (arith, has_edge-added u v a b edges)

has_edge-same :
    (u v a b : ℕ) (edges : List Edge)
    → has_edge a b edges ≡ true
    → (a == u && b == v) ≡ true
    → has_edge u v edges ≡ true
has_edge-same u v a b edges h e =
    subst₂ (λ x y. has_edge x y edges ≡ true) (equal e).0 (equal e).1 h
  where
    equal : (a == u && b == v) ≡ true → (a ≡ u) × (b ≡ v)
    equal e = ground (arith, e)

pub has_edge-with_edge :
    (u v a b : ℕ) (edges : List Edge)
    → has_edge u v (with_edge a b edges) ≡ ((a == u && b == v) || has_edge u v edges)
has_edge-with_edge u v a b edges = elim (Bool-cases (has_edge a b edges)) [
  | inl h ↦ rw h (elim (Bool-cases (a == u && b == v)) [
    | inl e ↦ rw (e, has_edge-same u v a b edges h e) refl
    | inr e ↦ rw e refl
  ])
  | inr h ↦ rw h (has_edge-added u v a b edges)
]

-- Nobody follows a user with whom there is a block, in either direction.
abbrev pub AreApart : List Edge → List Edge → Type 0
AreApart follows blocks =
    (u v : ℕ) → (has_edge u v follows && (has_edge u v blocks || has_edge v u blocks)) ≡ false

module _ (follows blocks : List Edge) (apart : AreApart follows blocks) (a b : ℕ) where
  AreApart-follow :
      (linked blocks a b || linked blocks b a) ≡ false → AreApart (with_edge a b follows) blocks
  AreApart-follow h u v =
      rw (has_edge-with_edge u v a b follows) (elim (Bool-cases (a == u && b == v)) [
        | inl e ↦ rw e (moved (equal e))
        | inr e ↦ rw e (apart u v)
      ])
    where
      equal : (a == u && b == v) ≡ true → (a ≡ u) × (b ≡ v)
      equal e = ground (arith, e)

      moved : (a ≡ u) × (b ≡ v) → (has_edge u v blocks || has_edge v u blocks) ≡ false
      moved q = subst₂ (λ x y. (linked blocks x y || linked blocks y x) ≡ false) q.0 q.1 h

  AreApart-unfollow : AreApart (without_edge a b follows) blocks
  AreApart-unfollow u v = rw (has_edge-without_edge u v a b follows) (ground (arith, apart u v))

  AreApart-block : AreApart (without_edge b a (without_edge a b follows)) (with_edge a b blocks)
  AreApart-block u v =
      rw
        (
          has_edge-without_edge u v b a (without_edge a b follows),
          has_edge-without_edge u v a b follows,
          has_edge-with_edge u v a b blocks,
          has_edge-with_edge v u a b blocks,
        )
        (ground (arith, apart u v))

  AreApart-unblock : AreApart follows (without_edge a b blocks)
  AreApart-unblock u v =
      rw (has_edge-without_edge u v a b blocks, has_edge-without_edge v u a b blocks)
        (ground (arith, apart u v))

-- What `AreApart` reads of a state.
abbrev pub StaysApart : SocialState → Type 0
StaysApart db = AreApart db.base.follows db.base.blocks

pub follow_out-follows :
    (user target : ℕ) (db : RoundState)
    → ((follow_out user target db).0.follows ≡ with_edge user target db.follows)
      × ((follow_out user target db).0.blocks ≡ db.blocks)
follow_out-follows user target db = elim (Bool-cases (has_edge user target db.follows)) [
  | inl e ↦ rw e (refl, refl)
  | inr e ↦ rw e (refl, refl)
]

pub require_ok :
    (b : Bool) (status : ℕ) (detail : String) → require b status detail ≡ ok tt → b ≡ true
require_ok true status detail h = refl
require_ok false status detail h = absurd (err≢ok _ tt h)

pub not-true : (b : Bool) → not b ≡ true → b ≡ false
not-true b h = ground (arith, h)

follow_for-StaysApart :
    (target : ℕ) (db : SocialState) (account : Accounts × User) (x : SocialState × FollowOut)
    → StaysApart db
    → follow_for target db account ≡ ok x
    → StaysApart x.0
follow_for-StaysApart target db account x apart h =
    let user = account.1.id in
    let (t1, p1, h1) = bind_ok (require (not (target == user)) 422 _) _ x h in
    let (known, p2, h2) = bind_ok (or_unknown (get_user target account.0.users)) _ x h1 in
    let (t3, p3, h3) =
      bind_ok (require (not (among (either_ids user db.base.blocks) target)) 404 _) _ x h2 in
    let base = with_accounts account.0 db.base in
    let kept = follow_out-follows user target base in
    subst (λ y. StaysApart y.0) (ok-inj _ x h3)
      (subst₂ AreApart (sym kept.0) (sym kept.1) (
        AreApart-follow db.base.follows db.base.blocks apart user target (
          sym (among-either_ids user target db.base.blocks)
          ∙ not-true _ (require_ok _ 404 "User not found" p3))))

-- One request that changes the graph, answered without an error.
pub data GraphStep : SocialState → SocialState → Type 0 where
  follows_user :
      (subject : String) (target : ℕ) (db : SocialState) (x : SocialState × FollowOut)
      → follow_user subject target db ≡ ok x
      → GraphStep db x.0
  unfollows :
      (subject : String) (target : ℕ) (db after : SocialState)
      → unfollow_user subject target db ≡ ok after
      → GraphStep db after
  blocks_user :
      (subject : String) (target : ℕ) (db after : SocialState)
      → block_user subject target db ≡ ok after
      → GraphStep db after
  unblocks :
      (subject : String) (target : ℕ) (db after : SocialState)
      → unblock_user subject target db ≡ ok after
      → GraphStep db after
  mutes_user :
      (subject : String) (target : ℕ) (db after : SocialState)
      → mute_user subject target db ≡ ok after
      → GraphStep db after
  unmutes :
      (subject : String) (target : ℕ) (db after : SocialState)
      → unmute_user subject target db ≡ ok after
      → GraphStep db after

pub data GraphSteps (start : SocialState) : SocialState → Type 0 where
  begun : GraphSteps start start
  followed : {v w : SocialState} → GraphSteps start v → GraphStep v w → GraphSteps start w

module _ (subject : String) (target : ℕ) (db after : SocialState) (apart : StaysApart db) where
  unfollow_user-StaysApart : unfollow_user subject target db ≡ ok after → StaysApart after
  unfolding unfollow_user
  unfollow_user-StaysApart h =
      let (user, u, h1) = bind_ok (require_user db.base.ranking.accounts subject) _ after h in
      subst StaysApart (ok-inj _ after h1)
        (AreApart-unfollow db.base.follows db.base.blocks apart user.id target)

  block_user-StaysApart : block_user subject target db ≡ ok after → StaysApart after
  unfolding block_user
  block_user-StaysApart h =
      let (user, u, h1) = bind_ok (require_user db.base.ranking.accounts subject) _ after h in
      let (known, k, h2) = bind_ok (relationship_target user.id target _) _ after h1 in
      subst StaysApart (ok-inj _ after h2)
        (AreApart-block db.base.follows db.base.blocks apart user.id target)

  unblock_user-StaysApart : unblock_user subject target db ≡ ok after → StaysApart after
  unfolding unblock_user
  unblock_user-StaysApart h =
      let (user, u, h1) = bind_ok (require_user db.base.ranking.accounts subject) _ after h in
      subst StaysApart (ok-inj _ after h1)
        (AreApart-unblock db.base.follows db.base.blocks apart user.id target)

  mute_user-StaysApart : mute_user subject target db ≡ ok after → StaysApart after
  unfolding mute_user
  mute_user-StaysApart h =
      let (user, u, h1) = bind_ok (require_user db.base.ranking.accounts subject) _ after h in
      let (known, k, h2) = bind_ok (relationship_target user.id target _) _ after h1 in
      subst StaysApart (ok-inj _ after h2) apart

  unmute_user-StaysApart : unmute_user subject target db ≡ ok after → StaysApart after
  unfolding unmute_user
  unmute_user-StaysApart h =
      let (user, u, h1) = bind_ok (require_user db.base.ranking.accounts subject) _ after h in
      subst StaysApart (ok-inj _ after h1) apart

step-StaysApart : {v w : SocialState} → GraphStep v w → StaysApart v → StaysApart w
unfolding follow_user
step-StaysApart (follows_user subject target db x h) apart =
    let (account, s, h1) = bind_ok (stored_user_created db.base.ranking.accounts subject) _ x h in
    follow_for-StaysApart target db account x apart h1
step-StaysApart (unfollows subject target db after h) apart =
    unfollow_user-StaysApart subject target db after apart h
step-StaysApart (blocks_user subject target db after h) apart =
    block_user-StaysApart subject target db after apart h
step-StaysApart (unblocks subject target db after h) apart =
    unblock_user-StaysApart subject target db after apart h
step-StaysApart (mutes_user subject target db after h) apart =
    mute_user-StaysApart subject target db after apart h
step-StaysApart (unmutes subject target db after h) apart =
    unmute_user-StaysApart subject target db after apart h

-- If no user follows one with whom there is a block, in either direction, then no sequence of follows,
-- blocks, mutes and their opposites leads to a state where one does.
pub blocks_sever_follows : {v w : SocialState} → GraphSteps v w → StaysApart v → StaysApart w
blocks_sever_follows begun apart = apart
blocks_sever_follows (followed steps step) apart =
    step-StaysApart step (blocks_sever_follows steps apart)
