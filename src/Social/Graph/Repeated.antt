-- ===== src/Social/Graph/Repeated.antt =====
-- A follow that is sent twice.
use golf_rank.Base.{
  ℕ, String, ◌≡◌, refl, ap, subst, ◌∙◌, inl, inr, true, not, some, [], ◌==◌, ==-refl, Bool-cases,
  ok, require, bind_ok, ok-inj,
}
use golf_rank.Domain.Courses.{among}
use golf_rank.Domain.Audience.{either_ids}
use golf_rank.Domain.User.{User, Accounts, find_user, stored_user_created}
use golf_rank.Rounds.{RoundState}
use golf_rank.Rounds.Handlers.Shown.{stored_user_created-Stored}
use golf_rank.Social.{SocialState}
use golf_rank.Social.Graph.{
  get_user, or_unknown, has_edge, follow_out, FollowOut, follow_for, follow_user, with_accounts,
  with_base,
}
use golf_rank.Social.Graph.Apart.{has_edge-with_edge, follow_out-follows}

-- The answer to a follow that changes nothing.
abbrev pub repeated : ℕ → ℕ → RoundState → FollowOut
repeated user target db = record {
  user_id = target;
  is_mutual = has_edge target user db.follows;
  pushed = [];
}

follow_out-accounts :
    (user target : ℕ) (db : RoundState) → (follow_out user target db).0.ranking ≡ db.ranking
follow_out-accounts user target db = elim (Bool-cases (has_edge user target db.follows)) [
  | inl e ↦ rw e refl
  | inr e ↦ rw e refl
]

followed_edge :
    (user target : ℕ) (db : RoundState)
    → has_edge user target (follow_out user target db).0.follows ≡ true
followed_edge user target db =
    ap (has_edge user target) (follow_out-follows user target db).0
    ∙ has_edge-with_edge user target user target db.follows
    ∙ rw (==-refl user) (rw (==-refl target) refl)

follow_out-again :
    (user target : ℕ) (db : RoundState)
    → has_edge user target db.follows ≡ true
    → follow_out user target db ≡ (db, repeated user target db)
follow_out-again user target db h = rw h refl

-- The follow of a state in which the account is known and the edge is there.
follow_for-again :
    (target : ℕ) (db : SocialState) (user : User)
    → require (not (target == user.id)) 422 "You cannot follow yourself" ≡ ok tt
    → ((known : User) × (or_unknown (get_user target db.base.ranking.accounts.users) ≡ ok known))
    → require (not (among (either_ids user.id db.base.blocks) target)) 404 "User not found" ≡ ok tt
    → has_edge user.id target db.base.follows ≡ true
    → follow_for target db (db.base.ranking.accounts, user)
      ≡ ok (db, repeated user.id target db.base)
follow_for-again target db user p (known, k) q h =
    rw p (
      rw k
        (rw q (ap (λ x. ok (with_base db x.0, x.1)) (follow_out-again user.id target db.base h))))

stored_again :
    (accounts : Accounts) (subject : String) (user : User)
    → find_user subject accounts.users ≡ some user
    → stored_user_created accounts subject ≡ ok (accounts, user)
unfolding stored_user_created
stored_again accounts subject user h = rw h refl

follow_for_twice :
    (subject : String) (target : ℕ) (db : SocialState) (account : Accounts × User)
    (x : SocialState × FollowOut)
    → find_user subject account.0.users ≡ some account.1
    → follow_for target db account ≡ ok x
    → follow_user subject target x.0 ≡ ok (x.0, repeated account.1.id target x.0.base)
unfolding follow_user
follow_for_twice subject target db account x s h =
    let user = account.1 in
    let (t1, p1, h1) = bind_ok (require (not (target == user.id)) 422 _) _ x h in
    let (known, p2, h2) = bind_ok (or_unknown (get_user target account.0.users)) _ x h1 in
    let (t3, p3, h3) =
      bind_ok (require (not (among (either_ids user.id db.base.blocks) target)) 404 _) _ x h2 in
    let base = (follow_out user.id target (with_accounts account.0 db.base)).0 in
    let same : base.ranking.accounts ≡ account.0 =
      ap (λ y. y.accounts) (follow_out-accounts user.id target (with_accounts account.0 db.base)) in
    subst (λ y. follow_user subject target y.0 ≡ ok (y.0, repeated user.id target y.0.base))
      (ok-inj _ x h3)
      (rw
        (stored_again base.ranking.accounts subject user
          (ap (λ a. find_user subject a.users) same ∙ s))
        (follow_for-again target (with_base db base) user p1
          (known, ap (λ a. or_unknown (get_user target a.users)) same ∙ p2)
          (ap (λ b. require (not (among (either_ids user.id b) target)) 404 "User not found")
              (follow_out-follows user.id target (with_accounts account.0 db.base)).1
            ∙ p3)
          (followed_edge user.id target (with_accounts account.0 db.base))))

-- A follow that has succeeded and is sent once more succeeds, changes nothing and pushes nothing.
pub follow_user-again :
    (subject : String) (target : ℕ) (db : SocialState) (x : SocialState × FollowOut)
    → follow_user subject target db ≡ ok x
    → (user : User) × (follow_user subject target x.0 ≡ ok (x.0, repeated user.id target x.0.base))
unfolding follow_user
follow_user-again subject target db x h =
    let (account, s, h1) = bind_ok (stored_user_created db.base.ranking.accounts subject) _ x h in
    (
      account.1,
      follow_for_twice subject target db account x
          (stored_user_created-Stored db.base.ranking.accounts subject account s) h1,
    )
