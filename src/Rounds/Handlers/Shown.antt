-- ===== src/Rounds/Handlers/Shown.antt =====
-- What `create_round`, `get_round` and `list_rounds` show.
use text.Mathlib.TextPositions.{eq_refl}
use text.Mathlib.Text.{◌==◌ as str_eq}
use golf_rank.Base.{
  ℕ, ◌+◌, ◌<◌, String, ◌≡◌, refl, sym, ap, subst, ◌∙◌, inl, inr, Bool, true, false, ◌||◌, Option,
  none, some, List, [], ◌∷◌, ◌++◌, arith, ◌==◌, ==-refl, if◌then◌else◌, any, map, Bool-cases, All,
  Result, ok, raise, err≢ok, bind_ok, ok-inj,
}
use golf_rank.Domain.Course.{require_course}
use golf_rank.Domain.Courses.{among}
use golf_rank.Domain.Audience.{either_ids}
use golf_rank.Domain.Audience.Mutual.{linked, among-either_ids}
use golf_rank.Domain.User.{
  User, Accounts, find_user, new_user, create_user, found_or_created, stored_user_created,
}
use golf_rank.Domain.People.{DisplayName, display_name}
use golf_rank.Rounds.{Round, RoundCompanion, Identity, friend, guest, RoundState}
use golf_rank.Rounds.Companions.{validate_friend_ids}
use golf_rank.Rounds.Output.{
  CompanionOut, RoundOut, owner_blocked_ids, companion_out, companions_of, round_out, rounds_out,
}
use golf_rank.Rounds.Handlers.{
  RoundIn, Committed, new_round, add_round, create_for, create_round, require_user, find_round,
  get_round, list_rounds, list_for,
}

-- A companion that names a friend names one with whom the owner has no block, and a display name is
-- that friend's.
pub record IsUnblocked (db : RoundState) (owner : ℕ) (c : CompanionOut) : Type 0 where
  pub no_block :
      (f : ℕ)
      → c.friend_user_id ≡ some f
      → (linked db.blocks owner f || linked db.blocks f owner) ≡ false
  pub own_name :
      (n : DisplayName)
      → c.display_name ≡ some n
      → (f : ℕ) × (c.friend_user_id ≡ some f) × (n ≡ display_name db.preferences f)

companion_out-IsUnblocked :
    (db : RoundState) (owner : ℕ) (who : Identity)
    → IsUnblocked db owner (companion_out db.preferences (owner_blocked_ids db owner) who)
unfolding owner_blocked_ids
companion_out-IsUnblocked db owner (friend g) =
    elim (Bool-cases (among (either_ids owner db.blocks) g)) [
      | inl e ↦ rw e (record { no_block = λ f h. absurd cc; own_name = λ n h. absurd cc })
      | inr e ↦ rw e (record {
        no_block = λ f h.
            subst (λ x. (linked db.blocks owner x || linked db.blocks x owner) ≡ false) (same g f h)
              (sym (among-either_ids owner g db.blocks) ∙ e);
        own_name = λ n h. (g, refl, cc);
      })
    ]
  where
    same : (a b : ℕ) → some a ≡ some b → a ≡ b
    same a b h = cc
companion_out-IsUnblocked db owner (guest name) = record {
  no_block = λ f h. absurd cc;
  own_name = λ n h. absurd cc;
}

companions-IsUnblocked :
    (db : RoundState) (owner : ℕ) (cs : List RoundCompanion)
    → All
        (IsUnblocked db owner)
        (map (λ c. companion_out db.preferences (owner_blocked_ids db owner) c.who) cs)
companions-IsUnblocked db owner [] = tt
companions-IsUnblocked db owner (c ∷ cs) =
    (companion_out-IsUnblocked db owner c.who, companions-IsUnblocked db owner cs)

round_out-IsUnblocked :
    (db : RoundState) (owner : ℕ) (r : Round) (out : RoundOut)
    → round_out db (owner_blocked_ids db owner) r ≡ ok out
    → All (IsUnblocked db owner) out.companions × (out.round ≡ r)
unfolding round_out
round_out-IsUnblocked db owner r out h =
    let (course, c, h1) = bind_ok (require_course db.ranking.catalog r.course_id) _ out h in
    subst (λ x. All (IsUnblocked db owner) x.companions × (x.round ≡ r)) (ok-inj _ out h1)
      (companions-IsUnblocked db owner (companions_of r.id db.companions), refl)

rounds_out-IsUnblocked :
    (db : RoundState) (owner : ℕ) (rounds : List Round) (outs : List RoundOut)
    → rounds_out db (owner_blocked_ids db owner) rounds ≡ ok outs
    → All (λ out. All (IsUnblocked db owner) out.companions) outs
unfolding rounds_out
rounds_out-IsUnblocked db owner [] outs h =
    subst (All (λ out. All (IsUnblocked db owner) out.companions)) (ok-inj _ outs h) tt
rounds_out-IsUnblocked db owner (r ∷ rounds) outs h =
    let (out, o, h1) = bind_ok (round_out db (owner_blocked_ids db owner) r) _ outs h in
    let (rest, q, h2) = bind_ok (rounds_out db (owner_blocked_ids db owner) rounds) _ outs h1 in
    subst (All (λ x. All (IsUnblocked db owner) x.companions)) (ok-inj _ outs h2)
      ((round_out-IsUnblocked db owner r out o).0, rounds_out-IsUnblocked db owner rounds rest q)

list_for-IsUnblocked :
    (year : Option ℕ) (favorites_only : Bool) (limit offset : ℕ) (db : RoundState)
    (found : Option User) (user : User) (outs : List RoundOut)
    → found ≡ some user
    → list_for year favorites_only limit offset db found ≡ ok outs
    → All (λ out. All (IsUnblocked db user.id) out.companions) outs
list_for-IsUnblocked year favorites_only limit offset db none user outs f h = absurd cc
list_for-IsUnblocked year favorites_only limit offset db (some u) user outs f h =
    subst (λ x. All (λ out. All (IsUnblocked db x.id) out.companions) outs) (same u user f)
      (rounds_out-IsUnblocked db u.id _ outs h)
  where
    same : (a b : User) → some a ≡ some b → a ≡ b
    same a b e = cc

-- In the rounds that a user lists, a companion with an id is one with whom the user has no block, in
-- either direction, and a companion with a display name has an id, whose display name it is.
pub list_rounds-IsUnblocked :
    (subject : String) (limit offset : ℕ) (year : Option ℕ) (favorites_only : Bool)
    (db : RoundState) (user : User) (outs : List RoundOut)
    → find_user subject db.ranking.accounts.users ≡ some user
    → list_rounds subject limit offset year favorites_only db ≡ ok outs
    → All (λ out. All (IsUnblocked db user.id) out.companions) outs
unfolding list_rounds
list_rounds-IsUnblocked subject limit offset year favorites_only db user outs f h =
    list_for-IsUnblocked year favorites_only limit offset db
      (find_user subject db.ranking.accounts.users) user outs f h

find_user-append :
    (subject : String) (users : List User) (u : User)
    → find_user subject users ≡ none
    → u.provider_subject ≡ subject
    → find_user subject (users ++ u ∷ []) ≡ some u
unfolding find_user
find_user-append subject [] u h e = rw e (rw (eq_refl subject) refl)
find_user-append subject (x ∷ users) u h e = elim (Bool-cases (str_eq x.provider_subject subject)) [
  | inl k ↦ absurd (head k)
  | inr k ↦ rw k (find_user-append subject users u (tail k) e)
]
  where
    head : str_eq x.provider_subject subject ≡ true → ⊥
    head k = cc

    tail : str_eq x.provider_subject subject ≡ false → find_user subject users ≡ none
    tail k = sym (ap (λ b. if b then some x else find_user subject users) k) ∙ h

abbrev Stored : String → Accounts × User → Type 0
Stored subject x = find_user subject x.0.users ≡ some x.1

created-Stored :
    (accounts : Accounts) (subject : String) (x : Accounts × User)
    → find_user subject accounts.users ≡ none
    → create_user accounts subject ≡ ok x
    → Stored subject x
created-Stored accounts subject x e h =
    elim (Bool-cases (any (λ s. str_eq s subject) accounts.deleted)) [
      | inl d ↦ absurd (err≢ok _ x (sym (ap go d) ∙ h))
      | inr d ↦
          subst (Stored subject) (ok-inj _ x (sym (ap go d) ∙ h))
            (find_user-append subject accounts.users (new_user accounts subject) e refl)
    ]
  where
    go : Bool → Result (Accounts × User)
    go b =
        if b
        then raise 410 "Account has been deleted"
        else ok (
          record accounts {
            users = accounts.users ++ new_user accounts subject ∷ [];
            next_id = accounts.next_id + 1;
          },
          new_user accounts subject,
        )

found-Stored :
    (accounts : Accounts) (subject : String) (x : Accounts × User) (o : Option User)
    → find_user subject accounts.users ≡ o
    → found_or_created accounts subject o ≡ ok x
    → Stored subject x
found-Stored accounts subject x none e h = created-Stored accounts subject x e h
found-Stored accounts subject x (some u) e h = subst (Stored subject) (ok-inj _ x h) e

-- The account that a request gets is the one that the next request finds.
pub stored_user_created-Stored :
    (accounts : Accounts) (subject : String) (x : Accounts × User)
    → stored_user_created accounts subject ≡ ok x
    → find_user subject x.0.users ≡ some x.1
unfolding stored_user_created
stored_user_created-Stored accounts subject x h =
    found-Stored accounts subject x (find_user subject accounts.users) refl h

found_added :
    (k user : ℕ) (rounds : List Round) (r : Round)
    → All (λ x. x.id < k) rounds
    → r.id ≡ k
    → r.user_id ≡ user
    → find_round k user (rounds ++ r ∷ []) ≡ some r
unfolding find_round
found_added k user [] r a i u = rw (i, u) (rw (==-refl k) (rw (==-refl user) refl))
found_added k user (x ∷ rounds) r a i u = rw (older a.0) (found_added k user rounds r a.1 i u)
  where
    older : x.id < k → (x.id == k) ≡ false
    older l = ground (arith, l)

module _ (onboarding_played : ℕ → ℕ → Bool) where
  get_round-found :
      (subject : String) (rid : ℕ) (db : RoundState) (user : User) (r : Round)
      → find_user subject db.ranking.accounts.users ≡ some user
      → find_round rid user.id db.rounds ≡ some r
      → get_round subject rid db ≡ round_out db (owner_blocked_ids db r.user_id) r
  unfolding get_round require_user
  get_round-found subject rid db user r u f = rw u (rw f refl)

  create_for-found :
      (now : ℕ) (subject : String) (p : RoundIn) (db : RoundState) (account : Accounts × User)
      (c : Committed)
      → All (λ r. r.id < db.next_round) db.rounds
      → find_user subject account.0.users ≡ some account.1
      → create_for onboarding_played now p db account ≡ ok c
      → get_round subject db.next_round c.state ≡ c.answer
  unfolding add_round
  create_for-found now subject p db account c issued s h =
      let (course, r, h1) = bind_ok (require_course db.ranking.catalog p.course_id) _ c h in
      let (ids, v, h2) =
        bind_ok (validate_friend_ids _ _ _ account.1.id p.friend_user_ids) _ c h1 in
      let new = new_round now db.next_round account.1.id course.id p in
      subst (λ x. get_round subject db.next_round x.state ≡ x.answer) (ok-inj _ c h2)
        (get_round-found subject db.next_round _ account.1 new s
          (found_added db.next_round account.1.id db.rounds new issued refl refl))

  -- A round that was logged is read back with the answer of the request that logged it, provided that
  -- the ids of the rounds there have all been issued.
  pub get_round-create_round :
      (now : ℕ) (subject : String) (p : RoundIn) (db : RoundState) (c : Committed)
      → All (λ r. r.id < db.next_round) db.rounds
      → create_round onboarding_played now subject p db ≡ ok c
      → get_round subject db.next_round c.state ≡ c.answer
  unfolding create_round
  get_round-create_round now subject p db c issued h =
      let (account, s, h1) = bind_ok (stored_user_created db.ranking.accounts subject) _ c h in
      create_for-found now subject p db account c issued
        (stored_user_created-Stored db.ranking.accounts subject account s) h1
