-- ===== src/Rounds/Update/Resaved.antt =====
-- An update that is sent twice.
use golf_rank.Base.{
  ℕ, String, ◌≡◌, refl, sym, ap, subst, ◌∙◌, inl, inr, Bool, true, false, Option, none, some, List,
  [], ◌∷◌, arith, ◌==◌, if◌then◌else◌, every, Bool-cases, map, Result, ok, bind_ok, ok-inj,
}
use golf_rank.Domain.Courses.{among}
use golf_rank.Domain.User.{User}
use golf_rank.Domain.People.{Notification}
use golf_rank.Rounds.{Round, RoundState}
use golf_rank.Rounds.Companions.{validate_friend_ids, tagged_ids}
use golf_rank.Rounds.Companions.Valid.{every_self}
use golf_rank.Rounds.Companions.Notified.{notify_tagged-tagged, tagged_ids-replace_companions}
use golf_rank.Rounds.Handlers.{Committed, require_user, find_round}
use golf_rank.Rounds.Update.{
  RoundPatch, patch_round, save_round, patch_companions, with_columns, finish_update, end_update,
  update_round, tag_friends,
}
use golf_rank.Rounds.Update.Steps.{
  update_round-IsUpdated, patch_companions_keeps, patch_round-keys, found_is_wanted, is_wanted,
}

-- What the validation of the companions reads.
record IsAlike (a b : RoundState) : Type 0 where
  ranking : a.ranking ≡ b.ranking
  follows : a.follows ≡ b.follows
  blocks : a.blocks ≡ b.blocks

patch_companions-IsAlike :
    (user rid : ℕ) (f : Option (List ℕ)) (g : Option (List String)) (db : RoundState)
    (t : RoundState × List Notification)
    → patch_companions user rid f g db ≡ ok t
    → IsAlike t.0 db
patch_companions-IsAlike user rid f g db t h = record {
  ranking = patch_companions_keeps (λ x. x.ranking) user rid f g db t (λ ids names. refl) h;
  follows = patch_companions_keeps (λ x. x.follows) user rid f g db t (λ ids names. refl) h;
  blocks = patch_companions_keeps (λ x. x.blocks) user rid f g db t (λ ids names. refl) h;
}

abbrev valid_friends : RoundState → ℕ → List ℕ → Result (List ℕ)
valid_friends db user f = validate_friend_ids db.ranking.accounts.users db.follows db.blocks user f

valid_friends-IsAlike :
    (a b : RoundState) (user : ℕ) (f : List ℕ)
    → IsAlike a b
    → valid_friends a user f ≡ valid_friends b user f
valid_friends-IsAlike a b user f s = rw (s.ranking, s.follows, s.blocks) refl

-- The same companions once more: accepted again, and nobody is notified.
companions_again :
    (user rid : ℕ) (f : Option (List ℕ)) (g : Option (List String)) (db : RoundState)
    (t : RoundState × List Notification) (after : RoundState)
    → patch_companions user rid f g db ≡ ok t
    → IsAlike after db
    → after.companions ≡ t.0.companions
    → (t' : RoundState × List Notification) × (patch_companions user rid f g after ≡ ok t')
      × (t'.1 ≡ [])
unfolding patch_companions
companions_again user rid none g db t after h s e = ((after, []), refl, refl)
companions_again user rid (some f) none db t after h s e = ((after, []), refl, refl)
companions_again user rid (some f) (some g) db t after h s e =
    let (ids, v, k) = bind_ok (valid_friends db user f) _ t h in
    (
      tag_friends user rid ids g after,
      rw (valid_friends-IsAlike after db user f s ∙ v) refl,
      notify_tagged-tagged after.preferences user rid (tagged_ids rid after.companions)
          after.next_notification ids after.notifications
          (ap (λ xs. every (among xs) ids) (named ids k) ∙ every_self ids),
    )
  where
    named :
        (ids : List ℕ)
        → ok (tag_friends user rid ids g db) ≡ ok t
        → tagged_ids rid after.companions ≡ ids
    named ids k =
        ap (tagged_ids rid) (e ∙ ap (λ x. x.0.companions) (sym (ok-inj _ t k)))
        ∙ tagged_ids-replace_companions rid db.next_companion ids g db.companions

found-save_round :
    (rid user : ℕ) (rounds : List Round) (old r : Round)
    → find_round rid user rounds ≡ some old
    → r.id ≡ rid
    → r.user_id ≡ user
    → find_round rid user (save_round r rounds) ≡ some r
unfolding find_round save_round
found-save_round rid user [] old r h i u = absurd cc
found-save_round rid user (x ∷ rounds) old r h i u = elim (Bool-cases (x.id == r.id)) [
  | inl e ↦ rw e (rw (here i u) refl)
  | inr e ↦
      let miss = apart e i in
      rw e (rw miss (found-save_round rid user rounds old r (tail miss) i u))
]
  where
    apart : (x.id == r.id) ≡ false → r.id ≡ rid → is_wanted rid user x ≡ false
    apart e i = ground (arith, e, i)

    tail : is_wanted rid user x ≡ false → find_round rid user rounds ≡ some old
    tail e = sym (ap (λ b. if b then some x else find_round rid user rounds) e) ∙ h

    here : r.id ≡ rid → r.user_id ≡ user → is_wanted rid user r ≡ true
    here i u = ground (arith, i, u)

module _ (onboarding_played : ℕ → ℕ → Bool) where
  update_ok :
      (now : ℕ) (subject : String) (round_id : ℕ) (p : RoundPatch) (db : RoundState) (user : User)
      (old : Round) (t : RoundState × List Notification)
      → require_user db.ranking.accounts subject ≡ ok user
      → find_round round_id user.id db.rounds ≡ some old
      → patch_companions user.id old.id p.friend_user_ids p.guest_names
          (with_columns onboarding_played p (patch_round now p old) db)
        ≡ ok t
      → update_round onboarding_played now subject round_id p db
        ≡ ok (end_update onboarding_played user.id (patch_round now p old) t)
  unfolding update_round
  update_ok now subject round_id p db user old t u f h = rw u (rw f (rw h refl))

  -- An update that has succeeded and is sent once more succeeds again, and it pushes nothing: whoever
  -- the first one tagged is not notified a second time.
  pub update_round-resaved :
      (now later : ℕ) (subject : String) (round_id : ℕ) (p : RoundPatch) (db : RoundState)
      (c : Committed)
      → update_round onboarding_played now subject round_id p db ≡ ok c
      → (c' : Committed) × (update_round onboarding_played later subject round_id p c.state ≡ ok c')
        × (c'.pushed ≡ [])
  update_round-resaved now later subject round_id p db c h =
      let u = update_round-IsUpdated onboarding_played now subject round_id p db c h in
      let r = patch_round now p u.old in
      let keys = patch_round-keys now p u.old in
      let wanted = found_is_wanted round_id u.user.id db.rounds u.old u.is_found in
      let alike = patch_companions-IsAlike _ _ _ _ _ u.tagged u.is_tagged in
      let same_rounds =
        patch_companions_keeps (λ x. x.rounds) _ _ _ _ _ u.tagged (λ ids g. refl) u.is_tagged in
      let (t, again, silent) =
        companions_again u.user.id u.old.id p.friend_user_ids p.guest_names _ u.tagged
          (with_columns onboarding_played p (patch_round later p r)
            (finish_update onboarding_played u.user.id r u.tagged.0))
          u.is_tagged
          (record { ranking = alike.ranking; follows = alike.follows; blocks = alike.blocks })
          refl in
      let found : find_round round_id u.user.id (save_round r db.rounds) ≡ some r =
        found-save_round round_id u.user.id db.rounds u.old r u.is_found (keys.0 ∙ wanted.0)
          (keys.1 ∙ wanted.1) in
      subst
        (λ x.
          (c' : Committed) × (update_round onboarding_played later subject round_id p x.state
            ≡ ok c')
          × (c'.pushed ≡ []))
        u.is_ended
        (
          end_update onboarding_played u.user.id (patch_round later p r) t,
          update_ok later subject round_id p _ u.user r t
              (ap (λ x. require_user x.accounts subject) alike.ranking ∙ u.is_user)
              (ap (find_round round_id u.user.id) same_rounds ∙ found)
              (ap
                  (λ i. patch_companions u.user.id i p.friend_user_ids p.guest_names (
                    with_columns onboarding_played p (patch_round later p r)
                      (finish_update onboarding_played u.user.id r u.tagged.0)))
                  keys.0
                ∙ again),
          ap (map (λ n. n.id)) silent,
        )
