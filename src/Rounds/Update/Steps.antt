-- ===== src/Rounds/Update/Steps.antt =====
-- The steps of an update that succeeds.
use golf_rank.Base.{
  ℕ, String, ◌≡◌, refl, sym, ap, subst, ◌∙◌, inl, inr, Bool, true, false, ◌&&◌, Option, none, some,
  List, [], ◌∷◌, arith, ◌==◌, if◌then◌else◌, Bool-cases, ok, bind_ok, ok-inj, err≢ok,
}
use golf_rank.Domain.User.{User}
use golf_rank.Domain.People.{Notification}
use golf_rank.Rounds.{Round, RoundState}
use golf_rank.Rounds.Companions.{validate_friend_ids}
use golf_rank.Rounds.Handlers.{Committed, require_user, find_round, or_no_round}
use golf_rank.Rounds.Update.{
  RoundPatch, patched, is_unchanged, patch_round, patch_companions, with_columns, end_update,
  update_round, tag_friends,
}

-- The steps of an update that succeeds.
pub record IsUpdated (onboarding_played : ℕ → ℕ → Bool) (now : ℕ) (subject : String) (round_id : ℕ)
    (p : RoundPatch) (db : RoundState) (c : Committed) : Type 0 where
  pub user : User
  pub old : Round
  pub tagged : RoundState × List Notification
  pub is_user : require_user db.ranking.accounts subject ≡ ok user
  pub is_found : find_round round_id user.id db.rounds ≡ some old
  pub is_tagged :
      patch_companions user.id old.id p.friend_user_ids p.guest_names
        (with_columns onboarding_played p (patch_round now p old) db)
      ≡ ok tagged
  pub is_ended : end_update onboarding_played user.id (patch_round now p old) tagged ≡ c

pub found_ok : (o : Option Round) (r : Round) → or_no_round o ≡ ok r → o ≡ some r
found_ok none r h = absurd (err≢ok _ r h)
found_ok (some x) r h = ap some (ok-inj x r h)

-- What the tags of a patch do not touch, the patch of the companions keeps.
pub patch_companions_keeps {ℓ} :
    {X : Type ℓ} (φ : RoundState → X) (user rid : ℕ) (f : Option (List ℕ))
    (g : Option (List String)) (db : RoundState) (t : RoundState × List Notification)
    → ((ids : List ℕ) (names : List String) → φ (tag_friends user rid ids names db).0 ≡ φ db)
    → patch_companions user rid f g db ≡ ok t
    → φ t.0 ≡ φ db
unfolding patch_companions
patch_companions_keeps φ user rid none g db t k h = ap (λ x. φ x.0) (sym (ok-inj _ t h))
patch_companions_keeps φ user rid (some f) none db t k h = ap (λ x. φ x.0) (sym (ok-inj _ t h))
patch_companions_keeps φ user rid (some f) (some g) db t k h =
    let (ids, v, e) = bind_ok (validate_friend_ids _ _ _ user f) _ t h in
    ap (λ x. φ x.0) (sym (ok-inj _ t e)) ∙ k ids g

-- A patch leaves a round with its keys.
pub patch_round-keys :
    (now : ℕ) (p : RoundPatch) (r : Round)
    → ((patch_round now p r).id ≡ r.id)
      × ((patch_round now p r).user_id ≡ r.user_id)
      × ((patch_round now p r).course_id ≡ r.course_id)
unfolding patch_round
patch_round-keys now p r = elim (Bool-cases (is_unchanged r (patched p r))) [
  | inl e ↦ rw e (refl, refl, refl)
  | inr e ↦ rw e (refl, refl, refl)
]

abbrev pub is_wanted : ℕ → ℕ → Round → Bool
is_wanted rid user r = r.id == rid && r.user_id == user

pub found_is_wanted :
    (rid user : ℕ) (rounds : List Round) (r : Round)
    → find_round rid user rounds ≡ some r
    → (r.id ≡ rid) × (r.user_id ≡ user)
unfolding find_round
found_is_wanted rid user [] r h = absurd cc
found_is_wanted rid user (x ∷ rounds) r h = elim (Bool-cases (is_wanted rid user x)) [
  | inl e ↦ subst (λ y. (y.id ≡ rid) × (y.user_id ≡ user)) (head e) (ground (arith, e))
  | inr e ↦ found_is_wanted rid user rounds r (tail e)
]
  where
    head : is_wanted rid user x ≡ true → x ≡ r
    head e = cc

    tail : is_wanted rid user x ≡ false → find_round rid user rounds ≡ some r
    tail e = sym (ap (λ b. if b then some x else find_round rid user rounds) e) ∙ h

module _ (onboarding_played : ℕ → ℕ → Bool) where
  pub update_round-IsUpdated :
      (now : ℕ) (subject : String) (round_id : ℕ) (p : RoundPatch) (db : RoundState) (c : Committed)
      → update_round onboarding_played now subject round_id p db ≡ ok c
      → IsUpdated onboarding_played now subject round_id p db c
  unfolding update_round
  update_round-IsUpdated now subject round_id p db c h =
      let (user, u, h1) = bind_ok (require_user db.ranking.accounts subject) _ c h in
      let (old, o, h2) = bind_ok (or_no_round (find_round round_id user.id db.rounds)) _ c h1 in
      let (tagged, t, h3) = bind_ok (patch_companions user.id old.id _ _ _) _ c h2 in
      record {
        user = user;
        old = old;
        tagged = tagged;
        is_user = u;
        is_found = found_ok _ old o;
        is_tagged = t;
        is_ended = ok-inj _ c h3;
      }
