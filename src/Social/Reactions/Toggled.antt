-- ===== src/Social/Reactions/Toggled.antt =====
-- A reaction that is added twice, or added and taken back.
use text.Mathlib.Text.{◌==◌ as str_eq}
use golf_rank.Base.{
  ℕ, String, ◌≡◌, refl, sym, ap, ap₂, subst, ◌∙◌, inl, inr, Bool, true, false, not, ◌&&◌, List, [],
  ◌∷◌, ◌++◌, ==-refl, if◌then◌else◌, keep, any, Bool-cases, ok, require, bind_ok, ok-inj,
}
use golf_rank.Base.Slices.{append_nil, keep-append}
use golf_rank.Domain.User.{User}
use golf_rank.Rounds.Handlers.{require_user}
use golf_rank.Social.{Event, Reaction, SocialState}
use golf_rank.Social.Graph.Apart.{require_ok}
use golf_rank.Social.Reactions.{
  is_reaction_of, answer, put_reaction, require_visible_event, add_reaction, remove_reaction,
  Reacted,
}

any-mine :
    (event_id user : ℕ) (rs : List Reaction)
    → any (is_reaction_of event_id user) (rs ++ record { event_id = event_id; user_id = user } ∷ [])
      ≡ true
any-mine event_id user [] = rw (==-refl event_id) (rw (==-refl user) refl)
any-mine event_id user (r ∷ rs) = elim (Bool-cases (is_reaction_of event_id user r)) [
  | inl e ↦ rw e refl
  | inr e ↦ rw e (any-mine event_id user rs)
]

keep_others :
    (event_id user : ℕ) (rs : List Reaction)
    → any (is_reaction_of event_id user) rs ≡ false
    → keep (λ r. not (is_reaction_of event_id user r)) rs ≡ rs
keep_others event_id user [] h = refl
keep_others event_id user (r ∷ rs) h = elim (Bool-cases (is_reaction_of event_id user r)) [
  | inl e ↦
      absurd (
        impossible
          (sym (ap (λ b. if b then true else any (is_reaction_of event_id user) rs) e) ∙ h))
  | inr e ↦ rw e (
      ap (λ xs. r ∷ xs)
        (keep_others event_id user rs
          (sym (ap (λ b. if b then true else any (is_reaction_of event_id user) rs) e) ∙ h)))
]
  where
    impossible : true ≡ false → ⊥
    impossible q = cc

-- What adding and taking back a reaction does to the rows.
restored :
    (event_id user : ℕ) (rs : List Reaction)
    → any (is_reaction_of event_id user) rs ≡ false
    → keep
        (λ r. not (is_reaction_of event_id user r))
        (rs ++ record { event_id = event_id; user_id = user } ∷ [])
      ≡ rs
restored event_id user rs h =
    keep-append (λ r. not (is_reaction_of event_id user r)) rs
      (record { event_id = event_id; user_id = user } ∷ [])
    ∙ ap₂ (λ xs ys. xs ++ ys) (keep_others event_id user rs h)
        (rw (==-refl event_id) (rw (==-refl user) refl))
    ∙ append_nil rs

-- The steps of a reaction that is added.
record IsAdded (subject : String) (event_id : ℕ) (reaction : String) (db : SocialState)
    (x : Reacted) : Type 0 where
  user : User
  event : Event
  is_like : require (str_eq reaction "like") 422 "Unsupported reaction" ≡ ok tt
  is_user : require_user db.base.ranking.accounts subject ≡ ok user
  is_event : require_visible_event user.id event_id db ≡ ok event
  is_answer :
      (if any (is_reaction_of event_id user.id) db.reactions
        then answer user.id event_id [] db
        else put_reaction user.id event_id event db)
      ≡ x

add_reaction-IsAdded :
    (subject : String) (event_id : ℕ) (reaction : String) (db : SocialState) (x : Reacted)
    → add_reaction subject event_id reaction db ≡ ok x
    → IsAdded subject event_id reaction db x
unfolding add_reaction
add_reaction-IsAdded subject event_id reaction db x h =
    let (t, l, h1) = bind_ok (require (str_eq reaction "like") 422 "Unsupported reaction") _ x h in
    let (user, u, h2) = bind_ok (require_user db.base.ranking.accounts subject) _ x h1 in
    let (e, v, h3) = bind_ok (require_visible_event user.id event_id db) _ x h2 in
    record {
      user = user;
      event = e;
      is_like = l;
      is_user = u;
      is_event = v;
      is_answer = ok-inj _ x h3;
    }

module _ (subject : String) (event_id : ℕ) (reaction : String) (db : SocialState) where
  -- Whichever branch an addition took, the reaction is there and the event is as visible as before.
  after_added :
      (user : User) (e : Event) (x : Reacted) (b : Bool)
      → any (is_reaction_of event_id user.id) db.reactions ≡ b
      → (if b then answer user.id event_id [] db else put_reaction user.id event_id e db) ≡ x
      → (any (is_reaction_of event_id user.id) x.state.reactions ≡ true)
        × (require_user x.state.base.ranking.accounts subject
            ≡ require_user db.base.ranking.accounts subject)
        × (require_visible_event user.id event_id x.state
            ≡ require_visible_event user.id event_id db)
        × (x.out ≡ (answer user.id event_id [] x.state).out)
  unfolding require_visible_event
  after_added user e x true there a =
      subst
        (λ y.
          (any (is_reaction_of event_id user.id) y.state.reactions ≡ true)
          × (require_user y.state.base.ranking.accounts subject
              ≡ require_user db.base.ranking.accounts subject)
          × (require_visible_event user.id event_id y.state
              ≡ require_visible_event user.id event_id db)
          × (y.out ≡ (answer user.id event_id [] y.state).out))
        a (there, refl, refl, refl)
  after_added user e x false there a =
      subst
        (λ y.
          (any (is_reaction_of event_id user.id) y.state.reactions ≡ true)
          × (require_user y.state.base.ranking.accounts subject
              ≡ require_user db.base.ranking.accounts subject)
          × (require_visible_event user.id event_id y.state
              ≡ require_visible_event user.id event_id db)
          × (y.out ≡ (answer user.id event_id [] y.state).out))
        a (any-mine event_id user.id db.reactions, refl, refl, refl)

  -- A reaction that was added and is added once more is there once: the second request succeeds, leaves
  -- the state as it is, pushes nothing, and answers the same counts.
  pub add_reaction-again :
      (x : Reacted)
      → add_reaction subject event_id reaction db ≡ ok x
      → (x' : Reacted) × (add_reaction subject event_id reaction x.state ≡ ok x')
        × (x'.state ≡ x.state)
        × (x'.pushed ≡ [])
        × (x'.out ≡ x.out)
  unfolding add_reaction
  add_reaction-again x h =
      let a = add_reaction-IsAdded subject event_id reaction db x h in
      let (there, same_user, same_event, out) =
        after_added a.user a.event x (any (is_reaction_of event_id a.user.id) db.reactions) refl
          a.is_answer in
      (
        answer a.user.id event_id [] x.state,
        rw a.is_like (rw (same_user ∙ a.is_user) (rw (same_event ∙ a.is_event) (rw there refl))),
        refl,
        refl,
        sym out,
      )

  added_rows :
      (user : User) (e : Event) (x : Reacted)
      → any (is_reaction_of event_id user.id) db.reactions ≡ false
      → (if any (is_reaction_of event_id user.id) db.reactions
          then answer user.id event_id [] db
          else put_reaction user.id event_id e db)
        ≡ x
      → x.state.reactions ≡ db.reactions ++ record { event_id = event_id; user_id = user.id } ∷ []
  added_rows user e x there a = sym (
      sym (
        ap
          (λ b.
            (if b
              then answer user.id event_id [] db
              else put_reaction user.id event_id e db).state.reactions)
          there)
      ∙ ap (λ y. y.state.reactions) a)

  -- A reaction that the user did not have, added and then taken back, leaves the reactions as they
  -- were.
  pub remove_reaction-add_reaction :
      (user : User) (x : Reacted)
      → require_user db.base.ranking.accounts subject ≡ ok user
      → any (is_reaction_of event_id user.id) db.reactions ≡ false
      → add_reaction subject event_id reaction db ≡ ok x
      → (x' : Reacted) × (remove_reaction subject event_id reaction x.state ≡ ok x')
        × (x'.state.reactions ≡ db.reactions)
  unfolding remove_reaction
  remove_reaction-add_reaction user x u none_yet h =
      let a = add_reaction-IsAdded subject event_id reaction db x h in
      let same : a.user ≡ user = ok-inj _ _ (sym a.is_user ∙ u) in
      let fresh =
        subst (λ v. any (is_reaction_of event_id v.id) db.reactions ≡ false) (sym same) none_yet in
      let (there, same_user, same_event, out) =
        after_added a.user a.event x (any (is_reaction_of event_id a.user.id) db.reactions) refl
          a.is_answer in
      let like = require_ok (str_eq reaction "like") 422 "Unsupported reaction" a.is_like in
      (
        answer a.user.id event_id [] (record x.state {
          reactions =
              keep (λ r. not (str_eq reaction "like" && is_reaction_of event_id a.user.id r))
                x.state.reactions;
        }),
        rw (same_user ∙ a.is_user) (rw (same_event ∙ a.is_event) refl),
        rw like (
            ap (keep (λ r. not (is_reaction_of event_id a.user.id r)))
              (added_rows a.user a.event x fresh a.is_answer)
            ∙ restored event_id a.user.id db.reactions fresh),
      )
