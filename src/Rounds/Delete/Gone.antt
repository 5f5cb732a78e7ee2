-- ===== src/Rounds/Delete/Gone.antt =====
-- What is left of a round that `delete_round` has deleted.
use golf_rank.Base.{
  ℕ, String, ◌≡◌, refl, sym, ap, subst, ◌∙◌, inl, inr, Bool, true, false, not, Option, none, some,
  List, [], ◌∷◌, ◌==◌, if◌then◌else◌, keep, any, Bool-cases, ok, raise, err≢ok, bind_ok, ok-inj,
}
use golf_rank.Base.Rounding.{Rounding}
use golf_rank.Domain.User.{User}
use golf_rank.Domain.People.{is_about}
use golf_rank.Ranking.Snapshot.{Entry}
use golf_rank.Ranking.Handlers.{RankingState, Snapshot, with_entries, stage_snapshot}
use golf_rank.Rounds.{Round, RoundState}
use golf_rank.Rounds.Handlers.{require_user, find_round, or_no_round, get_round}
use golf_rank.Rounds.Update.Steps.{found_ok, found_is_wanted}
use golf_rank.Rounds.Delete.{
  delete_evidence, drop_event, drop_evidence, drop_round, ranking_view, deleted, restage,
  delete_round,
}
use golf_rank.Rounds.Update.{is_event_of}

-- No row of the tables refers to the round.
pub record IsGone (user rid : ℕ) (db : RoundState) : Type 0 where
  pub rounds : any (λ r. r.id == rid) db.rounds ≡ false
  pub notes : any (λ n. n.round_id == rid) db.notes ≡ false
  pub companions : any (λ c. c.round_id == rid) db.companions ≡ false
  pub notifications : any (λ n. is_about rid n.subject_id) db.notifications ≡ false
  pub photos : any (λ p. is_about rid p.round_id) db.photos ≡ false
  pub events : any (is_event_of user rid) db.events ≡ false

any-dropped {ℓ} :
    {A : Type ℓ} (p : A → Bool) (xs : List A) → any p (keep (λ x. not (p x)) xs) ≡ false
any-dropped p [] = refl
any-dropped p (x ∷ xs) = elim (Bool-cases (p x)) [
  | inl e ↦ rw e (any-dropped p xs)
  | inr e ↦ rw e (rw e (any-dropped p xs))
]

find_round-missing :
    (rid user : ℕ) (rounds : List Round)
    → any (λ r. r.id == rid) rounds ≡ false
    → find_round rid user rounds ≡ none
unfolding find_round
find_round-missing rid user [] h = refl
find_round-missing rid user (x ∷ rounds) h = elim (Bool-cases (x.id == rid)) [
  | inl e ↦
      absurd (impossible (sym (ap (λ b. if b then true else any (λ r. r.id == rid) rounds) e) ∙ h))
  | inr e ↦ rw e (
      find_round-missing rid user rounds
        (sym (ap (λ b. if b then true else any (λ r. r.id == rid) rounds) e) ∙ h))
]
  where
    impossible : true ≡ false → ⊥
    impossible q = cc

module _ (onboarding_played : ℕ → ℕ → Bool) where
  dropped-IsGone :
      (is_rating : Bool) (user : ℕ) (r : Round) (db : RoundState)
      → IsGone user r.id
          (drop_round r.id (drop_evidence is_rating user r.course_id (drop_event user r.id db)))
  unfolding drop_round
  dropped-IsGone false user r db = record {
    rounds = any-dropped (λ x. x.id == r.id) db.rounds;
    notes = any-dropped (λ n. n.round_id == r.id) db.notes;
    companions = any-dropped (λ c. c.round_id == r.id) db.companions;
    notifications = any-dropped (λ n. is_about r.id n.subject_id) db.notifications;
    photos = any-dropped (λ p. is_about r.id p.round_id) db.photos;
    events = any-dropped (is_event_of user r.id) db.events;
  }
  dropped-IsGone true user r db = record {
    rounds = any-dropped (λ x. x.id == r.id) db.rounds;
    notes = any-dropped (λ n. n.round_id == r.id) db.notes;
    companions = any-dropped (λ c. c.round_id == r.id) db.companions;
    notifications = any-dropped (λ n. is_about r.id n.subject_id) db.notifications;
    photos = any-dropped (λ p. is_about r.id p.round_id) db.photos;
    events = any-dropped (is_event_of user r.id) db.events;
  }

  deleted-IsGone :
      (user : ℕ) (r : Round) (db : RoundState)
      → IsGone user r.id (deleted onboarding_played user r db)
  unfolding deleted
  deleted-IsGone user r db =
      let g = dropped-IsGone r.is_rating_round user r db in
      record {
        rounds = g.rounds;
        notes = g.notes;
        companions = g.companions;
        notifications = g.notifications;
        photos = g.photos;
        events = g.events;
      }

  deleted-accounts :
      (user : ℕ) (r : Round) (db : RoundState)
      → (deleted onboarding_played user r db).ranking.accounts ≡ db.ranking.accounts
  unfolding deleted drop_round delete_evidence
  deleted-accounts user r db = kept r.is_rating_round
    where
      kept :
          (b : Bool)
          → (drop_round r.id
              (drop_evidence b user r.course_id (drop_event user r.id db))).ranking.accounts
            ≡ db.ranking.accounts
      kept false = refl
      kept true = refl

  module _ (rd : Rounding) where
    with_entries-accounts :
        (user : ℕ) (emit : Bool) (s : RankingState) (entries : Option (List Entry))
        (x : RankingState × Snapshot)
        → with_entries rd user emit s entries ≡ ok x
        → x.0.accounts ≡ s.accounts
    with_entries-accounts user emit s none x h = absurd (err≢ok _ x h)
    with_entries-accounts user emit s (some entries) x h =
        ap (λ y. y.0.accounts) (sym (ok-inj _ x h))

    stage_snapshot-accounts :
        (user : ℕ) (emit : Bool) (s : RankingState) (x : RankingState × Snapshot)
        → stage_snapshot rd user emit s ≡ ok x
        → x.0.accounts ≡ s.accounts
    unfolding stage_snapshot
    stage_snapshot-accounts user emit s x h = with_entries-accounts user emit s _ x h

    restage_kept :
        (is_rating : Bool) (user rid : ℕ) (db after : RoundState)
        → restage onboarding_played rd is_rating user db ≡ ok after
        → IsGone user rid db
        → IsGone user rid after × (after.ranking.accounts ≡ db.ranking.accounts)
    restage_kept false user rid db after h g =
        subst (λ x. IsGone user rid x × (x.ranking.accounts ≡ db.ranking.accounts))
          (ok-inj _ after h) (g, refl)
    restage_kept true user rid db after h g =
        let (staged, s, h1) = bind_ok (stage_snapshot rd user true (ranking_view db)) _ after h in
        subst (λ x. IsGone user rid x × (x.ranking.accounts ≡ db.ranking.accounts))
          (ok-inj _ after h1)
          (
            record {
              rounds = g.rounds;
              notes = g.notes;
              companions = g.companions;
              notifications = g.notifications;
              photos = g.photos;
              events = g.events;
            },
            stage_snapshot-accounts user true (ranking_view db) staged s,
          )

    -- After a round was deleted, no row of the rounds, notes, companions, notifications, photos or
    -- activity of its owner refers to it, and a request for it is answered 404.
    pub delete_round-IsGone :
        (storage : Option (String → Bool)) (subject : String) (round_id : ℕ) (db after : RoundState)
        → delete_round onboarding_played rd storage subject round_id db ≡ ok after
        → (user : User) × (require_user db.ranking.accounts subject ≡ ok user)
          × IsGone user.id round_id after
          × (get_round subject round_id after ≡ raise 404 "Round not found")
    unfolding delete_round get_round
    delete_round-IsGone storage subject round_id db after h =
        let (user, u, h1) = bind_ok (require_user db.ranking.accounts subject) _ after h in
        let (r, f, h2) = bind_ok (or_no_round (find_round round_id user.id db.rounds)) _ after h1 in
        let (staged, s, h3) =
          bind_ok
            (restage onboarding_played rd r.is_rating_round user.id
              (deleted onboarding_played user.id r db))
            _ after h2 in
        let same = (found_is_wanted round_id user.id db.rounds r (found_ok _ r f)).0 in
        let (g, a) =
          restage_kept r.is_rating_round user.id round_id (deleted onboarding_played user.id r db)
            staged s
            (subst (λ i. IsGone user.id i (deleted onboarding_played user.id r db)) same
              (deleted-IsGone user.id r db)) in
        subst
          (λ x.
            (v : User) × (require_user db.ranking.accounts subject ≡ ok v)
            × IsGone v.id round_id x
            × (get_round subject round_id x ≡ raise 404 "Round not found"))
          (ok-inj _ after h3)
          (
            user,
            u,
            record {
              rounds = g.rounds;
              notes = g.notes;
              companions = g.companions;
              notifications = g.notifications;
              photos = g.photos;
              events = g.events;
            },
            rw (ap (λ x. require_user x subject) (a ∙ deleted-accounts user.id r db) ∙ u)
                (rw (find_round-missing round_id user.id staged.rounds g.rounds) refl),
          )
