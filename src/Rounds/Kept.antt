-- ===== src/Rounds/Kept.antt =====
-- The handlers of rounds.py that write, one after another.
use golf_rank.Base.{
  ℕ, ◌+◌, ◌<◌, String, ◌≡◌, refl, sym, subst, ◌∙◌, Bool, true, false, not, Option, List, [], ◌∷◌,
  ◌++◌, arith, ◌==◌, keep, All, All-keep, All-append, All-map, ok, bind_ok, ok-inj,
}
use golf_rank.Base.Rounding.{Rounding}
use golf_rank.Base.Distinct.{DistinctOn, DistinctOn-keep, DistinctOn-append}
use golf_rank.Domain.Course.{require_course}
use golf_rank.Domain.User.{User, Accounts, stored_user_created}
use golf_rank.Ranking.Handlers.{stage_snapshot}
use golf_rank.Rounds.{Round, UserCourseState, RoundState}
use golf_rank.Rounds.Companions.{validate_friend_ids}
use golf_rank.Rounds.Refresh.{refresh_course_state}
use golf_rank.Rounds.Refresh.Agrees.{Agrees, Differs, Agrees-refresh}
use golf_rank.Rounds.Refresh.Dated.{IsDated, Agrees-IsDated}
use golf_rank.Rounds.Handlers.{
  RoundIn, Committed, new_round, add_round, create_for, create_round, require_user, find_round,
  or_no_round,
}
use golf_rank.Rounds.Update.{RoundPatch, patch_round, save_round, update_round}
use golf_rank.Rounds.Update.Steps.{
  found_is_wanted, found_ok, patch_companions_keeps, patch_round-keys, update_round-IsUpdated,
}
use golf_rank.Rounds.Delete.{
  ranking_view, drop_event, drop_evidence, drop_round, deleted, restage, delete_round,
}
use golf_rank.Rounds.Consistent.{
  IsConsistent, Owned, found-Owned, tally_rounds-added, tally_rounds-saved, tally_rounds-dropped,
  All-saved, DistinctOn-saved, All-found, Owned-keys,
}

-- The part of the state that `IsConsistent` reads.
abbrev read : RoundState → List Round × (List UserCourseState × ℕ)
read db = (db.rounds, (db.states, db.next_round))

module _ (onboarding_played : ℕ → ℕ → Bool) where
  create_for-IsConsistent :
      (now : ℕ) (p : RoundIn) (db : RoundState) (account : Accounts × User) (c : Committed)
      → IsConsistent db
      → create_for onboarding_played now p db account ≡ ok c
      → IsConsistent c.state
  unfolding add_round
  create_for-IsConsistent now p db account c w h =
      let (course, r, h1) = bind_ok (require_course db.ranking.catalog p.course_id) _ c h in
      let (ids, v, h2) =
        bind_ok (validate_friend_ids _ _ _ account.1.id p.friend_user_ids) _ c h1 in
      let new = new_round now db.next_round account.1.id course.id p in
      subst (λ x. IsConsistent x.state) (ok-inj _ c h2)
        (record {
          distinct =
              DistinctOn-append (λ x. x.id) db.rounds new w.distinct
                (All-map (λ x l e. impossible x.id l e) db.rounds w.issued);
          issued =
              All-append (λ x. x.id < db.next_round + 1) db.rounds (new ∷ [])
                (All-map (λ x l. grow x.id l) db.rounds w.issued) (omega arith, tt);
          agrees =
              Agrees-refresh onboarding_played account.1.id course.id db.rounds
                (db.rounds ++ new ∷ []) db.states (λ u k d. tally_rounds-added db.rounds new u k d)
                w.agrees;
        })
    where
      impossible : (i : ℕ) → i < db.next_round → i ≡ db.next_round → ⊥
      impossible i l e = omega arith

      grow : (i : ℕ) → i < db.next_round → i < db.next_round + 1
      grow i l = omega arith

  create_round-IsConsistent :
      (now : ℕ) (subject : String) (p : RoundIn) (db : RoundState) (c : Committed)
      → IsConsistent db
      → create_round onboarding_played now subject p db ≡ ok c
      → IsConsistent c.state
  unfolding create_round
  create_round-IsConsistent now subject p db c w h =
      let (account, s, h1) = bind_ok (stored_user_created db.ranking.accounts subject) _ c h in
      create_for-IsConsistent now p db account c w h1

  update_round-IsConsistent :
      (now : ℕ) (subject : String) (round_id : ℕ) (p : RoundPatch) (db : RoundState) (c : Committed)
      → IsConsistent db
      → update_round onboarding_played now subject round_id p db ≡ ok c
      → IsConsistent c.state
  update_round-IsConsistent now subject round_id p db c w h =
      let u = update_round-IsUpdated onboarding_played now subject round_id p db c h in
      let r = patch_round now p u.old in
      let keys = patch_round-keys now p u.old in
      let wanted = found_is_wanted round_id u.user.id db.rounds u.old u.is_found in
      let owned =
        Owned-keys u.old r db.rounds keys
          (found-Owned round_id u.user.id db.rounds u.old u.is_found w.distinct) in
      let kept = patch_companions_keeps read _ _ _ _ _ u.tagged (λ ids g. refl) u.is_tagged in
      subst (λ x. IsConsistent x.state) u.is_ended
        (record {
          distinct =
              subst (λ x. DistinctOn (λ y. y.id) x.0) (sym kept)
                (DistinctOn-saved r db.rounds w.distinct);
          issued =
              subst (λ x. All (λ y. y.id < x.1.1) x.0) (sym kept)
                (All-saved (λ y. y.id < db.next_round) r db.rounds
                  (subst (λ i. i < db.next_round) (sym keys.0)
                    (All-found (λ y. y.id < db.next_round) round_id u.user.id db.rounds u.old
                      u.is_found w.issued))
                  w.issued);
          agrees =
              subst
                (λ x.
                  Agrees (refresh_course_state onboarding_played u.user.id r.course_id x.0 x.1.0)
                    x.0)
                (sym kept)
                (Agrees-refresh onboarding_played u.user.id r.course_id db.rounds
                  (save_round r db.rounds) db.states
                  (λ v k d.
                    tally_rounds-saved r v k
                      (subst (λ i. Differs i r.course_id v k) (sym (keys.1 ∙ wanted.1)) d) db.rounds
                      owned)
                  w.agrees);
        })

  read-dropped :
      (is_rating : Bool) (user : ℕ) (r : Round) (db : RoundState)
      → read (drop_round r.id (drop_evidence is_rating user r.course_id (drop_event user r.id db)))
        ≡ (keep (λ x. not (x.id == r.id)) db.rounds, (db.states, db.next_round))
  unfolding drop_round
  read-dropped false user r db = refl
  read-dropped true user r db = refl

  deleted-IsConsistent :
      (user : ℕ) (r : Round) (db : RoundState)
      → IsConsistent db
      → Owned r db.rounds
      → r.user_id ≡ user
      → IsConsistent (deleted onboarding_played user r db)
  unfolding deleted
  deleted-IsConsistent user r db w o e =
      let others : Round → Bool = λ x. not (x.id == r.id) in
      let rows = sym (read-dropped r.is_rating_round user r db) in
      record {
        distinct =
            subst (λ x. DistinctOn (λ y. y.id) x.0) rows
              (DistinctOn-keep (λ y. y.id) others db.rounds w.distinct);
        issued =
            subst (λ x. All (λ y. y.id < x.1.1) x.0) rows
              (All-keep (λ y. y.id < db.next_round) others db.rounds w.issued);
        agrees =
            subst
              (λ x. Agrees (refresh_course_state onboarding_played user r.course_id x.0 x.1.0) x.0)
              rows
              (Agrees-refresh onboarding_played user r.course_id db.rounds (keep others db.rounds)
                db.states
                (λ v k d.
                  tally_rounds-dropped r v k (subst (λ i. Differs i r.course_id v k) (sym e) d)
                    db.rounds o)
                w.agrees);
      }

  module _ (rd : Rounding) where
    restage-read :
        (is_rating : Bool) (user : ℕ) (db after : RoundState)
        → restage onboarding_played rd is_rating user db ≡ ok after
        → IsConsistent db
        → IsConsistent after
    restage-read false user db after h w = subst IsConsistent (ok-inj _ after h) w
    restage-read true user db after h w =
        let (staged, s, h1) = bind_ok (stage_snapshot rd user true (ranking_view db)) _ after h in
        subst IsConsistent (ok-inj _ after h1)
          (record { distinct = w.distinct; issued = w.issued; agrees = w.agrees })

    delete_round-IsConsistent :
        (storage : Option (String → Bool)) (subject : String) (round_id : ℕ) (db after : RoundState)
        → IsConsistent db
        → delete_round onboarding_played rd storage subject round_id db ≡ ok after
        → IsConsistent after
    unfolding delete_round
    delete_round-IsConsistent storage subject round_id db after w h =
        let (user, u, h1) = bind_ok (require_user db.ranking.accounts subject) _ after h in
        let (r, f, h2) = bind_ok (or_no_round (find_round round_id user.id db.rounds)) _ after h1 in
        let (staged, s, h3) =
          bind_ok
            (restage onboarding_played rd r.is_rating_round user.id
              (deleted onboarding_played user.id r db))
            _ after h2 in
        let found = found_ok _ r f in
        let kept =
          restage-read r.is_rating_round user.id (deleted onboarding_played user.id r db) staged s (
            deleted-IsConsistent user.id r db w
              (found-Owned round_id user.id db.rounds r found w.distinct)
              (found_is_wanted round_id user.id db.rounds r found).1) in
        subst IsConsistent (ok-inj _ after h3)
          (record { distinct = kept.distinct; issued = kept.issued; agrees = kept.agrees })

    -- One request that writes a round, answered without an error.
    pub data RoundStep : RoundState → RoundState → Type 0 where
      created :
          (now : ℕ) (subject : String) (p : RoundIn) (db : RoundState) (c : Committed)
          → create_round onboarding_played now subject p db ≡ ok c
          → RoundStep db c.state
      updated :
          (now : ℕ) (subject : String) (round_id : ℕ) (p : RoundPatch) (db : RoundState)
          (c : Committed)
          → update_round onboarding_played now subject round_id p db ≡ ok c
          → RoundStep db c.state
      removed :
          (storage : Option (String → Bool)) (subject : String) (round_id : ℕ)
          (db after : RoundState)
          → delete_round onboarding_played rd storage subject round_id db ≡ ok after
          → RoundStep db after

    pub data RoundSteps (start : RoundState) : RoundState → Type 0 where
      begun : RoundSteps start start
      followed : {v w : RoundState} → RoundSteps start v → RoundStep v w → RoundSteps start w

    step-IsConsistent : {v w : RoundState} → RoundStep v w → IsConsistent v → IsConsistent w
    step-IsConsistent (created now subject p v c h) k =
        create_round-IsConsistent now subject p v c k h
    step-IsConsistent (updated now subject round_id p v c h) k =
        update_round-IsConsistent now subject round_id p v c k h
    step-IsConsistent (removed storage subject round_id v w h) k =
        delete_round-IsConsistent storage subject round_id v w k h

    steps-IsConsistent : {v w : RoundState} → RoundSteps v w → IsConsistent v → IsConsistent w
    steps-IsConsistent begun k = k
    steps-IsConsistent (followed steps step) k = step-IsConsistent step (steps-IsConsistent steps k)

    -- From a consistent state, whatever rounds are logged, changed and deleted, the ids of the rounds
    -- stay distinct and issued, and the state of every user and course keeps the number of that user's
    -- rounds there and the date of the last one: one of them was played on it and none later, and
    -- there is no date only where there is no round.
    pub course_states_agree :
        {v w : RoundState} → RoundSteps v w → IsConsistent v → IsConsistent w × IsDated w
    course_states_agree {v} {w} steps k =
        let kept = steps-IsConsistent steps k in (kept, Agrees-IsDated w kept.agrees)
