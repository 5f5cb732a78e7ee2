-- ===== src/Rounds/Consistent.antt =====
-- The tables of rounds.py as its handlers keep them.
use golf_rank.Base.{
  ℕ, ◌<◌, ◌≡◌, ◌≢◌, refl, sym, ap, subst, ◌∙◌, inl, inr, Bool, true, false, not, some, List, [],
  ◌∷◌, ◌++◌, arith, ◌==◌, if◌then◌else◌, keep, length, Bool-cases, All, All-map,
}
use golf_rank.Base.Distinct.{FreshIn, DistinctOn}
use golf_rank.Rounds.{Round, RoundState}
use golf_rank.Rounds.Refresh.{last_played, played_at, rounds_at}
use golf_rank.Rounds.Refresh.Agrees.{Agrees, tally_rounds, Differs}
use golf_rank.Rounds.Handlers.{find_round}
use golf_rank.Rounds.Update.{save_round}
use golf_rank.Rounds.Update.Steps.{is_wanted}

-- The ids of the rounds are distinct and have been issued, and the course states say what the rounds
-- say.
pub record IsConsistent (db : RoundState) : Type 0 where
  pub distinct : DistinctOn (λ r. r.id) db.rounds
  pub issued : All (λ r. r.id < db.next_round) db.rounds
  pub agrees : Agrees db.states db.rounds

keep-append :
    (p : Round → Bool) (xs : List Round) (r : Round)
    → p r ≡ false
    → keep p (xs ++ r ∷ []) ≡ keep p xs
keep-append p [] r h = rw h refl
keep-append p (x ∷ xs) r h = elim (Bool-cases (p x)) [
  | inl e ↦ rw e (ap (λ ys. x ∷ ys) (keep-append p xs r h))
  | inr e ↦ rw e (keep-append p xs r h)
]

pub tally_rounds-added :
    (rounds : List Round) (r : Round) (u c : ℕ)
    → Differs r.user_id r.course_id u c
    → tally_rounds u c (rounds ++ r ∷ []) ≡ tally_rounds u c rounds
tally_rounds-added rounds r u c d =
    ap (λ xs. (length xs, last_played xs)) (keep-append (played_at u c) rounds r d)

-- Every row with the id of `r` stands where `r` stands.
abbrev pub Owned : Round → List Round → Type 0
Owned r = All (λ x. x.id ≡ r.id → (x.user_id ≡ r.user_id) × (x.course_id ≡ r.course_id))

found_not_fresh :
    (rid user k : ℕ) (rounds : List Round) (r : Round)
    → find_round rid user rounds ≡ some r
    → FreshIn (λ x. x.id) k rounds
    → r.id ≡ k
    → ⊥
unfolding find_round
found_not_fresh rid user k [] r h f e = cc
found_not_fresh rid user k (x ∷ rounds) r h f e = elim (Bool-cases (is_wanted rid user x)) [
  | inl w ↦ f.0 (ap (λ y. y.id) (head w) ∙ e)
  | inr w ↦ found_not_fresh rid user k rounds r (tail w) f.1 e
]
  where
    head : is_wanted rid user x ≡ true → x ≡ r
    head w = cc

    tail : is_wanted rid user x ≡ false → find_round rid user rounds ≡ some r
    tail w = sym (ap (λ b. if b then some x else find_round rid user rounds) w) ∙ h

pub found-Owned :
    (rid user : ℕ) (rounds : List Round) (r : Round)
    → find_round rid user rounds ≡ some r
    → DistinctOn (λ x. x.id) rounds
    → Owned r rounds
unfolding find_round
found-Owned rid user [] r h d = tt
found-Owned rid user (x ∷ rounds) r h d = elim (Bool-cases (is_wanted rid user x)) [
  | inl w ↦ (
    (λ e. (ap (λ y. y.user_id) (head w), ap (λ y. y.course_id) (head w))),
    All-map (λ y ne e. absurd (ne (e ∙ ap (λ z. z.id) (sym (head w))))) rounds d.0,
  )
  | inr w ↦ (
    (λ e. absurd (found_not_fresh rid user x.id rounds r (tail w) d.0 (sym e))),
    found-Owned rid user rounds r (tail w) d.1,
  )
]
  where
    head : is_wanted rid user x ≡ true → x ≡ r
    head w = cc

    tail : is_wanted rid user x ≡ false → find_round rid user rounds ≡ some r
    tail w = sym (ap (λ b. if b then some x else find_round rid user rounds) w) ∙ h

module _ (r : Round) (u c : ℕ) (d : Differs r.user_id r.course_id u c) where
  elsewhere :
      (x : Round)
      → (x.id ≡ r.id → (x.user_id ≡ r.user_id) × (x.course_id ≡ r.course_id))
      → (x.id == r.id) ≡ true
      → played_at u c x ≡ false
  elsewhere x o e = away (o (ground (arith, e)))
    where
      away : (x.user_id ≡ r.user_id) × (x.course_id ≡ r.course_id) → played_at u c x ≡ false
      away q = rw (q.0, q.1) d

  rounds_at-saved :
      (rounds : List Round)
      → Owned r rounds
      → rounds_at u c (save_round r rounds) ≡ rounds_at u c rounds
  unfolding save_round
  rounds_at-saved [] o = refl
  rounds_at-saved (x ∷ rounds) o = elim (Bool-cases (x.id == r.id)) [
    | inl e ↦ rw e (rw (d, elsewhere x o.0 e) (rounds_at-saved rounds o.1))
    | inr e ↦ rw e (ap (λ xs. if played_at u c x then x ∷ xs else xs) (rounds_at-saved rounds o.1))
  ]

  rounds_at-dropped :
      (rounds : List Round)
      → Owned r rounds
      → rounds_at u c (keep (λ x. not (x.id == r.id)) rounds) ≡ rounds_at u c rounds
  rounds_at-dropped [] o = refl
  rounds_at-dropped (x ∷ rounds) o = elim (Bool-cases (x.id == r.id)) [
    | inl e ↦ rw e (rw (elsewhere x o.0 e) (rounds_at-dropped rounds o.1))
    | inr e ↦
        rw e (ap (λ xs. if played_at u c x then x ∷ xs else xs) (rounds_at-dropped rounds o.1))
  ]

  pub tally_rounds-saved :
      (rounds : List Round)
      → Owned r rounds
      → tally_rounds u c (save_round r rounds) ≡ tally_rounds u c rounds
  tally_rounds-saved rounds o = ap (λ xs. (length xs, last_played xs)) (rounds_at-saved rounds o)

  pub tally_rounds-dropped :
      (rounds : List Round)
      → Owned r rounds
      → tally_rounds u c (keep (λ x. not (x.id == r.id)) rounds) ≡ tally_rounds u c rounds
  tally_rounds-dropped rounds o =
      ap (λ xs. (length xs, last_played xs)) (rounds_at-dropped rounds o)

pub All-saved {ℓ} :
    (P : Round → Type ℓ) (r : Round) (rounds : List Round)
    → P r
    → All P rounds
    → All P (save_round r rounds)
unfolding save_round
All-saved P r [] h a = tt
All-saved P r (x ∷ rounds) h a = elim (Bool-cases (x.id == r.id)) [
  | inl e ↦ rw e (h, All-saved P r rounds h a.1)
  | inr e ↦ rw e (a.0, All-saved P r rounds h a.1)
]

saved_fresh :
    (r : Round) (rounds : List Round)
    → FreshIn (λ x. x.id) r.id rounds
    → save_round r rounds ≡ rounds
unfolding save_round
saved_fresh r [] f = refl
saved_fresh r (x ∷ rounds) f = elim (Bool-cases (x.id == r.id)) [
  | inl e ↦ absurd (f.0 (ground (arith, e)))
  | inr e ↦ rw e (ap (λ xs. x ∷ xs) (saved_fresh r rounds f.1))
]

pub DistinctOn-saved :
    (r : Round) (rounds : List Round)
    → DistinctOn (λ x. x.id) rounds
    → DistinctOn (λ x. x.id) (save_round r rounds)
unfolding save_round
DistinctOn-saved r [] d = tt
DistinctOn-saved r (x ∷ rounds) d = elim (Bool-cases (x.id == r.id)) [
  | inl e ↦
      let f = subst (λ k. FreshIn (λ y. y.id) k rounds) (equal e) d.0 in
      rw e (rw (saved_fresh r rounds f) (f, d.1))
  | inr e ↦ rw e (
    All-saved (λ y. y.id ≢ x.id) r rounds (λ q. apart (ground (arith, q, e))) d.0,
    DistinctOn-saved r rounds d.1,
  )
]
  where
    equal : (x.id == r.id) ≡ true → x.id ≡ r.id
    equal e = ground (arith, e)

    apart : ⊥ → ⊥
    apart q = q

pub All-found {ℓ} :
    (P : Round → Type ℓ) (rid user : ℕ) (rounds : List Round) (r : Round)
    → find_round rid user rounds ≡ some r
    → All P rounds
    → P r
unfolding find_round
All-found P rid user [] r h a = absurd cc
All-found P rid user (x ∷ rounds) r h a = elim (Bool-cases (is_wanted rid user x)) [
  | inl w ↦ subst P (head w) a.0
  | inr w ↦ All-found P rid user rounds r (tail w) a.1
]
  where
    head : is_wanted rid user x ≡ true → x ≡ r
    head w = cc

    tail : is_wanted rid user x ≡ false → find_round rid user rounds ≡ some r
    tail w = sym (ap (λ b. if b then some x else find_round rid user rounds) w) ∙ h

pub Owned-keys :
    (a b : Round) (rounds : List Round)
    → (b.id ≡ a.id) × (b.user_id ≡ a.user_id) × (b.course_id ≡ a.course_id)
    → Owned a rounds
    → Owned b rounds
Owned-keys a b rounds k o =
    All-map (λ x f e. ((f (e ∙ k.0)).0 ∙ sym k.1, (f (e ∙ k.0)).1 ∙ sym k.2)) rounds o
