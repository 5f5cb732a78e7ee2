-- ===== src/Rounds/Refresh/Dated.antt =====
-- The date of the last round, as `func.max(Round.played_on)` finds it.
use golf_rank.Base.{
  ℕ, ◌≡◌, ◌≤◌, ◌⊎◌, inl, inr, refl, sym, ap, subst, Option, none, some, List, [], ◌∷◌, arith, leb,
  Bool-cases, All, All-map,
}
use golf_rank.Rounds.{Date, day_number, Round, RoundState}
use golf_rank.Rounds.Refresh.{later_date, last_played, rounds_at, state_at}
use golf_rank.Rounds.Refresh.Agrees.{Agrees, tally_state}

-- One of the rounds was played on the day.
abbrev pub OneOn : Date → List Round → Type 0
OneOn d [] = ⊥
OneOn d (r ∷ rounds) = (r.played_on ≡ d) ⊎ OneOn d rounds

-- The date is that of one of the rounds, and none of them was played later; without a round there is
-- no date.
abbrev pub LastOf : List Round → Option Date → Type 0
LastOf rounds none = rounds ≡ []
LastOf rounds (some d) = OneOn d rounds × All (λ r. day_number r.played_on ≤ day_number d) rounds

-- The state of every user and course has the date of that user's last round there.
abbrev pub IsDated : RoundState → Type 0
IsDated db = (u c : ℕ) → LastOf (rounds_at u c db.rounds) (tally_state (state_at u c db.states)).1

later_date-LastOf :
    (r : Round) (rounds : List Round) (o : Option Date)
    → LastOf rounds o
    → LastOf (r ∷ rounds) (later_date r.played_on o)
later_date-LastOf r rounds none h = rw h (inl refl, (omega arith, tt))
later_date-LastOf r rounds (some d) h =
    elim (Bool-cases (leb (day_number d) (day_number r.played_on))) [
      | inl e ↦ rw e (inl refl, (omega arith, All-map (λ x l. ground (arith, e, l)) rounds h.1))
      | inr e ↦ rw e (inr h.0, (ground (arith, e), h.1))
    ]

last_played-LastOf : (rounds : List Round) → LastOf rounds (last_played rounds)
unfolding last_played
last_played-LastOf [] = refl
last_played-LastOf (r ∷ rounds) =
    later_date-LastOf r rounds (last_played rounds) (last_played-LastOf rounds)

pub Agrees-IsDated : (db : RoundState) → Agrees db.states db.rounds → IsDated db
Agrees-IsDated db h u c =
    subst (LastOf (rounds_at u c db.rounds)) (sym (ap (λ t. t.1) (h u c)))
      (last_played-LastOf (rounds_at u c db.rounds))
