-- ===== src/Rounds/Refresh/Agrees.antt =====
-- The rows of `user_course_states` against the rounds that they count.
use golf_rank.Base.{
  ℕ, ◌≡◌, refl, sym, ap, ◌∙◌, inl, inr, Bool, true, false, ◌&&◌, Option, none, some, List, [], ◌∷◌,
  arith, ◌==◌, ==-refl, length, Bool-cases,
}
use golf_rank.Rounds.{Date, Round, UserCourseState}
use golf_rank.Rounds.Refresh.{
  last_played, rounds_at, is_state_of, save_state, state_at, refreshed, refresh_course_state,
}

-- How many rounds, and the date of the last one.
abbrev pub tally_rounds : ℕ → ℕ → List Round → ℕ × Option Date
tally_rounds user course rounds =
    (length (rounds_at user course rounds), last_played (rounds_at user course rounds))

abbrev pub tally_state : Option UserCourseState → ℕ × Option Date
tally_state none = (0, none)
tally_state (some s) = (s.round_count, s.last_played_on)

-- The states say of every user and course what the rounds say; no row is as good as none played.
abbrev pub Agrees : List UserCourseState → List Round → Type 0
Agrees states rounds =
    (user course : ℕ) → tally_state (state_at user course states) ≡ tally_rounds user course rounds

state_at-saved :
    (s : UserCourseState) (states : List UserCourseState)
    → state_at s.user_id s.course_id (save_state s states) ≡ some s
unfolding state_at save_state
state_at-saved s [] = rw (==-refl s.user_id) (rw (==-refl s.course_id) refl)
state_at-saved s (t ∷ states) = elim (Bool-cases (is_state_of s.user_id s.course_id t)) [
  | inl e ↦ rw e (rw (==-refl s.user_id) (rw (==-refl s.course_id) refl))
  | inr e ↦ rw e (rw e (state_at-saved s states))
]

abbrev pub Differs : ℕ → ℕ → ℕ → ℕ → Type 0
Differs user course u c = (user == u && course == c) ≡ false

state_at-other :
    (s : UserCourseState) (states : List UserCourseState) (u c : ℕ)
    → Differs s.user_id s.course_id u c
    → state_at u c (save_state s states) ≡ state_at u c states
unfolding state_at save_state
state_at-other s [] u c d = rw d refl
state_at-other s (t ∷ states) u c d = elim (Bool-cases (is_state_of s.user_id s.course_id t)) [
  | inl e ↦ rw e (rw (d, moved e) refl)
  | inr e ↦ rw e (elim (Bool-cases (is_state_of u c t)) [
    | inl k ↦ rw k refl
    | inr k ↦ rw k (state_at-other s states u c d)
  ])
]
  where
    moved : is_state_of s.user_id s.course_id t ≡ true → is_state_of u c t ≡ false
    moved e = ground (arith, e, d)

pub Agrees-refresh :
    (onboarding_played : ℕ → ℕ → Bool) (user course : ℕ) (rounds after : List Round)
    (states : List UserCourseState)
    → ((u c : ℕ) → Differs user course u c → tally_rounds u c after ≡ tally_rounds u c rounds)
    → Agrees states rounds
    → Agrees (refresh_course_state onboarding_played user course after states) after
unfolding refresh_course_state
Agrees-refresh onboarding_played user course rounds after states same h u c =
    elim (Bool-cases (user == u && course == c)) [
      | inl e ↦ here u c (equal e)
      | inr e ↦
          ap tally_state
            (state_at-other (refreshed onboarding_played user course after) states u c e)
          ∙ h u c
          ∙ sym (same u c e)
    ]
  where
    equal : (user == u && course == c) ≡ true → (user ≡ u) × (course ≡ c)
    equal e = ground (arith, e)

    here :
        (u c : ℕ)
        → (user ≡ u) × (course ≡ c)
        → tally_state
            (state_at u c (save_state (refreshed onboarding_played user course after) states))
          ≡ tally_rounds u c after
    here u c e =
        rw (sym e.0, sym e.1)
          (ap tally_state (state_at-saved (refreshed onboarding_played user course after) states))
