-- ===== src/RateLimit/Alerts/Spaced.antt =====
-- The times of the alerts that `RateLimitAlertObserver` sends for one key.
use golf_rank.Base.{
  ℕ, ◌+◌, ◌≡◌, ◌≤◌, ◌<◌, refl, subst, inl, inr, true, false, Option, none, some, List, [], ◌∷◌,
  ◌||◌, arith, ltb, if◌then◌else◌, Bool-cases,
}
use golf_rank.RateLimit.Limiter.{Key, same_key}
use golf_rank.RateLimit.Limiter.Keys.{same_key_refl}
use golf_rank.RateLimit.Alerts.{
  AlertSettings, Tracked, Observer, times_of, without, take_key, put_back, decide, counted,
  is_cooling, record_event, add_alert, alert_times,
}
use golf_rank.RateLimit.Alerts.Bounded.{tracks, IsBounded, put_back-tracks, take_key-HasRoom}

-- The first time is at least `from`, and each next one at least `gap` after the one before it.
abbrev pub IsSpaced : ℕ → ℕ → List ℕ → Type 0
IsSpaced gap from [] = Unit {0}
IsSpaced gap from (t ∷ times) = (from ≤ t) × IsSpaced gap (t + gap) times

IsSpaced-earlier :
    (gap from from' : ℕ) (times : List ℕ)
    → from' ≤ from
    → IsSpaced gap from times
    → IsSpaced gap from' times
IsSpaced-earlier gap from from' [] h s = tt
IsSpaced-earlier gap from from' (t ∷ times) h s = (omega (arith, s.0), s.1)

-- When a key may alert again.
abbrev next_allowed : ℕ → Option ℕ → ℕ
next_allowed cooldown none = 0
next_allowed cooldown (some last) = last + cooldown

cooled :
    (cooldown now : ℕ) (last : Option ℕ)
    → is_cooling cooldown now last ≡ false
    → next_allowed cooldown last ≤ now
cooled cooldown now none h = omega arith
cooled cooldown now (some last) h = ground arith

tracks-times_of :
    (key : Key) (events : List Tracked)
    → tracks key events ≡ true
    → (times : List ℕ) × (times_of key events ≡ some times)
unfolding times_of
tracks-times_of key [] h = cc
tracks-times_of key (e ∷ events) h = elim (Bool-cases (same_key e.key key)) [
  | inl c ↦ (e.times, rw c refl)
  | inr c ↦ let (times, t) = tracks-times_of key events (ground (arith, h, c)) in (times, rw c t)
]

module _ (s : AlertSettings) (key : Key) (threshold : ℕ) where
  abbrev Spaced : Observer → List ℕ → Type 0
  Spaced o times =
      IsSpaced s.cooldown (next_allowed s.cooldown (o.last_alert key))
        (alert_times s key threshold o times)

  -- One event and what follows it, once it is known that what follows keeps the cooldown.
  decided :
      (now count : ℕ) (o : Observer) (times : List ℕ)
      → tracks key o.events ≡ true
      → ((o' : Observer) → tracks key o'.events ≡ true → Spaced o' times)
      → IsSpaced s.cooldown (next_allowed s.cooldown (o.last_alert key)) (
          add_alert now
            (decide s key threshold now count o).1
            (alert_times s key threshold (decide s key threshold now count o).0 times))
  unfolding decide
  decided now count o times t below =
      elim (Bool-cases (ltb count threshold || is_cooling s.cooldown now (o.last_alert key))) [
        | inl e ↦ rw e (below o t)
        | inr e ↦ rw e (cooled s.cooldown now (o.last_alert key) (ground (arith, e)), later)
      ]
    where
      alerted : Observer
      alerted = record o { last_alert = λ j. if same_key key j then some now else o.last_alert j }

      alerted_now : alerted.last_alert key ≡ some now
      alerted_now = rw (same_key_refl key) refl

      later : IsSpaced s.cooldown (now + s.cooldown) (alert_times s key threshold alerted times)
      later =
          subst
            (λ l.
              IsSpaced s.cooldown (next_allowed s.cooldown l)
                (alert_times s key threshold alerted times))
            alerted_now (below alerted t)

  -- An event whose answer is known.
  answered :
      (now count : ℕ) (o taken : Observer) (times : List ℕ)
      → record_event s key threshold now o ≡ some (decide s key threshold now count taken)
      → tracks key taken.events ≡ true
      → ((o' : Observer) → tracks key o'.events ≡ true → Spaced o' times)
      → IsSpaced s.cooldown
          (next_allowed s.cooldown (taken.last_alert key))
          (alert_times s key threshold o (now ∷ times))
  unfolding alert_times
  answered now count o taken times e t below = rw e (decided now count taken times t below)

  tracked-Spaced : (times : List ℕ) (o : Observer) → tracks key o.events ≡ true → Spaced o times
  unfolding alert_times
  tracked-Spaced [] o t = tt
  tracked-Spaced (now ∷ times) o t =
      let (found, e) = tracks-times_of key o.events t in
      let rest = record o { events = without key o.events } in
      answered now (counted s now found) o (put_back s key now (found, rest)) times
        (unfold record_event in unfold take_key in rw e refl)
        (put_back-tracks s.max_tracked_keys key s now (found, rest)) (tracked-Spaced times)

  -- If at least one key may be tracked, then from any bounded observer on, events of one key at any
  -- times alert at times that are at least the cooldown apart.
  pub alert_times-IsSpaced :
      (o : Observer) (times : List ℕ)
      → 0 < s.max_tracked_keys
      → IsBounded s.max_tracked_keys o
      → IsSpaced s.cooldown 0 (alert_times s key threshold o times)
  unfolding alert_times
  alert_times-IsSpaced o [] h b = tt
  alert_times-IsSpaced o (now ∷ times) h b =
      let (found, rest, e, room) = take_key-HasRoom s.max_tracked_keys key o h b in
      IsSpaced-earlier s.cooldown _ 0 _ (omega arith) (
        answered now (counted s now found) o (put_back s key now (found, rest)) times
          (unfold record_event in rw e refl)
          (put_back-tracks s.max_tracked_keys key s now (found, rest)) (tracked-Spaced times))
