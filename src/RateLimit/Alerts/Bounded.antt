-- ===== src/RateLimit/Alerts/Bounded.antt =====
-- The size of the table of `RateLimitAlertObserver` and the keys with an alert to their name.
use golf_rank.Base.{
  ℕ, ◌≡◌, ◌≤◌, ◌<◌, refl, sym, ap, ◌∙◌, inl, inr, Bool, true, false, not, ◌||◌, Option, none, some,
  List, [], ◌∷◌, ◌++◌, arith, leb, leb→le, leb→lt, ltb, any, length, length-append, length-keep-le,
  Bool-cases, Option-cases,
}
use golf_rank.RateLimit.Limiter.Keys.{same_key-eq, same_key_refl}
use golf_rank.RateLimit.Limiter.{Key, same_key, Alert, backend_failure, denial}
use golf_rank.RateLimit.Alerts.{
  AlertSettings, Tracked, Observer, times_of, without, forget, evict_oldest, make_room, take_key,
  put_back, decide, counted, is_cooling, record_event, drop_stale, observe, Sent, sent,
}

abbrev pub tracks : Key → List Tracked → Bool
tracks k events = any (λ e. same_key e.key k) events

abbrev pub is_some : Option ℕ → Bool
is_some none = false
is_some (some n) = true

-- No key has an alert to its name that the table does not hold.
abbrev pub IsKnown : Observer → Key → Type 0
IsKnown o k = (not (is_some (o.last_alert k)) || tracks k o.events) ≡ true

pub record IsBounded (max : ℕ) (o : Observer) : Type 0 where
  pub bounded : length o.events ≤ max
  pub known : (k : Key) → IsKnown o k

tracks-without :
    (key k : Key) (events : List Tracked)
    → same_key key k ≡ false
    → tracks k (without key events) ≡ tracks k events
tracks-without key k [] h = refl
tracks-without key k (e ∷ events) h =
    let below = tracks-without key k events h in
    elim (Bool-cases (same_key e.key key)) [
      | inl c ↦ rw (c, ap (λ j. same_key j k) (same_key-eq e.key key c) ∙ h) below
      | inr c ↦
          rw c (elim (Bool-cases (same_key e.key k)) [ inl d ↦ rw d refl | inr d ↦ rw d below ])
    ]

length-without :
    (key : Key) (events : List Tracked) (times : List ℕ)
    → times_of key events ≡ some times
    → length (without key events) < length events
unfolding times_of
length-without key [] times h = cc
length-without key (e ∷ events) times h = elim (Bool-cases (same_key e.key key)) [
  | inl c ↦ rw c (omega (arith, length-keep-le (λ (x : Tracked). not (same_key x.key key)) events))
  | inr c ↦ rw c (omega (arith, length-without key events times (ground (arith, c, h))))
]

tracks-append :
    (k : Key) (events : List Tracked) (e : Tracked)
    → tracks k (events ++ e ∷ []) ≡ (tracks k events || same_key e.key k)
tracks-append k [] e = ground arith
tracks-append k (x ∷ events) e = ground (arith, tracks-append k events e)

-- What `take_key` leaves has room for the key, and knows of every alert but the key's own.
pub record HasRoom (max : ℕ) (key : Key) (o : Observer) : Type 0 where
  pub room : length o.events < max
  pub others :
      (k : Key) → (same_key key k || (not (is_some (o.last_alert k)) || tracks k o.events)) ≡ true

module _ (max : ℕ) (key : Key) where
  evicted :
      (e : Tracked) (events : List Tracked) (last : Key → Option ℕ)
      → IsBounded max (record { events = e ∷ events; last_alert = last })
      → HasRoom max key (record { events = events; last_alert = forget e.key last })
  evicted e events last b = record {
    room = b.bounded;
    others = λ k. elim (Bool-cases (same_key e.key k)) [
      | inl c ↦ ground arith
      | inr c ↦ ground (arith, b.known k)
    ];
  }

  evict_oldest-HasRoom :
      (events : List Tracked) (last : Key → Option ℕ)
      → 0 < length events
      → IsBounded max (record { events = events; last_alert = last })
      → (o' : Observer) × (evict_oldest events last ≡ some o') × HasRoom max key o'
  unfolding evict_oldest
  evict_oldest-HasRoom [] last h b = absurd (omega (arith, h))
  evict_oldest-HasRoom (e ∷ events) last h b =
      (record { events = events; last_alert = forget e.key last }, refl, evicted e events last b)

  make_room-HasRoom :
      (o : Observer)
      → 0 < max
      → IsBounded max o
      → (o' : Observer) × (make_room max o ≡ some o') × HasRoom max key o'
  unfolding make_room
  make_room-HasRoom o h b = elim (Bool-cases (leb max (length o.events))) [
    | inl e ↦ rw e (evict_oldest-HasRoom o.events o.last_alert (omega (arith, leb→le _ _ e)) b)
    | inr e ↦
        rw e (o, refl, record { room = leb→lt _ _ e; others = λ k. ground (arith, b.known k) })
  ]

  pub take_key-HasRoom :
      (o : Observer)
      → 0 < max
      → IsBounded max o
      → (times : List ℕ) × (rest : Observer) × (take_key max key o ≡ some (times, rest))
        × HasRoom max key rest
  unfolding take_key
  take_key-HasRoom o h b = elim (Option-cases (times_of key o.events)) [
    | inl e ↦ let (o', made, room) = make_room-HasRoom o h b in ([], o', rw (e, made) refl, room)
    | inr (times, e) ↦ (
      times,
      record o { events = without key o.events },
      rw e refl,
      record {
        room = omega (arith, length-without key o.events times e, b.bounded);
        others = λ k. elim (Bool-cases (same_key key k)) [
          | inl c ↦ rw c refl
          | inr c ↦ rw (c, tracks-without key k o.events c) (b.known k)
        ];
      },
    )
  ]

  put_back-IsBounded :
      (s : AlertSettings) (now : ℕ) (times : List ℕ) (o : Observer)
      → HasRoom max key o
      → IsBounded max (put_back s key now (times, o))
  put_back-IsBounded s now times o r = record {
    bounded = omega (
      arith,
      length-append o.events
          (record { key = key; times = drop_stale s.window now times ++ now ∷ [] } ∷ []),
      r.room,
    );
    known = λ k.
        rw
          (tracks-append k o.events
            (record { key = key; times = drop_stale s.window now times ++ now ∷ [] }))
          (ground (arith, r.others k));
  }

  decide-IsBounded :
      (s : AlertSettings) (threshold now count : ℕ) (o : Observer)
      → tracks key o.events ≡ true
      → IsBounded max o
      → IsBounded max (decide s key threshold now count o).0
  unfolding decide
  decide-IsBounded s threshold now count o t b =
      elim (Bool-cases (ltb count threshold || is_cooling s.cooldown now (o.last_alert key))) [
        | inl e ↦ rw e b
        | inr e ↦ rw e (record {
          bounded = b.bounded;
          known = λ k. elim (Bool-cases (same_key key k)) [
            | inl c ↦ rw (sym (same_key-eq key k c), t) (ground arith)
            | inr c ↦ rw c (b.known k)
          ];
        })
      ]

  pub put_back-tracks :
      (s : AlertSettings) (now : ℕ) (taken : List ℕ × Observer)
      → tracks key (put_back s key now taken).events ≡ true
  put_back-tracks s now taken =
      tracks-append key taken.1.events _ ∙ rw (same_key_refl key) (ground arith)

record_event-IsBounded :
    (s : AlertSettings) (key : Key) (threshold now : ℕ) (o : Observer)
    → 0 < s.max_tracked_keys
    → IsBounded s.max_tracked_keys o
    → (r : Observer × Option ℕ) × (record_event s key threshold now o ≡ some r)
      × IsBounded s.max_tracked_keys r.0
unfolding record_event
record_event-IsBounded s key threshold now o h b =
    let max = s.max_tracked_keys in
    let (times, rest, e, room) = take_key-HasRoom max key o h b in
    let taken = put_back s key now (times, rest) in
    (
      decide s key threshold now (counted s now times) taken,
      rw e refl,
      decide-IsBounded max key s threshold now (counted s now times) taken
          (put_back-tracks max key s now (times, rest))
          (put_back-IsBounded max key s now times rest room),
    )

-- If at least one key may be tracked, the observer never fails, keeps at most so many keys, and
-- remembers no alert for a key that it does not track, having done so before.
pub observe-IsBounded :
    (s : AlertSettings) (now : ℕ) (a : Alert) (o : Observer)
    → 0 < s.max_tracked_keys
    → IsBounded s.max_tracked_keys o
    → (r : Observer × Sent) × (observe s now a o ≡ some r) × IsBounded s.max_tracked_keys r.0
unfolding observe
observe-IsBounded s now (backend_failure policy fail_closed) o h b =
    let (r, e, b') =
      record_event-IsBounded s ("backend" ∷ policy ∷ []) s.backend_failure_threshold now o h b in
    ((r.0, [] ++ sent "rate_limit_backend_failures" r.1), rw e refl, b')
observe-IsBounded s now (denial policy kind abuse_id) o h b =
    let (r, e, b') =
      record_event-IsBounded s ("denial" ∷ policy ∷ []) s.denial_threshold now o h b in
    let (r', e', b'') =
      record_event-IsBounded s ("identity" ∷ policy ∷ kind ∷ abuse_id ∷ []) s.identity_threshold now
        r.0 h b' in
    (
      (r'.0, ([] ++ sent "rate_limit_denial_volume" r.1) ++ sent "rate_limit_repeated_abuse" r'.1),
      rw (e, e') refl,
      b'',
    )
