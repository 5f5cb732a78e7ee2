-- ===== src/RateLimit/Alerts.antt =====
-- `RateLimitAlertObserver` of core/rate_limit_alerts.py: the bounded table of recent events, the
-- window in which they count and the cooldown of an alert. The clock is an argument of each call.
pub mod Bounded
pub mod Spaced
use golf_rank.Base.{
  ℕ, ◌+◌, Bool, true, false, not, ◌&&◌, ◌||◌, Option, none, some, String, List, [], ◌∷◌, ◌++◌, leb,
  ltb, if◌then◌else◌, keep, length,
}
use golf_rank.RateLimit.Limiter.{Key, same_key, Alert, backend_failure, denial}

pub record AlertSettings : Type 0 where
  pub window : ℕ
  pub cooldown : ℕ
  pub max_tracked_keys : ℕ
  pub backend_failure_threshold : ℕ
  pub denial_threshold : ℕ
  pub identity_threshold : ℕ

-- An item of `_events`, whose order is that of the last use, oldest first.
pub record Tracked : Type 0 where
  pub key : Key
  pub times : List ℕ

pub record Observer : Type 0 where
  pub events : List Tracked
  pub last_alert : Key → Option ℕ

-- `_events.get(key)`
unfoldable pub times_of : Key → List Tracked → Option (List ℕ)
times_of key [] = none
times_of key (e ∷ events) = if same_key e.key key then some e.times else times_of key events

-- The table without a key: `move_to_end` puts the key back at its end.
abbrev pub without : Key → List Tracked → List Tracked
without key events = keep (λ e. not (same_key e.key key)) events

-- `_last_alert.pop(key, None)`
abbrev pub forget : Key → (Key → Option ℕ) → Key → Option ℕ
forget key last j = if same_key key j then none else last j

-- `while timestamps and timestamps[0] <= now - window: timestamps.popleft()`
unfoldable pub drop_stale : ℕ → ℕ → List ℕ → List ℕ
drop_stale window now [] = []
drop_stale window now (t ∷ times) =
    let rest = drop_stale window now times in if leb (t + window) now then rest else t ∷ times

-- `popitem(last=False)`; `none` is its KeyError on an empty table.
unfoldable pub evict_oldest : List Tracked → (Key → Option ℕ) → Option Observer
evict_oldest [] last = none
evict_oldest (e ∷ events) last = some (record { events = events; last_alert = forget e.key last })

-- Room for a key that is not in the table.
unfoldable pub make_room : ℕ → Observer → Option Observer
make_room max o = if leb max (length o.events) then evict_oldest o.events o.last_alert else some o

abbrev pub untimed : Option Observer → Option (List ℕ × Observer)
untimed none = none
untimed (some o) = some ([], o)

abbrev pub take_found : ℕ → Key → Observer → Option (List ℕ) → Option (List ℕ × Observer)
take_found max key o none = untimed (make_room max o)
take_found max key o (some times) = some (times, record o { events = without key o.events })

-- The timestamps found under the key, and the rest of the table.
unfoldable pub take_key : ℕ → Key → Observer → Option (List ℕ × Observer)
take_key max key o = take_found max key o (times_of key o.events)

-- `append(now)`, with the key at the end of the table.
abbrev pub put_back : AlertSettings → Key → ℕ → List ℕ × Observer → Observer
put_back s key now taken = record taken.1 {
  events =
      taken.1.events
      ++ record { key = key; times = drop_stale s.window now taken.0 ++ now ∷ [] } ∷ [];
}

abbrev pub is_cooling : ℕ → ℕ → Option ℕ → Bool
is_cooling cooldown now none = false
is_cooling cooldown now (some last) = ltb now (last + cooldown)

-- The decision on the counted events: the observer afterwards and the count of the alert, if any.
unfoldable pub decide : AlertSettings → Key → ℕ → ℕ → ℕ → Observer → Observer × Option ℕ
decide s key threshold now count o =
    if ltb count threshold || is_cooling s.cooldown now (o.last_alert key) then (o, none) else (
      record o { last_alert = λ j. if same_key key j then some now else o.last_alert j },
      some count,
    )

abbrev pub counted : AlertSettings → ℕ → List ℕ → ℕ
counted s now times = length (drop_stale s.window now times ++ now ∷ [])

abbrev pub decide_taken :
    AlertSettings → Key → ℕ → ℕ → Option (List ℕ × Observer) → Option (Observer × Option ℕ)
decide_taken s key threshold now none = none
decide_taken s key threshold now (some taken) =
    some (decide s key threshold now (counted s now taken.0) (put_back s key now taken))

-- `_record`
unfoldable pub record_event : AlertSettings → Key → ℕ → ℕ → Observer → Option (Observer × Option ℕ)
record_event s key threshold now o =
    decide_taken s key threshold now (take_key s.max_tracked_keys key o)

-- The alerts that one call of the observer sends, by event and count.
abbrev pub Sent : Type 0
Sent = List (String × ℕ)

abbrev pub sent : String → Option ℕ → Sent
sent event none = []
sent event (some count) = (event, count) ∷ []

abbrev pub add_sent : Sent → String → Option (Observer × Option ℕ) → Option (Observer × Sent)
add_sent before event none = none
add_sent before event (some answer) = some (answer.0, before ++ sent event answer.1)

-- One `_record`, after what was sent before it.
abbrev pub then_record :
    AlertSettings → String → Key → ℕ → ℕ → Option (Observer × Sent) → Option (Observer × Sent)
then_record s event key threshold now none = none
then_record s event key threshold now (some (o, before)) =
    add_sent before event (record_event s key threshold now o)

-- `record_backend_failure` and `record_denial`
unfoldable pub observe : AlertSettings → ℕ → Alert → Observer → Option (Observer × Sent)
observe s now (backend_failure policy fail_closed) o =
    then_record s "rate_limit_backend_failures" ("backend" ∷ policy ∷ [])
      s.backend_failure_threshold now (some (o, []))
observe s now (denial policy kind abuse_id) o =
    then_record s "rate_limit_repeated_abuse" ("identity" ∷ policy ∷ kind ∷ abuse_id ∷ [])
      s.identity_threshold now
      (then_record s "rate_limit_denial_volume" ("denial" ∷ policy ∷ []) s.denial_threshold now
        (some (o, [])))

abbrev pub add_alert : ℕ → Option ℕ → List ℕ → List ℕ
add_alert now none alerts = alerts
add_alert now (some count) alerts = now ∷ alerts

abbrev pub follow : ℕ → Option (Observer × Option ℕ) → (Observer → List ℕ) → List ℕ
follow now none rest = []
follow now (some answer) rest = add_alert now answer.1 (rest answer.0)

-- The times of the alerts, of events of one key at the given times.
unfoldable pub alert_times : AlertSettings → Key → ℕ → Observer → List ℕ → List ℕ
alert_times s key threshold o [] = []
alert_times s key threshold o (t ∷ times) =
    follow t (record_event s key threshold t o) (λ o'. alert_times s key threshold o' times)
