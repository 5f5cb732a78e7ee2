-- ===== src/RateLimit/AlertTests.antt =====
-- The alert observer at concrete events.
use golf_rank.Base.{◌≡◌, refl, none, some, [], ◌∷◌, arith}
use golf_rank.RateLimit.Limiter.{denial}
use golf_rank.RateLimit.Alerts.{AlertSettings, Observer, Sent, observe, alert_times}
use golf_rank.RateLimit.Alerts.Bounded.{IsBounded, observe-IsBounded}
use golf_rank.RateLimit.Alerts.Spaced.{IsSpaced, alert_times-IsSpaced}

abbrev settings : AlertSettings
settings = record {
  window = 300;
  cooldown = 900;
  max_tracked_keys = 2;
  backend_failure_threshold = 3;
  denial_threshold = 2;
  identity_threshold = 2;
}

abbrev idle : Observer
idle = record { events = []; last_alert = λ _. none }

idle-IsBounded : IsBounded 2 idle
idle-IsBounded = record { bounded = omega arith; known = λ k. refl }

observe-IsBounded_example :
    (r : Observer × Sent) × (observe settings 10 (denial "public" "ip" "abc") idle ≡ some r)
    × IsBounded 2 r.0
observe-IsBounded_example =
    observe-IsBounded settings 10 (denial "public" "ip" "abc") idle (omega arith) idle-IsBounded

alert_times-IsSpaced_example :
    IsSpaced 900 0 (alert_times settings ("denial" ∷ "public" ∷ []) 2 idle (10 ∷ 20 ∷ 30 ∷ []))
alert_times-IsSpaced_example =
    alert_times-IsSpaced settings ("denial" ∷ "public" ∷ []) 2 idle (10 ∷ 20 ∷ 30 ∷ [])
      (omega arith) idle-IsBounded
