-- ===== src/Lock/Tests.antt =====
-- Two processes that want one lock.
use golf_rank.Base.{◌≡◌, ◌≤◌, refl, true, none, some, [], length}
use golf_rank.Lock.Busy.{try_lock_busy}
use golf_rank.Lock.{
  Breaker, Store, Lease, busy, current, LockSettings, World, after_try, Reachable, begun, stepped,
  try, drop, after_drop, try_lock, set_nx, answered,
}
use golf_rank.Lock.Leases.{IsSound}
use golf_rank.Lock.Exclusive.{holders_of, holders_of_exclusive}

abbrev settings : LockSettings
settings = record { is_enabled = true; failure_threshold = 3; cooldown = 30000 }

abbrev start : World
start = record {
  now = 100;
  breakers = λ _. record { consecutive_failures = 0; total_failures = 0; open_until = 0 };
  store = λ _. none;
  holders = [];
  next_token = 0;
}

abbrev first : World
first = after_try settings start 1 answered "hero:7" 5000

abbrev dropped : World
dropped = after_drop settings (after_try settings first 2 answered "hero:7" 5000) (λ key. true)

-- The second process is refused, Redis loses its keys, and a third process takes the lock beside the
-- first one.
abbrev after : World
after = after_try settings dropped 3 answered "hero:7" 5000

all_tried : Reachable settings start after
all_tried =
    stepped
      (stepped
        (stepped (stepped begun (try start 1 answered "hero:7" 5000))
          (try first 2 answered "hero:7" 5000))
        (drop (after_try settings first 2 answered "hero:7" 5000) (λ key. true)))
      (try dropped 3 answered "hero:7" 5000)

two_work : length after.holders ≡ 2
unfolding after_try after_drop try_lock set_nx
two_work = refl

third_holds : length (holders_of "hero:7" after) ≡ 1
unfolding after_try after_drop try_lock set_nx
third_holds = refl

start-IsSound : IsSound start
start-IsSound = record { held = tt; drawn = tt; distinct = tt }

holders_of_exclusive_example : length (holders_of "hero:7" after) ≤ 1
holders_of_exclusive_example = holders_of_exclusive settings "hero:7" start-IsSound all_tried

abbrev quiet : Breaker
quiet = record { consecutive_failures = 1; total_failures = 4; open_until = 0 }

abbrev taken : Store
taken _ = some (record { token = 9; expires_at = 500 })

refused : (try_lock settings 100 answered "hero:7" 10 5000 quiet taken).0 ≡ busy
unfolding try_lock set_nx
refused = refl

try_lock_busy_example :
    (l : Lease) × (current 100 (taken "hero:7") ≡ some l)
    × ((try_lock settings 100 answered "hero:7" 10 5000 quiet taken).1.0.total_failures ≡ 4)
    × ((try_lock settings 100 answered "hero:7" 10 5000 quiet taken).1.1 ≡ taken)
try_lock_busy_example = try_lock_busy settings 100 answered "hero:7" 10 5000 quiet taken refused
