-- ===== src/Lock.antt =====
-- services/api/app/core/distributed_lock.py: `RedisLock`, its breaker and its two calls of Redis, and
-- the processes that share one Redis. Times are in milliseconds.
pub mod Leases
pub mod Sound
pub mod Exclusive
pub mod Busy
mod Tests
use text.Mathlib.Text.{◌==◌ as str_eq}
use golf_rank.Base.{
  ℕ, ◌+◌, String, Bool, true, false, not, ◌&&◌, ◌||◌, Option, none, some, List, [], ◌∷◌, ◌==◌, leb,
  ltb, if◌then◌else◌, keep, map,
}

-- The breaker of one process.
pub record Breaker : Type 0 where
  pub consecutive_failures : ℕ
  pub total_failures : ℕ
  pub open_until : ℕ

pub record LockSettings : Type 0 where
  -- a Redis is configured
  pub is_enabled : Bool
  pub failure_threshold : ℕ
  pub cooldown : ℕ

-- The value at a lock key and the time at which Redis drops it.
pub record Lease : Type 0 where
  pub token : ℕ
  pub expires_at : ℕ

abbrev pub Store : Type 0
Store = String → Option Lease

-- `_breaker_is_open`
abbrev pub is_open : ℕ → Breaker → Bool
is_open now b = ltb now b.open_until

-- `_record_failure`
unfoldable pub record_failure : LockSettings → ℕ → Breaker → Breaker
record_failure s now b = record {
  consecutive_failures = b.consecutive_failures + 1;
  total_failures = b.total_failures + 1;
  open_until =
      if leb s.failure_threshold (b.consecutive_failures + 1)
      then now + s.cooldown
      else b.open_until;
}

-- `_record_success`
unfoldable pub record_success : Breaker → Breaker
record_success b = record b { consecutive_failures = 0 }

abbrev pub current : ℕ → Option Lease → Option Lease
current now none = none
current now (some l) = if leb l.expires_at now then none else some l

abbrev pub write : String → Option Lease → Store → Store
write key value store k = if str_eq k key then value else store k

-- `SET key token NX PX ttl`: whether it was set, and the keys afterwards.
abbrev pub set_if_free : ℕ → String → ℕ → ℕ → Option Lease → Store → Bool × Store
set_if_free now key token ttl none store =
    (true, write key (some (record { token = token; expires_at = now + ttl })) store)
set_if_free now key token ttl (some l) store = (false, store)

unfoldable pub set_nx : ℕ → String → ℕ → ℕ → Store → Bool × Store
set_nx now key token ttl store = set_if_free now key token ttl (current now (store key)) store

-- `_RELEASE_LUA`
abbrev pub delete_if : String → ℕ → Option Lease → Store → Store
delete_if key token none store = store
delete_if key token (some l) store = if l.token == token then write key none store else store

unfoldable pub compare_and_delete : ℕ → String → ℕ → Store → Store
compare_and_delete now key token store = delete_if key token (current now (store key)) store

-- What `try_lock` yields: the work may go on without a lock, it may go on under the lock, or
-- another process holds the lock.
pub data Attempt : Type 0 where
  unlocked locked busy : Attempt

abbrev pub attempt_of : Bool → Attempt
attempt_of acquired = if acquired then locked else busy

-- What becomes of a call: Redis answers it, it does not reach Redis, or Redis does what it says and the
-- answer is lost. The last two are the same error of the client.
pub data Delivery : Type 0 where
  answered not_delivered answer_lost : Delivery

-- What an attempt makes of its call, given the answer of SET NX and the keys after it.
abbrev pub attempted :
    LockSettings → ℕ → Breaker → Store → Bool × Store → Delivery → Attempt × (Breaker × Store)
attempted s now b store (acquired, after) answered =
    (attempt_of acquired, (record_success b, after))
attempted s now b store (acquired, after) not_delivered =
    (unlocked, (record_failure s now b, store))
attempted s now b store (acquired, after) answer_lost = (unlocked, (record_failure s now b, after))

-- `try_lock` up to its `yield`.
unfoldable pub try_lock :
    LockSettings → ℕ → Delivery → String → ℕ → ℕ → Breaker → Store → Attempt × (Breaker × Store)
try_lock s now delivery key token ttl b store =
    if not s.is_enabled || is_open now b
    then (unlocked, (b, store))
    else attempted s now b store (set_nx now key token ttl store) delivery

-- The `finally` of `try_lock`.
unfoldable pub release :
    LockSettings → ℕ → Delivery → String → ℕ → Breaker → Store → Breaker × Store
release s now answered key token b store = (b, compare_and_delete now key token store)
release s now not_delivered key token b store = (record_failure s now b, store)
release s now answer_lost key token b store =
    (record_failure s now b, compare_and_delete now key token store)

-- A process that holds a lock, until it releases it; its lease ends at `until`. `is_lost` is no state
-- of the program: it says whether Redis has dropped the key since the lock was taken.
pub record Holder : Type 0 where
  pub process : ℕ
  pub key : String
  pub token : ℕ
  pub until : ℕ
  pub is_lost : Bool

-- The processes over one Redis; the next token is one that no process has drawn.
pub record World : Type 0 where
  pub now : ℕ
  pub breakers : ℕ → Breaker
  pub store : Store
  pub holders : List Holder
  pub next_token : ℕ

abbrev pub set_breaker : ℕ → Breaker → (ℕ → Breaker) → ℕ → Breaker
set_breaker process b breakers p = if p == process then b else breakers p

abbrev pub new_holders : Attempt → Holder → List Holder → List Holder
new_holders locked h holders = h ∷ holders
new_holders unlocked h holders = holders
new_holders busy h holders = holders

module _ (s : LockSettings) where
  unfoldable pub after_try : World → ℕ → Delivery → String → ℕ → World
  after_try w process delivery key ttl =
      let (attempt, (b, store)) =
        try_lock s w.now delivery key w.next_token ttl (w.breakers process) w.store in
      record {
        now = w.now;
        breakers = set_breaker process b w.breakers;
        store = store;
        holders =
            new_holders attempt
              (record {
                process = process;
                key = key;
                token = w.next_token;
                until = w.now + ttl;
                is_lost = false;
              })
              w.holders;
        next_token = w.next_token + 1;
      }

  unfoldable pub after_release : World → Holder → Delivery → World
  after_release w h delivery =
      let (b, store) = release s w.now delivery h.key h.token (w.breakers h.process) w.store in
      record w {
        breakers = set_breaker h.process b w.breakers;
        store = store;
        holders = keep (λ x. not (x.token == h.token)) w.holders;
      }

  -- Redis drops keys before they expire: it evicts one, or restarts and has lost all.
  unfoldable pub after_drop : World → (String → Bool) → World
  after_drop w drops = record w {
    store = λ key. if drops key then none else w.store key;
    holders = map (λ h. if drops h.key then record h { is_lost = true } else h) w.holders;
  }

  -- Time passes, a process tries to take a lock, one releases what it drew the token for, or Redis
  -- drops keys.
  pub data Step : World → World → Type 0 where
    wait : (w : World) (n : ℕ) → Step w (record w { now = w.now + n })
    try :
        (w : World) (process : ℕ) (delivery : Delivery) (key : String) (ttl : ℕ)
        → Step w (after_try w process delivery key ttl)
    finish : (w : World) (h : Holder) (delivery : Delivery) → Step w (after_release w h delivery)
    drop : (w : World) (drops : String → Bool) → Step w (after_drop w drops)

  pub data Reachable (start : World) : World → Type 0 where
    begun : Reachable start start
    stepped : {v w : World} → Reachable start v → Step v w → Reachable start w
