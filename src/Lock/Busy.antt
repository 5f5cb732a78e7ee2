-- ===== src/Lock/Busy.antt =====
-- What a refusal of a lock means.
use golf_rank.Base.{ℕ, ◌≡◌, inl, inr, refl, String, not, ◌||◌, some, Bool-cases, Option-cases}
use golf_rank.Lock.{
  Breaker, LockSettings, Lease, Store, Delivery, answered, not_delivered, answer_lost, is_open,
  current, set_nx, attempted, try_lock, busy, record_success,
}

attempted_busy :
    (s : LockSettings) (now : ℕ) (key : String) (token ttl : ℕ) (b : Breaker) (store : Store)
    (delivery : Delivery)
    → (attempted s now b store (set_nx now key token ttl store) delivery).0 ≡ busy
    → (l : Lease) × (current now (store key) ≡ some l)
      × ((attempted s now b store (set_nx now key token ttl store) delivery).1.0.total_failures
          ≡ b.total_failures)
      × ((attempted s now b store (set_nx now key token ttl store) delivery).1.1 ≡ store)
unfolding set_nx record_success
attempted_busy s now key token ttl b store answered =
    elim (Option-cases (current now (store key))) [
      | inl free ↦ rw free (λ h. absurd (cc h))
      | inr (l, taken) ↦ rw taken (λ h. (l, refl, refl, refl))
    ]
attempted_busy s now key token ttl b store not_delivered = λ h. absurd (cc h)
attempted_busy s now key token ttl b store answer_lost = λ h. absurd (cc h)

-- A caller is refused a lock only if the key holds a lease that has not ended, and then the total
-- of the failures and every key are as they were.
pub try_lock_busy :
    (s : LockSettings) (now : ℕ) (delivery : Delivery) (key : String) (token ttl : ℕ) (b : Breaker)
    (store : Store)
    → (try_lock s now delivery key token ttl b store).0 ≡ busy
    → (l : Lease) × (current now (store key) ≡ some l)
      × ((try_lock s now delivery key token ttl b store).1.0.total_failures ≡ b.total_failures)
      × ((try_lock s now delivery key token ttl b store).1.1 ≡ store)
unfolding try_lock
try_lock_busy s now delivery key token ttl b store =
    elim (Bool-cases (not s.is_enabled || is_open now b)) [
      | inl o ↦ rw o (λ h. absurd (cc h))
      | inr o ↦ rw o (attempted_busy s now key token ttl b store delivery)
    ]
