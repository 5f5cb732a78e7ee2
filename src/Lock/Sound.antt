-- ===== src/Lock/Sound.antt =====
-- The steps of the processes over one Redis, and what their holders have.
use text.Mathlib.TextPositions.{eq_refl}
use golf_rank.Base.{
  ℕ, ◌+◌, ◌≡◌, ◌<◌, inl, inr, refl, sym, subst, map, if◌then◌else◌, String, Bool, true, false, not,
  ◌||◌, none, some, List, [], ◌∷◌, arith, ◌==◌, keep, All, All-keep, Bool-cases, Option-cases,
}
use golf_rank.Lock.{
  LockSettings, Lease, Store, is_open, current, write, set_nx, compare_and_delete, try_lock,
  release, Holder, World, after_try, after_release, after_drop, Step, wait, try, finish, drop,
  Reachable, begun, stepped, Delivery, answered, not_delivered, answer_lost, Attempt, Breaker,
  attempted, set_breaker, new_holders,
}
use golf_rank.Lock.Leases.{
  Held, Drawn, Distinct, IsSound, All-mono, Distinct-keep, Held-write, Held-delete,
}

module _ (s : LockSettings) where
  waited : (w : World) (n : ℕ) → IsSound w → IsSound (record w { now = w.now + n })
  waited w n i = record {
    held = All-mono (Held w.now w.store) (Held (w.now + n) w.store) w.holders still i.held;
    drawn = i.drawn;
    distinct = i.distinct;
  }
    where
      still : (h : Holder) → Held w.now w.store h → Held (w.now + n) w.store h
      still h (inl ended) = inl (omega (arith, ended))
      still h (inr e) = inr e

  fresh :
      (n : ℕ) (holders : List Holder)
      → All (Drawn n) holders
      → All (λ x. (x.token == n) ≡ false) holders
  fresh n holders =
      All-mono (Drawn n) (λ x. (x.token == n) ≡ false) holders (λ h k. ground (arith, k))

  later : (n : ℕ) (holders : List Holder) → All (Drawn n) holders → All (Drawn (n + 1)) holders
  later n holders = All-mono (Drawn n) (Drawn (n + 1)) holders (λ h k. omega (arith, k))

  -- A step that changes neither the time nor the holders.
  same_holders :
      (w : World) (breakers : ℕ → Breaker) (store : Store)
      → All (Held w.now store) w.holders
      → IsSound w
      → IsSound (record w { breakers = breakers; store = store; next_token = w.next_token + 1 })
  same_holders w breakers store h i = record {
    held = h;
    drawn = later w.next_token w.holders i.drawn;
    distinct = i.distinct;
  }

  tried :
      (w : World) (process : ℕ) (delivery : Delivery) (key : String) (ttl : ℕ)
      → IsSound w
      → IsSound (after_try s w process delivery key ttl)
  unfolding after_try try_lock set_nx
  tried w process delivery key ttl i =
      elim (Bool-cases (not s.is_enabled || is_open w.now (w.breakers process))) [
        | inl o ↦ rw o (same_holders w _ w.store i.held i)
        | inr o ↦ elim (Option-cases (current w.now (w.store key))) [
          | inl free ↦ rw (o, free) (on_free delivery free)
          | inr (l, taken) ↦ rw (o, taken) (on_taken delivery l)
        ]
      ]
    where
      new : Lease
      new = record { token = w.next_token; expires_at = w.now + ttl }

      next : Attempt × (Breaker × Store) → World
      next (attempt, (b, store)) = record {
        now = w.now;
        breakers = set_breaker process b w.breakers;
        store = store;
        holders =
            new_holders attempt
              (record {
                process = process;
                key = key;
                token = w.next_token;
                until = w.now + ttl;
                is_lost = false;
              })
              w.holders;
        next_token = w.next_token + 1;
      }

      written_held :
          current w.now (w.store key) ≡ none
          → All (Held w.now (write key (some new) w.store)) w.holders
      written_held free =
          All-mono (Held w.now w.store) _ w.holders
            (λ h k. Held-write w.now key new w.store h free k) i.held

      on_free :
          (d : Delivery)
          → current w.now (w.store key) ≡ none
          → IsSound (
              next (
                attempted s w.now
                  (w.breakers process)
                  w.store
                  (true, write key (some new) w.store)
                  d))
      on_free answered free = record {
        held = (inr (inr (rw (eq_refl key) refl)), written_held free);
        drawn = (omega arith, later w.next_token w.holders i.drawn);
        distinct = (fresh w.next_token w.holders i.drawn, i.distinct);
      }
      on_free not_delivered free = same_holders w _ w.store i.held i
      on_free answer_lost free = same_holders w _ _ (written_held free) i

      on_taken :
          (d : Delivery)
          → Lease
          → IsSound (next (attempted s w.now (w.breakers process) w.store (false, w.store) d))
      on_taken answered l = same_holders w _ w.store i.held i
      on_taken not_delivered l = same_holders w _ w.store i.held i
      on_taken answer_lost l = same_holders w _ w.store i.held i

  finished :
      (w : World) (h : Holder) (delivery : Delivery)
      → IsSound w
      → IsSound (after_release s w h delivery)
  unfolding after_release release
  finished w h delivery i = ended delivery
    where
      kept_held :
          (holders : List Holder)
          → All (Held w.now w.store) holders
          → All
              (Held w.now (compare_and_delete w.now h.key h.token w.store))
              (keep (λ x. not (x.token == h.token)) holders)
      kept_held [] a = tt
      kept_held (x ∷ holders) a = elim (Bool-cases (x.token == h.token)) [
        | inl e ↦ rw e (kept_held holders a.1)
        | inr e ↦ rw e (Held-delete w.now h.key h.token w.store x e a.0, kept_held holders a.1)
      ]

      sound :
          (breakers : ℕ → Breaker) (store : Store)
          → All (Held w.now store) (keep (λ x. not (x.token == h.token)) w.holders)
          → IsSound (record w {
            breakers = breakers;
            store = store;
            holders = keep (λ x. not (x.token == h.token)) w.holders;
          })
      sound breakers store k = record {
        held = k;
        drawn = All-keep (Drawn w.next_token) _ w.holders i.drawn;
        distinct = Distinct-keep _ w.holders i.distinct;
      }

      ended : (d : Delivery) → IsSound (after_release s w h d)
      ended answered = sound _ _ (kept_held w.holders i.held)
      ended not_delivered = sound _ _ (All-keep (Held w.now w.store) _ w.holders i.held)
      ended answer_lost = sound _ _ (kept_held w.holders i.held)

  dropped : (w : World) (drops : String → Bool) → IsSound w → IsSound (after_drop s w drops)
  unfolding after_drop
  dropped w drops i = record {
    held = held w.holders i.held;
    drawn = drawn w.holders i.drawn;
    distinct = distinct w.holders i.distinct;
  }
    where
      lose : Holder → Holder
      lose h = if drops h.key then record h { is_lost = true } else h

      token : (h : Holder) → (lose h).token ≡ h.token
      token h = elim (Bool-cases (drops h.key)) [ inl e ↦ rw e refl | inr e ↦ rw e refl ]

      store : Store
      store key = if drops key then none else w.store key

      kept : (h : Holder) → drops h.key ≡ false → Held w.now w.store h → Held w.now store h
      kept h e (inl ended) = inl ended
      kept h e (inr (inl lost)) = inr (inl lost)
      kept h e (inr (inr q)) = inr (inr (rw e q))

      lost : (h : Holder) → Held w.now w.store h → Held w.now store (lose h)
      lost h k = elim (Bool-cases (drops h.key)) [
        | inl e ↦ rw e (inr (inl refl))
        | inr e ↦ rw e (kept h e k)
      ]

      held :
          (holders : List Holder)
          → All (Held w.now w.store) holders
          → All (Held w.now store) (map lose holders)
      held [] a = tt
      held (h ∷ holders) a = (lost h a.0, held holders a.1)

      drawn :
          (holders : List Holder)
          → All (Drawn w.next_token) holders
          → All (Drawn w.next_token) (map lose holders)
      drawn [] a = tt
      drawn (h ∷ holders) a = (subst (λ t. t < w.next_token) (sym (token h)) a.0, drawn holders a.1)

      apart :
          (h : Holder) (holders : List Holder)
          → All (λ x. (x.token == h.token) ≡ false) holders
          → All (λ x. (x.token == (lose h).token) ≡ false) (map lose holders)
      apart h [] a = tt
      apart h (x ∷ holders) a = (rw (token x, token h) a.0, apart h holders a.1)

      distinct : (holders : List Holder) → Distinct holders → Distinct (map lose holders)
      distinct [] a = tt
      distinct (h ∷ holders) a = (apart h holders a.0, distinct holders a.1)

  Step-IsSound : {v w : World} → Step s v w → IsSound v → IsSound w
  Step-IsSound (wait v n) i = waited v n i
  Step-IsSound (try v process delivery key ttl) i = tried v process delivery key ttl i
  Step-IsSound (finish v h delivery) i = finished v h delivery i
  Step-IsSound (drop v drops) i = dropped v drops i

  pub Reachable-IsSound : {start w : World} → Reachable s start w → IsSound start → IsSound w
  Reachable-IsSound begun i = i
  Reachable-IsSound (stepped r step) i = Step-IsSound step (Reachable-IsSound r i)
