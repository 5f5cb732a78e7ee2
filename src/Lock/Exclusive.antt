-- ===== src/Lock/Exclusive.antt =====
-- The holders of a lock of `RedisLock`.
use text.Mathlib.Text.{◌==◌ as str_eq}
use text.Mathlib.TextEquality.{eq_iff}
use golf_rank.Base.{
  ℕ, ◌≡◌, ◌≤◌, inl, inr, sym, ap, ◌∙◌, String, Bool, true, false, not, ◌&&◌, Option, some, List, [],
  ◌∷◌, arith, ◌==◌, ltb, keep, length, All, Bool-cases,
}
use golf_rank.Lock.{LockSettings, Lease, Store, Holder, World, Reachable}
use golf_rank.Lock.Leases.{lease_of, Held, Distinct, IsSound, Distinct-keep}
use golf_rank.Lock.Sound.{Reachable-IsSound}

-- Whose lock of the key still counts: its lease has not ended and Redis has not dropped the key.
abbrev pub counts : String → ℕ → Holder → Bool
counts key now h = str_eq h.key key && (ltb now h.until && not h.is_lost)

abbrev pub holders_of : String → World → List Holder
holders_of key w = keep (counts key w.now) w.holders

leased :
    (key : String) (now : ℕ) (store : Store) (holders : List Holder)
    → All (Held now store) holders
    → All (λ h. store key ≡ some (lease_of h)) (keep (counts key now) holders)
leased key now store [] a = tt
leased key now store (h ∷ holders) a = elim (Bool-cases (counts key now h)) [
  | inl e ↦ rw e (stored e a.0, leased key now store holders a.1)
  | inr e ↦ rw e (leased key now store holders a.1)
]
  where
    same_key : counts key now h ≡ true → h.key ≡ key
    same_key e = (eq_iff h.key key).0 (ground (arith, e))

    stored : counts key now h ≡ true → Held now store h → store key ≡ some (lease_of h)
    stored t (inl ended) = absurd (ground (arith, t, ended))
    stored t (inr (inl lost)) = absurd (ground (arith, t, lost))
    stored t (inr (inr e)) = ap store (sym (same_key t)) ∙ e

one_lease :
    (found : Option Lease) (holders : List Holder)
    → Distinct holders
    → All (λ h. found ≡ some (lease_of h)) holders
    → length holders ≤ 1
one_lease found [] d a = omega arith
one_lease found (h ∷ []) d a = omega arith
one_lease found (h ∷ x ∷ holders) d a = absurd (two_leases h x (sym a.0 ∙ a.1.0) d.0.0)
  where
    two_leases :
        (h x : Holder) → some (lease_of h) ≡ some (lease_of x) → (x.token == h.token) ≡ false → ⊥
    two_leases h x e apart = ground (arith, e, apart)

module _ (s : LockSettings) where
  -- From a sound state on, whatever the processes do, in whichever order, whichever calls of Redis or
  -- answers are lost, and whichever keys Redis drops before they expire, at most one process holds a
  -- lock of a key whose lease has not ended and that Redis has not dropped since. A process whose key
  -- Redis has dropped may work beside another one, and so may those that went on without a lock.
  pub holders_of_exclusive :
      {start w : World} (key : String)
      → IsSound start
      → Reachable s start w
      → length (holders_of key w) ≤ 1
  holders_of_exclusive {start} {w} key i r =
      let sound = Reachable-IsSound s r i in
      one_lease (w.store key) (holders_of key w) (Distinct-keep _ w.holders sound.distinct)
        (leased key w.now w.store w.holders sound.held)
