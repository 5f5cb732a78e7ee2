-- ===== src/Lock/Leases.antt =====
-- What a holder of a lock of `RedisLock` has, and what Redis's two calls leave of it.
use text.Mathlib.Text.{◌==◌ as str_eq}
use text.Mathlib.TextEquality.{eq_iff}
use golf_rank.Base.{
  ℕ, ◌≡◌, ◌≤◌, ◌<◌, ◌⊎◌, inl, inr, sym, ap, ◌∙◌, String, Bool, true, false, Option, none, some,
  List, [], ◌∷◌, arith, ◌==◌, keep, All, All-keep, Bool-cases, Option-cases,
}
use golf_rank.Lock.{Lease, Store, current, write, compare_and_delete, Holder, World}

abbrev pub lease_of : Holder → Lease
lease_of h = record { token = h.token; expires_at = h.until }

-- The lease of the holder has ended, or Redis has dropped the key, or it is what Redis holds.
abbrev pub Held : ℕ → Store → Holder → Type 0
Held now store h = (h.until ≤ now) ⊎ ((h.is_lost ≡ true) ⊎ (store h.key ≡ some (lease_of h)))

abbrev pub Drawn : ℕ → Holder → Type 0
Drawn n h = h.token < n

abbrev pub Distinct : List Holder → Type 0
Distinct [] = Unit {0}
Distinct (h ∷ holders) = All (λ x. (x.token == h.token) ≡ false) holders × Distinct holders

pub record IsSound (w : World) : Type 0 where
  pub held : All (Held w.now w.store) w.holders
  pub drawn : All (Drawn w.next_token) w.holders
  pub distinct : Distinct w.holders

pub All-mono :
    (P Q : Holder → Type 0) (holders : List Holder)
    → ((h : Holder) → P h → Q h)
    → All P holders
    → All Q holders
All-mono P Q [] f a = tt
All-mono P Q (h ∷ holders) f a = (f h a.0, All-mono P Q holders f a.1)

pub Distinct-keep :
    (p : Holder → Bool) (holders : List Holder) → Distinct holders → Distinct (keep p holders)
Distinct-keep p [] d = tt
Distinct-keep p (h ∷ holders) d = elim (Bool-cases (p h)) [
  | inl e ↦ rw e (
    All-keep (λ (x : Holder). (x.token == h.token) ≡ false) p holders d.0,
    Distinct-keep p holders d.1,
  )
  | inr e ↦ rw e (Distinct-keep p holders d.1)
]

-- A lease that has not ended is seen.
current-live :
    (now : ℕ) (h : Holder) (found : Option Lease)
    → found ≡ some (lease_of h)
    → current now found ≡ none
    → h.until ≤ now
current-live now h none e c = absurd (cc e)
current-live now h (some l) e c = ground (arith, e, c)

current-token :
    (now : ℕ) (h : Holder) (found : Option Lease) (l : Lease)
    → found ≡ some (lease_of h)
    → current now found ≡ some l
    → l.token ≡ h.token
current-token now h none l e c = absurd (cc e)
current-token now h (some x) l e c = ground (arith, e, c)

-- Taking a free key leaves the other holders with what they had.
pub Held-write :
    (now : ℕ) (key : String) (l : Lease) (store : Store) (h : Holder)
    → current now (store key) ≡ none
    → Held now store h
    → Held now (write key (some l) store) h
Held-write now key l store h free (inl ended) = inl ended
Held-write now key l store h free (inr (inl lost)) = inr (inl lost)
Held-write now key l store h free (inr (inr e)) = elim (Bool-cases (str_eq h.key key)) [
  | inl same ↦
      inl (current-live now h (store key) (ap store (sym ((eq_iff h.key key).0 same)) ∙ e) free)
  | inr other ↦ inr (inr (rw other e))
]

-- A token deletes no lease of another token.
pub Held-delete :
    (now : ℕ) (key : String) (token : ℕ) (store : Store) (h : Holder)
    → (h.token == token) ≡ false
    → Held now store h
    → Held now (compare_and_delete now key token store) h
unfolding compare_and_delete
Held-delete now key token store h apart (inl ended) = inl ended
Held-delete now key token store h apart (inr (inl lost)) = inr (inl lost)
Held-delete now key token store h apart (inr (inr e)) =
    elim (Option-cases (current now (store key))) [
      | inl n ↦ inr (inr (rw n e))
      | inr (l, c) ↦ inr (
          inr (
            rw c (elim (Bool-cases (l.token == token)) [
              | inl t ↦ elim (Bool-cases (str_eq h.key key)) [
                | inl same ↦ absurd (
                    let k =
                      current-token now h (store key) l
                        (ap store (sym ((eq_iff h.key key).0 same)) ∙ e) c in
                    ground (arith, k, t, apart))
                | inr other ↦ rw (t, other) e
              ]
              | inr t ↦ rw t e
            ])))
    ]
