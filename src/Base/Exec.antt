-- ===== src/Base/Exec.antt =====
-- A handler that changes a state and may raise. What was changed before a raise stays changed.
use mathlib.Core.Path.{◌≡◌, refl, ap, sym, ◌∙◌}
use mathlib.Core.Logic.{inl, inr}
use golf_rank.Base.Http.{HttpException, Result, ok, err, ok_or_err, err≢ok}

abbrev pub Exec : Type 0 → Type 0 → Type 0
Exec S A = S → Result A × S

module _ {S A : Type 0} where
  abbrev pub pure : A → Exec S A
  pure a s = (ok a, s)

  abbrev pub lift : Result A → Exec S A
  lift r s = (r, s)

module _ {S A B : Type 0} where
  abbrev pub continue : Result A → (A → Exec S B) → Exec S B
  continue (err e) next s = (err e, s)
  continue (ok a) next s = next a s

  infixl 5 ◌>>=◌
  unfoldable pub ◌>>=◌ : Exec S A → (A → Exec S B) → Exec S B
  ◌>>=◌ first next s = continue (first s).0 next (first s).1

  infixl 5 ◌>>◌
  abbrev pub ◌>>◌ : Exec S A → Exec S B → Exec S B
  first >> second = first >>= λ ignored. second

  -- A block whose first action raises ends with its error and its state.
  pub >>=_raises :
      (m : Exec S A) (f : A → Exec S B) (s s' : S) (e : HttpException)
      → m s ≡ (err e, s')
      → (m >>= f) s ≡ (err e, s')
  unfolding ◌>>=◌
  >>=_raises m f s s' e h = rw h

  pub >>=_returns :
      (m : Exec S A) (f : A → Exec S B) (s s' : S) (a : A) → m s ≡ (ok a, s') → (m >>= f) s ≡ f a s'
  unfolding ◌>>=◌
  >>=_returns m f s s' a h = rw h

  -- A block that returns has an action that returned.
  pub >>=_ok :
      (m : Exec S A) (f : A → Exec S B) (s : S) (b : B)
      → ((m >>= f) s).0 ≡ ok b
      → (a : A) × ((m s).0 ≡ ok a) × ((m >>= f) s ≡ f a (m s).1)
  unfolding ◌>>=◌
  >>=_ok m f s b h = elim (ok_or_err (m s).0) [
    | inl (a, e) ↦ (a, e, rw e refl)
    | inr (e, q) ↦ absurd (err≢ok e b (ap (λ r. (continue r f (m s).1).0) (sym q) ∙ h))
  ]

  -- What both parts of a block keep, the block keeps.
  pub >>=_keeps {ℓ} :
      {X : Type ℓ} (φ : S → X) (m : Exec S A) (f : A → Exec S B) (s : S)
      → φ (m s).1 ≡ φ s
      → ((a : A) (s' : S) → φ (f a s').1 ≡ φ s')
      → φ ((m >>= f) s).1 ≡ φ s
  unfolding ◌>>=◌
  >>=_keeps φ m f s h k = elim (ok_or_err (m s).0) [
    | inl (a, e) ↦ rw e (k a (m s).1 ∙ h)
    | inr (x, e) ↦ rw e h
  ]

-- Whatever the action answers, it keeps `P`.
abbrev pub Holds {ℓ} : {S A : Type 0} → (S → Type ℓ) → Exec S A → Type ℓ
Holds {S = S} P m = (s : S) → P s → P (m s).1

module _ {ℓ} {S A B : Type 0} (P : S → Type ℓ) where
  pub Holds->>= :
      (m : Exec S A) (f : A → Exec S B) → Holds P m → ((a : A) → Holds P (f a)) → Holds P (m >>= f)
  unfolding ◌>>=◌
  Holds->>= m f h k s p = elim (ok_or_err (m s).0) [
    | inl (a, e) ↦ rw e (k a (m s).1 (h s p))
    | inr (x, e) ↦ rw e (h s p)
  ]
