-- ===== src/Base/Http.antt =====
-- FastAPI's HTTPException, as the error of a handler: its status, its detail and its headers.
use Prim.Native.Nat.{ℕ}
use Prim.Native.String.{String}
use mathlib.Core.List.{List, []}
use mathlib.Core.Path.{◌≡◌, refl}
use mathlib.Core.Logic.{◌⊎◌, inl, inr}
use mathlib.Core.Bool.{Bool, true, false}

pub record HttpException : Type 0 where
  pub status : ℕ
  pub detail : String
  pub headers : List (String × ℕ)

pub data Result {ℓ} (A : Type ℓ) : Type ℓ where
  ok : A → Result A
  err : HttpException → Result A

abbrev pub raise {ℓ} : {A : Type ℓ} → ℕ → String → Result A
raise status detail = err (record { status = status; detail = detail; headers = [] })

module _ {ℓ κ} {A : Type ℓ} {B : Type κ} where
  infixl 5 ◌>>=◌
  -- An error skips the rest of the block.
  abbrev pub ◌>>=◌ : Result A → (A → Result B) → Result B
  err e >>= rest = err e
  ok a >>= rest = rest a

module _ {ℓ} {B : Type ℓ} where
  infixl 5 ◌>>◌
  abbrev pub ◌>>◌ : Result (Unit {0}) → Result B → Result B
  check >> rest = check >>= λ passed. rest

-- `if not b: raise HTTPException(status, detail)`.
abbrev pub require : Bool → ℕ → String → Result (Unit {0})
require true status detail = ok tt
require false status detail = raise status detail

pub ok_or_err {ℓ} :
    {A : Type ℓ} (r : Result A) → ((a : A) × (r ≡ ok a)) ⊎ ((e : HttpException) × (r ≡ err e))
ok_or_err (ok a) = inl (a, refl)
ok_or_err (err e) = inr (e, refl)

pub err≢ok {ℓ} : {A : Type ℓ} (e : HttpException) (a : A) → err e ≡ ok a → ⊥
err≢ok e a h = cc

pub ok-inj {ℓ} : {A : Type ℓ} (a b : A) → ok a ≡ ok b → a ≡ b
ok-inj a b h = cc

-- A block that succeeds has a first step that succeeded.
pub bind_ok {ℓ κ} :
    {A : Type ℓ} {B : Type κ} (r : Result A) (f : A → Result B) (b : B)
    → (r >>= f) ≡ ok b
    → (a : A) × (r ≡ ok a) × (f a ≡ ok b)
bind_ok (ok a) f b h = (a, refl, h)
bind_ok (err e) f b h = absurd (err≢ok e b h)
