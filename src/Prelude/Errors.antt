-- ===== src/Prelude/Errors.antt =====
-- What a call of the source does: it answers, or it throws an exception with a message.
use Prim.Native.String.{String}
use mathlib.Core.Path.{◌≡◌, refl}

pub data Result {ℓ} (T : Type ℓ) : Type ℓ where
  err : (message : String) → Result T
  ok : (value : T) → Result T

infixl 5 ◌>>=◌
abbrev pub ◌>>=◌ {κ ℓ} : {T : Type κ} {U : Type ℓ} → Result T → (T → Result U) → Result U
◌>>=◌ (err message) next = err message
◌>>=◌ (ok value) next = next value

-- What a chain that answers went through.
pub bind-ok {κ ℓ} :
    {T : Type κ} {U : Type ℓ} (r : Result T) (next : T → Result U) (u : U)
    → (r >>= next) ≡ ok u
    → (t : T) × (r ≡ ok t) × (next t ≡ ok u)
bind-ok (ok t) next u e = (t, refl, e)
bind-ok (err m) next u e = cc
