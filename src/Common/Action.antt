-- ===== src/Common/Action.antt =====
-- Methods that change an object and may raise. What was written before a `raise` stays written,
-- so the object comes back beside the exception too.
use mathlib.Core.Path.{◌≡◌, refl}
use mathlib.Core.Logic.{◌⊎◌, inl, inr}
use mathlib.Core.Bool.{Bool, true, false}
use mathlib.Core.Option.{Option, none, some}
use Prim.Native.String.{String}

-- The exception classes that the modelled code raises, with their reason.
pub data Error : Type 0 where
  type_error value_error key_error runtime_error rejected auth_error replay_error : String → Error
  frame_error node_message_error timeout_error struct_error overflow_error : String → Error
  mission_timeout mission_denied mission_verification_error : String → Error
  mission_unsafe_residual : String → Error

pub data Result {ℓ} (A : Type ℓ) : Type ℓ where
  ok : A → Result A
  err : Error → Result A

abbrev pub bind {ℓ κ} : {A : Type ℓ} {B : Type κ} → Result A → (A → Result B) → Result B
bind (ok a) f = f a
bind (err x) f = err x

-- `if not test: raise x`
abbrev pub require : Bool → Error → Result (Unit {0})
require true x = ok tt
require false x = err x

abbrev pub or_raise {ℓ} : {A : Type ℓ} → Option A → Error → Result A
or_raise (some a) x = ok a
or_raise none x = err x

pub Result-cases {ℓ} :
    {A : Type ℓ} (r : Result A) → ((a : A) × (r ≡ ok a)) ⊎ ((x : Error) × (r ≡ err x))
Result-cases (ok a) = inl (a, refl)
Result-cases (err x) = inr (x, refl)

-- The object after a call that writes nothing when it raises.
abbrev pub settle {ℓ} : {S : Type ℓ} → S → Result S → S
settle s (ok t) = t
settle s (err x) = s

-- A chain of calls that returned: its first call did.
pub bind_ok {ℓ κ} :
    {A : Type ℓ} {B : Type κ} (r : Result A) (f : A → Result B) {b : B}
    → bind r f ≡ ok b
    → (a : A) × (r ≡ ok a) × (f a ≡ ok b)
bind_ok (ok a) f h = (a, refl, h)
bind_ok (err x) f h = cc
