-- ===== src/Errors.antt =====
-- Exceptions of python/vsapi.py and python/metascheduler.py as values, and the two ways to run code
-- that may raise: a pure computation, and one that mutates a state.
use vizstack.Prelude.{
  Bool, true, false, if◌then◌else◌, ◌≡◌, refl, ◌⊎◌, inl, inr, Option, none, some,
}

-- VizError's codes
pub data VizErrorCode : Type 0 where
  incorrect_value unimplemented resource_busy bad_resource bad_configuration : VizErrorCode
  resource_unspecified internal_error user_error bad_protocol not_connected : VizErrorCode
  resource_unavailable socket_error bad_operation access_denied : VizErrorCode

-- The class of the exception; messages are not kept.
pub data Exception : Type 0 where
  viz_error : VizErrorCode → Exception
  value_error type_error name_error key_error attribute_error index_error : Exception
  -- socket.error
  socket_failure : Exception

pub data Result {ℓ} (A : Type ℓ) : Type ℓ where
  ok : A → Result A
  raise : Exception → Result A

pub Result-cases {ℓ} :
    {A : Type ℓ} (r : Result A) → ((a : A) × (r ≡ ok a)) ⊎ ((e : Exception) × (r ≡ raise e))
Result-cases (ok a) = inl (a, refl)
Result-cases (raise e) = inr (e, refl)

-- A statement over a mutable state. What was written before a raise stays written.
abbrev pub Statement {ℓ} : Type ℓ → Type ℓ → Type ℓ
Statement S A = S → Result A × S

-- What holds of the value, if there is one.
abbrev pub Post {κ μ} : {B : Type κ} → (B → Type μ) → Result B → Type μ
Post P (ok b) = P b
Post P (raise e) = Unit

module _ {ℓ κ} {A : Type ℓ} {B : Type κ} where
  abbrev pub and_then : Result A → (A → Result B) → Result B
  and_then (ok a) f = f a
  and_then (raise e) f = raise e

  pub and_then-ok :
      (r : Result A) (f : A → Result B) (b : B)
      → and_then r f ≡ ok b
      → (a : A) × (r ≡ ok a) × (f a ≡ ok b)
  and_then-ok (ok a) f b h = (a, refl, h)
  and_then-ok (raise e) f b h = absurd cc

  pub Post-and_then {μ} :
      (P : B → Type μ) (r : Result A) (f : A → Result B)
      → ((a : A) → r ≡ ok a → Post P (f a))
      → Post P (and_then r f)
  Post-and_then P (ok a) f h = h a refl
  Post-and_then P (raise e) f h = tt

-- d[k]
abbrev pub key_of {ℓ} : {A : Type ℓ} → Option A → Result A
key_of none = raise key_error
key_of (some a) = ok a

-- The statement after, or the exception.
abbrev pub proceed {ℓ} :
    {State Value Next : Type ℓ}
    → (Value → Statement State Next)
    → Result Value × State
    → Result Next × State
proceed next (ok v, now) = next v now
proceed next (raise e, now) = (raise e, now)

infixl 5 ◌>>=◌ ◌>>◌
abbrev pub ◌>>=◌ {ℓ} :
    {State Value Next : Type ℓ}
    → Statement State Value
    → (Value → Statement State Next)
    → Statement State Next
◌>>=◌ first next before = proceed next (first before)

abbrev pub ◌>>◌ {ℓ} :
    {State Value Next : Type ℓ}
    → Statement State Value
    → Statement State Next
    → Statement State Next
first >> next = first >>= (λ _. next)

-- A guard that was passed.
pub guard-ok {ℓ} :
    {A : Type ℓ} (refused : Bool) (e : Exception) (r : Result A) (a : A)
    → (if refused then raise e else r) ≡ ok a
    → (refused ≡ false) × (r ≡ ok a)
guard-ok true e r a h = absurd cc
guard-ok false e r a h = (refl, h)

module _ {S : Type 0} where
  abbrev pub modify : (S → S) → Statement S (Unit {0})
  modify f s = (ok tt, f s)

  abbrev pub throw : {A : Type 0} → Exception → Statement S A
  throw e s = (raise e, s)

  abbrev pub pure : {A : Type 0} → A → Statement S A
  pure a s = (ok a, s)
