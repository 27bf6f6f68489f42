-- ===== src/Metascheduler/Growth.antt =====
-- Statements that add to a measure of their state.
use vizstack.Prelude.{ℕ, ◌+◌, ◌≡◌, refl, arith}
use vizstack.Errors.{Result, ok, raise, Statement, ◌>>=◌, proceed, pure}
use vizstack.Metascheduler.Commit.{lift}

-- Where the statement succeeds, a measure of the state grows by a number.
abbrev pub Adds : {State Value : Type 0} → (State → ℕ) → ℕ → Statement State Value → Type 0
Adds {State} {Value} measure n m =
    (s : State) (v : Value) → (m s).0 ≡ ok v → measure (m s).1 ≡ measure s + n

module _ {State Value Next : Type 0} (measure : State → ℕ) where
  proceed-Adds :
      (n k : ℕ) (f : Value → Statement State Next) (before : ℕ)
      → ((v : Value) → Adds measure k (f v))
      → (r : Result Value × State) → ((v : Value) → r.0 ≡ ok v → measure r.1 ≡ before + n)
      → (w : Next) → (proceed f r).0 ≡ ok w
      → measure (proceed f r).1 ≡ before + (n + k)
  proceed-Adds n k f before af (ok v, now) a w e = omega (arith, a v refl, af v now w e)
  proceed-Adds n k f before af (raise x, now) a w e = absurd cc

  pub Adds-bind :
      (n k : ℕ) (m : Statement State Value) (f : Value → Statement State Next)
      → Adds measure n m
      → ((v : Value) → Adds measure k (f v))
      → Adds measure (n + k) (m >>= f)
  Adds-bind n k m f am af s w e = proceed-Adds n k f (measure s) af (m s) (am s) w e

  pub Adds-lift :
      (n : ℕ) (r : Result Value) (f : Value → Statement State Next)
      → ((v : Value) → r ≡ ok v → Adds measure n (f v))
      → Adds measure n (lift r >>= f)
  Adds-lift n (ok v) f af s w e = af v refl s w e
  Adds-lift n (raise x) f af s w e = absurd cc

  pub Adds-then :
      (n : ℕ) (m : Statement State Value) (f : Value → Statement State Next)
      → Adds measure n m
      → ((v : Value) → Adds measure 0 (f v))
      → Adds measure n (m >>= f)
  Adds-then n m f am af s w e = omega (arith, Adds-bind n 0 m f am af s w e)

pub nothing : {State Value : Type 0} (measure : State → ℕ) (v : Value) → Adds measure 0 (pure v)
nothing measure v s w e = omega arith

pub lifted :
    {State Value : Type 0} (measure : State → ℕ) (r : Result Value) → Adds measure 0 (lift r)
lifted measure r s w e = omega arith
