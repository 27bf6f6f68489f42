-- ===== src/Metascheduler/Managed.antt =====
-- Properties of the state that statements keep, and the table of managed resources.
use vizstack.Prelude.{
  ℕ, String, ◌≡◌, some, [], ◌∷◌, All, inl, inr, Bool-cases, Option-cases, ◌==◌, string_eq, arith,
}
use vizstack.Prelude.Dict.{Dict, lookup, put}
use vizstack.Errors.{Result, ok, raise, Statement, ◌>>=◌, proceed}
use vizstack.Resource.{Resource}
use vizstack.Resource.Sharing.{do_allocate}
use vizstack.Resource.Sharing.Invariant.{IsWithinLimit, do_allocate-IsWithinLimit}
use vizstack.Metascheduler.Commit.{lift, on_managed, allocate_copy}

-- Every managed resource is within its limit.
abbrev pub TableWithinLimit : Dict Resource → Type 0
TableWithinLimit = All (λ entry. IsWithinLimit entry.1.base)

put-TableWithinLimit :
    (key : String) (res : Resource) (table : Dict Resource)
    → IsWithinLimit res.base
    → TableWithinLimit table
    → TableWithinLimit (put key res table)
unfolding put
put-TableWithinLimit key res [] h t = (h, tt)
put-TableWithinLimit key res ((j, r) ∷ table) h t = elim (Bool-cases (j == key)) [
  | inl e ↦ rw e (h, t.1)
  | inr e ↦ rw e (t.0, put-TableWithinLimit key res table h t.1)
]

lookup-IsWithinLimit :
    (key : String) (table : Dict Resource) {res : Resource}
    → lookup key table ≡ some res
    → TableWithinLimit table
    → IsWithinLimit res.base
unfolding lookup
lookup-IsWithinLimit key [] e t = cc
lookup-IsWithinLimit key ((j, r) ∷ table) {res} e t = elim (Bool-cases (j == key)) [
  | inl hit ↦ let same : r ≡ res = ground arith in rw same at t.0
  | inr miss ↦ lookup-IsWithinLimit key table {res = res} (rw miss at e) t.1
]

-- A statement keeps a property of the state, also when it raises.
abbrev pub Keeps : {State Value : Type 0} → (State → Type 0) → Statement State Value → Type 0
Keeps {State} P m = (s : State) → P s → P (m s).1

proceed-Keeps :
    {State Value Next : Type 0} (P : State → Type 0) (f : Value → Statement State Next)
    → ((v : Value) → Keeps P (f v))
    → (r : Result Value × State) → P r.1
    → P (proceed f r).1
proceed-Keeps P f kf (ok v, now) q = kf v now q
proceed-Keeps P f kf (raise e, now) q = q

pub Keeps-bind :
    {State Value Next : Type 0} (P : State → Type 0) (m : Statement State Value)
    (f : Value → Statement State Next)
    → Keeps P m
    → ((v : Value) → Keeps P (f v))
    → Keeps P (m >>= f)
Keeps-bind P m f km kf s p = proceed-Keeps P f kf (m s) (km s p)

pub on_managed-Keeps :
    {Value : Type 0} (key : String) (method : Statement Resource Value)
    → Keeps (λ r. IsWithinLimit r.base) method
    → Keeps TableWithinLimit (on_managed key method)
unfolding on_managed
on_managed-Keeps key method keeps table t = elim (Option-cases (lookup key table)) [
  | inl e ↦ rw (e, on_managed) t
  | inr (managed, e) ↦
      rw (e, on_managed)
        (put-TableWithinLimit key _ table (keeps managed (lookup-IsWithinLimit key table e t)) t)
]

-- A statement that first computes something and then goes on.
pub Keeps-lift :
    {State Value Next : Type 0} (P : State → Type 0) (r : Result Value)
    (f : Value → Statement State Next)
    → ((v : Value) → Keeps P (f v))
    → Keeps P (lift r >>= f)
Keeps-lift P (ok v) f kf s p = kf v s p
Keeps-lift P (raise e) f kf s p = p

pub allocate_copy-Keeps :
    (uid : ℕ) (res : Resource) → Keeps (λ r. IsWithinLimit r.base) (allocate_copy uid res)
allocate_copy-Keeps uid res =
    Keeps-bind (λ r. IsWithinLimit r.base) (do_allocate res uid) _
      (λ managed w. do_allocate-IsWithinLimit managed res uid w) (λ _ s p. p)
