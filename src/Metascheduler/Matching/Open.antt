-- ===== src/Metascheduler/Matching/Open.antt =====
-- What the loop of __resourceMatchDOF2 does with the requests that leave their index open.
use mathlib.Core.List.Permᴰ
use vizstack.Prelude.{
  ℕ, false, ◌≡◌, refl, ap, none, some, List, [], ◌∷◌, ◌++◌, All, All-mono, arith, ◌⊎◌, inl, inr,
}
use mathlib.Core.List.{Permᴰ}
use vizstack.Errors.{Result, ok}
use vizstack.Resource.{Resource}
use vizstack.Resource.Search.{can_allocate}
use vizstack.Metascheduler.Matching.{
  OpenMatch, Pools, pool_of, set_pool, all_pools, is_allocatable, take_first, match_open,
}
use vizstack.Metascheduler.Matching.FirstFit.{
  IsAdmission, IsFirstFit, IsFirstFit-append, take_first_lem,
}
use vizstack.Metascheduler.Matching.Fixed.{IsFirstFit-grant}
use vizstack.Metascheduler.Matching.ByClass.{others, all_pools-set_pool, all_pools-split}
use vizstack.Metascheduler.Matching.Grants.{Grants, done, Grants-Permᴰ}

pub is_allocatable-IsAdmission : IsAdmission is_allocatable
is_allocatable-IsAdmission = record {
  admits = λ a req h. ground arith;
  returns = λ a req. ground arith;
}

-- The requests that could be granted, and the first one for which the pool of its class holds
-- nothing.
pub record OpenShortage (uid : ℕ) (reqs avail touched : List Resource) : Type 0 where
  pub before : List Resource
  pub unmet : Resource
  pub after : List Resource
  pub split : reqs ≡ before ++ unmet ∷ after
  pub answers : List Resource
  pub touched_eq : touched ≡ answers ++ unmet ∷ after
  pub pools : Pools
  pub spent : List Resource
  pub grants : Grants uid before answers avail (all_pools pools) spent
  pub nothing_fits : All (λ a. can_allocate a unmet ≡ false) (pool_of unmet.class pools)

pub OpenShortage-Permᴰ :
    {uid : ℕ} {reqs avail avail' touched : List Resource}
    → Permᴰ avail avail'
    → OpenShortage uid reqs avail' touched
    → OpenShortage uid reqs avail touched
OpenShortage-Permᴰ p s = record {
  before = s.before;
  unmet = s.unmet;
  after = s.after;
  split = s.split;
  answers = s.answers;
  touched_eq = s.touched_eq;
  pools = s.pools;
  spent = s.spent;
  grants = Grants-Permᴰ p s.grants;
  nothing_fits = s.nothing_fits;
}

abbrev pub OpenOutcome : ℕ → List Resource → Pools → Result OpenMatch → Type 0
OpenOutcome uid reqs pools r =
    ((answers : List Resource) × (left : Pools) × (spent : List Resource) × (r
        ≡ ok (record { outcome = some (answers, left); requests = answers }))
      × Grants uid reqs answers (all_pools pools) (all_pools left) spent)
    ⊎ ((touched : List Resource) × (r ≡ ok (record { outcome = none; requests = touched }))
        × OpenShortage uid reqs (all_pools pools) touched)

-- A grant out of the pool of one class is one out of all pools.
pub pool-grant :
    (uid : ℕ) (req : Resource) (pools : Pools) {addressed : Resource} {remaining : List Resource}
    (fit : IsFirstFit is_allocatable uid req (pool_of req.class pools) addressed remaining)
    {reqs answers left spent : List Resource}
    → Grants uid reqs answers (all_pools (set_pool req.class remaining pools)) left spent
    → (spent' : List Resource) × Grants uid
        (req ∷ reqs)
        (addressed ∷ answers)
        (all_pools pools)
        left
        spent'
pool-grant uid req pools {addressed} {remaining} fit g = (
  _,
  Grants-Permᴰ (all_pools-split req.class pools) (
      IsFirstFit-grant is_allocatable-IsAdmission (IsFirstFit-append (others req.class pools) fit)
        (Grants-Permᴰ (Permᴰ.symm (all_pools-set_pool req.class remaining pools)) g)),
)

module _ (uid : ℕ) where
  later :
      (req : Resource) (reqs : List Resource) (pools : Pools) (addressed : Resource)
      (remaining : List Resource)
      → IsFirstFit is_allocatable uid req (pool_of req.class pools) addressed remaining
      → take_first is_allocatable uid req (pool_of req.class pools)
        ≡ ok (some (addressed, remaining))
      → (let rest = set_pool req.class remaining pools in
          OpenOutcome uid reqs rest (match_open uid reqs rest))
      → OpenOutcome uid (req ∷ reqs) pools (match_open uid (req ∷ reqs) pools)
  unfolding match_open
  later req reqs pools addressed remaining fit found (inl (answers, left, spent, e, g)) =
      let (spent', g') = pool-grant uid req pools fit g in
      inl (addressed ∷ answers, left, spent', rw (found, match_open) (rw e), g')
  later req reqs pools addressed remaining fit found (inr (touched, e, s)) =
      let (spent', g') = pool-grant uid req pools fit s.grants in
      inr (
        addressed ∷ touched,
        rw (found, match_open) (rw e),
        record {
          before = req ∷ s.before;
          unmet = s.unmet;
          after = s.after;
          split = ap (◌∷◌ req) s.split;
          answers = addressed ∷ s.answers;
          touched_eq = ap (◌∷◌ addressed) s.touched_eq;
          pools = s.pools;
          spent = spent';
          grants = g';
          nothing_fits = s.nothing_fits;
        },
      )

  pub match_open_lem :
      (reqs : List Resource) (pools : Pools)
      → OpenOutcome uid reqs pools (match_open uid reqs pools)
  unfolding match_open
  match_open_lem [] pools = inl ([], pools, [], refl, done (Permᴰ.refl _))
  match_open_lem (req ∷ reqs) pools =
      elim (take_first_lem is_allocatable is_allocatable-IsAdmission uid req
        (pool_of req.class pools)) [
          | inl (addressed, remaining, found, fit) ↦
              later req reqs pools addressed remaining fit found
                (match_open_lem reqs (set_pool req.class remaining pools))
          | inr (missing, nothing_fits) ↦ inr (
            req ∷ reqs,
            rw (missing, match_open),
            record {
              before = [];
              unmet = req;
              after = reqs;
              split = refl;
              answers = [];
              touched_eq = refl;
              pools = pools;
              spent = [];
              grants = done (Permᴰ.refl _);
              nothing_fits =
                  All-mono _ _ (λ a e. ground arith) (pool_of req.class pools) nothing_fits;
            },
          )
        ]
