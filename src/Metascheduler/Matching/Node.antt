-- ===== src/Metascheduler/Matching/Node.antt =====
-- What __resourceMatchDOF2 does as a whole: the requests of a list that are fixed are granted
-- first, then those that leave their index open.
use mathlib.Core.List.{Permᴰ, append-nil}
use vizstack.Prelude.{
  ℕ, ◌≡◌, refl, ap, ◌∙◌, Option, none, some, List, [], ◌∷◌, ◌++◌, map, ◌⊎◌, inl, inr, Bool-cases,
  length, suc,
}
use vizstack.Errors.{Result, ok}
use vizstack.Resource.{Resource}
use vizstack.Metascheduler.Matching.{
  Match, Classified, match_rest, match_classified, no_pools, all_pools, pools_from, present, put_at,
  match_open, match_dof2,
}
use vizstack.Metascheduler.Matching.Classify.{
  is_fixed, fixed_of, open_of, slot, positions, fill_open, fill_open-slot, classify_res_lem,
  put_at-positions,
}
use vizstack.Metascheduler.Matching.Fixed.{Shortage, match_dof0_lem}
use vizstack.Metascheduler.Matching.Open.{
  OpenShortage, OpenShortage-Permᴰ, OpenOutcome, match_open_lem,
}
use vizstack.Metascheduler.Matching.ByClass.{all_pools-pools_from}
use vizstack.Metascheduler.Matching.Grants.{Grants, Grants-Permᴰ, Grants-append}

-- The requests with their answers in the places of the open ones.
abbrev pub answered : List Resource → List Resource → List Resource
answered = fill_open (λ r. r)

present-slots : (rs : List Resource) → present (map slot rs) ≡ fixed_of rs
present-slots [] = refl
present-slots (r ∷ rs) = elim (Bool-cases (is_fixed r)) [
  | inl e ↦ rw e (ap (◌∷◌ r) (present-slots rs))
  | inr e ↦ rw e (present-slots rs)
]

map-id : (rs : List Resource) → map (λ r. r) rs ≡ rs
map-id [] = refl
map-id (r ∷ rs) = ap (◌∷◌ r) (map-id rs)

length-answers :
    {uid : ℕ} {reqs answers avail left spent : List Resource}
    → Grants uid reqs answers avail left spent
    → length answers ≡ length reqs
length-answers (Grants.done p) = refl
length-answers (Grants.grant req a rest p h g) = ap suc (length-answers g)

-- The second half: every open request is granted and stands, with its answer, where it stood, or
-- one of them finds nothing, and the requests before it keep the addresses that they were given.
abbrev RestOutcome : ℕ → List Resource → List Resource → Result (Match (Option Resource)) → Type 0
RestOutcome uid reqs mid r =
    ((answers : List Resource) × (left : List Resource) × (spent : List Resource) × (r
        ≡ ok (record {
          outcome = some (map some (answered reqs answers), left);
          requests = answered reqs answers;
        }))
      × Grants uid (open_of reqs) answers mid left spent)
    ⊎ ((touched : List Resource) × (r
          ≡ ok (record { outcome = none; requests = answered reqs touched }))
        × OpenShortage uid (open_of reqs) mid touched)

-- What __resourceMatchDOF2 returns.
pub data NodeOutcome (uid : ℕ) (reqs avail : List Resource) (r : Result (Match (Option Resource)))
    : Type 0 where
  all_granted :
      (answers left spent : List Resource)
      → r
        ≡ ok (record {
          outcome = some (map some (answered reqs answers), left);
          requests = answered reqs answers;
        })
      → Grants uid (fixed_of reqs ++ open_of reqs) (fixed_of reqs ++ answers) avail left spent
      → NodeOutcome uid reqs avail r
  fixed_missing :
      r ≡ ok (record { outcome = none; requests = reqs })
      → Shortage uid (fixed_of reqs) avail
      → NodeOutcome uid reqs avail r
  open_missing :
      (mid spent touched : List Resource)
      → r ≡ ok (record { outcome = none; requests = answered reqs touched })
      → Grants uid (fixed_of reqs) (fixed_of reqs) avail mid spent
      → OpenShortage uid (open_of reqs) mid touched
      → NodeOutcome uid reqs avail r

-- The lists of the classification.
abbrev classified : List Resource → Classified
classified reqs = record {
  selected = map slot reqs;
  to_allocate = open_of reqs;
  index_map = positions 0 reqs;
}

put_back :
    (reqs touched : List Resource) → put_at (positions 0 reqs) touched reqs ≡ answered reqs touched
put_back reqs touched = rw (map-id reqs) at (put_at-positions (λ r. r) reqs touched [] 0 refl)

put_back-slots :
    (reqs answers : List Resource)
    → length answers ≡ length (open_of reqs)
    → put_at (positions 0 reqs) (map some answers) (map slot reqs)
      ≡ map some (answered reqs answers)
put_back-slots reqs answers e =
    put_at-positions slot reqs (map some answers) [] 0 refl ∙ fill_open-slot reqs answers e

-- Sorting by class loses nothing.
sorted-Permᴰ : (mid : List Resource) → Permᴰ mid (all_pools (pools_from no_pools mid))
sorted-Permᴰ mid = rw (append-nil mid) at (all_pools-pools_from mid no_pools)

match_rest_lem :
    (uid : ℕ) (reqs mid : List Resource)
    → OpenOutcome uid
        (open_of reqs)
        (pools_from no_pools mid)
        (match_open uid (open_of reqs) (pools_from no_pools mid))
    → RestOutcome uid reqs mid (match_rest uid (classified reqs) reqs mid)
unfolding match_rest
match_rest_lem uid reqs mid (inl (answers, left, spent, e, g)) = inl (
  answers,
  all_pools left,
  spent,
  rw e (rw (put_back-slots reqs answers (length-answers g)) (rw (put_back reqs answers))),
  Grants-Permᴰ (sorted-Permᴰ mid) g,
)
match_rest_lem uid reqs mid (inr (touched, e, s)) =
    inr (touched, rw e (rw (put_back reqs touched)), OpenShortage-Permᴰ (sorted-Permᴰ mid) s)

finish :
    (uid : ℕ) (reqs avail mid spent : List Resource) (r : Result (Match (Option Resource)))
    → Grants uid (fixed_of reqs) (fixed_of reqs) avail mid spent
    → RestOutcome uid reqs mid r
    → NodeOutcome uid reqs avail r
finish uid reqs avail mid spent r g (inl (answers, left, spent', e, h)) =
    all_granted answers left (spent ++ spent') e (Grants-append g h)
finish uid reqs avail mid spent r g (inr (touched, e, s)) = open_missing mid spent touched e g s

-- __resourceMatchDOF2 does not raise. It grants the fixed requests and then the open ones, and each
-- answer stands where its request stood; or a fixed request is not available, and the requests
-- are as they were; or an open one finds nothing.
pub match_dof2_lem :
    (uid : ℕ) (reqs avail : List Resource) → NodeOutcome uid reqs avail (match_dof2 uid reqs avail)
unfolding match_dof2 match_classified
match_dof2_lem uid reqs avail = rw (classify_res_lem reqs) (
    rw (present-slots reqs) (elim (match_dof0_lem uid (fixed_of reqs) avail) [
      | inl (mid, spent, e, g) ↦ rw e (
          rw (classify_res_lem reqs) (
            finish uid reqs avail mid spent _ g
              (match_rest_lem uid reqs mid (match_open_lem uid (open_of reqs) _))))
      | inr (e, s) ↦ rw e (fixed_missing refl s)
    ]))
