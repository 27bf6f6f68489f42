-- ===== src/Metascheduler/Matching/Safety.antt =====
-- What a successful match of a list of requests on one node means for the node's resources.
use vizstack.Prelude.{
  ℕ, ◌+◌, ◌≡◌, Option, some, List, map, length-map, ap, [], ◌∷◌, ◌++◌, arith, length, length-append,
  true, false, Bool-cases, inl, inr,
}
use mathlib.Core.List.{Permᴰ}
use vizstack.Errors.{ok}
use vizstack.Resource.{Resource}
use vizstack.Metascheduler.Matching.{match_dof2}
use vizstack.Metascheduler.Matching.Classify.{is_fixed, fixed_of, open_of}
use vizstack.Metascheduler.Matching.Node.{all_granted, fixed_missing, open_missing, match_dof2_lem}
use vizstack.Metascheduler.Matching.Grants.{
  Grants, AreWithinLimit, AreFree, Grants-IsWithinLimit, Grants-is_free,
}
use vizstack.Metascheduler.Matching.Uses.{
  Identity, identity, identities, use_by, use_of, uses, flat-Grants, granted-identity, granted-uses,
  flat_nothing, flat_single,
}

-- What becomes of the resources `avail` when `reqs` are granted to a user: they are the resources
-- that are left and those that are used up. None has more users than its sharing allows, what is left
-- is free and what is used up is not. To the uses before, each request adds one of this user.
pub record Accounted (uid : ℕ) (reqs avail left : List Resource) : Type 0 where
  pub spent : List Resource
  pub kept_all : Permᴰ (identities (left ++ spent)) (identities avail)
  pub left_within : AreWithinLimit left
  pub spent_within : AreWithinLimit spent
  pub left_free : AreFree true left
  pub spent_full : AreFree false spent
  pub granted_to : List Identity
  pub one_each : length granted_to ≡ length reqs
  pub uses_after : Permᴰ (uses (left ++ spent)) (map (use_by uid) granted_to ++ uses avail)

length-fixed-open : (rs : List Resource) → length (fixed_of rs ++ open_of rs) ≡ length rs
length-fixed-open rs = omega (arith, length-append (fixed_of rs) (open_of rs), both rs)
  where
    both : (rs : List Resource) → length (fixed_of rs) + length (open_of rs) ≡ length rs
    both [] = omega arith
    both (r ∷ rs) = elim (Bool-cases (is_fixed r)) [
      | inl e ↦ rw e (omega (arith, both rs))
      | inr e ↦ rw e (omega (arith, both rs))
    ]

module _ (uid : ℕ) (reqs avail : List Resource) where
  Grants-Accounted :
      {answers left spent : List Resource}
      → Grants uid (fixed_of reqs ++ open_of reqs) answers avail left spent
      → AreWithinLimit avail
      → AreFree true avail
      → Accounted uid reqs avail left
  Grants-Accounted {spent = spent} g w f =
      let (wl, ws) = Grants-IsWithinLimit g w in
      let (fl, fs) = Grants-is_free g f in
      let (same, _, names) =
        flat-Grants uid (λ r. identity r ∷ []) (λ _. [])
          (λ req a. ap (◌∷ []) (granted-identity uid req a)) g in
      let (chosen, count, added) =
        flat-Grants uid (λ r. map (use_of r) r.owners) (λ r. use_of r uid ∷ []) (granted-uses uid)
          g in
      record {
        spent = spent;
        kept_all = rw (flat_nothing same) at names;
        left_within = wl;
        spent_within = ws;
        left_free = fl;
        spent_full = fs;
        granted_to = map identity chosen;
        one_each = omega (arith, length-map identity chosen, count, length-fixed-open reqs);
        uses_after = rw (flat_single uid chosen) at added;
      }

  -- Where __resourceMatchDOF2 succeeds on resources that are free and within their limits, these are
  -- the resources that are left and those that are used up, none lost or added. None has more users
  -- than its sharing allows, those that are left are free, those used up are not, and the uses
  -- of all of them are those before and one of this user for each request.
  pub match_dof2-Accounted :
      {matched : List (Option Resource)} {left requests : List Resource}
      → match_dof2 uid reqs avail
        ≡ ok (record { outcome = some (matched, left); requests = requests })
      → AreWithinLimit avail
      → AreFree true avail
      → Accounted uid reqs avail left
  match_dof2-Accounted {left = left} e w f = elim (match_dof2_lem uid reqs avail) [
    | all_granted answers left' spent e' g ↦
        let same : left' ≡ left = ground arith in rw same at (Grants-Accounted g w f)
    | fixed_missing e' s ↦ absurd (ground arith)
    | open_missing mid spent touched e' g s ↦ absurd (ground arith)
  ]
