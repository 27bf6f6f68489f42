-- ===== src/Metascheduler/Supply.antt =====
-- python/metascheduler.py, allocate: the copies of the free resources, out of which the fixed
-- requests are taken before the others are matched.
use vizstack.Prelude.{
  ℕ, String, Option, none, some, List, [], ◌∷◌, contains, ◌==◌, nat_eq, string_eq, if◌then◌else◌,
}
use vizstack.Prelude.Dict.{Dict, lookup, put, remove, values}
use vizstack.Errors.{Result, ok, and_then, key_of}
use vizstack.Resource.{Resource, hash_key, is_free}
use vizstack.Resource.Sharing.{do_allocate}
use vizstack.Metascheduler.Base.{Requirement, group, node, host_of}
use vizstack.Metascheduler.Ordering.{Avail}
use vizstack.Metascheduler.Prepare.{is_left_out, is_fixed_request}

-- freeResources: by host, and there by key.
abbrev pub Supply : Type 0
Supply = Dict (Dict Resource)

abbrev pub on_host : Option (Dict Resource) → Dict Resource
on_host none = []
on_host (some d) = d

-- One round of the loop over infoTable.
unfoldable pub supply_one : List String → List String → Supply → String × Resource → Result Supply
supply_one unusable include supply (key, res) = and_then (host_of res) λ host.
    if contains unusable host
    then ok supply
    else if is_left_out include host
    then ok supply
    else let there = on_host (lookup host supply) in
      ok (put host (if is_free res.base then put key res there else there) supply)

unfoldable pub supply_from : List String → List String → Supply → Dict Resource → Result Supply
supply_from unusable include supply [] = ok supply
supply_from unusable include supply (entry ∷ rest) =
    and_then (supply_one unusable include supply entry)
      (λ next. supply_from unusable include next rest)

-- Taking one fixed request out of the supply.
unfoldable pub take_fixed_one : ℕ → Supply → Resource → Result Supply
take_fixed_one uid supply res = and_then (hash_key res) λ key. and_then (host_of res) λ host.
    and_then (key_of (lookup host supply)) λ there. and_then (key_of (lookup key there)) λ free.
      let (outcome, taken) = do_allocate res uid free in
      and_then outcome λ _.
        ok (put host (if is_free taken.base then put key taken there else remove key there) supply)

unfoldable pub take_fixed : ℕ → Supply → List Resource → Result Supply
take_fixed uid supply [] = ok supply
take_fixed uid supply (res ∷ rest) =
    let skipped = take_fixed uid supply rest in
    if is_fixed_request res
    then and_then (take_fixed_one uid supply res) (λ next. take_fixed uid next rest)
    else skipped

-- The requirements of one degree of freedom, with their places in the list.
unfoldable pub of_dof : ℕ → ℕ → List Requirement → List ℕ → List (ℕ × Requirement)
of_dof dof i (r ∷ rest) (d ∷ dofs) =
    let others = of_dof dof (ℕ.suc i) rest dofs in if d == dof then (i, r) ∷ others else others
of_dof dof i [] dofs = []
of_dof dof i (r ∷ rest) [] = []

-- A whole node is never fixed.
unfoldable pub take_requirements : ℕ → Supply → List (ℕ × Requirement) → Result Supply
take_requirements uid supply [] = ok supply
take_requirements uid supply ((i, group l) ∷ rest) =
    and_then (take_fixed uid supply l) (λ next. take_requirements uid next rest)
take_requirements uid supply ((i, node n) ∷ rest) = take_requirements uid supply rest

-- for dof in resReqByDOF: the fixed requests of all requirements, in the order 0, 1, 2, 3
unfoldable pub take_all_fixed : ℕ → List Requirement → List ℕ → Supply → Result Supply
take_all_fixed uid requirements dofs supply =
    and_then (take_requirements uid supply (of_dof 0 0 requirements dofs)) λ supply0.
      and_then (take_requirements uid supply0 (of_dof 1 0 requirements dofs)) λ supply1.
        and_then (take_requirements uid supply1 (of_dof 2 0 requirements dofs))
          λ supply2. take_requirements uid supply2 (of_dof 3 0 requirements dofs)

-- availResources
unfoldable pub available : Supply → List Avail
available [] = []
available ((host, there) ∷ rest) = (host, values there) ∷ available rest
