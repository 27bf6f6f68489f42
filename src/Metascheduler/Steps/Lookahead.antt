-- ===== src/Metascheduler/Steps/Lookahead.antt =====
-- python/metascheduler.py, allocate, step 2: the requests that name a node, and whether the node can
-- still answer them. They are the objects of the request, found by the number of their requirement
-- and their place in it; __resourceMatchDOF2 writes into them.
use vizstack.Prelude.{
  ℕ, suc, Bool, Option, none, some, List, [], ◌∷◌, ◌++◌, set, get_elem?, ◌==◌, nat_eq,
  if◌then◌else◌,
}
use vizstack.Prelude.Dict.{Dict, lookup, put}
use vizstack.Errors.{Result, ok, raise, and_then, attribute_error}
use vizstack.Resource.{Resource, get_allocation_dof, is_some}
use vizstack.Metascheduler.Base.{Requirement, group, node, host_of}
use vizstack.Metascheduler.Matching.{match_dof2}

abbrev pub Ref : Type 0
Ref = ℕ × ℕ

-- A reference always leads to an object; the errors are not met.
unfoldable pub read : List Requirement → Ref → Result Resource
read requirements (i, j) = elim (get_elem? requirements i) [
  | none ↦ raise attribute_error
  | some (node n) ↦ raise attribute_error
  | some (group l) ↦ elim (get_elem? l j) [ none ↦ raise attribute_error | some r ↦ ok r ]
]

unfoldable pub read_all : List Requirement → List Ref → Result (List Resource)
read_all requirements [] = ok []
read_all requirements (ref ∷ refs) =
    and_then (read requirements ref) λ r. and_then (read_all requirements refs) λ rs. ok (r ∷ rs)

unfoldable pub write : List Requirement → Ref → Resource → List Requirement
write requirements (i, j) r = elim (get_elem? requirements i) [
  | none ↦ requirements
  | some (node n) ↦ requirements
  | some (group l) ↦ set requirements i (group (set l j r))
]

unfoldable pub write_all : List Requirement → List Ref → List Resource → List Requirement
write_all requirements (ref ∷ refs) (r ∷ rs) = write_all (write requirements ref r) refs rs
write_all requirements [] _ = requirements
write_all requirements (ref ∷ refs) [] = requirements

abbrev pub refs_of : Option (List Ref) → List Ref
refs_of none = []
refs_of (some refs) = refs

-- dof2ReqsByNode, from the requests of one requirement on
unfoldable pub note_requests : Dict (List Ref) → ℕ → ℕ → List Resource → Result (Dict (List Ref))
note_requests by_node i j [] = ok by_node
note_requests by_node i j (r ∷ rest) =
    let skipped = note_requests by_node i (suc j) rest in
    if get_allocation_dof r.base == 2
    then and_then (host_of r) (λ name.
      note_requests (put name (refs_of (lookup name by_node) ++ (i, j) ∷ []) by_node) i (suc j)
        rest)
    else skipped

unfoldable pub dof2_reqs_by_node :
    Dict (List Ref) → List (ℕ × Requirement) → Result (Dict (List Ref))
dof2_reqs_by_node by_node [] = ok by_node
dof2_reqs_by_node by_node ((i, group l) ∷ rest) =
    and_then (note_requests by_node i 0 l) (λ next. dof2_reqs_by_node next rest)
dof2_reqs_by_node by_node ((i, node n) ∷ rest) = dof2_reqs_by_node by_node rest

-- Whether what is left of a node answers the requests that name it, and the objects afterwards.
unfoldable pub look_ahead :
    ℕ → List Requirement → List Ref → List Resource → Result (List Requirement × Bool)
unfolding read_all read write_all write
look_ahead uid requirements refs remaining = and_then (read_all requirements refs) λ reqs.
    and_then (match_dof2 uid reqs remaining)
      λ m. ok (write_all requirements refs m.requests, is_some m.outcome)
