-- ===== src/Metascheduler/Steps.antt =====
-- python/metascheduler.py, allocate: the steps 2 to 4, which match the requirements that leave
-- something open, those of one degree of freedom after those of another.
pub mod Lookahead
pub mod FirstNode
pub mod Whole
use vizstack.Prelude.{
  ℕ, String, Bool, true, false, not, Option, none, some, List, [], ◌∷◌, ◌++◌, map, length, set,
  get_elem?, replicate, if◌then◌else◌, ◌==◌, string_eq,
}
use vizstack.Prelude.Int.{ℤ, pos, ◌+ℤ◌, ◌-ℤ◌, beq_ℤ}
use vizstack.Prelude.Dict.{Dict, lookup, put}
use vizstack.Prelude.Sorting.{sort_by}
use vizstack.Errors.{
  Result, ok, raise, and_then, key_of, viz_error, user_error, internal_error, attribute_error,
}
use vizstack.Resource.{Resource, get_allocation_dof}
use vizstack.Resource.Search.{type_search_match}
use vizstack.Resource.Weight.{get_allocation_weight}
use vizstack.Metascheduler.Base.{Requirement, group, node, NodeRequest, ManagedNode, host_of}
use vizstack.Metascheduler.Matching.{
  Classified, classify_res, copy_with_this_node_name, put_at, match_dof0, match_dof2,
}
use vizstack.Metascheduler.Ordering.{Avail, sort_avail_resources}
use Lookahead.{look_ahead}

-- What the steps change: the requirements (the objects of the requests), what is available on each
-- node, and allocatedResources.
pub record Work : Type 0 where
  pub requirements : List Requirement
  pub avail : List Avail
  pub allocated : List (Option (List (Option Resource)))

-- The requirement of a step, which is a list but for whole nodes.
abbrev pub group_of : Option Requirement → Result (List Resource)
group_of none = raise attribute_error
group_of (some (group l)) = ok l
group_of (some (node n)) = raise attribute_error

-- allocatedResources[reqIndex] = resFinalSelected, with the answers in their places
abbrev pub settle : ℕ → Classified → List (Option Resource) → Work → Work
settle i c answers w = record w {
  allocated = set w.allocated i (some (put_at c.index_map answers c.selected));
}

-- What a search over the nodes finds: the answers, and what is available afterwards.
abbrev pub Found : Type 0
Found = Option (List (Option Resource) × List Avail)

abbrev pub behind : Avail → Found → Found
behind entry none = none
behind entry (some (answers, avail)) = some (answers, entry ∷ avail)

-- Step 2, the search over the nodes: a node has to answer the requests, and then still the requests
-- that name it. Trying that writes into the objects of these requests.
unfoldable pub try_dof1 :
    ℕ
    → Dict (List (ℕ × ℕ))
    → List Resource
    → List Avail
    → List Requirement
    → Result (List Requirement × Found)
try_dof1 uid by_node reqs [] requirements = ok (requirements, none)
try_dof1 uid by_node reqs ((name, free) ∷ rest) requirements =
    let skip = λ (now : List Requirement).
      and_then (try_dof1 uid by_node reqs rest now)
        (λ (later, found). ok (later, behind (name, free) found)) in
    and_then (match_dof0 uid (copy_with_this_node_name reqs name) free) λ m. elim m.outcome [
      | none ↦ skip requirements
      | some (these, remaining) ↦
          let found : Found = some (map some these, (name, remaining) ∷ rest) in
          elim (lookup name by_node) [
            | none ↦ ok (requirements, found)
            | some refs ↦
                and_then (look_ahead uid requirements refs remaining)
                  λ (now, satisfied). if satisfied then ok (now, found) else skip now
          ]
    ]

-- One round of step 2.
unfoldable pub step_dof1 : ℕ → Dict ManagedNode → Dict (List (ℕ × ℕ)) → Work → ℕ → Result Work
step_dof1 uid node_map by_node w i = and_then (sort_avail_resources node_map w.avail) λ avail.
    and_then (group_of (get_elem? w.requirements i)) λ l.
      let c = classify_res l in
      and_then (try_dof1 uid by_node c.to_allocate avail w.requirements) λ (requirements, found).
        elim found [
          | none ↦ raise (viz_error user_error)
          | some (answers, left) ↦
              ok (settle i c answers (record w { requirements = requirements; avail = left }))
        ]

-- availResourcesByNodeName, as a dictionary of the list
unfoldable pub by_name : Dict (List Resource) → List Avail → Dict (List Resource)
by_name d [] = d
by_name d ((name, free) ∷ rest) = by_name (put name free d) rest

abbrev pub weight_difference : Resource → Resource → ℤ
weight_difference x y = get_allocation_weight x -ℤ get_allocation_weight y

-- One round of step 3. The requests name their node, and the index is open.
unfoldable pub step_dof2 : ℕ → Work → ℕ → Result Work
step_dof2 uid w i = and_then (group_of (get_elem? w.requirements i)) λ l.
    let c = classify_res l in
    elim c.to_allocate [
      | [] ↦ raise (viz_error internal_error)
      | first ∷ others ↦ and_then (host_of first) λ name. elim (lookup name w.avail) [
        | none ↦ raise (viz_error user_error)
        | some free ↦
            and_then (match_dof2 uid (first ∷ others) (sort_by weight_difference free)) λ m.
              elim m.outcome [
                | none ↦ raise (viz_error internal_error)
                | some (answers, left) ↦
                    ok (settle i c answers (record w { avail = put name left w.avail }))
              ]
      ]
    ]

-- Nodes with nothing left drop out after step 3.
unfoldable pub drop_empty : List Avail → List Avail
drop_empty [] = []
drop_empty ((name, []) ∷ rest) = drop_empty rest
drop_empty ((name, r ∷ free) ∷ rest) = (name, r ∷ free) ∷ drop_empty rest

-- Step 4, the search over the nodes for a list of requests.
unfoldable pub try_dof3 : ℕ → List Resource → List Avail → Result Found
try_dof3 uid reqs [] = ok none
try_dof3 uid reqs ((name, free) ∷ rest) =
    let skip = and_then (try_dof3 uid reqs rest) (λ found. ok (behind (name, free) found)) in
    and_then (match_dof2 uid (copy_with_this_node_name reqs name) free) λ m. elim m.outcome [
      | none ↦ skip
      | some (these, remaining) ↦ ok (some (these, (name, remaining) ∷ rest))
    ]

abbrev pub total_weight : List Resource → ℤ
total_weight [] = pos 0
total_weight (r ∷ rs) = get_allocation_weight r +ℤ total_weight rs

-- unmatchedRes without the first resource that matches, if one does
unfoldable pub without_match : Resource → List Resource → Option (List Resource)
without_match wanted [] = none
without_match wanted (r ∷ rest) =
    let later : Option (List Resource) = elim (without_match wanted rest) [
      | none ↦ none
      | some l ↦ some (r ∷ l)
    ] in
    if type_search_match r wanted then some rest else later

-- Each resource that the whole node must have has a match of its own.
unfoldable pub has_matches : List Resource → List Resource → Bool
has_matches [] unmatched = true
has_matches (wanted ∷ more) unmatched = elim (without_match wanted unmatched) [
  | none ↦ false
  | some rest ↦ has_matches more rest
]

-- Step 4, the search for a whole node: all of it is free, and it has what is asked for.
unfoldable pub try_whole : Dict ℤ → NodeRequest → List Avail → Result Found
unfolding has_matches without_match
try_whole weight_when_free n [] = ok none
try_whole weight_when_free n ((name, free) ∷ rest) =
    let skip =
      and_then (try_whole weight_when_free n rest) (λ found. ok (behind (name, free) found)) in
    and_then (key_of (lookup name weight_when_free)) λ full.
      if not (beq_ℤ full (total_weight free))
      then skip
      else if has_matches n.resources free
      then ok (some (map some free, (name, []) ∷ rest))
      else skip

-- One round of step 4.
unfoldable pub step_dof3 : ℕ → Dict ManagedNode → Dict ℤ → Work → ℕ → Result Work
step_dof3 uid node_map weight_when_free w i =
    and_then (sort_avail_resources node_map w.avail) λ avail. elim (get_elem? w.requirements i) [
      | none ↦ raise attribute_error
      | some (group l) ↦
          let c = classify_res l in
          and_then (try_dof3 uid c.to_allocate avail) λ found. elim found [
            | none ↦ raise (viz_error user_error)
            | some (answers, left) ↦ ok (settle i c answers (record w { avail = left }))
          ]
      | some (node n) ↦ and_then (try_whole weight_when_free n avail) λ found. elim found [
        | none ↦ raise (viz_error user_error)
        | some (all, left) ↦
            ok (record w { avail = left; allocated = set w.allocated i (some all) })
      ]
    ]

-- for reqDesc in reqDescList
unfoldable pub each : (Work → ℕ → Result Work) → Work → List ℕ → Result Work
each step w [] = ok w
each step w (i ∷ rest) = and_then (step w i) (λ next. each step next rest)
