-- ===== src/Metascheduler/Prepare.antt =====
-- python/metascheduler.py, allocate: the first part, which checks a request and plans the allocation
-- before anything is matched.
pub mod Expand
pub mod Fixed
use vizstack.Prelude.{
  ℕ, ◌+◌, String, Bool, not, ◌&&◌, Option, none, some, List, [], ◌∷◌, ◌++◌, map, length, filter,
  any, range, contains, ltb, ◌==◌, ◌!=◌, nat_eq, string_eq, bool_eq, option_eq, if◌then◌else◌,
}
use vizstack.Prelude.Dict.{Dict, lookup, put, keys, values}
use vizstack.Errors.{
  Result, ok, raise, and_then, value_error, viz_error, bad_resource, resource_unavailable,
  resource_busy, user_error,
}
use vizstack.Resource.{
  Resource, hash_key, get_allocation_dof, is_completely_resolvable, is_free, is_sharable,
  set_host_name,
}
use vizstack.Resource.Search.{type_search_match}
use vizstack.Metascheduler.Base.{
  Request, one, several, whole, aggregate, Requirement, group, node, Place, at, span, Scheduler,
  Metascheduler, host_of,
}

unfoldable pub seen : Dict (Unit {0}) → List String → Dict (Unit {0})
seen already_seen [] = already_seen
seen already_seen (s ∷ rest) = seen (put s tt already_seen) rest

-- uniqList: the keys of a dictionary of the entries.
unfoldable pub uniq_list : List String → List String
unfolding seen
uniq_list names = keys (seen [] names)

-- indexOfExpandedInFinal and expandedResourceList
pub record Expanded : Type 0 where
  pub places : List Place
  pub requirements : List Requirement

abbrev pub append_one : Expanded → Requirement → Expanded
append_one e r = record {
  places = e.places ++ at (length e.requirements) ∷ [];
  requirements = e.requirements ++ r ∷ [];
}

-- One round of the loop that expands the request.
unfoldable pub expand_one : Expanded → Request → Expanded
expand_one e (one res) = append_one e (group (res ∷ []))
expand_one e (several l) = append_one e (group l)
expand_one e (whole n) = append_one e (node n)
expand_one e (aggregate lists) = record {
  places = e.places ++ span (range (length e.requirements) (length lists)) ∷ [];
  requirements = e.requirements ++ map group lists;
}

unfoldable pub expand_from : Expanded → List Request → Expanded
unfolding expand_one
expand_from e [] = e
expand_from e (r ∷ rest) = expand_from (expand_one e r) rest

unfoldable pub expand : List Request → Expanded
unfolding expand_from
expand = expand_from (record { places = []; requirements = [] })

-- An entry of fixedResources.
pub record FixedEntry : Type 0 where
  pub count : ℕ
  pub ref : Resource
  pub share_count : ℕ

-- filter(lambda x: x != None, map(getHostName, l))
abbrev pub host_names : List Resource → List String
host_names [] = []
host_names (r ∷ rest) = elim r.host_name [
  | none ↦ host_names rest
  | some name ↦ name ∷ host_names rest
]

abbrev pub is_fixed_request : Resource → Bool
is_fixed_request r = get_allocation_dof r.base == 0

-- The hosts of a list of requests: with several of them all requests must be fixed, and a single one
-- is pasted to all.
unfoldable pub paste_host : List Resource → Result (List Resource)
unfolding uniq_list
paste_host l =
    let hosts = uniq_list (host_names l) in
    if ltb 1 (length hosts) && (length (filter is_fixed_request l) != length l)
    then raise value_error
    else elim hosts [
      | [] ↦ ok l
      | host ∷ more ↦ elim more [ [] ↦ ok (map (set_host_name (some host)) l) | _ ∷ _ ↦ ok l ]
    ]

abbrev pub max_dof : List Resource → ℕ
max_dof [] = 0
max_dof (r ∷ rest) =
    let others = max_dof rest in
    let nd = get_allocation_dof r.base in if ltb others nd then nd else others

-- fixedResources[hk], counted once more
abbrev pub count_use : Resource → Option FixedEntry → FixedEntry
count_use res none = record { count = 1; ref = res; share_count = if res.shared then 1 else 0 }
count_use res (some e) = record e {
  count = e.count + 1;
  share_count = if res.shared then e.share_count + 1 else e.share_count;
}

unfoldable pub note_fixed : Dict FixedEntry → List Resource → Result (Dict FixedEntry)
note_fixed fixed [] = ok fixed
note_fixed fixed (res ∷ rest) =
    let skipped = note_fixed fixed rest in
    if is_completely_resolvable res.base
    then and_then (hash_key res)
        (λ hk. note_fixed (put hk (count_use res (lookup hk fixed)) fixed) rest)
    else skipped

-- What the loop over expandedResourceList knows: the requirements with their hosts, the degree of
-- freedom of each (resReqByDOF), and the fixed resources.
pub record Plan : Type 0 where
  pub requirements : List Requirement
  pub dofs : List ℕ
  pub fixed : Dict FixedEntry

-- One round of the loop. The degree of freedom of a whole node is 3.
unfoldable pub plan_one : Plan → Requirement → Result Plan
unfolding paste_host note_fixed
plan_one plan (group l) = and_then (paste_host l) λ pasted.
    and_then (note_fixed plan.fixed pasted) λ fixed. ok (record {
      requirements = plan.requirements ++ group pasted ∷ [];
      dofs = plan.dofs ++ max_dof pasted ∷ [];
      fixed = fixed;
    })
plan_one plan (node n) =
    ok (record plan { requirements = plan.requirements ++ node n ∷ []; dofs = plan.dofs ++ 3 ∷ [] })

unfoldable pub plan_from : Plan → List Requirement → Result Plan
plan_from plan [] = ok plan
plan_from plan (r ∷ rest) = and_then (plan_one plan r) (λ next. plan_from next rest)

-- A resource that is asked for more than once has to be asked for as shared each time.
abbrev pub is_misused : FixedEntry → Bool
is_misused e = ltb 1 e.count && (e.count != e.share_count)

unfoldable pub check_uses : Dict FixedEntry → Result (Unit {0})
check_uses fixed = if any is_misused (values fixed) then raise value_error else ok tt

abbrev pub unusable_nodes : List Scheduler → List String
unusable_nodes [] = []
unusable_nodes (sched ∷ rest) = sched.unusable_nodes ++ unusable_nodes rest

-- len(includeNodeList) > 0 and host not in includeNodeList
abbrev pub is_left_out : List String → String → Bool
is_left_out include host = ltb 0 (length include) && not (contains include host)

-- The checks of one requested resource that is completely resolvable, in their order.
unfoldable pub check_fixed_one :
    Dict Resource → List String → List String → String × FixedEntry → Result (Unit {0})
check_fixed_one info_table unusable include (key, entry) = elim (lookup key info_table) [
  | none ↦ raise (viz_error bad_resource)
  | some res ↦ and_then (host_of res) λ host.
      if contains unusable host
      then raise (viz_error resource_unavailable)
      else if not (is_free res.base)
      then raise (viz_error resource_busy)
      else if not (type_search_match res entry.ref)
      then raise (viz_error user_error)
      else if is_left_out include host
      then raise (viz_error resource_unavailable)
      else if not entry.ref.shared && res.shared
      then raise (viz_error resource_busy)
      else if entry.ref.shared && not (is_sharable res.base)
      then raise (viz_error resource_busy)
      else ok tt
]

unfoldable pub check_fixed :
    Dict Resource → List String → List String → Dict FixedEntry → Result (Unit {0})
check_fixed info_table unusable include [] = ok tt
check_fixed info_table unusable include (entry ∷ rest) =
    and_then (check_fixed_one info_table unusable include entry)
      (λ _. check_fixed info_table unusable include rest)

-- The first part of allocate as a whole.
unfoldable pub prepare : Metascheduler → List String → List Request → Result (List Place × Plan)
prepare self include [] = raise value_error
prepare self include (r ∷ rest) =
    let e = expand (r ∷ rest) in
    and_then (plan_from (record { requirements = []; dofs = []; fixed = [] }) e.requirements)
      λ plan. and_then (check_uses plan.fixed) λ _.
        and_then (check_fixed self.info_table (unusable_nodes self.sched_list) include plan.fixed)
          (λ _. ok (e.places, plan))
