-- ===== src/Metascheduler/Commit.antt =====
-- python/metascheduler.py, allocate: the last part, which checks the plan against the managed
-- resources, reserves the nodes and marks the resources as used.
use vizstack.Prelude.{
  ℕ, String, Bool, true, false, not, Option, none, some, List, [], ◌∷◌, ◌++◌, length, get_elem?,
  filter, contains, ltb, ◌==◌, string_eq, if◌then◌else◌,
}
use vizstack.Prelude.Dict.{Dict, lookup, put}
use vizstack.Errors.{
  Result, ok, raise, and_then, key_of, viz_error, value_error, attribute_error, bad_resource,
  resource_busy, key_error, Statement, ◌>>=◌, ◌>>◌, throw, pure,
}
use vizstack.Resource.{
  Resource, Class, gpu, hash_key, is_completely_resolvable, is_free, Launcher, set_host_name,
}
use vizstack.Resource.Sharing.{do_allocate}
use vizstack.Metascheduler.Base.{
  Request, one, several, whole, aggregate, Place, at, span, Scheduler, UserInfo, NodeRequest,
  host_of,
}

-- allocatedResources once all steps are done: each requirement has its resources.
abbrev pub Allotted : Type 0
Allotted = List (Option (List (Option Resource)))

-- isSchedulable: of the five classes only GPU overrides the base class.
abbrev pub is_schedulable : Class → Bool
is_schedulable (gpu g) = true
is_schedulable _ = false

-- The checks of one resource, and the nodes that have to be reserved.
unfoldable pub mark_one :
    Dict Resource → Dict (Unit {0}) → Option Resource → Result (Dict (Unit {0}))
mark_one info_table nodes none = raise attribute_error
mark_one info_table nodes (some res) =
    if not (is_completely_resolvable res.base)
    then raise value_error
    else and_then (hash_key res) λ key. elim (lookup key info_table) [
      | none ↦ raise (viz_error bad_resource)
      | some managed ↦
          if not (is_free managed.base)
          then raise (viz_error resource_busy)
          else if is_schedulable res.class
          then and_then (host_of res) (λ host. ok (put host tt nodes))
          else ok nodes
    ]

unfoldable pub mark_list :
    Dict Resource → Dict (Unit {0}) → List (Option Resource) → Result (Dict (Unit {0}))
unfolding mark_one
mark_list info_table nodes [] = ok nodes
mark_list info_table nodes (res ∷ rest) =
    and_then (mark_one info_table nodes res) (λ next. mark_list info_table next rest)

-- A requirement without an answer is None, which has no method.
unfoldable pub mark : Dict Resource → Dict (Unit {0}) → Allotted → Result (Dict (Unit {0}))
unfolding mark_list
mark info_table nodes [] = ok nodes
mark info_table nodes (none ∷ rest) = raise attribute_error
mark info_table nodes (some l ∷ rest) =
    and_then (mark_list info_table nodes l) (λ next. mark info_table next rest)

abbrev pub assign : Launcher → List String → Dict Launcher → Dict Launcher
assign launcher [] d = d
assign launcher (name ∷ rest) d = assign launcher rest (put name launcher d)

-- node2launcher and launcherList: each scheduler reserves those nodes that it manages.
unfoldable pub reserve :
    UserInfo
    → List String
    → Dict Launcher × List Launcher
    → List Scheduler
    → Result (Dict Launcher × List Launcher)
reserve user nodes so_far [] = ok so_far
reserve user nodes (node2launcher, launchers) (sched ∷ rest) =
    let managed = filter (λ name. contains sched.node_names name) nodes in
    let skipped = reserve user nodes (node2launcher, launchers) rest in
    if ltb 0 (length managed)
    then and_then (sched.allocate user.uid user.gid managed) (λ launcher.
      reserve user nodes (assign launcher managed node2launcher, launchers ++ launcher ∷ []) rest)
    else skipped

-- newRes.setSchedulable(...), on a GPU only
abbrev pub with_schedulable : Dict Launcher → Resource → Result Resource
with_schedulable node2launcher res = elim res.class [
  | gpu g ↦ and_then (host_of res) λ host. and_then (key_of (lookup host node2launcher)) λ launcher.
      ok (record res {
        class = gpu (record g {
          schedulable = some (record { launcher = launcher; locality = some host });
        });
      })
  | _ ↦ ok res
]

abbrev pub lift {ℓ} : {State Value : Type ℓ} → Result Value → Statement State Value
lift r s = (r, s)

-- infoTable[key].method(...): the object is changed in place.
unfoldable pub on_managed :
    {Value : Type 0} → String → Statement Resource Value → Statement (Dict Resource) Value
on_managed key method info_table = elim (lookup key info_table) [
  | none ↦ (raise key_error, info_table)
  | some managed ↦ let (outcome, after) = method managed in (outcome, put key after info_table)
]

-- doAllocate, and a copy of the object as it is then.
abbrev pub allocate_copy : ℕ → Resource → Statement Resource Resource
allocate_copy uid res = do do_allocate res uid; λ taken. (ok taken, taken)

-- One resource of the answer: the managed one is marked as used and copied.
unfoldable pub commit_one : ℕ → Dict Launcher → Option Resource → Statement (Dict Resource) Resource
commit_one uid node2launcher none = throw attribute_error
commit_one uid node2launcher (some res) = do
  key ← lift (hash_key res)
  taken ← on_managed key (allocate_copy uid res)
  lift (with_schedulable node2launcher taken)

unfoldable pub commit_list :
    ℕ → Dict Launcher → List (Option Resource) → Statement (Dict Resource) (List Resource)
commit_list uid node2launcher [] = pure []
commit_list uid node2launcher (res ∷ rest) = do
  new ← commit_one uid node2launcher res
  others ← commit_list uid node2launcher rest
  pure (new ∷ others)

-- allocatedResources[i]
abbrev pub allotted_at : Allotted → ℕ → Result (List (Option Resource))
allotted_at allotted i = elim (get_elem? allotted i) [
  | none ↦ raise attribute_error
  | some l ↦ elim l [ none ↦ raise attribute_error | some rs ↦ ok rs ]
]

unfoldable pub commit_span :
    ℕ → Dict Launcher → Allotted → List ℕ → Statement (Dict Resource) (List (List Resource))
commit_span uid node2launcher allotted [] = pure []
commit_span uid node2launcher allotted (i ∷ rest) = do
  l ← lift (allotted_at allotted i)
  new ← commit_list uid node2launcher l
  others ← commit_span uid node2launcher allotted rest
  pure (new ∷ others)

-- VizNode.addResource
unfoldable pub add_resource : NodeRequest → Resource → Result NodeRequest
add_resource n res = elim n.host_name [
  | none ↦ ok (record n {
    base = record (n.base) { host_name = res.host_name };
    resources = n.resources ++ res ∷ [];
  })
  | some own ↦ elim res.host_name [
    | none ↦ ok (record n { resources = n.resources ++ set_host_name (some own) res ∷ [] })
    | some other ↦
        if other == own
        then ok (record n { resources = n.resources ++ res ∷ [] })
        else raise value_error
  ]
]

-- VizNode.setResources, from the resources that are there
unfoldable pub add_resources : NodeRequest → List Resource → Result NodeRequest
add_resources n [] = ok n
add_resources n (res ∷ rest) = and_then (add_resource n res) (λ next. add_resources next rest)

-- finalResources: the answers in the shape of the request.
unfoldable pub commit_request :
    ℕ → Dict Launcher → Allotted → Request → Place → Statement (Dict Resource) Request
commit_request uid node2launcher allotted (one _) (at i) = do
  l ← lift (allotted_at allotted i)
  new ← commit_list uid node2launcher l
  lift (elim new [ [] ↦ raise attribute_error | first ∷ others ↦ ok (one first) ])
commit_request uid node2launcher allotted (several _) (at i) = do
  l ← lift (allotted_at allotted i)
  new ← commit_list uid node2launcher l
  pure (several new)
commit_request uid node2launcher allotted (whole n) (at i) = do
  l ← lift (allotted_at allotted i)
  new ← commit_list uid node2launcher l
  n' ← lift (add_resources (record n { resources = [] }) new)
  pure (whole n')
commit_request uid node2launcher allotted (aggregate _) (span is) = do
  lists ← commit_span uid node2launcher allotted is
  pure (aggregate lists)
commit_request uid node2launcher allotted _ _ = throw attribute_error

unfoldable pub commit :
    ℕ
    → Dict Launcher
    → Allotted
    → List Request
    → List Place
    → Statement (Dict Resource) (List Request)
commit uid node2launcher allotted (r ∷ rest) (place ∷ places) = do
  new ← commit_request uid node2launcher allotted r place
  others ← commit uid node2launcher allotted rest places
  pure (new ∷ others)
commit uid node2launcher allotted [] _ = pure []
commit uid node2launcher allotted (r ∷ rest) [] = throw attribute_error
