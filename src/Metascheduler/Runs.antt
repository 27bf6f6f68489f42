-- ===== src/Metascheduler/Runs.antt =====
-- Whole calls of the metascheduler on small clusters.
use vizstack.Prelude.{ℕ, String, false, ◌≡◌, refl, Option, none, some, List, [], ◌∷◌, map}
use vizstack.Prelude.Int.{pos, ◌+ℤ◌, ◌-ℤ◌}
use vizstack.Prelude.Decimal.{decimal}
use vizstack.Prelude.Dict.{lookup, put, remove, values, keys}
use vizstack.Prelude.Sorting.{sort_by}
use vizstack.Errors.{Result, ok, raise, Exception, viz_error, internal_error, value_error}
use vizstack.Resource.{Resource, gpu, hash_key, is_completely_resolvable}
use vizstack.Resource.Weight.{get_allocation_weight}
use vizstack.Resource.Samples.{base_at, plain_gpu, any_gpu}
use vizstack.Metascheduler.Base.{
  Request, one, several, whole, ManagedNode, Scheduler, UserInfo, Metascheduler, Allocation,
}
use vizstack.Metascheduler.Ordering.{
  weigh, decorate, rank, rank_all, compare_nodes, sort_avail_resources, sort_req_list,
  ordinal_length,
}
use vizstack.Metascheduler.Prepare.{
  expand, paste_host, note_fixed, plan_one, plan_from, check_uses, check_fixed_one, check_fixed,
  prepare,
}
use vizstack.Metascheduler.Supply.{
  supply_one, supply_from, take_fixed_one, take_fixed, of_dof, take_requirements, take_all_fixed,
  available,
}
use vizstack.Metascheduler.Steps.{
  try_dof1, step_dof1, by_name, step_dof2, drop_empty, try_dof3, try_whole, step_dof3, each,
}
use vizstack.Metascheduler.Steps.Lookahead.{note_requests, dof2_reqs_by_node, look_ahead}
use vizstack.Metascheduler.Matching.{copy_with_this_node_name}
use vizstack.Metascheduler.Commit.{
  mark, mark_list, mark_one, reserve, on_managed, commit_one, commit_list, commit_span,
  add_resource, add_resources, commit_request, commit,
}
use vizstack.Metascheduler.Allocate.{
  register, new_metascheduler, order_of, choose, decide_all, allocate, release_one, release_all,
  clear_allocation, deallocate_allocation,
}
use vizstack.Metascheduler.Samples.{matching}

-- A GPU that cannot be shared, and the first X server of a node.
abbrev pub gpu_on : String → ℕ → Resource
gpu_on host index = record { base = base_at (some index) (some host); class = gpu plain_gpu }

abbrev pub node_named : String → ℕ → ManagedNode
node_named name index = record {
  name = name;
  index = index;
  allocation_bias = pos 0;
  resources = gpu_on name 0 ∷ gpu_on name 1 ∷ [];
}

abbrev pub local : Scheduler
local = record {
  node_names = "n1" ∷ "n2" ∷ [];
  unusable_nodes = [];
  allocate = λ uid gid nodes. ok (record { scheduler = 0; reservation = uid });
}

abbrev pub user : UserInfo
user = record { uid = 7; gid = 100 }

abbrev cluster : Result Metascheduler
cluster = new_metascheduler (node_named "n1" 0 ∷ node_named "n2" 1 ∷ []) (local ∷ [])

unfoldable pub program : Unit {0}
unfolding matching expand paste_host note_fixed plan_one plan_from check_uses check_fixed_one
    check_fixed prepare weigh decorate rank rank_all compare_nodes sort_avail_resources
    sort_req_list ordinal_length supply_one supply_from take_fixed_one take_fixed of_dof
    take_requirements take_all_fixed available try_dof1 step_dof1 by_name step_dof2 drop_empty
    try_dof3 try_whole step_dof3 each note_requests dof2_reqs_by_node look_ahead
    copy_with_this_node_name mark mark_list mark_one reserve on_managed commit_one commit_list
    commit_span add_resource add_resources commit_request commit register new_metascheduler order_of
    choose decide_all allocate release_one release_all clear_allocation deallocate_allocation
    hash_key decimal is_completely_resolvable get_allocation_weight lookup put remove values keys
    sort_by ◌+ℤ◌ ◌-ℤ◌
program = tt

-- How a call on the cluster ends: the exception, or the owners of the managed resources.
data Outcome : Type 0 where
  owners : List (List ℕ) → Outcome
  raised : Exception → Outcome

outcome : Result Allocation × Metascheduler → Outcome
unfolding values
outcome (ok _, self) = owners (map (λ r. r.owners) (values self.info_table))
outcome (raise e, self) = raised e

request : List Request → Outcome
unfolding outcome
request l = elim cluster [ ok self ↦ outcome (allocate l user [] self) | raise e ↦ raised e ]

abbrev pub gpu_at : Option ℕ → Option String → Resource
gpu_at index host = record { base = base_at index host; class = gpu plain_gpu }

-- Any GPU is the one with the lowest weight on the first node.
request_any : request (one (any_gpu false) ∷ []) ≡ owners ((7 ∷ []) ∷ [] ∷ [] ∷ [] ∷ [])
unfolding program request
request_any = refl

-- Two GPUs of one node, and the second GPU of any node.
request_two :
    request (several (any_gpu false ∷ any_gpu false ∷ []) ∷ one (gpu_at (some 1) none) ∷ [])
    ≡ owners ([] ∷ (7 ∷ []) ∷ (7 ∷ []) ∷ (7 ∷ []) ∷ [])
unfolding program request
request_two = refl

-- A request by index and one by host that the same node could answer: trying the first node writes
-- an index into the second request, which step 3 then takes for an error.
request_lookahead :
    request (one (gpu_at (some 1) none) ∷ one (gpu_at none (some "n1")) ∷ [])
    ≡ raised (viz_error internal_error)
unfolding program request
request_lookahead = refl

-- Each of the two alone is answered.
request_by_host :
    request (one (gpu_at none (some "n1")) ∷ []) ≡ owners ((7 ∷ []) ∷ [] ∷ [] ∷ [] ∷ [])
unfolding program request
request_by_host = refl

-- The owners after a call that raised.
owners_after : List Request → List (List ℕ)
unfolding values
owners_after l = elim cluster [
  | ok self ↦ map (λ r. r.owners) (values (allocate l user [] self).1.info_table)
  | raise e ↦ []
]

abbrev whole_node : Option String → Request
whole_node host = whole (record { base = base_at none host; resources = [] })

-- A whole node by its name: the name is not looked at, the first node is taken, and the call raises
-- when its resources are used already.
request_whole_named : request (whole_node (some "n2") ∷ []) ≡ raised value_error
unfolding program request
request_whole_named = refl

owners_whole_named : owners_after (whole_node (some "n2") ∷ []) ≡ (7 ∷ []) ∷ (7 ∷ []) ∷ [] ∷ [] ∷ []
unfolding program owners_after
owners_whole_named = refl
