-- ===== src/Metascheduler/Allocate.antt =====
-- python/metascheduler.py: Metascheduler.__init__, allocate and deallocate as wholes, and class
-- Allocation.
use vizstack.Prelude.{
  ℕ, String, Option, none, some, List, [], ◌∷◌, ◌++◌, map, get_elem?, set, if◌then◌else◌, ◌==◌,
  nat_eq, string_eq,
}
use vizstack.Prelude.Int.{ℤ, pos, ◌+ℤ◌}
use vizstack.Prelude.Dict.{Dict, lookup, put, keys}
use vizstack.Errors.{
  Result, ok, raise, and_then, key_of, type_error, attribute_error, Statement, ◌>>=◌, ◌>>◌, pure,
}
use vizstack.Resource.{Resource, Launcher, hash_key}
use vizstack.Resource.Weight.{get_allocation_weight}
use vizstack.Resource.Sharing.{deallocate}
use vizstack.Metascheduler.Base.{
  Request, one, several, whole, aggregate, Requirement, group, node, Place, ManagedNode, Scheduler,
  UserInfo, Allocation, Metascheduler, host_of,
}
use vizstack.Metascheduler.Ordering.{ReqDesc, sort_req_list}
use vizstack.Metascheduler.Prepare.{Plan, prepare, unusable_nodes}
use vizstack.Metascheduler.Supply.{supply_from, take_all_fixed, of_dof, available}
use vizstack.Metascheduler.Steps.{Work, step_dof1, step_dof2, step_dof3, by_name, drop_empty, each}
use vizstack.Metascheduler.Steps.Lookahead.{dof2_reqs_by_node}
use vizstack.Metascheduler.Commit.{Allotted, lift, mark, reserve, commit, on_managed}

-- The loop of __init__ over the resources of all nodes.
unfoldable pub register : Dict Resource × Dict ℤ → List Resource → Result (Dict Resource × Dict ℤ)
register (info_table, weights) [] = ok (info_table, weights)
register (info_table, weights) (res ∷ rest) = and_then (hash_key res) λ key.
    and_then (host_of res) λ host. and_then (key_of (lookup host weights)) λ wt.
      register (put key res info_table, put host (wt +ℤ get_allocation_weight res) weights) rest

abbrev pub all_resources : List ManagedNode → List Resource
all_resources [] = []
all_resources (n ∷ rest) = n.resources ++ all_resources rest

abbrev pub zero_weights : Dict ℤ → List ManagedNode → Dict ℤ
zero_weights d [] = d
zero_weights d (n ∷ rest) = zero_weights (put n.name (pos 0) d) rest

abbrev pub map_nodes : Dict ManagedNode → List ManagedNode → Dict ManagedNode
map_nodes d [] = d
map_nodes d (n ∷ rest) = map_nodes (put n.name n d) rest

-- Metascheduler.__init__
unfoldable pub new_metascheduler : List ManagedNode → List Scheduler → Result Metascheduler
unfolding register
new_metascheduler nodes sched_list =
    and_then (register ([], zero_weights [] nodes) (all_resources nodes)) λ (info_table, weights).
      ok (record {
        info_table = info_table;
        sched_list = sched_list;
        node_map = map_nodes [] nodes;
        node_weight_when_free = weights;
        allocations = [];
      })

-- The requirements of a degree of freedom by their numbers, in the order of __sortReqList
unfoldable pub order_of : ℕ → Plan → List ℕ
order_of dof plan =
    map (λ (desc : ReqDesc). desc.0) (sort_req_list (of_dof dof 0 plan.requirements plan.dofs))

-- A fixed requirement is its own answer.
abbrev pub own_answer : Requirement → ℕ → Option (List (Option Resource))
own_answer (group l) dof = if dof == 0 then some (map some l) else none
own_answer (node n) dof = none

abbrev pub own_answers : List Requirement → List ℕ → Allotted
own_answers (r ∷ rest) (dof ∷ dofs) = own_answer r dof ∷ own_answers rest dofs
own_answers [] _ = []
own_answers (r ∷ rest) [] = []

-- Everything between the checks of the request and the checks of the answer.
unfoldable pub choose : Metascheduler → ℕ → List String → Plan → Result Allotted
unfolding order_of
choose self uid include plan =
    and_then (supply_from (unusable_nodes self.sched_list) include [] self.info_table) λ supply.
      and_then (take_all_fixed uid plan.requirements plan.dofs supply) λ left.
        and_then (dof2_reqs_by_node [] (of_dof 2 0 plan.requirements plan.dofs)) λ by_node.
          let start : Work = record {
            requirements = plan.requirements;
            avail = available left;
            allocated = own_answers plan.requirements plan.dofs;
          } in
          and_then (each (step_dof1 uid self.node_map by_node) start (order_of 1 plan)) λ w1.
            and_then
              (each (step_dof2 uid) (record w1 { avail = by_name [] w1.avail }) (order_of 2 plan))
              λ w2.
                and_then
                  (each (step_dof3 uid self.node_map self.node_weight_when_free)
                    (record w2 { avail = drop_empty w2.avail }) (order_of 3 plan))
                  (λ w3. ok w3.allocated)

-- A statement on infoTable alone.
abbrev pub on_table : {A : Type 0} → Statement (Dict Resource) A → Statement Metascheduler A
on_table m self =
    let (outcome, info_table) = m self.info_table in
    (outcome, record self { info_table = info_table })

abbrev pub add_allocation : Allocation → Statement Metascheduler Allocation
add_allocation a self = (ok a, record self { allocations = self.allocations ++ a ∷ [] })

-- What is decided before anything is changed: the places of the answers, the answers, and the
-- reservations of the nodes.
unfoldable pub decide_all :
    Metascheduler
    → List Request
    → UserInfo
    → List String
    → Result (List Place × Allotted × (Dict Launcher × List Launcher))
decide_all self requested user include = and_then (prepare self include requested) λ (places, plan).
    and_then (choose self user.uid include plan) λ allotted.
      and_then (mark self.info_table [] allotted) λ nodes.
        and_then (reserve user (keys nodes) ([], []) self.sched_list)
          (λ reserved. ok (places, allotted, reserved))

-- Metascheduler.allocate
unfoldable pub allocate : List Request → UserInfo → List String → Statement Metascheduler Allocation
allocate requested user include = do
  self ← λ s. (ok s, s)
  (places, allotted, reserved) ← lift (decide_all self requested user include)
  final ← on_table (commit user.uid reserved.0 allotted requested places)
  add_allocation
      (record { launchers = some (reserved.1); resources = some final; user = some (user.uid) })

-- The resources of an allocation, one by one.
abbrev pub concat : List (List Resource) → List Resource
concat [] = []
concat (l ∷ rest) = l ++ concat rest

abbrev pub request_resources : Request → List Resource
request_resources (one r) = r ∷ []
request_resources (several l) = l
request_resources (whole n) = n.resources
request_resources (aggregate lists) = concat lists

abbrev pub all_requested : List Request → List Resource
all_requested [] = []
all_requested (r ∷ rest) = request_resources r ++ all_requested rest

-- infoTable[res.hashKey()].deallocate(res, user)
unfoldable pub release_one : ℕ → Resource → Statement (Dict Resource) (Unit {0})
release_one uid res = do key ← lift (hash_key res); on_managed key (deallocate uid)

unfoldable pub release_all : ℕ → List Resource → Statement (Dict Resource) (Unit {0})
release_all uid [] = pure tt
release_all uid (res ∷ rest) = do release_one uid res; release_all uid rest

-- Allocation.deallocate clears the object; its launchers are given back by their own classes.
unfoldable pub clear_allocation : Allocation → Allocation
clear_allocation a = elim a.resources [
  | none ↦ a
  | some l ↦ record { launchers = none; resources = none; user = none }
]

abbrev pub set_allocation : ℕ → Allocation → Statement Metascheduler (Unit {0})
set_allocation i a self = (ok tt, record self { allocations = set self.allocations i a })

-- What deallocate needs of an allocation. One that was deallocated before has neither resources
-- nor a user: iterating over None raises.
abbrev pub content_of : Allocation → Result (List Resource × ℕ)
content_of a = elim a.resources [
  | none ↦ raise type_error
  | some l ↦ elim a.user [ none ↦ raise type_error | some uid ↦ ok (all_requested l, uid) ]
]

abbrev pub allocation_at : Metascheduler → ℕ → Result Allocation
allocation_at self i = elim (get_elem? self.allocations i) [
  | none ↦ raise attribute_error
  | some a ↦ ok a
]

-- Metascheduler.deallocate of the allocation with number i in the list. For one that is not there
-- the source means to raise KeyError, but calls getID, which class Allocation lacks.
unfoldable pub deallocate_allocation : ℕ → Statement Metascheduler (Unit {0})
deallocate_allocation i = do
  self ← λ s. (ok s, s)
  a ← lift (allocation_at self i)
  (resources, uid) ← lift (content_of a)
  on_table (release_all uid resources)
  set_allocation i (clear_allocation a)
