-- ===== src/Metascheduler/Examples.antt =====
-- The theorems on the parts of allocate at small inputs.
use vizstack.Prelude.{◌≡◌, refl, true, false, none, List, [], ◌∷◌, All}
use vizstack.Prelude.Int.{pos}
use vizstack.Prelude.Dict.{Dict, lookup}
use vizstack.Resource.{Resource, is_free}
use vizstack.Resource.Search.{type_search_match, gpu_search_match}
use vizstack.Resource.Samples.{base_at, shared_gpu, any_gpu, server_0}
use vizstack.Metascheduler.Base.{Request, one, several, aggregate, group, NodeRequest}
use vizstack.Metascheduler.Ordering.{Avail, ReqDesc, ordinal_length, sort_req_list}
use mathlib.Core.List.{Permᴰ}
use vizstack.Prelude.{map}
use vizstack.Prelude.Dict.{put}
use vizstack.Prelude.Int.{◌+ℤ◌, ◌-ℤ◌, sub_ℕ}
use vizstack.Prelude.Decimal.{decimal}
use vizstack.Prelude.Sorting.{sort_by, insert_by}
use vizstack.Resource.{hash_key}
use vizstack.Resource.Weight.{get_allocation_weight}
use vizstack.Metascheduler.Base.{ManagedNode}
use vizstack.Metascheduler.Ordering.{
  Ranked, compare_nodes, rank_all, rank, weigh, decorate, sort_avail_resources,
}
use vizstack.Metascheduler.Ordering.Nodes.{AreRanked, AreInOrder, sort_avail_resources_lem}
use vizstack.Metascheduler.Prepare.{FixedEntry, expand, check_fixed, check_fixed_one}
use vizstack.Metascheduler.Prepare.Expand.{all_requirements, all_indices, LeadTo, expand_lem}
use vizstack.Metascheduler.Prepare.Fixed.{IsServable, check_fixed_iff}
use vizstack.Metascheduler.Steps.{try_whole, try_dof3}
use vizstack.Metascheduler.Steps.Whole.{WholeOutcome, try_whole_lem}
use vizstack.Metascheduler.Steps.FirstNode.{SearchOutcome, try_dof3_lem}

-- A small list of requirements and a larger one, which stays behind it.
requirements : List ReqDesc
requirements = (0, group (any_gpu true ∷ [])) ∷ (1, group (server_0 ∷ any_gpu true ∷ [])) ∷ []

sort_req_list_test : sort_req_list requirements ≡ requirements
unfolding sort_req_list sort_by insert_by ordinal_length requirements sub_ℕ
sort_req_list_test = refl

requests : List Request
requests =
    one server_0
    ∷ aggregate ((any_gpu true ∷ []) ∷ (server_0 ∷ []) ∷ [])
    ∷ several (any_gpu true ∷ any_gpu false ∷ [])
    ∷ []

expand_lem_example :
    ((expand requests).requirements ≡ all_requirements requests)
    × (all_indices (expand requests).places ≡ 0 ∷ 1 ∷ 2 ∷ 3 ∷ [])
    × LeadTo (expand requests).requirements (expand requests).places requests
unfolding requests
expand_lem_example = expand_lem requests

-- The server of a node, once and for exclusive use.
fixed : Dict FixedEntry
fixed = ("Server-0 at host n1", record { count = 1; ref = server_0; share_count = 0 }) ∷ []

table : Dict Resource
table = ("Server-0 at host n1", server_0) ∷ []

check_fixed_iff_example : All (IsServable table [] []) fixed
unfolding check_fixed check_fixed_one type_search_match gpu_search_match is_free lookup fixed table
check_fixed_iff_example = (check_fixed_iff table [] [] fixed).0 refl

on_nodes : List Avail
on_nodes = ("n1", server_0 ∷ []) ∷ ("n2", shared_gpu 1 ∷ []) ∷ []

try_dof3_lem_example :
    SearchOutcome 5 (any_gpu true ∷ []) on_nodes (try_dof3 5 (any_gpu true ∷ []) on_nodes)
try_dof3_lem_example = try_dof3_lem 5 (any_gpu true ∷ []) on_nodes

some_node : NodeRequest
some_node = record { base = base_at none none; resources = any_gpu true ∷ [] }

try_whole_lem_example :
    WholeOutcome
      (("n1", pos 0) ∷ ("n2", pos 1) ∷ [])
      some_node
      on_nodes
      (try_whole (("n1", pos 0) ∷ ("n2", pos 1) ∷ []) some_node on_nodes)
unfolding on_nodes lookup
try_whole_lem_example =
    try_whole_lem (("n1", pos 0) ∷ ("n2", pos 1) ∷ []) some_node on_nodes
      ((pos 0, refl), ((pos 1, refl), tt))

-- Two nodes, the second of which has the lower weight.
two_nodes : Dict ManagedNode
two_nodes =
    ("n1", record { name = "n1"; index = 0; allocation_bias = pos 5; resources = [] })
    ∷ ("n2", record { name = "n2"; index = 1; allocation_bias = pos 0; resources = [] })
    ∷ []

sort_avail_resources_lem_example :
    (ranked : List Ranked) × (sorted : List Ranked) × AreRanked two_nodes on_nodes ranked
    × Permᴰ ranked sorted
    × (("n2", shared_gpu 1 ∷ []) ∷ ("n1", server_0 ∷ []) ∷ [] ≡ map (λ r. r.avail) sorted)
    × AreInOrder sorted
unfolding sort_avail_resources compare_nodes sub_ℕ rank_all rank weigh decorate lookup put sort_by
    insert_by hash_key decimal get_allocation_weight ◌+ℤ◌ ◌-ℤ◌ two_nodes on_nodes
sort_avail_resources_lem_example =
    sort_avail_resources_lem two_nodes on_nodes
      (("n2", shared_gpu 1 ∷ []) ∷ ("n1", server_0 ∷ []) ∷ []) refl
