-- ===== src/Metascheduler/Ordering.antt =====
-- python/metascheduler.py: the orders in which nodes and requirements are tried
-- (__sortAvailResources, __sortReqList).
pub mod Nodes
use vizstack.Prelude.{ℕ, String, Bool, false, List, [], ◌∷◌, map, length, if◌then◌else◌, nat_eq}
use vizstack.Prelude.Int.{ℤ, pos, ◌+ℤ◌, ◌-ℤ◌, sub_ℕ, beq_ℤ}
use vizstack.Prelude.Dict.{Dict, lookup, put}
use vizstack.Prelude.Sorting.{sort_by}
use vizstack.Errors.{Result, ok, and_then, key_of}
use vizstack.Resource.{Resource, hash_key}
use vizstack.Resource.Weight.{get_allocation_weight}
use vizstack.Metascheduler.Base.{Requirement, group, node, ManagedNode}

-- What is available on a node: its name and its free resources.
abbrev pub Avail : Type 0
Avail = String × List Resource

-- resWeight and totalWeight
unfoldable pub weigh : Dict ℤ → ℤ → List Resource → Result (Dict ℤ × ℤ)
weigh weights total [] = ok (weights, total)
weigh weights total (res ∷ rest) =
    and_then (hash_key res)
      λ key. let wt = get_allocation_weight res in weigh (put key wt weights) (total +ℤ wt) rest

-- Each resource with resWeight[x.hashKey()].
unfoldable pub decorate : Dict ℤ → List Resource → Result (List (ℤ × Resource))
decorate weights [] = ok []
decorate weights (res ∷ rest) = and_then (hash_key res) λ key.
    and_then (key_of (lookup key weights))
      λ wt. and_then (decorate weights rest) λ l. ok ((wt, res) ∷ l)

abbrev pub by_weight : ℤ × Resource → ℤ × Resource → ℤ
by_weight x y = x.0 -ℤ y.0

-- A node with what sortFunc compares: its weight, its resources' weight, its index.
pub record Ranked : Type 0 where
  pub bias : ℤ
  pub total : ℤ
  pub index : ℕ
  pub avail : Avail

-- The body of the loop over the nodes: the resources in order, and nodeWeight2.
unfoldable pub rank : Dict ManagedNode → Avail → Result Ranked
rank node_map (name, resources) = and_then (weigh [] (pos 0) resources) λ (weights, total).
    and_then (decorate weights resources) λ decorated.
      and_then (key_of (lookup name node_map)) λ managed. ok (record {
        bias = managed.allocation_bias;
        total = total;
        index = managed.index;
        avail = (name, map (λ entry. entry.1) (sort_by by_weight decorated));
      })

unfoldable pub rank_all : Dict ManagedNode → List Avail → Result (List Ranked)
rank_all node_map [] = ok []
rank_all node_map (entry ∷ rest) =
    and_then (rank node_map entry) λ r. and_then (rank_all node_map rest) λ l. ok (r ∷ l)

abbrev pub is_zero : ℤ → Bool
is_zero wt = beq_ℤ wt (pos 0)

-- sortFunc
unfoldable pub compare_nodes : Ranked → Ranked → ℤ
compare_nodes x y =
    let wt1 = x.bias -ℤ y.bias in
    let wt2 = x.total -ℤ y.total in
    if is_zero wt1 then (if is_zero wt2 then sub_ℕ x.index y.index else wt2) else wt1

-- __sortAvailResources
unfoldable pub sort_avail_resources : Dict ManagedNode → List Avail → Result (List Avail)
sort_avail_resources node_map avail =
    and_then (rank_all node_map avail) λ l. ok (map (λ r. r.avail) (sort_by compare_nodes l))

-- `x is list` asks whether x is the class `list` itself, which no requirement is.
abbrev pub is_class_list : Requirement → Bool
is_class_list (group l) = false
is_class_list (node n) = false

abbrev pub requirement_length : Requirement → ℕ
requirement_length (group l) = length l
requirement_length (node n) = 1

unfoldable pub ordinal_length : Requirement → ℕ
ordinal_length x = if is_class_list x then requirement_length x else 1

-- An entry of resReqByDOF: reqIndex and requirement.
abbrev pub ReqDesc : Type 0
ReqDesc = ℕ × Requirement

abbrev pub compare_requirements : ReqDesc → ReqDesc → ℤ
compare_requirements x y = sub_ℕ (ordinal_length y.1) (ordinal_length x.1)

-- __sortReqList
unfoldable pub sort_req_list : List ReqDesc → List ReqDesc
sort_req_list = sort_by compare_requirements
