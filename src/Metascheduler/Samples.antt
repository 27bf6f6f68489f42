-- ===== src/Metascheduler/Samples.antt =====
-- A small node, what the allocator does with requests for it, and the theorems at these inputs.
use vizstack.Prelude.{ℕ, ◌≡◌, refl, true, false, none, some, Option, List, [], ◌∷◌, map}
use vizstack.Errors.{ok, Result}
use vizstack.Resource.{Resource, gpu}
use vizstack.Resource.Sharing.{do_allocate}
use vizstack.Resource.{is_free, get_allocation_dof, add_owner}
use vizstack.Resource.Search.{can_allocate, type_search_match, gpu_search_match, refers_to_the_same}
use vizstack.Resource.Sharing.{take_base}
use vizstack.Resource.Samples.{
  base_at, plain_gpu, shared_gpu, any_gpu, server_0, free_IsWithinLimit, unused_IsWithinLimit,
}
use vizstack.Metascheduler.Matching.{
  Match, take_first, allocate_out_of, match_dof0, match_open, match_rest, match_classified,
  match_dof2, pools_from, classify_res, classify_from, put_at,
}
use vizstack.Metascheduler.Matching.Fixed.{FixedOutcome, match_dof0_lem}
use vizstack.Metascheduler.Matching.Node.{NodeOutcome, match_dof2_lem}
use vizstack.Metascheduler.Matching.Safety.{Accounted, match_dof2-Accounted}
use vizstack.Metascheduler.Matching.Grants.{AreWithinLimit}

abbrev node_resources : List Resource
node_resources = shared_gpu 0 ∷ server_0 ∷ shared_gpu 1 ∷ []

-- A fixed server, and two GPUs on the node.
abbrev on_node : Resource → Resource
on_node r = record r { base = record (r.base) { host_name = some "n1" } }

abbrev node_requests : List Resource
node_requests = on_node (any_gpu false) ∷ server_0 ∷ on_node (any_gpu true) ∷ []

-- GPU 1 as user 5 shares it.
abbrev gpu_1_taken : Resource
unfolding add_owner
gpu_1_taken = record {
  base = record ((shared_gpu 1).base) { owners = 5 ∷ []; shared = true };
  class = gpu (record plain_gpu { shared_server = add_owner 5 (base_at none none) });
}

unfoldable pub matching : Unit {0}
unfolding do_allocate can_allocate type_search_match gpu_search_match is_free take_base add_owner
    refers_to_the_same get_allocation_dof take_first allocate_out_of match_dof0 match_open
    match_rest match_classified match_dof2 pools_from classify_res classify_from put_at
matching = tt

-- The exclusive request gets GPU 0, the shared one GPU 1, which stays available.
match_answers : Result (Match (Option Resource)) → List (Option ℕ)
match_answers (ok m) = map (λ r. r.res_index) m.requests
match_answers _ = []

match_dof2_test :
    match_answers (match_dof2 5 node_requests node_resources) ≡ some 0 ∷ some 0 ∷ some 1 ∷ []
unfolding matching match_answers
match_dof2_test = refl

node_IsWithinLimit : AreWithinLimit node_resources
node_IsWithinLimit = (free_IsWithinLimit 0, (unused_IsWithinLimit _ _, (free_IsWithinLimit 1, tt)))

match_dof0_lem_example :
    FixedOutcome 5 (server_0 ∷ []) node_resources (match_dof0 5 (server_0 ∷ []) node_resources)
match_dof0_lem_example = match_dof0_lem 5 (server_0 ∷ []) node_resources

match_dof2_lem_example :
    NodeOutcome 5 node_requests node_resources (match_dof2 5 node_requests node_resources)
match_dof2_lem_example = match_dof2_lem 5 node_requests node_resources

match_dof2-Accounted_example : Accounted 5 node_requests node_resources (gpu_1_taken ∷ [])
unfolding matching
match_dof2-Accounted_example =
    match_dof2-Accounted 5 node_requests node_resources refl node_IsWithinLimit
      (refl, (refl, (refl, tt)))
