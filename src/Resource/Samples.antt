-- ===== src/Resource/Samples.antt =====
-- Small resources, what the program does with them, and the theorems at these inputs.
use vizstack.Prelude.{
  ℕ, ◌≡◌, refl, true, false, none, some, Option, String, List, [], ◌∷◌, Bool, arith,
}
use vizstack.Prelude.Int.{pos}
use vizstack.Prelude.Decimal.{decimal}
use vizstack.Errors.{ok}
use vizstack.Resource.{
  VizResource, Resource, GpuFields, gpu, server, hash_key, add_owner, remove_owner, is_free,
}
use vizstack.Resource.Sharing.{do_allocate, deallocate, take_base, release_base}
use vizstack.Resource.Sharing.Invariant.{
  IsWithinLimit, Use, take, give, use_all, use_all-IsWithinLimit,
}
use vizstack.Resource.Sharing.Exclusive.{exclusive_grant}
use vizstack.Resource.Sharing.RoundTrip.{deallocate-do_allocate, SameUse}
use vizstack.Resource.Search.{can_allocate, type_search_match, gpu_search_match}
use vizstack.Resource.Search.Spec.{type_search_match_iff, Serves}

abbrev pub base_at : Option ℕ → Option String → VizResource
base_at index host = record {
  res_index = index;
  host_name = host;
  res_type = none;
  owners = [];
  shared = false;
  max_share_count = 1;
  allocation_bias = pos 0;
}

abbrev pub plain_gpu : GpuFields
plain_gpu = record {
  use_scan_out = none;
  allow_stereo = none;
  scanout_caps = none;
  scanout = [];
  max_width = none;
  max_height = none;
  schedulable = none;
  shared_server_index = none;
  shared_server = base_at none none;
}

-- A GPU that two users may share.
abbrev pub shared_gpu : ℕ → Resource
shared_gpu index = record {
  base = record (base_at (some index) (some "n1")) { max_share_count = 2 };
  class = gpu plain_gpu;
}

-- A request for any GPU, shared or not.
abbrev pub any_gpu : Bool → Resource
any_gpu shared = record {
  base = record (base_at none none) { shared = shared };
  class = gpu plain_gpu;
}

abbrev pub server_0 : Resource
server_0 = record { base = base_at (some 0) (some "n1"); class = server }

program : Unit {0}
unfolding do_allocate deallocate remove_owner can_allocate type_search_match gpu_search_match
    is_free take_base add_owner release_base
program = tt

-- Two users share the GPU, a third one finds it full.
history : List Use
history = take (any_gpu true) 7 ∷ take (any_gpu true) 8 ∷ take (any_gpu true) 9 ∷ give 7 ∷ []

history_owners : ((use_all history (shared_gpu 0)).owners ≡ 8 ∷ [])
unfolding program use_all history
history_owners = refl

hash_key_test : hash_key server_0 ≡ ok "Server-0 at host n1"
unfolding hash_key decimal
hash_key_test = refl

pub unused_IsWithinLimit :
    (index : Option ℕ) (host : Option String) → IsWithinLimit (base_at index host)
unused_IsWithinLimit index host = record {
  exclusive = λ _. omega arith;
  shared_limit = λ e. cc;
  sharable = λ e. cc;
}

pub free_IsWithinLimit : (index : ℕ) → IsWithinLimit (shared_gpu index).base
free_IsWithinLimit index = record {
  exclusive = λ _. omega arith;
  shared_limit = λ e. cc;
  sharable = λ e. cc;
}

type_search_match_iff_example : Serves (shared_gpu 0) (any_gpu true)
unfolding program
type_search_match_iff_example = (type_search_match_iff (shared_gpu 0) (any_gpu true)).0 refl

use_all-IsWithinLimit_example : IsWithinLimit (use_all history (shared_gpu 0)).base
use_all-IsWithinLimit_example = use_all-IsWithinLimit history (shared_gpu 0) (free_IsWithinLimit 0)

exclusive_grant_example : (do_allocate (any_gpu false) 7 (shared_gpu 0)).1.owners ≡ 7 ∷ []
unfolding program
exclusive_grant_example =
    (exclusive_grant (shared_gpu 0) (any_gpu false) 7 (free_IsWithinLimit 0) refl refl).1

deallocate-do_allocate_example :
    SameUse
      (deallocate 7 (do_allocate (any_gpu true) 7 (shared_gpu 0)).1).1.base
      (shared_gpu 0).base
unfolding program
deallocate-do_allocate_example =
    (deallocate-do_allocate (shared_gpu 0) (any_gpu true) 7 (free_IsWithinLimit 0) (λ _. refl)
      refl).1
