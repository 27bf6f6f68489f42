-- ===== src/Metascheduler/Histories.antt =====
-- The theorems on whole calls of the metascheduler, at a node with two GPUs.
use vizstack.Prelude.{false, ◌≡◌, refl, none, some, List, [], ◌∷◌}
use vizstack.Prelude.Int.{pos}
use vizstack.Prelude.Dict.{Dict}
use vizstack.Errors.{ok}
use vizstack.Resource.{gpu}
use vizstack.Metascheduler.Commit.{Allotted}
use vizstack.Metascheduler.Base.{Place, at}
use vizstack.Metascheduler.Owners.{all_owners}
use vizstack.Metascheduler.Committed.{allocate-Adds}
use vizstack.Prelude.{◌+◌}
use vizstack.Metascheduler.Safety.{IsSound, Call, allocates, deallocates, run, run-IsSound}
use vizstack.Resource.Samples.{unused_IsWithinLimit, base_at, plain_gpu, any_gpu}
use vizstack.Metascheduler.Base.{one, several, Metascheduler, Allocation}
use vizstack.Metascheduler.Allocate.{decide_all, allocate}
use vizstack.Resource.{Launcher}
use vizstack.Metascheduler.Runs.{program, gpu_on, gpu_at, node_named, local, user}

-- A user takes a GPU, asks for more than there is, and gives the GPU back.
calls : List Call
calls =
    allocates (one (any_gpu false) ∷ []) user []
    ∷ allocates (several (any_gpu false ∷ any_gpu false ∷ any_gpu false ∷ []) ∷ []) user []
    ∷ deallocates 0
    ∷ []

small : Metascheduler
small = record {
  info_table = ("GPU-0 at host n1", gpu_on "n1" 0) ∷ ("GPU-1 at host n1", gpu_on "n1" 1) ∷ [];
  sched_list = local ∷ [];
  node_map = ("n1", node_named "n1" 0) ∷ [];
  node_weight_when_free = ("n1", pos 0) ∷ [];
  allocations = [];
}

run-IsSound_example : IsSound (run calls small)
unfolding small
run-IsSound_example =
    run-IsSound calls small (unused_IsWithinLimit _ _, (unused_IsWithinLimit _ _, tt))

-- What is decided for a request of any GPU: the first one, and its node is reserved.
decided : List Place × Allotted × (Dict Launcher × List Launcher)
decided =
    let launcher : Launcher = record { scheduler = 0; reservation = 7 } in
    (
      at 0 ∷ [],
      some (some (gpu_at (some 0) (some "n1")) ∷ []) ∷ [],
      (("n1", launcher) ∷ [], launcher ∷ []),
    )

decide_small : decide_all small (one (any_gpu false) ∷ []) user [] ≡ ok decided
unfolding program small decided
decide_small = refl

given_small : Allocation
given_small = record {
  launchers = some (decided.2.1);
  resources = some (
      one (record {
        base = record (base_at (some 0) (some "n1")) { owners = 7 ∷ [] };
        class = gpu (record plain_gpu {
          schedulable = some (record {
            launcher = record { scheduler = 0; reservation = 7 };
            locality = some "n1";
          });
          shared_server = record (base_at none none) { owners = 7 ∷ [] };
        });
      })
      ∷ []);
  user = some 7;
}

allocate_small : (allocate (one (any_gpu false) ∷ []) user [] small).0 ≡ ok given_small
unfolding program small decided given_small
allocate_small = refl

allocate-Adds_example :
    (all_owners (allocate (one (any_gpu false) ∷ []) user [] small).1.info_table
      ≡ all_owners small.info_table + 1)
    × ((allocate (one (any_gpu false) ∷ []) user [] small).1.allocations ≡ given_small ∷ [])
unfolding small decided
allocate-Adds_example =
    allocate-Adds small (one (any_gpu false) ∷ []) user [] decided.0 decided.1 decided.2 given_small
      decide_small allocate_small
