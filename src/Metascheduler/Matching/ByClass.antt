-- ===== src/Metascheduler/Matching/ByClass.antt =====
-- The dictionary of the available resources by class: it holds what it was made of, and taking a
-- class's list out and putting another one in changes nothing else.
use mathlib.Core.List.Permᴰ
use mathlib.Core.List.{Permᴰ, append-nil, append_assoc}
use vizstack.Prelude.{◌≡◌, refl, List, [], ◌∷◌, ◌++◌}
use vizstack.Prelude.Permutations.{append_swap}
use vizstack.Resource.{Resource, Class, gpu, sli, server, keyboard, mouse}
use vizstack.Metascheduler.Matching.{Pools, pool_of, set_pool, pools_from, all_pools}

-- What the other classes have.
abbrev pub others : Class → Pools → List Resource
others c pools = all_pools (set_pool c [] pools)

set_pool-pool_of : (c : Class) (pools : Pools) → set_pool c (pool_of c pools) pools ≡ pools
set_pool-pool_of (gpu _) pools = refl
set_pool-pool_of sli pools = refl
set_pool-pool_of server pools = refl
set_pool-pool_of keyboard pools = refl
set_pool-pool_of mouse pools = refl

through :
    (xs l : List Resource) {ys : List Resource} (zs : List Resource)
    → Permᴰ ys (l ++ zs)
    → Permᴰ (xs ++ ys) (l ++ (xs ++ zs))
through xs l zs p = Permᴰ.trans (Permᴰ.append_left xs p) (append_swap xs l zs)

pub all_pools-set_pool :
    (c : Class) (l : List Resource) (pools : Pools)
    → Permᴰ (all_pools (set_pool c l pools)) (l ++ others c pools)
all_pools-set_pool (gpu _) l p = Permᴰ.refl _
all_pools-set_pool server l p = through p.gpus l _ (Permᴰ.refl _)
all_pools-set_pool keyboard l p = through p.gpus l _ (through p.servers l _ (Permᴰ.refl _))
all_pools-set_pool mouse l p =
    through p.gpus l _ (through p.servers l _ (through p.keyboards l _ (Permᴰ.refl _)))
all_pools-set_pool sli l p = through p.gpus l _ (
    through p.servers l _
      (through p.keyboards l _ (rw (append-nil l) at (append_swap p.mice l []))))

pub all_pools-split :
    (c : Class) (pools : Pools) → Permᴰ (all_pools pools) (pool_of c pools ++ others c pools)
all_pools-split c pools =
    rw (set_pool-pool_of c pools) at (all_pools-set_pool c (pool_of c pools) pools)

all_pools-add :
    (r : Resource) (pools : Pools)
    → Permᴰ
        (r ∷ all_pools pools)
        (all_pools (set_pool r.class (pool_of r.class pools ++ r ∷ []) pools))
all_pools-add r pools =
    let own = pool_of r.class pools in
    let rest = others r.class pools in
    let added = Permᴰ.symm (all_pools-set_pool r.class (own ++ r ∷ []) pools) in
    Permᴰ.trans (Permᴰ.cons refl (all_pools-split r.class pools))
      (Permᴰ.trans (Permᴰ.symm (Permᴰ.middle r own rest)) (rw append_assoc at added))

pub all_pools-pools_from :
    (rs : List Resource) (pools : Pools)
    → Permᴰ (rs ++ all_pools pools) (all_pools (pools_from pools rs))
unfolding pools_from
all_pools-pools_from [] pools = Permᴰ.refl _
all_pools-pools_from (r ∷ rs) pools =
    Permᴰ.trans (Permᴰ.symm (Permᴰ.middle r rs (all_pools pools)))
      (Permᴰ.trans (Permᴰ.append_left rs (all_pools-add r pools)) (all_pools-pools_from rs _))
