-- ===== src/Metascheduler/Matching.antt =====
-- python/metascheduler.py: matching a list of requests against what is available on one node
-- (__classifyRes, __copyWithThisNodeName, __resourceMatchDOF0, __resourceMatchDOF2).
--
-- The objects of the requests are changed in place by the source; here a call returns them as it
-- leaves them. The available objects are copied by the source before they are changed.

pub mod Address
pub mod FirstFit
pub mod Grants
pub mod Fixed
pub mod Classify
pub mod ByClass
pub mod Open
pub mod Node
pub mod Uses
pub mod Safety
use vizstack.Prelude.{
  ℕ, String, Bool, true, ◌&&◌, Option, none, some, List, [], ◌∷◌, ◌++◌, map, length, set,
  if◌then◌else◌, nat_beq,
}
use vizstack.Errors.{Result, ok, and_then}
use vizstack.Resource.{
  Resource, Class, gpu, sli, server, keyboard, mouse, is_free, get_allocation_dof, set_host_name,
  set_index,
}
use vizstack.Resource.Search.{refers_to_the_same, can_allocate}
use vizstack.Resource.Sharing.{do_allocate}

-- resFinalSelected, resToBeAllocated and resTBAIndexMap
pub record Classified : Type 0 where
  pub selected : List (Option Resource)
  pub to_allocate : List Resource
  pub index_map : List ℕ

-- The loop of __classifyRes, from a given state of its three lists.
unfoldable pub classify_from : Classified → List Resource → Classified
classify_from c [] = c
classify_from c (res ∷ rest) =
    classify_from
      (if nat_beq (get_allocation_dof res.base) 0
        then record c { selected = c.selected ++ some res ∷ [] }
        else record {
          selected = c.selected ++ none ∷ [];
          to_allocate = c.to_allocate ++ res ∷ [];
          index_map = c.index_map ++ length c.selected ∷ [];
        })
      rest

unfoldable pub classify_res : List Resource → Classified
unfolding classify_from
classify_res = classify_from (record { selected = []; to_allocate = []; index_map = [] })

unfoldable pub copy_with_this_node_name : List Resource → String → List Resource
copy_with_this_node_name resources node = map (set_host_name (some node)) resources

-- setHostName and setIndex of a request to those of the resource that answers it
abbrev pub address : Resource → Resource → Resource
address avail req = set_index avail.res_index (set_host_name avail.host_name req)

-- The body of both matching loops once the test has passed: the request is addressed and allocated
-- out of the resource, which stays available while it is free.
unfoldable pub allocate_out_of :
    ℕ → Resource → Resource → List Resource → Result (Option (Resource × List Resource))
allocate_out_of uid req avail rest =
    let addressed = address avail req in
    let (outcome, taken) = do_allocate addressed uid avail in
    and_then outcome (λ _. ok (some (addressed, if is_free taken.base then taken ∷ rest else rest)))

-- The search for the first available resource that passes the test.
unfoldable pub take_first :
    (Resource → Resource → Result Bool)
    → ℕ
    → Resource
    → List Resource
    → Result (Option (Resource × List Resource))
take_first test uid req [] = ok none
take_first test uid req (avail ∷ rest) =
    let later = take_first test uid req rest in
    and_then (test avail req) λ fits.
      if fits
      then allocate_out_of uid req avail rest
      else and_then later λ found. elim found [
        | none ↦ ok none
        | some (addressed, left) ↦ ok (some (addressed, avail ∷ left))
      ]

-- avail.refersToTheSame(req, True) and avail.canAllocate(req)
abbrev pub is_requested : Resource → Resource → Result Bool
is_requested avail req =
    and_then (refers_to_the_same avail req true) λ same. ok (same && can_allocate avail req)

-- What a call returns when it succeeds, the matched requests and the resources that are left, and
-- the requests as it leaves them. Its callers look at nothing else after a failure.
pub record Match (A : Type 0) : Type 0 where
  pub outcome : Option (List A × List Resource)
  pub requests : List Resource

abbrev pub also_matched :
    {A : Type 0} → A → Option (List A × List Resource) → Option (List A × List Resource)
also_matched a none = none
also_matched a (some (matched, left)) = some (a ∷ matched, left)

-- __resourceMatchDOF0
unfoldable pub match_dof0 : ℕ → List Resource → List Resource → Result (Match Resource)
match_dof0 uid [] avail = ok (record { outcome = some ([], avail); requests = [] })
match_dof0 uid (req ∷ reqs) avail = and_then (take_first is_requested uid req avail) λ found.
    elim found [
      | none ↦ ok (record { outcome = none; requests = req ∷ reqs })
      | some (addressed, remaining) ↦ and_then (match_dof0 uid reqs remaining) λ m.
          ok (record {
            outcome = also_matched addressed m.outcome;
            requests = addressed ∷ m.requests;
          })
    ]

-- The dictionary availRes, by class.
pub record Pools : Type 0 where
  pub gpus : List Resource
  pub servers : List Resource
  pub keyboards : List Resource
  pub mice : List Resource
  pub slis : List Resource

abbrev pub pool_of : Class → Pools → List Resource
pool_of (gpu _) pools = pools.gpus
pool_of sli pools = pools.slis
pool_of server pools = pools.servers
pool_of keyboard pools = pools.keyboards
pool_of mouse pools = pools.mice

abbrev pub set_pool : Class → List Resource → Pools → Pools
set_pool (gpu _) l pools = record pools { gpus = l }
set_pool sli l pools = record pools { slis = l }
set_pool server l pools = record pools { servers = l }
set_pool keyboard l pools = record pools { keyboards = l }
set_pool mouse l pools = record pools { mice = l }

unfoldable pub pools_from : Pools → List Resource → Pools
pools_from pools [] = pools
pools_from pools (res ∷ rest) =
    pools_from (set_pool res.class (pool_of res.class pools ++ res ∷ []) pools) rest

abbrev pub no_pools : Pools
no_pools = record { gpus = []; servers = []; keyboards = []; mice = []; slis = [] }

-- In the order of allResClasses.
abbrev pub all_pools : Pools → List Resource
all_pools pools = pools.gpus ++ (pools.servers ++ (pools.keyboards ++ (pools.mice ++ pools.slis)))

abbrev pub is_allocatable : Resource → Resource → Result Bool
is_allocatable avail req = ok (can_allocate avail req)

pub record OpenMatch : Type 0 where
  pub outcome : Option (List Resource × Pools)
  pub requests : List Resource

abbrev pub also_answered :
    Resource → Option (List Resource × Pools) → Option (List Resource × Pools)
also_answered a none = none
also_answered a (some (matched, pools)) = some (a ∷ matched, pools)

-- The loop of __resourceMatchDOF2 over the requests with an open index. The five classes are all
-- that there are, so the error for another class is not reached.
unfoldable pub match_open : ℕ → List Resource → Pools → Result OpenMatch
match_open uid [] pools = ok (record { outcome = some ([], pools); requests = [] })
match_open uid (req ∷ reqs) pools =
    and_then (take_first is_allocatable uid req (pool_of req.class pools)) λ found. elim found [
      | none ↦ ok (record { outcome = none; requests = req ∷ reqs })
      | some (addressed, remaining) ↦
          and_then (match_open uid reqs (set_pool req.class remaining pools)) λ m. ok (record {
            outcome = also_answered addressed m.outcome;
            requests = addressed ∷ m.requests;
          })
    ]

-- filter(lambda x: x is not None, l)
abbrev pub present : List (Option Resource) → List Resource
present [] = []
present (none ∷ l) = present l
present (some r ∷ l) = r ∷ present l

-- for idx in range(len(answers)): l[index_map[idx]] = answers[idx]
unfoldable pub put_at : {A : Type 0} → List ℕ → List A → List A → List A
put_at (i ∷ index_map) (a ∷ answers) l = put_at index_map answers (set l i a)
put_at [] _ l = l
put_at (i ∷ index_map) [] l = l

-- The second half of __resourceMatchDOF2: the open requests, out of what the fixed ones leave.
unfoldable pub match_rest :
    ℕ → Classified → List Resource → List Resource → Result (Match (Option Resource))
match_rest uid c reqs remaining =
    and_then (match_open uid c.to_allocate (pools_from no_pools remaining)) λ m. ok (record {
      outcome = elim m.outcome [
        | none ↦ none
        | some (matched, pools) ↦
            some (put_at c.index_map (map some matched) c.selected, all_pools pools)
      ];
      requests = put_at c.index_map m.requests reqs;
    })

-- What __resourceMatchDOF0 answers has its address already, so that the fixed requests stay as
-- they are.
unfoldable pub match_classified :
    ℕ → Classified → List Resource → List Resource → Result (Match (Option Resource))
match_classified uid c reqs avail = and_then (match_dof0 uid (present c.selected) avail) λ fixed.
    elim fixed.outcome [
      | none ↦ ok (record { outcome = none; requests = reqs })
      | some (_, remaining) ↦ match_rest uid c reqs remaining
    ]

-- __resourceMatchDOF2
unfoldable pub match_dof2 : ℕ → List Resource → List Resource → Result (Match (Option Resource))
match_dof2 uid reqs avail = match_classified uid (classify_res reqs) reqs avail
