-- ===== src/Normalize/Samples.antt =====
-- A list of resources of which one has a host.
use vizstack.Prelude.{◌≡◌, refl, inl, inr, some, true, List, [], ◌∷◌, map}
use vizstack.Resource.{Resource, set_host_name}
use vizstack.Resource.Samples.{any_gpu, server_0}
use vizstack.Metascheduler.Base.{several}
use vizstack.Normalize.{normalize_rg, host_names}
use vizstack.Normalize.Hosts.{normalize_rg_lem}

abbrev pair : List Resource
pair = any_gpu true ∷ server_0 ∷ []

-- Two hosts: nothing changes.
two_hosts_test :
    normalize_rg (several (set_host_name (some "n2") (any_gpu true) ∷ server_0 ∷ []) ∷ [])
    ≡ several (set_host_name (some "n2") (any_gpu true) ∷ server_0 ∷ []) ∷ []
unfolding normalize_rg host_names
two_hosts_test = refl

normalize_rg_lem_example :
    (normalize_rg (several pair ∷ []) ≡ several (map (set_host_name (some "n1")) pair) ∷ [])
    × (normalize_rg (normalize_rg (several pair ∷ [])) ≡ normalize_rg (several pair ∷ []))
normalize_rg_lem_example =
    normalize_rg_lem "n1" pair 1 server_0 (inl refl, (inr refl, tt)) refl refl
