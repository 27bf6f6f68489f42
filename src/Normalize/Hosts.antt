-- ===== src/Normalize/Hosts.antt =====
-- The hosts of a list after normalizeRG.
use vizstack.Prelude.{
  ℕ, zero, suc, ◌≡◌, refl, ap, ◌⊎◌, inl, inr, String, none, some, List, [], ◌∷◌, map, get_elem?,
  All, string_eq,
}
use vizstack.Resource.{Resource, set_host_name}
use vizstack.Metascheduler.Base.{several}
use vizstack.Normalize.{host_names, normalize_rg}

-- The resource may stand on the host.
abbrev pub IsOpenTo : String → Resource → Type 0
IsOpenTo name r = (r.host_name ≡ none) ⊎ (r.host_name ≡ some name)

host_names-known :
    (name : String) (l : List Resource)
    → All (IsOpenTo name) l
    → host_names (name ∷ []) l ≡ name ∷ []
unfolding host_names
host_names-known name [] h = refl
host_names-known name (r ∷ rest) (inl open_host, h) = rw open_host (host_names-known name rest h)
host_names-known name (r ∷ rest) (inr here, h) =
    rw (here, (string_eq.beq_iff name name).1 refl) (host_names-known name rest h)

only_host :
    (name : String) (l : List Resource) (i : ℕ) (r : Resource)
    → All (IsOpenTo name) l
    → get_elem? l i ≡ some r
    → r.host_name ≡ some name
    → host_names [] l ≡ name ∷ []
unfolding host_names
only_host name [] i r all h named = absurd cc
only_host name (q ∷ rest) i r (inr here, all) h named = rw here (host_names-known name rest all)
only_host name (q ∷ rest) zero r (inl open_host, all) h named = absurd cc
only_host name (q ∷ rest) (suc i) r (inl open_host, all) h named =
    rw open_host (only_host name rest i r all h named)

map-IsOpenTo :
    (name : String) (l : List Resource) → All (IsOpenTo name) (map (set_host_name (some name)) l)
map-IsOpenTo name [] = tt
map-IsOpenTo name (r ∷ rest) = (inr refl, map-IsOpenTo name rest)

get_elem?-map :
    (name : String) (l : List Resource) (i : ℕ) (r : Resource)
    → get_elem? l i ≡ some r
    → get_elem? (map (set_host_name (some name)) l) i ≡ some (set_host_name (some name) r)
get_elem?-map name [] i r h = absurd cc
get_elem?-map name (q ∷ rest) zero r h =
    let same : q ≡ r = cc in ap (λ x. some (set_host_name (some name) x)) same
get_elem?-map name (q ∷ rest) (suc i) r h = get_elem?-map name rest i r h

map-map_host :
    (name : String) (l : List Resource)
    → map (set_host_name (some name)) (map (set_host_name (some name)) l)
      ≡ map (set_host_name (some name)) l
map-map_host name [] = refl
map-map_host name (r ∷ rest) = ap (set_host_name (some name) r ∷◌) (map-map_host name rest)

-- In a list in which at least one resource has a host, and every other one has the same or none, all
-- resources get that host, and nothing else of them changes; to do it again changes nothing.
pub normalize_rg_lem :
    (name : String) (l : List Resource) (i : ℕ) (r : Resource)
    → All (IsOpenTo name) l
    → get_elem? l i ≡ some r
    → r.host_name ≡ some name
    → (normalize_rg (several l ∷ []) ≡ several (map (set_host_name (some name)) l) ∷ [])
      × (normalize_rg (normalize_rg (several l ∷ [])) ≡ normalize_rg (several l ∷ []))
unfolding normalize_rg
normalize_rg_lem name l i r all h named =
    let pasted = map (set_host_name (some name)) l in
    let once = only_host name l i r all h named in
    let again =
      only_host name pasted i (set_host_name (some name) r) (map-IsOpenTo name l)
        (get_elem?-map name l i r h) refl in
    (rw once refl, rw (once, again, map-map_host name l) refl)
