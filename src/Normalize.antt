-- ===== src/Normalize.antt =====
-- python/vsutil.py: normalizeRG, which gives the resources of a list the only host that it names.
mod Hosts
mod Samples
use vizstack.Prelude.{
  String, Option, none, some, List, [], ◌∷◌, ◌++◌, map, contains, string_eq, if◌then◌else◌,
}
use vizstack.Resource.{Resource, set_host_name}
use vizstack.Metascheduler.Base.{Request, several}

-- if thisHostName is not None and thisHostName not in hostNames: hostNames.append(thisHostName)
abbrev pub add_host_name : List String → Option String → List String
add_host_name names none = names
add_host_name names (some name) = if contains names name then names else names ++ name ∷ []

unfoldable pub host_names : List String → List Resource → List String
host_names names [] = names
host_names names (r ∷ rest) = host_names (add_host_name names r.host_name) rest

-- if len(hostNames)==1
abbrev pub paste : List String → List Resource → List Resource
paste [] l = l
paste (name ∷ []) l = map (set_host_name (some name)) l
paste (name ∷ other ∷ rest) l = l

abbrev pub normalize_item : Request → Request
normalize_item (several l) = several (paste (host_names [] l) l)
normalize_item r = r

unfoldable pub normalize_rg : List Request → List Request
unfolding host_names
normalize_rg resources = map normalize_item resources
