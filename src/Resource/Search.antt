-- ===== src/Resource/Search.antt =====
-- python/vsapi.py: matching a request against a resource (typeSearchMatch, refersToTheSame) and
-- the admission test of an allocation (canAllocate).
pub mod Spec
use vizstack.Prelude.{
  Bool, true, false, not, ◌&&◌, ◌||◌, Option, none, some, ◌==◌, ◌!=◌, nat_eq, string_eq, bool_eq,
  option_eq, if◌then◌else◌,
}
use vizstack.Errors.{Result, ok, raise, value_error}
use vizstack.Resource.{
  Resource, Class, gpu, sli, server, keyboard, mouse, GpuFields, is_some, is_sharable, is_free,
}

-- otherRes.resClass == self.resClass
abbrev pub same_class : Class → Class → Bool
same_class (gpu g) (gpu h) = true
same_class sli sli = true
same_class server server = true
same_class keyboard keyboard = true
same_class mouse mouse = true
same_class _ _ = false

-- One attribute of the search: what the request leaves open matches; what it asks for has to be
-- there and equal.
abbrev pub attribute_match {ℓ} : {A : Type ℓ} → (A → A → Bool) → Option A → Option A → Bool
attribute_match eq own none = true
attribute_match eq none (some wanted) = false
attribute_match eq (some own) (some wanted) = eq own wanted

-- VizResource.typeSearchMatch
unfoldable pub base_search_match : Resource → Resource → Bool
base_search_match self other =
    if not (same_class other.class self.class)
    then false
    else if not (attribute_match ◌==◌ self.res_index other.res_index)
    then false
    else if not (attribute_match ◌==◌ self.res_type other.res_type)
    then false
    else if not (attribute_match ◌==◌ self.host_name other.host_name)
    then false
    else if other.shared && not (is_sharable self.base)
    then false
    else true

-- The second half of GPU.typeSearchMatch.
unfoldable pub gpu_search_match : GpuFields → GpuFields → Bool
gpu_search_match self other = elim other.use_scan_out [
  | some true ↦ is_some self.scanout_caps && (self.use_scan_out == some true)
  | some false ↦ not (is_some self.scanout_caps) || (self.use_scan_out == some false)
  | none ↦
      if (self.allow_stereo == some false) && (other.allow_stereo == some true) then false else true
]

abbrev pub class_search_match : Class → Class → Bool
class_search_match (gpu self) (gpu other) = gpu_search_match self other
class_search_match _ _ = true

unfoldable pub type_search_match : Resource → Resource → Bool
unfolding base_search_match
type_search_match self other =
    if base_search_match self other then class_search_match self.class other.class else false

unfoldable pub refers_to_the_same : Resource → Resource → Bool → Result Bool
refers_to_the_same self other known_apples_to_oranges =
    if not (same_class other.class self.class)
    then (if known_apples_to_oranges then ok false else raise value_error)
    else if (other.res_index == self.res_index) && (other.host_name == self.host_name)
    then ok true
    else ok false

unfoldable pub can_allocate : Resource → Resource → Bool
can_allocate self other =
    if not (type_search_match self other)
    then false
    else if not (is_free self.base)
    then false
    else if other.shared && not (is_sharable self.base)
    then false
    else if self.shared && not other.shared
    then false
    else true
