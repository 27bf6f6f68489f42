-- ===== src/Resource.antt =====
-- python/vsapi.py: VizResource and the classes of the resources that are allocated (GPU, SLI,
-- Server, Keyboard, Mouse). An object is its base-class fields and a tag with the fields that its
-- class adds; a virtual method matches on the tag. Indices and user ids are natural numbers, so the
-- type tests of the source on them always pass.
pub mod Sharing
pub mod Search
pub mod Weight
pub mod Scanouts
pub mod Samples
use Prim.Native.String.{◌++◌ as append}
use vizstack.Prelude.{
  ℕ, ◌+◌, ◌-◌, String, Bool, true, false, not, ◌&&◌, ◌||◌, Option, none, some, List, [], ◌∷◌, ◌++◌,
  ltb, length, ◌==◌, ◌!=◌, nat_eq, string_eq, bool_eq, option_eq, remove_first, if◌then◌else◌,
}
use vizstack.Prelude.Int.{ℤ, pos, ◌+ℤ◌, ◌-ℤ◌, sub_ℕ}
use vizstack.Prelude.Decimal.{decimal}
use vizstack.Display.{DisplayArg}
use vizstack.Errors.{
  Result, ok, raise, Statement, viz_error, access_denied, name_error, type_error, value_error,
}

-- What a scheduler's launcher is known by: the scheduler's place in the list, and the number of
-- the reservation there.
pub record Launcher : Type 0 where
  pub scheduler : ℕ
  pub reservation : ℕ

pub record Schedulable : Type 0 where
  pub launcher : Launcher
  pub locality : Option String

-- The base class. Its resClass is the tag of `Class` below.
pub record VizResource : Type 0 where
  pub res_index : Option ℕ
  pub host_name : Option String
  pub res_type : Option String
  pub owners : List ℕ
  pub shared : Bool
  pub max_share_count : ℕ
  pub allocation_bias : ℤ

-- A scanout of a GPU: the display device on a port. Positions and sizes are in pixels.
pub record Scanout : Type 0 where
  pub display_device : DisplayArg
  pub scan_type : Option String
  pub mode : Option String
  pub area_x : ℕ
  pub area_y : ℕ
  pub area_width : Option ℕ
  pub area_height : Option ℕ

-- The fields that class GPU adds, as far as allocation and scanouts use them.
pub record GpuFields : Type 0 where
  pub use_scan_out : Option Bool
  pub allow_stereo : Option Bool
  pub scanout_caps : Option (List (ℕ × List String))
  pub scanout : List (ℕ × Scanout)
  pub max_width : Option ℕ
  pub max_height : Option ℕ
  pub schedulable : Option Schedulable
  pub shared_server_index : Option ℕ
  pub shared_server : VizResource

pub data Class : Type 0 where
  gpu : GpuFields → Class
  sli server keyboard mouse : Class

pub record Resource : Type 0 where
  pub base : VizResource
  pub open base use *
  pub class : Class

-- VizResource.__init__ with the index and the host of a request
unfoldable pub new_base : Option ℕ → Option String → Option String → VizResource
new_base index host type = record {
  res_index = index;
  host_name = host;
  res_type = type;
  owners = [];
  shared = false;
  max_share_count = 1;
  allocation_bias = pos 0;
}

-- The methods of the base class on its own fields.
abbrev pub set_shared : Bool → VizResource → VizResource
set_shared b r = record r { shared = b }

-- The name BAD_OPERATION is not bound where the source raises it.
unfoldable pub set_share_limit : ℕ → Statement VizResource (Unit {0})
set_share_limit count r =
    if ltb count 1 then (raise name_error, r) else (ok tt, record r { max_share_count = count })

unfoldable pub add_owner : ℕ → VizResource → VizResource
add_owner owner r = record r { owners = r.owners ++ owner ∷ [] }

unfoldable pub remove_owner : ℕ → Statement VizResource (Unit {0})
remove_owner owner r = elim (remove_first owner r.owners) [
  | none ↦ (raise (viz_error access_denied), r)
  | some rest ↦ (ok tt, record r { owners = rest })
]

abbrev pub is_sharable : VizResource → Bool
is_sharable r = ltb 1 r.max_share_count

-- How many users there may be at a time.
abbrev pub max_users : VizResource → ℕ
max_users r = if r.shared then r.max_share_count else 1

unfoldable pub is_free : VizResource → Bool
is_free r = if length r.owners == max_users r then false else true

abbrev pub is_some {ℓ} : {A : Type ℓ} → Option A → Bool
is_some none = false
is_some (some a) = true

unfoldable pub is_completely_resolvable : VizResource → Bool
is_completely_resolvable r = is_some r.res_index && is_some r.host_name

unfoldable pub get_allocation_dof : VizResource → ℕ
get_allocation_dof r =
    3 - ((if is_some r.res_index then 2 else 0) + (if is_some r.host_name then 1 else 0))

abbrev pub set_host_name : Option String → Resource → Resource
set_host_name name r = record r { base = record (r.base) { host_name = name } }

abbrev pub set_index : Option ℕ → Resource → Resource
set_index index r = record r { base = record (r.base) { res_index = index } }

abbrev pub class_name : Class → String
class_name (gpu g) = "GPU"
class_name sli = "SLI"
class_name server = "Server"
class_name keyboard = "Keyboard"
class_name mouse = "Mouse"

abbrev host_text : Option String → String
host_text none = "None"
host_text (some host) = host

-- "%s-%d at host %s": `%d` refuses None, `%s` prints it.
unfoldable pub hash_key : Resource → Result String
hash_key r = elim r.res_index [
  | none ↦ raise type_error
  | some index ↦ ok (
      append (class_name r.class)
        (append "-" (append (decimal index) (append " at host " (host_text r.host_name)))))
]
