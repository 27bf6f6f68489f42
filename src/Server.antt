-- ===== src/Server.antt =====
-- python/vsapi.py: Server, an X server: its screens, its input devices and what its configuration
-- file and its command line say. The screens of a server are values: what a caller does to a screen
-- after addScreen is not seen.
mod Setters
mod Calls
mod Screens
mod Combined
mod Samples
use vizstack.Prelude.{
  ℕ, ◌+◌, ◌≡◌, String, Bool, true, false, not, Option, none, some, List, [], ◌∷◌, ◌++◌, map, length,
  ltb, contains, ◌==◌, ◌!=◌, nat_eq, string_eq, option_eq, if◌then◌else◌,
}
use vizstack.Prelude.Int.{ℤ, pos, negsuc, sub_ℕ}
use vizstack.Prelude.Dict.{Dict, put, has_key, remove}
use vizstack.Prelude.Sorting.{sort_by}
use vizstack.Prelude.Table.{at_key, put_key}
use vizstack.Errors.{
  Result, ok, raise, and_then, key_of, value_error, type_error, name_error, key_error,
  attribute_error, viz_error, bad_configuration, Statement, ◌>>◌,
}
use vizstack.Resource.{VizResource, Resource, Class, keyboard, mouse, new_base}
use vizstack.Screen.{
  Screen, new_screen, get_gpus, set_server, get_resolution, create_xinerama_screen,
}

-- The keys of `screens` are what getScreenNumber gives, which may be None.
pub record Server : Type 0 where
  pub base : VizResource
  pub open base use *
  pub modules : List String
  pub keyboard : Option Resource
  pub mouse : Option Resource
  pub screens : List (Option ℕ × Screen)
  pub combine_fbs : Bool
  pub x_extension_section_option : Dict String
  pub server_args : Dict (Option String)

abbrev pub valid_server_types : List String
valid_server_types = "normal" ∷ "virtual" ∷ []

abbrev pub all_x_extension_section_options : List String
all_x_extension_section_options = "Composite" ∷ []

unfoldable pub set_x_extension_section_option : String → String → Statement Server (Unit {0})
set_x_extension_section_option name value self =
    if name == ""
    then (raise value_error, self)
    else if value == ""
    then (raise value_error, self)
    else if not (contains all_x_extension_section_options name)
    then (raise value_error, self)
    else (
      ok tt,
      record self { x_extension_section_option = put name value self.x_extension_section_option },
    )

-- dict.pop raises KeyError, which `except IndexError` lets pass.
unfoldable pub unset_x_extension_section_option : String → Statement Server (Unit {0})
unset_x_extension_section_option name self =
    if name == ""
    then (raise value_error, self)
    else if has_key name self.x_extension_section_option
    then (
      ok tt,
      record self { x_extension_section_option = remove name self.x_extension_section_option },
    )
    else (raise key_error, self)

unfoldable pub combine_screens : Bool → Server → Server
combine_screens combine_them self = record self { combine_fbs = combine_them }

unfoldable pub reference_is_complete : Server → Bool
reference_is_complete self = elim self.res_index [
  | none ↦ false
  | some index ↦ elim self.host_name [ none ↦ false | some host ↦ host != "" ]
]

unfoldable pub set_arg : String → Option String → Statement Server (Unit {0})
set_arg name value self = (ok tt, record self { server_args = put name value self.server_args })

unfoldable pub unset_arg : String → Statement Server (Unit {0})
unset_arg name self =
    if has_key name self.server_args
    then (ok tt, record self { server_args = remove name self.server_args })
    else (raise key_error, self)

abbrev pub cleared : VizResource → Server
cleared base = record {
  base = base;
  modules = [];
  keyboard = none;
  mouse = none;
  screens = [];
  combine_fbs = false;
  x_extension_section_option = [];
  server_args = [];
}

unfoldable pub clear_config : Statement Server (Unit {0})
unfolding set_x_extension_section_option set_arg
clear_config self =
    (set_x_extension_section_option "Composite" "Disable"
        >> set_arg "-dpms" none
        >> set_arg "-s" (some "off")
        >> set_arg "-nolisten" (some "tcp"))
      (cleared self.base)

-- Server.__init__
unfoldable pub new_server : Option ℕ → Option String → String → Result Server
unfolding new_base clear_config
new_server index host server_type =
    if not (contains valid_server_types server_type)
    then raise value_error
    else ok ((clear_config (cleared (new_base index host (some server_type)))).1)

-- The configuration of another server, not its address.
unfoldable pub set_config : Server → Server → Server
set_config srv self = record srv { base = self.base }

abbrev pub is_keyboard : Class → Bool
is_keyboard keyboard = true
is_keyboard _ = false

abbrev pub is_mouse : Class → Bool
is_mouse mouse = true
is_mouse _ = false

-- The message of the refusal reads an attribute that does not exist.
unfoldable pub set_keyboard : Option Resource → Statement Server (Unit {0})
set_keyboard none self = (ok tt, record self { keyboard = none })
set_keyboard (some kbd) self =
    if is_keyboard kbd.class
    then (ok tt, record self { keyboard = some kbd })
    else (raise attribute_error, self)

-- The message of the refusal reads a variable that is not bound.
unfoldable pub set_mouse : Option Resource → Statement Server (Unit {0})
set_mouse none self = (ok tt, record self { mouse = none })
set_mouse (some m) self =
    if is_mouse m.class then (ok tt, record self { mouse = some m }) else (raise name_error, self)

-- The server keeps the screen as it is then; the caller's object, and with it what is done to it later,
-- is not part of the model. newScreen.setServer(self) succeeds, since getGPUs has refused a Xinerama screen.
unfoldable pub add_screen : Screen → Statement Server (Unit {0})
unfolding get_gpus set_server
add_screen new self =
    if self.res_type != some "normal"
    then (raise (viz_error bad_configuration), self)
    else elim (get_gpus new) [
      | raise e ↦ (raise e, self)
      | ok gpus ↦ if length gpus == 0 then (raise (viz_error bad_configuration), self) else (
        ok tt,
        record self {
          screens =
              put_key new.screen_number ((set_server (some self.res_index) new).1) self.screens;
        },
      )
    ]

unfoldable pub get_screen : Option ℕ → Server → Result Screen
get_screen number self = key_of (at_key number self.screens)

-- Python 2 puts None in front of the numbers.
abbrev pub rank_of_number : Option ℕ → ℕ
rank_of_number none = 0
rank_of_number (some n) = n + 1

abbrev pub compare_numbers : Option ℕ × Screen → Option ℕ × Screen → ℤ
compare_numbers a b = sub_ℕ (rank_of_number a.0) (rank_of_number b.0)

-- The keys are different, so that sorting the entries by key stands for sorting the keys and
-- looking each up.
unfoldable pub get_screens : Server → List Screen
get_screens self = map (λ entry. entry.1) (sort_by compare_numbers self.screens)

unfoldable pub add_module : String → Statement Server (Unit {0})
add_module name self =
    if name == ""
    then (raise attribute_error, self)
    else if contains self.modules name
    then (ok tt, self)
    else (ok tt, record self { modules = self.modules ++ name ∷ [] })

unfoldable pub has_valid_runtime_config : Server → Bool
has_valid_runtime_config self = ltb 0 (length self.screens)

-- The variables of getCombinedScreen's loop.
pub record Extent : Type 0 where
  pub max_x : ℕ
  pub max_y : ℕ
  pub overall_stereo : Option String
  pub single_stereo_mode : Bool

abbrev pub larger : ℕ → ℕ → ℕ
larger a b = if ltb b a then a else b

-- A position that is not set counts as the origin. The second coordinate grows by dim[0], too.
abbrev pub position_of : Screen → ℕ × ℕ
position_of scr = elim scr.properties.position [ none ↦ (0, 0) | some p ↦ p ]

-- The first stereo mode that is set.
abbrev pub first_of : Option String → Option String → Option String
first_of none b = b
first_of (some a) b = some a

abbrev pub grow : Extent → Screen → ℕ × ℕ → Extent
grow m scr dim = record {
  max_x = larger ((position_of scr).0 + dim.0) m.max_x;
  max_y = larger ((position_of scr).1 + dim.0) m.max_y;
  overall_stereo = first_of m.overall_stereo scr.properties.stereo;
  single_stereo_mode =
      if scr.properties.stereo != first_of m.overall_stereo scr.properties.stereo
      then false
      else m.single_stereo_mode;
}

unfoldable pub extend : Extent → Screen → Result Extent
extend m scr = and_then (get_resolution scr) (λ dim. ok (grow m scr dim))

unfoldable pub extend_all : Extent → List Screen → Result Extent
unfolding extend
extend_all m [] = ok m
extend_all m (scr ∷ rest) = and_then (extend m scr) (λ after. extend_all after rest)

abbrev pub no_extent : Extent
no_extent = record { max_x = 0; max_y = 0; overall_stereo = none; single_stereo_mode = true }

unfoldable pub get_combined_screen : Server → Result Screen
unfolding extend_all get_screens create_xinerama_screen
get_combined_screen self =
    if self.combine_fbs
    then and_then (extend_all no_extent (get_screens self)) (λ m. ok (
        create_xinerama_screen (some self.res_index) (m.max_x, m.max_y)
          (if m.single_stereo_mode then m.overall_stereo else none)))
    else raise (viz_error bad_configuration)
