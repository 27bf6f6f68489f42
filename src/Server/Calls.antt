-- ===== src/Server/Calls.antt =====
-- python/vsapi.py: what every history of a Server's setters keeps.
use vizstack.Prelude.{
  ℕ, String, Bool, true, ◌≡◌, Option, some, List, [], ◌∷◌, All, contains, inl, inr, Bool-cases,
  string_eq, nat_eq, option_eq,
}
use vizstack.Prelude.Dict.{put}
use vizstack.Errors.{ok, Post}
use vizstack.Resource.{Resource, new_base}
use vizstack.Screen.{Screen}
use vizstack.Server.{
  Server, new_server, cleared, valid_server_types, add_screen, add_module, set_arg, unset_arg,
  set_keyboard, set_mouse, clear_config, combine_screens, set_config,
  set_x_extension_section_option, unset_x_extension_section_option,
}
use vizstack.Server.Setters.{
  IsConfigured, add_screen-IsConfigured, add_module-IsConfigured, set_keyboard-IsConfigured,
  set_mouse-IsConfigured, with_args, set_option-IsConfigured, unset_option-IsConfigured,
  unset_arg-IsConfigured, clear_config-IsConfigured,
}

pub data ServerCall : Type 0 where
  adds_screen : Screen → ServerCall
  adds_module : String → ServerCall
  sets_arg : String → Option String → ServerCall
  unsets_arg : String → ServerCall
  sets_keyboard sets_mouse : Option Resource → ServerCall
  combines : Bool → ServerCall
  sets_option : String → String → ServerCall
  unsets_option : String → ServerCall
  clears : ServerCall
  takes_config : Server → ServerCall

unfoldable pub call : ServerCall → Server → Server
call (adds_screen scr) self = (add_screen scr self).1
call (adds_module name) self = (add_module name self).1
call (sets_arg name value) self = (set_arg name value self).1
call (unsets_arg name) self = (unset_arg name self).1
call (sets_keyboard kbd) self = (set_keyboard kbd self).1
call (sets_mouse m) self = (set_mouse m self).1
call (combines b) self = combine_screens b self
call (sets_option name value) self = (set_x_extension_section_option name value self).1
call (unsets_option name) self = (unset_x_extension_section_option name self).1
call clears self = (clear_config self).1
call (takes_config srv) self = set_config srv self

unfoldable pub call_all : List ServerCall → Server → Server
unfolding call
call_all [] self = self
call_all (c ∷ rest) self = call_all rest (call c self)

module _ (hosts : List (Option ℕ)) where
  -- A configuration that is taken over is in order.
  abbrev pub TakesConfigured : ServerCall → Type 0
  TakesConfigured (takes_config srv) = IsConfigured hosts srv
  TakesConfigured _ = Unit

  call-IsConfigured :
      (c : ServerCall) (self : Server)
      → TakesConfigured c
      → IsConfigured hosts self
      → IsConfigured hosts (call c self)
  unfolding call combine_screens set_arg set_config
  call-IsConfigured (adds_screen scr) self t v = add_screen-IsConfigured hosts scr self v
  call-IsConfigured (adds_module name) self t v = add_module-IsConfigured hosts name self v
  call-IsConfigured (sets_arg name value) self t v =
      with_args hosts (put name value self.server_args) self v
  call-IsConfigured (unsets_arg name) self t v = unset_arg-IsConfigured hosts name self v
  call-IsConfigured (sets_keyboard kbd) self t v = set_keyboard-IsConfigured hosts kbd self v
  call-IsConfigured (sets_mouse m) self t v = set_mouse-IsConfigured hosts m self v
  call-IsConfigured (combines b) self t v = record {
    own_index = v.own_index;
    screens_own = v.screens_own;
    options_known = v.options_known;
    modules_named = v.modules_named;
    keyboard_kind = v.keyboard_kind;
    mouse_kind = v.mouse_kind;
  }
  call-IsConfigured (sets_option name value) self t v =
      set_option-IsConfigured hosts name value self v
  call-IsConfigured (unsets_option name) self t v = unset_option-IsConfigured hosts name self v
  call-IsConfigured clears self t v = clear_config-IsConfigured hosts self v.own_index
  call-IsConfigured (takes_config srv) self t v = record {
    own_index = v.own_index;
    screens_own = t.screens_own;
    options_known = t.options_known;
    modules_named = t.modules_named;
    keyboard_kind = t.keyboard_kind;
    mouse_kind = t.mouse_kind;
  }

  call_all-IsConfigured :
      (calls : List ServerCall) (self : Server)
      → All TakesConfigured calls
      → IsConfigured hosts self
      → IsConfigured hosts (call_all calls self)
  unfolding call_all
  call_all-IsConfigured [] self t v = v
  call_all-IsConfigured (c ∷ rest) self t v =
      call_all-IsConfigured rest (call c self) t.1 (call-IsConfigured c self t.0 v)

  new_server-IsConfigured :
      (index : Option ℕ) (host : Option String) (server_type : String)
      → contains hosts index ≡ true
      → Post (IsConfigured hosts) (new_server index host server_type)
  unfolding new_server new_base
  new_server-IsConfigured index host server_type own =
      elim (Bool-cases (contains valid_server_types server_type)) [
        | inl e ↦
            rw e (
              clear_config-IsConfigured hosts (cleared (new_base index host (some server_type)))
                own)
        | inr e ↦ rw e tt
      ]

  -- From a new server, whose index is among `hosts`, every history of its setters, setConfig and those
  -- that raise included, leaves a server whose screens stand under their own numbers, have a GPU each,
  -- are attached to a server of `hosts` and are no Xinerama screens, whose options are known and have
  -- values, whose modules have names, and whose keyboard and mouse are of those classes. The conditions
  -- are that every configuration taken by setConfig is in order in the same sense, and that the screens
  -- are not changed by their own setters, nor added to other servers, after addScreen.
  pub history-IsConfigured :
      (calls : List ServerCall) (index : Option ℕ) (host : Option String) (server_type : String)
      (self : Server)
      → new_server index host server_type ≡ ok self
      → contains hosts index ≡ true
      → All TakesConfigured calls
      → IsConfigured hosts (call_all calls self)
  history-IsConfigured calls index host server_type self made own taken =
      call_all-IsConfigured calls self taken
        (rw made at (new_server-IsConfigured index host server_type own))
