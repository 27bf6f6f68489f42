-- ===== src/Server/Setters.antt =====
-- python/vsapi.py: what each setter of a Server keeps.
use vizstack.Prelude.{
  ℕ, String, true, false, not, ◌≡◌, ◌<◌, refl, sym, ap, All-append, Option, none, some, List, [],
  ◌∷◌, length, All, contains, ◌==◌, ◌!=◌, arith, inl, inr, Bool-cases, string_eq, nat_eq, option_eq,
}
use vizstack.Prelude.Dict.{Dict, All-put, All-remove, put, remove, has_key}
use vizstack.Prelude.Table.{put_key, All-put_key}
use vizstack.Resource.{Resource}
use vizstack.Screen.{Screen, get_gpus, set_server}
use vizstack.Server.{
  Server, is_keyboard, is_mouse, add_screen, add_module, set_arg, unset_arg, set_keyboard,
  set_mouse, clear_config, set_x_extension_section_option, unset_x_extension_section_option,
  all_x_extension_section_options,
}

-- What the X configuration can be written from: a screen stands under its own number, with a GPU
-- at least, is attached to one of the servers `hosts` and is no Xinerama screen; options are known and
-- have a value.
pub record IsScreenOf (hosts : List (Option ℕ)) (entry : Option ℕ × Screen) : Type 0 where
  pub own_number : entry.1.screen_number ≡ entry.0
  pub host : Option ℕ
  pub attached : entry.1.server ≡ some host
  pub known_host : contains hosts host ≡ true
  pub some_gpus : 0 < length entry.1.gpus
  pub single : entry.1.is_xinerama_screen ≡ false

abbrev pub IsOption : String × String → Type 0
IsOption option =
    (contains all_x_extension_section_options option.0 ≡ true) × (option.1 != "" ≡ true)

pub record IsConfigured (hosts : List (Option ℕ)) (self : Server) : Type 0 where
  pub own_index : contains hosts self.res_index ≡ true
  pub screens_own : All (IsScreenOf hosts) self.screens
  pub options_known : All IsOption self.x_extension_section_option
  pub modules_named : All (λ name. name != "" ≡ true) self.modules
  pub keyboard_kind : (k : Resource) → self.keyboard ≡ some k → is_keyboard k.class ≡ true
  pub mouse_kind : (m : Resource) → self.mouse ≡ some m → is_mouse m.class ≡ true

module _ (hosts : List (Option ℕ)) where
  put_screen :
      (scr : Screen) (self : Server)
      → IsConfigured hosts self
      → scr.is_xinerama_screen ≡ false
      → 0 < length scr.gpus
      → All
          (IsScreenOf hosts)
          (put_key scr.screen_number (record scr { server = some self.res_index }) self.screens)
  put_screen scr self v single gpus =
      All-put_key (IsScreenOf hosts) scr.screen_number (record scr { server = some self.res_index })
        self.screens
        (λ j same. record {
          own_number = sym same;
          host = self.res_index;
          attached = refl;
          known_host = v.own_index;
          some_gpus = gpus;
          single = single;
        })
        v.screens_own

  set_server_single :
      (server : Option (Option ℕ)) (scr : Screen)
      → scr.is_xinerama_screen ≡ false
      → (set_server server scr).1 ≡ record scr { server = server }
  unfolding set_server
  set_server_single server scr single = rw single

  pub add_screen-IsConfigured :
      (scr : Screen) (self : Server)
      → IsConfigured hosts self
      → IsConfigured hosts (add_screen scr self).1
  unfolding add_screen get_gpus
  add_screen-IsConfigured scr self v = elim (Bool-cases (self.res_type != some "normal")) [
    | inl e ↦ rw e v
    | inr e ↦ elim (Bool-cases scr.is_xinerama_screen) [
      | inl x ↦ rw (e, x) v
      | inr x ↦ elim (Bool-cases (length scr.gpus == 0)) [
        | inl z ↦ rw (e, x, z) v
        | inr z ↦
            rw (e, x, z, set_server_single (some self.res_index) scr x)
              (record {
                own_index = v.own_index;
                screens_own = put_screen scr self v x (ground arith);
                options_known = v.options_known;
                modules_named = v.modules_named;
                keyboard_kind = v.keyboard_kind;
                mouse_kind = v.mouse_kind;
              })
      ]
    ]
  ]

  pub add_module-IsConfigured :
      (name : String) (self : Server)
      → IsConfigured hosts self
      → IsConfigured hosts (add_module name self).1
  unfolding add_module
  add_module-IsConfigured name self v = elim (Bool-cases (name == "")) [
    | inl e ↦ rw e v
    | inr e ↦ elim (Bool-cases (contains self.modules name)) [
      | inl c ↦ rw (e, c) v
      | inr c ↦
          rw (e, c)
            (record {
              own_index = v.own_index;
              screens_own = v.screens_own;
              options_known = v.options_known;
              modules_named =
                  All-append (λ name. name != "" ≡ true) self.modules (name ∷ []) v.modules_named
                    (ap not e, tt);
              keyboard_kind = v.keyboard_kind;
              mouse_kind = v.mouse_kind;
            })
    ]
  ]

  pub set_keyboard-IsConfigured :
      (kbd : Option Resource) (self : Server)
      → IsConfigured hosts self
      → IsConfigured hosts (set_keyboard kbd self).1
  unfolding set_keyboard
  set_keyboard-IsConfigured none self v = record {
    own_index = v.own_index;
    screens_own = v.screens_own;
    options_known = v.options_known;
    modules_named = v.modules_named;
    keyboard_kind = λ k e. absurd cc;
    mouse_kind = v.mouse_kind;
  }
  set_keyboard-IsConfigured (some kbd) self v = elim (Bool-cases (is_keyboard kbd.class)) [
    | inr e ↦ rw e v
    | inl e ↦ rw e (record {
      own_index = v.own_index;
      screens_own = v.screens_own;
      options_known = v.options_known;
      modules_named = v.modules_named;
      keyboard_kind = λ k f. let same : kbd ≡ k = cc in rw same at e;
      mouse_kind = v.mouse_kind;
    })
  ]

  pub set_mouse-IsConfigured :
      (m : Option Resource) (self : Server)
      → IsConfigured hosts self
      → IsConfigured hosts (set_mouse m self).1
  unfolding set_mouse
  set_mouse-IsConfigured none self v = record {
    own_index = v.own_index;
    screens_own = v.screens_own;
    options_known = v.options_known;
    modules_named = v.modules_named;
    keyboard_kind = v.keyboard_kind;
    mouse_kind = λ k e. absurd cc;
  }
  set_mouse-IsConfigured (some m) self v = elim (Bool-cases (is_mouse m.class)) [
    | inr e ↦ rw e v
    | inl e ↦ rw e (record {
      own_index = v.own_index;
      screens_own = v.screens_own;
      options_known = v.options_known;
      modules_named = v.modules_named;
      keyboard_kind = v.keyboard_kind;
      mouse_kind = λ k f. let same : m ≡ k = cc in rw same at e;
    })
  ]

  -- Server arguments may be anything.
  pub with_args :
      (args : Dict (Option String)) (self : Server)
      → IsConfigured hosts self
      → IsConfigured hosts (record self { server_args = args })
  with_args args self v = record {
    own_index = v.own_index;
    screens_own = v.screens_own;
    options_known = v.options_known;
    modules_named = v.modules_named;
    keyboard_kind = v.keyboard_kind;
    mouse_kind = v.mouse_kind;
  }

  with_options :
      (options : Dict String) (self : Server)
      → IsConfigured hosts self
      → All IsOption options
      → IsConfigured hosts (record self { x_extension_section_option = options })
  with_options options self v known = record {
    own_index = v.own_index;
    screens_own = v.screens_own;
    options_known = known;
    modules_named = v.modules_named;
    keyboard_kind = v.keyboard_kind;
    mouse_kind = v.mouse_kind;
  }

  pub set_option-IsConfigured :
      (name value : String) (self : Server)
      → IsConfigured hosts self
      → IsConfigured hosts (set_x_extension_section_option name value self).1
  unfolding set_x_extension_section_option
  set_option-IsConfigured name value self v = elim (Bool-cases (name == "")) [
    | inl e ↦ rw e v
    | inr e ↦ elim (Bool-cases (value == "")) [
      | inl f ↦ rw (e, f) v
      | inr f ↦ elim (Bool-cases (contains all_x_extension_section_options name)) [
        | inr g ↦ rw (e, f, g) v
        | inl g ↦
            rw (e, f, g)
              (with_options (put name value self.x_extension_section_option) self v (
                All-put IsOption name value self.x_extension_section_option
                  (λ j same. (rw same g, ap not f)) v.options_known))
      ]
    ]
  ]

  pub unset_option-IsConfigured :
      (name : String) (self : Server)
      → IsConfigured hosts self
      → IsConfigured hosts (unset_x_extension_section_option name self).1
  unfolding unset_x_extension_section_option
  unset_option-IsConfigured name self v = elim (Bool-cases (name == "")) [
    | inl e ↦ rw e v
    | inr e ↦ elim (Bool-cases (has_key name self.x_extension_section_option)) [
      | inr f ↦ rw (e, f) v
      | inl f ↦
          rw (e, f)
            (with_options (remove name self.x_extension_section_option) self v
              (All-remove IsOption name self.x_extension_section_option v.options_known))
    ]
  ]

  pub unset_arg-IsConfigured :
      (name : String) (self : Server)
      → IsConfigured hosts self
      → IsConfigured hosts (unset_arg name self).1
  unfolding unset_arg
  unset_arg-IsConfigured name self v = elim (Bool-cases (has_key name self.server_args)) [
    | inl e ↦ rw e (with_args (remove name self.server_args) self v)
    | inr e ↦ rw e v
  ]

  pub clear_config-IsConfigured :
      (self : Server)
      → contains hosts self.res_index ≡ true
      → IsConfigured hosts (clear_config self).1
  unfolding clear_config set_x_extension_section_option set_arg put
  clear_config-IsConfigured self own = record {
    own_index = own;
    screens_own = tt;
    options_known = ((refl, refl), tt);
    modules_named = tt;
    keyboard_kind = λ k e. absurd cc;
    mouse_kind = λ m e. absurd cc;
  }
