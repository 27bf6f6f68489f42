-- ===== src/Server/Samples.antt =====
-- A server with three screens, and the theorems at it.
use mathlib.Core.List.{Permᴰ}
use vizstack.Prelude.{
  ℕ, ◌≡◌, ◌↔◌, refl, String, true, false, Option, none, some, List, [], ◌∷◌, map, nat_eq, option_eq,
}
use vizstack.Prelude.Int.{pos}
use vizstack.Errors.{ok}
use vizstack.Resource.{VizResource}
use vizstack.Prelude.Dict.{put, remove, lookup}
use vizstack.Prelude.Sorting.{sort_by}
use vizstack.Resource.Samples.{any_gpu}
use vizstack.Screen.{Screen, new_screen, get_gpus, get_resolution, set_server}
use vizstack.Server.{
  Server, add_module, set_arg, set_x_extension_section_option, unset_x_extension_section_option,
  new_server, add_screen, combine_screens, get_screens, get_screen, get_combined_screen,
}
use vizstack.Server.Setters.{IsConfigured}
use vizstack.Server.Calls.{
  ServerCall, adds_screen, takes_config, adds_module, sets_arg, sets_option, unsets_option,
  combines, call_all, history-IsConfigured,
}
use vizstack.Server.Screens.{get_screen-add_screen, get_screens_lem, IsByNumber}
use vizstack.Server.Combined.{right, down, IsLeastOver, HaveOneMode, get_combined_screen_lem}

abbrev screen_at : ℕ → ℕ → Option String → Screen
screen_at number x stereo = record {
  screen_number = some number;
  server = none;
  gpus = any_gpu false ∷ [];
  properties = record {
    position = some (x, 0);
    resolution = some (1280, 1024);
    stereo = stereo;
    rotate = none;
  };
  is_xinerama_screen = false;
  gpu_combiner = none;
}

abbrev calls : List ServerCall
calls =
    adds_screen (screen_at 1 1280 (some "active"))
    ∷ adds_screen (screen_at 0 0 none)
    ∷ adds_screen (new_screen (some 2) none)
    ∷ adds_module "glx"
    ∷ sets_option "DPMS" "off"
    ∷ unsets_option "Composite"
    ∷ sets_arg "-br" none
    ∷ combines true
    ∷ []

abbrev fresh : Server
fresh = record {
  base = base_of;
  modules = [];
  keyboard = none;
  mouse = none;
  screens = [];
  combine_fbs = false;
  x_extension_section_option = ("Composite", "Disable") ∷ [];
  server_args = ("-dpms", none) ∷ ("-s", some "off") ∷ ("-nolisten", some "tcp") ∷ [];
}
  where
    base_of : VizResource
    base_of = record {
      res_index = some 0;
      host_name = some "node1";
      res_type = some "normal";
      owners = [];
      shared = false;
      max_share_count = 1;
      allocation_bias = pos 0;
    }

fresh_made : new_server (some 0) (some "node1") "normal" ≡ ok fresh
unfolding new_server put
fresh_made = refl

-- Another server with a screen, and its configuration taken over at the end.
abbrev hosts : List (Option ℕ)
hosts = some 0 ∷ some 1 ∷ []

abbrev other : Server
other = record fresh { base = record (fresh.base) { res_index = some 1 } }

abbrev other_calls : List ServerCall
other_calls = adds_screen (screen_at 0 0 none) ∷ []

other-IsConfigured : IsConfigured hosts (call_all other_calls other)
unfolding new_server put
other-IsConfigured =
    history-IsConfigured hosts other_calls (some 1) (some "node1") "normal" other refl refl (tt, tt)

abbrev all_calls : List ServerCall
all_calls = adds_screen (screen_at 1 1280 none) ∷ takes_config (call_all other_calls other) ∷ []

history-IsConfigured_example : IsConfigured hosts (call_all all_calls fresh)
history-IsConfigured_example =
    history-IsConfigured hosts all_calls (some 0) (some "node1") "normal" fresh fresh_made refl
      (tt, (other-IsConfigured, tt))

abbrev with_two : Server
with_two = record fresh {
  screens =
      (some 1, record (screen_at 1 1280 (some "active")) { server = some (some 0) })
      ∷ (some 0, record (screen_at 0 0 none) { server = some (some 0) })
      ∷ [];
  combine_fbs = true;
}

-- The server as the calls leave it, but for what refused and undone calls do.
screens_test : (call_all calls fresh).screens ≡ with_two.screens
unfolding call_all add_screen get_gpus set_server new_screen add_module set_arg
    unset_x_extension_section_option set_x_extension_section_option combine_screens put remove
    lookup
screens_test = refl

abbrev combined : Screen
combined = record {
  screen_number = some 0;
  server = some (some 0);
  gpus = [];
  properties = record {
    position = some (0, 0);
    resolution = some (2560, 1280);
    stereo = some "active";
    rotate = none;
  };
  is_xinerama_screen = true;
  gpu_combiner = none;
}

-- Two screens of 1280 by 1024, side by side: the height is 1280.
combined_test : get_combined_screen with_two ≡ ok combined
unfolding get_combined_screen sort_by get_resolution
combined_test = refl

get_combined_screen_lem_example :
    (w : ℕ) × (h : ℕ) × (combined.properties.resolution ≡ some (w, h))
    × IsLeastOver right (get_screens with_two) w
    × IsLeastOver down (get_screens with_two) h
    × ((mode : String)
        → (combined.properties.stereo ≡ some mode) ↔ HaveOneMode mode (get_screens with_two))
get_combined_screen_lem_example = get_combined_screen_lem with_two combined combined_test

get_screens_lem_example :
    (entries : List (Option ℕ × Screen)) × (get_screens with_two ≡ map (λ entry. entry.1) entries)
    × Permᴰ with_two.screens entries
    × IsByNumber entries
get_screens_lem_example = get_screens_lem with_two

abbrev with_one : Server
with_one = record fresh {
  screens = (some 1, record (screen_at 1 1280 none) { server = some (some 0) }) ∷ [];
}

added_test : add_screen (screen_at 1 1280 none) fresh ≡ (ok tt, with_one)
unfolding add_screen get_gpus set_server
added_test = refl

get_screen-add_screen_example :
    get_screen (some 1) with_one ≡ ok (set_server (some (some 0)) (screen_at 1 1280 none)).1
get_screen-add_screen_example =
    get_screen-add_screen (screen_at 1 1280 none) fresh with_one (some 1) added_test
