-- ===== src/Screen.antt =====
-- python/vsapi.py: Screen, a framebuffer of an X server: its number, its GPUs and its properties.
pub mod Valid
pub mod Rotation
mod Samples
use Prim.Native.String.{◌++◌ as append}
use vizstack.Prelude.{
  ℕ, String, Bool, true, false, not, ◌||◌, Option, none, some, List, [], ◌∷◌, ◌++◌, length, ltb,
  contains, ◌==◌, nat_eq, string_eq, if◌then◌else◌,
}
use vizstack.Prelude.Int.{ℤ, pos, negsuc}
use vizstack.Prelude.Decimal.{decimal}
use vizstack.Errors.{
  Result, ok, raise, and_then, key_of, value_error, type_error, viz_error, bad_operation,
  bad_configuration, Statement,
}
use vizstack.Resource.{GpuFields, Resource}

-- self.properties; a key that is not there is none. Positions and resolutions are pairs.
pub record Properties : Type 0 where
  pub position : Option (ℕ × ℕ)
  pub resolution : Option (ℕ × ℕ)
  pub stereo : Option String
  pub rotate : Option String

-- The server is known by its index. GPUs are resources of the class GPU, the combiner one of SLI.
pub record Screen : Type 0 where
  pub screen_number : Option ℕ
  pub server : Option (Option ℕ)
  pub gpus : List Resource
  pub properties : Properties
  pub is_xinerama_screen : Bool
  pub gpu_combiner : Option Resource

abbrev pub no_properties : Properties
no_properties = record { position = none; resolution = none; stereo = none; rotate = none }

-- Screen.__init__
unfoldable pub new_screen : Option ℕ → Option (Option ℕ) → Screen
new_screen screen_number server = record {
  screen_number = screen_number;
  server = server;
  gpus = [];
  properties = no_properties;
  is_xinerama_screen = false;
  gpu_combiner = none;
}

unfoldable pub create_xinerama_screen : Option (Option ℕ) → ℕ × ℕ → Option String → Screen
create_xinerama_screen server resolution stereo_mode = record {
  screen_number = some 0;
  server = server;
  gpus = [];
  properties = record {
    position = some (0, 0);
    resolution = some resolution;
    stereo = stereo_mode;
    rotate = none;
  };
  is_xinerama_screen = true;
  gpu_combiner = none;
}

-- ":%d.%d"; a server without an index cannot be printed.
unfoldable pub get_display : Screen → Result String
get_display self = elim self.screen_number [
  | none ↦ raise (viz_error bad_configuration)
  | some screen ↦ elim self.server [
    | none ↦ raise (viz_error bad_configuration)
    | some index ↦
        if not self.is_xinerama_screen
        then (if length self.gpus == 0
            then raise (viz_error bad_configuration)
            else print index screen)
        else print index screen
  ]
]
  where
    print : Option ℕ → ℕ → Result String
    print none screen = raise type_error
    print (some index) screen =
        ok (append ":" (append (decimal index) (append "." (decimal screen))))

unfoldable pub set_server : Option (Option ℕ) → Statement Screen (Unit {0})
set_server server self =
    if self.is_xinerama_screen
    then (raise (viz_error bad_operation), self)
    else (ok tt, record self { server = server })

unfoldable pub set_gpu : Option Resource → Statement Screen (Unit {0})
set_gpu gpu self =
    if self.is_xinerama_screen then (raise (viz_error bad_operation), self) else elim gpu [
      | none ↦ (raise value_error, self)
      | some g ↦ (ok tt, record self { gpus = g ∷ [] })
    ]

unfoldable pub set_gpus : List Resource → Statement Screen (Unit {0})
set_gpus gpu_list self =
    if self.is_xinerama_screen
    then (raise (viz_error bad_operation), self)
    else if ltb 2 (length gpu_list)
    then (raise value_error, self)
    else (ok tt, record self { gpus = gpu_list })

unfoldable pub get_gpus : Screen → Result (List Resource)
get_gpus self = if self.is_xinerama_screen then raise (viz_error bad_operation) else ok self.gpus

unfoldable pub get_used_resources : Screen → List Resource
get_used_resources self = elim self.gpu_combiner [
  | none ↦ self.gpus
  | some combiner ↦ self.gpus ++ combiner ∷ []
]

-- The keys of Screen.stereoModes and Screen.rotationModes.
abbrev pub stereo_modes : List String
stereo_modes = "none" ∷ "active" ∷ "passive" ∷ "SeeReal_stereo_dfp" ∷ "Sharp3D_stereo_dfp" ∷ []

abbrev pub rotation_modes : List String
rotation_modes = "none" ∷ "portrait" ∷ "inverted_portrait" ∷ "inverted_landscape" ∷ []

-- An argument of setFBProperty: the name with a value of the type that it takes.
pub data FbProperty : Type 0 where
  resolution : ℤ → ℤ → FbProperty
  position : ℤ → ℤ → FbProperty
  stereo rotate : String → FbProperty
  unknown : String → FbProperty

-- The checks of setFBProperty, and the entry.
unfoldable pub enter : FbProperty → Properties → Result Properties
enter (FbProperty.resolution (pos w) (pos h)) p =
    if ltb w 304 || ltb 8192 w || ltb h 200 || ltb 8192 h
    then raise value_error
    else ok (record p { resolution = some (w, h) })
enter (FbProperty.resolution _ _) p = raise value_error
enter (FbProperty.position (pos x) (pos y)) p = ok (record p { position = some (x, y) })
enter (FbProperty.position _ _) p = raise value_error
enter (FbProperty.stereo value) p =
    if not (contains stereo_modes value)
    then raise value_error
    else ok (record p { stereo = some value })
enter (FbProperty.rotate value) p =
    if not (contains rotation_modes value)
    then raise value_error
    else ok (record p { rotate = some value })
enter (FbProperty.unknown name) p = raise value_error

unfoldable pub set_fb_property : FbProperty → Statement Screen (Unit {0})
set_fb_property property self =
    if self.is_xinerama_screen
    then (raise (viz_error bad_operation), self)
    else elim (enter property self.properties) [
      | raise e ↦ (raise e, self)
      | ok p ↦ (ok tt, record self { properties = p })
    ]

-- getFBProperty('resolution'). Any exception on the way, also that there is no rotation, leads to
-- the resolution as it was set.
unfoldable pub get_resolution : Screen → Result (ℕ × ℕ)
get_resolution self = and_then (key_of self.properties.resolution) λ (w, h).
    elim self.properties.rotate [
      | none ↦ ok (w, h)
      | some prop ↦
          if prop == "none"
          then ok (w, h)
          else if prop == "portrait"
          then ok (h, w)
          else if prop == "inverted_portrait"
          then ok (h, w)
          else ok (w, h)
    ]

unfoldable pub set_screen_number : Option ℤ → Statement Screen (Unit {0})
set_screen_number none self = (ok tt, record self { screen_number = none })
set_screen_number (some (pos n)) self = (ok tt, record self { screen_number = some n })
set_screen_number (some (negsuc n)) self = (raise value_error, self)
