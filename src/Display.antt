-- ===== src/Display.antt =====
-- python/vsapi.py: DisplayDevice, the modes of a display device and the choice among them. Refresh
-- rates are natural numbers (thousandths of a hertz, say), only their order matters.
pub mod BestMode
use vizstack.Prelude.{
  ℕ, ◌%◌, String, Bool, true, false, not, ◌||◌, Option, none, some, List, [], ◌∷◌, ◌++◌, length,
  ltb, get_elem?, contains, ◌==◌, ◌!=◌, nat_eq, string_eq, if◌then◌else◌,
}
use vizstack.Errors.{Result, ok, raise, and_then, value_error, index_error, Statement}

-- A mode; the alias is its name.
pub record Mode : Type 0 where
  pub mode_type : String
  pub alias : String
  pub width : ℕ
  pub height : ℕ
  pub refresh : ℕ
  pub value : Option String

pub record DisplayDevice : Type 0 where
  pub res_type : Option String
  pub input : Option String
  pub default_mode : Option String
  pub modes : List Mode

-- GPU.ScanTypes
abbrev pub scan_types : List String
scan_types = "digital" ∷ "analog" ∷ []

unfoldable pub is_valid : DisplayDevice → Bool
is_valid self = elim self.res_type [
  | none ↦ false
  | some _ ↦
      if length self.modes == 0
      then false
      else elim self.default_mode [ none ↦ false | some _ ↦ true ]
]

-- The loop of getModeByAlias and getDefaultMode.
unfoldable pub mode_by_alias : String → List Mode → Result Mode
mode_by_alias alias [] = raise value_error
mode_by_alias alias (m ∷ rest) = if alias == m.alias then ok m else mode_by_alias alias rest

abbrev pub get_mode_by_alias : DisplayDevice → String → Result Mode
get_mode_by_alias self alias = mode_by_alias alias self.modes

abbrev pub get_default_mode : DisplayDevice → Result Mode
get_default_mode self = elim self.default_mode [
  | none ↦ raise value_error
  | some alias ↦ mode_by_alias alias self.modes
]

-- bestRefreshRate and bestMatchingMode, which are set together.
abbrev pub best_refresh_rate : Option Mode → ℕ
best_refresh_rate none = 0
best_refresh_rate (some m) = m.refresh

-- The loop of findBestMatchingMode. With three search parameters the source reads searchParams[3],
-- which is out of range.
unfoldable pub search_modes : List ℕ → ℕ → ℕ → Option Mode → List Mode → Result (Option Mode)
search_modes params w h best [] = ok best
search_modes params w h best (m ∷ rest) =
    let skipped = search_modes params w h best rest in
    let taken = search_modes params w h (some m) rest in
    if (m.width != w) || (m.height != h)
    then skipped
    else if length params == 3
    then raise index_error
    else if ltb (best_refresh_rate best) m.refresh
    then taken
    else skipped

unfoldable pub find_best_matching_mode : DisplayDevice → List ℕ → Result Mode
find_best_matching_mode self (w ∷ h ∷ more) =
    if ltb 1 (length more)
    then raise value_error
    else and_then (search_modes (w ∷ h ∷ more) w h none self.modes)
        λ best. elim best [ none ↦ raise value_error | some m ↦ ok m ]
find_best_matching_mode self (w ∷ []) = raise value_error
find_best_matching_mode self [] = raise value_error

unfoldable pub add_mode : Mode → Statement DisplayDevice (Unit {0})
add_mode m self =
    if m.width % 8 != 0
    then (raise value_error, self)
    else (ok tt, record self { modes = self.modes ++ m ∷ [] })

unfoldable pub set_input : String → Statement DisplayDevice (Unit {0})
set_input input self =
    if not (contains scan_types input)
    then (raise value_error, self)
    else (ok tt, record self { input = some input })

-- What a scanout shows its picture on: a device, or the name of one that the server knows.
pub data DisplayArg : Type 0 where
  device : DisplayDevice → DisplayArg
  named : String → DisplayArg
