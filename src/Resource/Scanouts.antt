-- ===== src/Resource/Scanouts.antt =====
-- python/vsapi.py: the scanouts of a GPU (addScanoutCap, setScanout, clearScanout). Ports are
-- natural numbers once they are checked; positions and sizes come in as integers.
pub mod Framebuffer
mod Samples
use vizstack.Prelude.{
  ℕ, ◌+◌, String, Bool, true, false, not, ◌&&◌, Option, none, some, List, [], ◌∷◌, ◌++◌, length,
  ltb, leb, contains, ◌==◌, nat_eq, string_eq, bool_eq, option_eq, if◌then◌else◌,
}
use vizstack.Prelude.Int.{ℤ, pos, negsuc}
use vizstack.Errors.{
  Result, ok, raise, Exception, and_then, key_of, value_error, viz_error, Statement,
}
use vizstack.Display.{
  Mode, DisplayDevice, DisplayArg, device, named, is_valid, get_mode_by_alias, get_default_mode,
  scan_types,
}
use vizstack.Resource.{GpuFields, Scanout}

-- A dictionary by port.
abbrev pub Ports {ℓ} : Type ℓ → Type ℓ
Ports V = List (ℕ × V)

module _ {ℓ} {V : Type ℓ} where
  abbrev pub at_port : ℕ → Ports V → Option V
  at_port port [] = none
  at_port port ((p, v) ∷ rest) = if p == port then some v else at_port port rest

  abbrev pub put_port : ℕ → V → Ports V → Ports V
  put_port port v [] = (port, v) ∷ []
  put_port port v ((p, w) ∷ rest) =
      if p == port then (p, v) ∷ rest else (p, w) ∷ put_port port v rest

  abbrev pub without_port : ℕ → Ports V → Ports V
  without_port port [] = []
  without_port port ((p, v) ∷ rest) = if p == port then rest else (p, v) ∷ without_port port rest

  -- d.pop(port)
  abbrev pub pop_port : ℕ → Ports V → Result (Ports V)
  pop_port port d = and_then (key_of (at_port port d)) (λ _. ok (without_port port d))

abbrev pub caps_of : Option (Ports (List String)) → Ports (List String)
caps_of none = []
caps_of (some caps) = caps

abbrev pub types_of : Option (List String) → List String
types_of none = []
types_of (some types) = types

-- The port is entered before the type is checked.
unfoldable pub add_scanout_cap : ℕ → String → Statement GpuFields (Unit {0})
add_scanout_cap port output_type self =
    let caps = caps_of self.scanout_caps in
    let types = types_of (at_port port caps) in
    if not (contains scan_types output_type)
    then (raise value_error, record self { scanout_caps = some (put_port port types caps) })
    else (
      ok tt,
      record self { scanout_caps = some (put_port port (types ++ output_type ∷ []) caps) },
    )

-- The arguments of setScanout.
pub record ScanoutArgs : Type 0 where
  pub port_index : ℤ
  pub display_device : DisplayArg
  pub scan_type : Option String
  pub mode : Option String
  pub output_x : ℤ
  pub output_y : ℤ
  pub output_width : Option ℤ
  pub output_height : Option ℤ

-- A number that must not be negative.
abbrev pub natural : ℤ → Result ℕ
natural (pos n) = ok n
natural (negsuc n) = raise value_error

abbrev pub exceeds : ℕ → Option ℕ → Bool
exceeds n none = false
exceeds n (some max) = ltb max n

unfoldable pub check_port : GpuFields → ℤ → Result ℕ
check_port self port_index = and_then (natural port_index) λ port.
    if self.use_scan_out == some false then raise value_error else elim self.scanout_caps [
      | none ↦ ok port
      | some caps ↦ if leb (length caps) port then raise value_error else ok port
    ]

unfoldable pub check_position : Option ℕ → ℤ → Result ℕ
check_position max output =
    and_then (natural output) λ x. if exceeds x max then raise value_error else ok x

unfoldable pub check_scan_type : GpuFields → ℕ → Option String → Result (Unit {0})
check_scan_type self port none = ok tt
check_scan_type self port (some scan_type) =
    if not (contains scan_types scan_type) then raise value_error else elim self.scanout_caps [
      | none ↦ ok tt
      | some caps ↦
          and_then (key_of (at_port port caps))
            λ types. if contains types scan_type then ok tt else raise value_error
    ]

-- self.ra, as far as setScanout uses it: getTemplates(DisplayDevice(name))[0]
abbrev pub Access : Type 0
Access = Option (String → Result DisplayDevice)

-- A VizError turns into a ValueError.
abbrev pub as_value_error : Result DisplayDevice → Result DisplayDevice
as_value_error (ok d) = ok d
as_value_error (raise (viz_error code)) = raise value_error
as_value_error (raise e) = raise e

unfoldable pub valid_display : Access → DisplayArg → Result (Option DisplayDevice)
valid_display ra (device d) = if is_valid d then ok (some d) else raise value_error
valid_display none (named name) = ok none
valid_display (some get) (named name) = and_then (as_value_error (get name)) (λ d. ok (some d))

-- modeDetails
unfoldable pub mode_details : Option DisplayDevice → Option String → Result (Option Mode)
mode_details none mode = ok none
mode_details (some d) none = and_then (get_default_mode d) (λ m. ok (some m))
mode_details (some d) (some alias) = and_then (get_mode_by_alias d alias) (λ m. ok (some m))

-- The size that is asked for: at least that of the mode, positive, and not too high; or the mode's.
unfoldable pub check_size : Option ℕ → Option ℕ → Option ℤ → Result (Option ℕ)
check_size max least none = ok least
check_size max least (some size) = and_then (natural size) λ n.
    if n == 0
    then raise value_error
    else if elim least [ none ↦ false | some l ↦ ltb n l ]
    then raise value_error
    else if exceeds n max
    then raise value_error
    else ok (some n)

unfoldable pub check_extent : Option ℕ → ℕ → Option ℕ → Result (Unit {0})
check_extent max x none = ok tt
check_extent max x (some size) = if exceeds (x + size) max then raise value_error else ok tt

abbrev pub mode_width : Option Mode → Option ℕ
mode_width none = none
mode_width (some m) = some (m.width)

abbrev pub mode_height : Option Mode → Option ℕ
mode_height none = none
mode_height (some m) = some (m.height)

-- outputWidth, where it is given
abbrev pub given {ℓ} : {A : Type ℓ} → Option A → Option ℕ → Option ℕ
given none size = none
given (some _) size = size

-- setScanout, up to the entry
unfoldable pub plan_scanout : Access → GpuFields → ScanoutArgs → Result (ℕ × Scanout)
plan_scanout ra self args = and_then (check_port self args.port_index) λ port.
    and_then (check_position self.max_width args.output_x) λ x.
      and_then (check_position self.max_height args.output_y) λ y.
        and_then (check_scan_type self port args.scan_type) λ _.
          and_then (valid_display ra args.display_device) λ display.
            and_then (mode_details display args.mode) λ details.
              and_then (check_size self.max_width (mode_width details) args.output_width) λ w.
                and_then (check_size self.max_height (mode_height details) args.output_height) λ h.
                  and_then (check_extent self.max_width x w) λ _.
                    and_then (check_extent self.max_height y h) λ _. ok (
                      port,
                      record {
                        display_device = args.display_device;
                        scan_type = args.scan_type;
                        mode = args.mode;
                        area_x = x;
                        area_y = y;
                        area_width = given args.output_width w;
                        area_height = given args.output_height h;
                      },
                    )

-- GPU.setScanout
unfoldable pub set_scanout : Access → ScanoutArgs → Statement GpuFields (Unit {0})
set_scanout ra args self = elim (plan_scanout ra self args) [
  | raise e ↦ (raise e, self)
  | ok (port, s) ↦ (ok tt, record self { scanout = put_port port s self.scanout })
]

unfoldable pub clear_scanouts : Statement GpuFields (Unit {0})
clear_scanouts self = (ok tt, record self { scanout = [] })

unfoldable pub clear_scanout : ℕ → Statement GpuFields (Unit {0})
clear_scanout port self = elim (pop_port port self.scanout) [
  | raise e ↦ (raise e, self)
  | ok rest ↦ (ok tt, record self { scanout = rest })
]
