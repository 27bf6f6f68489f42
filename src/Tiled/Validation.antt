-- ===== src/Tiled/Validation.antt =====
-- python/vsapi.py: TiledDisplay.doValidate, whether the parameters fit together and fit the
-- resources of the group and the display devices.
pub mod Checks
pub mod Ports
pub mod Sound
pub mod Groups
pub mod Samples
use vizstack.Prelude.{
  ℕ, zero, suc, ◌+◌, ◌*◌, ◌/◌, ◌%◌, String, Bool, true, false, not, ◌||◌, ◌&&◌, Option, none, some,
  List, [], ◌∷◌, ltb, nat_beq, contains, filter, any, length, ◌==◌, ◌!=◌, nat_eq, string_eq,
  option_eq, if◌then◌else◌,
}
use vizstack.Prelude.Int.{ℤ, pos, negsuc}
use vizstack.Errors.{
  Exception, Result, ok, raise, and_then, value_error, type_error, name_error, index_error,
  viz_error,
}
use vizstack.Display.{
  DisplayDevice, Mode, get_mode_by_alias, get_default_mode, find_best_matching_mode,
}
use vizstack.Resource.{Resource, Class, gpu, sli, server, keyboard, mouse}
use vizstack.Screen.{stereo_modes, rotation_modes}
use vizstack.Server.{is_keyboard, is_mouse}
use vizstack.Tiled.{TiledDisplay, DisplayMode, alias, search_params}

-- `raise ValueError` under a condition.
abbrev pub refuse_if : Bool → Result (Unit {0})
refuse_if refused = if refused then raise value_error else ok tt

abbrev pub valid_block_types : List String
valid_block_types = "gpu" ∷ "quadroplex" ∷ []

unfoldable pub check_rotate : Option String → Result (Unit {0})
check_rotate none = ok tt
check_rotate (some mode) = refuse_if (not (contains rotation_modes mode))

unfoldable pub check_block_type : Option String → Result String
check_block_type none = raise value_error
check_block_type (some type) =
    if contains valid_block_types type then ok type else raise value_error

-- A list of two positive integers.
unfoldable pub check_pair : Option (List ℤ) → Result (ℕ × ℕ)
check_pair (some (pos (suc a) ∷ pos (suc b) ∷ [])) = ok (suc a, suc b)
check_pair _ = raise value_error

-- For a QuadroPlex the test reads num_blocks where the message speaks of group_blocks.
unfoldable pub check_group : Option (List ℤ) → ℕ × ℕ → String → Result (Unit {0})
unfolding check_pair
check_group none num block_type = ok tt
check_group (some l) num block_type = and_then (check_pair (some l)) λ group.
    if num.0 % group.0 != 0 || num.1 % group.1 != 0
    then raise value_error
    else refuse_if (block_type == "quadroplex" && (num.0 * num.1 != 1))

unfoldable pub check_displays : String → ℕ × ℕ → Result (Unit {0})
check_displays block_type layout =
    let displays = layout.0 * layout.1 in
    if block_type == "gpu"
    then refuse_if (ltb displays 1 || ltb 2 displays)
    else refuse_if (ltb displays 2 || ltb 4 displays)

unfoldable pub check_stereo : Option String → ℕ × ℕ → String → Result (Unit {0})
check_stereo none layout block_type = ok tt
check_stereo (some mode) layout block_type =
    if not (contains stereo_modes mode)
    then raise value_error
    else refuse_if
        (mode == "passive" && (layout.0 != 1 || layout.1 != 1 || block_type == "quadroplex"))

-- The ports, and the keys of repeatUsage.
unfoldable pub check_ports : List ℤ → Result (List ℕ)
check_ports [] = ok []
check_ports (negsuc n ∷ rest) = raise value_error
check_ports (pos n ∷ rest) = and_then (check_ports rest) (λ ports. ok (n ∷ ports))

unfoldable pub used_ports : List ℕ → List ℕ
used_ports [] = []
used_ports (n ∷ rest) = let used = used_ports rest in if contains used n then used else n ∷ used

abbrev pub output_count : String → ℕ × ℕ → ℕ
output_count block_type layout =
    if block_type == "gpu" then layout.0 * layout.1 else (layout.0 * layout.1 + 1) / 2

unfoldable pub check_remap : Option (List ℤ) → Option String → String → ℕ × ℕ → Result (Unit {0})
unfolding check_ports used_ports
check_remap none stereo block_type layout = ok tt
check_remap (some remap) stereo block_type layout =
    if stereo == some "passive" && (length remap != 2)
    then raise value_error
    else if length remap != output_count block_type layout
    then raise value_error
    else and_then (check_ports remap)
        (λ ports. refuse_if (length (used_ports ports) != length ports))

-- One element of clip_last_block: none, or between one and the size of the block.
abbrev pub clip_misfits : Option ℤ → ℕ → Bool
clip_misfits none size = false
clip_misfits (some (negsuc n)) size = true
clip_misfits (some (pos n)) size = ltb n 1 || ltb size n

unfoldable pub check_clip : Option (List (Option ℤ)) → ℕ × ℕ → Result (Unit {0})
check_clip none layout = ok tt
check_clip (some (a ∷ b ∷ [])) layout =
    refuse_if (clip_misfits a layout.0 || clip_misfits b layout.1)
check_clip (some _) layout = raise value_error

-- What the checks of the parameters found: the blocks of the wall, the tiles of a block.
pub record Wall : Type 0 where
  pub kind : String
  pub blocks : ℕ × ℕ
  pub layout : ℕ × ℕ

unfoldable pub check_params : TiledDisplay → Result Wall
check_params self = and_then (check_rotate self.rotate) λ _.
    and_then (check_block_type self.block_type) λ kind.
      and_then (check_pair self.num_blocks) λ blocks.
        and_then (check_group self.group_blocks blocks kind) λ _.
          and_then (check_pair self.block_display_layout) λ layout.
            and_then (check_displays kind layout) λ _.
              and_then (check_stereo self.stereo_mode layout kind) λ _.
                and_then (check_remap self.remap_display_outputs self.stereo_mode kind layout) λ _.
                  and_then (check_clip self.clip_last_block layout)
                    λ _. ok (record { kind = kind; blocks = blocks; layout = layout })

abbrev pub is_gpu : Class → Bool
is_gpu (gpu fields) = true
is_gpu _ = false

abbrev pub is_sli : Class → Bool
is_sli sli = true
is_sli _ = false

abbrev pub is_server : Class → Bool
is_server server = true
is_server _ = false

-- extractObjects on a list of resources.
abbrev pub extract_objects : (Class → Bool) → List Resource → List Resource
extract_objects kind = filter (λ r. kind r.class)

abbrev pub is_normal_server : Resource → Bool
is_normal_server s = s.res_type == none || s.res_type == some "normal"

-- One list of resources, for one X server, and the servers in it; the result is how many GPUs there
-- are.
unfoldable pub check_with : List Resource → String → List Resource → Result ℕ
check_with [] kind inner = raise value_error
check_with (s ∷ _) kind inner =
    let gpus = length (extract_objects is_gpu inner) in
    if not (is_normal_server s)
    then raise value_error
    else if ltb 1 (length (extract_objects is_keyboard inner))
    then raise value_error
    else if ltb 1 (length (extract_objects is_mouse inner))
    then raise value_error
    else if gpus == 0
    then raise value_error
    else if kind == "quadroplex" && (gpus != 2 || length (extract_objects is_sli inner) != 1)
    then raise value_error
    else ok gpus

unfoldable pub check_reslist : String → List Resource → Result ℕ
unfolding check_with
check_reslist kind inner = check_with (extract_objects is_server inner) kind inner

unfoldable pub check_reslists : String → List (List Resource) → Result (List ℕ)
unfolding check_reslist
check_reslists kind [] = ok []
check_reslists kind (inner ∷ rest) =
    and_then (check_reslist kind inner)
      λ gpus. and_then (check_reslists kind rest) λ others. ok (gpus ∷ others)

abbrev pub sum : List ℕ → ℕ
sum [] = 0
sum (n ∷ rest) = n + sum rest

-- combine_displays: all lists drive a whole group. Without group_blocks, reading it raises TypeError.
unfoldable pub check_groups : Option (List ℤ) → List ℕ → Result (Unit {0})
unfolding check_pair
check_groups group [] = raise index_error
check_groups group (gpus ∷ rest) =
    if any (λ other. other != gpus) rest then raise value_error else elim group [
      | none ↦ raise type_error
      | some l ↦ and_then (check_pair (some l)) (λ g. refuse_if (gpus != g.0 * g.1))
    ]

unfoldable pub check_resources : TiledDisplay → Wall → List (List Resource) → Result (List ℕ)
unfolding check_reslists check_groups
check_resources self wall resources = and_then (check_reslists wall.kind resources) λ gpus.
    let blocks = wall.blocks.0 * wall.blocks.1 in
    let expected = if wall.kind == "quadroplex" then blocks * 2 else blocks in
    if sum gpus != expected
    then raise value_error
    else if self.combine_displays
    then and_then (check_groups self.group_blocks gpus) (λ _. ok gpus)
    else ok gpus

unfoldable pub check_device : Option String → Result String
check_device none = raise value_error
check_device (some name) = if name == "" then raise value_error else ok name

unfoldable pub match_device : String → List DisplayDevice → Result DisplayDevice
match_device name candidates =
    elim (filter (λ (d : DisplayDevice). d.res_type == some name) candidates) [
      | [] ↦ raise value_error
      | d ∷ [] ↦ ok d
      | _ ∷ _ ∷ _ ↦ raise value_error
    ]

unfoldable pub match_mode : Option DisplayMode → DisplayDevice → Result Mode
match_mode none d = get_default_mode d
match_mode (some (alias a)) d = if a == "" then raise value_error else get_mode_by_alias d a
match_mode (some (search_params params)) d = find_best_matching_mode d params

unfoldable pub check_tile : Option (ℕ × ℕ) → Mode → Result (Unit {0})
check_tile none m = ok tt
check_tile (some tile) m = refuse_if (ltb tile.0 m.width || ltb tile.1 m.height)

-- What getTemplates raises as VizError is raised as ValueError.
abbrev pub templates : Result (List DisplayDevice) → Result (List DisplayDevice)
templates (raise (viz_error code)) = raise value_error
templates r = r

-- The last part of doValidate: matchedDD and matchedMode. `candidates` are the display devices to
-- validate against, if there are any.
unfoldable pub check_display :
    Option (Result (List DisplayDevice)) → TiledDisplay → Result (Option (DisplayDevice × Mode))
unfolding check_device match_device match_mode check_tile
check_display none self = and_then (check_device self.display_device) (λ name. ok none)
check_display (some source) self = and_then (check_device self.display_device) λ name.
    and_then (templates source) λ devices. and_then (match_device name devices) λ d.
      and_then (match_mode self.display_mode d)
        λ m. and_then (check_tile self.tile_resolution m) λ _. ok (some (d, m))

-- What doValidate finds out, in place of the attributes that it sets.
pub record Validated : Type 0 where
  pub wall : Wall
  pub gpus : List ℕ
  pub matched : Option (DisplayDevice × Mode)

unfoldable pub do_validate :
    Option (Result (List DisplayDevice)) → List (List Resource) → TiledDisplay → Result Validated
unfolding check_params check_resources check_display
do_validate candidates resources self = and_then (check_params self) λ wall.
    and_then (check_resources self wall resources) λ gpus.
      and_then (check_display candidates self)
        λ matched. ok (record { wall = wall; gpus = gpus; matched = matched })
