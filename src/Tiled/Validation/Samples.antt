-- ===== src/Tiled/Validation/Samples.antt =====
-- A wall of two by two GPUs on two servers, and the theorems at it.
use vizstack.Prelude.{◌≡◌, refl, true, false, none, some, List, [], ◌∷◌}
use vizstack.Prelude.Int.{pos}
use vizstack.Errors.{ok, raise, value_error}
use vizstack.Resource.{Resource, server}
use vizstack.Resource.Samples.{any_gpu, base_at}
use vizstack.Tiled.{TiledDisplay}
use vizstack.Tiled.Validation.{
  Wall, Validated, check_rotate, check_block_type, check_pair, check_group, check_displays,
  check_stereo, check_remap, check_clip, check_params, do_validate,
}
use vizstack.Tiled.Validation.Sound.{IsWall}
use vizstack.Tiled.Validation.Groups.{Supplies, do_validate_lem}

abbrev pub four_gpus : TiledDisplay
four_gpus = record {
  stereo_mode = some "none";
  num_blocks = some (pos 2 ∷ pos 2 ∷ []);
  block_display_layout = some (pos 1 ∷ pos 2 ∷ []);
  display_device = some "LP3065";
  display_mode = none;
  tile_resolution = none;
  block_type = some "gpu";
  combine_displays = true;
  group_blocks = some (pos 2 ∷ pos 1 ∷ []);
  remap_display_outputs = some (pos 1 ∷ pos 0 ∷ []);
  bezels = none;
  framelock = false;
  clip_last_block = some (none ∷ some (pos 1) ∷ []);
  rotate = some "none";
}

abbrev pub wall : Wall
wall = record { kind = "gpu"; blocks = (2, 2); layout = (1, 2) }

abbrev one_server : List Resource
one_server =
    record { base = base_at (some 0) (some "node1"); class = server }
    ∷ any_gpu false
    ∷ any_gpu false
    ∷ []

pub check_params_of_four : check_params four_gpus ≡ ok wall
unfolding check_params check_rotate check_block_type check_pair check_group check_displays
    check_stereo check_remap check_clip
check_params_of_four = refl

-- The same port twice.
repeated_port :
    check_params (record four_gpus { remap_display_outputs = some (pos 1 ∷ pos 1 ∷ []) })
    ≡ raise value_error
unfolding check_params check_rotate check_block_type check_pair check_group check_displays
    check_stereo check_remap check_clip
repeated_port = refl

abbrev validated : Validated
validated = record { wall = wall; gpus = 2 ∷ 2 ∷ []; matched = none }

is_validated : do_validate none (one_server ∷ one_server ∷ []) four_gpus ≡ ok validated
unfolding do_validate check_rotate check_block_type check_pair check_group check_displays
    check_stereo check_remap check_clip
is_validated = refl

do_validate_lem_example :
    IsWall four_gpus wall × Supplies four_gpus wall (one_server ∷ one_server ∷ [])
do_validate_lem_example =
    do_validate_lem none (one_server ∷ one_server ∷ []) four_gpus validated is_validated
