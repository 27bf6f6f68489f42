-- ===== src/Tiled.antt =====
-- python/vsapi.py: TiledDisplay, a wall of display tiles driven by blocks (a GPU, or a QuadroPlex) in a
-- grid: its parameters.
pub mod Validation
pub mod Layout
mod Setup
mod Positions
mod Samples
use vizstack.Prelude.{ℕ, Bool, true, false, String, Option, none, some, List, not}
use vizstack.Prelude.Int.{ℤ}
use vizstack.Errors.{Result, ok, raise, value_error, Statement}

-- display_mode: the alias of a mode, or [width, height] and perhaps a refresh rate.
pub data DisplayMode : Type 0 where
  alias : String → DisplayMode
  search_params : List ℕ → DisplayMode

-- `bezels` is a name; but setParam('framelock', …) puts a boolean there.
pub data BezelMode : Type 0 where
  mode : String → BezelMode
  flag : Bool → BezelMode

-- Lists hold integers, as many as the configuration gives.
pub record TiledDisplay : Type 0 where
  pub stereo_mode : Option String
  pub num_blocks : Option (List ℤ)
  pub block_display_layout : Option (List ℤ)
  pub display_device : Option String
  pub display_mode : Option DisplayMode
  pub tile_resolution : Option (ℕ × ℕ)
  pub block_type : Option String
  pub combine_displays : Bool
  pub group_blocks : Option (List ℤ)
  pub remap_display_outputs : Option (List ℤ)
  pub bezels : Option BezelMode
  pub framelock : Bool
  pub clip_last_block : Option (List (Option ℤ))
  pub rotate : Option String

-- A parameter with a value of its type.
pub data Param : Type 0 where
  num_blocks block_display_layout group_blocks remap_display_outputs : Option (List ℤ) → Param
  block_type display_device stereo_mode rotate : Option String → Param
  display_mode : Option DisplayMode → Param
  tile_resolution : Option (ℕ × ℕ) → Param
  combine_displays framelock : Bool → Param
  bezels : Option BezelMode → Param
  clip_last_block : Option (List (Option ℤ)) → Param
  unknown : Param

-- The name of a parameter.
pub data ParamName : Type 0 where
  num_blocks block_display_layout group_blocks remap_display_outputs : ParamName
  block_type display_device stereo_mode rotate : ParamName
  display_mode tile_resolution combine_displays framelock bezels clip_last_block : ParamName
  unknown : ParamName

unfoldable pub set_param : Param → Statement TiledDisplay (Unit {0})
set_param (Param.num_blocks v) self = (ok tt, record self { num_blocks = v })
set_param (Param.block_display_layout v) self = (ok tt, record self { block_display_layout = v })
set_param (Param.block_type v) self = (ok tt, record self { block_type = v })
set_param (Param.display_device v) self = (ok tt, record self { display_device = v })
set_param (Param.display_mode v) self = (ok tt, record self { display_mode = v })
set_param (Param.tile_resolution v) self = (ok tt, record self { tile_resolution = v })
set_param (Param.combine_displays v) self = (ok tt, record self { combine_displays = v })
set_param (Param.group_blocks v) self = (ok tt, record self { group_blocks = v })
set_param (Param.remap_display_outputs v) self = (ok tt, record self { remap_display_outputs = v })
set_param (Param.rotate v) self = (ok tt, record self { rotate = v })
set_param (Param.stereo_mode v) self = (ok tt, record self { stereo_mode = v })
set_param (Param.bezels v) self = (ok tt, record self { bezels = v })
set_param (Param.framelock v) self = (ok tt, record self { bezels = some (BezelMode.flag v) })
set_param (Param.clip_last_block v) self = (ok tt, record self { clip_last_block = v })
set_param Param.unknown self = (raise value_error, self)

unfoldable pub get_param : ParamName → TiledDisplay → Result Param
get_param ParamName.num_blocks self = ok (Param.num_blocks self.num_blocks)
get_param ParamName.block_display_layout self =
    ok (Param.block_display_layout self.block_display_layout)
get_param ParamName.block_type self = ok (Param.block_type self.block_type)
get_param ParamName.display_device self = ok (Param.display_device self.display_device)
get_param ParamName.display_mode self = ok (Param.display_mode self.display_mode)
get_param ParamName.tile_resolution self = ok (Param.tile_resolution self.tile_resolution)
get_param ParamName.combine_displays self = ok (Param.combine_displays self.combine_displays)
get_param ParamName.group_blocks self = ok (Param.group_blocks self.group_blocks)
get_param ParamName.remap_display_outputs self =
    ok (Param.remap_display_outputs self.remap_display_outputs)
get_param ParamName.rotate self = ok (Param.rotate self.rotate)
get_param ParamName.stereo_mode self = ok (Param.stereo_mode self.stereo_mode)
get_param ParamName.bezels self = ok (Param.bezels self.bezels)
get_param ParamName.framelock self = ok (Param.framelock self.framelock)
get_param ParamName.clip_last_block self = ok (Param.clip_last_block self.clip_last_block)
get_param ParamName.unknown self = raise value_error
