-- ===== src/Tiled/Layout/Placing.antt =====
-- python/vsapi.py: TiledDisplay.setupXServers, the calls of setScanout for the GPU of a block.
use vizstack.Prelude.{
  ℕ, suc, ◌*◌, Option, none, some, List, [], ◌∷◌, ◌++◌, map, get_elem?, range, String, ◌==◌, nat_eq,
  string_eq, option_eq, if◌then◌else◌,
}
use vizstack.Prelude.Int.{pos}
use vizstack.Errors.{Result, ok, raise, and_then, index_error, Statement, pure, ◌>>◌}
use vizstack.Display.{DisplayArg}
use vizstack.Resource.{GpuFields}
use vizstack.Resource.Scanouts.{Access, ScanoutArgs, set_scanout}
use vizstack.Tiled.Layout.{Setup, Block, block_at}

-- The positions of the scanouts, row by row.
abbrev pub positions : List ℕ → List ℕ → List (ℕ × ℕ)
positions o_x [] = []
positions o_x (y ∷ o_y) = map (λ x. (x, y)) o_x ++ positions o_x o_y

-- map_do: which port shows which tile. Passive stereo needs two.
unfoldable pub default_ports : Setup → Option String → List ℕ
default_ports s stereo =
    if stereo == some "passive" then range 0 2 else range 0 (s.layout.0 * s.layout.1)

-- The calls of setScanout: port, outputX, outputY.
unfoldable pub place : List ℕ → ℕ → List (ℕ × ℕ) → Result (List (ℕ × ℕ × ℕ))
place ports index [] = ok []
place ports index ((x, y) ∷ rest) = elim (get_elem? ports index) [
  | none ↦ raise index_error
  | some port ↦ and_then (place ports (suc index) rest) (λ others. ok ((port, x, y) ∷ others))
]

-- originX and originY after the passes: where the last tile begins.
abbrev pub last_origin : List ℕ → ℕ
last_origin [] = 0
last_origin (x ∷ []) = x
last_origin (x ∷ y ∷ rest) = last_origin (y ∷ rest)

-- The second scanout of passive stereo, on the second port.
unfoldable pub second_scanout : List ℕ → Block → Result (ℕ × ℕ × ℕ)
second_scanout ports b = elim (get_elem? ports 1) [
  | none ↦ raise index_error
  | some port ↦ ok (port, last_origin b.o_x, last_origin b.o_y)
]

-- The calls of setScanout for a block: one for each tile, and for passive stereo one more.
unfoldable pub scanouts_at : Setup → Option String → List ℕ → ℕ → ℕ → Result (List (ℕ × ℕ × ℕ))
unfolding block_at place second_scanout
scanouts_at s stereo ports row col =
    let b = block_at s row col in
    and_then (place ports 0 (positions b.o_x b.o_y)) λ tiles.
      if stereo == some "passive"
      then and_then (second_scanout ports b) (λ second. ok (tiles ++ second ∷ []))
      else ok tiles

-- The arguments of one of these calls.
abbrev pub scanout_args : DisplayArg → Option String → ℕ × ℕ × ℕ → ScanoutArgs
scanout_args display mode (port, x, y) = record {
  port_index = pos port;
  display_device = display;
  scan_type = none;
  mode = mode;
  output_x = pos x;
  output_y = pos y;
  output_width = none;
  output_height = none;
}

-- The calls one after the other; the first that is refused ends the set-up.
unfoldable pub set_scanouts :
    Access → DisplayArg → Option String → List (ℕ × ℕ × ℕ) → Statement GpuFields (Unit {0})
set_scanouts ra display mode [] = pure tt
set_scanouts ra display mode (scanout ∷ rest) =
    set_scanout ra (scanout_args display mode scanout) >> set_scanouts ra display mode rest

-- The scanouts of a block, set on its GPU.
unfoldable pub set_up_block :
    Access
    → DisplayArg
    → Option String
    → Setup
    → Option String
    → List ℕ
    → ℕ
    → ℕ
    → Statement GpuFields (Unit {0})
unfolding scanouts_at set_scanouts
set_up_block ra display mode s stereo ports row col gpu =
    elim (scanouts_at s stereo ports row col) [
      | raise e ↦ (raise e, gpu)
      | ok scanouts ↦ set_scanouts ra display mode scanouts gpu
    ]
