-- ===== src/Tiled/Samples.antt =====
-- Walls of GPU blocks, and the theorems on the layout at them.
use vizstack.Prelude.{
  ℕ, ◌+◌, ◌≡◌, refl, none, some, List, [], ◌∷◌, map, length, All, inr, true, false, arith,
}
use vizstack.Errors.{ok}
use vizstack.Prelude.Int.{pos}
use vizstack.Screen.{FbProperty}
use vizstack.Tiled.{Param, set_param}
use vizstack.Tiled.Validation.Ports.{AreDistinct}
use vizstack.Tiled.Validation.Samples.{four_gpus, wall, check_params_of_four}
use vizstack.Tiled.Validation.Sound.{IsWall, check_params_iff}
use vizstack.Tiled.Layout.{
  Setup, Rect, Bezels, around, across, along, last_sub, block_at, lay_out, row_pass, col_pass, pass,
  edges_of, is_upright,
}
use vizstack.Tiled.Layout.Placing.{scanouts_at, second_scanout, place, set_up_block}
use vizstack.Tiled.Layout.Tiles.{tiles_of, Fits, IsPast, Pairwise, block_tiles}
use vizstack.Tiled.Layout.Grid.{cells, column_at, row_at, lay_out_lem}
use vizstack.Tiled.Layout.Scanouts.{UsePorts, position, shown}
use vizstack.Tiled.Layout.Calls.{Leaves}
use vizstack.Display.{named}
use vizstack.Resource.Samples.{plain_gpu}
use vizstack.Tiled.Positions.{position_in_server, position_in_server_lem}
use vizstack.Tiled.Setup.{setup_of, ports_of, scanouts-IsWall}

abbrev thin : Bezels
thin = record { left_size = 10; right_size = 10; top_size = 20; bottom_size = 20 }

abbrev turned : Setup
turned = record {
  blocks = (2, 2);
  layout = (2, 1);
  clip = (2, 1);
  tile = (1920, 1200);
  bezels = thin;
  bezel_mode = some "desktop";
  rotate = some "portrait";
}

-- Two blocks side by side, each of two tiles, with all bezels.
abbrev row_of_two : Setup
row_of_two = record {
  blocks = (2, 1);
  layout = (2, 1);
  clip = (2, 1);
  tile = (1920, 1200);
  bezels = thin;
  bezel_mode = none;
  rotate = none;
}

tiles_test : tiles_of row_of_two 0 0 ≡ (10, 20) ∷ (1950, 20) ∷ []
unfolding block_at edges_of is_upright around last_sub
tiles_test = refl

areas_test :
    lay_out row_of_two
    ≡ (record { x1 = 0; y1 = 0; x2 = 3880; y2 = 1240 }
        ∷ record { x1 = 3880; y1 = 0; x2 = 7760; y2 = 1240 }
        ∷ [])
      ∷ []
unfolding lay_out across along is_upright last_sub
areas_test = refl

-- Clipping the last block to one column clips the block whose number is that of the last tile: here
-- the second of three.
clip_test :
    map
      (map (λ (r : Rect). r.x2))
      (lay_out (record row_of_two { blocks = (3, 1); clip = (1, 1); bezel_mode = some "disable" }))
    ≡ (3840 ∷ 5760 ∷ 9600 ∷ []) ∷ []
unfolding lay_out across along is_upright last_sub
clip_test = refl

block_tiles_example :
    (length (tiles_of turned 0 1) ≡ 2)
    × All
        (Fits (1920, 1200) ((block_at turned 0 1).fb_width, (block_at turned 0 1).fb_height))
        (tiles_of turned 0 1)
    × Pairwise (IsPast (1920, 1200)) (tiles_of turned 0 1)
unfolding last_sub
block_tiles_example = block_tiles turned 0 1

lay_out_lem_example : lay_out turned ≡ cells turned 2 0
lay_out_lem_example = lay_out_lem turned (inr (omega arith, omega arith))

position_in_server_lem_example :
    (x y : ℕ) × (position_in_server (lay_out turned) (1, 2) 0 0 1 0
      ≡ ok (FbProperty.position (pos x) (pos y)))
    × (column_at turned 0 ≡ column_at turned 0 + x)
    × (row_at turned 1 ≡ row_at turned 0 + y)
position_in_server_lem_example =
    position_in_server_lem turned (inr (omega arith, omega arith)) (1, 2) 0 0 1 0 (omega arith)
      (omega arith) (omega arith) (omega arith)

four_gpus-IsWall : IsWall four_gpus wall
four_gpus-IsWall = (check_params_iff four_gpus wall).0 check_params_of_four

abbrev four_setup : Setup
four_setup = setup_of four_gpus wall (1920, 1200) thin

scanouts-IsWall_example :
    (scanouts : List (ℕ × ℕ × ℕ)) × (scanouts_at four_setup four_gpus.stereo_mode
        (ports_of four_gpus four_setup)
        1
        0
      ≡ ok scanouts)
    × (map position scanouts ≡ shown four_gpus.stereo_mode (tiles_of four_setup 1 0))
    × UsePorts (ports_of four_gpus four_setup) 0 scanouts
    × AreDistinct (ports_of four_gpus four_setup)
    × Leaves scanouts (
        set_up_block none
          (named "LP2065")
          (some "1920x1200_60")
          four_setup
          four_gpus.stereo_mode
          (ports_of four_gpus four_setup)
          1
          0
          plain_gpu)
scanouts-IsWall_example =
    scanouts-IsWall none (named "LP2065") (some "1920x1200_60") four_gpus wall (1920, 1200) thin 1 0
      plain_gpu four_gpus-IsWall refl

-- Passive stereo: both ports show the one tile.
passive_test :
    scanouts_at
      (record turned { layout = (1, 1); clip = (1, 1); rotate = none })
      (some "passive")
      (0 ∷ 1 ∷ [])
      0
      0
    ≡ ok ((0, 0, 0) ∷ (1, 0, 0) ∷ [])
unfolding scanouts_at second_scanout place block_at row_pass col_pass pass around is_upright
    edges_of last_sub
passive_test = refl

-- setParam('framelock', …) writes another parameter.
framelock_test : (set_param (Param.framelock true) four_gpus).1.framelock ≡ false
unfolding set_param
framelock_test = refl
