-- ===== src/Resource/Scanouts/Samples.antt =====
-- A display device, a GPU with a small framebuffer, and the theorems at these inputs.
use vizstack.Prelude.{
  ℕ, zero, suc, String, ◌≡◌, refl, sym, ap, length, arith, ◌⊎◌, none, some, List, [], ◌∷◌,
}
use vizstack.Prelude.Int.{pos}
use vizstack.Errors.{ok, raise, value_error}
use vizstack.Display.{Mode, DisplayDevice, device, find_best_matching_mode}
use vizstack.Display.{search_modes, is_valid, mode_by_alias}
use vizstack.Display.BestMode.{HasSize, IsIn, AreSlower, find_best_matching_mode_lem}
use vizstack.Resource.{GpuFields}
use vizstack.Resource.Samples.{plain_gpu}
use vizstack.Resource.Scanouts.{
  at_port, ScanoutArgs, set_scanout, plan_scanout, check_port, check_position, check_scan_type,
  valid_display, mode_details, check_size, check_extent,
}
use vizstack.Resource.Scanouts.Framebuffer.{
  ScanoutCall, sets, scan_all, AreOnScreen, AreNumbered, scan_all-AreOnScreen,
}

mode_of : String → ℕ → ℕ → ℕ → Mode
mode_of alias width height refresh = record {
  mode_type = "cvt";
  alias = alias;
  width = width;
  height = height;
  refresh = refresh;
  value = none;
}

monitor : DisplayDevice
monitor = record {
  res_type = some "LP2065";
  input = some "digital";
  default_mode = some "1600x1200_60";
  modes =
      mode_of "1600x1200_60" 1600 1200 60
      ∷ mode_of "1280x1024_60" 1280 1024 60
      ∷ mode_of "1280x1024_75" 1280 1024 75
      ∷ [];
}

find_best_matching_mode_lem_example :
    ((m : Mode) × (find_best_matching_mode monitor (1280 ∷ 1024 ∷ []) ≡ ok m)
      × IsIn m monitor.modes
      × HasSize 1280 1024 m
      × AreSlower 1280 1024 m.refresh monitor.modes)
    ⊎ ((find_best_matching_mode monitor (1280 ∷ 1024 ∷ []) ≡ raise value_error)
        × AreSlower 1280 1024 0 monitor.modes)
find_best_matching_mode_lem_example = find_best_matching_mode_lem 1280 1024 monitor

fastest :
    find_best_matching_mode monitor (1280 ∷ 1024 ∷ []) ≡ ok (mode_of "1280x1024_75" 1280 1024 75)
unfolding find_best_matching_mode search_modes monitor mode_of
fastest = refl

-- A GPU with two outputs and a framebuffer of 3200 by 1200.
small_gpu : GpuFields
small_gpu = record plain_gpu {
  scanout_caps = some ((0, "digital" ∷ []) ∷ (1, "digital" ∷ []) ∷ []);
  max_width = some 3200;
  max_height = some 1200;
}

at_position : ℕ → ℕ → ScanoutArgs
at_position port x = record {
  port_index = pos port;
  display_device = device monitor;
  scan_type = some "digital";
  mode = none;
  output_x = pos x;
  output_y = pos 0;
  output_width = none;
  output_height = none;
}

-- Two monitors side by side, and the second one again, too far to the right.
wall : List ScanoutCall
wall = sets (at_position 0 0) ∷ sets (at_position 1 1600) ∷ sets (at_position 1 1601) ∷ []

too_far : set_scanout none (at_position 1 1601) small_gpu ≡ (raise value_error, small_gpu)
unfolding set_scanout plan_scanout check_port check_position check_scan_type valid_display
    mode_details check_size check_extent is_valid mode_by_alias at_position small_gpu monitor
    mode_of
too_far = refl

small_gpu-AreNumbered : AreNumbered small_gpu.scanout_caps
unfolding small_gpu
small_gpu-AreNumbered caps zero e h =
    let same : (0, "digital" ∷ []) ∷ (1, "digital" ∷ []) ∷ [] ≡ caps = cc in
    ("digital" ∷ [], ap (at_port 0) (sym same))
small_gpu-AreNumbered caps (suc zero) e h =
    let same : (0, "digital" ∷ []) ∷ (1, "digital" ∷ []) ∷ [] ≡ caps = cc in
    ("digital" ∷ [], ap (at_port 1) (sym same))
small_gpu-AreNumbered caps (suc (suc n)) e h =
    let same : (0, "digital" ∷ []) ∷ (1, "digital" ∷ []) ∷ [] ≡ caps = cc in
    absurd (omega (arith, h, ap length same))

scan_all-AreOnScreen_example : AreOnScreen none (scan_all none wall small_gpu)
unfolding small_gpu
scan_all-AreOnScreen_example = scan_all-AreOnScreen none wall small_gpu small_gpu-AreNumbered tt
