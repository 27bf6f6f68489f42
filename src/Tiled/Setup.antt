-- ===== src/Tiled/Setup.antt =====
-- python/vsapi.py: TiledDisplay.setupXServers, from the validated parameters to the layout.
use vizstack.Prelude.{
  ℕ, zero, suc, ◌*◌, ◌≤◌, ◌<◌, ◌≡◌, refl, ap, sym, subst, String, false, Option, none, some, List,
  [], ◌∷◌, map, length, length-map, range, contains, ◌==◌, nat_beq_iff, nat_eq, string_eq,
  option_eq, option_beq_iff, arith, inl, inr, Bool-cases,
}
use vizstack.Prelude.Int.{ℤ, pos, pos_part}
use vizstack.Errors.{ok, raise}
use vizstack.Tiled.{TiledDisplay, BezelMode}
use vizstack.Tiled.Validation.{Wall, output_count}
use vizstack.Tiled.Validation.Ports.{AreDistinct}
use vizstack.Tiled.Validation.Sound.{IsWall}
use vizstack.Tiled.Layout.{Setup, Bezels}
use vizstack.Tiled.Layout.Placing.{default_ports, scanouts_at, set_scanouts, set_up_block}
use vizstack.Tiled.Layout.Calls.{Leaves, set_scanouts-Leaves, UsePorts-AreApart}
use vizstack.Display.{DisplayArg}
use vizstack.Resource.{GpuFields}
use vizstack.Resource.Scanouts.{Access}
use vizstack.Tiled.Layout.Tiles.{tiles_of}
use vizstack.Tiled.Layout.Scanouts.{UsePorts, position, shown, scanouts_at_lem}

-- An element of clip_last_block; None means that nothing is clipped.
abbrev pub clip_of : Option ℤ → ℕ → ℕ
clip_of none size = size
clip_of (some n) size = pos_part n

abbrev pub clips_of : Option (List (Option ℤ)) → ℕ × ℕ → ℕ × ℕ
clips_of (some (a ∷ b ∷ [])) layout = (clip_of a layout.0, clip_of b layout.1)
clips_of _ layout = layout

-- A boolean, which setParam may have put there, is none of the names.
abbrev pub bezel_mode_of : Option BezelMode → Option String
bezel_mode_of none = none
bezel_mode_of (some (BezelMode.mode name)) = some name
bezel_mode_of (some (BezelMode.flag b)) = some ""

unfoldable pub setup_of : TiledDisplay → Wall → ℕ × ℕ → Bezels → Setup
setup_of self wall tile bezels = record {
  blocks = wall.blocks;
  layout = wall.layout;
  clip = clips_of self.clip_last_block wall.layout;
  tile = tile;
  bezels = bezels;
  bezel_mode = bezel_mode_of self.bezels;
  rotate = self.rotate;
}

-- map_do
unfoldable pub ports_of : TiledDisplay → Setup → List ℕ
ports_of self s = elim self.remap_display_outputs [
  | none ↦ default_ports s self.stereo_mode
  | some remap ↦ map pos_part remap
]

length-range : (start n : ℕ) → length (range start n) ≡ n
length-range start zero = refl
length-range start (suc n) = ap suc (length-range (suc start) n)

not_in_range : (start n k : ℕ) → k < start → contains (range start n) k ≡ false
not_in_range start zero k h = refl
not_in_range start (suc n) k h = ground (arith, nat_beq_iff start k, not_in_range (suc start) n k)

range-AreDistinct : (start n : ℕ) → AreDistinct (range start n)
range-AreDistinct start zero = tt
range-AreDistinct start (suc n) =
    (not_in_range (suc start) n start (omega arith), range-AreDistinct (suc start) n)

ports_back : (ports : List ℕ) → map pos_part (map pos ports) ≡ ports
ports_back [] = refl
ports_back (n ∷ ports) = ap (n ∷◌) (ports_back ports)

-- Enough ports, and no port twice.
abbrev AreEnough : Wall → List ℕ → Type 0
AreEnough wall ports = (wall.layout.0 * wall.layout.1 ≤ length ports) × AreDistinct ports

default_ports-AreEnough :
    (self : TiledDisplay) (wall : Wall) (tile : ℕ × ℕ) (bezels : Bezels)
    → IsWall self wall
    → AreEnough wall (default_ports (setup_of self wall tile bezels) self.stereo_mode)
unfolding default_ports setup_of
default_ports-AreEnough self wall tile bezels w =
    elim (Bool-cases (self.stereo_mode == some "passive")) [
      | inl e ↦
          let given : self.stereo_mode ≡ some "passive" =
            (option_beq_iff self.stereo_mode (some "passive")).0 e in
          let (_, single) = w.stereo "passive" given in
          let (one, also, _) = single refl in
          let product : wall.layout.0 * wall.layout.1 ≡ 1 = rw (one, also) refl in
          rw e (omega arith, range-AreDistinct 0 2)
      | inr e ↦ rw e (
        omega (arith, length-range 0 (wall.layout.0 * wall.layout.1)),
        range-AreDistinct 0 (wall.layout.0 * wall.layout.1),
      )
    ]

remap-AreEnough :
    (wall : Wall) (ports : List ℕ)
    → wall.kind ≡ "gpu"
    → length (map pos ports) ≡ output_count wall.kind wall.layout
    → AreDistinct ports
    → AreEnough wall ports
remap-AreEnough wall ports gpu_blocks outputs distinct =
    let same : output_count wall.kind wall.layout ≡ wall.layout.0 * wall.layout.1 =
      rw gpu_blocks refl in
    (omega (arith, length-map pos ports), distinct)

ports_of-AreEnough :
    (self : TiledDisplay) (wall : Wall) (tile : ℕ × ℕ) (bezels : Bezels)
    → IsWall self wall
    → wall.kind ≡ "gpu"
    → AreEnough wall (ports_of self (setup_of self wall tile bezels))
unfolding ports_of setup_of
ports_of-AreEnough self wall tile bezels w gpu_blocks = elim w.remap [
  | inl e ↦ rw e (default_ports-AreEnough self wall tile bezels w)
  | inr (ports, e, outputs, _, distinct) ↦
      rw (e, ports_back ports) (remap-AreEnough wall ports gpu_blocks outputs distinct)
]

-- Passive stereo has single tiles and a second port.
passive-AreEnough :
    (self : TiledDisplay) (wall : Wall) (tile : ℕ × ℕ) (bezels : Bezels)
    → IsWall self wall
    → wall.kind ≡ "gpu"
    → self.stereo_mode ≡ some "passive"
    → (wall.layout.0 ≡ 1)
      × (wall.layout.1 ≡ 1)
      × (2 ≤ length (ports_of self (setup_of self wall tile bezels)))
unfolding ports_of setup_of default_ports
passive-AreEnough self wall tile bezels w gpu_blocks passive =
    let (_, single) = w.stereo "passive" passive in
    let (one, also, _) = single refl in
    (
      one,
      also,
      elim w.remap [
        | inl e ↦ rw (e, passive) (omega arith)
        | inr (ports, e, outputs, two, distinct) ↦
            rw (e, ports_back ports) (omega (arith, length-map pos ports, two passive))
      ],
    )

-- Where the parameters of a wall of GPU blocks were validated, the calls of setScanout for every block
-- are found: one for each tile and at its place, with passive stereo a second one for the same tile,
-- on different ports in the order of map_do. A GPU that refuses none of them has all of these scanouts
-- on these ports afterwards.
pub scanouts-IsWall :
    (ra : Access) (display : DisplayArg) (mode : Option String) (self : TiledDisplay) (wall : Wall)
    (tile : ℕ × ℕ) (bezels : Bezels) (row col : ℕ) (gpu : GpuFields)
    → IsWall self wall
    → wall.kind ≡ "gpu"
    → (scanouts : List (ℕ × ℕ × ℕ)) × (scanouts_at
          (setup_of self wall tile bezels)
          self.stereo_mode
          (ports_of self (setup_of self wall tile bezels))
          row
          col
        ≡ ok scanouts)
      × (map position scanouts
          ≡ shown self.stereo_mode (tiles_of (setup_of self wall tile bezels) row col))
      × UsePorts (ports_of self (setup_of self wall tile bezels)) 0 scanouts
      × AreDistinct (ports_of self (setup_of self wall tile bezels))
      × Leaves scanouts (
          set_up_block ra display mode
            (setup_of self wall tile bezels)
            self.stereo_mode
            (ports_of self (setup_of self wall tile bezels))
            row
            col
            gpu)
unfolding setup_of set_up_block
scanouts-IsWall ra display mode self wall tile bezels row col gpu w gpu_blocks =
    let s = setup_of self wall tile bezels in
    let ports = ports_of self s in
    let (enough, distinct) = ports_of-AreEnough self wall tile bezels w gpu_blocks in
    let (_, wide, high) = w.layout_given in
    let (scanouts, placed, tiles, used) =
      scanouts_at_lem s self.stereo_mode ports row col wide high enough
        (passive-AreEnough self wall tile bezels w gpu_blocks) in
    (
      scanouts,
      placed,
      tiles,
      used,
      distinct,
      subst
          (λ r.
            Leaves scanouts
              (elim r [ raise e ↦ (raise e, gpu) | ok l ↦ set_scanouts ra display mode l gpu ]))
          (sym placed)
          (set_scanouts-Leaves ra display mode scanouts gpu
            (UsePorts-AreApart ports 0 scanouts distinct used)),
    )
