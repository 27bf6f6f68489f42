-- ===== src/Tiled/Validation/Sound.antt =====
-- python/vsapi.py: what TiledDisplay.doValidate accepts, the checks together.
use vizstack.Prelude.{◌*◌, ◌≤◌, ◌≡◌, ◌≢◌, ◌↔◌, refl, subst, true, some, contains, nat_eq, string_eq}
use vizstack.Errors.{ok, and_then-ok}
use vizstack.Tiled.{TiledDisplay}
use vizstack.Tiled.Validation.{
  Wall, check_params, check_rotate, check_block_type, check_pair, check_group, check_displays,
  check_stereo, check_remap, check_clip, valid_block_types,
}
use vizstack.Tiled.Validation.Checks.{
  IsRotation, check_rotate_iff, check_block_type_iff, IsPair, check_pair-IsPair, IsPair-check_pair,
  IsGrouping, check_group-IsGrouping, IsGrouping-check_group, check_displays_iff, IsStereo,
  check_stereo_iff, IsClip, check_clip-IsClip, IsClip-check_clip,
}
use vizstack.Tiled.Validation.Ports.{IsRemap, check_remap-IsRemap, IsRemap-check_remap}

-- The parameters of a wall that can be laid out.
pub record IsWall (self : TiledDisplay) (wall : Wall) : Type 0 where
  pub rotation : IsRotation self.rotate
  pub kind_known :
      (self.block_type ≡ some wall.kind) × (contains valid_block_types wall.kind ≡ true)
  pub blocks_given : IsPair self.num_blocks wall.blocks
  pub grouping : IsGrouping self.group_blocks wall.blocks wall.kind
  pub layout_given : IsPair self.block_display_layout wall.layout
  pub outputs :
      (wall.kind ≡ "gpu"
        → (1 ≤ wall.layout.0 * wall.layout.1) × (wall.layout.0 * wall.layout.1 ≤ 2))
      × (wall.kind ≢ "gpu"
          → (2 ≤ wall.layout.0 * wall.layout.1) × (wall.layout.0 * wall.layout.1 ≤ 4))
  pub stereo : IsStereo self.stereo_mode wall.layout wall.kind
  pub remap : IsRemap self.remap_display_outputs self.stereo_mode wall.kind wall.layout
  pub clip : IsClip self.clip_last_block wall.layout

pub check_params-IsWall :
    (self : TiledDisplay) (wall : Wall) → check_params self ≡ ok wall → IsWall self wall
unfolding check_params
check_params-IsWall self wall h =
    let (_, rotated, h1) = and_then-ok (check_rotate self.rotate) _ wall h in
    let (kind, typed, h2) = and_then-ok (check_block_type self.block_type) _ wall h1 in
    let (blocks, counted, h3) = and_then-ok (check_pair self.num_blocks) _ wall h2 in
    let (_, grouped, h4) = and_then-ok (check_group self.group_blocks blocks kind) _ wall h3 in
    let (layout, tiled, h5) = and_then-ok (check_pair self.block_display_layout) _ wall h4 in
    let (_, sized, h6) = and_then-ok (check_displays kind layout) _ wall h5 in
    let (_, stereo, h7) = and_then-ok (check_stereo self.stereo_mode layout kind) _ wall h6 in
    let (_, mapped, h8) =
      and_then-ok (check_remap self.remap_display_outputs self.stereo_mode kind layout) _ wall h7 in
    let (_, clipped, h9) = and_then-ok (check_clip self.clip_last_block layout) _ wall h8 in
    let found : Wall = record { kind = kind; blocks = blocks; layout = layout } in
    let same : found ≡ wall = cc in
    subst (IsWall self) same (record {
      rotation = (check_rotate_iff self.rotate).0 rotated;
      kind_known = (check_block_type_iff self.block_type kind).0 typed;
      blocks_given = check_pair-IsPair self.num_blocks blocks counted;
      grouping = check_group-IsGrouping self.group_blocks blocks kind grouped;
      layout_given = check_pair-IsPair self.block_display_layout layout tiled;
      outputs = (check_displays_iff kind layout).0 sized;
      stereo = (check_stereo_iff self.stereo_mode layout kind).0 stereo;
      remap = check_remap-IsRemap self.remap_display_outputs self.stereo_mode kind layout mapped;
      clip = check_clip-IsClip self.clip_last_block layout clipped;
    })

IsWall-check_params :
    (self : TiledDisplay) (wall : Wall) → IsWall self wall → check_params self ≡ ok wall
unfolding check_params
IsWall-check_params self wall w =
    rw
      (
        (check_rotate_iff self.rotate).1 w.rotation,
        (check_block_type_iff self.block_type wall.kind).1 w.kind_known,
        IsPair-check_pair self.num_blocks wall.blocks.0 wall.blocks.1 w.blocks_given,
        IsGrouping-check_group self.group_blocks wall.blocks wall.kind w.grouping,
        IsPair-check_pair self.block_display_layout wall.layout.0 wall.layout.1 w.layout_given,
        (check_displays_iff wall.kind wall.layout).1 w.outputs,
        (check_stereo_iff self.stereo_mode wall.layout wall.kind).1 w.stereo,
        IsRemap-check_remap self.remap_display_outputs self.stereo_mode wall.kind wall.layout
            w.remap,
        IsClip-check_clip self.clip_last_block wall.layout w.clip,
      )
      refl

pub check_params_iff :
    (self : TiledDisplay) (wall : Wall) → (check_params self ≡ ok wall) ↔ IsWall self wall
check_params_iff self wall = (check_params-IsWall self wall, IsWall-check_params self wall)
