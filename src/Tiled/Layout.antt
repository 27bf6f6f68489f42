-- ===== src/Tiled/Layout.antt =====
-- python/vsapi.py: TiledDisplay.setupXServers, where it lays out a wall of GPU blocks: the tiles in the
-- framebuffer of a block, with the bezels between them, and the blocks on the wall. Sizes and bezels
-- are pixels.
pub mod Pass
pub mod Tiles
pub mod Grid
pub mod Placing
pub mod Scanouts
pub mod Calls
use vizstack.Prelude.{
  ℕ, zero, suc, ◌+◌, ◌*◌, ◌-◌, Bool, true, false, not, ◌&&◌, ◌||◌, Option, none, some, List, [],
  ◌∷◌, ◌++◌, map, get_elem?, nat_beq, ltb, range, String, contains, ◌==◌, ◌!=◌, nat_eq, string_eq,
  option_eq, if◌then◌else◌,
}
use vizstack.Prelude.Int.{pos}
use vizstack.Errors.{Result, ok, raise, and_then, index_error, Statement, pure, ◌>>=◌, ◌>>◌}
use vizstack.Display.{DisplayArg}
use vizstack.Resource.{GpuFields}
use vizstack.Resource.Scanouts.{Access, ScanoutArgs, set_scanout}

pub data Edge : Type 0 where
  left right top bottom : Edge

-- usedMode['bezel']
pub record Bezels : Type 0 where
  pub left_size : ℕ
  pub right_size : ℕ
  pub top_size : ℕ
  pub bottom_size : ℕ

-- Which edge of a tile points where on the wall.
pub record Edges : Type 0 where
  pub left_edge : Edge
  pub right_edge : Edge
  pub top_edge : Edge
  pub bottom_edge : Edge

unfoldable pub edges_of : Option String → Edges
edges_of rotate =
    if rotate == some "portrait"
    then record { left_edge = top; right_edge = bottom; top_edge = right; bottom_edge = left }
    else if rotate == some "inverted_portrait"
    then record { left_edge = bottom; right_edge = top; top_edge = left; bottom_edge = right }
    else if rotate == some "inverted_landscape"
    then record { left_edge = right; right_edge = left; top_edge = bottom; bottom_edge = top }
    else record { left_edge = left; right_edge = right; top_edge = top; bottom_edge = bottom }

-- What the layout needs, after validation: columns come first in a pair, as in the source.
pub record Setup : Type 0 where
  pub blocks : ℕ × ℕ
  pub layout : ℕ × ℕ
  pub clip : ℕ × ℕ
  pub tile : ℕ × ℕ
  pub bezels : Bezels
  pub bezel_mode : Option String
  pub rotate : Option String

-- Horizontally, left and right bezels count, and vertically those on the top and at the bottom.
pub data Axis : Type 0 where
  horizontal vertical : Axis

abbrev pub leads : Axis → Edge → Bool
leads horizontal left = true
leads vertical top = true
leads _ _ = false

abbrev pub trails : Axis → Edge → Bool
trails horizontal right = true
trails vertical bottom = true
trails _ _ = false

abbrev pub lead_size : Axis → Bezels → ℕ
lead_size horizontal b = b.left_size
lead_size vertical b = b.top_size

abbrev pub trail_size : Axis → Bezels → ℕ
trail_size horizontal b = b.right_size
trail_size vertical b = b.bottom_size

-- usedMode['bezel'], cleared for 'disable'
unfoldable pub used_bezels : Setup → Bezels
used_bezels s =
    if s.bezel_mode == some "disable"
    then record { left_size = 0; right_size = 0; top_size = 0; bottom_size = 0 }
    else s.bezels

abbrev pub force_bezel : Setup → Bool
force_bezel s = s.bezel_mode == none || s.bezel_mode == some "all"

abbrev pub desktop_bezel : Setup → Bool
desktop_bezel s = s.bezel_mode == some "desktop"

-- One round of `for bezel in includeBezel`, on the size of the framebuffer and the origin of the tile.
unfoldable pub include_bezel : Axis → Setup → Edge → ℕ × ℕ → ℕ × ℕ
unfolding used_bezels
include_bezel axis s edge p =
    let lead = lead_size axis (used_bezels s) in
    let trail = trail_size axis (used_bezels s) in
    if leads axis edge
    then (if desktop_bezel s
        then (p.0 + lead + trail, p.1 + lead + trail)
        else (p.0 + lead, p.1 + lead))
    else if trails axis edge && not (desktop_bezel s)
    then (p.0 + trail, p.1)
    else p

abbrev pub included : Bool → Axis → Setup → Edge → ℕ × ℕ → ℕ × ℕ
included has axis s edge p = if has then include_bezel axis s edge p else p

-- The bezels of one tile: the near one unless the tile is the first on the wall, the far one unless it
-- is the last; or both.
unfoldable pub around : Axis → Setup → Edge → Edge → Bool → Bool → ℕ → ℕ × ℕ
unfolding include_bezel
around axis s near far is_first is_last fb =
    included (not is_last || force_bezel s) axis s far
      (included (not is_first || force_bezel s) axis s near (fb, fb))

-- The loop over the tiles of a block along one axis: the size of the framebuffer, and the origins of
-- the tiles. `index` is the row or the column of the block, of `count` on the wall; `last_sub` the
-- number that the source compares with.
unfoldable pub pass : Axis → Setup → Edge → Edge → ℕ → ℕ → ℕ → ℕ → ℕ → ℕ → ℕ → ℕ × List ℕ
unfolding around
pass axis s near far size index count last_sub zero sub fb = (fb, [])
pass axis s near far size index count last_sub (suc n) sub fb =
    let (taken, origin) =
      around axis s near far (nat_beq index 0 && nat_beq sub 0)
        (nat_beq (index + 1) count && nat_beq sub last_sub) fb in
    let (all, origins) =
      pass axis s near far size index count last_sub n (suc sub) (taken + size) in
    (all, origin ∷ origins)

-- lastSubCol and lastSubRow. Clipping asks whether the number of the block equals the last number of a
-- tile, where the comment speaks of the last block.
unfoldable pub last_sub : ℕ → ℕ → ℕ → ℕ
last_sub index size clip =
    if nat_beq index (size - 1) && ltb clip (size - 1 + 1) then clip - 1 else size - 1

abbrev pub last_sub_col : Setup → ℕ → ℕ
last_sub_col s col = last_sub col s.layout.0 s.clip.0

abbrev pub last_sub_row : Setup → ℕ → ℕ
last_sub_row s row = last_sub row s.layout.1 s.clip.1

-- `topEdge in ['top','bottom']`, and also rotateNormal.
unfoldable pub is_upright : Setup → Bool
unfolding edges_of
is_upright s = elim (edges_of s.rotate).top_edge [ top ↦ true | bottom ↦ true | _ ↦ false ]

-- The passes over the rows and the columns of the tiles of a block. On rotated displays the first goes
-- horizontally in the framebuffer, over as many tiles as there are columns.
unfoldable pub row_pass : Setup → ℕ → ℕ → ℕ × List ℕ
unfolding pass is_upright edges_of
row_pass s row col =
    let e = edges_of s.rotate in
    if is_upright s
    then pass vertical s e.top_edge e.bottom_edge s.tile.1 row s.blocks.1 (last_sub_row s row)
        (last_sub_row s row + 1) 0 0
    else pass horizontal s e.top_edge e.bottom_edge s.tile.0 row s.blocks.1 (last_sub_row s row)
        (last_sub_col s col + 1) 0 0

unfoldable pub col_pass : Setup → ℕ → ℕ → ℕ × List ℕ
unfolding pass is_upright edges_of
col_pass s row col =
    let e = edges_of s.rotate in
    if is_upright s
    then pass horizontal s e.left_edge e.right_edge s.tile.0 col s.blocks.0 (last_sub_col s col)
        (last_sub_col s col + 1) 0 0
    else pass vertical s e.left_edge e.right_edge s.tile.1 col s.blocks.0 (last_sub_col s col)
        (last_sub_row s row + 1) 0 0

-- oX and oY, and the size of the framebuffer.
pub record Block : Type 0 where
  pub fb_width : ℕ
  pub fb_height : ℕ
  pub o_x : List ℕ
  pub o_y : List ℕ

unfoldable pub block_at : Setup → ℕ → ℕ → Block
unfolding row_pass col_pass
block_at s row col =
    let rows = row_pass s row col in
    let cols = col_pass s row col in
    if is_upright s
    then record { fb_width = cols.0; fb_height = rows.0; o_x = cols.1; o_y = rows.1 }
    else record { fb_width = rows.0; fb_height = cols.0; o_x = rows.1; o_y = cols.1 }

-- rect_area: x1, y1, x2, y2
pub record Rect : Type 0 where
  pub x1 : ℕ
  pub y1 : ℕ
  pub x2 : ℕ
  pub y2 : ℕ

-- How wide and how high a block is on the wall; rotated displays exchange the two.
unfoldable pub across : Setup → ℕ → ℕ → ℕ
unfolding block_at
across s row col = let b = block_at s row col in if is_upright s then b.fb_width else b.fb_height

unfoldable pub along : Setup → ℕ → ℕ → ℕ
unfolding block_at
along s row col = let b = block_at s row col in if is_upright s then b.fb_height else b.fb_width

-- One row of blocks from `col` on: their areas.
unfoldable pub row_areas : Setup → ℕ → ℕ → ℕ → ℕ → ℕ → List Rect
row_areas s row cur_y zero col cur_x = []
row_areas s row cur_y (suc n) col cur_x =
    record { x1 = cur_x; y1 = cur_y; x2 = cur_x + across s row col; y2 = cur_y + along s row col }
    ∷ row_areas s row cur_y n (suc col) (cur_x + across s row col)

-- All rows. After a row, curY grows by the size that its last block has left in fbHeight or fbWidth.
unfoldable pub wall_areas : Setup → ℕ → ℕ → ℕ → List (List Rect)
unfolding row_areas
wall_areas s zero row cur_y = []
wall_areas s (suc n) row cur_y =
    row_areas s row cur_y s.blocks.0 0 0
    ∷ wall_areas s n (suc row) (cur_y + along s row (s.blocks.0 - 1))

-- The rect_area of every block.
unfoldable pub lay_out : Setup → List (List Rect)
unfolding wall_areas
lay_out s = wall_areas s s.blocks.1 0 0
