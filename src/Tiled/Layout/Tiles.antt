-- ===== src/Tiled/Layout/Tiles.antt =====
-- python/vsapi.py: the tiles of a block in its framebuffer.
use vizstack.Prelude.{
  ℕ, ◌+◌, ◌*◌, ◌≤◌, ◌≡◌, ◌⊎◌, ◌∙◌, inl, inr, Bool-cases, List, [], ◌∷◌, ◌++◌, map, length,
  length-append, All, All-append, All-mono, All-map, All-const, length-map, arith,
}
use vizstack.Tiled.Layout.{
  Setup, Block, block_at, is_upright, row_pass, col_pass, edges_of, last_sub_col, last_sub_row,
  horizontal, vertical,
}
use vizstack.Tiled.Layout.Placing.{positions}
use vizstack.Tiled.Layout.Pass.{ArePacked, IsPass, pass-IsPass}

-- As many tiles as the clipped block has, packed along both axes.
pub record IsPacked (s : Setup) (row col : ℕ) (b : Block) : Type 0 where
  pub x_pass : IsPass s.tile.0 (last_sub_col s col + 1) (b.fb_width, b.o_x)
  pub y_pass : IsPass s.tile.1 (last_sub_row s row + 1) (b.fb_height, b.o_y)

block_at-IsPacked : (s : Setup) (row col : ℕ) → IsPacked s row col (block_at s row col)
unfolding block_at row_pass col_pass
block_at-IsPacked s row col =
    let e = edges_of s.rotate in
    let (last_row, last_col) : ℕ × ℕ = (last_sub_row s row, last_sub_col s col) in
    elim (Bool-cases (is_upright s)) [
      | inl up ↦ rw up (record {
        x_pass =
            pass-IsPass horizontal s e.left_edge e.right_edge s.tile.0 col s.blocks.0 last_col
              (last_col + 1);
        y_pass =
            pass-IsPass vertical s e.top_edge e.bottom_edge s.tile.1 row s.blocks.1 last_row
              (last_row + 1);
      })
      | inr turned ↦ rw turned (record {
        x_pass =
            pass-IsPass horizontal s e.top_edge e.bottom_edge s.tile.0 row s.blocks.1 last_row
              (last_col + 1);
        y_pass =
            pass-IsPass vertical s e.left_edge e.right_edge s.tile.1 col s.blocks.0 last_col
              (last_row + 1);
      })
    ]

module _ {ℓ κ} {A : Type ℓ} (R : A → A → Type κ) where
  -- Every entry stands in this relation to those after it.
  abbrev pub Pairwise : List A → Type κ
  Pairwise [] = Unit
  Pairwise (a ∷ l) = All (R a) l × Pairwise l

  Pairwise-append :
      (l m : List A) → Pairwise l → Pairwise m → All (λ a. All (R a) m) l → Pairwise (l ++ m)
  Pairwise-append [] m h k across = k
  Pairwise-append (a ∷ l) m h k across =
      (All-append (R a) l m h.0 across.0, Pairwise-append l m h.1 k across.1)

-- Tiles of this size at two places: the second is right of the first, or below it.
abbrev pub IsPast : ℕ × ℕ → ℕ × ℕ → ℕ × ℕ → Type 0
IsPast tile p q = (p.0 + tile.0 ≤ q.0) ⊎ (p.1 + tile.1 ≤ q.1)

abbrev pub Fits : ℕ × ℕ → ℕ × ℕ → ℕ × ℕ → Type 0
Fits tile frame p = (p.0 + tile.0 ≤ frame.0) × (p.1 + tile.1 ≤ frame.1)

packed_between :
    (size start end : ℕ) (l : List ℕ)
    → ArePacked size start l end
    → (start ≤ end) × All (λ o. (start ≤ o) × (o + size ≤ end)) l
packed_between size start end [] h = (h, tt)
packed_between size start end (o ∷ l) h =
    let (far, rest) = packed_between size (o + size) end l h.1 in
    (omega (arith, h.0), ((h.0, far), All-mono _ _ (λ p k. (omega (arith, k.0, h.0), k.1)) l rest))

-- One row of tiles, at the height y.
row_of_tiles :
    (tile : ℕ × ℕ) (start width y : ℕ) (l : List ℕ)
    → ArePacked tile.0 start l width
    → Pairwise (IsPast tile) (map (λ x. (x, y)) l)
row_of_tiles tile start width y [] h = tt
row_of_tiles tile start width y (o ∷ l) h =
    let (_, rest) = packed_between tile.0 (o + tile.0) width l h.1 in
    (
      All-map (λ x. (x, y)) (IsPast tile (o, y)) l (All-mono _ _ (λ p k. inl k.0) l rest),
      row_of_tiles tile (o + tile.0) width y l h.1,
    )

-- The tiles at a height and those from a height below it on.
rows_below :
    (tile : ℕ × ℕ) (p : ℕ × ℕ) (o_x o_y : List ℕ) (start height : ℕ)
    → p.1 + tile.1 ≤ start
    → ArePacked tile.1 start o_y height
    → All (IsPast tile p) (positions o_x o_y)
rows_below tile p o_x [] start height h k = tt
rows_below tile p o_x (y ∷ o_y) start height h k =
    All-append (IsPast tile p) (map (λ x. (x, y)) o_x) (positions o_x o_y)
      (All-map (λ x. (x, y)) (IsPast tile p) o_x (All-const (λ x. inr (omega (arith, k.0))) o_x))
      (rows_below tile p o_x o_y (y + tile.1) height (omega (arith, k.0)) k.1)

positions-Pairwise :
    (tile frame : ℕ × ℕ) (o_x o_y : List ℕ) (start : ℕ)
    → ArePacked tile.0 0 o_x frame.0
    → ArePacked tile.1 start o_y frame.1
    → Pairwise (IsPast tile) (positions o_x o_y)
positions-Pairwise tile frame o_x [] start h k = tt
positions-Pairwise tile frame o_x (y ∷ o_y) start h k =
    Pairwise-append (IsPast tile) (map (λ x. (x, y)) o_x) (positions o_x o_y)
      (row_of_tiles tile 0 frame.0 y o_x h)
      (positions-Pairwise tile frame o_x o_y (y + tile.1) h k.1)
      (All-map (λ x. (x, y)) (λ p. All (IsPast tile p) (positions o_x o_y)) o_x
        (All-const (λ x. rows_below tile (x, y) o_x o_y (y + tile.1) frame.1 (omega arith) k.1)
          o_x))

positions-Fits :
    (tile frame : ℕ × ℕ) (o_x o_y : List ℕ) (start : ℕ)
    → ArePacked tile.0 0 o_x frame.0
    → ArePacked tile.1 start o_y frame.1
    → All (Fits tile frame) (positions o_x o_y)
positions-Fits tile frame o_x [] start h k = tt
positions-Fits tile frame o_x (y ∷ o_y) start h k =
    let (_, wide) = packed_between tile.0 0 frame.0 o_x h in
    let (_, (here, _)) = packed_between tile.1 start frame.1 (y ∷ o_y) k in
    All-append (Fits tile frame) (map (λ x. (x, y)) o_x) (positions o_x o_y)
      (All-map (λ x. (x, y)) (Fits tile frame) o_x (All-mono _ _ (λ x m. (m.1, here.1)) o_x wide))
      (positions-Fits tile frame o_x o_y (y + tile.1) h k.1)

length-positions : (o_x o_y : List ℕ) → length (positions o_x o_y) ≡ length o_x * length o_y
length-positions o_x [] = omega arith
length-positions o_x (y ∷ o_y) = omega (
  arith,
  length-append (map (λ x. (x, y)) o_x) (positions o_x o_y),
  length-map {B = ℕ × ℕ} (λ x. (x, y)) o_x,
  length-positions o_x o_y,
)

-- The tiles of a block, as positions in its framebuffer.
abbrev pub tiles_of : Setup → ℕ → ℕ → List (ℕ × ℕ)
tiles_of s row col = positions (block_at s row col).o_x (block_at s row col).o_y

-- In every block, for every rotation, treatment of the bezels and clipping: there are as many tiles as
-- the clipped block has columns times rows, each lies inside of the framebuffer, and of two of them the
-- later one is right of the earlier one or below it.
pub block_tiles :
    (s : Setup) (row col : ℕ)
    → (length (tiles_of s row col) ≡ (last_sub_col s col + 1) * (last_sub_row s row + 1))
      × All
          (Fits s.tile ((block_at s row col).fb_width, (block_at s row col).fb_height))
          (tiles_of s row col)
      × Pairwise (IsPast s.tile) (tiles_of s row col)
block_tiles s row col =
    let b = block_at s row col in
    let p = block_at-IsPacked s row col in
    (
      length-positions b.o_x b.o_y ∙ (λ i. p.x_pass.count i * p.y_pass.count i),
      positions-Fits s.tile (b.fb_width, b.fb_height) b.o_x b.o_y 0 p.x_pass.packed p.y_pass.packed,
      positions-Pairwise s.tile (b.fb_width, b.fb_height) b.o_x b.o_y 0 p.x_pass.packed
          p.y_pass.packed,
    )
