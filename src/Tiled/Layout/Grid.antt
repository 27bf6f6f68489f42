-- ===== src/Tiled/Layout/Grid.antt =====
-- python/vsapi.py: the blocks of the wall.
use vizstack.Prelude.{
  ℕ, zero, suc, ◌+◌, ◌-◌, ◌≤◌, ◌≡◌, ◌⊎◌, refl, true, inl, inr, Bool-cases, List, [], ◌∷◌, arith,
}
use vizstack.Tiled.Layout.{
  Setup, Rect, block_at, is_upright, row_pass, col_pass, last_sub, across, along, row_areas,
  wall_areas, lay_out,
}

-- The last blocks are whole, or the displays are not turned by a quarter.
abbrev pub KeepsGrid : Setup → Type 0
KeepsGrid s = (is_upright s ≡ true) ⊎ ((s.layout.0 ≤ s.clip.0) × (s.layout.1 ≤ s.clip.1))

unclipped : (index size clip : ℕ) → size ≤ clip → last_sub index size clip ≡ size - 1
unfolding last_sub
unclipped index size clip h = ground arith

-- How wide a block is, its column alone says.
across_lem : (s : Setup) → KeepsGrid s → (row col : ℕ) → across s row col ≡ across s 0 col
unfolding across block_at row_pass col_pass
across_lem s (inl up) row col = rw up refl
across_lem s (inr (wide, high)) row col = elim (Bool-cases (is_upright s)) [
  | inl up ↦ rw up refl
  | inr turned ↦
      rw (turned, unclipped row s.layout.1 s.clip.1 high, unclipped 0 s.layout.1 s.clip.1 high) refl
]

-- And how high it is, its row.
along_lem : (s : Setup) → KeepsGrid s → (row col : ℕ) → along s row col ≡ along s row 0
unfolding along block_at row_pass col_pass
along_lem s (inl up) row col = rw up refl
along_lem s (inr (wide, high)) row col = elim (Bool-cases (is_upright s)) [
  | inl up ↦ rw up refl
  | inr turned ↦
      rw (turned, unclipped col s.layout.0 s.clip.0 wide, unclipped 0 s.layout.0 s.clip.0 wide) refl
]

-- Where the columns and the rows of the wall begin.
abbrev pub column_at : Setup → ℕ → ℕ
column_at s zero = 0
column_at s (suc col) = column_at s col + across s 0 col

abbrev pub row_at : Setup → ℕ → ℕ
row_at s zero = 0
row_at s (suc row) = row_at s row + along s row 0

-- The cells of a grid with these lines.
abbrev pub cells_of_row : Setup → ℕ → ℕ → ℕ → List Rect
cells_of_row s row zero col = []
cells_of_row s row (suc n) col =
    record {
      x1 = column_at s col;
      y1 = row_at s row;
      x2 = column_at s (suc col);
      y2 = row_at s (suc row);
    }
    ∷ cells_of_row s row n (suc col)

abbrev pub cells : Setup → ℕ → ℕ → List (List Rect)
cells s zero row = []
cells s (suc n) row = cells_of_row s row s.blocks.0 0 ∷ cells s n (suc row)

row_areas_lem :
    (s : Setup)
    → KeepsGrid s
    → (row n col : ℕ)
    → row_areas s row (row_at s row) n col (column_at s col) ≡ cells_of_row s row n col
unfolding row_areas
row_areas_lem s keeps row zero col = refl
row_areas_lem s keeps row (suc n) col =
    rw
      (across_lem s keeps row col, along_lem s keeps row col, row_areas_lem s keeps row n (suc col))
      refl

wall_areas_lem :
    (s : Setup) → KeepsGrid s → (n row : ℕ) → wall_areas s n row (row_at s row) ≡ cells s n row
unfolding wall_areas
wall_areas_lem s keeps zero row = refl
wall_areas_lem s keeps (suc n) row =
    rw
      (
        row_areas_lem s keeps row s.blocks.0 0,
        along_lem s keeps row (s.blocks.0 - 1),
        wall_areas_lem s keeps n (suc row),
      )
      refl

-- Where the displays are not turned by a quarter, or the last blocks are not clipped, the areas of the
-- blocks are the cells of a grid: the block in a row and a column reaches from the line of its column
-- to the next one, and from the line of its row to the next one, and the first lines are at zero. So
-- the blocks neither overlap nor leave a gap.
pub lay_out_lem : (s : Setup) → KeepsGrid s → lay_out s ≡ cells s s.blocks.1 0
unfolding lay_out
lay_out_lem s keeps = wall_areas_lem s keeps s.blocks.1 0
