-- ===== src/Tiled/Positions.antt =====
-- python/vsapi.py: TiledDisplay.setupXServers, where the blocks of a group, which one X server drives,
-- get their positions in that server.
use native.Mathlib.Nat.{div-mul-le_self, mul-le-mul_right}
use vizstack.Prelude.{
  ℕ, zero, suc, ◌+◌, ◌*◌, ◌/◌, ◌≤◌, ◌<◌, ◌≡◌, refl, ap, ◌∙◌, none, some, List, get_elem?, arith,
}
use vizstack.Prelude.Int.{pos, ◌-ℤ◌, int_laws}
use vizstack.Errors.{Result, ok, raise, and_then, index_error}
use vizstack.Screen.{FbProperty}
use vizstack.Tiled.Layout.{Setup, Rect, lay_out, across, along}
use vizstack.Tiled.Layout.Grid.{KeepsGrid, column_at, row_at, cells_of_row, cells, lay_out_lem}

-- l[i]
abbrev pub item {ℓ} : {A : Type ℓ} → List A → ℕ → Result A
item l i = elim (get_elem? l i) [ none ↦ raise index_error | some a ↦ ok a ]

abbrev pub area_at : List (List Rect) → ℕ → ℕ → Result Rect
area_at areas row col = and_then (item areas row) (λ blocks. item blocks col)

-- subArea minus originArea, for a block of the group whose first block is at the origin.
unfoldable pub position_in_server : List (List Rect) → ℕ × ℕ → ℕ → ℕ → ℕ → ℕ → Result FbProperty
position_in_server areas group server_row server_col sub_row sub_col =
    let origin_col = server_col * group.0 in
    let origin_row = server_row * group.1 in
    and_then (area_at areas origin_row origin_col) λ origin.
      and_then (area_at areas (origin_row + sub_row) (origin_col + sub_col))
        λ sub. ok (FbProperty.position (pos sub.x1 -ℤ pos origin.x1) (pos sub.y1 -ℤ pos origin.y1))

row_of_cells :
    (s : Setup) (n row i : ℕ)
    → i < n
    → get_elem? (cells s n row) i ≡ some (cells_of_row s (row + i) s.blocks.0 0)
row_of_cells s zero row i h = absurd (omega arith)
row_of_cells s (suc n) row zero h =
    let same : row ≡ row + 0 = omega arith in ap (λ r. some (cells_of_row s r s.blocks.0 0)) same
row_of_cells s (suc n) row (suc i) h =
    let same : suc row + i ≡ row + suc i = omega arith in
    row_of_cells s n (suc row) i (omega arith) ∙ ap (λ r. some (cells_of_row s r s.blocks.0 0)) same

abbrev pub cell : Setup → ℕ → ℕ → Rect
cell s row col = record {
  x1 = column_at s col;
  y1 = row_at s row;
  x2 = column_at s (suc col);
  y2 = row_at s (suc row);
}

cell_of_row :
    (s : Setup) (row n col i : ℕ)
    → i < n
    → get_elem? (cells_of_row s row n col) i ≡ some (cell s row (col + i))
cell_of_row s row zero col i h = absurd (omega arith)
cell_of_row s row (suc n) col zero h =
    let same : col ≡ col + 0 = omega arith in ap (λ c. some (cell s row c)) same
cell_of_row s row (suc n) col (suc i) h =
    let same : suc col + i ≡ col + suc i = omega arith in
    cell_of_row s row n (suc col) i (omega arith) ∙ ap (λ c. some (cell s row c)) same

found {ℓ} : {A : Type ℓ} (l : List A) (i : ℕ) (a : A) → get_elem? l i ≡ some a → item l i ≡ ok a
found l i a h = ap (λ o. elim o [ none ↦ raise index_error | some b ↦ ok b ]) h

area_at_lem :
    (s : Setup)
    → KeepsGrid s
    → (row col : ℕ) → row < s.blocks.1
    → col < s.blocks.0
    → area_at (lay_out s) row col ≡ ok (cell s row col)
area_at_lem s keeps row col h k =
    let line = cells_of_row s row s.blocks.0 0 in
    let same_row : 0 + row ≡ row = omega arith in
    let same_col : 0 + col ≡ col = omega arith in
    let here : get_elem? (lay_out s) row ≡ some line =
      ap (λ areas. get_elem? areas row) (lay_out_lem s keeps)
      ∙ row_of_cells s s.blocks.1 0 row h
      ∙ ap (λ r. some (cells_of_row s r s.blocks.0 0)) same_row in
    let there : get_elem? line col ≡ some (cell s row col) =
      cell_of_row s row s.blocks.0 0 col k ∙ ap (λ c. some (cell s row c)) same_col in
    ap (λ r. and_then r (λ blocks. item blocks col)) (found (lay_out s) row line here)
    ∙ found line col (cell s row col) there

-- Behind the position of a block, the blocks of the group add what they are wide and high.
positioned :
    (s : Setup)
    → KeepsGrid s
    → (group : ℕ × ℕ) (server_row server_col sub_row sub_col : ℕ)
    → server_row * group.1 + sub_row < s.blocks.1
    → server_col * group.0 + sub_col < s.blocks.0
    → position_in_server (lay_out s) group server_row server_col sub_row sub_col
      ≡ ok (
          FbProperty.position
            (pos (column_at s (server_col * group.0 + sub_col))
              -ℤ pos (column_at s (server_col * group.0)))
            (pos (row_at s (server_row * group.1 + sub_row))
              -ℤ pos (row_at s (server_row * group.1))))
unfolding position_in_server
positioned s keeps group server_row server_col sub_row sub_col h k =
    rw
      (
        area_at_lem s keeps (server_row * group.1) (server_col * group.0) (omega arith)
            (omega arith),
        area_at_lem s keeps (server_row * group.1 + sub_row) (server_col * group.0 + sub_col) h k,
      )
      refl

-- What lies between two lines of the grid.
column_at_add : (s : Setup) (col n : ℕ) → (x : ℕ) × (column_at s (col + n) ≡ column_at s col + x)
column_at_add s col zero =
    (0, let same : col + 0 ≡ col = omega arith in ap (column_at s) same ∙ omega arith)
column_at_add s col (suc n) =
    let (x, h) = column_at_add s col n in
    let same : col + suc n ≡ suc (col + n) = omega arith in
    (x + across s 0 (col + n), ap (column_at s) same ∙ omega (arith, h))

row_at_add : (s : Setup) (row n : ℕ) → (y : ℕ) × (row_at s (row + n) ≡ row_at s row + y)
row_at_add s row zero =
    (0, let same : row + 0 ≡ row = omega arith in ap (row_at s) same ∙ omega arith)
row_at_add s row (suc n) =
    let (y, h) = row_at_add s row n in
    let same : row + suc n ≡ suc (row + n) = omega arith in
    (y + along s (row + n) 0, ap (row_at s) same ∙ omega (arith, h))

-- A block of a server is a block of the wall.
in_wall : (n size server sub : ℕ) → server < n / size → sub < size → server * size + sub < n
in_wall n size server sub h k =
    let bound : suc server * size ≤ n / size * size = mul-le-mul_right size h in
    let next : suc server * size ≡ server * size + size = ground arith in
    omega (arith, bound, next, div-mul-le_self n size)

difference : (a b x : ℕ) → a ≡ b + x → pos a -ℤ pos b ≡ pos x
difference a b x h = grind int_laws

-- Where the displays are not turned by a quarter, or the last blocks are not clipped, every block of
-- the group of an X server gets a position that is not negative: how far the lines of the grid on
-- which the block begins lie behind those on which the first block of the group begins. The index of
-- the server and that of the block in the group are within the ranges of the loops.
pub position_in_server_lem :
    (s : Setup)
    → KeepsGrid s
    → (group : ℕ × ℕ) (server_row server_col sub_row sub_col : ℕ)
    → server_row < s.blocks.1 / group.1
    → server_col < s.blocks.0 / group.0
    → sub_row < group.1
    → sub_col < group.0
    → (x y : ℕ) × (position_in_server (lay_out s) group server_row server_col sub_row sub_col
        ≡ ok (FbProperty.position (pos x) (pos y)))
      × (column_at s (server_col * group.0 + sub_col) ≡ column_at s (server_col * group.0) + x)
      × (row_at s (server_row * group.1 + sub_row) ≡ row_at s (server_row * group.1) + y)
position_in_server_lem s keeps group server_row server_col sub_row sub_col h k i j =
    let (x, wide) = column_at_add s (server_col * group.0) sub_col in
    let (y, high) = row_at_add s (server_row * group.1) sub_row in
    (
      x,
      y,
      positioned s keeps group server_row server_col sub_row sub_col
            (in_wall s.blocks.1 group.1 server_row sub_row h i)
            (in_wall s.blocks.0 group.0 server_col sub_col k j)
          ∙ rw (difference _ _ x wide, difference _ _ y high) refl,
      wide,
      high,
    )
