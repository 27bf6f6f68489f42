-- ===== src/Tiled/Layout/Scanouts.antt =====
-- python/vsapi.py: the scanouts of a block, on the ports that remap_display_outputs gives.
use native.Mathlib.Nat.{mul-le-mul_left, mul-le-mul_right}
use vizstack.Prelude.{
  ℕ, zero, suc, Option, String, ◌++◌, ◌==◌, string_eq, option_eq, option_beq_iff, if◌then◌else◌,
  Bool-cases, inl, inr, ◌+◌, ◌*◌, ◌≤◌, ◌<◌, ◌≡◌, refl, ap, sym, ◌∙◌, none, some, List, [], ◌∷◌, map,
  length, get_elem?, arith,
}
use vizstack.Errors.{ok, raise, index_error}
use vizstack.Tiled.Layout.{Setup, Block, block_at, last_sub, last_sub_col, last_sub_row}
use vizstack.Tiled.Layout.Placing.{positions, last_origin, second_scanout, place, scanouts_at}
use vizstack.Tiled.Layout.Tiles.{tiles_of, block_tiles}

-- The ports are used in their order, from this one on.
abbrev pub UsePorts : List ℕ → ℕ → List (ℕ × ℕ × ℕ) → Type 0
UsePorts ports index [] = Unit
UsePorts ports index (scanout ∷ rest) =
    (get_elem? ports index ≡ some scanout.0) × UsePorts ports (suc index) rest

abbrev pub position : ℕ × ℕ × ℕ → ℕ × ℕ
position (port, x, y) = (x, y)

in_range :
    (l : List ℕ) (index : ℕ) → index < length l → (port : ℕ) × (get_elem? l index ≡ some port)
in_range [] index h = absurd (omega arith)
in_range (n ∷ l) zero h = (n, refl)
in_range (n ∷ l) (suc index) h = in_range l index (omega arith)

place-cons :
    (ports : List ℕ) (index port x y : ℕ) (rest : List (ℕ × ℕ)) (others : List (ℕ × ℕ × ℕ))
    → get_elem? ports index ≡ some port
    → place ports (suc index) rest ≡ ok others
    → place ports index ((x, y) ∷ rest) ≡ ok ((port, x, y) ∷ others)
unfolding place
place-cons ports index port x y rest others e placed = ground (arith, e, placed)

place_lem :
    (ports : List ℕ) (index : ℕ) (tiles : List (ℕ × ℕ))
    → index + length tiles ≤ length ports
    → (scanouts : List (ℕ × ℕ × ℕ)) × (place ports index tiles ≡ ok scanouts)
      × (map position scanouts ≡ tiles)
      × UsePorts ports index scanouts
unfolding place
place_lem ports index [] h = ([], refl, refl, tt)
place_lem ports index ((x, y) ∷ rest) h =
    let (port, e) = in_range ports index (omega arith) in
    let (others, placed, same, used) = place_lem ports (suc index) rest (omega arith) in
    (
      (port, x, y) ∷ others,
      place-cons ports index port x y rest others e placed,
      ap ((x, y) ∷◌) same,
      (e, used),
    )

last_sub_bound : (index size clip : ℕ) → 0 < size → last_sub index size clip + 1 ≤ size
unfolding last_sub
last_sub_bound index size clip h = ground arith

product_bound : (a b c d : ℕ) → a ≤ c → b ≤ d → a * b ≤ c * d
product_bound a b c d h k = omega (arith, mul-le-mul_right b h, mul-le-mul_left c k)

-- One tile: one column and one row.
single_tile :
    (o_x o_y : List ℕ)
    → length (positions o_x o_y) ≡ 1
    → positions o_x o_y ≡ (last_origin o_x, last_origin o_y) ∷ []
single_tile o_x [] h = absurd (omega arith)
single_tile [] (y ∷ o_y) h = absurd (omega (arith, h, none_wide o_y))
  where
    none_wide : (l : List ℕ) → length (positions [] l) ≡ 0
    none_wide [] = refl
    none_wide (z ∷ l) = none_wide l
single_tile (x ∷ []) (y ∷ []) h = refl
single_tile (x ∷ []) (y ∷ z ∷ o_y) h = absurd (omega (arith, h))
single_tile (x ∷ w ∷ o_x) (y ∷ o_y) h = absurd (omega (arith, h))

-- The tiles that the calls show: passive stereo shows the one tile twice.
abbrev pub shown : Option String → List (ℕ × ℕ) → List (ℕ × ℕ)
shown stereo tiles = if stereo == some "passive" then tiles ++ tiles else tiles

place_none : (ports : List ℕ) (index : ℕ) → place ports index [] ≡ ok []
unfolding place
place_none ports index = refl

passive_calls :
    (s : Setup) (ports : List ℕ) (row col : ℕ) (first : List (ℕ × ℕ × ℕ)) (second : ℕ × ℕ × ℕ)
    → place ports 0 (tiles_of s row col) ≡ ok first
    → second_scanout ports (block_at s row col) ≡ ok second
    → scanouts_at s (some "passive") ports row col ≡ ok (first ++ second ∷ [])
unfolding scanouts_at
passive_calls s ports row col first second h k = rw (h, k) refl

second_on :
    (ports : List ℕ) (port : ℕ) (b : Block)
    → get_elem? ports 1 ≡ some port
    → second_scanout ports b ≡ ok (port, last_origin b.o_x, last_origin b.o_y)
unfolding second_scanout
second_on ports port b h =
    ap
      (λ o. elim o [
        | none ↦ raise index_error
        | some n ↦ ok (n, last_origin b.o_x, last_origin b.o_y)
      ])
      h

passive_at :
    (s : Setup) (ports : List ℕ) (row col : ℕ)
    → length (tiles_of s row col) ≡ 1
    → 2 ≤ length ports
    → (scanouts : List (ℕ × ℕ × ℕ)) × (scanouts_at s (some "passive") ports row col ≡ ok scanouts)
      × (map position scanouts ≡ tiles_of s row col ++ tiles_of s row col)
      × UsePorts ports 0 scanouts
passive_at s ports row col single two =
    let b = block_at s row col in
    let (left, e) = in_range ports 0 (omega arith) in
    let (right, f) = in_range ports 1 (omega arith) in
    let tile : tiles_of s row col ≡ (last_origin b.o_x, last_origin b.o_y) ∷ [] =
      single_tile b.o_x b.o_y single in
    let x = last_origin b.o_x in
    let y = last_origin b.o_y in
    let placed : place ports 0 (tiles_of s row col) ≡ ok ((left, x, y) ∷ []) =
      ap (place ports 0) tile ∙ place-cons ports 0 left x y [] [] e (place_none ports 1) in
    (
      (left, x, y) ∷ (right, x, y) ∷ [],
      passive_calls s ports row col ((left, x, y) ∷ []) (right, x, y) placed
          (second_on ports right b f),
      ap (λ l. l ++ l) (sym tile),
      (e, (f, tt)),
    )

-- The calls of a block.
pub scanouts_at_lem :
    (s : Setup) (stereo : Option String) (ports : List ℕ) (row col : ℕ)
    → 0 < s.layout.0
    → 0 < s.layout.1
    → s.layout.0 * s.layout.1 ≤ length ports
    → (stereo ≡ some "passive" → (s.layout.0 ≡ 1) × (s.layout.1 ≡ 1) × (2 ≤ length ports))
    → (scanouts : List (ℕ × ℕ × ℕ)) × (scanouts_at s stereo ports row col ≡ ok scanouts)
      × (map position scanouts ≡ shown stereo (tiles_of s row col))
      × UsePorts ports 0 scanouts
unfolding scanouts_at
scanouts_at_lem s stereo ports row col wide high enough passive =
    let bound =
      product_bound (last_sub_col s col + 1) (last_sub_row s row + 1) s.layout.0 s.layout.1
        (last_sub_bound col s.layout.0 s.clip.0 wide)
        (last_sub_bound row s.layout.1 s.clip.1 high) in
    elim (Bool-cases (stereo == some "passive")) [
      | inl e ↦
          let same : stereo ≡ some "passive" = (option_beq_iff stereo (some "passive")).0 e in
          let (one, also, two) = passive same in
          let product : s.layout.0 * s.layout.1 ≡ 1 = rw (one, also) refl in
          let single : length (tiles_of s row col) ≡ 1 = omega (
            arith,
            (block_tiles s row col).0,
            bound,
            product,
            product_bound 1 1 (last_sub_col s col + 1) (last_sub_row s row + 1) (omega arith)
                (omega arith),
          ) in
          let (scanouts, placed, tiles, used) = passive_at s ports row col single two in
          (scanouts, rw same placed, rw same tiles, used)
      | inr e ↦
          let (scanouts, placed, tiles, used) =
            place_lem ports 0 (tiles_of s row col)
              (omega (arith, (block_tiles s row col).0, bound)) in
          (scanouts, rw (e, placed) refl, rw e tiles, used)
    ]
