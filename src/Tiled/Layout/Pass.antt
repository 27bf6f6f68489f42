-- ===== src/Tiled/Layout/Pass.antt =====
-- python/vsapi.py: the tiles of a block along one axis do not overlap, whatever bezels are between them.
use vizstack.Prelude.{
  ℕ, zero, suc, ◌+◌, ◌≤◌, ◌≡◌, refl, Bool, true, false, not, ◌&&◌, ◌||◌, List, [], ◌∷◌, length,
  nat_beq, arith, ap,
}
use vizstack.Tiled.Layout.{Edge, Axis, Setup, include_bezel, included, around, pass, force_bezel}

-- Tiles of this size begin at these places, one behind the other, after `start` and up to `end`.
abbrev pub ArePacked : ℕ → ℕ → List ℕ → ℕ → Type 0
ArePacked size start [] end = start ≤ end
ArePacked size start (o ∷ rest) end = (start ≤ o) × ArePacked size (o + size) rest end

-- A bezel moves the origin by no more than the framebuffer grows.
abbrev IsWithin : ℕ → ℕ × ℕ → Type 0
IsWithin start p = (start ≤ p.1) × (p.1 ≤ p.0)

included-IsWithin :
    (has : Bool) (axis : Axis) (s : Setup) (edge : Edge) (start : ℕ) (p : ℕ × ℕ)
    → IsWithin start p
    → IsWithin start (included has axis s edge p)
unfolding include_bezel
included-IsWithin false axis s edge start p h = h
included-IsWithin true axis s edge start p h = ground arith

around-IsWithin :
    (axis : Axis) (s : Setup) (near far : Edge) (is_first is_last : Bool) (fb : ℕ)
    → IsWithin fb (around axis s near far is_first is_last fb)
unfolding around
around-IsWithin axis s near far is_first is_last fb =
    included-IsWithin (not is_last || force_bezel s) axis s far fb _ (
      included-IsWithin (not is_first || force_bezel s) axis s near fb (fb, fb)
        (omega arith, omega arith))

ArePacked-mono :
    (size start before end : ℕ) (l : List ℕ)
    → before ≤ start
    → ArePacked size start l end
    → ArePacked size before l end
ArePacked-mono size start before end [] h k = omega arith
ArePacked-mono size start before end (o ∷ l) h k = (omega arith, k.1)

pass-ArePacked :
    (axis : Axis) (s : Setup) (near far : Edge) (size index count last_sub n sub fb : ℕ)
    → ArePacked size fb
        (pass axis s near far size index count last_sub n sub fb).1
        (pass axis s near far size index count last_sub n sub fb).0
unfolding pass
pass-ArePacked axis s near far size index count last_sub zero sub fb = omega arith
pass-ArePacked axis s near far size index count last_sub (suc n) sub fb =
    let first = nat_beq index 0 && nat_beq sub 0 in
    let last = nat_beq (index + 1) count && nat_beq sub last_sub in
    let (behind, within) = around-IsWithin axis s near far first last fb in
    let (taken, origin) = around axis s near far first last fb in
    (
      behind,
      ArePacked-mono size (taken + size) (origin + size) _ _ (omega (arith, within))
          (pass-ArePacked axis s near far size index count last_sub n (suc sub) (taken + size)),
    )

length-pass :
    (axis : Axis) (s : Setup) (near far : Edge) (size index count last_sub n sub fb : ℕ)
    → length (pass axis s near far size index count last_sub n sub fb).1 ≡ n
unfolding pass
length-pass axis s near far size index count last_sub zero sub fb = refl
length-pass axis s near far size index count last_sub (suc n) sub fb =
    ap suc (length-pass axis s near far size index count last_sub n (suc sub) _)

-- So many tiles, packed from the beginning of the framebuffer to its end.
pub record IsPass (size n : ℕ) (r : ℕ × List ℕ) : Type 0 where
  pub packed : ArePacked size 0 r.1 r.0
  pub count : length r.1 ≡ n

pub pass-IsPass :
    (axis : Axis) (s : Setup) (near far : Edge) (size index count last_sub n : ℕ)
    → IsPass size n (pass axis s near far size index count last_sub n 0 0)
pass-IsPass axis s near far size index count last_sub n = record {
  packed = pass-ArePacked axis s near far size index count last_sub n 0 0;
  count = length-pass axis s near far size index count last_sub n 0 0;
}
