-- ===== src/Tiled/Validation/Checks.antt =====
-- python/vsapi.py: what each check of TiledDisplay's parameters accepts.
use vizstack.Prelude.{
  ℕ, zero, suc, ◌*◌, ◌%◌, ◌≤◌, ◌<◌, ◌≡◌, ◌≢◌, ◌↔◌, ◌⊎◌, refl, String, Bool, true, false, not, ◌||◌,
  ◌&&◌, Option, none, some, List, [], ◌∷◌, contains, ◌==◌, ◌!=◌, nat_eq, nat_beq_iff, string_eq,
  option_eq, if◌then◌else◌, arith, inl, inr,
}
use text.Mathlib.TextEquality.{eq_iff}
use vizstack.Prelude.Int.{ℤ, pos, negsuc}
use vizstack.Errors.{ok, raise, and_then-ok, value_error}
use vizstack.Screen.{stereo_modes, rotation_modes}
use vizstack.Tiled.Validation.{
  refuse_if, check_rotate, check_block_type, check_pair, check_group, check_displays, check_stereo,
  check_clip, clip_misfits, valid_block_types,
}

abbrev pub IsRotation : Option String → Type 0
IsRotation rotate = (m : String) → rotate ≡ some m → contains rotation_modes m ≡ true

pub check_rotate_iff : (rotate : Option String) → (check_rotate rotate ≡ ok tt) ↔ IsRotation rotate
unfolding check_rotate
check_rotate_iff none = (λ h m e. absurd cc, λ h. refl)
check_rotate_iff (some mode) = (λ h m e. ground arith, λ h. ground (arith, h mode refl))

pub check_block_type_iff :
    (type : Option String) (kind : String)
    → (check_block_type type ≡ ok kind)
      ↔ ((type ≡ some kind) × (contains valid_block_types kind ≡ true))
unfolding check_block_type
check_block_type_iff none kind = ground arith
check_block_type_iff (some type) kind = ground arith

abbrev pub IsPair : Option (List ℤ) → ℕ × ℕ → Type 0
IsPair l p = (l ≡ some (pos p.0 ∷ pos p.1 ∷ [])) × (0 < p.0) × (0 < p.1)

pub check_pair-IsPair : (l : Option (List ℤ)) (p : ℕ × ℕ) → check_pair l ≡ ok p → IsPair l p
unfolding check_pair
check_pair-IsPair none p h = absurd cc
check_pair-IsPair (some []) p h = absurd cc
check_pair-IsPair (some (a ∷ [])) p h = ground arith
check_pair-IsPair (some (a ∷ b ∷ c ∷ l)) p h = ground arith
check_pair-IsPair (some (negsuc a ∷ b ∷ [])) p h = ground arith
check_pair-IsPair (some (pos zero ∷ b ∷ [])) p h = absurd cc
check_pair-IsPair (some (pos (suc a) ∷ negsuc b ∷ [])) p h = absurd cc
check_pair-IsPair (some (pos (suc a) ∷ pos zero ∷ [])) p h = absurd cc
check_pair-IsPair (some (pos (suc a) ∷ pos (suc b) ∷ [])) p h = ground arith

pub IsPair-check_pair : (l : Option (List ℤ)) (a b : ℕ) → IsPair l (a, b) → check_pair l ≡ ok (a, b)
unfolding check_pair
IsPair-check_pair l zero b h = absurd (omega arith)
IsPair-check_pair l (suc a) zero h = absurd (omega arith)
IsPair-check_pair l (suc a) (suc b) h = rw h.0 refl

check_pair_iff : (l : Option (List ℤ)) (p : ℕ × ℕ) → (check_pair l ≡ ok p) ↔ IsPair l p
check_pair_iff l p = (check_pair-IsPair l p, IsPair-check_pair l p.0 p.1)

-- The groups divide the wall evenly; a QuadroPlex wall is one block.
abbrev pub IsGrouping : Option (List ℤ) → ℕ × ℕ → String → Type 0
IsGrouping group blocks kind =
    (group ≡ none)
    ⊎ ((g : ℕ × ℕ) × IsPair group g
        × (blocks.0 % g.0 ≡ 0)
        × (blocks.1 % g.1 ≡ 0)
        × (kind ≡ "quadroplex" → blocks.0 * blocks.1 ≡ 1))

group_test :
    (kind : String) (blocks g : ℕ × ℕ)
    → ((if blocks.0 % g.0 != 0 || blocks.1 % g.1 != 0
          then raise value_error
          else refuse_if (kind == "quadroplex" && (blocks.0 * blocks.1 != 1)))
        ≡ ok tt)
      ↔ ((blocks.0 % g.0 ≡ 0)
          × (blocks.1 % g.1 ≡ 0)
          × (kind ≡ "quadroplex" → blocks.0 * blocks.1 ≡ 1))
group_test kind blocks g = ground (
  arith,
  eq_iff kind "quadroplex",
  nat_beq_iff (blocks.0 % g.0) 0,
  nat_beq_iff (blocks.1 % g.1) 0,
  nat_beq_iff (blocks.0 * blocks.1) 1,
)

pub check_group-IsGrouping :
    (group : Option (List ℤ)) (blocks : ℕ × ℕ) (kind : String)
    → check_group group blocks kind ≡ ok tt
    → IsGrouping group blocks kind
unfolding check_group
check_group-IsGrouping none blocks kind h = inl refl
check_group-IsGrouping (some l) blocks kind h =
    let (g, e, rest) = and_then-ok (check_pair (some l)) _ tt h in
    let (even, level, single) = (group_test kind blocks g).0 rest in
    inr (g, check_pair-IsPair (some l) g e, even, level, single)

pub IsGrouping-check_group :
    (group : Option (List ℤ)) (blocks : ℕ × ℕ) (kind : String)
    → IsGrouping group blocks kind
    → check_group group blocks kind ≡ ok tt
unfolding check_group
IsGrouping-check_group none blocks kind h = refl
IsGrouping-check_group (some l) blocks kind (inl h) = absurd cc
IsGrouping-check_group (some l) blocks kind (inr (g, pair, even, level, single)) =
    rw (IsPair-check_pair (some l) g.0 g.1 pair)
      ((group_test kind blocks g).1 (even, level, single))

pub check_displays_iff :
    (kind : String) (layout : ℕ × ℕ)
    → (check_displays kind layout ≡ ok tt) ↔ (
        (kind ≡ "gpu" → (1 ≤ layout.0 * layout.1) × (layout.0 * layout.1 ≤ 2))
        × (kind ≢ "gpu" → (2 ≤ layout.0 * layout.1) × (layout.0 * layout.1 ≤ 4)))
unfolding check_displays
check_displays_iff kind layout = ground (arith, eq_iff kind "gpu")

abbrev pub IsStereo : Option String → ℕ × ℕ → String → Type 0
IsStereo stereo layout kind =
    (mode : String)
    → stereo ≡ some mode
    → (contains stereo_modes mode ≡ true)
      × (mode ≡ "passive" → (layout.0 ≡ 1) × (layout.1 ≡ 1) × (kind ≢ "quadroplex"))

stereo_test :
    (mode : String) (layout : ℕ × ℕ) (kind : String)
    → ((if not (contains stereo_modes mode)
          then raise value_error
          else refuse_if
              (mode == "passive" && (layout.0 != 1 || layout.1 != 1 || kind == "quadroplex")))
        ≡ ok tt)
      ↔ ((contains stereo_modes mode ≡ true)
          × (mode ≡ "passive" → (layout.0 ≡ 1) × (layout.1 ≡ 1) × (kind ≢ "quadroplex")))
stereo_test mode layout kind = ground (
  arith,
  eq_iff mode "passive",
  eq_iff kind "quadroplex",
  nat_beq_iff layout.0 1,
  nat_beq_iff layout.1 1,
)

pub check_stereo_iff :
    (stereo : Option String) (layout : ℕ × ℕ) (kind : String)
    → (check_stereo stereo layout kind ≡ ok tt) ↔ IsStereo stereo layout kind
unfolding check_stereo
check_stereo_iff none layout kind = (λ h m e. absurd cc, λ h. refl)
check_stereo_iff (some mode) layout kind =
    let test = stereo_test mode layout kind in
    (λ h m e. let same : mode ≡ m = cc in rw same at (test.0 h), λ h. test.1 (h mode refl))

abbrev pub Clips : Option ℤ → ℕ → Type 0
Clips clip size = (n : ℤ) → clip ≡ some n → (k : ℕ) × (n ≡ pos k) × (1 ≤ k) × (k ≤ size)

abbrev pub IsClip : Option (List (Option ℤ)) → ℕ × ℕ → Type 0
IsClip clip layout =
    (clip ≡ none)
    ⊎ ((a : Option ℤ) × (b : Option ℤ) × (clip ≡ some (a ∷ b ∷ []))
        × Clips a layout.0
        × Clips b layout.1)

clip_misfits_iff : (clip : Option ℤ) (size : ℕ) → (clip_misfits clip size ≡ false) ↔ Clips clip size
clip_misfits_iff none size = (λ h n e. absurd cc, λ h. refl)
clip_misfits_iff (some (negsuc n)) size =
    (λ h m e. absurd cc, λ h. let (k, e, _, _) = h (negsuc n) refl in absurd cc)
clip_misfits_iff (some (pos n)) size = (
  λ h m e. (n, cc, ground arith, ground arith),
  λ h. let (k, e, some_rows, fits) = h (pos n) refl in ground arith,
)

or_false : (a b : Bool) → (refuse_if (a || b) ≡ ok tt) ↔ ((a ≡ false) × (b ≡ false))
or_false a b = ground arith

pub check_clip-IsClip :
    (clip : Option (List (Option ℤ))) (layout : ℕ × ℕ)
    → check_clip clip layout ≡ ok tt
    → IsClip clip layout
unfolding check_clip
check_clip-IsClip none layout h = inl refl
check_clip-IsClip (some []) layout h = absurd cc
check_clip-IsClip (some (a ∷ [])) layout h = absurd cc
check_clip-IsClip (some (a ∷ b ∷ [])) layout h =
    let (fits, also) = (or_false (clip_misfits a layout.0) (clip_misfits b layout.1)).0 h in
    inr (a, b, refl, (clip_misfits_iff a layout.0).0 fits, (clip_misfits_iff b layout.1).0 also)
check_clip-IsClip (some (a ∷ b ∷ c ∷ l)) layout h = absurd cc

pub IsClip-check_clip :
    (clip : Option (List (Option ℤ))) (layout : ℕ × ℕ)
    → IsClip clip layout
    → check_clip clip layout ≡ ok tt
unfolding check_clip
IsClip-check_clip clip layout (inl h) = rw (h, check_clip) refl
IsClip-check_clip clip layout (inr (a, b, e, fits, also)) =
    rw (e, check_clip)
      ((or_false (clip_misfits a layout.0) (clip_misfits b layout.1)).1
        ((clip_misfits_iff a layout.0).1 fits, (clip_misfits_iff b layout.1).1 also))
