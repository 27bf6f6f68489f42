-- ===== src/Server/Combined.antt =====
-- python/vsapi.py: the size and the stereo mode that getCombinedScreen gives to the screen which
-- stands for all screens of a Xinerama server.
use vizstack.Prelude.{
  ℕ, ◌+◌, ◌≤◌, ◌≡◌, ◌↔◌, refl, ap, sym, ◌∙◌, subst, String, Bool, true, false, Option, none, some,
  List, [], ◌∷◌, All, ◌!=◌, option_eq, option_beq_iff, string_eq, if◌then◌else◌, arith, inl, inr,
  Option-cases,
}
use vizstack.Errors.{Result, viz_error, bad_configuration, and_then-ok, ok, raise}
use vizstack.Screen.{Screen, get_resolution, create_xinerama_screen}
use vizstack.Server.{
  Server, Extent, no_extent, larger, position_of, grow, extend, extend_all, get_screens,
  get_combined_screen,
}

-- How far a screen counts to the right, and how far down: its lower edge where it is as wide as high.
abbrev pub right : Screen → ℕ
right scr = elim (get_resolution scr) [ ok dim ↦ (position_of scr).0 + dim.0 | raise e ↦ 0 ]

abbrev pub down : Screen → ℕ
down scr = elim (get_resolution scr) [ ok dim ↦ (position_of scr).1 + dim.0 | raise e ↦ 0 ]

-- The least number that nothing in the list exceeds.
abbrev pub IsLeastOver : (Screen → ℕ) → List Screen → ℕ → Type 0
IsLeastOver f screens bound =
    All (λ scr. f scr ≤ bound) screens
    × ((other : ℕ) → All (λ scr. f scr ≤ other) screens → bound ≤ other)

-- As far as the loop has come: at least what it began with.
abbrev IsLeastFrom : (Screen → ℕ) → ℕ → List Screen → ℕ → Type 0
IsLeastFrom f start screens bound =
    (start ≤ bound)
    × All (λ scr. f scr ≤ bound) screens
    × ((other : ℕ) → start ≤ other → All (λ scr. f scr ≤ other) screens → bound ≤ other)

least_step :
    (f : Screen → ℕ) (scr : Screen) (start after bound : ℕ) (rest : List Screen)
    → after ≡ larger (f scr) start
    → IsLeastFrom f after rest bound
    → IsLeastFrom f start (scr ∷ rest) bound
least_step f scr start after bound rest e (far, all, least) =
    (ground arith, (ground arith, all), λ other h k. least other (ground arith) k.1)

grow_sides :
    (m : Extent) (scr : Screen) (dim : ℕ × ℕ)
    → get_resolution scr ≡ ok dim
    → ((grow m scr dim).max_x ≡ larger (right scr) m.max_x)
      × ((grow m scr dim).max_y ≡ larger (down scr) m.max_y)
grow_sides m scr dim res = (rw (res, right) refl, rw (res, down) refl)

-- One round of the loop.
extend_all-cons :
    (scr : Screen) (rest : List Screen) (m after : Extent)
    → extend_all m (scr ∷ rest) ≡ ok after
    → (dim : ℕ × ℕ) × (get_resolution scr ≡ ok dim) × (extend_all (grow m scr dim) rest ≡ ok after)
unfolding extend_all extend
extend_all-cons scr rest m after h =
    let (next, e, later) = and_then-ok (extend m scr) (λ n. extend_all n rest) after h in
    let (dim, res, same) = and_then-ok (get_resolution scr) (λ dim. ok (grow m scr dim)) next e in
    (dim, res, cc)

extend_all_lem :
    (screens : List Screen) (m after : Extent)
    → extend_all m screens ≡ ok after
    → IsLeastFrom right m.max_x screens after.max_x × IsLeastFrom down m.max_y screens after.max_y
unfolding extend_all
extend_all_lem [] m after h =
    let same : m ≡ after = cc in
    rw same ((omega arith, tt, λ other k _. k), (omega arith, tt, λ other k _. k))
extend_all_lem (scr ∷ rest) m after h =
    let (dim, res, later) = extend_all-cons scr rest m after h in
    let (least_x, least_y) = extend_all_lem rest (grow m scr dim) after later in
    let (x, y) = grow_sides m scr dim res in
    (
      least_step right scr m.max_x (grow m scr dim).max_x after.max_x rest x least_x,
      least_step down scr m.max_y (grow m scr dim).max_y after.max_y rest y least_y,
    )

abbrev HasStereo : Option String → Screen → Type 0
HasStereo mode scr = scr.properties.stereo ≡ mode

single_step :
    (stereo : Option String) (mode : String) (single : Bool)
    → ((if stereo != some mode then false else single) ≡ true)
      ↔ ((single ≡ true) × (stereo ≡ some mode))
single_step stereo mode single = ground (arith, option_beq_iff stereo (some mode))

-- Once a mode is found, all the others must be the same.
stereo_found :
    (screens : List Screen) (m after : Extent) (mode : String)
    → m.overall_stereo ≡ some mode
    → extend_all m screens ≡ ok after
    → (after.overall_stereo ≡ some mode)
      × ((after.single_stereo_mode ≡ true)
          ↔ ((m.single_stereo_mode ≡ true) × All (HasStereo (some mode)) screens))
unfolding extend_all
stereo_found [] m after mode found h =
    let same : m ≡ after = cc in
    (ap (λ (n : Extent). n.overall_stereo) (sym same) ∙ found, rw same (λ k. (k, tt), λ k. k.0))
stereo_found (scr ∷ rest) m after mode found h =
    let (dim, res, later) = extend_all-cons scr rest m after h in
    let (kept, iff) = stereo_found rest (grow m scr dim) after mode (rw found refl) later in
    let single : ((grow m scr dim).single_stereo_mode ≡ true)
        ↔ ((m.single_stereo_mode ≡ true) × HasStereo (some mode) scr) =
      rw found (single_step scr.properties.stereo mode m.single_stereo_mode) in
    (
      kept,
      (
        λ k.
            let (one, others) = iff.0 k in
            let (before, here) = single.0 one in (before, (here, others)),
        λ k. iff.1 (single.1 (k.0, k.1.0), k.1.1),
      ),
    )

-- The screens in order: some without a stereo mode, then at least one with this mode, and none after
-- them without it.
abbrev pub HaveOneMode : String → List Screen → Type 0
HaveOneMode mode [] = ⊥
HaveOneMode mode (scr ∷ rest) = elim scr.properties.stereo [
  | none ↦ HaveOneMode mode rest
  | some s ↦ (s ≡ mode) × All (λ other. other.properties.stereo ≡ some mode) rest
]

abbrev final_stereo : Extent → Option String
final_stereo m = if m.single_stereo_mode then m.overall_stereo else none

final_stereo_lem :
    (m : Extent) (mode : String)
    → final_stereo m ≡ some mode
    → (m.single_stereo_mode ≡ true) × (m.overall_stereo ≡ some mode)
final_stereo_lem m mode h = ground arith

-- The screen is the first with a mode.
stereo_first :
    (scr : Screen) (rest : List Screen) (m after : Extent) (dim : ℕ × ℕ) (s mode : String)
    → m.overall_stereo ≡ none
    → m.single_stereo_mode ≡ true
    → scr.properties.stereo ≡ some s
    → extend_all (grow m scr dim) rest ≡ ok after
    → (final_stereo after ≡ some mode) ↔ ((s ≡ mode) × All (HasStereo (some mode)) rest)
stereo_first scr rest m after dim s mode clear one found later =
    let (kept, iff) = stereo_found rest (grow m scr dim) after s (rw (clear, found) refl) later in
    let single : (grow m scr dim).single_stereo_mode ≡ true =
      rw (clear, found) (ground (arith, option_beq_iff (some s) (some s))) in
    (
      λ h.
          let (whole, is_mode) = final_stereo_lem after mode h in
          let same : s ≡ mode = cc in
          (same, subst (λ z. All (HasStereo (some z)) rest) same ((iff.0 whole).1)),
      λ k.
          let others = subst (λ z. All (HasStereo (some z)) rest) (sym k.0) k.1 in
          rw (iff.1 (single, others)) (kept ∙ ap some k.0),
    )

stereo_open :
    (screens : List Screen) (m after : Extent) (mode : String)
    → m.overall_stereo ≡ none
    → m.single_stereo_mode ≡ true
    → extend_all m screens ≡ ok after
    → (final_stereo after ≡ some mode) ↔ HaveOneMode mode screens
unfolding extend_all
stereo_open [] m after mode clear one h =
    let same : m ≡ after = cc in rw (← same, one, clear) (λ k. absurd cc, λ k. absurd k)
stereo_open (scr ∷ rest) m after mode clear one h =
    let (dim, res, later) = extend_all-cons scr rest m after h in
    elim (Option-cases scr.properties.stereo) [
      | inl e ↦ rw e (
          stereo_open rest (grow m scr dim) after mode (rw (clear, e) refl) (rw (clear, e) one)
            later)
      | inr (s, e) ↦ rw e (stereo_first scr rest m after dim s mode clear one e later)
    ]

-- Where getCombinedScreen returns a screen, its width is the least that no screen exceeds with its
-- right edge; its height is the least that no screen exceeds with its upper edge plus its width; and
-- it has a stereo mode exactly when some screens without a mode come first, and then at least one
-- with this mode and none that differs.
pub get_combined_screen_lem :
    (self : Server) (combined : Screen)
    → get_combined_screen self ≡ ok combined
    → (w : ℕ) × (h : ℕ) × (combined.properties.resolution ≡ some (w, h))
      × IsLeastOver right (get_screens self) w
      × IsLeastOver down (get_screens self) h
      × ((mode : String)
          → (combined.properties.stereo ≡ some mode) ↔ HaveOneMode mode (get_screens self))
unfolding get_combined_screen create_xinerama_screen
get_combined_screen_lem self combined made =
    let (on, inner) = combining self.combine_fbs _ made in
    let (m, e, built) = and_then-ok (extend_all no_extent (get_screens self)) _ combined inner in
    let (least_x, least_y) = extend_all_lem (get_screens self) no_extent m e in
    let screen : create_xinerama_screen (some self.res_index) (m.max_x, m.max_y) (final_stereo m)
        ≡ combined =
      cc in
    let stereo : final_stereo m ≡ combined.properties.stereo =
      ap (λ (scr : Screen). scr.properties.stereo) screen in
    (
      m.max_x,
      m.max_y,
      cc,
      (least_x.1, λ other k. least_x.2 other (omega arith) k),
      (least_y.1, λ other k. least_y.2 other (omega arith) k),
      λ mode. rw (← stereo) (stereo_open (get_screens self) no_extent m mode refl refl e),
    )
  where
    combining :
        (b : Bool) (r : Result Screen)
        → (if b then r else raise (viz_error bad_configuration)) ≡ ok combined
        → (b ≡ true) × (r ≡ ok combined)
    combining true r h = (refl, h)
    combining false r h = absurd cc
