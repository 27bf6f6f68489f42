-- ===== src/Resource/Scanouts/Framebuffer.antt =====
-- python/vsapi.py: the scanouts of a GPU stay within its framebuffer and on its ports.
use vizstack.Prelude.{
  ℕ, String, ◌⊎◌, ◌+◌, ◌≤◌, ◌<◌, false, ◌≡◌, refl, sym, subst, Option, none, some, List, [], ◌∷◌,
  All, arith, inl, inr, Bool-cases, Option-cases, length, nat_beq_iff, ◌==◌, nat_eq,
}
use vizstack.Prelude.Int.{ℤ, pos, negsuc}
use vizstack.Errors.{ok, raise, and_then, Post, Post-and_then, Result-cases}
use vizstack.Display.{Mode, DisplayDevice, DisplayArg}
use vizstack.Resource.{GpuFields, Scanout}
use vizstack.Resource.Scanouts.{
  Access, Ports, ScanoutArgs, exceeds, check_port, check_scan_type, check_position, check_size,
  check_extent, given, valid_display, mode_details, mode_width, mode_height, plan_scanout,
  set_scanout, put_port, at_port, without_port, clear_scanout, clear_scanouts,
}

-- Where a scanout begins and ends, in a direction in which the framebuffer may have a limit.
abbrev pub EndsWithin : Option ℕ → ℕ → Option ℕ → Type 0
EndsWithin max x size = (m : ℕ) → max ≡ some m → (x ≤ m) × ((n : ℕ) → size ≡ some n → x + n ≤ m)

-- The GPU has the port, if its ports are known.
abbrev pub IsOnPort : GpuFields → ℕ → Type 0
IsOnPort self port =
    (caps : Ports (List String))
    → self.scanout_caps ≡ some caps
    → (types : List String) × (at_port port caps ≡ some types)

-- The ports of a GPU with n ports are 0 to n - 1.
abbrev pub AreNumbered : Option (Ports (List String)) → Type 0
AreNumbered known =
    (caps : Ports (List String)) (port : ℕ)
    → known ≡ some caps
    → port < length caps
    → (types : List String) × (at_port port caps ≡ some types)

module _ (ra : Access) where
  -- The size of the picture: what the scanout gives, or else that of its mode, where that is known.
  abbrev pub covered : (Option Mode → Option ℕ) → Option ℕ → DisplayArg → Option String → Option ℕ
  covered size_of (some n) display mode = some n
  covered size_of none display mode =
      elim (and_then (valid_display ra display) (λ d. mode_details d mode)) [
        | ok details ↦ size_of details
        | raise e ↦ none
      ]

  abbrev pub IsOnScreen : GpuFields → ℕ × Scanout → Type 0
  IsOnScreen self (port, s) =
      IsOnPort self port
      × EndsWithin self.max_width s.area_x (covered mode_width s.area_width s.display_device s.mode)
      × EndsWithin self.max_height s.area_y
          (covered mode_height s.area_height s.display_device s.mode)

check_port-IsOnPort :
    (self : GpuFields) (i : ℤ) (port : ℕ)
    → AreNumbered self.scanout_caps
    → check_port self i ≡ ok port
    → IsOnPort self port
unfolding check_port
check_port-IsOnPort self (pos n) port numbered h = λ caps e. numbered caps port e (ground arith)
check_port-IsOnPort self (negsuc n) port numbered h = absurd cc

position_within :
    (max : Option ℕ) (out : ℤ) (x : ℕ) → check_position max out ≡ ok x → exceeds x max ≡ false
unfolding check_position
position_within max (pos n) x h = ground arith
position_within max (negsuc n) x h = absurd cc

EndsWithin_lem :
    (max : Option ℕ) (x : ℕ) (size : Option ℕ)
    → exceeds x max ≡ false
    → check_extent max x size ≡ ok tt
    → EndsWithin max x size
unfolding check_extent
EndsWithin_lem max x none h k = λ m e. (ground arith, λ n f. absurd cc)
EndsWithin_lem max x (some size) h k = λ m e. (ground arith, λ n f. ground arith)

size_kept :
    (max least : Option ℕ) (output : Option ℤ) (w : Option ℕ)
    → check_size max least output ≡ ok w
    → ((given output w ≡ none) × (w ≡ least)) ⊎ ((n : ℕ) × (w ≡ some n) × (given output w ≡ some n))
unfolding check_size
size_kept max least none w h = inl (refl, ground arith)
size_kept max least (some (pos n)) w h = let e : w ≡ some n = ground arith in inr (n, e, e)
size_kept max least (some (negsuc n)) w h = absurd cc

module _ (ra : Access) where
  covered_lem :
      (size_of : Option Mode → Option ℕ) (max : Option ℕ) (output : Option ℤ) (arg : DisplayArg)
      (mode : Option String) (display : Option DisplayDevice) (details : Option Mode) (w : Option ℕ)
      → valid_display ra arg ≡ ok display
      → mode_details display mode ≡ ok details
      → check_size max (size_of details) output ≡ ok w
      → covered ra size_of (given output w) arg mode ≡ w
  covered_lem size_of max output arg mode display details w e f h =
      elim (size_kept max (size_of details) output w h) [
        | inl (none_given, same) ↦ rw (none_given, e, covered) (rw f (rw same refl))
        | inr (n, same, shown) ↦ rw (shown, covered) (rw same refl)
      ]

  plan_scanout-IsOnScreen :
      (self : GpuFields) (args : ScanoutArgs)
      → AreNumbered self.scanout_caps
      → Post (IsOnScreen ra self) (plan_scanout ra self args)
  unfolding plan_scanout
  plan_scanout-IsOnScreen self args numbered =
      let P = IsOnScreen ra self in
      Post-and_then P (check_port self args.port_index) _ λ port at_port.
        Post-and_then P (check_position self.max_width args.output_x) _ λ x at_x.
          Post-and_then P (check_position self.max_height args.output_y) _ λ y at_y.
            Post-and_then P (check_scan_type self port args.scan_type) _ λ _ _.
              Post-and_then P (valid_display ra args.display_device) _ λ display valid.
                Post-and_then P (mode_details display args.mode) _ λ details known.
                  Post-and_then P (check_size self.max_width (mode_width details) args.output_width)
                    _
                    λ w wide.
                      Post-and_then P
                        (check_size self.max_height (mode_height details) args.output_height) _
                        λ h tall. Post-and_then P (check_extent self.max_width x w) _ λ _ ends_x.
                          Post-and_then P (check_extent self.max_height y h) _ λ _ ends_y. (
                            check_port-IsOnPort self args.port_index port numbered at_port,
                            rw
                                (covered_lem mode_width self.max_width args.output_width
                                  args.display_device args.mode display details w valid known wide)
                                (EndsWithin_lem self.max_width x w
                                  (position_within self.max_width args.output_x x at_x) ends_x),
                            rw
                                (covered_lem mode_height self.max_height args.output_height
                                  args.display_device args.mode display details h valid known tall)
                                (EndsWithin_lem self.max_height y h
                                  (position_within self.max_height args.output_y y at_y) ends_y),
                          )

-- A call on the scanouts of a GPU.
pub data ScanoutCall : Type 0 where
  sets : ScanoutArgs → ScanoutCall
  clears : ℕ → ScanoutCall
  clears_all : ScanoutCall

unfoldable pub scan_all : Access → List ScanoutCall → GpuFields → GpuFields
scan_all ra [] self = self
scan_all ra (sets args ∷ rest) self = scan_all ra rest (set_scanout ra args self).1
scan_all ra (clears port ∷ rest) self = scan_all ra rest (clear_scanout port self).1
scan_all ra (clears_all ∷ rest) self = scan_all ra rest (clear_scanouts self).1

module _ (ra : Access) where
  abbrev pub AreOnScreen : GpuFields → Type 0
  AreOnScreen self = All (IsOnScreen ra self) self.scanout

  put_port-All :
      (self : GpuFields) (port : ℕ) (s : Scanout) (l : Ports Scanout)
      → IsOnScreen ra self (port, s)
      → All (IsOnScreen ra self) l
      → All (IsOnScreen ra self) (put_port port s l)
  put_port-All self port s [] new h = (new, tt)
  put_port-All self port s ((p, w) ∷ l) new h = elim (Bool-cases (p == port)) [
    | inl e ↦
        let same : p ≡ port = ground (arith, nat_beq_iff p port) in
        rw e (subst (λ q. IsOnScreen ra self (q, s)) (sym same) new, h.1)
    | inr e ↦ rw e (h.0, put_port-All self port s l new h.1)
  ]

  set_scanout-AreOnScreen :
      (args : ScanoutArgs) (self : GpuFields)
      → AreNumbered self.scanout_caps
      → AreOnScreen self
      → AreOnScreen (set_scanout ra args self).1
  unfolding set_scanout
  set_scanout-AreOnScreen args self numbered h = elim (Result-cases (plan_scanout ra self args)) [
    | inl ((port, s), e) ↦
        rw (e, set_scanout)
          (put_port-All self port s self.scanout
            (rw e at (plan_scanout-IsOnScreen ra self args numbered)) h)
    | inr (x, e) ↦ rw (e, set_scanout) h
  ]

  without_port-All :
      (self : GpuFields) (port : ℕ) (l : Ports Scanout)
      → All (IsOnScreen ra self) l
      → All (IsOnScreen ra self) (without_port port l)
  without_port-All self port [] h = tt
  without_port-All self port ((p, w) ∷ l) h = elim (Bool-cases (p == port)) [
    | inl e ↦ rw e h.1
    | inr e ↦ rw e (h.0, without_port-All self port l h.1)
  ]

  clear_scanout-AreOnScreen :
      (port : ℕ) (self : GpuFields) → AreOnScreen self → AreOnScreen (clear_scanout port self).1
  unfolding clear_scanout
  clear_scanout-AreOnScreen port self h = elim (Option-cases (at_port port self.scanout)) [
    | inl e ↦ rw (e, clear_scanout) h
    | inr (s, e) ↦ rw (e, clear_scanout) (without_port-All self port self.scanout h)
  ]

  set_scanout-caps :
      (args : ScanoutArgs) (self : GpuFields)
      → (set_scanout ra args self).1.scanout_caps ≡ self.scanout_caps
  unfolding set_scanout
  set_scanout-caps args self = elim (Result-cases (plan_scanout ra self args)) [
    | inl ((port, s), e) ↦ rw (e, set_scanout) refl
    | inr (x, e) ↦ rw (e, set_scanout) refl
  ]

  clear_scanout-caps :
      (port : ℕ) (self : GpuFields) → (clear_scanout port self).1.scanout_caps ≡ self.scanout_caps
  unfolding clear_scanout
  clear_scanout-caps port self = elim (Option-cases (at_port port self.scanout)) [
    | inl e ↦ rw (e, clear_scanout) refl
    | inr (s, e) ↦ rw (e, clear_scanout) refl
  ]

  -- On a GPU whose ports, where they are known, are numbered from 0 on without a gap, every history of
  -- setScanout, clearScanout and clearScanouts, those that raise included, keeps every scanout on a
  -- port that the GPU has and its picture inside of the framebuffer, as far as the GPU has limits and
  -- the size is known.
  pub scan_all-AreOnScreen :
      (calls : List ScanoutCall) (self : GpuFields)
      → AreNumbered self.scanout_caps
      → AreOnScreen self
      → AreOnScreen (scan_all ra calls self)
  unfolding scan_all clear_scanouts
  scan_all-AreOnScreen [] self numbered h = h
  scan_all-AreOnScreen (sets args ∷ rest) self numbered h =
      scan_all-AreOnScreen rest _ (subst AreNumbered (sym (set_scanout-caps args self)) numbered)
        (set_scanout-AreOnScreen args self numbered h)
  scan_all-AreOnScreen (clears port ∷ rest) self numbered h =
      scan_all-AreOnScreen rest _ (subst AreNumbered (sym (clear_scanout-caps port self)) numbered)
        (clear_scanout-AreOnScreen port self h)
  scan_all-AreOnScreen (clears_all ∷ rest) self numbered h = scan_all-AreOnScreen rest _ numbered tt
