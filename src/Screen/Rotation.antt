-- ===== src/Screen/Rotation.antt =====
-- python/vsapi.py: the resolution that a Screen gives back, whatever it was rotated to.
use vizstack.Prelude.{
  ℕ, String, Bool, true, false, ◌||◌, ◌≤◌, ◌≡◌, refl, ap, ◌∙◌, some, contains, arith, if◌then◌else◌,
  ◌==◌, string_eq, ltb, inl, inr, Bool-cases,
}
use vizstack.Prelude.Int.{pos}
use vizstack.Errors.{ok, Result}
use vizstack.Screen.{
  Screen, Properties, FbProperty, resolution, rotate, enter, rotation_modes, set_fb_property,
  get_resolution,
}

-- A picture turned by 90 degrees changes its width for its height.
abbrev pub turned : String → ℕ × ℕ → ℕ × ℕ
turned mode (w, h) =
    if (mode == "portrait") || (mode == "inverted_portrait") then (h, w) else (w, h)

else_of : {A : Type 0} (b : Bool) (x y : A) → b ≡ false → (if b then x else y) ≡ y
else_of b x y e = rw e refl

set_fb_property_lem :
    (property : FbProperty) (self : Screen) (p : Properties)
    → self.is_xinerama_screen ≡ false
    → enter property self.properties ≡ ok p
    → (set_fb_property property self).1 ≡ record self { properties = p }
unfolding set_fb_property
set_fb_property_lem property self p x e =
    ap (λ (outcome : Result (Unit {0}) × Screen). outcome.1) (else_of self.is_xinerama_screen _ _ x)
    ∙ rw e refl

turned_back :
    (w h : ℕ) (mode : String) (self : Screen)
    → self.properties.resolution ≡ some (w, h)
    → self.properties.rotate ≡ some mode
    → get_resolution self ≡ ok (turned mode (w, h))
unfolding get_resolution
turned_back w h mode self e f =
    rw (e, f, get_resolution)
      (elim (Bool-cases (mode == "none")) [
        | inl n ↦ let same : mode ≡ "none" = (string_eq.beq_iff _ _).0 n in rw same refl
        | inr n ↦ ground arith
      ])

module _ (w h : ℕ) (mode : String) (wide : (304 ≤ w) × (w ≤ 8192)) (high : (200 ≤ h) × (h ≤ 8192))
    (known : contains rotation_modes mode ≡ true) where
  sized :
      (self : Screen)
      → self.is_xinerama_screen ≡ false
      → (set_fb_property (resolution (pos w) (pos h)) self).1
        ≡ record self { properties = record (self.properties) { resolution = some (w, h) } }
  unfolding enter
  sized self x =
      let range : (ltb w 304 || ltb 8192 w || ltb h 200 || ltb 8192 h) ≡ false = ground arith in
      set_fb_property_lem (resolution (pos w) (pos h)) self _ x (rw range refl)

  rotated :
      (self : Screen)
      → self.is_xinerama_screen ≡ false
      → (set_fb_property (rotate mode) self).1
        ≡ record self { properties = record (self.properties) { rotate = some mode } }
  unfolding enter
  rotated self x = set_fb_property_lem (rotate mode) self _ x (rw known refl)

  -- On a screen that is not a Xinerama screen, a resolution within the bounds and a known rotation,
  -- set in either order, read back as the resolution that is turned by the rotation.
  pub get_resolution_lem :
      (self : Screen)
      → self.is_xinerama_screen ≡ false
      → (get_resolution
            (set_fb_property (rotate mode) (set_fb_property (resolution (pos w) (pos h)) self).1).1
          ≡ ok (turned mode (w, h)))
        × (get_resolution
              (set_fb_property
                (resolution (pos w) (pos h))
                (set_fb_property (rotate mode) self).1).1
            ≡ ok (turned mode (w, h)))
  get_resolution_lem self x =
      let wider = record self {
        properties = record (self.properties) { resolution = some (w, h) };
      } in
      let turning = record self { properties = record (self.properties) { rotate = some mode } } in
      (
        rw (sized self x) (rw (rotated wider x) (turned_back w h mode _ refl refl)),
        rw (rotated self x) (rw (sized turning x) (turned_back w h mode _ refl refl)),
      )
