-- ===== src/Screen/Valid.antt =====
-- python/vsapi.py: what the setters of a Screen keep, and what it reads back.
use vizstack.Prelude.{
  ℕ, String, Bool, true, false, ◌||◌, ◌≤◌, ◌≡◌, refl, Option, none, some, List, [], ◌∷◌, length,
  ltb, contains, arith, inl, inr, Bool-cases, if◌then◌else◌, string_eq,
}
use vizstack.Prelude.Int.{ℤ, pos, negsuc}
use vizstack.Errors.{Result, Post, Result-cases}
use vizstack.Resource.{Resource}
use vizstack.Screen.{
  Screen, Properties, FbProperty, enter, stereo_modes, rotation_modes, set_server, set_gpu,
  set_gpus, set_fb_property, set_screen_number,
}

-- Properties that the X server can be given.
pub record AreValid (p : Properties) : Type 0 where
  pub wide :
      (w h : ℕ) → p.resolution ≡ some (w, h) → (304 ≤ w) × (w ≤ 8192) × (200 ≤ h) × (h ≤ 8192)
  pub stereo_known : (s : String) → p.stereo ≡ some s → contains stereo_modes s ≡ true
  pub rotation_known : (s : String) → p.rotate ≡ some s → contains rotation_modes s ≡ true

-- A screen that is not a Xinerama screen has at most two GPUs, too.
pub record IsValid (self : Screen) : Type 0 where
  pub properties_valid : AreValid self.properties
  pub few_gpus : length self.gpus ≤ 2

enter-AreValid :
    (property : FbProperty) (p : Properties) → AreValid p → Post AreValid (enter property p)
unfolding enter
enter-AreValid (FbProperty.resolution (pos w) (pos h)) p v =
    elim (Bool-cases (ltb w 304 || ltb 8192 w || ltb h 200 || ltb 8192 h)) [
      | inl e ↦ rw e tt
      | inr e ↦ rw e (record {
        wide = λ a b f. ground arith;
        stereo_known = v.stereo_known;
        rotation_known = v.rotation_known;
      })
    ]
enter-AreValid (FbProperty.resolution (pos w) (negsuc h)) p v = tt
enter-AreValid (FbProperty.resolution (negsuc w) _) p v = tt
enter-AreValid (FbProperty.position (pos x) (pos y)) p v = record {
  wide = v.wide;
  stereo_known = v.stereo_known;
  rotation_known = v.rotation_known;
}
enter-AreValid (FbProperty.position (pos x) (negsuc y)) p v = tt
enter-AreValid (FbProperty.position (negsuc x) _) p v = tt
enter-AreValid (FbProperty.stereo value) p v = elim (Bool-cases (contains stereo_modes value)) [
  | inl e ↦ rw e (record {
    wide = v.wide;
    stereo_known = λ s f. let same : value ≡ s = cc in rw same at e;
    rotation_known = v.rotation_known;
  })
  | inr e ↦ rw e tt
]
enter-AreValid (FbProperty.rotate value) p v = elim (Bool-cases (contains rotation_modes value)) [
  | inl e ↦ rw e (record {
    wide = v.wide;
    stereo_known = v.stereo_known;
    rotation_known = λ s f. let same : value ≡ s = cc in rw same at e;
  })
  | inr e ↦ rw e tt
]
enter-AreValid (FbProperty.unknown name) p v = tt

-- A call that changes a screen.
pub data ScreenCall : Type 0 where
  sets_server : Option (Option ℕ) → ScreenCall
  sets_gpu : Option Resource → ScreenCall
  sets_gpus : List Resource → ScreenCall
  sets_property : FbProperty → ScreenCall
  sets_number : Option ℤ → ScreenCall

unfoldable pub call : ScreenCall → Screen → Screen
call (sets_server server) self = (set_server server self).1
call (sets_gpu gpu) self = (set_gpu gpu self).1
call (sets_gpus l) self = (set_gpus l self).1
call (sets_property property) self = (set_fb_property property self).1
call (sets_number number) self = (set_screen_number number self).1

unfoldable pub call_all : List ScreenCall → Screen → Screen
call_all [] self = self
call_all (c ∷ rest) self = call_all rest (call c self)

-- Both ends of a test are valid.
if-IsValid :
    (b : Bool) (x y : Result (Unit {0}) × Screen)
    → IsValid x.1
    → (b ≡ false → IsValid y.1)
    → IsValid (if b then x else y).1
if-IsValid true x y v u = v
if-IsValid false x y v u = u refl

with_properties-IsValid :
    (self : Screen) (p : Properties)
    → IsValid self
    → AreValid p
    → IsValid (record self { properties = p })
with_properties-IsValid self p v u = record { properties_valid = u; few_gpus = v.few_gpus }

set_fb_property-IsValid :
    (property : FbProperty) (self : Screen)
    → IsValid self
    → IsValid (set_fb_property property self).1
unfolding set_fb_property
set_fb_property-IsValid property self v = if-IsValid self.is_xinerama_screen _ _ v λ _.
    elim (Result-cases (enter property self.properties)) [
      | inl (p, e) ↦ rw e (
          with_properties-IsValid self p v
            (rw e at (enter-AreValid property self.properties v.properties_valid)))
      | inr (_, e) ↦ rw e v
    ]

call-IsValid : (c : ScreenCall) (self : Screen) → IsValid self → IsValid (call c self)
unfolding call set_server set_gpu set_gpus set_screen_number
call-IsValid (sets_server server) self v =
    if-IsValid self.is_xinerama_screen _ _ v
      λ _. record { properties_valid = v.properties_valid; few_gpus = v.few_gpus }
call-IsValid (sets_gpu none) self v = if-IsValid self.is_xinerama_screen _ _ v (λ _. v)
call-IsValid (sets_gpu (some g)) self v =
    if-IsValid self.is_xinerama_screen _ _ v
      λ _. record { properties_valid = v.properties_valid; few_gpus = omega arith }
call-IsValid (sets_gpus l) self v = if-IsValid self.is_xinerama_screen _ _ v λ _.
    if-IsValid (ltb 2 (length l)) _ _ v
      λ e. record { properties_valid = v.properties_valid; few_gpus = ground arith }
call-IsValid (sets_property property) self v = set_fb_property-IsValid property self v
call-IsValid (sets_number none) self v = record {
  properties_valid = v.properties_valid;
  few_gpus = v.few_gpus;
}
call-IsValid (sets_number (some (pos n))) self v = record {
  properties_valid = v.properties_valid;
  few_gpus = v.few_gpus;
}
call-IsValid (sets_number (some (negsuc n))) self v = v

-- Every history of setters, those that raise included, keeps a valid screen valid: a resolution
-- between 304 by 200 and 8192 by 8192, known modes of stereo and rotation, at most two GPUs.
pub call_all-IsValid :
    (calls : List ScreenCall) (self : Screen) → IsValid self → IsValid (call_all calls self)
unfolding call_all
call_all-IsValid [] self v = v
call_all-IsValid (c ∷ rest) self v = call_all-IsValid rest (call c self) (call-IsValid c self v)
