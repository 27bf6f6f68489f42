-- ===== src/Resource/Search/Spec.antt =====
-- What a search asks for, said without the tests of the code.
use vizstack.Prelude.{
  ◌<◌, ◌≡◌, refl, Bool, true, false, not, ◌≢◌, ◌↔◌, ◌⊎◌, Option, none, some, arith, ◌==◌, Eq,
  nat_eq, string_eq, bool_eq, option_eq, if◌then◌else◌,
}
use vizstack.Resource.{Resource, Class, gpu, sli, server, keyboard, mouse, GpuFields}
use vizstack.Resource.Search.{
  same_class, attribute_match, gpu_search_match, class_search_match, type_search_match,
}

-- Two resources are of one class.
abbrev pub SameClass : Class → Class → Type 0
SameClass (gpu g) (gpu h) = Unit
SameClass sli sli = Unit
SameClass server server = Unit
SameClass keyboard keyboard = Unit
SameClass mouse mouse = Unit
SameClass _ _ = ⊥

-- Whatever the request fixes, the resource has.
abbrev pub Meets {ℓ} : {A : Type ℓ} → Option A → Option A → Type ℓ
Meets {A} own wanted = (a : A) → wanted ≡ some a → own ≡ some a

same_class_iff : (c d : Class) → (same_class d c ≡ true) ↔ SameClass c d
same_class_iff (gpu g) (gpu h) = (λ _. tt, λ _. refl)
same_class_iff (gpu g) sli = (λ h. cc, λ h. elim h [ ])
same_class_iff (gpu g) server = (λ h. cc, λ h. elim h [ ])
same_class_iff (gpu g) keyboard = (λ h. cc, λ h. elim h [ ])
same_class_iff (gpu g) mouse = (λ h. cc, λ h. elim h [ ])
same_class_iff sli d = ground arith
same_class_iff server d = ground arith
same_class_iff keyboard d = ground arith
same_class_iff mouse d = ground arith

attribute_match_iff {ℓ} :
    {A : Type ℓ} ⦃e : Eq A⦄ (own wanted : Option A)
    → (attribute_match ◌==◌ own wanted ≡ true) ↔ Meets own wanted
attribute_match_iff own none = (λ _ a h. cc, λ _. refl)
attribute_match_iff none (some w) = (λ h. cc, λ h. cc (h w refl))
attribute_match_iff ⦃e⦄ (some o) (some w) =
    (λ h a k. cc ((e.beq_iff o w).0 h), λ h. (e.beq_iff o w).1 (cc (h w refl)))

-- What a GPU has to offer. A request that settles the scanout says nothing of stereo.
pub record OffersScanout (self other : GpuFields) : Type 0 where
  pub wanted :
      other.use_scan_out ≡ some true → (self.scanout_caps ≢ none) × (self.use_scan_out ≡ some true)
  pub unwanted :
      other.use_scan_out ≡ some false
      → (self.scanout_caps ≡ none) ⊎ (self.use_scan_out ≡ some false)
  pub stereo :
      other.use_scan_out ≡ none → other.allow_stereo ≡ some true → self.allow_stereo ≢ some false

abbrev pub ClassOffers : Class → Class → Type 0
ClassOffers (gpu self) (gpu other) = OffersScanout self other
ClassOffers _ _ = Unit

-- `self` can serve the request `other`: same class; each of index, type and host that the request
-- gives; sharable if it wants to share; and for GPUs the scanout and stereo terms.
pub record Serves (self other : Resource) : Type 0 where
  pub class : SameClass self.class other.class
  pub index : Meets self.res_index other.res_index
  pub type : Meets self.res_type other.res_type
  pub host : Meets self.host_name other.host_name
  pub sharing : other.shared ≡ true → 1 < self.max_share_count
  pub scanout : ClassOffers self.class other.class

gpu_search_match_iff :
    (self other : GpuFields) → (gpu_search_match self other ≡ true) ↔ OffersScanout self other
unfolding gpu_search_match
gpu_search_match_iff self other = (
  λ h. record { wanted = ground arith; unwanted = ground arith; stereo = ground arith },
  λ h. ground (arith, h.wanted, h.unwanted, h.stereo),
)

class_search_match_iff :
    (c d : Class) → SameClass c d → (class_search_match c d ≡ true) ↔ ClassOffers c d
class_search_match_iff (gpu self) (gpu other) _ = gpu_search_match_iff self other
class_search_match_iff sli d _ = (λ _. tt, λ _. refl)
class_search_match_iff server d _ = (λ _. tt, λ _. refl)
class_search_match_iff keyboard d _ = (λ _. tt, λ _. refl)
class_search_match_iff mouse d _ = (λ _. tt, λ _. refl)
class_search_match_iff (gpu self) _ h = elim h [ ]

-- The ladder of tests, over any tests.
ladder_iff :
    (a b c d e f : Bool)
    → ((if (if not a
            then false
            else if not b
            then false
            else if not c
            then false
            else if not d
            then false
            else if e
            then false
            else true)
          then f
          else false)
        ≡ true)
      ↔ ((a ≡ true) × (b ≡ true) × (c ≡ true) × (d ≡ true) × (e ≡ false) × (f ≡ true))
ladder_iff a b c d e f = (λ h. ground arith, λ h. ground arith)

-- A search finds a resource exactly when the resource serves the request: same class, the index, type
-- and host that the request gives, sharable if sharing is wanted, and for GPUs the terms on scanout,
-- and those on stereo where the request leaves the scanout open.
pub type_search_match_iff :
    (self other : Resource) → (type_search_match self other ≡ true) ↔ Serves self other
unfolding type_search_match
type_search_match_iff self other = (
  λ h.
      let (a, b, c, d, e, f) = (ladder_iff _ _ _ _ _ _).0 h in
      let class = (same_class_iff self.class other.class).0 a in
      record {
        class = class;
        index = (attribute_match_iff self.res_index other.res_index).0 b;
        type = (attribute_match_iff self.res_type other.res_type).0 c;
        host = (attribute_match_iff self.host_name other.host_name).0 d;
        sharing = λ k. ground arith;
        scanout = (class_search_match_iff self.class other.class class).0 f;
      },
  λ h. (ladder_iff _ _ _ _ _ _).1 (
    (same_class_iff self.class other.class).1 h.class,
    (attribute_match_iff self.res_index other.res_index).1 h.index,
    (attribute_match_iff self.res_type other.res_type).1 h.type,
    (attribute_match_iff self.host_name other.host_name).1 h.host,
    ground (arith, h.sharing),
    (class_search_match_iff self.class other.class h.class).1 h.scanout,
  ),
)
