-- ===== src/Metascheduler/Prepare/Expand.antt =====
-- python/metascheduler.py, allocate: how the requirements and their places stand for the request.
use mathlib.Core.List.{append_assoc, append-nil}
use vizstack.Prelude.{
  ℕ, zero, suc, ◌+◌, ◌≡◌, refl, ap, sym, some, List, [], ◌∷◌, ◌++◌, map, length, length-append,
  get_elem?, range, arith,
}
use vizstack.Resource.{Resource}
use vizstack.Metascheduler.Base.{
  Request, one, several, whole, aggregate, Requirement, group, node, Place, at, span,
}
use vizstack.Metascheduler.Prepare.{Expanded, expand_one, expand_from, expand}

-- What a request asks for, on its own.
abbrev pub requirements_of : Request → List Requirement
requirements_of (one r) = group (r ∷ []) ∷ []
requirements_of (several l) = group l ∷ []
requirements_of (whole n) = node n ∷ []
requirements_of (aggregate lists) = map group lists

abbrev pub all_requirements : List Request → List Requirement
all_requirements [] = []
all_requirements (r ∷ rest) = requirements_of r ++ all_requirements rest

abbrev pub indices_of : Place → List ℕ
indices_of (at i) = i ∷ []
indices_of (span is) = is

abbrev pub all_indices : List Place → List ℕ
all_indices [] = []
all_indices (place ∷ rest) = indices_of place ++ all_indices rest

-- Each place leads to what its request asks for.
abbrev pub LeadTo : List Requirement → List Place → List Request → Type 0
LeadTo requirements [] [] = Unit
LeadTo requirements (place ∷ places) (r ∷ rest) =
    (map (get_elem? requirements) (indices_of place) ≡ map some (requirements_of r))
    × LeadTo requirements places rest
LeadTo requirements _ _ = ⊥

-- The place of a request whose requirements start at a number.
place_from : ℕ → Request → Place
place_from i (one r) = at i
place_from i (several l) = at i
place_from i (whole n) = at i
place_from i (aggregate lists) = span (range i (length lists))

places_from : ℕ → List Request → List Place
places_from i [] = []
places_from i (r ∷ rest) = place_from i r ∷ places_from (i + length (requirements_of r)) rest

indices_lem :
    (i : ℕ) (r : Request) → indices_of (place_from i r) ≡ range i (length (requirements_of r))
unfolding place_from
indices_lem i (one r) = refl
indices_lem i (several l) = refl
indices_lem i (whole n) = refl
indices_lem i (aggregate lists) = ap (range i) (sym (length-map-group lists))
  where
    length-map-group : (ls : List (List Resource)) → length (map group ls) ≡ length ls
    length-map-group [] = refl
    length-map-group (l ∷ ls) = ap suc (length-map-group ls)

module _ {A : Type 0} where
  get_elem?-append : (xs ys : List A) (y : A) → get_elem? (xs ++ y ∷ ys) (length xs) ≡ some y
  get_elem?-append [] ys y = refl
  get_elem?-append (x ∷ xs) ys y = get_elem?-append xs ys y

  length-snoc : (xs : List A) (y : A) → length (xs ++ y ∷ []) ≡ suc (length xs)
  length-snoc xs y = omega (arith, length-append xs (y ∷ []))

  get_elem?-range :
      (xs ys zs : List A)
      → map (get_elem? (xs ++ (ys ++ zs))) (range (length xs) (length ys)) ≡ map some ys
  get_elem?-range xs [] zs = refl
  get_elem?-range xs (y ∷ ys) zs = rw (get_elem?-append xs (ys ++ zs) y) (
      ap (◌∷◌ (some y)) (
        rw (length-snoc xs y, append_assoc xs (y ∷ []) (ys ++ zs)) at
          (get_elem?-range (xs ++ y ∷ []) ys zs)))

range-append : (i m n : ℕ) → range i m ++ range (i + m) n ≡ range i (m + n)
range-append i zero n =
    let e : i + 0 ≡ i = omega arith in let f : 0 + n ≡ n = omega arith in rw (e, f) refl
range-append i (suc m) n =
    let e : i + suc m ≡ suc i + m = omega arith in
    let f : suc m + n ≡ suc (m + n) = omega arith in
    rw (e, f) (ap (◌∷◌ i) (range-append (suc i) m n))

requirements-expand_one :
    (e : Expanded) (r : Request)
    → (expand_one e r).requirements ≡ e.requirements ++ requirements_of r
unfolding expand_one
requirements-expand_one e (one r) = refl
requirements-expand_one e (several l) = refl
requirements-expand_one e (whole n) = refl
requirements-expand_one e (aggregate lists) = refl

places-expand_one :
    (e : Expanded) (r : Request)
    → (expand_one e r).places ≡ e.places ++ place_from (length e.requirements) r ∷ []
unfolding expand_one place_from
places-expand_one e (one r) = refl
places-expand_one e (several l) = refl
places-expand_one e (whole n) = refl
places-expand_one e (aggregate lists) = refl

requirements-expand_from :
    (e : Expanded) (l : List Request)
    → (expand_from e l).requirements ≡ e.requirements ++ all_requirements l
unfolding expand_from
requirements-expand_from e [] = sym (append-nil _)
requirements-expand_from e (r ∷ rest) =
    rw (requirements-expand_from (expand_one e r) rest, requirements-expand_one e r)
      (append_assoc e.requirements (requirements_of r) (all_requirements rest))

places-expand_from :
    (e : Expanded) (l : List Request)
    → (expand_from e l).places ≡ e.places ++ places_from (length e.requirements) l
unfolding expand_from places_from
places-expand_from e [] = sym (append-nil _)
places-expand_from e (r ∷ rest) =
    rw
      (
        places-expand_from (expand_one e r) rest,
        places-expand_one e r,
        requirements-expand_one e r,
        length-append e.requirements (requirements_of r),
      )
      (append_assoc e.places (place_from (length e.requirements) r ∷ []) _)

all_indices-places_from :
    (i : ℕ) (l : List Request)
    → all_indices (places_from i l) ≡ range i (length (all_requirements l))
unfolding places_from
all_indices-places_from i [] = refl
all_indices-places_from i (r ∷ rest) =
    let n = length (requirements_of r) in
    rw
      (
        indices_lem i r,
        all_indices-places_from (i + n) rest,
        length-append (requirements_of r) (all_requirements rest),
      )
      (range-append i n _)

places_from-LeadTo :
    (xs : List Requirement) (l : List Request)
    → LeadTo (xs ++ all_requirements l) (places_from (length xs) l) l
unfolding places_from
places_from-LeadTo xs [] = tt
places_from-LeadTo xs (r ∷ rest) = (
  rw (indices_lem (length xs) r) (get_elem?-range xs (requirements_of r) (all_requirements rest)),
  rw
      (
        append_assoc xs (requirements_of r) (all_requirements rest),
        length-append xs (requirements_of r),
      )
      at (places_from-LeadTo (xs ++ requirements_of r) rest),
)

-- The requirements are those of the requests, in their order; the places, taken together, name each
-- requirement once, in order; and each place leads to exactly what its request asks for.
pub expand_lem :
    (l : List Request)
    → ((expand l).requirements ≡ all_requirements l)
      × (all_indices (expand l).places ≡ range 0 (length (all_requirements l)))
      × LeadTo (expand l).requirements (expand l).places l
unfolding expand
expand_lem l =
    let start : Expanded = record { places = []; requirements = [] } in
    rw (requirements-expand_from start l, places-expand_from start l)
      (refl, all_indices-places_from 0 l, places_from-LeadTo [] l)
