-- ===== src/Metascheduler/Matching/Classify.antt =====
-- What __classifyRes computes, and what putting the answers back into their places makes of it.
use mathlib.Core.List.{append_assoc, append-nil}
use mathlib.Core.Path.{ap₂}
use vizstack.Prelude.{
  ℕ, suc, Bool, true, false, not, ◌≡◌, refl, sym, ap, ◌∙◌, Option, none, some, List, [], ◌∷◌, ◌++◌,
  map, arith, length, length-append, set, filter, nat_beq, Bool-cases, inl, inr, if◌then◌else◌,
}
use vizstack.Resource.{Resource, get_allocation_dof}
use vizstack.Metascheduler.Matching.{Classified, classify_from, classify_res, put_at}

abbrev pub is_fixed : Resource → Bool
is_fixed r = nat_beq (get_allocation_dof r.base) 0

-- The requests that say where they are, and those that leave something open.
abbrev pub fixed_of : List Resource → List Resource
fixed_of = filter is_fixed

abbrev pub open_of : List Resource → List Resource
open_of = filter (λ r. not (is_fixed r))

abbrev pub slot : Resource → Option Resource
slot r = if is_fixed r then some r else none

-- Where the open requests stand, from n on.
pub positions : ℕ → List Resource → List ℕ
positions n [] = []
positions n (r ∷ rs) = let rest = positions (suc n) rs in if is_fixed r then rest else n ∷ rest

module _ {A : Type 0} (f : Resource → A) where
  -- The list with the answers, in their order, in place of the open requests.
  pub fill_open : List Resource → List A → List A
  fill_open [] answers = []
  fill_open (r ∷ rs) [] = f r ∷ map f rs
  fill_open (r ∷ rs) (a ∷ answers) = elim (is_fixed r) [
    | true ↦ f r ∷ fill_open rs (a ∷ answers)
    | false ↦ a ∷ fill_open rs answers
  ]

  fill_open-nil : (rs : List Resource) → fill_open rs [] ≡ map f rs
  unfolding fill_open
  fill_open-nil [] = refl
  fill_open-nil (r ∷ rs) = refl

set_middle {ℓ} :
    {A : Type ℓ} (front : List A) (a v : A) (back : List A)
    → set (front ++ a ∷ back) (length front) v ≡ front ++ v ∷ back
set_middle [] a v back = refl
set_middle (x ∷ front) a v back = ap (◌∷◌ x) (set_middle front a v back)

put_at-nil : {A : Type 0} (is : List ℕ) (l : List A) → put_at is [] l ≡ l
unfolding put_at
put_at-nil [] l = refl
put_at-nil (i ∷ is) l = refl

slot_fixed : (r : Resource) → is_fixed r ≡ true → slot r ≡ some r
slot_fixed r e = rw e

-- With an answer for each open request, every place is filled.
pub fill_open-slot :
    (rs answers : List Resource)
    → length answers ≡ length (open_of rs)
    → fill_open slot rs (map some answers) ≡ map some (fill_open (λ r. r) rs answers)
unfolding fill_open
fill_open-slot [] answers e = refl
fill_open-slot (r ∷ rs) [] e = elim (Bool-cases (is_fixed r)) [
  | inl fixed ↦ rw (sym (fill_open-nil slot rs)) (
      ap₂ ◌∷◌ (slot_fixed r fixed)
        (fill_open-slot rs [] (rw fixed at e) ∙ ap (map some) (fill_open-nil (λ r. r) rs)))
  | inr free ↦ absurd (ground (arith, free))
]
fill_open-slot (r ∷ rs) (a ∷ answers) e = elim (Bool-cases (is_fixed r)) [
  | inl fixed ↦
      rw (fixed, fill_open)
        (ap₂ ◌∷◌ (slot_fixed r fixed) (fill_open-slot rs (a ∷ answers) (rw fixed at e)))
  | inr free ↦
      rw (free, fill_open)
        (ap (◌∷◌ (some a)) (fill_open-slot rs answers (let e' = rw free at e in omega arith)))
]

length-snoc {ℓ} : {A : Type ℓ} (l : List A) (a : A) → length (l ++ a ∷ []) ≡ suc (length l)
length-snoc l a = omega (arith, length-append l (a ∷ []))

module _ {A : Type 0} (f : Resource → A) where
  pub put_at-positions :
      (rs : List Resource) (answers front : List A) (n : ℕ)
      → length front ≡ n
      → put_at (positions n rs) answers (front ++ map f rs) ≡ front ++ fill_open f rs answers
  unfolding positions put_at fill_open
  put_at-positions [] answers front n e = refl
  put_at-positions (r ∷ rs) [] front n e = put_at-nil _ _
  put_at-positions (r ∷ rs) (a ∷ answers) front n e = elim (Bool-cases (is_fixed r)) [
    | inl fixed ↦
        rw (fixed, fill_open)
          (simp append_assoc at (
            put_at-positions rs (a ∷ answers) (front ++ f r ∷ []) (suc n)
              (length-snoc front (f r) ∙ ap suc e)))
    | inr free ↦
        rw (free, fill_open)
          (rw (← e) (
            rw (set_middle front (f r) a (map f rs)) (
              simp append_assoc at (
                put_at-positions rs answers (front ++ a ∷ []) (suc (length front))
                  (length-snoc front a)))))
  ]

classified_ext :
    {c d : Classified}
    → c.selected ≡ d.selected
    → c.to_allocate ≡ d.to_allocate
    → c.index_map ≡ d.index_map
    → c ≡ d
classified_ext p q r = λ i. record { selected = p i; to_allocate = q i; index_map = r i }

classify_from_lem :
    (rs : List Resource) (c : Classified) (n : ℕ)
    → length c.selected ≡ n
    → classify_from c rs ≡ record {
      selected = c.selected ++ map slot rs;
      to_allocate = c.to_allocate ++ open_of rs;
      index_map = c.index_map ++ positions n rs;
    }
unfolding classify_from positions
classify_from_lem [] c n e =
    classified_ext (sym (append-nil _)) (sym (append-nil _)) (sym (append-nil _))
classify_from_lem (r ∷ rs) c n e = elim (Bool-cases (is_fixed r)) [
  | inl fixed ↦ rw fixed (
      simp append_assoc at (
        classify_from_lem rs (record c { selected = c.selected ++ some r ∷ [] }) (suc n)
          (length-snoc c.selected (some r) ∙ ap suc e)))
  | inr free ↦ rw free (
      rw e (
        simp append_assoc at (
          classify_from_lem rs
            (record {
              selected = c.selected ++ none ∷ [];
              to_allocate = c.to_allocate ++ r ∷ [];
              index_map = c.index_map ++ n ∷ [];
            })
            (suc n) (length-snoc c.selected none ∙ ap suc e))))
]

-- The classification of a list of requests: its fixed requests in their places, its open requests,
-- and the places of these.
pub classify_res_lem :
    (rs : List Resource)
    → classify_res rs
      ≡ record { selected = map slot rs; to_allocate = open_of rs; index_map = positions 0 rs }
unfolding classify_res
classify_res_lem rs =
    classify_from_lem rs (record { selected = []; to_allocate = []; index_map = [] }) 0 refl
