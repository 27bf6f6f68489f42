-- ===== src/Prelude/Keys.antt =====
-- Python's `==` on the values that the program compares: one operator, by instances.
use Prim.Native.Nat.{ℕ, suc, ◌+◌}
use Prim.Native.String.{String}
use mathlib.Core.Path.{◌≡◌, refl}
use mathlib.Core.Logic.{◌↔◌, inl, inr}
use mathlib.Core.Bool.{Bool, true, false, not}
use mathlib.Core.Option.{Option, none, some}
use mathlib.Core.List.{List, [], ◌∷◌, ◌++◌}
use text.Mathlib.Text.{◌==◌ as str_eq}
use text.Mathlib.TextEquality.{eq_iff}
use native.Mathlib.Omega.{arith}
use vizstack.Prelude.Tests.{nat_beq, nat_beq_iff, Bool-cases, if◌then◌else◌}
use vizstack.Prelude.Lists.{length, length-append}

abbrev pub bool_beq : Bool → Bool → Bool
bool_beq true b = b
bool_beq false b = not b

pub bool_beq_iff : (a b : Bool) → (bool_beq a b ≡ true) ↔ (a ≡ b)
bool_beq_iff a b = ground arith

-- A type whose values Python compares by value.
pub record Eq {ℓ} (A : Type ℓ) : Type ℓ where
  pub beq : A → A → Bool
  pub beq_iff : (a b : A) → (beq a b ≡ true) ↔ (a ≡ b)

instance abbrev pub string_eq : Eq String
string_eq = record { beq = str_eq; beq_iff = eq_iff }

instance abbrev pub bool_eq : Eq Bool
bool_eq = record { beq = bool_beq; beq_iff = bool_beq_iff }

instance abbrev pub nat_eq : Eq ℕ
nat_eq = record { beq = nat_beq; beq_iff = nat_beq_iff }

module _ {ℓ} {A : Type ℓ} ⦃e : Eq A⦄ where
  infix 50 ◌==◌ ◌!=◌
  abbrev pub ◌==◌ : A → A → Bool
  ◌==◌ = e.beq

  abbrev pub ◌!=◌ : A → A → Bool
  a != b = not (a == b)

  abbrev pub option_beq : Option A → Option A → Bool
  option_beq none none = true
  option_beq (some a) (some b) = a == b
  option_beq none (some b) = false
  option_beq (some a) none = false

  pub option_beq_iff : (a b : Option A) → (option_beq a b ≡ true) ↔ (a ≡ b)
  option_beq_iff none none = (λ h. refl, λ h. refl)
  option_beq_iff (some a) (some b) = ground (arith, e.beq_iff a b)
  option_beq_iff none (some b) = (λ h. cc, λ h. cc)
  option_beq_iff (some a) none = (λ h. cc, λ h. cc)

  instance abbrev pub option_eq : Eq (Option A)
  option_eq = record { beq = option_beq; beq_iff = option_beq_iff }

  -- x in xs
  abbrev pub contains : List A → A → Bool
  contains [] a = false
  contains (x ∷ xs) a = if x == a then true else contains xs a

  -- xs.remove(x) on a list of plain values: the first occurrence goes; none if there is none
  abbrev pub remove_first : A → List A → Option (List A)
  remove_first a [] = none
  remove_first a (x ∷ xs) =
      let rest : Option (List A) = elim (remove_first a xs) [
        | none ↦ none
        | some ys ↦ some (x ∷ ys)
      ] in
      if x == a then some xs else rest

  -- xs.count(x)
  abbrev pub count : A → List A → ℕ
  count a [] = 0
  count a (x ∷ xs) = if x == a then suc (count a xs) else count a xs

pub count-append : (v : ℕ) (xs ys : List ℕ) → count v (xs ++ ys) ≡ count v xs + count v ys
count-append v [] ys = omega arith
count-append v (x ∷ xs) ys = ground (arith, count-append v xs ys)

-- Taking out what was just put at the end leaves every entry as often as before.
module _ (a : ℕ) where
  pub remove_first-append :
      (xs : List ℕ)
      → (ys : List ℕ) × (remove_first a (xs ++ a ∷ []) ≡ some ys)
        × (length ys ≡ length xs)
        × ((v : ℕ) → count v ys ≡ count v xs)
  remove_first-append [] = ([], ground (arith, nat_beq_iff a a), refl, λ v. refl)
  remove_first-append (x ∷ xs) = elim (Bool-cases (x == a)) [
    | inl e ↦ (
      xs ++ a ∷ [],
      rw e,
      omega (arith, length-append xs (a ∷ [])),
      λ v. ground (arith, count-append v xs (a ∷ []), nat_beq_iff x a),
    )
    | inr e ↦
        let (ys, found, same, counts) = remove_first-append xs in
        (x ∷ ys, rw (e, found), omega arith, λ v. ground (arith, counts v))
  ]
