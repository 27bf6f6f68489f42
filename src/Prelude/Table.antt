-- ===== src/Prelude/Table.antt =====
-- A `dict` whose keys are compared by an instance of Eq: numbers, or numbers and None.
use mathlib.Core.Path.{◌≡◌, refl}
use mathlib.Core.Logic.{inl, inr}
use mathlib.Core.Option.{Option, none, some}
use mathlib.Core.List.{List, [], ◌∷◌}
use native.Mathlib.Omega.{arith}
use vizstack.Prelude.Tests.{if◌then◌else◌, Bool-cases}
use vizstack.Prelude.Lists.{All}
use vizstack.Prelude.Keys.{Eq, ◌==◌}

module _ {ℓ κ} {K : Type ℓ} {V : Type κ} ⦃e : Eq K⦄ where
  abbrev pub at_key : K → List (K × V) → Option V
  at_key k [] = none
  at_key k ((j, v) ∷ t) = if j == k then some v else at_key k t

  abbrev pub put_key : K → V → List (K × V) → List (K × V)
  put_key k v [] = (k, v) ∷ []
  put_key k v ((j, w) ∷ t) =
      let rest = put_key k v t in if j == k then (j, v) ∷ t else (j, w) ∷ rest

  -- What holds of every entry still holds of every entry, if it holds of the new one.
  pub All-put_key {μ} :
      (P : K × V → Type μ) (k : K) (v : V) (t : List (K × V))
      → ((j : K) → j ≡ k → P (j, v))
      → All P t
      → All P (put_key k v t)
  All-put_key P k v [] p h = (p k refl, tt)
  All-put_key P k v ((j, w) ∷ t) p h = elim (Bool-cases (j == k)) [
    | inl same ↦ rw same (p j ((e.beq_iff j k).0 same), h.1)
    | inr other ↦ rw other (h.0, All-put_key P k v t p h.1)
  ]

  pub at_key-put_key :
      (k j : K) (v : V) (t : List (K × V))
      → at_key j (put_key k v t) ≡ (if k == j then some v else at_key j t)
  at_key-put_key k j v [] = refl
  at_key-put_key k j v ((i, w) ∷ t) =
      ground (arith, e.beq_iff k j, e.beq_iff i k, e.beq_iff i j, at_key-put_key k j v t)
