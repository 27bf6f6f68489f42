-- ===== src/Prelude/Sorting.antt =====
-- Python's `list.sort(cmp)`: stable, by a comparison function that returns an integer.
use mathlib.Core.List.Permᴰ
use mathlib.Core.List.{Permᴰ, List, [], ◌∷◌}
use mathlib.Core.Path.{◌≡◌, refl}
use mathlib.Core.Bool.{Bool, true, false}
use mathlib.Core.Logic.{inl, inr}
use vizstack.Prelude.Tests.{if◌then◌else◌, Bool-cases}
use vizstack.Prelude.Lists.{All, All-mono}
use vizstack.Prelude.Permutations.{All-Permᴰ}
use vizstack.Prelude.Int.{ℤ, pos, ltb_ℤ}

module _ {ℓ} {A : Type ℓ} (cmp : A → A → ℤ) where
  abbrev pub comes_before : A → A → Bool
  comes_before a b = ltb_ℤ (cmp a b) (pos 0)

  -- In front of the first entry that does not come before it.
  unfoldable pub insert_by : A → List A → List A
  insert_by a [] = a ∷ []
  insert_by a (b ∷ l) = let rest = insert_by a l in if comes_before b a then b ∷ rest else a ∷ b ∷ l

  unfoldable pub sort_by : List A → List A
  unfolding insert_by
  sort_by [] = []
  sort_by (a ∷ l) = insert_by a (sort_by l)

  insert_by-Permᴰ : (a : A) (l : List A) → Permᴰ (a ∷ l) (insert_by a l)
  unfolding insert_by
  insert_by-Permᴰ a [] = Permᴰ.refl _
  insert_by-Permᴰ a (b ∷ l) = elim (Bool-cases (comes_before b a)) [
    | inl e ↦ rw e (Permᴰ.trans (Permᴰ.swap refl refl) (Permᴰ.cons refl (insert_by-Permᴰ a l)))
    | inr e ↦ rw e (Permᴰ.refl _)
  ]

  pub sort_by-Permᴰ : (l : List A) → Permᴰ l (sort_by l)
  unfolding sort_by
  sort_by-Permᴰ [] = Permᴰ.nil
  sort_by-Permᴰ (a ∷ l) =
      Permᴰ.trans (Permᴰ.cons refl (sort_by-Permᴰ l)) (insert_by-Permᴰ a (sort_by l))

  -- No later entry comes before an earlier one.
  abbrev pub IsSortedBy : List A → Type ℓ
  IsSortedBy [] = Unit
  IsSortedBy (a ∷ l) = All (λ b. comes_before b a ≡ false) l × IsSortedBy l

  -- The comparison is that of a total preorder.
  pub record IsOrder : Type ℓ where
    pub asym : (a b : A) → comes_before a b ≡ true → comes_before b a ≡ false
    pub trans :
        (a b c : A) → comes_before b a ≡ false → comes_before c b ≡ false → comes_before c a ≡ false

  module _ (order : IsOrder) where
    insert_by-IsSortedBy : (a : A) (l : List A) → IsSortedBy l → IsSortedBy (insert_by a l)
    unfolding insert_by
    insert_by-IsSortedBy a [] s = (tt, tt)
    insert_by-IsSortedBy a (b ∷ l) s = elim (Bool-cases (comes_before b a)) [
      | inl e ↦
          rw e (
            All-Permᴰ _ (insert_by-Permᴰ a l) (order.asym b a e, s.0),
            insert_by-IsSortedBy a l s.1,
          )
      | inr e ↦ rw e ((e, All-mono _ _ (λ c h. order.trans a b c e h) l s.0), s)
    ]

    pub sort_by-IsSortedBy : (l : List A) → IsSortedBy (sort_by l)
    unfolding sort_by
    sort_by-IsSortedBy [] = tt
    sort_by-IsSortedBy (a ∷ l) = insert_by-IsSortedBy a (sort_by l) (sort_by-IsSortedBy l)
