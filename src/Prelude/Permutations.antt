-- ===== src/Prelude/Permutations.antt =====
-- Lists in another order.
use mathlib.Core.List.Permᴰ
use mathlib.Core.List.{Permᴰ, List, [], ◌∷◌, ◌++◌}
use mathlib.Core.Path.{refl, subst}
use vizstack.Prelude.Lists.{All}

module _ {ℓ} {A : Type ℓ} where
  pub append_swap : (xs ys zs : List A) → Permᴰ (xs ++ (ys ++ zs)) (ys ++ (xs ++ zs))
  append_swap [] ys zs = Permᴰ.refl _
  append_swap (x ∷ xs) ys zs =
      Permᴰ.trans (Permᴰ.cons refl (append_swap xs ys zs)) (Permᴰ.symm (Permᴰ.middle x ys _))

  pub All-Permᴰ {κ} : {xs ys : List A} (P : A → Type κ) → Permᴰ xs ys → All P xs → All P ys
  All-Permᴰ P Permᴰ.nil h = tt
  All-Permᴰ P (Permᴰ.cons e p) h = (subst P e h.0, All-Permᴰ P p h.1)
  All-Permᴰ P (Permᴰ.swap e f) h = (subst P f h.1.0, (subst P e h.0, h.1.1))
  All-Permᴰ P (Permᴰ.trans p q) h = All-Permᴰ P q (All-Permᴰ P p h)
