-- ===== src/Metascheduler/Matching/Uses.antt =====
-- Who uses which resource, and what grants add to that.
use vizstack.Prelude.{
  ℕ, ◌≡◌, Option, List, String, map, refl, ap, ◌∙◌, suc, [], ◌∷◌, ◌++◌, arith, length, Bool-cases,
  inl, inr,
}
use mathlib.Core.List.Permᴰ
use mathlib.Core.List.{Permᴰ, append_assoc, append-nil}
use vizstack.Prelude.Permutations.{append_swap}
use vizstack.Resource.{Resource, Class, gpu, sli, server, keyboard, mouse, is_free, class_name}
use vizstack.Resource.Sharing.{take_base, own_server}
use vizstack.Metascheduler.Matching.FirstFit.{kept, used_up, granted}
use vizstack.Metascheduler.Matching.Grants.{Grants, done, grant, granted-address}

module _ {B : Type 0} where
  abbrev pub flat : (Resource → List B) → List Resource → List B
  flat f [] = []
  flat f (r ∷ rs) = f r ++ flat f rs

  flat-Permᴰ :
      (f : Resource → List B) {xs ys : List Resource} → Permᴰ xs ys → Permᴰ (flat f xs) (flat f ys)
  flat-Permᴰ f Permᴰ.nil = Permᴰ.nil
  flat-Permᴰ f (Permᴰ.cons {a = a} e p) = rw e (Permᴰ.append_left _ (flat-Permᴰ f p))
  flat-Permᴰ f (Permᴰ.swap {a = a} {b = b} {l = l} e g) =
      rw (← e, ← g) (append_swap (f a) (f b) (flat f l))
  flat-Permᴰ f (Permᴰ.trans p q) = Permᴰ.trans (flat-Permᴰ f p) (flat-Permᴰ f q)

  kept_shuffle :
      (own new others rest : List B)
      → Permᴰ (others ++ ((own ++ new) ++ rest)) ((new ++ others) ++ (own ++ rest))
  kept_shuffle own new others rest =
      simp append_assoc (simp append_assoc at (append_swap (others ++ own) new rest))

  used_shuffle :
      (own new others rest : List B)
      → Permᴰ ((own ++ new) ++ (others ++ rest)) ((new ++ others) ++ (own ++ rest))
  used_shuffle own new others rest =
      simp append_assoc (simp append_assoc at (append_swap own (new ++ others) rest))

  -- Where a grant adds something to what a resource holds, the resources together hold afterwards what
  -- they held before and what the grants added.
  module _ (uid : ℕ) (f add : Resource → List B)
      (grows : (req a : Resource) → f (granted uid req a) ≡ f a ++ add a) where
    flat-kept :
        (req a : Resource) (rest left spent : List Resource) (others : List B)
        → Permᴰ (flat f (left ++ spent)) (others ++ flat f (kept (granted uid req a) ++ rest))
        → Permᴰ
            (flat f (left ++ (used_up (granted uid req a) ++ spent)))
            ((add a ++ others) ++ (f a ++ flat f rest))
    flat-kept req a rest left spent others ih =
        elim (Bool-cases (is_free (granted uid req a).base)) [
          | inl e ↦ rw e (
              Permᴰ.trans (rw (e, grows req a) at ih)
                (kept_shuffle (f a) (add a) others (flat f rest)))
          | inr e ↦ rw e (
              Permᴰ.trans (flat-Permᴰ f (Permᴰ.middle (granted uid req a) left spent)) (
                rw (grows req a) (
                  Permᴰ.trans (Permᴰ.append_left (f a ++ add a) (rw e at ih))
                    (used_shuffle (f a) (add a) others (flat f rest)))))
        ]

    pub flat-Grants :
        {reqs answers avail left spent : List Resource}
        → Grants uid reqs answers avail left spent
        → (chosen : List Resource) × (length chosen ≡ length reqs)
          × Permᴰ (flat f (left ++ spent)) (flat add chosen ++ flat f avail)
    flat-Grants {left = left} (done p) =
        ([], refl, rw (append-nil left) (Permᴰ.symm (flat-Permᴰ f p)))
    flat-Grants {left = left} (grant {spent = spent} req a rest p h g) =
        let (chosen, e, ih) = flat-Grants g in
        (
          a ∷ chosen,
          ap suc e,
          Permᴰ.trans (flat-kept req a rest left spent (flat add chosen) ih)
              (Permᴰ.append_left (add a ++ flat add chosen) (Permᴰ.symm (flat-Permᴰ f p))),
        )

-- Which resource an object stands for, and how many may share it.
abbrev pub Identity : Type 0
Identity = String × Option ℕ × Option String × ℕ

abbrev pub identity : Resource → Identity
identity r = (class_name r.class, r.res_index, r.host_name, r.max_share_count)

abbrev pub identities : List Resource → List Identity
identities = flat (λ r. identity r ∷ [])

-- Who uses which resource.
abbrev pub Use : Type 0
Use = Identity × ℕ

abbrev pub use_by : ℕ → Identity → Use
use_by uid name = (name, uid)

abbrev pub use_of : Resource → ℕ → Use
use_of r owner = (identity r, owner)

abbrev pub uses : List Resource → List Use
uses = flat (λ r. map (use_of r) r.owners)

own_server-class_name : (uid : ℕ) (c : Class) → class_name (own_server uid c) ≡ class_name c
own_server-class_name uid (gpu g) = refl
own_server-class_name uid sli = refl
own_server-class_name uid server = refl
own_server-class_name uid keyboard = refl
own_server-class_name uid mouse = refl

share_count : (uid : ℕ) (req a : Resource) → (granted uid req a).max_share_count ≡ a.max_share_count
unfolding take_base
share_count uid req a = ground arith

pub granted-identity : (uid : ℕ) (req a : Resource) → identity (granted uid req a) ≡ identity a
granted-identity uid req a =
    let (index, host) = granted-address uid req a in
    λ i. (own_server-class_name uid a.class i, index i, host i, share_count uid req a i)

owners_map :
    (a : Resource) (owners : List ℕ) (uid : ℕ)
    → map (use_of a) (owners ++ uid ∷ []) ≡ map (use_of a) owners ++ use_of a uid ∷ []
owners_map a [] uid = refl
owners_map a (o ∷ owners) uid = ap (use_of a o ∷◌) (owners_map a owners uid)

owners_after : (uid : ℕ) (req a : Resource) → (granted uid req a).owners ≡ a.owners ++ uid ∷ []
unfolding take_base
owners_after uid req a = ground arith

pub granted-uses :
    (uid : ℕ) (req a : Resource)
    → map (use_of (granted uid req a)) (granted uid req a).owners
      ≡ map (use_of a) a.owners ++ use_of a uid ∷ []
granted-uses uid req a =
    ap (λ name. map (λ owner. (name, owner)) (granted uid req a).owners)
      (granted-identity uid req a)
    ∙ ap (map (use_of a)) (owners_after uid req a)
    ∙ owners_map a a.owners uid

pub flat_nothing : (l : List Resource) → flat {B = Identity} (λ _. []) l ≡ []
flat_nothing [] = refl
flat_nothing (r ∷ rs) = flat_nothing rs

pub flat_single :
    (uid : ℕ) (l : List Resource)
    → flat (λ r. use_of r uid ∷ []) l ≡ map (use_by uid) (map identity l)
flat_single uid [] = refl
flat_single uid (r ∷ rs) = ap (use_of r uid ∷◌) (flat_single uid rs)
