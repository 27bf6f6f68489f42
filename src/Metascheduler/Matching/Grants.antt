-- ===== src/Metascheduler/Matching/Grants.antt =====
-- What it is to grant a list of requests out of a list of resources, in any order, and what follows
-- for the resources: the contract of the two matching functions.
use mathlib.Core.List.{Permᴰ, append_assoc}
use vizstack.Prelude.{
  ℕ, ◌+◌, String, Bool, true, false, ◌≡◌, refl, Option, List, [], ◌∷◌, ◌++◌, arith, All, length,
  length-append, Bool-cases, inl, inr,
}
use vizstack.Prelude.Permutations.{All-Permᴰ}
use vizstack.Resource.{Resource, is_free}
use vizstack.Resource.Search.{can_allocate}
use vizstack.Resource.Sharing.Exclusive.{do_allocate_eq}
use vizstack.Resource.Sharing.{take_base}
use vizstack.Resource.Sharing.Invariant.{IsWithinLimit, do_allocate-IsWithinLimit}
use vizstack.Metascheduler.Matching.{address}
use vizstack.Metascheduler.Matching.Address.{can_allocate-address}
use vizstack.Metascheduler.Matching.FirstFit.{kept, used_up, granted}

-- `Grants uid reqs answers avail left spent`: each request in turn is allocated, for the user,
-- out of one resource that admits it, and answered by that resource's address. `spent` are the
-- resources that are used up on the way, `left` all others.
pub data Grants (uid : ℕ) : (reqs answers avail left spent : List Resource) → Type 0 where
  done : {avail left : List Resource} → Permᴰ avail left → Grants uid [] [] avail left []
  grant :
      {reqs answers avail left spent : List Resource} (req a : Resource) (rest : List Resource)
      → Permᴰ avail (a ∷ rest)
      → can_allocate a req ≡ true
      → Grants uid reqs answers (kept (granted uid req a) ++ rest) left spent
      → Grants uid
          (req ∷ reqs)
          (address a req ∷ answers)
          avail
          left
          (used_up (granted uid req a) ++ spent)

-- How many owners the resources have together.
abbrev pub total_owners : List Resource → ℕ
total_owners [] = 0
total_owners (r ∷ rs) = length r.owners + total_owners rs

total_owners-Permᴰ : {xs ys : List Resource} → Permᴰ xs ys → total_owners xs ≡ total_owners ys
total_owners-Permᴰ Permᴰ.nil = refl
total_owners-Permᴰ (Permᴰ.cons e p) = rw e (omega (arith, total_owners-Permᴰ p))
total_owners-Permᴰ (Permᴰ.swap e f) = rw (e, f) (omega arith)
total_owners-Permᴰ (Permᴰ.trans p q) = rw (total_owners-Permᴰ p) (total_owners-Permᴰ q)

pub granted-IsWithinLimit :
    (uid : ℕ) (req a : Resource)
    → can_allocate a req ≡ true
    → IsWithinLimit a.base
    → IsWithinLimit (granted uid req a).base
granted-IsWithinLimit uid req a h w =
    rw (do_allocate_eq a (address a req) uid (can_allocate-address a req h)) at
      (do_allocate-IsWithinLimit a (address a req) uid w)

granted-owners :
    (uid : ℕ) (req a : Resource) → length (granted uid req a).owners ≡ length a.owners + 1
unfolding take_base
granted-owners uid req a = ground (arith, length-append a.owners (uid ∷ []))

pub granted-address :
    (uid : ℕ) (req a : Resource)
    → ((granted uid req a).res_index ≡ a.res_index) × ((granted uid req a).host_name ≡ a.host_name)
unfolding take_base
granted-address uid req a = ground arith

abbrev pub AreWithinLimit : List Resource → Type 0
AreWithinLimit = All (λ r. IsWithinLimit r.base)

abbrev pub AreFree : Bool → List Resource → Type 0
AreFree b = All (λ r. is_free r.base ≡ b)

-- A resource is either kept or used up.
module _ (r : Resource) where
  kept-All :
      (P : Resource → Type 0) (xs ys : List Resource)
      → P r
      → All P xs
      → All P ys
      → All P (kept r ++ xs) × All P (used_up r ++ ys)
  kept-All P xs ys p hx hy = elim (Bool-cases (is_free r.base)) [
    | inl e ↦ rw e ((p, hx), hy)
    | inr e ↦ rw e (hx, (p, hy))
  ]

  kept-AreFree :
      (xs ys : List Resource)
      → AreFree true xs
      → AreFree false ys
      → AreFree true (kept r ++ xs) × AreFree false (used_up r ++ ys)
  kept-AreFree xs ys hx hy = elim (Bool-cases (is_free r.base)) [
    | inl e ↦ rw e ((e, hx), hy)
    | inr e ↦ rw e (hx, (e, hy))
  ]

  total_owners-kept :
      (xs ys : List Resource)
      → total_owners (kept r ++ xs) + total_owners (used_up r ++ ys)
        ≡ length r.owners + total_owners xs + total_owners ys
  total_owners-kept xs ys = elim (Bool-cases (is_free r.base)) [
    | inl e ↦ rw e (omega arith)
    | inr e ↦ rw e (omega arith)
  ]

module _ {uid : ℕ} where
  pub Grants-Permᴰ :
      {reqs answers xs ys left spent : List Resource}
      → Permᴰ xs ys
      → Grants uid reqs answers ys left spent
      → Grants uid reqs answers xs left spent
  Grants-Permᴰ p (done q) = done (Permᴰ.trans p q)
  Grants-Permᴰ p (grant req a rest q h g) = grant req a rest (Permᴰ.trans p q) h g

  pub Grants-append :
      {reqs₁ reqs₂ answers₁ answers₂ avail mid left spent₁ spent₂ : List Resource}
      → Grants uid reqs₁ answers₁ avail mid spent₁
      → Grants uid reqs₂ answers₂ mid left spent₂
      → Grants uid (reqs₁ ++ reqs₂) (answers₁ ++ answers₂) avail left (spent₁ ++ spent₂)
  Grants-append (done p) g = Grants-Permᴰ p g
  Grants-append (grant req a rest p h f) g =
      rw append_assoc (grant req a rest p h (Grants-append f g))

  -- No resource is given to more users than its sharing allows, neither what is left nor what is
  -- used up.
  pub Grants-IsWithinLimit :
      {reqs answers avail left spent : List Resource}
      → Grants uid reqs answers avail left spent
      → AreWithinLimit avail
      → AreWithinLimit left × AreWithinLimit spent
  Grants-IsWithinLimit (done p) w = (All-Permᴰ _ p w, tt)
  Grants-IsWithinLimit (grant req a rest p h g) w =
      let (wa, wr) = All-Permᴰ _ p w in
      let new = granted-IsWithinLimit uid req a h wa in
      let (wl, ws) = Grants-IsWithinLimit g (kept-All (granted uid req a) _ rest [] new wr tt).0 in
      (wl, (kept-All (granted uid req a) _ [] _ new tt ws).1)

  -- What is left is free, if all was.
  pub Grants-is_free :
      {reqs answers avail left spent : List Resource}
      → Grants uid reqs answers avail left spent
      → AreFree true avail
      → AreFree true left × AreFree false spent
  Grants-is_free (done p) f = (All-Permᴰ _ p f, tt)
  Grants-is_free (grant req a rest p h g) f =
      let (_, fr) = All-Permᴰ _ p f in
      let (fl, fs) = Grants-is_free g (kept-AreFree (granted uid req a) rest [] fr tt).0 in
      (fl, (kept-AreFree (granted uid req a) [] _ tt fs).1)

  -- Each request adds one owner.
  pub total_owners-Grants :
      {reqs answers avail left spent : List Resource}
      → Grants uid reqs answers avail left spent
      → total_owners left + total_owners spent ≡ total_owners avail + length reqs
  total_owners-Grants (done p) = omega (arith, total_owners-Permᴰ p)
  total_owners-Grants (grant {spent = spent} req a rest p h g) = omega (
    arith,
    total_owners-Permᴰ p,
    total_owners-Grants g,
    total_owners-kept (granted uid req a) rest spent,
    granted-owners uid req a,
  )

  -- Whatever holds of the addresses of the resources holds of the answers'.
  pub Grants-answers :
      {reqs answers avail left spent : List Resource} (P : Option ℕ → Option String → Type 0)
      → Grants uid reqs answers avail left spent
      → All (λ r. P r.res_index r.host_name) avail
      → All (λ r. P r.res_index r.host_name) answers
  Grants-answers P (done p) f = tt
  Grants-answers P (grant req a rest p h g) f =
      let (fa, fr) = All-Permᴰ _ p f in
      let (index, host) = granted-address uid req a in
      (
        fa,
        Grants-answers P g
            (kept-All (granted uid req a) (λ r. P r.res_index r.host_name) rest []
              (rw (index, host) fa) fr tt).0,
      )
