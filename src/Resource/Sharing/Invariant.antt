-- ===== src/Resource/Sharing/Invariant.antt =====
-- The owners of a resource stay within what its sharing allows.
use vizstack.Prelude.{
  ℕ, suc, ◌+◌, ◌<◌, ◌≤◌, true, false, ◌≡◌, some, List, [], ◌∷◌, ◌++◌, arith, length, length-append,
  remove_first, Option-cases, inl, inr, nat_eq,
}
use vizstack.Errors.{◌>>=◌}
use vizstack.Resource.{VizResource, Resource, Class, gpu, remove_owner, is_free}
use vizstack.Resource.Search.{can_allocate}
use vizstack.Resource.Sharing.{
  do_allocate, deallocate, take_base, release_base, base_deallocate, on_server,
}

-- An exclusive resource has at most one owner; a shared one is sharable and has at most as many
-- as its limit.
pub record IsWithinLimit (r : VizResource) : Type 0 where
  pub exclusive : r.shared ≡ false → length r.owners ≤ 1
  pub shared_limit : r.shared ≡ true → length r.owners ≤ r.max_share_count
  pub sharable : r.shared ≡ true → 1 < r.max_share_count

pub length-remove_first :
    (a : ℕ) (xs : List ℕ) {ys : List ℕ} → remove_first a xs ≡ some ys → length xs ≡ suc (length ys)
length-remove_first a [] h = cc
length-remove_first a (x ∷ xs) h = elim (Option-cases (remove_first a xs)) [
  | inl e ↦ ground (arith, e)
  | inr (zs, e) ↦ ground (arith, e, length-remove_first a xs {ys = zs})
]

module _ (self other : Resource) (uid : ℕ) (h : IsWithinLimit self.base) where
  take_length : length (self.owners ++ uid ∷ []) ≡ length self.owners + 1
  take_length = omega (arith, length-append self.owners (uid ∷ []))

  -- Whether it takes the resource or raises, doAllocate leaves the owners within the limit.
  pub do_allocate-IsWithinLimit : IsWithinLimit (do_allocate other uid self).1.base
  unfolding do_allocate can_allocate is_free take_base
  do_allocate-IsWithinLimit = record {
    exclusive = ground (arith, take_length, h.exclusive);
    shared_limit = ground (arith, take_length, h.exclusive, h.shared_limit);
    sharable = ground (arith, h.sharable);
  }

release_base-IsWithinLimit :
    (b : VizResource) (rest : List ℕ)
    → length b.owners ≡ suc (length rest)
    → IsWithinLimit b
    → IsWithinLimit (release_base (record b { owners = rest }))
unfolding release_base
release_base-IsWithinLimit b rest e h = record {
  exclusive = ground (arith, h.exclusive, h.shared_limit);
  shared_limit = ground (arith, h.shared_limit);
  sharable = ground (arith, h.sharable);
}

base_deallocate-IsWithinLimit :
    (self : Resource) (uid : ℕ)
    → IsWithinLimit self.base
    → IsWithinLimit (base_deallocate uid self).1.base
unfolding base_deallocate remove_owner
base_deallocate-IsWithinLimit self uid h = elim (Option-cases (remove_first uid self.owners)) [
  | inl e ↦ rw (e, remove_owner) h
  | inr (rest, e) ↦
      rw (e, remove_owner)
        (release_base-IsWithinLimit self.base rest (length-remove_first uid self.owners e) h)
]

module _ (uid : ℕ) where
  with_server-IsWithinLimit :
      (c : Class) (self : Resource)
      → IsWithinLimit self.base
      → IsWithinLimit ((on_server (remove_owner uid) c >>= λ _. base_deallocate uid) self).1.base
  unfolding remove_owner
  with_server-IsWithinLimit (gpu g) self h =
      elim (Option-cases (remove_first uid g.shared_server.owners)) [
        | inl e ↦ rw (e, remove_owner) h
        | inr (rest, e) ↦ rw (e, remove_owner) (base_deallocate-IsWithinLimit _ uid h)
      ]
  with_server-IsWithinLimit _ self h = base_deallocate-IsWithinLimit self uid h

  -- The same of deallocate, whatever a GPU's X server says about its own owners.
  pub deallocate-IsWithinLimit :
      (self : Resource) → IsWithinLimit self.base → IsWithinLimit (deallocate uid self).1.base
  unfolding deallocate
  deallocate-IsWithinLimit self h = with_server-IsWithinLimit self.class self h

-- A use of a resource: a request is allocated out of it, or a user gives it back.
pub data Use : Type 0 where
  take : Resource → ℕ → Use
  give : ℕ → Use

unfoldable pub use_all : List Use → Resource → Resource
use_all [] self = self
use_all (take other uid ∷ rest) self = use_all rest (do_allocate other uid self).1
use_all (give uid ∷ rest) self = use_all rest (deallocate uid self).1

-- From a resource whose owners are within its limit (a free one, say), every history of
-- allocations and deallocations, refused ones included, keeps them within the limit: at most one
-- owner while it is exclusive, at most as many as the share limit while it is shared, and shared
-- only if the limit allows more than one.
pub use_all-IsWithinLimit :
    (history : List Use) (self : Resource)
    → IsWithinLimit self.base
    → IsWithinLimit (use_all history self).base
unfolding use_all
use_all-IsWithinLimit [] self h = h
use_all-IsWithinLimit (take other uid ∷ rest) self h =
    use_all-IsWithinLimit rest _ (do_allocate-IsWithinLimit self other uid h)
use_all-IsWithinLimit (give uid ∷ rest) self h =
    use_all-IsWithinLimit rest _ (deallocate-IsWithinLimit uid self h)
