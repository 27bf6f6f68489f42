-- ===== src/Resource/Sharing/Exclusive.antt =====
-- What a successful allocation and its deallocation do to the owners of a resource.
use vizstack.Prelude.{ℕ, true, false, ◌≡◌, refl, [], ◌∷◌, arith, length, nil_of_length, nat_eq}
use vizstack.Errors.{ok, raise, name_error}
use vizstack.Resource.{Resource, is_free}
use vizstack.Resource.Search.{can_allocate}
use vizstack.Resource.Sharing.{do_allocate, take_base, set_base, own_server}
use vizstack.Resource.Sharing.Invariant.{IsWithinLimit}

module _ (self other : Resource) (uid : ℕ) where
  -- The object that a successful doAllocate leaves.
  abbrev pub taken : Resource
  taken = record (set_base (take_base other.shared uid self.base) self) {
    class = own_server uid self.class;
  }

  pub do_allocate_eq : can_allocate self other ≡ true → do_allocate other uid self ≡ (ok tt, taken)
  unfolding do_allocate
  do_allocate_eq h = rw h

  pub do_allocate_refuses :
      can_allocate self other ≡ false → do_allocate other uid self ≡ (raise name_error, self)
  unfolding do_allocate
  do_allocate_refuses h = rw h

  pub can_allocate_of_ok : (do_allocate other uid self).0 ≡ ok tt → can_allocate self other ≡ true
  unfolding do_allocate
  can_allocate_of_ok = ground arith

  pub unowned :
      IsWithinLimit self.base
      → other.shared ≡ false
      → can_allocate self other ≡ true
      → (length self.owners ≡ 0) × (self.shared ≡ false)
  unfolding can_allocate is_free
  unowned h e k = ground (arith, h.exclusive, h.shared_limit)

  -- A request for exclusive use that is granted finds the resource without an owner, and leaves
  -- the user as its only one and the resource unshared.
  pub exclusive_grant :
      IsWithinLimit self.base
      → other.shared ≡ false
      → (do_allocate other uid self).0 ≡ ok tt
      → (self.owners ≡ [])
        × ((do_allocate other uid self).1.owners ≡ uid ∷ [])
        × ((do_allocate other uid self).1.shared ≡ false)
  unfolding take_base
  exclusive_grant h e k =
      let (none_yet, unshared) = unowned h e (can_allocate_of_ok k) in
      let empty = nil_of_length self.owners none_yet in
      (
        empty,
        rw (do_allocate_eq (can_allocate_of_ok k)) (rw (e, empty) refl),
        rw (do_allocate_eq (can_allocate_of_ok k)) (rw e unshared),
      )
