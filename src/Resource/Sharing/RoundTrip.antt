-- ===== src/Resource/Sharing/RoundTrip.antt =====
-- Giving back what was just taken restores the resource, up to the order of its owners.
use vizstack.Prelude.{
  ℕ, true, false, ◌≡◌, some, List, [], ◌∷◌, ◌++◌, arith, length, count, remove_first,
  remove_first-append, nat_eq,
}
use vizstack.Errors.{Result, ok, ◌>>=◌}
use vizstack.Resource.{
  VizResource, Resource, Class, gpu, sli, server, keyboard, mouse, add_owner, remove_owner, is_free,
}
use vizstack.Resource.Search.{can_allocate}
use vizstack.Resource.Sharing.{
  do_allocate, deallocate, base_deallocate, on_server, own_server, take_base, release_base,
}
use vizstack.Resource.Sharing.Invariant.{IsWithinLimit}
use vizstack.Resource.Sharing.Exclusive.{taken, do_allocate_eq}

-- A GPU's X server has the user among its owners.
abbrev ServerOwns : ℕ → Class → Type 0
ServerOwns uid (gpu g) = (zs : List ℕ) × (remove_first uid g.shared_server.owners ≡ some zs)
ServerOwns uid _ = Unit

module _ (uid : ℕ) (self : Resource) (ys : List ℕ)
    (owned : remove_first uid self.owners ≡ some ys) where
  abbrev after : Class → VizResource
  after c = ((on_server (remove_owner uid) c >>= λ _. base_deallocate uid) self).1.base

  with_server :
      (c : Class)
      → ServerOwns uid c
      → (((on_server (remove_owner uid) c >>= λ _. base_deallocate uid) self).0 ≡ ok tt)
        × (after c ≡ release_base (record (self.base) { owners = ys }))
  unfolding base_deallocate remove_owner
  with_server (gpu g) (zs, e) = (rw (e, owned, remove_owner), ground (arith, e, owned))
  with_server sli _ = (rw (owned, remove_owner), rw (owned, remove_owner))
  with_server server _ = (rw (owned, remove_owner), rw (owned, remove_owner))
  with_server keyboard _ = (rw (owned, remove_owner), rw (owned, remove_owner))
  with_server mouse _ = (rw (owned, remove_owner), rw (owned, remove_owner))

  pub deallocate_owned :
      ServerOwns uid self.class
      → ((deallocate uid self).0 ≡ ok tt)
        × ((deallocate uid self).1.base ≡ release_base (record (self.base) { owners = ys }))
  unfolding deallocate
  deallocate_owned h = with_server self.class h

own_server-ServerOwns : (uid : ℕ) (c : Class) → ServerOwns uid (own_server uid c)
unfolding add_owner
own_server-ServerOwns uid (gpu g) =
    let (zs, e, _, _) = remove_first-append uid g.shared_server.owners in (zs, e)
own_server-ServerOwns uid sli = tt
own_server-ServerOwns uid server = tt
own_server-ServerOwns uid keyboard = tt
own_server-ServerOwns uid mouse = tt

-- Two states of a resource with the same owners, each as often, and the same sharing and address.
pub record SameUse (r s : VizResource) : Type 0 where
  pub owners : (v : ℕ) → count v r.owners ≡ count v s.owners
  pub shared : r.shared ≡ s.shared
  pub res_index : r.res_index ≡ s.res_index
  pub host_name : r.host_name ≡ s.host_name
  pub res_type : r.res_type ≡ s.res_type
  pub max_share_count : r.max_share_count ≡ s.max_share_count
  pub allocation_bias : r.allocation_bias ≡ s.allocation_bias

module _ (self other : Resource) (uid : ℕ) where
  abbrev back : Result (Unit {0}) × Resource
  back = deallocate uid (do_allocate other uid self).1

  released_SameUse :
      (ys : List ℕ)
      → IsWithinLimit self.base
      → (length self.owners ≡ 0 → self.shared ≡ false)
      → can_allocate self other ≡ true
      → length ys ≡ length self.owners
      → ((v : ℕ) → count v ys ≡ count v self.owners)
      → SameUse
          (release_base (record (take_base other.shared uid self.base) { owners = ys }))
          self.base
  unfolding release_base take_base can_allocate add_owner is_free
  released_SameUse ys h idle k same counts = record {
    owners = λ v. ground (arith, counts v);
    shared = ground (arith, h.exclusive, h.shared_limit, h.sharable);
    res_index = ground arith;
    host_name = ground arith;
    res_type = ground arith;
    max_share_count = ground arith;
    allocation_bias = ground arith;
  }

  take_base_owners : (take_base other.shared uid self.base).owners ≡ self.owners ++ uid ∷ []
  unfolding take_base
  take_base_owners = ground arith

  -- An admitted request that is given back at once: the deallocation succeeds, and the resource
  -- has the owners it had, each as often, and the sharing, address and limit it had.
  pub deallocate-do_allocate :
      IsWithinLimit self.base
      → (length self.owners ≡ 0 → self.shared ≡ false)
      → can_allocate self other ≡ true
      → (back.0 ≡ ok tt) × SameUse back.1.base self.base
  deallocate-do_allocate h idle k =
      let (ys, found, same, counts) = remove_first-append uid self.owners in
      let (fine, result) =
        deallocate_owned uid (taken self other uid) ys (rw take_base_owners found)
          (own_server-ServerOwns uid self.class) in
      rw (do_allocate_eq self other uid k)
        (fine, rw result (released_SameUse ys h idle k same counts))
