-- ===== src/Resource/Sharing.antt =====
-- python/vsapi.py: taking a resource for a user and giving it back (doAllocate and deallocate of
-- VizResource and of GPU, whose X server has owners of its own).
pub mod Invariant
pub mod Exclusive
pub mod RoundTrip
use vizstack.Prelude.{
  ℕ, Bool, true, false, not, Option, none, some, List, [], ◌∷◌, length, ◌==◌, nat_eq, if◌then◌else◌,
}
use vizstack.Errors.{Result, ok, raise, Statement, name_error, ◌>>=◌, ◌>>◌, modify}
use vizstack.Resource.{
  VizResource, Resource, Class, gpu, sli, server, keyboard, mouse, GpuFields, add_owner,
  remove_owner, is_sharable,
}
use vizstack.Resource.Search.{can_allocate}

abbrev pub set_base : VizResource → Resource → Resource
set_base b r = record r { base = b }

-- The write that both classes make once the test has passed.
unfoldable pub take_base : Bool → ℕ → VizResource → VizResource
unfolding add_owner
take_base shared uid r =
    let owned = add_owner uid r in
    if shared then (if is_sharable r then record owned { shared = true } else owned) else owned

-- VizResource.doAllocate. The name BAD_OPERATION is not bound where the source raises it.
base_do_allocate : Resource → ℕ → Statement Resource (Unit {0})
base_do_allocate other uid self =
    if not (can_allocate self other)
    then (raise name_error, self)
    else (ok tt, set_base (take_base other.shared uid self.base) self)

abbrev pub own_server : ℕ → Class → Class
own_server uid (gpu g) = gpu (record g { shared_server = add_owner uid g.shared_server })
own_server uid c = c

-- doAllocate of each class: a GPU's X server gets the owner too.
unfoldable pub do_allocate : Resource → ℕ → Statement Resource (Unit {0})
unfolding base_do_allocate
do_allocate other uid = do
  base_do_allocate other uid
  modify (λ self. record self { class = own_server uid self.class })

abbrev on_base : Statement VizResource (Unit {0}) → Statement Resource (Unit {0})
on_base m self = let (r, b) = m self.base in (r, set_base b self)

-- The sharing ends with the last owner.
unfoldable pub release_base : VizResource → VizResource
release_base r = if length r.owners == 0 then record r { shared = false } else r

-- VizResource.deallocate. The freed object, an argument of the source, is not looked at.
base_deallocate : ℕ → Statement Resource (Unit {0})
unfolding release_base
base_deallocate uid = do
  on_base (remove_owner uid)
  modify (λ self. set_base (release_base self.base) self)

abbrev on_server : Statement VizResource (Unit {0}) → Class → Statement Resource (Unit {0})
on_server m (gpu g) self =
    let (r, s) = m g.shared_server in
    (r, record self { class = gpu (record g { shared_server = s }) })
on_server m _ self = (ok tt, self)

-- deallocate of each class: a GPU gives up its X server's owner first.
unfoldable pub deallocate : ℕ → Statement Resource (Unit {0})
unfolding base_deallocate remove_owner
deallocate uid = do
  self ← λ s. (ok s, s)
  on_server (remove_owner uid) self.class
  base_deallocate uid
