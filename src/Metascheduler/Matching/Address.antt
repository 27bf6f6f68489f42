-- ===== src/Metascheduler/Matching/Address.antt =====
-- What giving a request the address of the resource that answers it changes.
use vizstack.Prelude.{true, ◌≡◌, sym, arith, nat_eq, string_eq, option_eq, option_beq_iff}
use vizstack.Resource.{Resource}
use vizstack.Resource.Search.{can_allocate, type_search_match, refers_to_the_same}
use vizstack.Resource.Search.Spec.{type_search_match_iff}
use vizstack.Errors.{ok}
use vizstack.Metascheduler.Matching.{address, is_requested}

-- A resource that matches a request matches it under its own address, too.
pub type_search_match-address :
    (a req : Resource) → type_search_match a req ≡ true → type_search_match a (address a req) ≡ true
type_search_match-address a req h =
    let s = (type_search_match_iff a req).0 h in
    (type_search_match_iff a (address a req)).1 (record {
      class = s.class;
      index = λ _ e. e;
      type = s.type;
      host = λ _ e. e;
      sharing = s.sharing;
      scanout = s.scanout;
    })

pub can_allocate-address :
    (a req : Resource) → can_allocate a req ≡ true → can_allocate a (address a req) ≡ true
unfolding can_allocate
can_allocate-address a req h = ground (arith, type_search_match-address a req)

-- A request that refers to the resource has that address already.
pub address_same : (a req : Resource) → is_requested a req ≡ ok true → address a req ≡ req
unfolding refers_to_the_same
address_same a req h =
    let index : req.res_index ≡ a.res_index = (option_beq_iff _ _).0 (ground arith) in
    let host : req.host_name ≡ a.host_name = (option_beq_iff _ _).0 (ground arith) in
    λ i. record req { base = record (req.base) { res_index = sym index i; host_name = sym host i } }

pub is_requested-can_allocate :
    (a req : Resource) → is_requested a req ≡ ok true → can_allocate a req ≡ true
unfolding refers_to_the_same
is_requested-can_allocate a req h = ground arith
