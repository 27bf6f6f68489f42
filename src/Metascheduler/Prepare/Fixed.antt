-- ===== src/Metascheduler/Prepare/Fixed.antt =====
-- python/metascheduler.py, allocate: what the checks of the completely resolvable requests amount to.
use vizstack.Prelude.{
  String, true, false, ◌≡◌, refl, ◌↔◌, some, List, [], ◌∷◌, All, arith, inl, inr, Option-cases,
  contains, string_eq,
}
use vizstack.Prelude.Dict.{Dict, lookup}
use vizstack.Errors.{ok, Result-cases}
use vizstack.Resource.{Resource}
use vizstack.Resource.Search.{can_allocate}
use vizstack.Metascheduler.Prepare.{FixedEntry, is_left_out, check_fixed_one, check_fixed}

module _ (info_table : Dict Resource) (unusable include : List String) where
  -- The named resource is managed, its node can be used and is not left out, and it admits the
  -- request.
  abbrev pub IsServable : String × FixedEntry → Type 0
  IsServable (key, entry) =
      (res : Resource) × (host : String) × (lookup key info_table ≡ some res)
      × (res.host_name ≡ some host)
      × (contains unusable host ≡ false)
      × (is_left_out include host ≡ false)
      × (can_allocate res entry.ref ≡ true)

  -- The checks after the managed resource and its host are found.
  check_found :
      (res : Resource) (host : String) (key : String) (entry : FixedEntry)
      → lookup key info_table ≡ some res
      → res.host_name ≡ some host
      → (check_fixed_one info_table unusable include (key, entry) ≡ ok tt) ↔ (
          (contains unusable host ≡ false)
          × (is_left_out include host ≡ false)
          × (can_allocate res entry.ref ≡ true))
  unfolding check_fixed_one can_allocate
  check_found res host key entry e h = rw (e, h, check_fixed_one) (ground arith)

  check_fixed_one-IsServable :
      (entry : String × FixedEntry)
      → check_fixed_one info_table unusable include entry ≡ ok tt
      → IsServable entry
  unfolding check_fixed_one
  check_fixed_one-IsServable (key, entry) c = elim (Option-cases (lookup key info_table)) [
    | inl e ↦ absurd (let bad = (rw (e, check_fixed_one) at c) in cc)
    | inr (res, e) ↦ elim (Option-cases res.host_name) [
      | inl h ↦ absurd (let bad = (rw (e, h, check_fixed_one) at c) in cc)
      | inr (host, h) ↦
          let (usable, included, admitted) = (check_found res host key entry e h).0 c in
          (res, host, e, h, usable, included, admitted)
    ]
  ]

  IsServable-check_fixed_one :
      (entry : String × FixedEntry)
      → IsServable entry
      → check_fixed_one info_table unusable include entry ≡ ok tt
  IsServable-check_fixed_one (key, entry) (res, host, e, h, usable, included, admitted) =
      (check_found res host key entry e h).1 (usable, included, admitted)

  -- The checks pass exactly when each entry names a managed resource whose node is usable and not
  -- left out, and which canAllocate the request.
  pub check_fixed_iff :
      (fixed : Dict FixedEntry)
      → (check_fixed info_table unusable include fixed ≡ ok tt) ↔ All IsServable fixed
  unfolding check_fixed
  check_fixed_iff [] = (λ _. tt, λ _. refl)
  check_fixed_iff (entry ∷ rest) = (
    λ h. elim (Result-cases (check_fixed_one info_table unusable include entry)) [
      | inl (_, e) ↦ (check_fixed_one-IsServable entry e, (check_fixed_iff rest).0 (rw e at h))
      | inr (_, e) ↦ absurd (let bad = (rw e at h) in cc)
    ],
    λ (s, t). rw (IsServable-check_fixed_one entry s, (check_fixed_iff rest).1 t) refl,
  )
