-- ===== src/Metascheduler/Owners.antt =====
-- How many owners the managed resources get by a call of allocate.
use vizstack.Prelude.{
  ℕ, ◌+◌, String, ◌≡◌, Option, some, List, [], ◌∷◌, inl, inr, Bool-cases, Option-cases, arith,
  length, length-append, ◌==◌, string_eq,
}
use vizstack.Prelude.Dict.{Dict, lookup, put}
use vizstack.Errors.{Result, ok, raise, Statement}
use vizstack.Resource.{Resource}
use vizstack.Resource.Search.{can_allocate}
use vizstack.Resource.Sharing.{do_allocate, take_base}
use vizstack.Resource.Sharing.Exclusive.{do_allocate_eq, do_allocate_refuses}
use vizstack.Metascheduler.Growth.{Adds}
use vizstack.Metascheduler.Base.{Request, Place, at, span}
use vizstack.Metascheduler.Commit.{Allotted, on_managed, allotted_at}

-- The owners of all resources of the table together.
abbrev pub all_owners : Dict Resource → ℕ
all_owners [] = 0
all_owners ((key, r) ∷ rest) = length r.owners + all_owners rest

all_owners-put :
    (key : String) (new old : Resource) (table : Dict Resource)
    → lookup key table ≡ some old
    → all_owners (put key new table) + length old.owners ≡ all_owners table + length new.owners
unfolding lookup put
all_owners-put key new old [] h = absurd cc
all_owners-put key new old ((j, r) ∷ table) h = elim (Bool-cases (j == key)) [
  | inl e ↦ let same : r ≡ old = ground arith in rw (e, same) (omega arith)
  | inr e ↦ rw e (omega (arith, all_owners-put key new old table (rw e at h)))
]

abbrev pub owner_count : Resource → ℕ
owner_count r = length r.owners

pub on_managed-Adds :
    {Value : Type 0} (n : ℕ) (key : String) (method : Statement Resource Value)
    → Adds owner_count n method
    → Adds all_owners n (on_managed key method)
unfolding on_managed
on_managed-Adds n key method am table v h = elim (Option-cases (lookup key table)) [
  | inl e ↦ absurd (let bad = (rw (e, on_managed) at h) in cc)
  | inr (managed, e) ↦
      rw (e, on_managed)
        (omega (
          arith,
          all_owners-put key (method managed).1 managed table e,
          am managed v (rw (e, on_managed) at h),
        ))
]

pub do_allocate-Adds : (res : Resource) (uid : ℕ) → Adds owner_count 1 (do_allocate res uid)
unfolding take_base
do_allocate-Adds res uid self v h = elim (Bool-cases (can_allocate self res)) [
  | inl e ↦
      rw (do_allocate_eq self res uid e) (ground (arith, length-append self.owners (uid ∷ [])))
  | inr e ↦ absurd (let bad = (rw (do_allocate_refuses self res uid e) at h) in cc)
]

-- How many resources an answer has.
abbrev pub size_of : Result (List (Option Resource)) → ℕ
size_of (ok l) = length l
size_of (raise e) = 0

abbrev pub answer_size : Allotted → ℕ → ℕ
answer_size allotted i = size_of (allotted_at allotted i)

abbrev pub span_size : Allotted → List ℕ → ℕ
span_size allotted [] = 0
span_size allotted (i ∷ rest) = answer_size allotted i + span_size allotted rest

abbrev pub place_size : Allotted → Place → ℕ
place_size allotted (at i) = answer_size allotted i
place_size allotted (span is) = span_size allotted is

-- How many resources the answers of the requests have together.
abbrev pub answered_size : Allotted → List Request → List Place → ℕ
answered_size allotted (r ∷ rest) (place ∷ places) =
    place_size allotted place + answered_size allotted rest places
answered_size allotted _ _ = 0
