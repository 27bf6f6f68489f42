-- ===== src/Metascheduler/Committed.antt =====
-- What a successful call of allocate adds to the owners of the managed resources and to the list of
-- allocations.
use vizstack.Prelude.{
  ℕ, ◌+◌, String, ◌≡◌, refl, Option, none, some, List, [], ◌∷◌, ◌++◌, arith, length, string_eq,
}
use vizstack.Prelude.Dict.{Dict}
use vizstack.Errors.{Result, ok, raise, Statement, ◌>>=◌, proceed}
use vizstack.Resource.{Resource, Launcher, hash_key}
use vizstack.Resource.Sharing.{do_allocate}
use vizstack.Metascheduler.Growth.{Adds, Adds-bind, Adds-lift, Adds-then, nothing, lifted}
use vizstack.Metascheduler.Allocate.{allocate, decide_all, add_allocation}
use vizstack.Metascheduler.Base.{
  UserInfo, Metascheduler, Allocation, Request, one, several, whole, aggregate, Place, at, span,
}
use vizstack.Metascheduler.Commit.{
  Allotted, lift, on_managed, allocate_copy, commit_one, commit_list, commit_span, commit_request,
  commit, allotted_at, add_resources,
}
use vizstack.Metascheduler.Owners.{
  all_owners, owner_count, on_managed-Adds, do_allocate-Adds, size_of, span_size, place_size,
  answered_size,
}

module _ (uid : ℕ) (node2launcher : Dict Launcher) where
  commit_one-Adds : (res : Option Resource) → Adds all_owners 1 (commit_one uid node2launcher res)
  unfolding commit_one
  commit_one-Adds none = λ s v e. absurd cc
  commit_one-Adds (some res) = Adds-lift all_owners 1 (hash_key res) _ (λ key _.
      Adds-then all_owners 1 (on_managed key (allocate_copy uid res)) _
        (on_managed-Adds 1 key _ (
          Adds-then owner_count 1 (do_allocate res uid) _ (do_allocate-Adds res uid)
            (λ _ s w e. omega arith)))
        (λ _. lifted all_owners _))

  commit_list-Adds :
      (l : List (Option Resource)) → Adds all_owners (length l) (commit_list uid node2launcher l)
  unfolding commit_list
  commit_list-Adds [] = nothing all_owners []
  commit_list-Adds (res ∷ rest) = λ s v e. omega (
    arith,
    Adds-bind all_owners 1 (length rest) (commit_one uid node2launcher res) _ (commit_one-Adds res)
        (λ new.
          Adds-then all_owners (length rest) (commit_list uid node2launcher rest) _
            (commit_list-Adds rest) (λ others. nothing all_owners (new ∷ others)))
        s v e,
  )

  -- The resources of one answer, and then something that takes none.
  answer-Adds :
      {Next : Type 0} (r : Result (List (Option Resource)))
      (f : List Resource → Statement (Dict Resource) Next)
      → ((l : List Resource) → Adds all_owners 0 (f l))
      → Adds all_owners (size_of r) (lift r >>= λ l. commit_list uid node2launcher l >>= f)
  answer-Adds (ok l) f af =
      Adds-then all_owners (length l) (commit_list uid node2launcher l) f (commit_list-Adds l) af
  answer-Adds (raise x) f af = λ s v e. absurd cc

  answer-bind :
      {Next : Type 0} (k : ℕ) (r : Result (List (Option Resource)))
      (f : List Resource → Statement (Dict Resource) Next)
      → ((l : List Resource) → Adds all_owners k (f l))
      → Adds all_owners (size_of r + k) (lift r >>= λ l. commit_list uid node2launcher l >>= f)
  answer-bind k (ok l) f af =
      Adds-bind all_owners (length l) k (commit_list uid node2launcher l) f (commit_list-Adds l) af
  answer-bind k (raise x) f af = λ s v e. absurd cc

  module _ (allotted : Allotted) where
    commit_span-Adds :
        (is : List ℕ)
        → Adds all_owners (span_size allotted is) (commit_span uid node2launcher allotted is)
    unfolding commit_span
    commit_span-Adds [] = nothing all_owners []
    commit_span-Adds (i ∷ rest) =
        answer-bind (span_size allotted rest) (allotted_at allotted i) _ (λ new.
          Adds-then all_owners (span_size allotted rest)
            (commit_span uid node2launcher allotted rest) _ (commit_span-Adds rest)
            (λ others. nothing all_owners (new ∷ others)))

    commit_request-Adds :
        (r : Request) (place : Place)
        → Adds all_owners
            (place_size allotted place)
            (commit_request uid node2launcher allotted r place)
    unfolding commit_request
    commit_request-Adds (one _) (at i) =
        answer-Adds (allotted_at allotted i) _ (λ _. lifted all_owners _)
    commit_request-Adds (several _) (at i) =
        answer-Adds (allotted_at allotted i) _ (λ new. nothing all_owners (several new))
    commit_request-Adds (whole n) (at i) = answer-Adds (allotted_at allotted i) _ (λ new.
        Adds-lift all_owners 0 (add_resources _ new) _ (λ n' _. nothing all_owners (whole n')))
    commit_request-Adds (aggregate _) (span is) =
        Adds-then all_owners (span_size allotted is) (commit_span uid node2launcher allotted is) _
          (commit_span-Adds is) (λ lists. nothing all_owners (aggregate lists))
    commit_request-Adds (one _) (span is) = λ s v e. absurd cc
    commit_request-Adds (several _) (span is) = λ s v e. absurd cc
    commit_request-Adds (whole _) (span is) = λ s v e. absurd cc
    commit_request-Adds (aggregate _) (at i) = λ s v e. absurd cc

    commit-Adds :
        (requests : List Request) (places : List Place)
        → Adds all_owners
            (answered_size allotted requests places)
            (commit uid node2launcher allotted requests places)
    unfolding commit
    commit-Adds [] places = nothing all_owners []
    commit-Adds (r ∷ rest) [] = λ s v e. absurd cc
    commit-Adds (r ∷ rest) (place ∷ places) =
        Adds-bind all_owners (place_size allotted place) (answered_size allotted rest places)
          (commit_request uid node2launcher allotted r place) _ (commit_request-Adds r place)
          (λ new.
            Adds-then all_owners (answered_size allotted rest places)
              (commit uid node2launcher allotted rest places) _ (commit-Adds rest places)
              (λ others. nothing all_owners (new ∷ others)))

abbrev Registered : Metascheduler → ℕ → Allocation → Metascheduler → Type 0
Registered self n a after =
    (all_owners after.info_table ≡ all_owners self.info_table + n)
    × (after.allocations ≡ self.allocations ++ a ∷ [])

module _ (self : Metascheduler) (n : ℕ) (a : Allocation) (make : List Request → Allocation) where
  abbrev add_made : List Request → Statement Metascheduler Allocation
  add_made final = add_allocation (make final)

  finished :
      (r : Result (List Request) × Dict Resource)
      → ((v : List Request) → r.0 ≡ ok v → all_owners r.1 ≡ all_owners self.info_table + n)
      → (proceed add_made (r.0, record self { info_table = r.1 })).0 ≡ ok a
      → Registered self n a (proceed add_made (r.0, record self { info_table = r.1 })).1
  finished (ok final, table) k h = let same : make final ≡ a = cc in (k final refl, rw same refl)
  finished (raise e, table) k h = absurd cc

-- Where what is decided is given and allocate returns an allocation, the managed resources together
-- have one owner more for each resource of the answers, and the allocation is the last one in the list.
pub allocate-Adds :
    (self : Metascheduler) (requested : List Request) (user : UserInfo) (include : List String)
    (places : List Place) (allotted : Allotted) (reserved : Dict Launcher × List Launcher)
    (a : Allocation)
    → decide_all self requested user include ≡ ok (places, allotted, reserved)
    → (allocate requested user include self).0 ≡ ok a
    → (all_owners (allocate requested user include self).1.info_table
        ≡ all_owners self.info_table + answered_size allotted requested places)
      × ((allocate requested user include self).1.allocations ≡ self.allocations ++ a ∷ [])
unfolding allocate
allocate-Adds self requested user include places allotted reserved a d h =
    rw (d, allocate)
      (finished self (answered_size allotted requested places) a
        (λ final. record {
          launchers = some (reserved.1);
          resources = some final;
          user = some (user.uid);
        })
        (commit user.uid reserved.0 allotted requested places self.info_table)
        (commit-Adds user.uid reserved.0 allotted requested places self.info_table)
        (rw (d, allocate) at h))
