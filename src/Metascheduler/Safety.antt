-- ===== src/Metascheduler/Safety.antt =====
-- The managed resources stay within their limits, whatever is asked for and however it ends.
use vizstack.Prelude.{ℕ, String, Option, none, some, List, [], ◌∷◌, string_eq}
use vizstack.Prelude.Dict.{Dict}
use vizstack.Errors.{Statement, ◌>>=◌}
use vizstack.Resource.{Resource, Launcher, hash_key}
use vizstack.Resource.Sharing.{deallocate}
use vizstack.Resource.Sharing.Invariant.{deallocate-IsWithinLimit}
use vizstack.Metascheduler.Base.{
  Request, one, several, whole, aggregate, Place, at, span, UserInfo, Metascheduler,
}
use vizstack.Metascheduler.Commit.{
  Allotted, lift, on_managed, allocate_copy, commit_one, commit_list, commit_span, commit_request,
  commit, allotted_at, add_resources,
}
use vizstack.Metascheduler.Allocate.{
  allocate, deallocate_allocation, decide_all, on_table, release_one, release_all, content_of,
  allocation_at,
}
use vizstack.Metascheduler.Managed.{
  TableWithinLimit, Keeps, Keeps-bind, on_managed-Keeps, Keeps-lift, allocate_copy-Keeps,
}

release_one-Keeps : (uid : ℕ) (res : Resource) → Keeps TableWithinLimit (release_one uid res)
unfolding release_one
release_one-Keeps uid res =
    Keeps-lift TableWithinLimit (hash_key res) _
      (λ key. on_managed-Keeps key (deallocate uid) (deallocate-IsWithinLimit uid))

release_all-Keeps : (uid : ℕ) (l : List Resource) → Keeps TableWithinLimit (release_all uid l)
unfolding release_all
release_all-Keeps uid [] = λ s p. p
release_all-Keeps uid (res ∷ rest) =
    Keeps-bind TableWithinLimit (release_one uid res) _ (release_one-Keeps uid res)
      (λ _. release_all-Keeps uid rest)

module _ (uid : ℕ) (node2launcher : Dict Launcher) where
  commit_one-Keeps :
      (res : Option Resource) → Keeps TableWithinLimit (commit_one uid node2launcher res)
  unfolding commit_one
  commit_one-Keeps none = λ s p. p
  commit_one-Keeps (some res) = Keeps-lift TableWithinLimit (hash_key res) _ (λ key.
      Keeps-bind TableWithinLimit (on_managed key (allocate_copy uid res)) _
        (on_managed-Keeps key _ (allocate_copy-Keeps uid res)) (λ _ s p. p))

  commit_list-Keeps :
      (l : List (Option Resource)) → Keeps TableWithinLimit (commit_list uid node2launcher l)
  unfolding commit_list
  commit_list-Keeps [] = λ s p. p
  commit_list-Keeps (res ∷ rest) =
      Keeps-bind TableWithinLimit (commit_one uid node2launcher res) _ (commit_one-Keeps res) (λ _.
        Keeps-bind TableWithinLimit (commit_list uid node2launcher rest) _ (commit_list-Keeps rest)
          (λ _ s p. p))

  module _ (allotted : Allotted) where
    -- The resources of one requirement, and then something that changes nothing.
    answer-Keeps :
        {Next : Type 0} (i : ℕ) (f : List Resource → Statement (Dict Resource) Next)
        → ((l : List Resource) → Keeps TableWithinLimit (f l))
        → Keeps TableWithinLimit
            (lift (allotted_at allotted i) >>= λ l. commit_list uid node2launcher l >>= f)
    answer-Keeps i f kf = Keeps-lift TableWithinLimit (allotted_at allotted i) _ (λ l.
        Keeps-bind TableWithinLimit (commit_list uid node2launcher l) f (commit_list-Keeps l) kf)

    commit_span-Keeps :
        (is : List ℕ) → Keeps TableWithinLimit (commit_span uid node2launcher allotted is)
    unfolding commit_span
    commit_span-Keeps [] = λ s p. p
    commit_span-Keeps (i ∷ rest) = answer-Keeps i _ (λ _.
        Keeps-bind TableWithinLimit (commit_span uid node2launcher allotted rest) _
          (commit_span-Keeps rest) (λ _ s p. p))

    commit_request-Keeps :
        (r : Request) (place : Place)
        → Keeps TableWithinLimit (commit_request uid node2launcher allotted r place)
    unfolding commit_request
    commit_request-Keeps (one _) (at i) = answer-Keeps i _ (λ _ s p. p)
    commit_request-Keeps (several _) (at i) = answer-Keeps i _ (λ _ s p. p)
    commit_request-Keeps (whole n) (at i) =
        answer-Keeps i _ (λ new. Keeps-lift TableWithinLimit (add_resources _ new) _ (λ _ s p. p))
    commit_request-Keeps (aggregate _) (span is) =
        Keeps-bind TableWithinLimit (commit_span uid node2launcher allotted is) _
          (commit_span-Keeps is) (λ _ s p. p)
    commit_request-Keeps (one _) (span is) = λ s p. p
    commit_request-Keeps (several _) (span is) = λ s p. p
    commit_request-Keeps (whole _) (span is) = λ s p. p
    commit_request-Keeps (aggregate _) (at i) = λ s p. p

    commit-Keeps :
        (requests : List Request) (places : List Place)
        → Keeps TableWithinLimit (commit uid node2launcher allotted requests places)
    unfolding commit
    commit-Keeps [] places = λ s p. p
    commit-Keeps (r ∷ rest) [] = λ s p. p
    commit-Keeps (r ∷ rest) (place ∷ places) =
        Keeps-bind TableWithinLimit (commit_request uid node2launcher allotted r place) _
          (commit_request-Keeps r place)
          (λ _.
            Keeps-bind TableWithinLimit (commit uid node2launcher allotted rest places) _
              (commit-Keeps rest places) (λ _ s p. p))

abbrev pub IsSound : Metascheduler → Type 0
IsSound self = TableWithinLimit self.info_table

-- Whatever is requested, and whether the call returns or raises at any point, allocate leaves every
-- managed resource within its limit.
pub allocate-IsSound :
    (requested : List Request) (user : UserInfo) (include : List String)
    → Keeps IsSound (allocate requested user include)
unfolding allocate
allocate-IsSound requested user include self =
    Keeps-lift IsSound (decide_all self requested user include) _
      (λ decided.
        Keeps-bind IsSound (on_table (commit user.uid decided.2.0 decided.1 requested decided.0)) _
          (λ s. commit-Keeps user.uid decided.2.0 decided.1 requested decided.0 s.info_table)
          (λ _ s p. p))
      self

pub deallocate_allocation-IsSound : (i : ℕ) → Keeps IsSound (deallocate_allocation i)
unfolding deallocate_allocation
deallocate_allocation-IsSound i self =
    Keeps-lift IsSound (allocation_at self i) _
      (λ a. Keeps-lift IsSound (content_of a) _ (λ content.
        Keeps-bind IsSound (on_table (release_all content.1 content.0)) _
          (λ s. release_all-Keeps content.1 content.0 s.info_table) (λ _ s p. p)))
      self

-- A call of the metascheduler.
pub data Call : Type 0 where
  allocates : List Request → UserInfo → List String → Call
  deallocates : ℕ → Call

unfoldable pub run : List Call → Metascheduler → Metascheduler
run [] self = self
run (allocates requested user include ∷ rest) self =
    run rest (allocate requested user include self).1
run (deallocates i ∷ rest) self = run rest (deallocate_allocation i self).1

-- From a metascheduler whose resources are all within their limits, every history of allocations
-- and deallocations, those that raise included, leaves them so: no resource ever has two owners while
-- it is exclusive, nor more than its share limit while it is shared.
pub run-IsSound :
    (calls : List Call) (self : Metascheduler) → IsSound self → IsSound (run calls self)
unfolding run
run-IsSound [] self h = h
run-IsSound (allocates requested user include ∷ rest) self h =
    run-IsSound rest _ (allocate-IsSound requested user include self h)
run-IsSound (deallocates i ∷ rest) self h =
    run-IsSound rest _ (deallocate_allocation-IsSound i self h)
