-- ===== src/LocalScheduler.antt =====
-- python/localscheduler.py: LocalScheduler and the LocalReservation objects that it gives out. The
-- objects are numbered in the order in which they are made; `is` compares these numbers.
mod Live
mod Samples
use vizstack.Prelude.{
  ℕ, zero, suc, String, Bool, true, false, not, ◌&&◌, Option, none, some, List, [], ◌∷◌, ◌++◌,
  length, get_elem?, contains, nat_beq, ◌==◌, string_eq, if◌then◌else◌,
}
use vizstack.Errors.{Result, ok, raise, value_error, Statement, pure, throw, ◌>>=◌, ◌>>◌, modify}

-- sched is not None, and __isCopy
pub record LocalReservation : Type 0 where
  pub sched : Bool
  pub is_copy : Bool

pub record LocalScheduler : Type 0 where
  pub node_list : List String
  pub allocations : List ℕ
  pub reservations : List LocalReservation

unfoldable pub new_scheduler : List String → String → Result LocalScheduler
new_scheduler node_list params =
    if nat_beq (length node_list) 0
    then raise value_error
    else if not (params == "")
    then raise value_error
    else ok (record { node_list = node_list; allocations = []; reservations = [] })

-- for nodeName in nodeList: if nodeName not in self.nodeList: raise
abbrev pub are_managed : List String → List String → Bool
are_managed node_list [] = true
are_managed node_list (name ∷ rest) =
    if contains node_list name then are_managed node_list rest else false

abbrev pub add_reservation : LocalReservation → LocalScheduler → LocalScheduler
add_reservation r s = record s { reservations = s.reservations ++ r ∷ [] }

abbrev pub track : ℕ → LocalScheduler → LocalScheduler
track i s = record s { allocations = s.allocations ++ i ∷ [] }

-- LocalScheduler.allocate
unfoldable pub allocate_nodes : ℕ → ℕ → List String → Statement LocalScheduler ℕ
allocate_nodes uid gid nodes s =
    if are_managed s.node_list nodes
    then (
      ok (length s.reservations),
      track (length s.reservations) (add_reservation (record { sched = true; is_copy = false }) s),
    )
    else (raise value_error, s)

-- self.allocations.pop(idx), at the first index of the object; a message is printed if there is none
unfoldable pub pop_first : ℕ → List ℕ → List ℕ
pop_first i [] = []
pop_first i (j ∷ rest) = let others = pop_first i rest in if nat_beq i j then rest else j ∷ others

-- LocalScheduler.deallocate
abbrev pub untrack : ℕ → LocalScheduler → LocalScheduler
untrack i s = record s { allocations = pop_first i s.allocations }

-- self.sched = None
unfoldable pub clear_sched : List LocalReservation → ℕ → List LocalReservation
clear_sched [] i = []
clear_sched (r ∷ rs) zero = record r { sched = false } ∷ rs
clear_sched (r ∷ rs) (suc i) = r ∷ clear_sched rs i

abbrev pub unset_sched : ℕ → LocalScheduler → LocalScheduler
unset_sched i s = record s { reservations = clear_sched s.reservations i }

unfoldable pub release : ℕ → LocalReservation → LocalScheduler → LocalScheduler
unfolding clear_sched pop_first
release i r s = unset_sched i (if not r.is_copy && r.sched then untrack i s else s)

-- LocalReservation.deallocate, which __del__ calls as well
abbrev pub deallocate_reservation : ℕ → LocalScheduler → LocalScheduler
deallocate_reservation i s = elim (get_elem? s.reservations i) [ none ↦ s | some r ↦ release i r s ]

-- copy.deepcopy, by __getstate__ and __setstate__
abbrev pub copy_reservation : ℕ → LocalScheduler → LocalScheduler
copy_reservation i s = elim (get_elem? s.reservations i) [
  | none ↦ s
  | some r ↦ add_reservation (record { sched = false; is_copy = true }) s
]
