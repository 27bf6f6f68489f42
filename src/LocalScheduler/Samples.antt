-- ===== src/LocalScheduler/Samples.antt =====
-- Runs of a local scheduler on two nodes.
use vizstack.Prelude.{◌≡◌, refl, List, [], ◌∷◌}
use vizstack.LocalScheduler.{
  LocalScheduler, new_scheduler, allocate_nodes, release, pop_first, clear_sched,
}
use vizstack.LocalScheduler.Live.{Call, Tracks, call_all, call_all-Tracks}

abbrev two : LocalScheduler
two = record { node_list = "a" ∷ "b" ∷ []; allocations = []; reservations = [] }

-- The second request asks for a node that is not managed.
abbrev history : List Call
history =
    Call.allocation 0 0 ("a" ∷ [])
    ∷ Call.allocation 0 0 ("c" ∷ [])
    ∷ Call.allocation 0 0 ("b" ∷ "a" ∷ [])
    ∷ Call.deep_copy 0
    ∷ Call.deallocation 2
    ∷ Call.deallocation 0
    ∷ Call.deallocation 0
    ∷ []

call_all_test : (call_all history two).allocations ≡ 1 ∷ []
unfolding allocate_nodes release pop_first clear_sched
call_all_test = refl

call_all-Tracks_example : Tracks (call_all history two)
unfolding new_scheduler
call_all-Tracks_example = call_all-Tracks ("a" ∷ "b" ∷ []) "" two refl history
