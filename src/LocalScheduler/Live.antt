-- ===== src/LocalScheduler/Live.antt =====
-- Which reservations the scheduler keeps.
use mathlib.Core.List.{append-nil}
use vizstack.Prelude.{
  ℕ, zero, suc, ◌+◌, ◌≡◌, refl, ap, sym, subst, ◌∙◌, ◌<◌, Bool, true, false, not, ◌&&◌, Bool-cases,
  inl, inr, Option, none, some, List, [], ◌∷◌, ◌++◌, String, length, get_elem?, All, All-append,
  nat_beq, ◌==◌, string_eq, if◌then◌else◌, arith,
}
use vizstack.Errors.{ok, value_error, guard-ok}
use vizstack.LocalScheduler.{
  LocalReservation, LocalScheduler, new_scheduler, are_managed, add_reservation, allocate_nodes,
  pop_first, clear_sched, release, deallocate_reservation, copy_reservation,
}

-- The numbers, from k on, of the reservations that were not released.
abbrev pub live : ℕ → List LocalReservation → List ℕ
live k [] = []
live k (r ∷ rs) = if r.sched then k ∷ live (suc k) rs else live (suc k) rs

abbrev pub IsOriginal : LocalReservation → Type 0
IsOriginal r = not (r.is_copy && r.sched) ≡ true

abbrev pub Tracks : LocalScheduler → Type 0
Tracks s = (s.allocations ≡ live 0 s.reservations) × All IsOriginal s.reservations

live-append :
    (k : ℕ) (rs : List LocalReservation) (r : LocalReservation)
    → live k (rs ++ r ∷ []) ≡ live k rs ++ (if r.sched then (k + length rs) ∷ [] else [])
live-append k [] r =
    let same : k ≡ k + 0 = omega arith in ap (λ n. if r.sched then n ∷ [] else []) same
live-append k (q ∷ rs) r =
    let same : suc k + length rs ≡ k + suc (length rs) = omega arith in
    let tail : live (suc k) (rs ++ r ∷ [])
        ≡ live (suc k) rs ++ (if r.sched then (k + suc (length rs)) ∷ [] else []) =
      live-append (suc k) rs r
      ∙ ap (λ n. live (suc k) rs ++ (if r.sched then n ∷ [] else [])) same in
    elim (Bool-cases q.sched) [
      | inl held ↦ rw (held, tail) refl
      | inr released ↦ rw (released, tail) refl
    ]

pop_present : (k : ℕ) (l : List ℕ) → pop_first k (k ∷ l) ≡ l
unfolding pop_first
pop_present k l = ground arith

pop_absent : (k j : ℕ) (l : List ℕ) → k < j → pop_first j (k ∷ l) ≡ k ∷ pop_first j l
unfolding pop_first
pop_absent k j l h = ground arith

-- Releasing a reservation takes its number out.
live-held :
    (k : ℕ) (rs : List LocalReservation) (i : ℕ) (r : LocalReservation)
    → get_elem? rs i ≡ some r
    → r.sched ≡ true
    → live k (clear_sched rs i) ≡ pop_first (k + i) (live k rs)
unfolding clear_sched
live-held k [] i r h held = absurd cc
live-held k (q ∷ rs) zero r h held =
    let first : q ≡ r = cc in
    let now : q.sched ≡ true = ap (λ (x : LocalReservation). x.sched) first ∙ held in
    let same : k + 0 ≡ k = omega arith in rw (now, same, pop_present k (live (suc k) rs)) refl
live-held k (q ∷ rs) (suc i) r h held =
    let same : suc k + i ≡ k + suc i = omega arith in
    let tail : live (suc k) (clear_sched rs i) ≡ pop_first (k + suc i) (live (suc k) rs) =
      live-held (suc k) rs i r h held ∙ ap (λ n. pop_first n (live (suc k) rs)) same in
    elim (Bool-cases q.sched) [
      | inl now ↦ rw (now, tail, pop_absent k (k + suc i) (live (suc k) rs) (omega arith)) refl
      | inr now ↦ rw (now, tail) refl
    ]

-- Releasing it again does nothing.
live-released :
    (k : ℕ) (rs : List LocalReservation) (i : ℕ) (r : LocalReservation)
    → get_elem? rs i ≡ some r
    → r.sched ≡ false
    → live k (clear_sched rs i) ≡ live k rs
unfolding clear_sched
live-released k [] i r h released = absurd cc
live-released k (q ∷ rs) zero r h released =
    let first : q ≡ r = cc in
    let now : q.sched ≡ false = ap (λ (x : LocalReservation). x.sched) first ∙ released in
    rw now refl
live-released k (q ∷ rs) (suc i) r h released = rw (live-released (suc k) rs i r h released) refl

clear_sched-IsOriginal :
    (rs : List LocalReservation) (i : ℕ) → All IsOriginal rs → All IsOriginal (clear_sched rs i)
unfolding clear_sched
clear_sched-IsOriginal [] i h = tt
clear_sched-IsOriginal (r ∷ rs) zero h =
    (elim (Bool-cases r.is_copy) [ inl c ↦ rw c refl | inr c ↦ rw c refl ], h.1)
clear_sched-IsOriginal (r ∷ rs) (suc i) h = (h.0, clear_sched-IsOriginal rs i h.1)

sole : (r : LocalReservation) → IsOriginal r → r.sched ≡ true → r.is_copy ≡ false
sole r h held = elim (Bool-cases r.is_copy) [ inr single ↦ single | inl copied ↦ absurd cc ]

and-false : (b : Bool) → (b && false) ≡ false
and-false true = refl
and-false false = refl

get_elem?-IsOriginal :
    (rs : List LocalReservation) (i : ℕ) (r : LocalReservation)
    → All IsOriginal rs
    → get_elem? rs i ≡ some r
    → IsOriginal r
get_elem?-IsOriginal [] i r all h = absurd cc
get_elem?-IsOriginal (q ∷ rs) zero r all h = let first : q ≡ r = cc in subst IsOriginal first all.0
get_elem?-IsOriginal (q ∷ rs) (suc i) r all h = get_elem?-IsOriginal rs i r all.1 h

add_reservation-Tracks :
    (r : LocalReservation) (s : LocalScheduler)
    → r.sched ≡ false
    → Tracks s
    → Tracks (add_reservation r s)
add_reservation-Tracks r s released (listed, originals) = (
  listed ∙ sym (live-append 0 s.reservations r ∙ rw released (append-nil (live 0 s.reservations))),
  All-append IsOriginal s.reservations (r ∷ []) originals
      (elim (Bool-cases r.is_copy) [ inl c ↦ rw (c, released) refl | inr c ↦ rw c refl ], tt),
)

allocate_nodes-Tracks :
    (uid gid : ℕ) (nodes : List String) (s : LocalScheduler)
    → Tracks s
    → Tracks (allocate_nodes uid gid nodes s).1
unfolding allocate_nodes
allocate_nodes-Tracks uid gid nodes s (listed, originals) =
    elim (Bool-cases (are_managed s.node_list nodes)) [
      | inl managed ↦ rw managed (
        ap (λ l. l ++ length s.reservations ∷ []) listed
            ∙ sym (
                live-append 0 s.reservations (record { sched = true; is_copy = false })
                ∙ (let same : 0 + length s.reservations ≡ length s.reservations = omega arith in
                    ap (λ n. live 0 s.reservations ++ n ∷ []) same)),
        All-append IsOriginal s.reservations (record { sched = true; is_copy = false } ∷ [])
            originals (refl, tt),
      )
      | inr refused ↦ rw refused (listed, originals)
    ]

release-Tracks :
    (i : ℕ) (r : LocalReservation) (s : LocalScheduler)
    → get_elem? s.reservations i ≡ some r
    → Tracks s
    → Tracks (release i r s)
unfolding release
release-Tracks i r s there (listed, originals) =
    let kept = clear_sched-IsOriginal s.reservations i originals in
    elim (Bool-cases r.sched) [
      | inl held ↦
          let single : r.is_copy ≡ false =
            sole r (get_elem?-IsOriginal s.reservations i r originals there) held in
          let same : 0 + i ≡ i = omega arith in
          rw (single, held)
            (
              ap (pop_first i) listed
                  ∙ sym (
                      live-held 0 s.reservations i r there held
                      ∙ ap (λ n. pop_first n (live 0 s.reservations)) same),
              kept,
            )
      | inr released ↦
          rw (released, and-false (not r.is_copy))
            (listed ∙ sym (live-released 0 s.reservations i r there released), kept)
    ]

-- A step at the object with a number keeps the invariant, if it does so where the object is there.
at_object :
    (i : ℕ) (s : LocalScheduler) (f : LocalReservation → LocalScheduler)
    → Tracks s
    → ((r : LocalReservation) → get_elem? s.reservations i ≡ some r → Tracks (f r))
    → Tracks (elim (get_elem? s.reservations i) [ none ↦ s | some r ↦ f r ])
at_object i s f h step = go (get_elem? s.reservations i) refl
  where
    go :
        (o : Option LocalReservation)
        → get_elem? s.reservations i ≡ o
        → Tracks (elim o [ none ↦ s | some r ↦ f r ])
    go none e = h
    go (some r) e = step r e

pub data Call : Type 0 where
  allocation : (uid gid : ℕ) → List String → Call
  deallocation : ℕ → Call
  deep_copy : ℕ → Call

abbrev pub call : Call → LocalScheduler → LocalScheduler
call (Call.allocation uid gid nodes) s = (allocate_nodes uid gid nodes s).1
call (Call.deallocation i) s = deallocate_reservation i s
call (Call.deep_copy i) s = copy_reservation i s

abbrev pub call_all : List Call → LocalScheduler → LocalScheduler
call_all [] s = s
call_all (c ∷ cs) s = call_all cs (call c s)

call-Tracks : (c : Call) (s : LocalScheduler) → Tracks s → Tracks (call c s)
call-Tracks (Call.allocation uid gid nodes) s h = allocate_nodes-Tracks uid gid nodes s h
call-Tracks (Call.deallocation i) s h =
    at_object i s (λ r. release i r s) h (λ r there. release-Tracks i r s there h)
call-Tracks (Call.deep_copy i) s h =
    at_object i s (λ r. add_reservation (record { sched = false; is_copy = true }) s) h
      (λ r there. add_reservation-Tracks (record { sched = false; is_copy = true }) s refl h)

call_all-keeps : (cs : List Call) (s : LocalScheduler) → Tracks s → Tracks (call_all cs s)
call_all-keeps [] s h = h
call_all-keeps (c ∷ cs) s h = call_all-keeps cs (call c s) (call-Tracks c s h)

-- After every history of allocations, deallocations and deep copies, those that are refused or
-- repeated included, a new scheduler keeps exactly the reservations that it gave out and that were
-- not released, in the order in which they were given out; no copy holds a scheduler.
pub call_all-Tracks :
    (node_list : List String) (params : String) (s : LocalScheduler)
    → new_scheduler node_list params ≡ ok s
    → (cs : List Call) → Tracks (call_all cs s)
unfolding new_scheduler
call_all-Tracks node_list params s h cs = call_all-keeps cs s (
    let (some_nodes, rest) = guard-ok (nat_beq (length node_list) 0) value_error _ s h in
    let (no_params, last) = guard-ok (not (params == "")) value_error _ s rest in
    let same : record { node_list = node_list; allocations = []; reservations = [] } ≡ s = cc in
    subst Tracks same (refl, tt))
