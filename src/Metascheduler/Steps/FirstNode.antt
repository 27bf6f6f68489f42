-- ===== src/Metascheduler/Steps/FirstNode.antt =====
-- python/metascheduler.py, allocate, step 4: the search for a node that answers a list of requests.
use vizstack.Prelude.{
  ℕ, String, ◌≡◌, refl, ap, ◌⊎◌, inl, inr, Option, none, some, List, [], ◌∷◌, ◌++◌, map, All,
}
use vizstack.Errors.{Result, ok, and_then}
use vizstack.Resource.{Resource}
use vizstack.Metascheduler.Ordering.{Avail}
use vizstack.Metascheduler.Matching.{match_dof2, copy_with_this_node_name}
use vizstack.Metascheduler.Matching.Classify.{fixed_of, open_of}
use vizstack.Metascheduler.Matching.Grants.{Grants}
use vizstack.Metascheduler.Matching.Node.{
  NodeOutcome, all_granted, fixed_missing, open_missing, answered, match_dof2_lem,
}
use vizstack.Metascheduler.Steps.{Found, behind, try_dof3}

module _ (uid : ℕ) (reqs : List Resource) where
  -- The requests, asked of one node.
  abbrev pub asked : String → List Resource
  asked = copy_with_this_node_name reqs

  abbrev pub Refuses : Avail → Type 0
  Refuses (name, free) =
      (touched : List Resource) × (match_dof2 uid (asked name) free
        ≡ ok (record { outcome = none; requests = touched }))

  -- The first node that grants all requests, out of what is available on it.
  pub record TakesNode (avail : List Avail) (these : List (Option Resource)) (left : List Avail)
      : Type 0 where
    pub front : List Avail
    pub name : String
    pub free : List Resource
    pub remaining : List Resource
    pub back : List Avail
    pub split : avail ≡ front ++ (name, free) ∷ back
    pub passed_over : All Refuses front
    pub answers : List Resource
    pub spent : List Resource
    pub grants :
        Grants uid
          (fixed_of (asked name) ++ open_of (asked name))
          (fixed_of (asked name) ++ answers)
          free
          remaining
          spent
    pub placed : these ≡ map some (answered (asked name) answers)
    pub updated : left ≡ front ++ (name, remaining) ∷ back

  abbrev pub SearchOutcome : List Avail → Result Found → Type 0
  SearchOutcome avail r =
      ((these : List (Option Resource)) × (left : List Avail) × (r ≡ ok (some (these, left)))
        × TakesNode avail these left)
      ⊎ (r ≡ ok none) × All Refuses avail

  refused :
      (entry : Avail) (rest : List Avail) (r s : Result Found)
      → Refuses entry
      → r ≡ and_then s (λ found. ok (behind entry found))
      → SearchOutcome rest s
      → SearchOutcome (entry ∷ rest) r
  refused entry rest r s u e (inl (these, left, found, t)) = inl (
    these,
    entry ∷ left,
    rw (e, found) refl,
    record {
      front = entry ∷ t.front;
      name = t.name;
      free = t.free;
      remaining = t.remaining;
      back = t.back;
      split = ap (◌∷◌ entry) t.split;
      passed_over = (u, t.passed_over);
      answers = t.answers;
      spent = t.spent;
      grants = t.grants;
      placed = t.placed;
      updated = ap (◌∷◌ entry) t.updated;
    },
  )
  refused entry rest r s u e (inr (missing, none_fit)) = inr (rw (e, missing) refl, (u, none_fit))

  try_node :
      (name : String) (free : List Resource) (rest : List Avail)
      → NodeOutcome uid (asked name) free (match_dof2 uid (asked name) free)
      → SearchOutcome rest (try_dof3 uid reqs rest)
      → SearchOutcome ((name, free) ∷ rest) (try_dof3 uid reqs ((name, free) ∷ rest))
  unfolding try_dof3
  try_node name free rest (all_granted answers left spent e g) later = inl (
    map some (answered (asked name) answers),
    (name, left) ∷ rest,
    rw e refl,
    record {
      front = [];
      name = name;
      free = free;
      remaining = left;
      back = rest;
      split = refl;
      passed_over = tt;
      answers = answers;
      spent = spent;
      grants = g;
      placed = refl;
      updated = refl;
    },
  )
  try_node name free rest (fixed_missing e s) later =
      refused (name, free) rest _ _ (_, e) (rw e refl) later
  try_node name free rest (open_missing mid spent touched e g s) later =
      refused (name, free) rest _ _ (_, e) (rw e refl) later

  -- The search never raises: it takes the first node that grants all requests, out of what is
  -- available there, and changes no other node; or it finds none, and every node refuses.
  pub try_dof3_lem : (avail : List Avail) → SearchOutcome avail (try_dof3 uid reqs avail)
  unfolding try_dof3
  try_dof3_lem [] = inr (refl, tt)
  try_dof3_lem ((name, free) ∷ rest) =
      try_node name free rest (match_dof2_lem uid (asked name) free) (try_dof3_lem rest)
