-- ===== src/Metascheduler/Steps/Whole.antt =====
-- python/metascheduler.py, allocate, step 4: the search for a whole node.
use mathlib.Core.List.Permᴰ
use mathlib.Core.List.{Permᴰ}
use vizstack.Prelude.{
  String, Bool, true, false, ◌&&◌, ◌≡◌, refl, subst, ap, ◌⊎◌, ◌↔◌, inl, inr, Option, none, some,
  List, [], ◌∷◌, ◌++◌, map, All, Bool-cases, Option-cases, nat_beq_iff,
}
use vizstack.Prelude.Int.{ℤ, beq_ℤ, eq_of_parts}
use vizstack.Prelude.Dict.{Dict, lookup}
use vizstack.Errors.{Result, ok, and_then}
use vizstack.Resource.{Resource}
use vizstack.Resource.Search.{type_search_match}
use vizstack.Metascheduler.Base.{NodeRequest}
use vizstack.Metascheduler.Ordering.{Avail}
use vizstack.Metascheduler.Steps.{
  Found, behind, without_match, has_matches, total_weight, try_whole,
}

-- One resource after the other matches what is asked for.
abbrev pub AreMatches : List Resource → List Resource → Type 0
AreMatches [] [] = Unit
AreMatches (wanted ∷ more) (pick ∷ picks) =
    (type_search_match pick wanted ≡ true) × AreMatches more picks
AreMatches _ _ = ⊥

-- Different resources of the list match what is asked for.
abbrev pub HasMatches : List Resource → List Resource → Type 0
HasMatches wanted free =
    (picks : List Resource) × (others : List Resource) × Permᴰ free (picks ++ others)
    × AreMatches wanted picks

without_match_lem :
    (wanted : Resource) (l rest : List Resource)
    → without_match wanted l ≡ some rest
    → (pick : Resource) × (type_search_match pick wanted ≡ true) × Permᴰ l (pick ∷ rest)
unfolding without_match
without_match_lem wanted [] rest h = absurd cc
without_match_lem wanted (r ∷ l) rest h = elim (Bool-cases (type_search_match r wanted)) [
  | inl e ↦ let hit = (rw e at h) in let same : l ≡ rest = cc in (r, e, rw same (Permᴰ.refl _))
  | inr e ↦ elim (Option-cases (without_match wanted l)) [
    | inl none_left ↦ absurd (let bad = (rw (e, none_left) at h) in cc)
    | inr (left, found) ↦
        let (pick, fits, p) = without_match_lem wanted l left found in
        let hit = (rw (e, found) at h) in
        let same : rest ≡ r ∷ left = cc in
        (pick, fits, rw same (Permᴰ.trans (Permᴰ.cons refl p) (Permᴰ.swap refl refl)))
  ]
]

has_matches-HasMatches :
    (wanted free : List Resource) → has_matches wanted free ≡ true → HasMatches wanted free
unfolding has_matches
has_matches-HasMatches [] free h = ([], free, Permᴰ.refl _, tt)
has_matches-HasMatches (w ∷ more) free h = elim (Option-cases (without_match w free)) [
  | inl e ↦ absurd (let bad = (rw (e, has_matches) at h) in cc)
  | inr (rest, e) ↦
      let (pick, fits, p) = without_match_lem w free rest e in
      let (picks, others, q, ms) = has_matches-HasMatches more rest (rw (e, has_matches) at h) in
      (pick ∷ picks, others, Permᴰ.trans p (Permᴰ.cons refl q), (fits, ms))
]

beq_ℤ_iff : (a b : ℤ) → (beq_ℤ a b ≡ true) ↔ (a ≡ b)
beq_ℤ_iff a b = (λ h. eq_of_parts a b ((nat_beq_iff _ _).0 h), λ e. rw e ((nat_beq_iff _ _).1 refl))

module _ (weight_when_free : Dict ℤ) (n : NodeRequest) where
  -- All of the node is there, and it has what is asked for.
  abbrev pub IsSuitable : Avail → Bool → Type 0
  IsSuitable (name, free) b =
      (full : ℤ) × (lookup name weight_when_free ≡ some full)
      × (beq_ℤ full (total_weight free) && has_matches n.resources free ≡ b)

  -- The first node that is suitable, all of which is taken.
  pub record TakesWhole (avail : List Avail) (answers : List (Option Resource)) (left : List Avail)
      : Type 0 where
    pub front : List Avail
    pub name : String
    pub free : List Resource
    pub back : List Avail
    pub split : avail ≡ front ++ (name, free) ∷ back
    pub passed_over : All (λ entry. IsSuitable entry false) front
    pub is_whole : lookup name weight_when_free ≡ some (total_weight free)
    pub matched : HasMatches n.resources free
    pub answer : answers ≡ map some free
    pub remaining : left ≡ front ++ (name, []) ∷ back

  abbrev pub WholeOutcome : List Avail → Result Found → Type 0
  WholeOutcome avail r =
      ((answers : List (Option Resource)) × (left : List Avail) × (r ≡ ok (some (answers, left)))
        × TakesWhole avail answers left)
      ⊎ (r ≡ ok none) × All (λ entry. IsSuitable entry false) avail

  suitable_here :
      (name : String) (free : List Resource) (rest : List Avail) (full : ℤ)
      → lookup name weight_when_free ≡ some full
      → beq_ℤ full (total_weight free) ≡ true
      → has_matches n.resources free ≡ true
      → WholeOutcome ((name, free) ∷ rest) (try_whole weight_when_free n ((name, free) ∷ rest))
  unfolding try_whole
  suitable_here name free rest full e w m = inl (
    map some free,
    (name, []) ∷ rest,
    rw (e, w, m) refl,
    record {
      front = [];
      name = name;
      free = free;
      back = rest;
      split = refl;
      passed_over = tt;
      is_whole = subst (λ v. lookup name weight_when_free ≡ some v) ((beq_ℤ_iff _ _).0 w) e;
      matched = has_matches-HasMatches n.resources free m;
      answer = refl;
      remaining = refl;
    },
  )

  suitable_later :
      (entry : Avail) (rest : List Avail) (r s : Result Found)
      → IsSuitable entry false
      → r ≡ and_then s (λ found. ok (behind entry found))
      → WholeOutcome rest s
      → WholeOutcome (entry ∷ rest) r
  suitable_later entry rest r s u e (inl (answers, left, found, t)) = inl (
    answers,
    entry ∷ left,
    rw (e, found) refl,
    record {
      front = entry ∷ t.front;
      name = t.name;
      free = t.free;
      back = t.back;
      split = ap (◌∷◌ entry) t.split;
      passed_over = (u, t.passed_over);
      is_whole = t.is_whole;
      matched = t.matched;
      answer = t.answer;
      remaining = ap (◌∷◌ entry) t.remaining;
    },
  )
  suitable_later entry rest r s u e (inr (missing, none_fit)) =
      inr (rw (e, missing) refl, (u, none_fit))

  -- Where every node has a weight, the search never raises: it takes all resources of the first node
  -- whose available weight is its full weight and that passes the greedy match, and different
  -- resources of that node match what is asked for; or it finds none, and no node is suitable.
  pub try_whole_lem :
      (avail : List Avail)
      → All (λ entry. (full : ℤ) × (lookup entry.0 weight_when_free ≡ some full)) avail
      → WholeOutcome avail (try_whole weight_when_free n avail)
  unfolding try_whole
  try_whole_lem [] known = inr (refl, tt)
  try_whole_lem ((name, free) ∷ rest) ((full, e), known) =
      elim (Bool-cases (beq_ℤ full (total_weight free))) [
        | inl w ↦ elim (Bool-cases (has_matches n.resources free)) [
          | inl m ↦ suitable_here name free rest full e w m
          | inr m ↦
              suitable_later (name, free) rest _ _ (full, e, rw (w, m) refl) (rw (e, w, m) refl)
                (try_whole_lem rest known)
        ]
        | inr w ↦
            suitable_later (name, free) rest _ _ (full, e, rw w refl) (rw (e, w) refl)
              (try_whole_lem rest known)
      ]
