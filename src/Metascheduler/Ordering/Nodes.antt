-- ===== src/Metascheduler/Ordering/Nodes.antt =====
-- python/metascheduler.py: in what order __sortAvailResources leaves the nodes.
use mathlib.Core.List.Permᴰ
use mathlib.Core.List.{Permᴰ}
use vizstack.Prelude.{
  ◌+◌, ◌≤◌, ◌<◌, ◌⊎◌, ◌≡◌, refl, sym, ap, subst, ◌∙◌, true, false, Option, some, List, [], ◌∷◌, map,
  arith, All, All-mono,
}
use vizstack.Prelude.Int.{ℤ, pos, ◌+ℤ◌, pos_part, neg_part, -ℤ_parts, int_laws}
use vizstack.Prelude.Dict.{Dict, lookup, put}
use vizstack.Prelude.Sorting.{
  comes_before, sort_by, sort_by-Permᴰ, IsSortedBy, IsOrder, sort_by-IsSortedBy,
}
use vizstack.Errors.{ok, and_then-ok, key_of}
use vizstack.Resource.{Resource, hash_key}
use vizstack.Resource.Weight.{get_allocation_weight}
use vizstack.Metascheduler.Base.{ManagedNode}
use vizstack.Metascheduler.Ordering.{
  Avail, Ranked, weigh, decorate, rank, by_weight, compare_nodes, rank_all, sort_avail_resources,
}

-- The order of the nodes by weight, then by the weight of their resources, then by index.
order_asym :
    (x y : Ranked) → comes_before compare_nodes x y ≡ true → comes_before compare_nodes y x ≡ false
unfolding compare_nodes
order_asym x y h = ground (
  arith,
  h,
  -ℤ_parts x.bias y.bias,
  -ℤ_parts y.bias x.bias,
  -ℤ_parts x.total y.total,
  -ℤ_parts y.total x.total,
)

-- The integers compared, and the lexicographic order of the nodes.
abbrev pub IsBelow : ℤ → ℤ → Type 0
IsBelow a b = pos_part a + neg_part b < pos_part b + neg_part a

abbrev pub IsLevel : ℤ → ℤ → Type 0
IsLevel a b = pos_part a + neg_part b ≡ pos_part b + neg_part a

abbrev pub Precedes : Ranked → Ranked → Type 0
Precedes x y =
    IsBelow x.bias y.bias
    ⊎ IsLevel x.bias y.bias
      × (IsBelow x.total y.total ⊎ IsLevel x.total y.total × (x.index ≤ y.index))

not_before-Precedes : (x y : Ranked) → comes_before compare_nodes y x ≡ false → Precedes x y
unfolding compare_nodes
not_before-Precedes x y h = ground (arith, h, -ℤ_parts y.bias x.bias, -ℤ_parts y.total x.total)

Precedes-not_before : (x y : Ranked) → Precedes x y → comes_before compare_nodes y x ≡ false
unfolding compare_nodes
Precedes-not_before x y h = ground (arith, h, -ℤ_parts y.bias x.bias, -ℤ_parts y.total x.total)

Precedes-trans : (x y z : Ranked) → Precedes x y → Precedes y z → Precedes x z
Precedes-trans x y z h k = ground arith

order_trans :
    (x y z : Ranked)
    → comes_before compare_nodes y x ≡ false
    → comes_before compare_nodes z y ≡ false
    → comes_before compare_nodes z x ≡ false
order_trans x y z h k =
    Precedes-not_before x z
      (Precedes-trans x y z (not_before-Precedes x y h) (not_before-Precedes y z k))

node_order : IsOrder compare_nodes
node_order = record { asym = order_asym; trans = order_trans }

-- The weight of a list of resources.
abbrev pub total_weight : List Resource → ℤ
total_weight [] = pos 0
total_weight (r ∷ rs) = get_allocation_weight r +ℤ total_weight rs

-- What is known of a node: its weight and index, the weight of its resources, and the resources in
-- some order.
pub record Ranks (node_map : Dict ManagedNode) (entry : Avail) (r : Ranked) : Type 0 where
  pub managed : ManagedNode
  pub known : lookup entry.0 node_map ≡ some managed
  pub bias : r.bias ≡ managed.allocation_bias
  pub index : r.index ≡ managed.index
  pub total : r.total ≡ total_weight entry.1
  pub name : r.avail.0 ≡ entry.0
  pub resources : Permᴰ entry.1 r.avail.1

abbrev pub AreRanked : Dict ManagedNode → List Avail → List Ranked → Type 0
AreRanked node_map [] [] = Unit
AreRanked node_map (entry ∷ avail) (r ∷ ranked) =
    Ranks node_map entry r × AreRanked node_map avail ranked
AreRanked node_map _ _ = ⊥

-- No later node precedes an earlier one.
abbrev pub AreInOrder : List Ranked → Type 0
AreInOrder [] = Unit
AreInOrder (r ∷ rest) = All (Precedes r) rest × AreInOrder rest

sum_step : (a b c : ℤ) → a +ℤ b +ℤ c ≡ a +ℤ (b +ℤ c)
sum_step a b c = grind int_laws

zero_sum : (a : ℤ) → pos 0 +ℤ a ≡ a
zero_sum a = grind int_laws

found_key : {A : Type 0} (o : Option A) (a : A) → key_of o ≡ ok a → o ≡ some a
found_key o a h = ground arith

sum_zero : (a : ℤ) → a ≡ a +ℤ pos 0
sum_zero a = grind int_laws

weigh_lem :
    (weights final : Dict ℤ) (start total : ℤ) (rs : List Resource)
    → weigh weights start rs ≡ ok (final, total)
    → total ≡ start +ℤ total_weight rs
unfolding weigh
weigh_lem weights final start total [] h =
    let same : start ≡ total = cc in sym same ∙ sum_zero start
weigh_lem weights final start total (r ∷ rs) h =
    let (key, e, rest) = and_then-ok (hash_key r) _ (final, total) h in
    weigh_lem (put key (get_allocation_weight r) weights) final (start +ℤ get_allocation_weight r)
      total rs rest
    ∙ sum_step start (get_allocation_weight r) (total_weight rs)

map-decorate :
    (weights : Dict ℤ) (rs : List Resource) (l : List (ℤ × Resource))
    → decorate weights rs ≡ ok l
    → map (λ entry. entry.1) l ≡ rs
unfolding decorate
map-decorate weights [] l h = let same : [] ≡ l = cc in ap (map (λ entry. entry.1)) (sym same)
map-decorate weights (r ∷ rs) l h =
    let (key, e, found) = and_then-ok (hash_key r) _ l h in
    let (wt, f, more) = and_then-ok (key_of (lookup key weights)) _ l found in
    let (others, g, last) = and_then-ok (decorate weights rs) _ l more in
    let same : (wt, r) ∷ others ≡ l = cc in
    ap (map (λ entry. entry.1)) (sym same) ∙ ap (r ∷◌) (map-decorate weights rs others g)

rank-Ranks :
    (node_map : Dict ManagedNode) (entry : Avail) (r : Ranked)
    → rank node_map entry ≡ ok r
    → Ranks node_map entry r
unfolding rank
rank-Ranks node_map (name, rs) r h =
    let ((weights, total), e, rest) = and_then-ok (weigh [] (pos 0) rs) _ r h in
    let (decorated, f, more) = and_then-ok (decorate weights rs) _ r rest in
    let (managed, g, last) = and_then-ok (key_of (lookup name node_map)) _ r more in
    let ordered = map (λ entry. entry.1) (sort_by by_weight decorated) in
    let made : record {
      bias = managed.allocation_bias;
      total = total;
      index = managed.index;
      avail = (name, ordered);
    }
        ≡ r =
      cc in
    subst (Ranks node_map (name, rs)) made (record {
      managed = managed;
      known = found_key (lookup name node_map) managed g;
      bias = refl;
      index = refl;
      total = weigh_lem [] weights (pos 0) total rs e ∙ zero_sum (total_weight rs);
      name = refl;
      resources =
          rw (map-decorate weights rs decorated f) at
            (Permᴰ.map (λ entry. entry.1) (sort_by-Permᴰ by_weight decorated));
    })

rank_all-AreRanked :
    (node_map : Dict ManagedNode) (avail : List Avail) (ranked : List Ranked)
    → rank_all node_map avail ≡ ok ranked
    → AreRanked node_map avail ranked
unfolding rank_all
rank_all-AreRanked node_map [] ranked h =
    let same : [] ≡ ranked = cc in subst (AreRanked node_map []) same tt
rank_all-AreRanked node_map (entry ∷ rest) ranked h =
    let (r, e, more) = and_then-ok (rank node_map entry) _ ranked h in
    let (others, f, last) = and_then-ok (rank_all node_map rest) _ ranked more in
    let same : r ∷ others ≡ ranked = cc in
    subst (AreRanked node_map (entry ∷ rest)) same
      (rank-Ranks node_map entry r e, rank_all-AreRanked node_map rest others f)

sorted-AreInOrder : (l : List Ranked) → IsSortedBy compare_nodes l → AreInOrder l
sorted-AreInOrder [] s = tt
sorted-AreInOrder (r ∷ rest) s = (
  All-mono (λ x. comes_before compare_nodes x r ≡ false) _ (λ x h. not_before-Precedes r x h) rest
      s.0,
  sorted-AreInOrder rest s.1,
)

-- Where __sortAvailResources succeeds, it leaves the nodes in another order, each with its own
-- resources: a node with a lower weight stands before one with a higher weight; of two with the same
-- weight, the one whose resources weigh less stands first; and then the one with the lower index.
pub sort_avail_resources_lem :
    (node_map : Dict ManagedNode) (avail result : List Avail)
    → sort_avail_resources node_map avail ≡ ok result
    → (ranked : List Ranked) × (sorted : List Ranked) × AreRanked node_map avail ranked
      × Permᴰ ranked sorted
      × (result ≡ map (λ r. r.avail) sorted)
      × AreInOrder sorted
unfolding sort_avail_resources
sort_avail_resources_lem node_map avail result h =
    let (ranked, e, rest) = and_then-ok (rank_all node_map avail) _ result h in
    (
      ranked,
      sort_by compare_nodes ranked,
      rank_all-AreRanked node_map avail ranked e,
      sort_by-Permᴰ compare_nodes ranked,
      cc,
      sorted-AreInOrder _ (sort_by-IsSortedBy compare_nodes node_order ranked),
    )
