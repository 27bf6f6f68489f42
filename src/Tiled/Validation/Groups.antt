-- ===== src/Tiled/Validation/Groups.antt =====
-- python/vsapi.py: how many GPUs a configuration has that TiledDisplay.doValidate accepts.
use vizstack.Prelude.{
  ℕ, zero, suc, ◌*◌, ◌%◌, ◌<◌, ◌≡◌, ◌≢◌, refl, sym, ap, subst, ◌∙◌, String, Bool, true, false,
  Option, none, some, List, [], ◌∷◌, All, All-mono, map, any, length, ◌==◌, ◌!=◌, nat_eq,
  nat_beq_iff, string_eq, if◌then◌else◌, arith, inl, inr,
}
use text.Mathlib.TextEquality.{eq_iff}
use vizstack.Prelude.Int.{ℤ}
use vizstack.Errors.{Result, ok, and_then, and_then-ok, guard-ok, value_error}
use native.Mathlib.Nat.{mod-eq_of_lt}
use vizstack.Resource.{Resource}
use vizstack.Display.{DisplayDevice}
use vizstack.Tiled.{TiledDisplay}
use vizstack.Tiled.Validation.{
  Wall, check_params, check_pair, extract_objects, is_gpu, is_server, check_with, check_reslist,
  check_reslists, check_groups, check_resources, sum, check_display, Validated, do_validate,
}
use vizstack.Tiled.Validation.Checks.{IsPair, check_pair-IsPair, IsGrouping}
use vizstack.Tiled.Validation.Sound.{IsWall, check_params-IsWall}

abbrev pub gpu_count : List Resource → ℕ
gpu_count inner = length (extract_objects is_gpu inner)

check_with_lem :
    (servers : List Resource) (kind : String) (inner : List Resource) (gpus : ℕ)
    → check_with servers kind inner ≡ ok gpus
    → (gpus ≡ gpu_count inner) × (0 < gpus) × (kind ≡ "quadroplex" → gpus ≡ 2)
unfolding check_with
check_with_lem [] kind inner gpus h = absurd cc
check_with_lem (s ∷ rest) kind inner gpus h = ground (
  arith,
  eq_iff kind "quadroplex",
  nat_beq_iff (gpu_count inner) 0,
  nat_beq_iff (gpu_count inner) 2,
)

check_reslist_lem :
    (kind : String) (inner : List Resource) (gpus : ℕ)
    → check_reslist kind inner ≡ ok gpus
    → (gpus ≡ gpu_count inner) × (0 < gpus) × (kind ≡ "quadroplex" → gpus ≡ 2)
unfolding check_reslist
check_reslist_lem kind inner gpus h =
    check_with_lem (extract_objects is_server inner) kind inner gpus h

check_reslists_lem :
    (kind : String) (resources : List (List Resource)) (gpus : List ℕ)
    → check_reslists kind resources ≡ ok gpus
    → (gpus ≡ map gpu_count resources) × All (λ n. (0 < n) × (kind ≡ "quadroplex" → n ≡ 2)) gpus
unfolding check_reslists
check_reslists_lem kind [] gpus h = let same : [] ≡ gpus = cc in rw (← same) (refl, tt)
check_reslists_lem kind (inner ∷ rest) gpus h =
    let (n, one, h1) = and_then-ok (check_reslist kind inner) _ gpus h in
    let (others, all, h2) = and_then-ok (check_reslists kind rest) _ gpus h1 in
    let (count, some_gpus, two) = check_reslist_lem kind inner n one in
    let (counts, good) = check_reslists_lem kind rest others all in
    let same : n ∷ others ≡ gpus = cc in rw (← same) (cc, ((some_gpus, two), good))

sum_same :
    (n : ℕ) (rest : List ℕ) → any (λ other. other != n) rest ≡ false → sum rest ≡ length rest * n
sum_same n [] h = omega arith
sum_same n (m ∷ rest) h = ground (arith, nat_beq_iff m n, sum_same n rest)

sizes_of_even :
    (n size : ℕ)
    → n ≡ size
    → (rest : List ℕ) → any (λ other. other != n) rest ≡ false
    → All (λ m. m ≡ size) rest
sizes_of_even n size e [] h = tt
sizes_of_even n size e (m ∷ rest) h =
    (ground (arith, nat_beq_iff m n), sizes_of_even n size e rest (ground (arith, nat_beq_iff m n)))

-- All lists of the same size, that of a group.
check_groups_lem :
    (group : Option (List ℤ)) (gpus : List ℕ)
    → check_groups group gpus ≡ ok tt
    → (g : ℕ × ℕ) × IsPair group g
      × (sum gpus ≡ length gpus * (g.0 * g.1))
      × All (λ n. n ≡ g.0 * g.1) gpus
      × (0 < length gpus)
unfolding check_groups
check_groups_lem group [] h = absurd cc
check_groups_lem none (n ∷ rest) h =
    let (_, given) = guard-ok (any (λ other. other != n) rest) value_error _ tt h in absurd cc
check_groups_lem (some l) (n ∷ rest) h =
    let (even, given) = guard-ok (any (λ other. other != n) rest) value_error _ tt h in
    let (g, pair, fits) = and_then-ok (check_pair (some l)) _ tt given in
    let (differs, _) = guard-ok (n != g.0 * g.1) value_error (ok tt) tt fits in
    let size : n ≡ g.0 * g.1 = ground (arith, nat_beq_iff n (g.0 * g.1)) in
    let whole : sum (n ∷ rest) ≡ suc (length rest) * n = omega (arith, sum_same n rest even) in
    (
      g,
      check_pair-IsPair (some l) g pair,
      whole ∙ ap (λ m. suc (length rest) * m) size,
      (size, sizes_of_even n (g.0 * g.1) size rest even),
      omega arith,
    )

length-map :
    (resources : List (List Resource)) → length (map gpu_count resources) ≡ length resources
length-map [] = refl
length-map (inner ∷ rest) = ap suc (length-map rest)

-- How the GPUs of the lists make up the blocks of the wall.
pub record Supplies (self : TiledDisplay) (wall : Wall) (resources : List (List Resource))
    : Type 0 where
  pub some_gpus : All (λ inner. 0 < gpu_count inner) resources
  pub one_each :
      wall.kind ≢ "quadroplex" → sum (map gpu_count resources) ≡ wall.blocks.0 * wall.blocks.1
  pub two_each :
      wall.kind ≡ "quadroplex"
      → (length resources ≡ wall.blocks.0 * wall.blocks.1)
        × All (λ inner. gpu_count inner ≡ 2) resources
  pub grouped :
      self.combine_displays ≡ true
      → (wall.kind ≢ "quadroplex")
        × ((g : ℕ × ℕ) × IsPair self.group_blocks g
            × (wall.blocks.0 % g.0 ≡ 0)
            × (wall.blocks.1 % g.1 ≡ 0)
            × All (λ inner. gpu_count inner ≡ g.0 * g.1) resources
            × (length resources * (g.0 * g.1) ≡ wall.blocks.0 * wall.blocks.1))

expected_lem :
    (kind : String) (n blocks : ℕ)
    → (n != (if kind == "quadroplex" then blocks * 2 else blocks)) ≡ false
    → (kind ≢ "quadroplex" → n ≡ blocks) × (kind ≡ "quadroplex" → n ≡ blocks * 2)
expected_lem kind n blocks h =
    ground (arith, eq_iff kind "quadroplex", nat_beq_iff n blocks, nat_beq_iff n (blocks * 2))

one_of_product : (a b : ℕ) → a * b ≡ 1 → (a ≡ 1) × (b ≡ 1)
one_of_product zero b h = absurd (omega arith)
one_of_product (suc zero) b h = (refl, omega arith)
one_of_product (suc (suc a)) zero h = absurd (omega arith)
one_of_product (suc (suc a)) (suc b) h = absurd (omega arith)

-- One block is grouped by itself only.
divides_one : (b g : ℕ) → b ≡ 1 → b % g ≡ 0 → 0 < g → g ≡ 1
divides_one b zero e h k = absurd (omega arith)
divides_one b (suc zero) e h k = refl
divides_one b (suc (suc g)) e h k =
    let small : 1 % suc (suc g) ≡ 1 = mod-eq_of_lt (omega arith) in
    absurd (omega (arith, sym small ∙ ap (λ z. z % suc (suc g)) (sym e) ∙ h))

-- A QuadroPlex list has two GPUs, its only group one.
no_quadroplex :
    (kind : String) (blocks g : ℕ × ℕ) (counts : List ℕ)
    → (kind ≡ "quadroplex" → blocks.0 * blocks.1 ≡ 1)
    → (blocks.0 % g.0 ≡ 0) × (blocks.1 % g.1 ≡ 0)
    → (0 < g.0) × (0 < g.1)
    → 0 < length counts
    → All (λ n. n ≡ g.0 * g.1) counts
    → All (λ n. (0 < n) × (kind ≡ "quadroplex" → n ≡ 2)) counts
    → kind ≢ "quadroplex"
no_quadroplex kind blocks g [] single even pos_g some_lists size two e = absurd (omega arith)
no_quadroplex kind blocks g (n ∷ rest) single even pos_g some_lists size two e =
    let (one, also) = one_of_product blocks.0 blocks.1 (single e) in
    let g0 : g.0 ≡ 1 = divides_one blocks.0 g.0 one even.0 pos_g.0 in
    let g1 : g.1 ≡ 1 = divides_one blocks.1 g.1 also even.1 pos_g.1 in
    let two_here : n ≡ 2 = two.0.1 e in
    let one_here : n ≡ g.0 * g.1 = size.0 in
    let product : g.0 * g.1 ≡ 1 = rw (g0, g1) refl in absurd (omega arith)

abbrev Grouped : String → ℕ × ℕ → Option (List ℤ) → List ℕ → Type 0
Grouped kind blocks group counts =
    (kind ≢ "quadroplex")
    × ((g : ℕ × ℕ) × IsPair group g
        × (blocks.0 % g.0 ≡ 0)
        × (blocks.1 % g.1 ≡ 0)
        × All (λ n. n ≡ g.0 * g.1) counts
        × (length counts * (g.0 * g.1) ≡ blocks.0 * blocks.1))

groups_divide :
    (kind : String) (blocks : ℕ × ℕ) (group : Option (List ℤ)) (counts : List ℕ) (g g' : ℕ × ℕ)
    → IsPair group g
    → IsPair group g'
    → (blocks.0 % g'.0 ≡ 0) × (blocks.1 % g'.1 ≡ 0)
    → (kind ≡ "quadroplex" → blocks.0 * blocks.1 ≡ 1)
    → All (λ n. (0 < n) × (kind ≡ "quadroplex" → n ≡ 2)) counts
    → 0 < length counts
    → All (λ n. n ≡ g.0 * g.1) counts
    → sum counts ≡ length counts * (g.0 * g.1)
    → (kind ≢ "quadroplex" → sum counts ≡ blocks.0 * blocks.1)
    → Grouped kind blocks group counts
groups_divide kind blocks group counts g g' pair pair' even one good some_lists sizes total single =
    let s0 : g'.0 ≡ g.0 = cc in
    let s1 : g'.1 ≡ g.1 = cc in
    let divides : (blocks.0 % g.0 ≡ 0) × (blocks.1 % g.1 ≡ 0) = rw (s0, s1) at even in
    let discrete : kind ≢ "quadroplex" =
      no_quadroplex kind blocks g counts one divides (pair.1, pair.2) some_lists sizes good in
    (discrete, (g, pair, divides.0, divides.1, sizes, sym total ∙ single discrete))

groups_fit :
    (kind : String) (blocks : ℕ × ℕ) (group : Option (List ℤ)) (counts : List ℕ)
    → IsGrouping group blocks kind
    → check_groups group counts ≡ ok tt
    → All (λ n. (0 < n) × (kind ≡ "quadroplex" → n ≡ 2)) counts
    → (kind ≢ "quadroplex" → sum counts ≡ blocks.0 * blocks.1)
    → Grouped kind blocks group counts
groups_fit kind blocks group counts (inl none_given) h good single =
    let (g, pair, total, sizes, _) = check_groups_lem group counts h in absurd cc
groups_fit kind blocks group counts (inr (g', pair', m0, m1, one)) h good single =
    let (g, pair, total, sizes, some_lists) = check_groups_lem group counts h in
    groups_divide kind blocks group counts g g' pair pair' (m0, m1) one good some_lists sizes total
      single

All-map {κ} :
    (P : ℕ → Type κ) (resources : List (List Resource))
    → All P (map gpu_count resources)
    → All (λ inner. P (gpu_count inner)) resources
All-map P [] h = tt
All-map P (inner ∷ rest) h = (h.0, All-map P rest h.1)

two_sum : (gpus : List ℕ) → All (λ n. n ≡ 2) gpus → sum gpus ≡ length gpus * 2
two_sum [] h = refl
two_sum (n ∷ gpus) h = omega (arith, h.0, two_sum gpus h.1)

supplied :
    (self : TiledDisplay) (wall : Wall) (resources : List (List Resource)) (gpus : List ℕ)
    → IsWall self wall
    → All (λ n. (0 < n) × (wall.kind ≡ "quadroplex" → n ≡ 2)) (map gpu_count resources)
    → (wall.kind ≢ "quadroplex" → sum (map gpu_count resources) ≡ wall.blocks.0 * wall.blocks.1)
    → (wall.kind ≡ "quadroplex" → sum (map gpu_count resources) ≡ wall.blocks.0 * wall.blocks.1 * 2)
    → (self.combine_displays ≡ true
        → check_groups self.group_blocks (map gpu_count resources) ≡ ok tt)
    → Supplies self wall resources
supplied self wall resources gpus w good single double combined = record {
  some_gpus = All-map (λ n. 0 < n) resources (All-mono _ _ (λ n k. k.0) _ good);
  one_each = single;
  two_each = λ e.
      let two : All (λ n. n ≡ 2) (map gpu_count resources) = All-mono _ _ (λ n k. k.1 e) _ good in
      (
        omega (arith, two_sum (map gpu_count resources) two, double e, length-map resources),
        All-map (λ n. n ≡ 2) resources two,
      );
  grouped = λ on.
      let (discrete, grouping) =
        groups_fit wall.kind wall.blocks self.group_blocks (map gpu_count resources) w.grouping
          (combined on) good single in
      let (g, pair, m0, m1, sizes, total) = grouping in
      (
        discrete,
        (
          g,
          pair,
          m0,
          m1,
          All-map (λ n. n ≡ g.0 * g.1) resources sizes,
          ap (λ k. k * (g.0 * g.1)) (sym (length-map resources)) ∙ total,
        ),
      );
}

combined_ok :
    (on : Bool) (group : Option (List ℤ)) (counts gpus : List ℕ)
    → (if on then and_then (check_groups group counts) (λ _. ok counts) else ok counts) ≡ ok gpus
    → (on ≡ true → check_groups group counts ≡ ok tt)
combined_ok true group counts gpus h on =
    let (_, fits, _) = and_then-ok (check_groups group counts) (λ _. ok counts) gpus h in fits
combined_ok false group counts gpus h on = absurd cc

check_resources_lem :
    (self : TiledDisplay) (wall : Wall) (resources : List (List Resource)) (gpus : List ℕ)
    → IsWall self wall
    → check_resources self wall resources ≡ ok gpus
    → Supplies self wall resources
unfolding check_resources
check_resources_lem self wall resources gpus w h =
    let (counts, counted, h1) = and_then-ok (check_reslists wall.kind resources) _ gpus h in
    let (all, good) = check_reslists_lem wall.kind resources counts counted in
    let (fits, h2) = guard-ok (sum counts != _) value_error _ gpus h1 in
    let (single, double) =
      expected_lem wall.kind (sum counts) (wall.blocks.0 * wall.blocks.1) fits in
    let combined : self.combine_displays ≡ true → check_groups self.group_blocks counts ≡ ok tt =
      combined_ok self.combine_displays self.group_blocks counts gpus h2 in
    supplied self wall resources gpus w (subst (All _) all good) (λ e. ap sum (sym all) ∙ single e)
      (λ e. ap sum (sym all) ∙ double e)
      (λ on. ap (check_groups self.group_blocks) (sym all) ∙ combined on)

-- x
pub do_validate_lem :
    (candidates : Option (Result (List DisplayDevice))) (resources : List (List Resource))
    (self : TiledDisplay) (found : Validated)
    → do_validate candidates resources self ≡ ok found
    → IsWall self found.wall × Supplies self found.wall resources
unfolding do_validate
do_validate_lem candidates resources self found h =
    let (wall, checked, h1) = and_then-ok (check_params self) _ found h in
    let (gpus, supplied, h2) = and_then-ok (check_resources self wall resources) _ found h1 in
    let (matched, shown, h3) = and_then-ok (check_display candidates self) _ found h2 in
    let made : Validated = record { wall = wall; gpus = gpus; matched = matched } in
    let same : made ≡ found = cc in
    let is_wall : IsWall self wall = check_params-IsWall self wall checked in
    subst (λ (v : Validated). IsWall self v.wall × Supplies self v.wall resources) same
      (is_wall, check_resources_lem self wall resources gpus is_wall supplied)
