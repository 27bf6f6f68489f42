-- ===== src/Tiled/Validation/Ports.antt =====
-- python/vsapi.py: which remap_display_outputs TiledDisplay accepts.
use vizstack.Prelude.{
  ℕ, suc, ◌≤◌, ◌≡◌, ◌↔◌, ◌⊎◌, refl, ap, sym, ◌∙◌, String, true, false, ◌&&◌, Option, none, some,
  List, [], ◌∷◌, map, contains, length, ◌==◌, ◌!=◌, nat_eq, nat_beq_iff, string_eq, option_eq,
  option_beq_iff, if◌then◌else◌, arith, inl, inr, Bool-cases,
}
use vizstack.Prelude.Int.{ℤ, pos, negsuc}
use vizstack.Errors.{Result, ok, raise, and_then-ok, value_error}
use vizstack.Tiled.Validation.{refuse_if, check_ports, check_remap, used_ports, output_count}

abbrev pub AreDistinct : List ℕ → Type 0
AreDistinct [] = Unit
AreDistinct (n ∷ rest) = (contains rest n ≡ false) × AreDistinct rest

contains-used_ports : (l : List ℕ) (n : ℕ) → contains (used_ports l) n ≡ contains l n
unfolding used_ports
contains-used_ports [] n = refl
contains-used_ports (m ∷ l) n = elim (Bool-cases (contains (used_ports l) m)) [
  | inr e ↦ rw e (ap (λ b. if m == n then true else b) (contains-used_ports l n))
  | inl e ↦ elim (Bool-cases (m == n)) [
    | inr f ↦ rw (e, f) (contains-used_ports l n)
    | inl f ↦ let same : m ≡ n = (nat_beq_iff m n).0 f in rw (e, f) (rw same at e)
  ]
]

length-used_ports :
    (l : List ℕ)
    → (length (used_ports l) ≤ length l) × ((length (used_ports l) ≡ length l) ↔ AreDistinct l)
unfolding used_ports
length-used_ports [] = (omega arith, (λ h. tt, λ h. refl))
length-used_ports (n ∷ l) =
    let (short, distinct) = length-used_ports l in
    let seen : contains (used_ports l) n ≡ contains l n = contains-used_ports l n in
    elim (Bool-cases (contains (used_ports l) n)) [
      | inl e ↦ rw e (omega arith, (λ h. absurd (omega arith), λ h. absurd cc))
      | inr e ↦
          rw e (omega arith, (λ h. (cc, distinct.0 (omega arith)), λ h. ap suc (distinct.1 h.1)))
    ]

-- The ports of the list, which are all there are in it.
check_ports_sound : (l : List ℤ) (ports : List ℕ) → check_ports l ≡ ok ports → l ≡ map pos ports
unfolding check_ports
check_ports_sound [] ports h = let same : [] ≡ ports = cc in rw (← same) refl
check_ports_sound (negsuc n ∷ rest) ports h = absurd cc
check_ports_sound (pos n ∷ rest) ports h =
    let (more, e, built) = and_then-ok (check_ports rest) (λ p. ok (n ∷ p)) ports h in
    let same : n ∷ more ≡ ports = cc in rw (← same) (ap (pos n ∷◌) (check_ports_sound rest more e))

check_ports_complete : (ports : List ℕ) → check_ports (map pos ports) ≡ ok ports
unfolding check_ports
check_ports_complete [] = refl
check_ports_complete (n ∷ ports) = rw (check_ports_complete ports) refl

-- None, or different ports, as many as the block has outputs; two of them for passive stereo.
abbrev pub IsRemap : Option (List ℤ) → Option String → String → ℕ × ℕ → Type 0
IsRemap remap stereo kind layout =
    (remap ≡ none)
    ⊎ ((ports : List ℕ) × (remap ≡ some (map pos ports))
        × (length (map pos ports) ≡ output_count kind layout)
        × (stereo ≡ some "passive" → length (map pos ports) ≡ 2)
        × AreDistinct ports)

sizes_test :
    (stereo : Option String) (n outputs : ℕ) (rest : Result (Unit {0}))
    → ((if stereo == some "passive" && (n != 2)
          then raise value_error
          else if n != outputs
          then raise value_error
          else rest)
        ≡ ok tt)
      ↔ ((stereo ≡ some "passive" → n ≡ 2) × (n ≡ outputs) × (rest ≡ ok tt))
sizes_test stereo n outputs rest =
    ground (arith, option_beq_iff stereo (some "passive"), nat_beq_iff n 2, nat_beq_iff n outputs)

distinct_test :
    (ports : List ℕ)
    → (refuse_if (length (used_ports ports) != length ports) ≡ ok tt) ↔ AreDistinct ports
distinct_test ports =
    let (short, distinct) = length-used_ports ports in
    (
      λ h. distinct.0 (ground (arith, nat_beq_iff (length (used_ports ports)) (length ports))),
      λ h.
          let same : length (used_ports ports) ≡ length ports = distinct.1 h in
          ground (arith, nat_beq_iff (length (used_ports ports)) (length ports)),
    )

pub check_remap-IsRemap :
    (remap : Option (List ℤ)) (stereo : Option String) (kind : String) (layout : ℕ × ℕ)
    → check_remap remap stereo kind layout ≡ ok tt
    → IsRemap remap stereo kind layout
unfolding check_remap
check_remap-IsRemap none stereo kind layout h = inl refl
check_remap-IsRemap (some l) stereo kind layout h =
    let (two, outputs, rest) = (sizes_test stereo (length l) (output_count kind layout) _).0 h in
    let (ports, e, different) = and_then-ok (check_ports l) _ tt rest in
    let whole : l ≡ map pos ports = check_ports_sound l ports e in
    inr (
      ports,
      ap some whole,
      ap length (sym whole) ∙ outputs,
      λ p. ap length (sym whole) ∙ two p,
      (distinct_test ports).0 different,
    )

pub IsRemap-check_remap :
    (remap : Option (List ℤ)) (stereo : Option String) (kind : String) (layout : ℕ × ℕ)
    → IsRemap remap stereo kind layout
    → check_remap remap stereo kind layout ≡ ok tt
unfolding check_remap
IsRemap-check_remap none stereo kind layout h = refl
IsRemap-check_remap (some l) stereo kind layout (inl h) = absurd cc
IsRemap-check_remap (some l) stereo kind layout (inr (ports, e, outputs, two, different)) =
    let whole : l ≡ map pos ports = cc in
    rw whole (
      (sizes_test stereo (length (map pos ports)) (output_count kind layout) _).1
        (two, outputs, rw (check_ports_complete ports) ((distinct_test ports).1 different)))
