-- ===== src/Tiled/Layout/Calls.antt =====
-- python/vsapi.py: what the calls of setScanout for a block leave in its GPU.
use vizstack.Prelude.{
  ℕ, zero, suc, ◌<◌, ◌≡◌, refl, sym, ap, ◌∙◌, String, false, Option, some, none, List, [], ◌∷◌,
  get_elem?, contains, All, nat_eq, ◌==◌, nat_beq_iff, Bool-cases, inl, inr, arith, if◌then◌else◌,
}
use vizstack.Prelude.Int.{pos}
use vizstack.Errors.{ok, raise, Post, Post-and_then, Result, proceed, Result-cases, Statement, ◌>>◌}
use vizstack.Display.{DisplayArg}
use vizstack.Resource.{GpuFields, Scanout}
use vizstack.Resource.Scanouts.{
  Access, Ports, at_port, put_port, check_port, check_position, check_size, check_extent,
  check_scan_type, valid_display, mode_details, mode_width, mode_height, plan_scanout, set_scanout,
}
use vizstack.Tiled.Layout.Placing.{scanout_args, set_scanouts}
use vizstack.Tiled.Layout.Scanouts.{UsePorts}
use vizstack.Tiled.Validation.Ports.{AreDistinct}

-- The GPU shows something on the port, at this place of its framebuffer.
abbrev pub Shows : GpuFields → ℕ × ℕ × ℕ → Type 0
Shows self (port, x, y) =
    (s : Scanout) × (at_port port self.scanout ≡ some s) × (s.area_x ≡ x) × (s.area_y ≡ y)

-- The port is none of those of the list.
abbrev pub IsApart : ℕ → List (ℕ × ℕ × ℕ) → Type 0
IsApart port = All (λ scanout. (scanout.0 == port) ≡ false)

module _ {V : Type 0} where
  at_port-put_port_same :
      (port : ℕ) (v : V) (d : Ports V) → at_port port (put_port port v d) ≡ some v
  at_port-put_port_same port v [] = ground (arith, nat_beq_iff port port)
  at_port-put_port_same port v ((p, w) ∷ d) = elim (Bool-cases (p == port)) [
    | inl e ↦ rw (e, put_port) (rw e refl)
    | inr e ↦ rw (e, put_port) (rw e (at_port-put_port_same port v d))
  ]

  at_port-put_port_other :
      (port other : ℕ) (v : V) (d : Ports V)
      → (other == port) ≡ false
      → at_port port (put_port other v d) ≡ at_port port d
  at_port-put_port_other port other v [] h = rw h refl
  at_port-put_port_other port other v ((p, w) ∷ d) h = elim (Bool-cases (p == other)) [
    | inl e ↦
        let same : p ≡ other = (nat_beq_iff p other).0 e in
        let apart : (p == port) ≡ false = ap (λ n. n == port) same ∙ h in
        rw (e, put_port) (rw apart refl)
    | inr e ↦
        rw (e, put_port)
          (ap (λ r. if p == port then some w else r) (at_port-put_port_other port other v d h))
  ]

abbrev IsPlaced : ℕ → ℕ → ℕ → ℕ × Scanout → Type 0
IsPlaced port x y entry = (entry.0 ≡ port) × (entry.1.area_x ≡ x) × (entry.1.area_y ≡ y)

check_port_same : (self : GpuFields) (port p : ℕ) → check_port self (pos port) ≡ ok p → p ≡ port
unfolding check_port
check_port_same self port p h = ground arith

check_position_same : (max : Option ℕ) (x a : ℕ) → check_position max (pos x) ≡ ok a → a ≡ x
unfolding check_position
check_position_same max x a h = ground arith

plan_scanout-IsPlaced :
    (ra : Access) (self : GpuFields) (display : DisplayArg) (mode : Option String) (port x y : ℕ)
    → Post (IsPlaced port x y) (plan_scanout ra self (scanout_args display mode (port, x, y)))
unfolding plan_scanout
plan_scanout-IsPlaced ra self display mode port x y =
    let P = IsPlaced port x y in
    Post-and_then P (check_port self (pos port)) _ λ p at_port.
      Post-and_then P (check_position self.max_width (pos x)) _ λ a at_x.
        Post-and_then P (check_position self.max_height (pos y)) _ λ b at_y.
          Post-and_then P (check_scan_type self p none) _ λ _ _.
            Post-and_then P (valid_display ra display) _ λ d _.
              Post-and_then P (mode_details d mode) _ λ details _.
                Post-and_then P (check_size self.max_width (mode_width details) none) _ λ w _.
                  Post-and_then P (check_size self.max_height (mode_height details) none) _ λ h _.
                    Post-and_then P (check_extent self.max_width a w) _ λ _ _.
                      Post-and_then P (check_extent self.max_height b h) _ λ _ _. (
                        check_port_same self port p at_port,
                        check_position_same self.max_width x a at_x,
                        check_position_same self.max_height y b at_y,
                      )

-- A call that succeeds shows the tile, and leaves what stands on other ports.
set_scanout_lem :
    (ra : Access) (display : DisplayArg) (mode : Option String) (port x y : ℕ)
    (self now : GpuFields)
    → set_scanout ra (scanout_args display mode (port, x, y)) self ≡ (ok tt, now)
    → Shows now (port, x, y)
      × ((other : ℕ)
          → (port == other) ≡ false
          → at_port other now.scanout ≡ at_port other self.scanout)
unfolding set_scanout
set_scanout_lem ra display mode port x y self now h =
    elim (Result-cases (plan_scanout ra self (scanout_args display mode (port, x, y)))) [
      | inr (e, refused) ↦ absurd (ground (arith, refused))
      | inl ((p, s), planned) ↦
          let (same, at_x, at_y) =
            rw planned at (plan_scanout-IsPlaced ra self display mode port x y) in
          let after : put_port p s self.scanout ≡ now.scanout = cc in
          (
            (
              s,
              ap (at_port port) (sym after)
                  ∙ ap (λ n. at_port port (put_port n s self.scanout)) same
                  ∙ at_port-put_port_same port s self.scanout,
              at_x,
              at_y,
            ),
            λ other apart.
                ap (at_port other) (sym after)
                ∙ ap (λ n. at_port other (put_port n s self.scanout)) same
                ∙ at_port-put_port_other other port s self.scanout apart,
          )
    ]

-- Two statements that succeed one after the other.
both-ok :
    {S : Type 0} (first second : Statement S (Unit {0})) (s now : S)
    → (first >> second) s ≡ (ok tt, now)
    → (between : S) × (first s ≡ (ok tt, between)) × (second between ≡ (ok tt, now))
both-ok {S} first second s now h = go (first s) h
  where
    go :
        (r : Result (Unit {0}) × S)
        → proceed (λ _. second) r ≡ (ok tt, now)
        → (between : S) × (r ≡ (ok tt, between)) × (second between ≡ (ok tt, now))
    go (ok _, between) e = (between, refl, e)
    go (raise x, between) e = absurd cc

set_scanouts-others :
    (ra : Access) (display : DisplayArg) (mode : Option String) (scanouts : List (ℕ × ℕ × ℕ))
    (self now : GpuFields) (other : ℕ)
    → set_scanouts ra display mode scanouts self ≡ (ok tt, now)
    → IsApart other scanouts
    → at_port other now.scanout ≡ at_port other self.scanout
unfolding set_scanouts
set_scanouts-others ra display mode [] self now other h apart =
    let same : self ≡ now = cc in ap (λ (g : GpuFields). at_port other g.scanout) (sym same)
set_scanouts-others ra display mode ((port, x, y) ∷ rest) self now other h apart =
    let (between, e, f) =
      both-ok (set_scanout ra (scanout_args display mode (port, x, y)))
        (set_scanouts ra display mode rest) self now h in
    set_scanouts-others ra display mode rest between now other f apart.1
    ∙ (set_scanout_lem ra display mode port x y self between e).1 other apart.0

-- What a run of these calls leaves: every scanout on its port, unless the GPU refuses one.
abbrev pub Leaves : List (ℕ × ℕ × ℕ) → Result (Unit {0}) × GpuFields → Type 0
Leaves scanouts (ok _, now) = All (Shows now) scanouts
Leaves scanouts (raise e, now) = Unit

-- No two calls are for one port.
abbrev pub AreApart : List (ℕ × ℕ × ℕ) → Type 0
AreApart [] = Unit
AreApart (scanout ∷ rest) = IsApart scanout.0 rest × AreApart rest

-- Calls for different ports that all succeed leave every one of them on its port.
pub set_scanouts_lem :
    (ra : Access) (display : DisplayArg) (mode : Option String) (scanouts : List (ℕ × ℕ × ℕ))
    (self now : GpuFields)
    → set_scanouts ra display mode scanouts self ≡ (ok tt, now)
    → AreApart scanouts
    → All (Shows now) scanouts
unfolding set_scanouts
set_scanouts_lem ra display mode [] self now h apart = tt
set_scanouts_lem ra display mode ((port, x, y) ∷ rest) self now h apart =
    let (between, e, f) =
      both-ok (set_scanout ra (scanout_args display mode (port, x, y)))
        (set_scanouts ra display mode rest) self now h in
    let ((s, there, at_x, at_y), _) = set_scanout_lem ra display mode port x y self between e in
    (
      (s, set_scanouts-others ra display mode rest between now port f apart.0 ∙ there, at_x, at_y),
      set_scanouts_lem ra display mode rest between now f apart.1,
    )

contains_cons :
    (m : ℕ) (l : List ℕ) (n : ℕ)
    → contains (m ∷ l) n ≡ false
    → ((m == n) ≡ false) × (contains l n ≡ false)
contains_cons m l n h = elim (Bool-cases (m == n)) [
  | inl same ↦ absurd (ground (arith, same))
  | inr other ↦ (other, rw other at h)
]

not_contained :
    (l : List ℕ) (n j q : ℕ) → contains l n ≡ false → get_elem? l j ≡ some q → (q == n) ≡ false
not_contained [] n j q h e = absurd cc
not_contained (m ∷ l) n zero q h e =
    let here : m ≡ q = cc in ap (λ k. k == n) (sym here) ∙ (contains_cons m l n h).0
not_contained (m ∷ l) n (suc j) q h e = not_contained l n j q (contains_cons m l n h).1 e

different :
    (ports : List ℕ) (i j p q : ℕ)
    → AreDistinct ports
    → i < j
    → get_elem? ports i ≡ some p
    → get_elem? ports j ≡ some q
    → (q == p) ≡ false
different [] i j p q d h e f = absurd cc
different (n ∷ l) i zero p q d h e f = absurd (omega arith)
different (n ∷ l) zero (suc j) p q d h e f =
    let same : n ≡ p = cc in ap (q ==◌) (sym same) ∙ not_contained l n j q d.0 f
different (n ∷ l) (suc i) (suc j) p q d h e f = different l i j p q d.1 (omega arith) e f

UsePorts-IsApart :
    (ports : List ℕ) (i j p : ℕ) (scanouts : List (ℕ × ℕ × ℕ))
    → AreDistinct ports
    → i < j
    → get_elem? ports i ≡ some p
    → UsePorts ports j scanouts
    → IsApart p scanouts
UsePorts-IsApart ports i j p [] d h e used = tt
UsePorts-IsApart ports i j p (scanout ∷ rest) d h e (f, used) = (
  different ports i j p scanout.0 d h e f,
  UsePorts-IsApart ports i (suc j) p rest d (omega arith) e used,
)

pub UsePorts-AreApart :
    (ports : List ℕ) (index : ℕ) (scanouts : List (ℕ × ℕ × ℕ))
    → AreDistinct ports
    → UsePorts ports index scanouts
    → AreApart scanouts
UsePorts-AreApart ports index [] d used = tt
UsePorts-AreApart ports index (scanout ∷ rest) d (e, used) = (
  UsePorts-IsApart ports index (suc index) scanout.0 rest d (omega arith) e used,
  UsePorts-AreApart ports (suc index) rest d used,
)

pub set_scanouts-Leaves :
    (ra : Access) (display : DisplayArg) (mode : Option String) (scanouts : List (ℕ × ℕ × ℕ))
    (self : GpuFields)
    → AreApart scanouts
    → Leaves scanouts (set_scanouts ra display mode scanouts self)
set_scanouts-Leaves ra display mode scanouts self apart =
    go (set_scanouts ra display mode scanouts self) refl
  where
    go :
        (r : Result (Unit {0}) × GpuFields)
        → set_scanouts ra display mode scanouts self ≡ r
        → Leaves scanouts r
    go (ok u, now) e = set_scanouts_lem ra display mode scanouts self now e apart
    go (raise x, now) e = tt
