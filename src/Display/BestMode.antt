-- ===== src/Display/BestMode.antt =====
-- python/vsapi.py: which mode findBestMatchingMode chooses.
use vizstack.Prelude.{
  ℕ, ◌≤◌, ◌<◌, ◌||◌, ◌≡◌, refl, ◌⊎◌, inl, inr, Option, none, some, List, [], ◌∷◌, All, arith,
  Bool-cases, ltb, ◌!=◌, nat_eq,
}
use vizstack.Errors.{Result, ok, raise, value_error}
use vizstack.Display.{Mode, DisplayDevice, best_refresh_rate, search_modes, find_best_matching_mode}

abbrev pub HasSize : ℕ → ℕ → Mode → Type 0
HasSize w h m = (m.width ≡ w) × (m.height ≡ h)

-- A mode of the list.
abbrev pub IsIn : Mode → List Mode → Type 0
IsIn m [] = ⊥
IsIn m (x ∷ xs) = (x ≡ m) ⊎ IsIn m xs

-- No mode of the size is faster.
abbrev pub AreSlower : ℕ → ℕ → ℕ → List Mode → Type 0
AreSlower w h rate = All (λ m. HasSize w h m → m.refresh ≤ rate)

module _ (w h : ℕ) where
  abbrev params : List ℕ
  params = w ∷ h ∷ []

  -- What the loop finds after a best mode so far.
  abbrev LoopOutcome : Option Mode → List Mode → Result (Option Mode) → Type 0
  LoopOutcome best modes r =
      (found : Option Mode) × (r ≡ ok found)
      × (best_refresh_rate best ≤ best_refresh_rate found)
      × AreSlower w h (best_refresh_rate found) modes
      × ((found ≡ best)
          ⊎ ((m : Mode) × (found ≡ some m) × IsIn m modes × HasSize w h m × (0 < m.refresh)))

  search_modes_lem :
      (best : Option Mode) (modes : List Mode)
      → LoopOutcome best modes (search_modes params w h best modes)
  unfolding search_modes
  search_modes_lem best [] = (best, refl, omega arith, tt, inl refl)
  search_modes_lem best (m ∷ rest) = elim (Bool-cases ((m.width != w) || (m.height != h))) [
    | inl other ↦
        let (found, e, more, slower, origin) = search_modes_lem best rest in
        (found, rw other e, more, ((λ size. ground (arith, size, other)), slower), kept origin)
    | inr same ↦ elim (Bool-cases (ltb (best_refresh_rate best) m.refresh)) [
      | inl faster ↦
          let (found, e, more, slower, origin) = search_modes_lem (some m) rest in
          (
            found,
            rw (same, faster) e,
            ground (arith, more, faster),
            ((λ _. more), slower),
            inr (new (ground (arith, same)) (ground (arith, faster)) origin),
          )
      | inr not_faster ↦
          let (found, e, more, slower, origin) = search_modes_lem best rest in
          (
            found,
            rw (same, not_faster) e,
            more,
            ((λ _. ground (arith, more, not_faster)), slower),
            kept origin,
          )
    ]
  ]
    where
      kept :
          {found : Option Mode}
          → (found ≡ best)
            ⊎ ((x : Mode) × (found ≡ some x) × IsIn x rest × HasSize w h x × (0 < x.refresh))
          → (found ≡ best)
            ⊎ ((x : Mode) × (found ≡ some x) × IsIn x (m ∷ rest) × HasSize w h x × (0 < x.refresh))
      kept (inl e) = inl e
      kept (inr (x, e, i, s, p)) = inr (x, e, inr i, s, p)

      new :
          {found : Option Mode}
          → HasSize w h m
          → 0 < m.refresh
          → (found ≡ some m)
            ⊎ ((x : Mode) × (found ≡ some x) × IsIn x rest × HasSize w h x × (0 < x.refresh))
          → (x : Mode) × (found ≡ some x) × IsIn x (m ∷ rest) × HasSize w h x × (0 < x.refresh)
      new size p (inl e) = (m, e, inl refl, size, p)
      new size p (inr (x, e, i, s, q)) = (x, e, inr i, s, q)

  -- For a width and a height ...
  pub find_best_matching_mode_lem :
      (self : DisplayDevice)
      → ((m : Mode) × (find_best_matching_mode self params ≡ ok m)
          × IsIn m self.modes
          × HasSize w h m
          × AreSlower w h m.refresh self.modes)
        ⊎ ((find_best_matching_mode self params ≡ raise value_error) × AreSlower w h 0 self.modes)
  unfolding find_best_matching_mode
  find_best_matching_mode_lem self =
      let (found, e, _, slower, origin) = search_modes_lem none self.modes in
      elim origin [
        | inl nothing ↦ inr (rw (e, nothing) refl, rw nothing at slower)
        | inr (m, chosen, i, size, _) ↦ inl (m, rw (e, chosen) refl, i, size, rw chosen at slower)
      ]
