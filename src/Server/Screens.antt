-- ===== src/Server/Screens.antt =====
-- python/vsapi.py: which screens a Server has, and in what order getScreens gives them.
use mathlib.Core.List.{Permᴰ}
use vizstack.Prelude.{
  ℕ, ◌≤◌, ◌≡◌, refl, Bool, true, false, Option, some, List, [], ◌∷◌, map, All, All-mono, ◌==◌,
  nat_eq, option_eq, string_eq, if◌then◌else◌, arith,
}
use vizstack.Prelude.Sorting.{
  comes_before, sort_by, sort_by-Permᴰ, IsSortedBy, IsOrder, sort_by-IsSortedBy,
}
use vizstack.Prelude.Table.{at_key, put_key, at_key-put_key}
use vizstack.Errors.{ok, key_of}
use vizstack.Screen.{Screen, get_gpus, set_server}
use vizstack.Server.{Server, compare_numbers, rank_of_number, get_screens, get_screen, add_screen}

number_order : IsOrder compare_numbers
number_order = record { asym = λ a b h. ground arith; trans = λ a b c h k. ground arith }

-- By number, screens without a number in front.
abbrev pub IsByNumber : List (Option ℕ × Screen) → Type 0
IsByNumber [] = Unit
IsByNumber (a ∷ l) = All (λ b. rank_of_number a.0 ≤ rank_of_number b.0) l × IsByNumber l

sorted-IsByNumber : (l : List (Option ℕ × Screen)) → IsSortedBy compare_numbers l → IsByNumber l
sorted-IsByNumber [] s = tt
sorted-IsByNumber (a ∷ l) s = (
  All-mono (λ b. comes_before compare_numbers b a ≡ false) _ (λ b h. ground arith) l s.0,
  sorted-IsByNumber l s.1,
)

-- getScreens gives the screens of the server's entries, each once, by their number.
pub get_screens_lem :
    (self : Server)
    → (entries : List (Option ℕ × Screen)) × (get_screens self ≡ map (λ entry. entry.1) entries)
      × Permᴰ self.screens entries
      × IsByNumber entries
unfolding get_screens
get_screens_lem self = (
  sort_by compare_numbers self.screens,
  refl,
  sort_by-Permᴰ compare_numbers self.screens,
  sorted-IsByNumber _ (sort_by-IsSortedBy compare_numbers number_order self.screens),
)

add_screen-screens :
    (scr : Screen) (self now : Server)
    → add_screen scr self ≡ (ok tt, now)
    → now.screens ≡ put_key scr.screen_number (set_server (some self.res_index) scr).1 self.screens
unfolding add_screen get_gpus
add_screen-screens scr self now added = ground arith

-- After an addScreen that succeeds, getScreen of the screen's number gives the screen, attached to
-- the server, and of any other number what it gave before.
pub get_screen-add_screen :
    (scr : Screen) (self now : Server) (number : Option ℕ)
    → add_screen scr self ≡ (ok tt, now)
    → get_screen number now ≡ (
        if scr.screen_number == number
        then ok (set_server (some self.res_index) scr).1
        else get_screen number self)
unfolding get_screen
get_screen-add_screen scr self now number added =
    let attached = (set_server (some self.res_index) scr).1 in
    rw
      (
        add_screen-screens scr self now added,
        at_key-put_key scr.screen_number number attached self.screens,
      )
      (found (scr.screen_number == number))
  where
    found :
        (b : Bool)
        → key_of (
            if b then some (set_server (some self.res_index) scr).1 else at_key number self.screens)
          ≡ (if b
              then ok (set_server (some self.res_index) scr).1
              else key_of (at_key number self.screens))
    found true = refl
    found false = refl
