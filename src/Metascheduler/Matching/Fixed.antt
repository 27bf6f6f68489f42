-- ===== src/Metascheduler/Matching/Fixed.antt =====
-- What __resourceMatchDOF0 does: every request is found by its address, or some request is not
-- available any more.
use mathlib.Core.List.Permᴰ
use vizstack.Prelude.{
  ℕ, Bool, true, false, ◌≡◌, refl, ◌∙◌, none, some, List, [], ◌∷◌, ◌++◌, arith, All, ◌⊎◌, inl, inr,
  ap,
}
use vizstack.Prelude.Permutations.{append_swap}
use vizstack.Errors.{Result, ok}
use vizstack.Resource.{Resource}
use vizstack.Resource.Search.{refers_to_the_same}
use vizstack.Metascheduler.Matching.{Match, is_requested, take_first, match_dof0}
use vizstack.Metascheduler.Matching.Address.{address_same, is_requested-can_allocate}
use vizstack.Metascheduler.Matching.FirstFit.{
  IsAdmission, IsFirstFit, used_up, granted, take_first_lem,
}
use vizstack.Metascheduler.Matching.Grants.{Grants, done, grant, Grants-Permᴰ}

is_requested_returns :
    (a req : Resource) → (is_requested a req ≡ ok true) ⊎ (is_requested a req ≡ ok false)
unfolding refers_to_the_same
is_requested_returns a req = ground arith

is_requested-IsAdmission : IsAdmission is_requested
is_requested-IsAdmission = record {
  admits = is_requested-can_allocate;
  returns = is_requested_returns;
}

-- An answer of the search is a grant.
pub IsFirstFit-grant :
    {test : Resource → Resource → Result Bool} (adm : IsAdmission test) {uid : ℕ} {req : Resource}
    {avail : List Resource} {addressed : Resource} {left : List Resource}
    {reqs answers final spent : List Resource} (fit : IsFirstFit test uid req avail addressed left)
    → Grants uid reqs answers left final spent
    → Grants uid
        (req ∷ reqs)
        (addressed ∷ answers)
        avail
        final
        (used_up (granted uid req fit.chosen) ++ spent)
IsFirstFit-grant adm {req = req} fit g =
    let open_front = Permᴰ.middle fit.chosen fit.front fit.back in
    rw (fit.answer) (
      grant req fit.chosen (fit.front ++ fit.back) (rw (fit.split) open_front)
        (adm.admits fit.chosen req fit.fits)
        (Grants-Permᴰ (append_swap _ fit.front fit.back) (rw (fit.remaining) at g)))

-- The requests that could be granted, and the first one that could not.
pub record Shortage (uid : ℕ) (reqs avail : List Resource) : Type 0 where
  pub before : List Resource
  pub unmet : Resource
  pub after : List Resource
  pub split : reqs ≡ before ++ unmet ∷ after
  pub left : List Resource
  pub spent : List Resource
  pub grants : Grants uid before before avail left spent
  pub nothing_fits : All (λ a. is_requested a unmet ≡ ok false) left

-- What __resourceMatchDOF0 returns. It does not raise, and leaves the requests as they were.
abbrev pub FixedOutcome : ℕ → List Resource → List Resource → Result (Match Resource) → Type 0
FixedOutcome uid reqs avail r =
    ((left : List Resource) × (spent : List Resource) × (r
        ≡ ok (record { outcome = some (reqs, left); requests = reqs }))
      × Grants uid reqs reqs avail left spent)
    ⊎ (r ≡ ok (record { outcome = none; requests = reqs })) × Shortage uid reqs avail

module _ (uid : ℕ) where
  later :
      (req : Resource) (reqs avail remaining : List Resource) (addressed : Resource)
      → IsFirstFit is_requested uid req avail addressed remaining
      → take_first is_requested uid req avail ≡ ok (some (addressed, remaining))
      → FixedOutcome uid reqs remaining (match_dof0 uid reqs remaining)
      → FixedOutcome uid (req ∷ reqs) avail (match_dof0 uid (req ∷ reqs) avail)
  unfolding match_dof0
  later req reqs avail remaining addressed fit found (inl (left, spent, e, g)) =
      let same = fit.answer ∙ address_same fit.chosen req fit.fits in
      inl (
        left,
        _,
        rw (found, match_dof0) (rw e (rw same)),
        rw same at (IsFirstFit-grant is_requested-IsAdmission fit g),
      )
  later req reqs avail remaining addressed fit found (inr (e, s)) =
      let same = fit.answer ∙ address_same fit.chosen req fit.fits in
      inr (
        rw (found, match_dof0) (rw e (rw same)),
        record {
          before = req ∷ s.before;
          unmet = s.unmet;
          after = s.after;
          split = ap (◌∷◌ req) s.split;
          left = s.left;
          spent = _;
          grants = rw same at (IsFirstFit-grant is_requested-IsAdmission fit s.grants);
          nothing_fits = s.nothing_fits;
        },
      )

  pub match_dof0_lem :
      (reqs avail : List Resource) → FixedOutcome uid reqs avail (match_dof0 uid reqs avail)
  unfolding match_dof0
  match_dof0_lem [] avail = inl (avail, [], refl, done (Permᴰ.refl avail))
  match_dof0_lem (req ∷ reqs) avail =
      elim (take_first_lem is_requested is_requested-IsAdmission uid req avail) [
        | inl (addressed, remaining, found, fit) ↦
            later req reqs avail remaining addressed fit found (match_dof0_lem reqs remaining)
        | inr (missing, nothing_fits) ↦ inr (
          rw (missing, match_dof0),
          record {
            before = [];
            unmet = req;
            after = reqs;
            split = refl;
            left = avail;
            spent = [];
            grants = done (Permᴰ.refl avail);
            nothing_fits = nothing_fits;
          },
        )
      ]
