-- ===== src/Metascheduler/Matching/FirstFit.antt =====
-- The search of both matching loops: the first available resource that passes the test answers.
use mathlib.Core.List.{append_assoc}
use vizstack.Prelude.{
  ℕ, Bool, true, false, ◌≡◌, refl, ap, Option, none, some, List, [], ◌∷◌, ◌++◌, arith, All, ◌⊎◌,
  inl, inr, if◌then◌else◌,
}
use vizstack.Errors.{Result, ok}
use vizstack.Resource.{Resource, is_free}
use vizstack.Resource.Search.{can_allocate}
use vizstack.Resource.Sharing.Exclusive.{taken, do_allocate_eq}
use vizstack.Metascheduler.Matching.{address, allocate_out_of, take_first}
use vizstack.Metascheduler.Matching.Address.{can_allocate-address}

-- The resource after the grant, where it stays available and where it is used up.
abbrev pub kept : Resource → List Resource
kept r = if is_free r.base then r ∷ [] else []

abbrev pub used_up : Resource → List Resource
used_up r = if is_free r.base then [] else r ∷ []

-- What a grant makes of the resource.
abbrev pub granted : ℕ → Resource → Resource → Resource
granted uid req a = taken a (address a req) uid

-- The answer splits the available resources at the first one that passes the test; the others stay
-- as they are.
pub record IsFirstFit (test : Resource → Resource → Result Bool) (uid : ℕ) (req : Resource)
    (avail : List Resource) (addressed : Resource) (left : List Resource) : Type 0 where
  pub front : List Resource
  pub chosen : Resource
  pub back : List Resource
  pub split : avail ≡ front ++ chosen ∷ back
  pub passed_over : All (λ b. test b req ≡ ok false) front
  pub fits : test chosen req ≡ ok true
  pub answer : addressed ≡ address chosen req
  pub remaining : left ≡ front ++ (kept (granted uid req chosen) ++ back)

-- A first fit stays one when more is available behind.
pub IsFirstFit-append :
    {test : Resource → Resource → Result Bool} {uid : ℕ} {req : Resource} {avail : List Resource}
    {addressed : Resource} {left : List Resource} (more : List Resource)
    → IsFirstFit test uid req avail addressed left
    → IsFirstFit test uid req (avail ++ more) addressed (left ++ more)
IsFirstFit-append more fit = record {
  front = fit.front;
  chosen = fit.chosen;
  back = fit.back ++ more;
  split = rw (fit.split) (append_assoc fit.front (fit.chosen ∷ fit.back) more);
  passed_over = fit.passed_over;
  fits = fit.fits;
  answer = fit.answer;
  remaining = rw (fit.remaining) (simp append_assoc);
}

-- A test that passes only what can be allocated, and that does not raise.
pub record IsAdmission (test : Resource → Resource → Result Bool) : Type 0 where
  pub admits : (a req : Resource) → test a req ≡ ok true → can_allocate a req ≡ true
  pub returns : (a req : Resource) → (test a req ≡ ok true) ⊎ (test a req ≡ ok false)

module _ (test : Resource → Resource → Result Bool) (adm : IsAdmission test) (uid : ℕ)
    (req : Resource) where
  -- What the search returns: an answer that is the first fit, or none where nothing fits.
  abbrev pub SearchOutcome : List Resource → Result (Option (Resource × List Resource)) → Type 0
  SearchOutcome avail r =
      ((addressed : Resource) × (left : List Resource) × (r ≡ ok (some (addressed, left)))
        × IsFirstFit test uid req avail addressed left)
      ⊎ (r ≡ ok none) × All (λ b. test b req ≡ ok false) avail

  allocate_out_of_lem :
      (a : Resource) (rest : List Resource)
      → can_allocate a req ≡ true
      → allocate_out_of uid req a rest ≡ ok (some (address a req, kept (granted uid req a) ++ rest))
  unfolding allocate_out_of
  allocate_out_of_lem a rest h =
      rw (do_allocate_eq a (address a req) uid (can_allocate-address a req h)) (ground arith)

  fits_here :
      (a : Resource) (rest : List Resource)
      → test a req ≡ ok true
      → SearchOutcome (a ∷ rest) (take_first test uid req (a ∷ rest))
  unfolding take_first
  fits_here a rest e = inl (
    address a req,
    kept (granted uid req a) ++ rest,
    rw e (allocate_out_of_lem a rest (adm.admits a req e)),
    record {
      front = [];
      chosen = a;
      back = rest;
      split = refl;
      passed_over = tt;
      fits = e;
      answer = refl;
      remaining = refl;
    },
  )

  fits_later :
      (a : Resource) (rest : List Resource)
      → test a req ≡ ok false
      → SearchOutcome rest (take_first test uid req rest)
      → SearchOutcome (a ∷ rest) (take_first test uid req (a ∷ rest))
  unfolding take_first
  fits_later a rest e (inl (addressed, left, found, fit)) = inl (
    addressed,
    a ∷ left,
    rw (e, found),
    record {
      front = a ∷ fit.front;
      chosen = fit.chosen;
      back = fit.back;
      split = ap (◌∷◌ a) fit.split;
      passed_over = (e, fit.passed_over);
      fits = fit.fits;
      answer = fit.answer;
      remaining = ap (◌∷◌ a) fit.remaining;
    },
  )
  fits_later a rest e (inr (missing, none_fits)) = inr (rw (e, missing), (e, none_fits))

  pub take_first_lem : (avail : List Resource) → SearchOutcome avail (take_first test uid req avail)
  unfolding take_first
  take_first_lem [] = inr (refl, tt)
  take_first_lem (a ∷ rest) = elim (adm.returns a req) [
    | inl e ↦ fits_here a rest e
    | inr e ↦ fits_later a rest e (take_first_lem rest)
  ]
