-- ===== src/Nodes/Padded.antt =====
-- python/vsutil.py: a range of node numbers of one width, expanded by expandNodes.
use mathlib.Core.List.{append-nil}
use vizstack.Prelude.Digits.{
  Bytes, digits, int_of, int_of-zeros, IsDigit, zeros-digits-IsDigit, length-digits,
}
use vizstack.Prelude.Int.{pos}
use vizstack.Prelude.{
  ℕ, zero, suc, ◌+◌, ◌-◌, ◌≤◌, ◌<◌, ◌^◌, ◌≡◌, refl, ap, ◌∙◌, true, false, none, some, List, [], ◌∷◌,
  ◌++◌, map, length, length-append, length-replicate, All, All-append, All-mono, range, replicate,
  ltb, nat_beq, nat_beq_iff, arith,
}
use vizstack.Errors.{ok}
use vizstack.Nodes.{
  is_suffix_byte, inside, bracketed, match_spec, split, parse_int, pad, expand_parts, expand_ranges,
  expand_nodes,
}

inside_lem : (s : Bytes) → All (λ c. is_suffix_byte c ≡ true) s → inside (s ++ b']' ∷ []) ≡ some s
unfolding inside
inside_lem [] h = refl
inside_lem (c ∷ []) h = rw h.0 refl
inside_lem (c ∷ d ∷ s) h = rw (h.0, inside_lem (d ∷ s) h.1) refl

no_bracket : (s : Bytes) → All (λ c. nat_beq c b'[' ≡ false) s → match_spec s ≡ none
unfolding match_spec
no_bracket [] h = refl
no_bracket (c ∷ s) h = rw (no_bracket s h.1, h.0) refl

bracketed_lem :
    (c : ℕ) (s : Bytes)
    → All (λ c. is_suffix_byte c ≡ true) (c ∷ s)
    → bracketed ((c ∷ s) ++ b']' ∷ []) ≡ some ([], c ∷ s)
unfolding inside
bracketed_lem c s h = rw (inside_lem (c ∷ s) h) refl

match_spec_lem :
    (p : Bytes) (c : ℕ) (s : Bytes)
    → All (λ c. is_suffix_byte c ≡ true) (c ∷ s)
    → All (λ c. nat_beq c b'[' ≡ false) ((c ∷ s) ++ b']' ∷ [])
    → match_spec (p ++ b'[' ∷ ((c ∷ s) ++ b']' ∷ [])) ≡ some (p, c ∷ s)
unfolding match_spec
match_spec_lem [] c s h k = rw (no_bracket ((c ∷ s) ++ b']' ∷ []) k) (bracketed_lem c s h)
match_spec_lem (b ∷ p) c s h k = rw (match_spec_lem p c s h k) refl

abbrev Lacks : ℕ → Bytes → Type 0
Lacks sep = All (λ c. nat_beq c sep ≡ false)

split_none : (sep : ℕ) (s : Bytes) → Lacks sep s → split sep s ≡ s ∷ []
unfolding split
split_none sep [] h = refl
split_none sep (c ∷ s) h = rw (h.0, split_none sep s h.1) refl

split_one :
    (sep : ℕ) (a b : Bytes) → Lacks sep a → Lacks sep b → split sep (a ++ sep ∷ b) ≡ a ∷ b ∷ []
unfolding split
split_one sep [] b h k =
    let same : nat_beq sep sep ≡ true = (nat_beq_iff sep sep).1 refl in
    rw (same, split_none sep b k) refl
split_one sep (c ∷ a) b h k = rw (h.0, split_one sep a b h.1 k) refl

-- A number in this many digits.
abbrev pub numeral : ℕ → ℕ → Bytes
numeral width n = pad width (digits n)

numeral-IsDigit : (width n : ℕ) → All IsDigit (numeral width n)
unfolding pad
numeral-IsDigit width n = zeros-digits-IsDigit n (width - length (digits n))

length-numeral : (k n : ℕ) → n < 10 ^ suc k → length (numeral (suc k) n) ≡ suc k
unfolding pad
length-numeral k n h =
    let zeros = suc k - length (digits n) in
    omega (
      arith,
      length-digits k n h,
      length-append (replicate zeros b'0') (digits n),
      length-replicate {A = ℕ} zeros b'0',
    )

parsed : (s : Bytes) (n : ℕ) → int_of s ≡ some (pos n) → parse_int s ≡ ok (pos n)
parsed s n h = ground arith

parse_int-numeral : (width n : ℕ) → parse_int (numeral width n) ≡ ok (pos n)
unfolding pad
parse_int-numeral width n =
    parsed (pad width (digits n)) n (int_of-zeros n (width - length (digits n)))

one_range :
    (s : Bytes) (names : List Bytes)
    → 0 < length s
    → expand_parts (split b'-' s) ≡ ok names
    → expand_ranges (s ∷ []) ≡ ok names
unfolding expand_ranges
one_range [] names h e = absurd (omega arith)
one_range (c ∷ s) names h e = rw e (ap ok (append-nil names))

match_nonempty :
    (p s : Bytes)
    → 0 < length s
    → All (λ c. is_suffix_byte c ≡ true) s
    → All (λ c. nat_beq c b'[' ≡ false) (s ++ b']' ∷ [])
    → match_spec (p ++ b'[' ∷ (s ++ b']' ∷ [])) ≡ some (p, s)
match_nonempty p [] h k l = absurd (omega arith)
match_nonempty p (c ∷ s) h k l = match_spec_lem p c s k l

expanded :
    (p s : Bytes) (names : List Bytes)
    → 0 < length p
    → match_spec (p ++ b'[' ∷ (s ++ b']' ∷ [])) ≡ some (p, s)
    → expand_ranges (split b',' s) ≡ ok names
    → expand_nodes (p ++ b'[' ∷ (s ++ b']' ∷ [])) ≡ ok (map (λ t. p ++ t) names)
unfolding expand_nodes
expanded [] s names h m e = absurd (omega arith)
expanded (c ∷ p) s names h m e = rw (m, e) refl

map-map :
    (f : ℕ → Bytes) (g : Bytes → Bytes) (xs : List ℕ) → map g (map f xs) ≡ map (λ x. g (f x)) xs
map-map f g [] = refl
map-map f g (x ∷ xs) = ap (g (f x) ∷◌) (map-map f g xs)

-- lo-hi, in this many digits.
abbrev pub suffix : ℕ → ℕ → ℕ → Bytes
suffix width lo hi = numeral width lo ++ b'-' ∷ numeral width hi

module _ (k lo hi : ℕ) (ordered : lo ≤ hi) (fits : hi < 10 ^ suc k) where
  expand_parts_lem :
      expand_parts ((numeral (suc k) lo) ∷ (numeral (suc k) hi) ∷ [])
      ≡ ok (map (numeral (suc k)) (range lo (hi - lo + 1)))
  unfolding expand_parts
  expand_parts_lem =
      let same : nat_beq (suc k) (suc k) ≡ true = (nat_beq_iff (suc k) (suc k)).1 refl in
      let not_below : ltb hi lo ≡ false = ground arith in
      rw
        (
          parse_int-numeral (suc k) lo,
          parse_int-numeral (suc k) hi,
          not_below,
          length-numeral k lo (omega arith),
          length-numeral k hi fits,
          same,
        )
        refl

  suffix_lacks :
      (P : ℕ → Type 0) → ((c : ℕ) → IsDigit c → P c) → P b'-' → All P (suffix (suc k) lo hi)
  suffix_lacks P digit dash =
      All-append P (numeral (suc k) lo) (b'-' ∷ (numeral (suc k) hi))
        (All-mono IsDigit P digit (numeral (suc k) lo) (numeral-IsDigit (suc k) lo))
        (dash, All-mono IsDigit P digit (numeral (suc k) hi) (numeral-IsDigit (suc k) hi))

  suffix_nonempty : 0 < length (suffix (suc k) lo hi)
  suffix_nonempty = omega (
    arith,
    length-append (numeral (suc k) lo) (b'-' ∷ (numeral (suc k) hi)),
    length-numeral k hi fits,
  )

  one_width :
      (p : Bytes) (start n : ℕ)
      → start + n ≤ suc hi
      → All (λ n. length (p ++ numeral (suc k) n) ≡ length p + suc k) (range start n)
  one_width p start zero h = tt
  one_width p start (suc n) h = (
    omega (arith, length-append p (numeral (suc k) start), length-numeral k start (omega arith)),
    one_width p (suc start) n (omega arith),
  )

  expand_ranges_lem :
      expand_ranges ((suffix (suc k) lo hi) ∷ [])
      ≡ ok (map (numeral (suc k)) (range lo (hi - lo + 1)))
  expand_ranges_lem =
      one_range (suffix (suc k) lo hi) (map (numeral (suc k)) (range lo (hi - lo + 1)))
        suffix_nonempty
        (ap expand_parts (
            split_one b'-' (numeral (suc k) lo) (numeral (suc k) hi)
              (All-mono IsDigit _ (λ c h. ground arith) (numeral (suc k) lo)
                (numeral-IsDigit (suc k) lo))
              (All-mono IsDigit _ (λ c h. ground arith) (numeral (suc k) hi)
                (numeral-IsDigit (suc k) hi)))
          ∙ expand_parts_lem)

  matched :
      (p : Bytes)
      → match_spec (p ++ b'[' ∷ ((suffix (suc k) lo hi) ++ b']' ∷ []))
        ≡ some (p, (suffix (suc k) lo hi))
  matched p =
      match_nonempty p (suffix (suc k) lo hi) suffix_nonempty
        (suffix_lacks (λ c. is_suffix_byte c ≡ true) (λ c h. ground arith) refl)
        (All-append (λ c. nat_beq c b'[' ≡ false) (suffix (suc k) lo hi) (b']' ∷ [])
          (suffix_lacks (λ c. nat_beq c b'[' ≡ false) (λ c h. ground arith) refl) (refl, tt))

  -- Behind a prefix that is not empty, a range of two numbers of one width, the first not above the
  -- second, expands to the prefix with each number from the first to the second, in order and in that
  -- width; so the names are all of one length.
  pub expand_nodes_lem :
      (p : Bytes)
      → 0 < length p
      → (expand_nodes (p ++ b'[' ∷ ((suffix (suc k) lo hi) ++ b']' ∷ []))
          ≡ ok (map (λ n. p ++ numeral (suc k) n) (range lo (hi - lo + 1))))
        × All (λ n. length (p ++ numeral (suc k) n) ≡ length p + suc k) (range lo (hi - lo + 1))
  expand_nodes_lem p some_prefix = (
    expanded p (suffix (suc k) lo hi) (map (numeral (suc k)) (range lo (hi - lo + 1))) some_prefix
          (matched p)
          (ap expand_ranges (
              split_none b',' (suffix (suc k) lo hi)
                (suffix_lacks (λ c. nat_beq c b',' ≡ false) (λ c h. ground arith) refl))
            ∙ expand_ranges_lem)
        ∙ ap ok (map-map (numeral (suc k)) (λ s. p ++ s) (range lo (hi - lo + 1))),
    one_width p lo (hi - lo + 1) (omega arith),
  )
