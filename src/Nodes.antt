-- ===== src/Nodes.antt =====
-- python/vsutil.py: expandNodes, which expands a list of nodes written as SLURM does: viz[00-05,7].
-- A specification is one line of text; texts are lists of bytes.
mod Padded
mod Samples
use vizstack.Prelude.Digits.{Bytes, digits, int_of}
use vizstack.Prelude.Int.{ℤ, pos, negsuc, pos_part}
use vizstack.Prelude.{
  ℕ, suc, ◌+◌, ◌-◌, Bool, ◌&&◌, ◌||◌, Option, none, some, List, [], ◌∷◌, ◌++◌, map, length, range,
  replicate, leb, ltb, nat_beq, if◌then◌else◌,
}
use vizstack.Errors.{Result, ok, raise, and_then, value_error}

-- [0-9,+\-]
abbrev pub is_suffix_byte : ℕ → Bool
is_suffix_byte c = leb b'0' c && leb c b'9' || nat_beq c b',' || nat_beq c b'+' || nat_beq c b'-'

-- The rest of the pattern behind an opening bracket, up to the closing bracket at the end.
unfoldable pub inside : Bytes → Option Bytes
inside [] = none
inside (c ∷ []) = if nat_beq c b']' then some [] else none
inside (c ∷ d ∷ s) =
    let rest = inside (d ∷ s) in
    if is_suffix_byte c then elim rest [ none ↦ none | some t ↦ some (c ∷ t) ] else none

-- A text in brackets has a byte at least.
abbrev pub bracketed : Bytes → Option (Bytes × Bytes)
bracketed s = elim (inside s) [ none ↦ none | some [] ↦ none | some (c ∷ t) ↦ some ([], c ∷ t) ]

-- re.match('^(.*)\[([0-9,+\-]+)\]$', spec): the prefix is as long as possible.
unfoldable pub match_spec : Bytes → Option (Bytes × Bytes)
unfolding inside
match_spec [] = none
match_spec (c ∷ s) = elim (match_spec s) [
  | some (prefix, suffix) ↦ some (c ∷ prefix, suffix)
  | none ↦ if nat_beq c b'[' then bracketed s else none
]

abbrev pub onto_first : ℕ → List Bytes → List Bytes
onto_first c [] = (c ∷ []) ∷ []
onto_first c (part ∷ parts) = (c ∷ part) ∷ parts

-- s.split(sep)
unfoldable pub split : ℕ → Bytes → List Bytes
split sep [] = [] ∷ []
split sep (c ∷ s) = let rest = split sep s in if nat_beq c sep then [] ∷ rest else onto_first c rest

-- int(s), or ValueError
abbrev pub parse_int : Bytes → Result ℤ
parse_int s = elim (int_of s) [ none ↦ raise value_error | some n ↦ ok n ]

-- str(n)
unfoldable pub show : ℤ → Bytes
show (pos n) = digits n
show (negsuc n) = b'-' ∷ digits (suc n)

-- while len(s)<width: s = '0'+s
unfoldable pub pad : ℕ → Bytes → Bytes
pad width s = replicate (width - length s) b'0' ++ s

-- The numbers of one range, as texts. The parts have no minus sign, so that the numbers are natural.
-- A range of three parts or more is passed over.
unfoldable pub expand_parts : List Bytes → Result (List Bytes)
unfolding show pad
expand_parts (a ∷ []) = and_then (parse_int a) (λ n. ok (show n ∷ []))
expand_parts (a ∷ b ∷ []) = and_then (parse_int a) λ m. and_then (parse_int b) λ n.
    let (lo, hi) : ℕ × ℕ = (pos_part m, pos_part n) in
    if ltb hi lo
    then raise value_error
    else ok (
        map (λ k. if nat_beq (length a) (length b) then pad (length b) (digits k) else digits k)
          (range lo (hi - lo + 1)))
expand_parts _ = ok []

unfoldable pub expand_ranges : List Bytes → Result (List Bytes)
unfolding expand_parts split
expand_ranges [] = ok []
expand_ranges ([] ∷ rest) = raise value_error
expand_ranges ((c ∷ s) ∷ rest) =
    and_then (expand_parts (split b'-' (c ∷ s)))
      λ names. and_then (expand_ranges rest) λ others. ok (names ++ others)

unfoldable pub expand_nodes : Bytes → Result (List Bytes)
unfolding match_spec expand_ranges split
expand_nodes spec = elim (match_spec spec) [
  | none ↦ ok (spec ∷ [])
  | some ([], suffix) ↦ raise value_error
  | some (c ∷ p, suffix) ↦
      and_then (expand_ranges (split b',' suffix)) (λ names. ok (map (λ s. (c ∷ p) ++ s) names))
]
