-- ===== src/Nodes/Samples.antt =====
-- Specifications of nodes, and what they expand to.
use vizstack.Prelude.Digits.{Bytes, digits, int_of}
use vizstack.Prelude.{◌≡◌, refl, [], ◌∷◌, ◌++◌, map, length, All, arith}
use vizstack.Errors.{ok, raise, value_error}
use vizstack.Nodes.{expand_nodes, pad, show}
use vizstack.Nodes.Padded.{numeral, suffix, expand_nodes_lem}

abbrev viz : Bytes
viz = b'v' ∷ b'i' ∷ b'z' ∷ []

-- viz[08-10]
padded_test :
    expand_nodes (viz ++ b'[' ∷ b'0' ∷ b'8' ∷ b'-' ∷ b'1' ∷ b'0' ∷ b']' ∷ [])
    ≡ ok ((viz ++ b'0' ∷ b'8' ∷ []) ∷ (viz ++ b'0' ∷ b'9' ∷ []) ∷ (viz ++ b'1' ∷ b'0' ∷ []) ∷ [])
unfolding expand_nodes show pad int_of digits
padded_test = refl

-- viz[07,2-1]: the range goes down.
reversed_test :
    expand_nodes (viz ++ b'[' ∷ b'0' ∷ b'7' ∷ b',' ∷ b'2' ∷ b'-' ∷ b'1' ∷ b']' ∷ [])
    ≡ raise value_error
unfolding expand_nodes show pad int_of digits
reversed_test = refl

-- viz[07]: a number on its own loses its leading zero.
single_test : expand_nodes (viz ++ b'[' ∷ b'0' ∷ b'7' ∷ b']' ∷ []) ≡ ok ((viz ++ b'7' ∷ []) ∷ [])
unfolding expand_nodes show pad int_of digits
single_test = refl

-- viz[1-2-3]: passed over.
three_parts_test : expand_nodes (viz ++ b'[' ∷ b'1' ∷ b'-' ∷ b'2' ∷ b'-' ∷ b'3' ∷ b']' ∷ []) ≡ ok []
unfolding expand_nodes show pad int_of digits
three_parts_test = refl

expand_nodes_lem_example :
    (expand_nodes (viz ++ b'[' ∷ (suffix 2 8 10 ++ b']' ∷ []))
      ≡ ok (map (λ n. viz ++ numeral 2 n) (8 ∷ 9 ∷ 10 ∷ [])))
    × All (λ n. length (viz ++ numeral 2 n) ≡ 5) (8 ∷ 9 ∷ 10 ∷ [])
expand_nodes_lem_example = expand_nodes_lem 1 8 10 (omega arith) (omega arith) viz (omega arith)
