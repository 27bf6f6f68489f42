-- ===== src/Prelude/Decimal.antt =====
-- `%d` and `str(n)`: a number printed in decimal.
use Prim.Native.Nat.{ℕ, zero, suc, ◌/◌, ◌%◌}
use Prim.Native.String.{String, ◌++◌}
use mathlib.Core.Path.{◌≡◌, refl}
use vizstack.Prelude.Tests.{ltb, nat_beq, if◌then◌else◌}

abbrev digit : ℕ → String
digit n =
    if nat_beq n 0
    then "0"
    else if nat_beq n 1
    then "1"
    else if nat_beq n 2
    then "2"
    else if nat_beq n 3
    then "3"
    else if nat_beq n 4
    then "4"
    else if nat_beq n 5
    then "5"
    else if nat_beq n 6
    then "6"
    else if nat_beq n 7
    then "7"
    else if nat_beq n 8
    then "8"
    else "9"

-- A number has no more digits than its value plus one, so `suc n` rounds are enough for `n`.
decimal_rounds : ℕ → ℕ → String
decimal_rounds zero n = ""
decimal_rounds (suc rounds) n =
    let front = decimal_rounds rounds (n / 10) in
    if ltb n 10 then digit n else front ++ digit (n % 10)

unfoldable pub decimal : ℕ → String
unfolding decimal_rounds
decimal n = decimal_rounds (suc n) n

decimal_test : decimal 20407 ≡ "20407"
unfolding decimal
decimal_test = refl
