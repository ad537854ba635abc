-- ===== src/Base/Decimal.antt =====
-- How Python prints a natural number.
use Prim.Native.Nat.{ℕ, zero, suc, ◌/◌, ◌%◌}
use Prim.Native.String.{String, ◌++◌}
use mathlib.Core.Path.{◌≡◌, refl}
use neotolis_ai_workbench.Base.Tests.{ltb, ◌==◌, if◌then◌else◌}

abbrev pub digit : ℕ → String
digit n =
    if n == 0
    then "0"
    else if n == 1
    then "1"
    else if n == 2
    then "2"
    else if n == 3
    then "3"
    else if n == 4
    then "4"
    else if n == 5
    then "5"
    else if n == 6
    then "6"
    else if n == 7
    then "7"
    else if n == 8
    then "8"
    else "9"

-- The first argument bounds the number of digits after the first.
unfoldable pub digits : ℕ → ℕ → String
digits zero n = digit n
digits (suc fuel) n =
    let rest = digits fuel (n / 10) in if ltb n 10 then digit n else rest ++ digit (n % 10)

-- A number has no more digits than its value.
unfoldable pub decimal : ℕ → String
unfolding digits
decimal n = digits n n

exit_code : decimal 128 ≡ "128"
unfolding decimal digits
exit_code = refl
