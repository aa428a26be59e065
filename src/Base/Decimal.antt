-- ===== src/Base/Decimal.antt =====
-- Numbers as texts: Rust's `{}`, `{:02}` and `{:04}` of an unsigned integer.
use Prim.Native.Nat.{ℕ, zero, suc, ◌-◌, ◌/◌, ◌%◌}
use Prim.Native.String.{String, ◌++◌, count}
use mathlib.Core.List.{List, [], ◌∷◌}
use gdom.Base.Tests.{if◌then◌else◌, ltb}

digit_at : ℕ → List String → String
digit_at n [] = "9"
digit_at zero (d ∷ ds) = d
digit_at (suc n) (d ∷ ds) = digit_at n ds

abbrev digits : List String
digits = "0" ∷ "1" ∷ "2" ∷ "3" ∷ "4" ∷ "5" ∷ "6" ∷ "7" ∷ "8" ∷ "9" ∷ []

-- A number below 10 ^ fuel has at most that many digits.
decimal_fuel : ℕ → ℕ → String
decimal_fuel zero n = ""
decimal_fuel (suc fuel) n =
    let front = decimal_fuel fuel (n / 10) in
    let last = digit_at (n % 10) digits in if ltb n 10 then last else front ++ last

unfoldable pub decimal : ℕ → String
unfolding decimal_fuel digit_at
decimal n = decimal_fuel (suc n) n

zeros : ℕ → String → String
zeros zero s = s
zeros (suc n) s = "0" ++ zeros n s

-- `{:0width}`.
unfoldable pub padded : ℕ → ℕ → String
unfolding decimal zeros
padded width n = zeros (width - count (decimal n)) (decimal n)
