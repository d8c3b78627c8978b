-- ===== src/Base/Text.antt =====
-- Texts of numbers: `str(n)` and f"{n:04d}" of a number that is not negative.
use Prim.Native.Nat.{ℕ, zero, suc, ◌+◌, ◌/◌, ◌%◌}
use Prim.Native.String.{String, ◌++◌}
use mathlib.Core.List.{List, [], ◌∷◌}
use mathlib.Core.Option.{none, some}
use data_gateway.Base.Lists.{get_elem?}
use data_gateway.Base.Tests.{ltb, if◌then◌else◌}

abbrev digits : List String
digits = "0" ∷ "1" ∷ "2" ∷ "3" ∷ "4" ∷ "5" ∷ "6" ∷ "7" ∷ "8" ∷ "9" ∷ []

abbrev digit : ℕ → String
digit d = elim (get_elem? digits d) [ none ↦ "" | some t ↦ t ]

-- The first argument bounds the number of digits.
unfoldable decimal_digits : ℕ → ℕ → String
decimal_digits zero n = ""
decimal_digits (suc k) n =
    let front = decimal_digits k (n / 10) in if ltb n 10 then digit n else front ++ digit (n % 10)

unfoldable pub decimal : ℕ → String
unfolding decimal_digits
decimal n = decimal_digits (1 + n) n

unfoldable pub decimal_4 : ℕ → String
unfolding decimal
decimal_4 n =
    (if ltb n 10 then "000" else if ltb n 100 then "00" else if ltb n 1000 then "0" else "")
    ++ decimal n
