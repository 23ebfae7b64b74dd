-- ===== src/Tests/Numbers.antt =====
-- The theorem on printed numbers, at -25.
use p2b.Prelude.{ℕ, ◌≡◌, ◌≤◌, true, some, List, ◌++◌, length, arith}
use p2b.Ulib.{printint, atoi}
use p2b.Ulib.Decimal.{sign, magnitude, NoDigit, printint-atoi}

printint-atoi_example :
    (t : List ℕ) × (printint 10 true 4294967271 ≡ some (sign 4294967271 ++ t))
    × (length t ≤ 10)
    × ((s : List ℕ) → NoDigit s → atoi (t ++ s) ≡ magnitude 4294967271)
printint-atoi_example = printint-atoi 4294967271 (omega arith)
