-- ===== src/Ulib.antt =====
-- The library of the user programs: `printint` of printf.c, and `atoi` of ulib.c. An `int` is its bit
-- pattern, a number below 2 ^ 32. A C string is the list of its characters, without the 0 at its end.
pub mod Decimal
use p2b.Prelude.{
  ℕ, zero, suc, ◌+◌, ◌-◌, ◌*◌, ◌/◌, ◌%◌, ◌^◌, Bool, true, false, ◌&&◌, Option, none, some, List, [],
  ◌∷◌, ◌==◌, ltb, leb, if◌then◌else◌, length, get_or,
}

-- "0123456789ABCDEF"
abbrev pub digits : List ℕ
digits = 48 ∷ 49 ∷ 50 ∷ 51 ∷ 52 ∷ 53 ∷ 54 ∷ 55 ∷ 56 ∷ 57 ∷ 65 ∷ 66 ∷ 67 ∷ 68 ∷ 69 ∷ 70 ∷ []

-- sizeof(buf)
abbrev pub buf_size : ℕ
buf_size = 16

-- '-'
abbrev pub minus : ℕ
minus = 45

-- The loop that fills `buf`, the last character first, with `room` characters of it left; `none` if it
-- runs over the end.
pub push_digits : (room base x : ℕ) → List ℕ → Option (List ℕ)
push_digits zero base x buf = none
push_digits (suc room) base x buf =
    let rest = push_digits room base (x / base) (get_or digits (x % base) 0 ∷ buf) in
    if x / base == 0 then some (get_or digits (x % base) 0 ∷ buf) else rest

abbrev pub is_negative : ℕ → Bool
is_negative xx = leb (2 ^ 31) xx

-- buf[i++] = '-'
abbrev pub push_minus : Bool → List ℕ → Option (List ℕ)
push_minus false buf = some buf
push_minus true buf = if ltb (length buf) buf_size then some (minus ∷ buf) else none

-- The characters that `printint` prints, in order.
pub printint : (base : ℕ) (sgn : Bool) (xx : ℕ) → Option (List ℕ)
printint base sgn xx =
    let neg = sgn && is_negative xx in
    let x = if neg then (2 ^ 32 - xx) % 2 ^ 32 else xx in
    elim (push_digits buf_size base x []) [ none ↦ none | some buf ↦ push_minus neg buf ]

abbrev pub is_digit : ℕ → Bool
is_digit c = leb 48 c && leb c 57

-- The loop of `atoi`.
pub atoi_from : ℕ → List ℕ → ℕ
atoi_from n [] = n
atoi_from n (c ∷ s) = if is_digit c then atoi_from ((n * 10 + c + 2 ^ 32 - 48) % 2 ^ 32) s else n

pub atoi : List ℕ → ℕ
unfolding atoi_from
atoi s = atoi_from 0 s
