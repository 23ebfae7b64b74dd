-- ===== src/Ulib/Decimal.antt =====
-- What `printint` prints in base 10, `atoi` reads.
use p2b.Prelude.{
  ℕ, zero, suc, ◌+◌, ◌-◌, ◌*◌, ◌/◌, ◌%◌, ◌^◌, ◌<◌, ◌≤◌, ◌≡◌, refl, ap, sym, ◌∙◌, true, false,
  Option, some, List, [], ◌∷◌, ◌++◌, ◌==◌, ltb, if◌then◌else◌, length, length-append, get_or, arith,
  Bool-cases, inl, inr, passes_all, passes_all_sound,
}
use mathlib.Core.List.{append_assoc, append-nil}
use p2b.Ulib.{
  digits, minus, buf_size, push_digits, is_negative, push_minus, printint, is_digit, atoi_from,
  atoi,
}

digit_table : passes_all 10 (λ d. get_or digits d 0 == 48 + d) ≡ true
unfolding passes_all
digit_table = refl

digits_lem : (d : ℕ) → d < 10 → get_or digits d 0 ≡ 48 + d
digits_lem d lt =
    ground (arith, passes_all_sound 10 (λ d. get_or digits d 0 == 48 + d) digit_table d lt)

-- 10 to the power of `k`.
abbrev power : ℕ → ℕ
power zero = 1
power (suc k) = 10 * power k

-- One digit read.
atoi_from-digit :
    (n d : ℕ) (s : List ℕ)
    → d < 10
    → n * 10 + d < 2 ^ 32
    → atoi_from n (get_or digits d 0 ∷ s) ≡ atoi_from (n * 10 + d) s
unfolding atoi_from
atoi_from-digit n d s lt small = rw (digits_lem d lt) (
    let digit : is_digit (48 + d) ≡ true = ground arith in
    rw digit (ap (λ m. atoi_from m s) (omega arith)))

-- The digits `t` of `x`, of which there are at most `k` + 1, before what is in the buffer.
abbrev Digits : (k x : ℕ) (buf : List ℕ) → Option (List ℕ) → Type 0
Digits k x buf out =
    (t : List ℕ) × (out ≡ some (t ++ buf))
    × (length t ≤ suc k)
    × ((s : List ℕ) → atoi_from 0 (t ++ s) ≡ atoi_from x s)

Digits-last :
    (k room x : ℕ) (buf : List ℕ)
    → (x / 10 == 0) ≡ true
    → Digits k x buf (push_digits (suc room) 10 x buf)
unfolding push_digits
Digits-last k room x buf last =
    let small : x < 10 = ground arith in
    let same : x % 10 ≡ x = omega arith in
    (
      get_or digits (x % 10) 0 ∷ [],
      rw (last, push_digits) refl,
      omega arith,
      λ s.
          atoi_from-digit 0 (x % 10) s (omega arith) (omega arith)
          ∙ ap (λ n. atoi_from n s) (omega arith),
    )

Digits-push_digits :
    (k room x : ℕ) (buf : List ℕ)
    → k < room
    → x < power (suc k)
    → x < 2 ^ 32
    → Digits k x buf (push_digits room 10 x buf)
unfolding push_digits
Digits-push_digits k zero x buf lt small word = absurd (omega arith)
Digits-push_digits zero (suc room) x buf lt small word = Digits-last zero room x buf (ground arith)
Digits-push_digits (suc k) (suc room) x buf lt small word = elim (Bool-cases (x / 10 == 0)) [
  | inl last ↦ Digits-last (suc k) room x buf last
  | inr more ↦
      let d : ℕ = get_or digits (x % 10) 0 in
      let (t, run, short, reads) =
        Digits-push_digits k room (x / 10) (d ∷ buf) (omega arith) (omega arith) (omega arith) in
      (
        t ++ d ∷ [],
        rw (more, push_digits) (run ∙ ap some (sym (append_assoc t (d ∷ []) buf))),
        omega (arith, length-append t (d ∷ [])),
        λ s.
            ap (atoi_from 0) (append_assoc t (d ∷ []) s)
            ∙ reads (d ∷ s)
            ∙ atoi_from-digit (x / 10) (x % 10) s (omega arith) (omega arith)
            ∙ ap (λ n. atoi_from n s) (omega arith),
      )
]

-- The absolute value, and the sign that is printed.
abbrev pub magnitude : ℕ → ℕ
magnitude xx = if is_negative xx then 2 ^ 32 - xx else xx

abbrev pub sign : ℕ → List ℕ
sign xx = if is_negative xx then minus ∷ [] else []

-- Behind a number there is no digit.
abbrev pub NoDigit : List ℕ → Type 0
NoDigit [] = Unit {0}
NoDigit (c ∷ s) = is_digit c ≡ false

atoi_from-rest : (n : ℕ) (s : List ℕ) → NoDigit s → atoi_from n s ≡ n
unfolding atoi_from
atoi_from-rest n [] h = refl
atoi_from-rest n (c ∷ s) h = rw h refl

negative_pos : (xx : ℕ) → is_negative xx ≡ true → 0 < xx
negative_pos xx h = ground arith

push_minus-room : (buf : List ℕ) → length buf < buf_size → push_minus true buf ≡ some (minus ∷ buf)
push_minus-room buf lt = let room : ltb (length buf) buf_size ≡ true = ground arith in rw room refl

printint-negative :
    (xx : ℕ) (buf : List ℕ)
    → is_negative xx ≡ true
    → push_digits buf_size 10 ((2 ^ 32 - xx) % 2 ^ 32) [] ≡ some buf
    → length buf < buf_size
    → printint 10 true xx ≡ some (minus ∷ buf)
unfolding printint
printint-negative xx buf negative run lt =
    rw (negative, run, negative, printint) (push_minus-room buf lt)

printint-positive :
    (xx : ℕ) (buf : List ℕ)
    → is_negative xx ≡ false
    → push_digits buf_size 10 xx [] ≡ some buf
    → printint 10 true xx ≡ some buf
unfolding printint
printint-positive xx buf positive run = rw (positive, run, positive, printint) refl

-- An `int` printed in base 10 is a '-' if it is negative and at most ten digits, which fit into the buffer;
-- and `atoi` reads the digits as its absolute value, whatever text that is no digit follows.
pub printint-atoi :
    (xx : ℕ)
    → xx < 2 ^ 32
    → (t : List ℕ) × (printint 10 true xx ≡ some (sign xx ++ t))
      × (length t ≤ 10)
      × ((s : List ℕ) → NoDigit s → atoi (t ++ s) ≡ magnitude xx)
unfolding atoi
printint-atoi xx lt = elim (Bool-cases (is_negative xx)) [
  | inr positive ↦
      let (t, run, short, reads) = Digits-push_digits 9 16 xx [] (omega arith) (omega arith) lt in
      (
        t,
        printint-positive xx (t ++ []) positive run ∙ (rw (positive, append-nil) refl),
        short,
        λ s end. reads s ∙ atoi_from-rest xx s end ∙ rw positive refl,
      )
  | inl negative ↦
      let (t, run, short, reads) =
        Digits-push_digits 9 16 ((2 ^ 32 - xx) % 2 ^ 32) [] (omega arith) (omega arith)
          (omega arith) in
      (
        t,
        printint-negative xx (t ++ []) negative run (rw append-nil (omega arith))
            ∙ (rw (negative, append-nil) refl),
        short,
        λ s end.
            reads s
            ∙ atoi_from-rest ((2 ^ 32 - xx) % 2 ^ 32) s end
            ∙ (rw negative (omega (arith, negative_pos xx negative))),
      )
]
