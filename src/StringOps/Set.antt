-- ===== src/StringOps/Set.antt =====
-- `memset` of string.c, by words and by bytes.
use p2b.Prelude.{
  ℕ, zero, suc, ◌+◌, ◌*◌, ◌/◌, ◌%◌, ◌^◌, ◌<◌, ◌≡◌, refl, Bool, true, false, ◌&&◌, arith, ◌==◌, ltb,
  leb, if◌then◌else◌, update, Bool-cases, inl, inr, passes_all, passes_all_sound,
}
use mathlib.Core.Path.{subst}
use p2b.StringOps.{Memory, stosb, store_word, stosl, splat, memset}

-- The four bytes of a word are all `c`.
abbrev repeats : ℕ → ℕ → Bool
repeats w c =
    w % 256 == c && (w / 2 ^ 8 % 256 == c && (w / 2 ^ 16 % 256 == c && w / 2 ^ 24 % 256 == c))

splat_table : passes_all 256 (λ c. repeats (splat c) c) ≡ true
unfolding p2b.Prelude.passes_all splat
splat_table = refl

splat-repeats : (c : ℕ) → c < 256 → repeats (splat c) c ≡ true
splat-repeats c h = passes_all_sound 256 (λ x. repeats (splat x) x) splat_table c h

stosb-eq :
    (cnt addr byte : ℕ) (m : Memory) (a : ℕ)
    → stosb addr byte cnt m a ≡ (if leb addr a && ltb a (addr + cnt) then byte % 256 else m a)
unfolding stosb
stosb-eq zero addr byte m a = ground arith
stosb-eq (suc cnt) addr byte m a =
    ground (arith, stosb-eq cnt (addr + 1) byte (update m addr (byte % 256)) a)

store_word-eq :
    (addr w c : ℕ) (m : Memory) (a : ℕ)
    → repeats w c ≡ true
    → store_word addr w m a ≡ (if leb addr a && ltb a (addr + 4) then c else m a)
unfolding store_word
store_word-eq addr w c m a r = ground arith

stosl-eq :
    (cnt addr w c : ℕ) (m : Memory) (a : ℕ)
    → repeats w c ≡ true
    → stosl addr w cnt m a ≡ (if leb addr a && ltb a (addr + 4 * cnt) then c else m a)
unfolding stosl
stosl-eq zero addr w c m a r = ground arith
stosl-eq (suc cnt) addr w c m a r =
    ground
      (arith, stosl-eq cnt (addr + 4) w c (store_word addr w m) a r, store_word-eq addr w c m a r)

-- `memset` sets each of the `n` bytes at `dst` to the low byte of `c` and changes no other byte,
-- whichever of its two ways it takes.
pub memset_lem :
    (dst c n : ℕ) (m : Memory) (a : ℕ)
    → memset dst c n m a ≡ (if leb dst a && ltb a (dst + n) then c % 256 else m a)
unfolding memset
memset_lem dst c n m a = elim (Bool-cases (dst % 4 == 0 && n % 4 == 0)) [
  | inl words ↦
      let e : 4 * (n / 4) ≡ n = ground arith in
      rw words (
        subst
          (λ k.
            stosl dst (splat (c % 256)) (n / 4) m a
            ≡ (if leb dst a && ltb a (dst + k) then c % 256 else m a))
          e
          (stosl-eq (n / 4) dst (splat (c % 256)) (c % 256) m a
            (splat-repeats (c % 256) (omega arith))))
  | inr bytes ↦ rw bytes (stosb-eq n dst c m a)
]
