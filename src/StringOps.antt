-- ===== src/StringOps.antt =====
-- string.c: the kernel's operations on bytes. Memory is a function from addresses to bytes; an object
-- does not wrap round the end of the address space. A parameter of type `int` is its bit pattern.
pub mod Move
pub mod Set
pub mod Compare
pub mod Copy
use Prim.Native.Nat.{bit_or}
use p2b.Prelude.{
  ℕ, zero, suc, ◌+◌, ◌-◌, ◌*◌, ◌/◌, ◌%◌, ◌^◌, Bool, true, false, not, ◌&&◌, ◌||◌, Option, none,
  some, ◌==◌, ltb, leb, if◌then◌else◌, update,
}

abbrev pub Memory : Type 0
Memory = ℕ → ℕ

-- `while (n-- > 0) *--d = *--s;` and `while (n-- > 0) *d++ = *s++;`
copy_down : (n d s : ℕ) → Memory → Memory
copy_down zero d s m = m
copy_down (suc n) d s m = copy_down n (d - 1) (s - 1) (update m (d - 1) (m (s - 1)))

copy_up : (n d s : ℕ) → Memory → Memory
copy_up zero d s m = m
copy_up (suc n) d s m = copy_up n (d + 1) (s + 1) (update m d (m s))

pub memmove : (dst src n : ℕ) → Memory → Memory
memmove dst src n m =
    if ltb src dst && ltb dst (src + n)
    then copy_down n (dst + n) (src + n) m
    else copy_up n dst src m

-- The string instructions of x86.h: `cnt` bytes, or `cnt` words of four bytes, low byte first.
stosb : (addr byte cnt : ℕ) → Memory → Memory
stosb addr byte zero m = m
stosb addr byte (suc cnt) m = stosb (addr + 1) byte cnt (update m addr (byte % 256))

store_word : (addr word : ℕ) → Memory → Memory
store_word addr word m =
    update
      (update (update (update m addr (word % 256)) (addr + 1) (word / 2 ^ 8 % 256)) (addr + 2)
        (word / 2 ^ 16 % 256))
      (addr + 3) (word / 2 ^ 24 % 256)

stosl : (addr word cnt : ℕ) → Memory → Memory
unfolding store_word
stosl addr word zero m = m
stosl addr word (suc cnt) m = stosl (addr + 4) word cnt (store_word addr word m)

-- (c<<24)|(c<<16)|(c<<8)|c, for a byte `c`.
splat : ℕ → ℕ
splat c = bit_or (bit_or (bit_or (c * 2 ^ 24) (c * 2 ^ 16)) (c * 2 ^ 8)) c

pub memset : (dst c n : ℕ) → Memory → Memory
memset dst c n m =
    if dst % 4 == 0 && n % 4 == 0 then stosl dst (splat (c % 256)) (n / 4) m else stosb dst c n m

-- The difference of two bytes, as an `int`.
abbrev pub byte_diff : ℕ → ℕ → ℕ
byte_diff a b = (a + 2 ^ 32 - b) % 2 ^ 32

pub memcmp : (v1 v2 n : ℕ) → Memory → ℕ
memcmp v1 v2 zero m = 0
memcmp v1 v2 (suc n) m =
    let rest = memcmp (v1 + 1) (v2 + 1) n m in
    if m v1 == m v2 then rest else byte_diff (m v1) (m v2)

pub strncmp : (p q n : ℕ) → Memory → ℕ
strncmp p q zero m = 0
strncmp p q (suc n) m =
    let rest = strncmp (p + 1) (q + 1) n m in
    if not (m p == 0) && m p == m q then rest else byte_diff (m p) (m q)

-- The two loops of `strncpy`, `n` at their heads being the bytes left.
pad : (n s : ℕ) → Memory → Memory
pad zero s m = m
pad (suc n) s m = pad n (s + 1) (update m s 0)

strncpy_loop : (n s t : ℕ) → Memory → Memory
unfolding pad
strncpy_loop zero s t m = m
strncpy_loop (suc n) s t m =
    let m1 = update m s (m t) in
    let rest = strncpy_loop n (s + 1) (t + 1) m1 in if m t == 0 then pad n (s + 1) m1 else rest

-- `n` at the head of the loop of `safestrcpy`, after the decrement.
safestrcpy_loop : (n s t : ℕ) → Memory → Memory
safestrcpy_loop zero s t m = update m s 0
safestrcpy_loop (suc n) s t m =
    let m1 = update m s (m t) in
    let rest = safestrcpy_loop n (s + 1) (t + 1) m1 in
    if m t == 0 then update m1 (s + 1) 0 else rest

abbrev pub is_positive : ℕ → Bool
is_positive n = ltb 0 n && ltb n (2 ^ 31)

pub strncpy : (s t n : ℕ) → Memory → Memory
strncpy s t n m = if is_positive n then strncpy_loop n s t m else m

pub safestrcpy : (s t n : ℕ) → Memory → Memory
safestrcpy s t n m = if is_positive n then safestrcpy_loop (n - 1) s t m else m

-- `none` when the fuel runs out.
strlen_from : (fuel s n : ℕ) → Memory → Option ℕ
strlen_from zero s n m = none
strlen_from (suc fuel) s n m =
    let rest = strlen_from fuel s (n + 1) m in if m (s + n) == 0 then some n else rest

pub strlen : (fuel s : ℕ) → Memory → Option ℕ
strlen fuel s m = strlen_from fuel s 0 m
