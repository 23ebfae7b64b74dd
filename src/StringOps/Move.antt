-- ===== src/StringOps/Move.antt =====
-- `memmove` of string.c.
use p2b.Prelude.{
  ℕ, zero, suc, ◌+◌, ◌-◌, ◌<◌, ◌≤◌, ◌≡◌, ◌⊎◌, ◌&&◌, arith, ltb, leb, if◌then◌else◌, update,
  Bool-cases, inl, inr,
}
use p2b.StringOps.{Memory, copy_up, copy_down, memmove}

-- What a copy of `n` bytes from `s` to `d` leaves at the address `a`.
abbrev pub moved : (d s n : ℕ) → Memory → Memory
moved d s n m a = if leb d a && ltb a (d + n) then m (s + (a - d)) else m a

copy_up-moved :
    (n d s : ℕ) (m : Memory) (a : ℕ) → (d ≤ s) ⊎ (s + n ≤ d) → copy_up n d s m a ≡ moved d s n m a
unfolding copy_up
copy_up-moved zero d s m a apart = ground arith
copy_up-moved (suc n) d s m a apart =
    ground (arith, copy_up-moved n (d + 1) (s + 1) (update m d (m s)) a (omega arith))

copy_down-moved :
    (n d s : ℕ) (m : Memory) (a : ℕ) → s < d → copy_down n (d + n) (s + n) m a ≡ moved d s n m a
unfolding copy_down
copy_down-moved zero d s m a lt = ground arith
copy_down-moved (suc n) d s m a lt =
    let e : d + suc n - 1 ≡ d + n = omega arith in
    let e' : s + suc n - 1 ≡ s + n = omega arith in
    rw (e, e') (ground (arith, copy_down-moved n d s (update m (d + n) (m (s + n))) a lt))

-- After `memmove` each of the `n` bytes at `dst` is what the byte at `src` was before, however the
-- ranges overlap, and no other byte has changed.
pub memmove_lem :
    (dst src n : ℕ) (m : Memory) (a : ℕ)
    → memmove dst src n m a ≡ (if leb dst a && ltb a (dst + n) then m (src + (a - dst)) else m a)
unfolding memmove
memmove_lem dst src n m a = elim (Bool-cases (ltb src dst && ltb dst (src + n))) [
  | inl down ↦ rw (down, ◌&&◌) (copy_down-moved n dst src m a (ground arith))
  | inr up ↦ rw up (copy_up-moved n dst src m a (ground arith))
]
