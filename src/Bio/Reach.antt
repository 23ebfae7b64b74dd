-- ===== src/Bio/Reach.antt =====
-- Any use of the buffer cache of bio.c.
use p2b.Prelude.{
  ℕ, ◌<◌, ◌≡◌, ◌≢◌, refl, sym, inl, inr, true, false, Option, none, some, List, ◌∷◌, ◌++◌,
  Bool-cases, Option-cases,
}
use mathlib.Core.Path.{subst}
use p2b.Bio.{
  nbuf, Bcache, set_buf, Getting, got, waits, no_buffers, lock_buf, bget, transfer, bad_request,
  iderw, fill, bwrite_buf, holds_lock, Memdisk, brelse, binit,
}
use p2b.Bio.Get.{IsCache, same_block-IsCache, bget_lem}
use p2b.Bio.Release.{brelse_lem}
use p2b.Bio.Init.{IsZeroed, down_from, binit-IsCache}

-- `bget` of a device's block, the grant of a lock that was waited for, the transfer in `bread` and
-- `bwrite`, the mark of `log_write`, and `brelse`, in any order, from `binit` on.
pub data Reach : Bcache → Type 0 where
  starts : (c : Bcache) → IsZeroed c.buf → Reach (binit c)
  gets :
      {c c' : Bcache} (pid dev blockno b : ℕ)
      → Reach c
      → dev ≢ 0
      → bget pid dev blockno c ≡ got b c'
      → Reach c'
  blocks :
      {c c' : Bcache} (pid dev blockno b : ℕ)
      → Reach c
      → dev ≢ 0
      → bget pid dev blockno c ≡ waits b c'
      → Reach c'
  wakes : {c c' : Bcache} (pid b : ℕ) → Reach c → b < nbuf → lock_buf pid b c ≡ got b c' → Reach c'
  fills :
      {c c' : Bcache} (d d' : Memdisk) (pid b : ℕ)
      → Reach c
      → b < nbuf
      → fill pid b c d ≡ some (c', d')
      → Reach c'
  writes :
      {c c' : Bcache} (d d' : Memdisk) (pid b : ℕ)
      → Reach c
      → b < nbuf
      → bwrite_buf pid b c d ≡ some (c', d')
      → Reach c'
  marks :
      {c : Bcache} (b : ℕ)
      → Reach c
      → b < nbuf
      → Reach (set_buf b (record (c.buf b) { dirty = true }) c)
  releases : {c c' : Bcache} (pid b : ℕ) → Reach c → b < nbuf → brelse pid b c ≡ some c' → Reach c'

abbrev Gives : (vs : List ℕ) → Getting → Type 0
Gives vs (got b c) = IsCache c vs
Gives vs (waits b c) = IsCache c vs
Gives vs no_buffers = Unit

abbrev Leaves : (vs : List ℕ) → Option (Bcache × Memdisk) → Type 0
Leaves vs none = Unit
Leaves vs (some (c, d)) = IsCache c vs

Gives-lock_buf :
    (pid b : ℕ) (c : Bcache) (vs : List ℕ) → b < nbuf → IsCache c vs → Gives vs (lock_buf pid b c)
unfolding lock_buf
Gives-lock_buf pid b c vs lt cache = elim (Option-cases (c.buf b).lock) [
  | inl free ↦
      rw (free, lock_buf)
        (same_block-IsCache c vs b (record (c.buf b) { lock = some pid }) cache lt refl refl)
  | inr (owner, held) ↦ rw (held, lock_buf) cache
]

Gives-bget :
    (pid dev blockno : ℕ) (c : Bcache) (vs : List ℕ)
    → dev ≢ 0
    → IsCache c vs
    → Gives vs (bget pid dev blockno c)
Gives-bget pid dev blockno c vs nz cache = elim (bget_lem pid dev blockno c vs nz cache) [
  | inl (e, _) ↦ subst (Gives vs) (sym e) tt
  | inr (b, c1, e, f) ↦ subst (Gives vs) (sym e) (Gives-lock_buf pid b c1 vs f.below f.cache)
]

transfer-IsCache :
    (b : ℕ) (c : Bcache) (d : Memdisk) (vs : List ℕ)
    → b < nbuf
    → IsCache c vs
    → IsCache (transfer b c d).0 vs
unfolding transfer
transfer-IsCache b c d vs lt cache = elim (Bool-cases (c.buf b).dirty) [
  | inl dirty ↦ rw dirty (
      same_block-IsCache c vs b (record (c.buf b) { dirty = false; valid = true }) cache lt refl
        refl)
  | inr clean ↦ rw clean (
      same_block-IsCache c vs b
        (record (c.buf b) { dirty = false; bytes = d.block (c.buf b).blockno; valid = true }) cache
        lt refl refl)
]

Leaves-iderw :
    (pid b : ℕ) (c : Bcache) (d : Memdisk) (vs : List ℕ)
    → b < nbuf
    → IsCache c vs
    → Leaves vs (iderw pid b c d)
unfolding iderw
Leaves-iderw pid b c d vs lt cache = elim (Bool-cases (bad_request pid (c.buf b) d)) [
  | inl bad ↦ rw (bad, iderw) tt
  | inr good ↦ rw (good, iderw) (transfer-IsCache b c d vs lt cache)
]

Leaves-fill :
    (pid b : ℕ) (c : Bcache) (d : Memdisk) (vs : List ℕ)
    → b < nbuf
    → IsCache c vs
    → Leaves vs (fill pid b c d)
unfolding fill
Leaves-fill pid b c d vs lt cache = elim (Bool-cases (c.buf b).valid) [
  | inl valid ↦ rw (valid, fill) cache
  | inr stale ↦
      let e : fill pid b c d ≡ iderw pid b c d = rw (stale, fill) refl in
      subst (Leaves vs) (sym e) (Leaves-iderw pid b c d vs lt cache)
]

marked-IsCache :
    (b : ℕ) (c : Bcache) (vs : List ℕ)
    → b < nbuf
    → IsCache c vs
    → IsCache (set_buf b (record (c.buf b) { dirty = true }) c) vs
marked-IsCache b c vs lt cache =
    same_block-IsCache c vs b (record (c.buf b) { dirty = true }) cache lt refl refl

Leaves-bwrite_buf :
    (pid b : ℕ) (c : Bcache) (d : Memdisk) (vs : List ℕ)
    → b < nbuf
    → IsCache c vs
    → Leaves vs (bwrite_buf pid b c d)
unfolding bwrite_buf
Leaves-bwrite_buf pid b c d vs lt cache = elim (Bool-cases (holds_lock pid (c.buf b).lock)) [
  | inr free ↦ rw (free, bwrite_buf) tt
  | inl held ↦
      rw (held, bwrite_buf)
        (Leaves-iderw pid b (set_buf b (record (c.buf b) { dirty = true }) c) d vs lt
          (marked-IsCache b c vs lt cache))
]

-- The cache has some order.
abbrev pub IsOrdered : Bcache → Type 0
IsOrdered c = (vs : List ℕ) × IsCache c vs

abbrev Orders : Option Bcache → Type 0
Orders none = Unit
Orders (some c) = IsOrdered c

Orders-brelse :
    (pid b : ℕ) (c : Bcache) (vs : List ℕ) → b < nbuf → IsCache c vs → Orders (brelse pid b c)
Orders-brelse pid b c vs lt cache = elim (brelse_lem pid b c vs cache lt) [
  | inl (_, e) ↦ subst Orders (sym e) tt
  | inr (_, (c', e, r)) ↦ subst Orders (sym e) (elim r.order [
    | inl (_, same) ↦ (vs, same)
    | inr (_, (us, ws, _, front)) ↦ (b ∷ us ++ ws, front)
  ])
]

-- Whatever the calls and the waits between them, from `binit` on each of the thirty buffers is in the list
-- once, linked in both directions, and no two buffers are for the same block of a device.
pub Reach-IsOrdered : {c : Bcache} → Reach c → IsOrdered c
Reach-IsOrdered (starts c z) = (down_from nbuf, binit-IsCache c z)
Reach-IsOrdered (gets {c} pid dev blockno b r nz e) =
    let (vs, cache) = Reach-IsOrdered r in
    (vs, subst (Gives vs) e (Gives-bget pid dev blockno c vs nz cache))
Reach-IsOrdered (blocks {c} pid dev blockno b r nz e) =
    let (vs, cache) = Reach-IsOrdered r in
    (vs, subst (Gives vs) e (Gives-bget pid dev blockno c vs nz cache))
Reach-IsOrdered (wakes {c} pid b r lt e) =
    let (vs, cache) = Reach-IsOrdered r in
    (vs, subst (Gives vs) e (Gives-lock_buf pid b c vs lt cache))
Reach-IsOrdered (fills {c} d d' pid b r lt e) =
    let (vs, cache) = Reach-IsOrdered r in
    (vs, subst (Leaves vs) e (Leaves-fill pid b c d vs lt cache))
Reach-IsOrdered (writes {c} d d' pid b r lt e) =
    let (vs, cache) = Reach-IsOrdered r in
    (vs, subst (Leaves vs) e (Leaves-bwrite_buf pid b c d vs lt cache))
Reach-IsOrdered (marks {c} b r lt) =
    let (vs, cache) = Reach-IsOrdered r in (vs, marked-IsCache b c vs lt cache)
Reach-IsOrdered (releases {c} pid b r lt e) =
    let (vs, cache) = Reach-IsOrdered r in subst Orders e (Orders-brelse pid b c vs lt cache)
