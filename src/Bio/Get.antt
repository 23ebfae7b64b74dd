-- ===== src/Bio/Get.antt =====
-- `bget` of bio.c: a block has one buffer at most, and the buffer used least recently is recycled.
use p2b.Prelude.{
  update_here, update_other, ℕ, ◌<◌, ◌≡◌, ◌≢◌, refl, sym, ◌∙◌, ◌⊎◌, inl, inr, Bool, true, false,
  ◌&&◌, not, none, some, List, length, arith, ◌==◌, update, Bool-cases, Option-cases,
}
use mathlib.Core.Path.{subst}
use native.Mathlib.Decide.{ℕ_discrete}
use p2b.Bio.{
  nbuf, head, Buf, Bcache, set_buf, walk, is_block, use_again, recycle, no_buffers, lock_buf,
  get_idle, bget,
}
use p2b.Bio.Ring.{IsRing}
use p2b.Bio.Walk.{
  rev, IsIn, IsIn-rev, IsIn-rev_back, length-rev, find_in, find_in-some, find_in-none, NotIn-rev,
  Chain-rev, walk_lem,
}

-- No two buffers are for one block of a device; device 0 is none.
abbrev pub IsUnique : (ℕ → Buf) → Type 0
IsUnique f =
    (a b dev blockno : ℕ)
    → a < nbuf
    → b < nbuf
    → dev ≢ 0
    → is_block dev blockno (f a) ≡ true
    → is_block dev blockno (f b) ≡ true
    → a ≡ b

-- The buffers in the order of their use, each once, the most recent first.
pub record IsCache (c : Bcache) (vs : List ℕ) : Type 0 where
  pub ring : IsRing c vs
  pub size : length vs ≡ nbuf
  pub members : (b : ℕ) → IsIn b vs → b < nbuf
  pub complete : (b : ℕ) → b < nbuf → IsIn b vs
  pub unique : IsUnique c.buf

-- Nobody uses the buffer, and it does not wait to be written.
abbrev pub unclaimed : Buf → Bool
unclaimed x = (x.refcnt == 0) && not x.dirty

-- Buffer `b` is for the block, and the others are as before.
pub record IsFound (dev blockno b : ℕ) (c c1 : Bcache) (vs : List ℕ) : Type 0 where
  pub below : b < nbuf
  pub cache : IsCache c1 vs
  pub block : is_block dev blockno (c1.buf b) ≡ true
  pub others : (x : ℕ) → x ≢ b → c1.buf x ≡ c.buf x
  pub how :
      ((is_block dev blockno (c.buf b) ≡ true) × (c1.buf b ≡ use_again (c.buf b)))
      ⊎ (((x : ℕ) → x < nbuf → is_block dev blockno (c.buf x) ≡ false)
          × (find_in (λ x. unclaimed (c.buf x)) (rev vs) ≡ some b)
          × (c1.buf b ≡ recycle dev blockno (c.buf b)))

-- A buffer gets new fields, and is the only one for its block.
module _ (c : Bcache) (vs : List ℕ) (cache : IsCache c vs) (b : ℕ) (below : b < nbuf) (x : Buf)
    (alone : (a dev blockno : ℕ)
      → a < nbuf
      → a ≢ b
      → dev ≢ 0
      → is_block dev blockno x ≡ true
      → is_block dev blockno (c.buf a) ≡ false) where
  one_of :
      (a dev blockno : ℕ)
      → a < nbuf
      → dev ≢ 0
      → is_block dev blockno (update c.buf b x b) ≡ true
      → is_block dev blockno (update c.buf b x a) ≡ true
      → a ≡ b
  one_of a dev blockno lt nz hb ha = elim (ℕ_discrete a b) [
    | yes e ↦ e
    | no ne ↦
        let old = subst (λ y. is_block dev blockno y ≡ true) (update_other c.buf b x a ne) ha in
        let new = subst (λ y. is_block dev blockno y ≡ true) (update_here c.buf b x) hb in
        absurd (ground (arith, alone a dev blockno lt ne nz new))
  ]

  IsUnique-update : IsUnique (update c.buf b x)
  IsUnique-update p q dev blockno hp hq nz ep eq = elim (ℕ_discrete p b) [
    | yes pb ↦
        pb
        ∙ sym (
            one_of q dev blockno hq nz
              (subst (λ i. is_block dev blockno (update c.buf b x i) ≡ true) pb ep) eq)
    | no pn ↦ elim (ℕ_discrete q b) [
      | yes qb ↦
          one_of p dev blockno hp nz
            (subst (λ i. is_block dev blockno (update c.buf b x i) ≡ true) qb eq) ep
          ∙ sym qb
      | no qn ↦
          cache.unique p q dev blockno hp hq nz
            (subst (λ y. is_block dev blockno y ≡ true) (update_other c.buf b x p pn) ep)
            (subst (λ y. is_block dev blockno y ≡ true) (update_other c.buf b x q qn) eq)
    ]
  ]

  pub set_buf-IsCache : IsCache (set_buf b x c) vs
  set_buf-IsCache = record {
    ring = record {
      chain = cache.ring.chain;
      away = cache.ring.away;
      distinct = cache.ring.distinct;
    };
    size = cache.size;
    members = cache.members;
    complete = cache.complete;
    unique = IsUnique-update;
  }

-- A change that keeps the block of a buffer.
pub same_block-IsCache :
    (c : Bcache) (vs : List ℕ) (b : ℕ) (x : Buf)
    → IsCache c vs
    → b < nbuf
    → x.dev ≡ (c.buf b).dev
    → x.blockno ≡ (c.buf b).blockno
    → IsCache (set_buf b x c) vs
same_block-IsCache c vs b x cache lt ed eb =
    set_buf-IsCache c vs cache b lt x (λ a dev blockno la ne nz h.
      let hb : is_block dev blockno (c.buf b) ≡ true = rw (sym ed, sym eb) h in
      elim (Bool-cases (is_block dev blockno (c.buf a))) [
        | inl ha ↦ absurd (ne (cache.unique a b dev blockno la lt nz ha hb))
        | inr no_hit ↦ no_hit
      ])

is_block-fields :
    (dev blockno : ℕ) (x : Buf)
    → is_block dev blockno x ≡ true
    → (x.dev ≡ dev) × (x.blockno ≡ blockno)
is_block-fields dev blockno x h = (ground arith, ground arith)

module _ (pid dev blockno : ℕ) (c : Bcache) (vs : List ℕ) (nz : dev ≢ 0)
    (cache : IsCache c vs) where
  hit_lem :
      (b : ℕ)
      → find_in (λ x. is_block dev blockno (c.buf x)) vs ≡ some b
      → IsFound dev blockno b c (set_buf b (use_again (c.buf b)) c) vs
  hit_lem b e =
      let (i, h) = find_in-some (λ x. is_block dev blockno (c.buf x)) vs b e in
      let lt = cache.members b i in
      record {
        below = lt;
        cache = same_block-IsCache c vs b (use_again (c.buf b)) cache lt refl refl;
        block =
            subst (λ y. is_block dev blockno y ≡ true)
              (sym (update_here c.buf b (use_again (c.buf b)))) h;
        others = update_other c.buf b (use_again (c.buf b));
        how = inl (h, update_here c.buf b (use_again (c.buf b)));
      }

  nobody :
      find_in (λ x. is_block dev blockno (c.buf x)) vs ≡ none
      → (x : ℕ) → x < nbuf
      → is_block dev blockno (c.buf x) ≡ false
  nobody e x lt = find_in-none (λ x. is_block dev blockno (c.buf x)) vs e x (cache.complete x lt)

  recycle_lem :
      (b : ℕ)
      → find_in (λ x. is_block dev blockno (c.buf x)) vs ≡ none
      → find_in (λ x. unclaimed (c.buf x)) (rev vs) ≡ some b
      → IsFound dev blockno b c (set_buf b (recycle dev blockno (c.buf b)) c) vs
  recycle_lem b miss e =
      let (i, h) = find_in-some (λ x. unclaimed (c.buf x)) (rev vs) b e in
      let lt = cache.members b (IsIn-rev_back b vs i) in
      let x = recycle dev blockno (c.buf b) in
      record {
        below = lt;
        cache = set_buf-IsCache c vs cache b lt x (λ a d k la ne dz hx.
            let (ed, ek) = is_block-fields d k x hx in
            subst (λ q. is_block q k (c.buf a) ≡ false) ed
              (subst (λ q. is_block dev q (c.buf a) ≡ false) ek (nobody miss a la)));
        block =
            subst (λ y. is_block dev blockno y ≡ true) (sym (update_here c.buf b x)) (ground arith);
        others = update_other c.buf b x;
        how = inr (nobody miss, e, update_here c.buf b x);
      }

  -- Let each buffer be in the list once and no two be for one block. `bget` of a block of a device finds
  -- the buffer for the block, with a user more, or else recycles the idle buffer used least recently, not
  -- valid, with one user; it takes the lock of the buffer or waits for it. No other buffer changes, the
  -- order is the same, and no two are for one block. It panics just when no buffer is for the block and
  -- none is idle.
  pub bget_lem :
      ((bget pid dev blockno c ≡ no_buffers)
        × ((x : ℕ)
            → x < nbuf
            → (is_block dev blockno (c.buf x) ≡ false) × (unclaimed (c.buf x) ≡ false)))
      ⊎ ((b : ℕ) × (c1 : Bcache) × (bget pid dev blockno c ≡ lock_buf pid b c1)
          × IsFound dev blockno b c c1 vs)
  unfolding bget get_idle
  bget_lem = elim (Option-cases (find_in (λ x. is_block dev blockno (c.buf x)) vs)) [
    | inr (b, hit) ↦
        inr (b, set_buf b (use_again (c.buf b)) c, rw (forward ∙ hit, bget) refl, hit_lem b hit)
    | inl miss ↦ elim (Option-cases (find_in (λ x. unclaimed (c.buf x)) (rev vs))) [
      | inr (b, idle) ↦ inr (
        b,
        set_buf b (recycle dev blockno (c.buf b)) c,
        rw (forward ∙ miss, backward ∙ idle, bget, get_idle) refl,
        recycle_lem b miss idle,
      )
      | inl busy ↦ inl (
        rw (forward ∙ miss, backward ∙ busy, bget, get_idle) refl,
        λ x lt. (
          nobody miss x lt,
          find_in-none (λ x. unclaimed (c.buf x)) (rev vs) busy x
              (IsIn-rev x vs (cache.complete x lt)),
        ),
      )
    ]
  ]
    where
      forward :
          walk 31 c.next (λ b. is_block dev blockno (c.buf b)) (c.next head)
          ≡ find_in (λ x. is_block dev blockno (c.buf x)) vs
      forward =
          walk_lem 31 (λ x. is_block dev blockno (c.buf x)) c.next c.prev head vs
            (omega (arith, cache.size)) cache.ring.away cache.ring.chain

      backward :
          walk 31 c.prev (λ b. unclaimed (c.buf b)) (c.prev head)
          ≡ find_in (λ x. unclaimed (c.buf x)) (rev vs)
      backward =
          walk_lem 31 (λ x. unclaimed (c.buf x)) c.prev c.next head (rev vs)
            (omega (arith, cache.size, length-rev vs)) (NotIn-rev head vs cache.ring.away)
            (Chain-rev c.next c.prev head vs head cache.ring.chain)
