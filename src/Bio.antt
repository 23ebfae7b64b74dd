-- ===== src/Bio.antt =====
-- bio.c: the buffer cache, with the disk in memory of memide.c. A pointer to a buffer is its index, and
-- `head` is the index behind the last. A buffer's sleep lock holds the pid of its owner; the spin lock
-- is the atomicity of each function. B_VALID and B_DIRTY are the fields `valid` and `dirty`.
pub mod Chain
pub mod Ring
pub mod Walk
pub mod Get
pub mod Release
pub mod Init
pub mod Reach
use p2b.Prelude.{
  ℕ, zero, suc, ◌+◌, ◌-◌, ◌%◌, ◌^◌, Bool, true, false, not, ◌&&◌, ◌||◌, Option, none, some, ◌==◌,
  ltb, if◌then◌else◌, update, for_range,
}

-- NBUF
abbrev pub nbuf : ℕ
nbuf = 30

abbrev pub head : ℕ
head = 30

pub record Buf : Type 0 where
  pub valid : Bool
  pub dirty : Bool
  pub dev : ℕ
  pub blockno : ℕ
  pub lock : Option ℕ
  pub refcnt : ℕ
  pub bytes : ℕ → ℕ

pub record Bcache : Type 0 where
  pub buf : ℕ → Buf
  pub next : ℕ → ℕ
  pub prev : ℕ → ℕ

abbrev pub set_buf : (b : ℕ) → Buf → Bcache → Bcache
set_buf b x c = record c { buf = update c.buf b x }

abbrev pub set_next : (b to : ℕ) → Bcache → Bcache
set_next b to c = record c { next = update c.next b to }

abbrev pub set_prev : (b to : ℕ) → Bcache → Bcache
set_prev b to c = record c { prev = update c.prev b to }

-- One round of `binit`.
pub append_buf : ℕ → Bcache → Bcache
append_buf b c =
    let c1 = set_next b (c.next head) c in
    let c2 = set_prev b head c1 in
    let c3 = set_buf b (record (c.buf b) { lock = none }) c2 in
    let c4 = set_prev (c3.next head) b c3 in set_next head b c4

pub binit : Bcache → Bcache
unfolding append_buf
binit c = for_range nbuf 0 append_buf (set_next head head (set_prev head head c))

-- for(b = first; b != &bcache.head; b = link(b)) if(test) return b;
pub walk : (rounds : ℕ) (link : ℕ → ℕ) (test : ℕ → Bool) (b : ℕ) → Option ℕ
walk zero link test b = none
walk (suc n) link test b =
    let rest = walk n link test (link b) in
    if b == head then none else if test b then some b else rest

abbrev pub is_block : (dev blockno : ℕ) → Buf → Bool
is_block dev blockno x = (x.dev == dev) && (x.blockno == blockno)

abbrev pub is_idle : Buf → Bool
is_idle x = (x.refcnt == 0) && not x.dirty

-- `bget` returns a buffer with its lock, or waits for the lock of the buffer that it has counted itself
-- a user of, or panics.
pub data Getting : Type 0 where
  got : ℕ → Bcache → Getting
  waits : ℕ → Bcache → Getting
  no_buffers : Getting

-- acquiresleep(&b->lock)
pub lock_buf : (pid b : ℕ) → Bcache → Getting
lock_buf pid b c = elim (c.buf b).lock [
  | none ↦ got b (set_buf b (record (c.buf b) { lock = some pid }) c)
  | some owner ↦ waits b c
]

abbrev pub use_again : Buf → Buf
use_again x = record x { refcnt = (x.refcnt + 1) % 2 ^ 32 }

abbrev pub recycle : (dev blockno : ℕ) → Buf → Buf
recycle dev blockno x = record x {
  dev = dev;
  blockno = blockno;
  valid = false;
  dirty = false;
  refcnt = 1;
}

pub get_idle : (pid dev blockno : ℕ) → Bcache → Getting
unfolding lock_buf walk
get_idle pid dev blockno c = elim (walk (suc nbuf) c.prev (λ b. is_idle (c.buf b)) (c.prev head)) [
  | none ↦ no_buffers
  | some b ↦ lock_buf pid b (set_buf b (recycle dev blockno (c.buf b)) c)
]

-- There are as many rounds as buffers, and one for the end.
pub bget : (pid dev blockno : ℕ) → Bcache → Getting
unfolding lock_buf walk get_idle
bget pid dev blockno c =
    elim (walk (suc nbuf) c.next (λ b. is_block dev blockno (c.buf b)) (c.next head)) [
      | some b ↦ lock_buf pid b (set_buf b (use_again (c.buf b)) c)
      | none ↦ get_idle pid dev blockno c
    ]

-- holdingsleep(&b->lock)
pub holds_lock : (pid : ℕ) → Option ℕ → Bool
holds_lock pid none = false
holds_lock pid (some owner) = owner == pid

-- memdisk: blocks of bytes.
pub record Memdisk : Type 0 where
  pub disksize : ℕ
  pub block : ℕ → ℕ → ℕ

pub transfer : (b : ℕ) → Bcache → Memdisk → Bcache × Memdisk
transfer b c d =
    let x = c.buf b in
    if x.dirty
    then (
      set_buf b (record x { dirty = false; valid = true }) c,
      record d { block = update d.block x.blockno x.bytes },
    )
    else (set_buf b (record x { bytes = d.block x.blockno; valid = true }) c, d)

-- The panics of `iderw`.
abbrev pub bad_request : (pid : ℕ) → Buf → Memdisk → Bool
bad_request pid x d =
    (not (holds_lock pid x.lock) || (x.valid && not x.dirty))
    || (not (x.dev == 1) || not (ltb x.blockno d.disksize))

pub iderw : (pid b : ℕ) → Bcache → Memdisk → Option (Bcache × Memdisk)
unfolding holds_lock transfer
iderw pid b c d = if bad_request pid (c.buf b) d then none else some (transfer b c d)

-- The rest of `bread`, when `bget` has returned.
pub fill : (pid b : ℕ) → Bcache → Memdisk → Option (Bcache × Memdisk)
unfolding iderw
fill pid b c d = if (c.buf b).valid then some (c, d) else iderw pid b c d

pub bwrite_buf : (pid b : ℕ) → Bcache → Memdisk → Option (Bcache × Memdisk)
unfolding iderw holds_lock
bwrite_buf pid b c d =
    if not (holds_lock pid (c.buf b).lock)
    then none
    else iderw pid b (set_buf b (record (c.buf b) { dirty = true }) c) d

-- b->next->prev = b->prev; b->prev->next = b->next;
pub unlink : ℕ → Bcache → Bcache
unlink b c = let c1 = set_prev (c.next b) (c.prev b) c in set_next (c1.prev b) (c1.next b) c1

-- To the head of the list.
pub push_front : ℕ → Bcache → Bcache
push_front b c =
    let c1 = set_next b (c.next head) c in
    let c2 = set_prev b head c1 in let c3 = set_prev (c2.next head) b c2 in set_next head b c3

-- `brelse`, with the lock free again; a count that falls below 0 wraps.
pub drop_user : (b : ℕ) → Bcache → Bcache
unfolding unlink push_front
drop_user b c = if (c.buf b).refcnt == 0 then push_front b (unlink b c) else c

abbrev pub less_user : ℕ → ℕ
less_user n = if n == 0 then 4294967295 else n - 1

pub brelse : (pid b : ℕ) → Bcache → Option Bcache
unfolding drop_user holds_lock
brelse pid b c =
    if not (holds_lock pid (c.buf b).lock)
    then none
    else some (
        drop_user b
          (set_buf b (record (c.buf b) { lock = none; refcnt = less_user (c.buf b).refcnt }) c))
