-- ===== src/Log.antt =====
-- log.c: the redo log of the file system. A block is its array of 32-bit words, so the header block
-- holds `n` in word 0 and `block[i]` in word `i + 1`. A buffer of the cache is what `bread` returns;
-- it differs from the disk until `bwrite`. `left` is the number of writes that reach the disk before
-- the power fails, so `disk` at the end of a run is what the machine finds when it boots again.
pub mod Install
pub mod Append
pub mod Commit
pub mod Crash
pub mod Reserve
use p2b.Prelude.{
  ℕ, ◌+◌, ◌-◌, ◌*◌, ◌%◌, ◌^◌, Bool, true, false, ◌||◌, Option, none, some, ◌==◌, ltb, leb,
  if◌then◌else◌, update, for_range, find_first,
}

abbrev pub Block : Type 0
Block = ℕ → ℕ

abbrev pub log_size : ℕ
log_size = 30

abbrev pub max_op_blocks : ℕ
max_op_blocks = 10

-- `struct log`, its header included. `dev` is the one device.
pub record Log : Type 0 where
  pub start : ℕ
  pub size : ℕ
  pub outstanding : ℕ
  pub committing : Bool
  pub n : ℕ
  pub block : ℕ → ℕ

pub record Store : Type 0 where
  pub cache : ℕ → Block
  pub disk : ℕ → Block
  pub left : ℕ
  pub dirty : ℕ → Bool

-- `iderw` clears B_DIRTY when it has written the buffer.
abbrev pub bwrite : ℕ → Block → Store → Store
bwrite b v s = record {
  cache = update s.cache b v;
  disk = if s.left == 0 then s.disk else update s.disk b v;
  left = s.left - 1;
  dirty = update s.dirty b false;
}

abbrev pub install_block : Log → ℕ → Store → Store
install_block l tail s = bwrite (l.block tail) (s.cache (l.start + tail + 1)) s

pub install_trans : Log → Store → Store
install_trans l s = for_range l.n 0 (install_block l) s

-- The loops of `read_head` and `write_head` copy `block[0..n)`.
read_blocks : Block → (n : ℕ) → (ℕ → ℕ) → ℕ → ℕ
read_blocks b n old = for_range n 0 (λ i f. update f i (b (i + 1))) old

pub read_head : Log → Store → Log
unfolding read_blocks
read_head l s = let b = s.cache l.start in record l { n = b 0; block = read_blocks b (b 0) l.block }

pub header_block : Log → Block → Block
header_block l b = for_range l.n 0 (λ i c. update c (i + 1) (l.block i)) (update b 0 l.n)

pub write_head : Log → Store → Store
write_head l s = bwrite l.start (header_block l (s.cache l.start)) s

pub recover_from_log : Log → Store → Log × Store
recover_from_log l s =
    let l1 = read_head l s in
    let l2 = record l1 { n = 0 } in (l2, write_head l2 (install_trans l1 s))

abbrev pub log_block : Log → ℕ → Store → Store
log_block l tail s = bwrite (l.start + tail + 1) (s.cache (l.block tail)) s

pub write_log : Log → Store → Store
write_log l s = for_range l.n 0 (log_block l) s

pub commit : Log → Store → Log × Store
commit l s =
    if ltb 0 l.n
    then (let l' = record l { n = 0 } in
        (l', write_head l' (install_trans l (write_head l (write_log l s)))))
    else (l, s)

-- The machine boots: the cache is read from the disk anew. `left` writes go through this time.
abbrev pub reboot : (left : ℕ) → Store → Store
reboot left s = record { cache = s.disk; disk = s.disk; left = left; dirty = λ _. false }

-- `initlog`, on a fresh `struct log`. `start` and `size` are read from the superblock.
pub initlog : (start size : ℕ) → Store → Log × Store
initlog start size s =
    recover_from_log
      (record {
        start = start;
        size = size;
        outstanding = 0;
        committing = false;
        n = 0;
        block = λ _. 0;
      })
      s

-- One pass of the loop of `begin_op`; `none` means that the caller sleeps and tries again.
pub begin_op : Log → Option Log
begin_op l =
    if l.committing
    then none
    else if ltb log_size (l.n + (l.outstanding + 1) * max_op_blocks)
    then none
    else some (record l { outstanding = l.outstanding + 1 })

-- log.outstanding - 1, of an `int`.
abbrev pub fewer : Log → ℕ
fewer l = (l.outstanding + 2 ^ 32 - 1) % 2 ^ 32

-- `none` is a panic. A state that commits has `committing` set while `commit` runs.
pub end_op : Log → Store → Option (Log × Store)
end_op l s =
    if l.committing
    then none
    else if fewer l == 0
    then (let (l', s') = commit (record l { outstanding = 0; committing = true }) s in
        some (record l' { committing = false }, s'))
    else some (record l { outstanding = fewer l }, s)

-- The slot of the log for a block: its own if it has one, or the next.
pub log_slot : Log → ℕ → ℕ
log_slot l b = elim (find_first (λ c. c == b) l.n 0 l.block) [ none ↦ l.n | some i ↦ i ]

-- `none` is a panic.
pub log_write : (blockno : ℕ) → Log → Store → Option (Log × Store)
unfolding log_slot
log_write blockno l s =
    if leb log_size l.n || leb (l.size - 1) l.n
    then none
    else if ltb l.outstanding 1
    then none
    else (let i = log_slot l blockno in
        some (
          record l { block = update l.block i blockno; n = if i == l.n then l.n + 1 else l.n },
          record s { dirty = update s.dirty blockno true },
        ))
