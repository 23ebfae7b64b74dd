-- ===== src/Tests/Buffers.antt =====
-- The theorems on the buffer cache, for the cache after `binit`.
use p2b.Prelude.{ℕ, ◌<◌, ◌≡◌, refl, ◌⊎◌, true, false, none, some, arith}
use p2b.Bio.{nbuf, Bcache, set_buf, is_block, no_buffers, lock_buf, bget, holds_lock, brelse, binit}
use p2b.Bio.Get.{unclaimed, IsCache, IsFound, bget_lem, same_block-IsCache}
use p2b.Bio.Release.{IsReleased, brelse_lem}
use p2b.Bio.Init.{down_from, binit-IsCache}
use p2b.Bio.Reach.{starts, marks, IsOrdered, Reach-IsOrdered}

abbrev zeroed : Bcache
zeroed = record {
  buf = λ b. record {
    valid = false;
    dirty = false;
    dev = 0;
    blockno = 0;
    lock = none;
    refcnt = 0;
    bytes = λ i. 0;
  };
  next = λ b. 0;
  prev = λ b. 0;
}

after_binit-IsCache : IsCache (binit zeroed) (down_from nbuf)
after_binit-IsCache = binit-IsCache zeroed (λ b lt. refl)

bget_lem_example :
    ((bget 3 1 7 (binit zeroed) ≡ no_buffers)
      × ((x : ℕ)
          → x < nbuf
          → (is_block 1 7 ((binit zeroed).buf x) ≡ false)
            × (unclaimed ((binit zeroed).buf x) ≡ false)))
    ⊎ ((b : ℕ) × (c1 : Bcache) × (bget 3 1 7 (binit zeroed) ≡ lock_buf 3 b c1)
        × IsFound 1 7 b (binit zeroed) c1 (down_from nbuf))
bget_lem_example = bget_lem 3 1 7 (binit zeroed) (down_from nbuf) (omega arith) after_binit-IsCache

-- Buffer 5, locked by process 3, which is its only user.
abbrev in_use : Bcache
in_use = set_buf 5 (record ((binit zeroed).buf 5) { lock = some 3; refcnt = 1 }) (binit zeroed)

in_use-IsCache : IsCache in_use (down_from nbuf)
in_use-IsCache =
    same_block-IsCache (binit zeroed) (down_from nbuf) 5
      (record ((binit zeroed).buf 5) { lock = some 3; refcnt = 1 }) after_binit-IsCache
      (omega arith) refl refl

brelse_lem_example :
    ((holds_lock 3 (in_use.buf 5).lock ≡ false) × (brelse 3 5 in_use ≡ none))
    ⊎ ((holds_lock 3 (in_use.buf 5).lock ≡ true)
        × ((c' : Bcache) × (brelse 3 5 in_use ≡ some c') × IsReleased 5 in_use c' (down_from nbuf)))
brelse_lem_example = brelse_lem 3 5 in_use (down_from nbuf) in_use-IsCache (omega arith)

Reach-IsOrdered_example :
    IsOrdered (set_buf 4 (record ((binit zeroed).buf 4) { dirty = true }) (binit zeroed))
Reach-IsOrdered_example = Reach-IsOrdered (marks 4 (starts zeroed (λ b lt. refl)) (omega arith))
