-- ===== src/Log/Reserve.antt =====
-- `begin_op`, `log_write` and `end_op` of log.c: the room that operations reserve.
use p2b.Prelude.{
  ℕ, suc, ◌+◌, ◌-◌, ◌*◌, ◌||◌, leb, ◌<◌, ◌≤◌, ◌≡◌, refl, ◌⊎◌, inl, inr, List, [], ◌∷◌, ◌++◌, All,
  All-append, true, false, none, some, arith, ◌==◌, ltb, if◌then◌else◌, update, length,
  length-append, Bool-cases, find_first, find_first-some, Option-cases,
}
use native.Mathlib.Decide.{dec_lt}
use p2b.Log.{
  Log, Store, log_size, max_op_blocks, commit, begin_op, fewer, end_op, log_slot, log_write,
}

abbrev pub total : List ℕ → ℕ
total [] = 0
total (r ∷ rs) = r + total rs

total-append : (xs ys : List ℕ) → total (xs ++ ys) ≡ total xs + total ys
total-append [] ys = omega arith
total-append (x ∷ xs) ys = omega (arith, total-append xs ys)

abbrev pub IsQuota : ℕ → Type 0
IsQuota r = r ≤ max_op_blocks

total_bound : (rs : List ℕ) → All IsQuota rs → total rs ≤ length rs * max_op_blocks
total_bound [] q = omega arith
total_bound (r ∷ rs) (le, q) = omega (arith, total_bound rs q)

-- `rs` has the number of blocks that each operation under way may still write. The log has room for
-- all of them, and no commit is under way.
pub record HasRoom (l : Log) (rs : List ℕ) : Type 0 where
  pub operations : l.outstanding ≡ length rs
  pub few : l.outstanding ≤ 3
  pub quotas : All IsQuota rs
  pub fits : l.n + total rs ≤ log_size
  pub idle : l.committing ≡ false

All-left : (xs ys : List ℕ) → All IsQuota (xs ++ ys) → All IsQuota xs
All-left [] ys p = tt
All-left (x ∷ xs) ys (h, p) = (h, All-left xs ys p)

All-right : (xs ys : List ℕ) → All IsQuota (xs ++ ys) → All IsQuota ys
All-right [] ys p = p
All-right (x ∷ xs) ys (h, p) = All-right xs ys p

-- One pass of `begin_op` either makes the caller wait, while the log may be too small for another
-- operation besides those under way, or admits it with the right to write ten blocks.
pub begin_op_lem :
    (l : Log) (rs : List ℕ)
    → HasRoom l rs
    → ((begin_op l ≡ none) × (log_size < l.n + (length rs + 1) * max_op_blocks))
      ⊎ ((l' : Log) × (begin_op l ≡ some l') × HasRoom l' (max_op_blocks ∷ rs))
unfolding begin_op
begin_op_lem l rs h = elim (Bool-cases (ltb log_size (l.n + (l.outstanding + 1) * max_op_blocks))) [
  | inl full ↦ inl (ground (arith, h.idle), ground (arith, h.operations))
  | inr free ↦ inr (
    record l { outstanding = l.outstanding + 1 },
    ground (arith, h.idle),
    record {
      operations = omega (arith, h.operations);
      few = ground arith;
      quotas = (omega arith, h.quotas);
      fits = ground (arith, h.operations, total_bound rs h.quotas);
      idle = h.idle;
    },
  )
]

log_slot-bound : (l : Log) (b : ℕ) → (log_slot l b ≡ l.n) ⊎ (log_slot l b < l.n)
unfolding log_slot
log_slot-bound l b = elim (Option-cases (find_first (λ c. c == b) l.n 0 l.block)) [
  | inl miss ↦ inl (rw (miss, log_slot) refl)
  | inr (i, hit) ↦
      let first = find_first-some (λ c. c == b) l.n 0 l.block i hit in
      inr (rw (hit, log_slot) (omega (arith, first.upper)))
]

-- `log_write` refuses a block when the log is full but for one block.
log_write-full :
    (blockno : ℕ) (l : Log) (s : Store) → l.size ≤ l.n + 1 → log_write blockno l s ≡ none
unfolding log_write
log_write-full blockno l s full =
    let stop : (leb log_size l.n || leb (l.size - 1) l.n) ≡ true = ground arith in
    rw (stop, log_write) refl

log_write-room :
    (blockno : ℕ) (l : Log) (s : Store) (xs ys : List ℕ) (r : ℕ)
    → HasRoom l (xs ++ suc r ∷ ys)
    → l.n + 1 < l.size
    → (l' : Log) × (s' : Store) × (log_write blockno l s ≡ some (l', s'))
      × HasRoom l' (xs ++ r ∷ ys)
      × (l'.block (log_slot l blockno) ≡ blockno)
      × ((l'.n ≡ l.n) ⊎ ((log_slot l blockno ≡ l.n) × (l'.n ≡ l.n + 1)))
unfolding log_write
log_write-room blockno l s xs ys r h room =
    let sum = total-append xs (suc r ∷ ys) in
    let sum' = total-append xs (r ∷ ys) in
    let len = length-append xs (suc r ∷ ys) in
    let len' = length-append xs (r ∷ ys) in
    let fits = h.fits in
    let i = log_slot l blockno in
    let l' = record l { block = update l.block i blockno; n = if i == l.n then l.n + 1 else l.n } in
    let (le, rest) = All-right xs (suc r ∷ ys) h.quotas in
    (
      l',
      record s { dirty = update s.dirty blockno true },
      ground (arith, h.operations),
      record {
        operations = omega (arith, h.operations);
        few = h.few;
        quotas =
            All-append IsQuota xs (r ∷ ys) (All-left xs (suc r ∷ ys) h.quotas) (omega arith, rest);
        fits = ground (arith, log_slot-bound l blockno);
        idle = h.idle;
      },
      ground arith,
      ground arith,
    )

-- Let an operation not have used up its ten blocks. If the log has two blocks more than are in use, it
-- can write one more: `log_write` does not panic, the log has room for what is left, and a new slot is
-- taken only for a block that has none. If not, `log_write` panics, although the block was reserved:
-- with the 30 blocks that mkfs gives the log, when 29 are in use.
pub log_write_lem :
    (blockno : ℕ) (l : Log) (s : Store) (xs ys : List ℕ) (r : ℕ)
    → HasRoom l (xs ++ suc r ∷ ys)
    → ((l.n + 1 < l.size)
        × ((l' : Log) × (s' : Store) × (log_write blockno l s ≡ some (l', s'))
            × HasRoom l' (xs ++ r ∷ ys)
            × (l'.block (log_slot l blockno) ≡ blockno)
            × ((l'.n ≡ l.n) ⊎ ((log_slot l blockno ≡ l.n) × (l'.n ≡ l.n + 1)))))
      ⊎ ((l.size ≤ l.n + 1) × (log_write blockno l s ≡ none))
log_write_lem blockno l s xs ys r h = elim (dec_lt (l.n + 1) l.size) [
  | yes room ↦ inl (room, log_write-room blockno l s xs ys r h room)
  | no full ↦ inr (omega arith, log_write-full blockno l s (omega arith))
]

-- What `commit` leaves of the log.
commit-empty :
    (l : Log) (s : Store)
    → ((commit l s).0.n ≡ 0)
      × ((commit l s).0.outstanding ≡ l.outstanding)
      × ((commit l s).0.size ≡ l.size)
unfolding commit
commit-empty l s = ground arith

-- The end of an operation does not panic; the log has room for what the others may still write, and
-- it is empty if there are none.
pub end_op_lem :
    (l : Log) (s : Store) (xs ys : List ℕ) (r : ℕ)
    → HasRoom l (xs ++ r ∷ ys)
    → (l' : Log) × (s' : Store) × (end_op l s ≡ some (l', s'))
      × HasRoom l' (xs ++ ys)
      × ((0 < length (xs ++ ys)) ⊎ (l'.n ≡ 0))
unfolding end_op
end_op_lem l s xs ys r h =
    let sum = total-append xs (r ∷ ys) in
    let sum' = total-append xs ys in
    let len = length-append xs (r ∷ ys) in
    let len' = length-append xs ys in
    let quotas : All IsQuota (xs ++ ys) =
      All-append IsQuota xs ys (All-left xs (r ∷ ys) h.quotas) (All-right xs (r ∷ ys) h.quotas).1 in
    let bound = total_bound (xs ++ ys) quotas in
    elim (Bool-cases (fewer l == 0)) [
      | inl last ↦
          let l1 = record l { outstanding = 0; committing = true } in
          let (empty, out, size) = commit-empty l1 s in
          (
            record (commit l1 s).0 { committing = false },
            (commit l1 s).1,
            rw (h.idle, last) refl,
            record {
              operations = ground (arith, h.operations, h.few);
              few = omega arith;
              quotas = quotas;
              fits = ground (arith, h.operations, h.few);
              idle = refl;
            },
            inr empty,
          )
      | inr more ↦ (
        record l { outstanding = fewer l },
        s,
        rw (h.idle, more) refl,
        record {
          operations = ground (arith, h.operations, h.few);
          few = ground (arith, h.few, h.operations);
          quotas = quotas;
          fits = omega (arith, h.fits);
          idle = h.idle;
        },
        inl (ground (arith, h.operations)),
      )
    ]
