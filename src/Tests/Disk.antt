-- ===== src/Tests/Disk.antt =====
-- The theorems on the log, for a transaction of two blocks.
use p2b.Prelude.{
  ℕ, some, length, ◌≡◌, ◌≤◌, refl, false, List, [], ◌∷◌, arith, ◌==◌, ◌+◌, ◌<◌, ◌⊎◌, if◌then◌else◌,
  none,
}
use p2b.Log.{Log, Store, commit, end_op, log_slot, log_write}
use p2b.Log.Reserve.{HasRoom, log_write_lem, end_op_lem}
use p2b.Log.Commit.{Old, New}
use p2b.Log.Crash.{boot, boots, crash_atomic}

-- The log lies in the blocks 2 to 4; the transaction writes the blocks 50 and 60.
abbrev two_blocks : Log
two_blocks = record {
  start = 2;
  size = 30;
  outstanding = 0;
  committing = false;
  n = 2;
  block = λ i. if i == 0 then 50 else 60;
}

-- The power fails after four writes: the two log blocks, the header and one home block.
abbrev failing : Store
failing = record { cache = λ b w. b + 7; disk = λ b w. 0; left = 4; dirty = λ _. false }

-- A boot that fails at its second write, one that fails at once, and a whole one.
crash_atomic_example :
    let after = boot 2 30 3 (boots 2 30 (1 ∷ 0 ∷ []) (commit two_blocks failing).1) in
    ((4 ≤ 2) × Old two_blocks failing after.disk) ⊎ ((2 < 4) × New two_blocks failing after.disk)
crash_atomic_example =
    crash_atomic two_blocks failing 30 (1 ∷ 0 ∷ []) 3 (λ u h. ground arith) refl (omega arith)

-- Two operations are under way: one may write eight blocks more, the other ten.
abbrev two_ops : Log
two_ops = record two_blocks { outstanding = 2; size = 30 }

abbrev quotas : List ℕ
quotas = 8 ∷ 10 ∷ []

two_ops-HasRoom : HasRoom two_ops quotas
two_ops-HasRoom = record {
  operations = refl;
  few = omega arith;
  quotas = (omega arith, (omega arith, tt));
  fits = omega arith;
  idle = refl;
}

log_write_lem_example :
    ((2 + 1 < 30)
      × ((l' : Log) × (s' : Store) × (log_write 70 two_ops failing ≡ some (l', s'))
          × HasRoom l' (7 ∷ 10 ∷ [])
          × (l'.block (log_slot two_ops 70) ≡ 70)
          × ((l'.n ≡ 2) ⊎ ((log_slot two_ops 70 ≡ 2) × (l'.n ≡ 2 + 1)))))
    ⊎ ((30 ≤ 2 + 1) × (log_write 70 two_ops failing ≡ none))
log_write_lem_example = log_write_lem 70 two_ops failing [] (10 ∷ []) 7 two_ops-HasRoom

abbrev others : List ℕ
others = 10 ∷ []

end_op_lem_example :
    (l' : Log) × (s' : Store) × (end_op two_ops failing ≡ some (l', s'))
    × HasRoom l' others
    × ((0 < length others) ⊎ (l'.n ≡ 0))
end_op_lem_example = end_op_lem two_ops failing [] others 8 two_ops-HasRoom
