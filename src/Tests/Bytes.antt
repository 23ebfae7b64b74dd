-- ===== src/Tests/Bytes.antt =====
-- The theorems on byte strings, pipes and free pages, at small inputs.
use p2b.Prelude.{
  ℕ, ◌+◌, ◌-◌, ◌%◌, ◌≡◌, refl, true, false, ◌&&◌, List, [], ◌∷◌, arith, ◌==◌, ltb, leb,
  if◌then◌else◌, inl,
}
use p2b.StringOps.Copy.{CopiedString, safestrcpy_lem}
use p2b.StringOps.{safestrcpy, Memory, memmove}
use p2b.StringOps.Move.{memmove_lem}
use p2b.Pipe.{Pipe, new_pipe, pipewrite}
use p2b.Pipe.Queue.{Holds}
use p2b.Pipe.Write.{WriteMeans, pipewrite_lem}
use p2b.Kalloc.{Bounds, Kmem}
use p2b.Kalloc.Free.{FreeList}

-- Address `a` holds `a`, as a byte.
abbrev ramp : Memory
ramp a = a % 256

-- The ranges [10, 15) and [12, 17) overlap.
memmove_lem_example :
    memmove 12 10 5 ramp 14
    ≡ (if leb 12 14 && ltb 14 (12 + 5) then ramp (10 + (14 - 12)) else ramp 14)
memmove_lem_example = memmove_lem 12 10 5 ramp 14

-- Ten bytes of a longer string.
safestrcpy_lem_example : CopiedString 4 100 10 ramp (safestrcpy 4 100 (10 + 1) ramp)
safestrcpy_lem_example = safestrcpy_lem 4 100 10 ramp (omega arith) (inl (omega arith))

abbrev fresh_pipe : Pipe
fresh_pipe = new_pipe (λ i. 9)

-- Two bytes are in, and the counters have just wrapped.
abbrev wrapped : Pipe
wrapped = record fresh_pipe {
  contents = λ i. if i == 511 then 70 else 71;
  nread = 4294967295;
  nwrite = 1;
}

wrapped-Holds : Holds wrapped (70 ∷ 71 ∷ [])
wrapped-Holds = record { reads = omega arith; room = omega arith; writes = refl; bytes = refl }

pipewrite_lem_example :
    WriteMeans false true (70 ∷ 71 ∷ []) (5 ∷ 6 ∷ []) (pipewrite false (5 ∷ 6 ∷ []) wrapped)
pipewrite_lem_example = pipewrite_lem false (5 ∷ 6 ∷ []) (70 ∷ 71 ∷ []) wrapped-Holds

-- The kernel ends at 1000, and the memory behind it at 16 pages.
abbrev small_ram : Bounds
small_ram = record { kernel_end = 1000; phystop = 65536 }

abbrev one_free : Kmem
one_free = record { use_lock = true; freelist = 4096; next = λ _. 0; filled = λ _. false }

abbrev pages : List ℕ
pages = 4096 ∷ []

one_free-FreeList : FreeList one_free (4096 ∷ [])
one_free-FreeList = (refl, omega arith, tt, refl)
