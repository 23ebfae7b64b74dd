-- ===== src/Pipe/Read.antt =====
-- `piperead` of pipe.c, on the queue.
use p2b.Prelude.{ℕ, ◌≡◌, Bool, true, false, List, [], take, drop}
use p2b.Pipe.{Pipe, Readout, got, interrupted, waits}
use p2b.Pipe.Queue.{Holds}

-- The bytes are the first `n` of the queue, and the pipe holds the rest.
pub record ReadOff (n : ℕ) (q : List ℕ) (out : List ℕ × Pipe) : Type 0 where
  pub bytes : out.0 ≡ take n q
  pub rest : Holds out.1 (drop n q)

-- What `piperead` comes to on the queue `q`.
abbrev pub ReadMeans : (killed : Bool) (n : ℕ) → Pipe → List ℕ → Readout → Type 0
ReadMeans killed n p q (got cs p') = ReadOff n q (cs, p')
ReadMeans killed n p q interrupted = (q ≡ []) × (p.writeopen ≡ true) × (killed ≡ true)
ReadMeans killed n p q waits = (q ≡ []) × (p.writeopen ≡ true) × (killed ≡ false)
