-- ===== src/Pipe.antt =====
-- pipe.c: the ring buffer of a pipe. `nread` and `nwrite` are `uint` counters that wrap at 2 ^ 32, and
-- a byte's place is its count modulo 512. A call that would sleep returns the state in which it does,
-- to be called again for what is left: `woken` processes run in between.
pub mod Queue
pub mod Read
pub mod Write
use p2b.Prelude.{
  ℕ, zero, suc, ◌+◌, ◌-◌, ◌%◌, ◌^◌, Bool, true, false, ◌&&◌, ◌||◌, not, List, [], ◌∷◌, ◌==◌, ltb,
  if◌then◌else◌, update,
}

abbrev pub pipesize : ℕ
pipesize = 512

-- `struct pipe`, without its lock.
pub record Pipe : Type 0 where
  pub contents : ℕ → ℕ
  pub nread : ℕ
  pub nwrite : ℕ
  pub readopen : Bool
  pub writeopen : Bool

-- What `pipealloc` sets up in the page that it gets, whose old bytes are `junk`.
abbrev pub new_pipe : (junk : ℕ → ℕ) → Pipe
new_pipe junk = record { contents = junk; nread = 0; nwrite = 0; readopen = true; writeopen = true }

abbrev pub is_full : Pipe → Bool
is_full p = p.nwrite == (p.nread + pipesize) % 2 ^ 32

abbrev pub is_empty : Pipe → Bool
is_empty p = p.nread == p.nwrite

-- p->data[p->nwrite++ % PIPESIZE] = c
pub put_byte : ℕ → Pipe → Pipe
put_byte c p = record p {
  contents = update p.contents (p.nwrite % pipesize) c;
  nwrite = (p.nwrite + 1) % 2 ^ 32;
}

-- p->data[p->nread++ % PIPESIZE]
pub next_byte : Pipe → ℕ
next_byte p = p.contents (p.nread % pipesize)

pub drop_byte : Pipe → Pipe
drop_byte p = record p { nread = (p.nread + 1) % 2 ^ 32 }

-- What `pipewrite` comes to: all bytes are in, an error (-1), or it sleeps with bytes left.
pub data Written : Type 0 where
  wrote : Pipe → Written
  broken : Pipe → Written
  blocked : List ℕ → Pipe → Written

pub pipewrite : (killed : Bool) → List ℕ → Pipe → Written
unfolding put_byte
pipewrite killed [] p = wrote p
pipewrite killed (c ∷ cs) p =
    let rest = pipewrite killed cs (put_byte c p) in
    if is_full p then (if not p.readopen || killed then broken p else blocked (c ∷ cs) p) else rest

-- The loop of `piperead` that copies, for `n` bytes more.
pub read_bytes : ℕ → Pipe → List ℕ × Pipe
unfolding next_byte drop_byte
read_bytes zero p = ([], p)
read_bytes (suc n) p =
    let rest = read_bytes n (drop_byte p) in
    if is_empty p then ([], p) else (next_byte p ∷ rest.0, rest.1)

pub data Readout : Type 0 where
  got : List ℕ → Pipe → Readout
  interrupted : Readout
  waits : Readout

pub piperead : (killed : Bool) → ℕ → Pipe → Readout
piperead killed n p =
    if is_empty p && p.writeopen
    then (if killed then interrupted else waits)
    else (let (cs, p') = read_bytes n p in got cs p')

-- `pipeclose`, and whether it frees the page.
pub pipeclose : (writable : Bool) → Pipe → Pipe × Bool
pipeclose writable p =
    let p' = if writable then record p { writeopen = false } else record p { readopen = false } in
    (p', not p'.readopen && not p'.writeopen)
