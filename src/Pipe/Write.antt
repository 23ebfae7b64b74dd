-- ===== src/Pipe/Write.antt =====
-- `pipewrite` of pipe.c, on the queue.
use p2b.Prelude.{
  ℕ, ◌≡◌, ◌≢◌, refl, ap, sym, ◌∙◌, ◌⊎◌, Bool, true, false, not, ◌||◌, List, [], ◌∷◌, ◌++◌,
  if◌then◌else◌, length, Bool-cases, inl, inr,
}
use mathlib.Core.Path.{subst}
use mathlib.Core.List.{append-nil, append_assoc}
use p2b.Pipe.{Pipe, pipesize, is_full, put_byte, Written, wrote, broken, blocked, pipewrite}
use p2b.Pipe.Queue.{Holds, is_full-Holds, put_byte-Holds}

-- Some of the bytes `cs` are in, behind `q`; the pipe is full, and `rest` is left to write.
pub record Stopped (q cs rest : List ℕ) (p : Pipe) : Type 0 where
  pub written : List ℕ
  pub split : cs ≡ written ++ rest
  pub holds : Holds p (q ++ written)
  pub full : length (q ++ written) ≡ pipesize
  pub more : rest ≢ []

-- What `pipewrite` of `cs` comes to on the queue `q`, the read end being open or not.
abbrev pub WriteMeans : (killed readopen : Bool) → (q cs : List ℕ) → Written → Type 0
WriteMeans killed readopen q cs (wrote p') = Holds p' (q ++ cs)
WriteMeans killed readopen q cs (broken p') =
    ((rest : List ℕ) × Stopped q cs rest p') × ((readopen ≡ false) ⊎ (killed ≡ true))
WriteMeans killed readopen q cs (blocked rest p') =
    Stopped q cs rest p' × (readopen ≡ true) × (killed ≡ false)

Stopped-cons :
    {q cs rest : List ℕ} {p : Pipe} (c : ℕ)
    → Stopped (q ++ c ∷ []) cs rest p
    → Stopped q (c ∷ cs) rest p
Stopped-cons {q} {cs} {rest} {p} c s =
    let e : (q ++ c ∷ []) ++ s.written ≡ q ++ (c ∷ s.written) = simp (append_assoc) in
    record {
      written = c ∷ s.written;
      split = ap (λ l. c ∷ l) s.split;
      holds = subst (Holds p) e s.holds;
      full = ap length (sym e) ∙ s.full;
      more = s.more;
    }

WriteMeans-cons :
    (killed readopen : Bool) (q cs : List ℕ) (c : ℕ) (w : Written)
    → WriteMeans killed readopen (q ++ c ∷ []) cs w
    → WriteMeans killed readopen q (c ∷ cs) w
WriteMeans-cons killed readopen q cs c (wrote p') h = subst (Holds p') (simp (append_assoc)) h
WriteMeans-cons killed readopen q cs c (broken p') ((rest, s), why) =
    ((rest, Stopped-cons c s), why)
WriteMeans-cons killed readopen q cs c (blocked rest p') (s, open_end, alive) =
    (Stopped-cons c s, open_end, alive)

readopen-put_byte : (c : ℕ) (p : Pipe) → (put_byte c p).readopen ≡ p.readopen
unfolding put_byte
readopen-put_byte c p = refl

full_pipe :
    (killed : Bool) (q cs : List ℕ) (c : ℕ) (p : Pipe)
    → Holds p q
    → length q ≡ pipesize
    → WriteMeans killed p.readopen q
        (c ∷ cs)
        (if not p.readopen || killed then broken p else blocked (c ∷ cs) p)
full_pipe killed q cs c p h full =
    let s : Stopped q (c ∷ cs) (c ∷ cs) p = record {
      written = [];
      split = refl;
      holds = rw append-nil h;
      full = rw append-nil full;
      more = λ e. cc;
    } in
    stop killed p.readopen s
  where
    stop :
        (k r : Bool)
        → Stopped q (c ∷ cs) (c ∷ cs) p
        → WriteMeans k r q (c ∷ cs) (if not r || k then broken p else blocked (c ∷ cs) p)
    stop true true s = ((c ∷ cs, s), inr refl)
    stop true false s = ((c ∷ cs, s), inl refl)
    stop false true s = (s, refl, refl)
    stop false false s = ((c ∷ cs, s), inl refl)

-- A write of `cs` to a pipe that holds `q` puts all of `cs` behind `q`, or stops at a full pipe with
-- a first part of `cs` behind `q`: with an error if the read end is closed or the writer killed, and
-- asleep if not, with the other bytes still to write. No byte is lost, doubled or moved.
pub pipewrite_lem :
    (killed : Bool) (cs q : List ℕ) {p : Pipe}
    → Holds p q
    → WriteMeans killed p.readopen q cs (pipewrite killed cs p)
unfolding pipewrite
pipewrite_lem killed [] q h = rw append-nil h
pipewrite_lem killed (c ∷ cs) q {p} h = elim (Bool-cases (is_full p)) [
  | inl full ↦ rw full (full_pipe killed q cs c p h (is_full-Holds h full))
  | inr room ↦ rw room (
      WriteMeans-cons killed p.readopen q cs c (pipewrite killed cs (put_byte c p)) (
        subst (λ r. WriteMeans killed r (q ++ c ∷ []) cs (pipewrite killed cs (put_byte c p)))
          (readopen-put_byte c p)
          (pipewrite_lem killed cs (q ++ c ∷ []) (put_byte-Holds c q h room))))
]
