-- ===== src/Pipe/Queue.antt =====
-- A pipe as the queue of the bytes in it.
use p2b.Prelude.{
  ℕ, suc, ◌+◌, ◌%◌, ◌^◌, ◌<◌, ◌≤◌, ◌≡◌, refl, ap, ◌∙◌, true, false, List, [], ◌∷◌, ◌++◌, arith,
  length, length-append, window, window-update, ◌≢◌, sym,
}
use mathlib.Core.Path.{subst}
use p2b.Pipe.{Pipe, pipesize, is_full, is_empty, put_byte, next_byte, drop_byte}

abbrev pub place : ℕ → ℕ
place i = i % pipesize

-- The pipe holds the bytes `q`, in order. No count is lost when the counters wrap.
pub record Holds (p : Pipe) (q : List ℕ) : Type 0 where
  pub reads : p.nread < 2 ^ 32
  pub room : length q ≤ pipesize
  pub writes : p.nwrite ≡ (p.nread + length q) % 2 ^ 32
  pub bytes : window place p.contents p.nread (length q) ≡ q

pub is_empty-Holds : {p : Pipe} (q : List ℕ) → Holds p q → is_empty p ≡ true → q ≡ []
is_empty-Holds [] h e = refl
is_empty-Holds (c ∷ q) h e = absurd (ground (arith, h.writes, h.room, h.reads))

pub is_empty-nil : {p : Pipe} → Holds p [] → is_empty p ≡ true
is_empty-nil h = ground (arith, h.writes, h.reads)

pub is_empty-cons : {p : Pipe} {c : ℕ} {q : List ℕ} → Holds p (c ∷ q) → is_empty p ≡ false
is_empty-cons h = ground (arith, h.writes, h.room, h.reads)

pub is_full-Holds : {p : Pipe} {q : List ℕ} → Holds p q → is_full p ≡ true → length q ≡ pipesize
is_full-Holds h e = ground (arith, h.writes, h.room, h.reads)

pub is_full-not : {p : Pipe} {q : List ℕ} → Holds p q → is_full p ≡ false → length q < pipesize
is_full-not h e = ground (arith, h.writes, h.room, h.reads)

-- Taking the first byte.
pub drop_byte-Holds :
    {p : Pipe} (c : ℕ) (q : List ℕ) → Holds p (c ∷ q) → (next_byte p ≡ c) × Holds (drop_byte p) q
unfolding next_byte drop_byte
drop_byte-Holds c q h = (
  cc (h.bytes),
  record {
    reads = omega arith;
    room = omega (arith, h.room);
    writes = omega (arith, h.writes);
    bytes = cc (h.bytes);
  },
)

apart : (r n m : ℕ) → n < pipesize → m < n → place ((r + n) % 2 ^ 32) ≢ place ((r + m) % 2 ^ 32)
apart r n m below lt = omega arith

-- Putting a byte behind the others.
pub put_byte-Holds :
    {p : Pipe} (c : ℕ) (q : List ℕ)
    → Holds p q
    → is_full p ≡ false
    → Holds (put_byte c p) (q ++ c ∷ [])
unfolding put_byte
put_byte-Holds {p} c q h room =
    let e : length (q ++ c ∷ []) ≡ suc (length q) = omega (arith, length-append q (c ∷ [])) in
    record {
      reads = h.reads;
      room = omega (arith, is_full-not h room);
      writes = rw e (omega (arith, h.writes));
      bytes = rw e (
          window-update place p.contents p.nread (length q) p.nwrite c h.reads h.writes (λ m lt.
            subst (λ i. place i ≢ place ((p.nread + m) % 2 ^ 32)) (sym h.writes)
              (apart p.nread (length q) m (is_full-not h room) lt))
          ∙ ap (λ w. w ++ c ∷ []) h.bytes);
    }
