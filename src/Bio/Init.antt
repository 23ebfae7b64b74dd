-- ===== src/Bio/Init.antt =====
-- `binit` of bio.c.
use p2b.Prelude.{
  update_here, update_other, ℕ, zero, suc, ◌+◌, ◌<◌, ◌≤◌, ◌≡◌, refl, ap, ◌∙◌, inl, inr, none, List,
  [], ◌∷◌, arith, update, for_range_inv,
}
use mathlib.Core.Path.{subst}
use native.Mathlib.Decide.{ℕ_discrete}
use p2b.Kalloc.Free.{NotIn}
use p2b.Bio.{nbuf, head, Buf, Bcache, set_buf, set_next, set_prev, append_buf, push_front, binit}
use p2b.Bio.Ring.{IsRing, push_front-IsRing}
use p2b.Bio.Walk.{IsIn}
use p2b.Bio.Get.{IsCache}

abbrev pub down_from : ℕ → List ℕ
down_from zero = []
down_from (suc k) = k ∷ down_from k

NotIn-down_from : (x k : ℕ) → k ≤ x → NotIn x (down_from k)
NotIn-down_from x zero le = tt
NotIn-down_from x (suc k) le = ((λ e. omega arith), NotIn-down_from x k (omega arith))

IsIn-down_from : (b k : ℕ) → b < k → IsIn b (down_from k)
IsIn-down_from b zero lt = absurd (omega arith)
IsIn-down_from b (suc k) lt = elim (ℕ_discrete k b) [
  | yes e ↦ inl e
  | no ne ↦ inr (IsIn-down_from b k (omega arith))
]

down_from-below : (b k : ℕ) → IsIn b (down_from k) → b < k
down_from-below b zero h = elim h [ ]
down_from-below b (suc k) (inl e) = omega arith
down_from-below b (suc k) (inr h) = omega (arith, down_from-below b k h)

-- No buffer is for a block yet.
abbrev pub IsZeroed : (ℕ → Buf) → Type 0
IsZeroed f = (b : ℕ) → b < nbuf → (f b).dev ≡ 0

-- The first `k` buffers are in the list.
record Ready (k : ℕ) (c : Bcache) : Type 0 where
  pub ring : IsRing c (down_from k)
  pub zeroed : IsZeroed c.buf

abbrev free_buf : ℕ → Bcache → Buf
free_buf b c = record (c.buf b) { lock = none }

unlocked :
    (b : ℕ) (c : Bcache)
    → IsZeroed c.buf
    → IsZeroed (update c.buf b (record (c.buf b) { lock = none }))
unlocked b c z a lt = elim (ℕ_discrete a b) [
  | yes e ↦
      ap (λ i. (update c.buf b (free_buf b c) i).dev) e
      ∙ ap (λ x. x.dev) (update_here c.buf b (free_buf b c))
      ∙ z b (omega arith)
  | no ne ↦ ap (λ x. x.dev) (update_other c.buf b (free_buf b c) a ne) ∙ z a lt
]

Ready-append_buf : (k : ℕ) (c : Bcache) → k < nbuf → Ready k c → Ready (k + 1) (append_buf k c)
unfolding append_buf push_front
Ready-append_buf k c lt r =
    let c1 = set_buf k (record (c.buf k) { lock = none }) c in
    let ring1 : IsRing c1 (down_from k) = record {
      chain = r.ring.chain;
      away = r.ring.away;
      distinct = r.ring.distinct;
    } in
    let ring2 =
      push_front-IsRing k c1 (omega arith) (down_from k) ring1
        (NotIn-down_from k k (omega arith)) in
    let next : suc k ≡ k + 1 = omega arith in
    record {
      ring =
          subst (λ n. IsRing (append_buf k c) (down_from n)) next
            (record { chain = ring2.chain; away = ring2.away; distinct = ring2.distinct });
      zeroed = unlocked k c r.zeroed;
    }

pub binit-IsCache : (c : Bcache) → IsZeroed c.buf → IsCache (binit c) (down_from nbuf)
unfolding binit
binit-IsCache c z =
    let c0 = set_next head head (set_prev head head c) in
    let start : Ready 0 c0 = record {
      ring = record { chain = (ground arith, ground arith); away = tt; distinct = tt };
      zeroed = z;
    } in
    let done = for_range_inv Ready append_buf nbuf Ready-append_buf nbuf 0 c0 refl start in
    record {
      ring = done.ring;
      size = refl;
      members = λ b h. down_from-below b nbuf h;
      complete = λ b lt. IsIn-down_from b nbuf lt;
      unique = λ a b dev blockno ha hb nz ea eb. absurd (ground (arith, done.zeroed a ha));
    }
