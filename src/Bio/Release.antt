-- ===== src/Bio/Release.antt =====
-- `brelse` of bio.c: a buffer that nobody uses any more goes to the front of the list.
use p2b.Prelude.{
  update_here, update_other, ℕ, ◌<◌, ◌≡◌, ◌≢◌, refl, sym, ap, ◌∙◌, ◌⊎◌, inl, inr, true, false, none,
  some, List, ◌∷◌, ◌++◌, length-append, arith, ◌==◌, Bool-cases,
}
use mathlib.Core.Path.{subst}
use p2b.Kalloc.Free.{NotIn}
use p2b.Bio.{nbuf, Bcache, set_buf, holds_lock, less_user, unlink, push_front, drop_user, brelse}
use p2b.Bio.Chain.{Distinct-middle}
use p2b.Bio.Ring.{unlink-IsRing, push_front-IsRing}
use p2b.Bio.Walk.{IsIn, IsIn-split, IsIn-append_left, IsIn-append_right, IsIn-append_cases}
use p2b.Bio.Get.{IsUnique, IsCache, same_block-IsCache}

-- A member moved to the front.
IsIn-front : (b x : ℕ) (us ws : List ℕ) → IsIn x (us ++ b ∷ ws) → IsIn x (b ∷ us ++ ws)
IsIn-front b x us ws h = elim (IsIn-append_cases x us (b ∷ ws) h) [
  | inl l ↦ inr (IsIn-append_left x us ws l)
  | inr (inl e) ↦ inl e
  | inr (inr r) ↦ inr (IsIn-append_right x us ws r)
]

IsIn-front_back : (b x : ℕ) (us ws : List ℕ) → IsIn x (b ∷ us ++ ws) → IsIn x (us ++ b ∷ ws)
IsIn-front_back b x us ws (inl e) = IsIn-append_right x us (b ∷ ws) (inl e)
IsIn-front_back b x us ws (inr h) = elim (IsIn-append_cases x us ws h) [
  | inl l ↦ IsIn-append_left x us (b ∷ ws) l
  | inr r ↦ IsIn-append_right x us (b ∷ ws) (inr r)
]

kept_bufs : (b : ℕ) (c : Bcache) → (push_front b (unlink b c)).buf ≡ c.buf
unfolding push_front unlink
kept_bufs b c = refl

front-IsCache :
    (b : ℕ) (c : Bcache) (us ws : List ℕ)
    → IsCache c (us ++ b ∷ ws)
    → IsCache (push_front b (unlink b c)) (b ∷ us ++ ws)
front-IsCache b c us ws cache =
    let unlinked = unlink-IsRing b c us ws cache.ring in
    let out : NotIn b (us ++ ws) = (Distinct-middle us b ws cache.ring.distinct).1 in
    let lt : b < nbuf = cache.members b (IsIn-append_right b us (b ∷ ws) (inl refl)) in
    record {
      ring = push_front-IsRing b (unlink b c) (omega arith) (us ++ ws) unlinked out;
      size = omega (arith, cache.size, length-append us ws, length-append us (b ∷ ws));
      members = λ x h. cache.members x (IsIn-front_back b x us ws h);
      complete = λ x lt. IsIn-front b x us ws (cache.complete x lt);
      unique = subst (λ f. IsUnique f) (sym (kept_bufs b c)) cache.unique;
    }

-- What a release leaves: the buffer without its lock and with a user less, in front if that was the last.
pub record IsReleased (b : ℕ) (c c' : Bcache) (vs : List ℕ) : Type 0 where
  pub buffer : c'.buf b ≡ record (c.buf b) { lock = none; refcnt = less_user (c.buf b).refcnt }
  pub others : (x : ℕ) → x ≢ b → c'.buf x ≡ c.buf x
  pub order :
      (((c.buf b).refcnt ≢ 1) × IsCache c' vs)
      ⊎ (((c.buf b).refcnt ≡ 1)
          × ((us : List ℕ) × (ws : List ℕ) × (vs ≡ us ++ b ∷ ws) × IsCache c' (b ∷ us ++ ws)))

abbrev released : (b : ℕ) → Bcache → Bcache
released b c = set_buf b (record (c.buf b) { lock = none; refcnt = less_user (c.buf b).refcnt }) c

used_more : (n : ℕ) → (less_user n == 0) ≡ false → n ≢ 1
used_more n h e = ground arith

used_once : (n : ℕ) → (less_user n == 0) ≡ true → n ≡ 1
used_once n h = ground arith

-- `brelse` panics just when the caller does not hold the lock of the buffer. Else it gives up the lock
-- and counts a user less; if that was the last, the buffer becomes the most recently used, and else the
-- order stays. The other buffers, and the order of the others, are as before.
pub brelse_lem :
    (pid b : ℕ) (c : Bcache) (vs : List ℕ)
    → IsCache c vs
    → b < nbuf
    → ((holds_lock pid (c.buf b).lock ≡ false) × (brelse pid b c ≡ none))
      ⊎ ((holds_lock pid (c.buf b).lock ≡ true)
          × ((c' : Bcache) × (brelse pid b c ≡ some c') × IsReleased b c c' vs))
unfolding brelse drop_user
brelse_lem pid b c vs cache lt = elim (Bool-cases (holds_lock pid (c.buf b).lock)) [
  | inr free ↦ inl (free, rw (free, brelse) refl)
  | inl held ↦ inr (
    held,
    elim (Bool-cases (((released b c).buf b).refcnt == 0)) [
      | inr used ↦ (
        released b c,
        rw (held, used, brelse, drop_user) refl,
        record {
          buffer = update_here c.buf b _;
          others = update_other c.buf b _;
          order = inl (
            used_more (c.buf b).refcnt
                (ap (λ x. x.refcnt == 0) (sym (update_here c.buf b _)) ∙ used),
            same_block-IsCache c vs b _ cache lt refl refl,
          );
        },
      )
      | inl last ↦
          let (us, ws, e) = IsIn-split b vs (cache.complete b lt) in
          (
            push_front b (unlink b (released b c)),
            rw (held, last, brelse, drop_user) refl,
            record {
              buffer = ap (λ f. f b) (kept_bufs b (released b c)) ∙ update_here c.buf b _;
              others =
                  λ x ne. ap (λ f. f x) (kept_bufs b (released b c)) ∙ update_other c.buf b _ x ne;
              order = inr (
                used_once (c.buf b).refcnt
                    (ap (λ x. x.refcnt == 0) (sym (update_here c.buf b _)) ∙ last),
                (
                  us,
                  ws,
                  e,
                  front-IsCache b (released b c) us ws (
                      subst (IsCache (released b c)) e
                        (same_block-IsCache c vs b _ cache lt refl refl)),
                ),
              );
            },
          )
    ],
  )
]
