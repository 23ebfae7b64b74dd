-- ===== src/StringOps/Copy.antt =====
-- `safestrcpy` of string.c.
use p2b.Prelude.{
  ℕ, zero, suc, ◌+◌, ◌-◌, ◌^◌, ◌<◌, ◌≤◌, ◌≡◌, ◌≢◌, ◌⊎◌, inl, inr, refl, sym, ap, ◌∙◌, arith, update,
}
use mathlib.Core.Path.{subst}
use native.Mathlib.Decide.{ℕ_discrete, dec_lt}
use p2b.StringOps.{Memory, safestrcpy_loop, safestrcpy}

-- `m'` holds a copy of the string at `t` in the `n + 1` bytes at `s`: all of it, or the first `n`
-- characters, and then a 0. The bytes around are as before.
pub record CopiedString (s t n : ℕ) (m m' : Memory) : Type 0 where
  pub size : ℕ
  pub bound : size ≤ n
  pub copied : (i : ℕ) → i < size → m' (s + i) ≡ m (t + i)
  pub live : (i : ℕ) → i < size → m (t + i) ≢ 0
  pub ends : m' (s + size) ≡ 0
  pub whole : (size ≡ n) ⊎ (m (t + size) ≡ 0)
  pub around : (a : ℕ) → (a < s) ⊎ (s + n < a) → m' a ≡ m a

safestrcpy_loop-stop :
    (n s t : ℕ) (m : Memory)
    → m t ≡ 0
    → safestrcpy_loop (suc n) s t m ≡ update (update m s (m t)) (s + 1) 0
unfolding safestrcpy_loop
safestrcpy_loop-stop n s t m z = ground arith

safestrcpy_loop-go :
    (n s t : ℕ) (m : Memory)
    → m t ≢ 0
    → safestrcpy_loop (suc n) s t m ≡ safestrcpy_loop n (s + 1) (t + 1) (update m s (m t))
unfolding safestrcpy_loop
safestrcpy_loop-go n s t m nz = ground arith

CopiedString-suc :
    (n s t : ℕ) (m m' : Memory)
    → (s + suc n < t) ⊎ (t + suc n ≤ s)
    → m t ≢ 0
    → CopiedString (s + 1) (t + 1) n (update m s (m t)) m'
    → CopiedString s t (suc n) m m'
CopiedString-suc n s t m m' apart nz c = record {
  size = suc c.size;
  bound = omega (arith, c.bound);
  copied = copied;
  live = live;
  ends = ap m' (omega arith) ∙ c.ends;
  whole = elim (dec_lt c.size n) [
    | no full ↦ inl (omega (arith, c.bound))
    | yes short ↦ elim c.whole [
      | inl e ↦ inl (omega arith)
      | inr z ↦ inr (sym (source c.size short) ∙ z)
    ]
  ];
  around = λ a out. ground (arith, c.around a);
}
  where
    source : (i : ℕ) → i < n → update m s (m t) (t + 1 + i) ≡ m (t + suc i)
    source i le = let e : t + 1 + i ≡ t + suc i = omega arith in ground (arith, ap m e)

    copied : (i : ℕ) → i < suc c.size → m' (s + i) ≡ m (t + i)
    copied zero lt =
        let e : t ≡ t + 0 = omega arith in
        ap m' (omega arith) ∙ c.around s (inl (omega arith)) ∙ ground (arith, ap m e)
    copied (suc i) lt =
        ap m' (omega arith) ∙ c.copied i (omega arith) ∙ source i (omega (arith, c.bound))

    live : (i : ℕ) → i < suc c.size → m (t + i) ≢ 0
    live zero lt e = nz (ap m (omega arith) ∙ e)
    live (suc i) lt e = c.live i (omega arith) (source i (omega (arith, c.bound)) ∙ e)

safestrcpy_loop-CopiedString :
    (n s t : ℕ) (m : Memory)
    → (s + n < t) ⊎ (t + n ≤ s)
    → CopiedString s t n m (safestrcpy_loop n s t m)
unfolding safestrcpy_loop
safestrcpy_loop-CopiedString zero s t m apart = record {
  size = 0;
  bound = omega arith;
  copied = λ i lt. absurd (omega arith);
  live = λ i lt. absurd (omega arith);
  ends = ground arith;
  whole = inl refl;
  around = λ a out. ground arith;
}
safestrcpy_loop-CopiedString (suc n) s t m apart =
    let same : t + 0 ≡ t = omega arith in
    let first : m (t + 0) ≡ m t = ap m same in
    elim (ℕ_discrete (m t) 0) [
      | yes z ↦ subst (CopiedString s t (suc n) m) (sym (safestrcpy_loop-stop n s t m z)) (record {
        size = 0;
        bound = omega arith;
        copied = λ i lt. absurd (omega arith);
        live = λ i lt. absurd (omega arith);
        ends = ground arith;
        whole = inr (first ∙ z);
        around = λ a out. ground arith;
      })
      | no nz ↦ subst (CopiedString s t (suc n) m) (sym (safestrcpy_loop-go n s t m nz)) (
          CopiedString-suc n s t m _ apart nz
            (safestrcpy_loop-CopiedString n (s + 1) (t + 1) (update m s (m t)) (omega arith)))
    ]

-- `safestrcpy` into `n + 1` bytes that do not overlap the `n` bytes of the source copies the string, or
-- its first `n` characters, ends it with a 0, and writes nowhere else.
pub safestrcpy_lem :
    (s t n : ℕ) (m : Memory)
    → n + 1 < 2 ^ 31
    → (s + n < t) ⊎ (t + n ≤ s)
    → CopiedString s t n m (safestrcpy s t (n + 1) m)
unfolding safestrcpy
safestrcpy_lem s t n m small apart =
    let less : n + 1 - 1 ≡ n = omega arith in
    let e : safestrcpy s t (n + 1) m ≡ safestrcpy_loop n s t m =
      ground (arith, ap (λ k. safestrcpy_loop k s t m) less) in
    subst (CopiedString s t n m) (sym e) (safestrcpy_loop-CopiedString n s t m apart)
