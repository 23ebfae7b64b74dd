-- ===== src/StringOps/Compare.antt =====
-- `memcmp` and `strncmp` of string.c.
use p2b.Prelude.{ℕ, zero, suc, ◌+◌, ◌<◌, ◌≡◌, ◌≢◌, ◌↔◌, refl, ap, ◌∙◌, arith}
use native.Mathlib.Decide.{ℕ_discrete}
use p2b.StringOps.{Memory, memcmp, strncmp}

abbrev pub IsBytes : Memory → Type 0
IsBytes m = (a : ℕ) → m a < 256

-- Two ranges of `n` bytes agree; two strings agree in their first `n` bytes, up to the first 0.
abbrev pub SameBytes : (p q n : ℕ) → Memory → Type 0
SameBytes p q n m = (i : ℕ) → i < n → m (p + i) ≡ m (q + i)

abbrev pub SameString : (p q n : ℕ) → Memory → Type 0
SameString p q n m = (i : ℕ) → i < n → ((j : ℕ) → j < i → m (p + j) ≢ 0) → m (p + i) ≡ m (q + i)

module _ (m : Memory) where
  same_cons :
      (p q i : ℕ)
      → m p ≡ m q
      → ((j : ℕ) → i ≡ suc j → m (p + 1 + j) ≡ m (q + 1 + j))
      → m (p + i) ≡ m (q + i)
  same_cons p q zero e tail = ap m (omega arith) ∙ e ∙ ap m (omega arith)
  same_cons p q (suc i) e tail = ap m (omega arith) ∙ tail i refl ∙ ap m (omega arith)

  same_tail : (p q i : ℕ) → m (p + suc i) ≡ m (q + suc i) → m (p + 1 + i) ≡ m (q + 1 + i)
  same_tail p q i e = ap m (omega arith) ∙ e ∙ ap m (omega arith)

  same_head : (p q : ℕ) → m (p + 0) ≡ m (q + 0) → m p ≡ m q
  same_head p q e = ap m (omega arith) ∙ e ∙ ap m (omega arith)

  -- If no byte of the rest is 0 and the first is not, then none is.
  dead_head :
      (p j : ℕ)
      → m p ≢ 0
      → ((u : ℕ) → u < j → m (p + 1 + u) ≢ 0)
      → (u : ℕ) → u < suc j
      → m (p + u) ≡ 0
      → ⊥
  dead_head p j nz live zero lt d = nz (ap m (omega arith) ∙ d)
  dead_head p j nz live (suc u) lt d = live u (omega arith) (ap m (omega arith) ∙ d)

-- `memcmp` returns 0 exactly when the two ranges hold the same bytes.
pub memcmp-eq_zero_iff :
    (n p q : ℕ) (m : Memory) → IsBytes m → (memcmp p q n m ≡ 0) ↔ SameBytes p q n m
unfolding memcmp
memcmp-eq_zero_iff zero p q m b = (λ e i h. absurd (omega arith), λ same. refl)
memcmp-eq_zero_iff (suc n) p q m b =
    let ih = memcmp-eq_zero_iff n (p + 1) (q + 1) m b in
    elim (ℕ_discrete (m p) (m q)) [
      | yes e ↦ (
        λ z i h. same_cons m p q i e λ j eq. ih.0 (ground arith) j (omega arith),
        λ same.
            let rest = ih.1 (λ j h. same_tail m p q j (same (suc j) (omega arith))) in ground arith,
      )
      | no ne ↦ (
        λ z. absurd (ground (arith, b p, b q)),
        λ same. absurd (ne (same_head m p q (same 0 (omega arith)))),
      )
    ]

-- `strncmp` returns 0 exactly when the strings agree in their first `n` bytes, up to the first 0.
pub strncmp-eq_zero_iff :
    (n p q : ℕ) (m : Memory) → IsBytes m → (strncmp p q n m ≡ 0) ↔ SameString p q n m
unfolding strncmp
strncmp-eq_zero_iff zero p q m b = (λ e i h. absurd (omega arith), λ same. refl)
strncmp-eq_zero_iff (suc n) p q m b =
    let ih = strncmp-eq_zero_iff n (p + 1) (q + 1) m b in
    elim (ℕ_discrete (m p) (m q)) [
      | yes e ↦ elim (ℕ_discrete (m p) 0) [
        | yes z ↦ (
          λ _ i h live.
              same_cons m p q i e (λ j eq. absurd (live 0 (omega arith) (ap m (omega arith) ∙ z))),
          λ same. ground (arith, b q),
        )
        | no nz ↦ (
          λ z i h live. same_cons m p q i e λ j eq.
              ih.0 (ground arith) j (omega arith)
                (λ u lt d. live (suc u) (omega arith) (ap m (omega arith) ∙ d)),
          λ same.
              let rest = ih.1 (λ j h live.
                same_tail m p q j
                  (same (suc j) (omega arith) (λ u lt d. dead_head m p j nz live u lt d))) in
              ground arith,
        )
      ]
      | no ne ↦ (
        λ z. absurd (ground (arith, b p, b q)),
        λ same. absurd (ne (same_head m p q (same 0 (omega arith) (λ j lt. absurd (omega arith))))),
      )
    ]
