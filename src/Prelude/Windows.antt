-- ===== src/Prelude/Windows.antt =====
-- The elements of a ring buffer from one count to another, where counts wrap at 2 ^ 32 and `place` says
-- where in the array a count stands.
use Prim.Native.Nat.{ℕ, zero, suc, ◌+◌, ◌%◌, ◌^◌, ◌<◌}
use mathlib.Core.Path.{◌≡◌, refl, ap, ap₂, ◌∙◌, subst}
use mathlib.Core.Logic.{◌≢◌}
use mathlib.Core.List.{List, [], ◌∷◌, ◌++◌}
use native.Mathlib.Omega.{arith}
use p2b.Prelude.Lists.{length}
use p2b.Prelude.Arrays.{update}

module _ {ℓ} {A : Type ℓ} (place : ℕ → ℕ) where
  -- The `n` elements from count `i` on.
  abbrev pub window : (ℕ → A) → (i n : ℕ) → List A
  window f i zero = []
  window f i (suc n) = f (place i) ∷ window f ((i + 1) % 2 ^ 32) n

  pub length-window : (f : ℕ → A) (i n : ℕ) → length (window f i n) ≡ n
  length-window f i zero = refl
  length-window f i (suc n) = ap suc (length-window f ((i + 1) % 2 ^ 32) n)

  pub window-suc :
      (f : ℕ → A) (i n : ℕ)
      → i < 2 ^ 32
      → window f i (suc n) ≡ window f i n ++ f (place ((i + n) % 2 ^ 32)) ∷ []
  window-suc f i zero lt = ap (λ k. f (place k) ∷ []) (omega arith)
  window-suc f i (suc n) lt =
      ap (λ l. f (place i) ∷ l)
        (window-suc f ((i + 1) % 2 ^ 32) n (omega arith)
          ∙ ap (λ k. window f ((i + 1) % 2 ^ 32) n ++ f (place k) ∷ []) (omega arith))

  -- A write elsewhere.
  window-other :
      (f : ℕ → A) (i n k : ℕ) (c : A)
      → i < 2 ^ 32
      → ((m : ℕ) → m < n → k ≢ place ((i + m) % 2 ^ 32))
      → window (update f k c) i n ≡ window f i n
  window-other f i zero k c lt apart = refl
  window-other f i (suc n) k c lt apart =
      ap₂ ◌∷◌
        (let away : k ≢ place i = λ h. apart 0 (omega arith) (h ∙ ap place (omega arith)) in
          ground arith)
        (window-other f ((i + 1) % 2 ^ 32) n k c (omega arith)
          (λ m below h. apart (m + 1) (omega arith) (h ∙ ap place (omega arith))))

  -- A write just past the window.
  pub window-update :
      (f : ℕ → A) (i n j : ℕ) (c : A)
      → i < 2 ^ 32
      → j ≡ (i + n) % 2 ^ 32
      → ((m : ℕ) → m < n → place j ≢ place ((i + m) % 2 ^ 32))
      → window (update f (place j) c) i (suc n) ≡ window f i n ++ c ∷ []
  window-update f i n j c lt e apart =
      window-suc (update f (place j) c) i n lt
      ∙ ap₂ (λ l a. l ++ a ∷ []) (window-other f i n (place j) c lt apart)
          (subst (λ k. update f (place j) c (place k) ≡ c) e (ground arith))
