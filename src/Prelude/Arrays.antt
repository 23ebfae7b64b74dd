-- ===== src/Prelude/Arrays.antt =====
-- Arrays as functions of the index, and the two loops over them that the kernel uses: a counted
-- `for`, and the search for the first element that passes a test.
use Prim.Native.Nat.{ℕ, zero, suc, ◌+◌, ◌≤◌, ◌<◌}
use mathlib.Core.Path.{◌≡◌, ◌∙◌, ap, subst}
use mathlib.Core.Logic.{◌≢◌, inl, inr}
use mathlib.Core.Bool.{Bool, true, false, ◌&&◌}
use mathlib.Core.Option.{Option, none, some}
use native.Mathlib.Omega.{arith}
use native.Mathlib.Decide.{ℕ_discrete, dec_lt}
use p2b.Prelude.Tests.{◌==◌, ltb, leb, Bool-cases, Option-cases, if◌then◌else◌}

-- a[i] = v
abbrev pub update {ℓ} : {A : Type ℓ} → (ℕ → A) → ℕ → A → ℕ → A
update f i a j = if i == j then a else f j

pub update_here {ℓ} : {A : Type ℓ} (g : ℕ → A) (k : ℕ) (v : A) → update g k v k ≡ v
update_here g k v = ground arith

pub update_other {ℓ} :
    {A : Type ℓ} (g : ℕ → A) (k : ℕ) (v : A) (i : ℕ) → i ≢ k → update g k v i ≡ g i
update_other g k v i ne = ground arith

-- for (k = start; k < start + rounds; k++) st = body k st
unfoldable pub for_range {ℓ} : {S : Type ℓ} (rounds start : ℕ) → (ℕ → S → S) → S → S
for_range zero start body st = st
for_range (suc left) start body st = for_range left (start + 1) body (body start st)

-- A property of the index and the state that each round carries on holds at the end.
pub for_range_inv {ℓ κ} :
    {S : Type ℓ} (Inv : ℕ → S → Type κ) (body : ℕ → S → S) (stop : ℕ)
    → ((k : ℕ) (st : S) → k < stop → Inv k st → Inv (k + 1) (body k st))
    → (rounds start : ℕ) (st : S) → start + rounds ≡ stop
    → Inv start st
    → Inv stop (for_range rounds start body st)
unfolding for_range
for_range_inv Inv body stop round zero start st ends begun =
    subst (λ k. Inv k st) (omega arith) begun
for_range_inv Inv body stop round (suc left) start st ends begun =
    for_range_inv Inv body stop round left (start + 1) (body start st) (omega arith)
      (round start st (omega arith) begun)

-- The first k in [i, i + n) whose element passes the test.
unfoldable pub find_first {ℓ} : {A : Type ℓ} → (A → Bool) → ℕ → ℕ → (ℕ → A) → Option ℕ
find_first test zero i a = none
find_first test (suc n) i a =
    let rest = find_first test n (i + 1) a in if test (a i) then some i else rest

module _ {ℓ} {A : Type ℓ} (test : A → Bool) where
  pub record IsFirst (i n : ℕ) (a : ℕ → A) (k : ℕ) : Type 0 where
    pub lower : i ≤ k
    pub upper : k < i + n
    pub passes : test (a k) ≡ true
    pub before : (j : ℕ) → i ≤ j → j < k → test (a j) ≡ false

  IsFirst-here : {i n : ℕ} {a : ℕ → A} {k : ℕ} → i ≡ k → test (a i) ≡ true → IsFirst i (suc n) a k
  IsFirst-here {i} {n} {a} {k} e here = record {
    lower = omega arith;
    upper = omega arith;
    passes = subst (λ m. test (a m) ≡ true) e here;
    before = λ j lo hi. absurd (omega arith);
  }

  IsFirst-later :
      {i n : ℕ} {a : ℕ → A} {k : ℕ}
      → test (a i) ≡ false
      → IsFirst (i + 1) n a k
      → IsFirst i (suc n) a k
  IsFirst-later {i} {n} {a} {k} later f = record {
    lower = omega arith;
    upper = omega arith;
    passes = f.passes;
    before = λ j lo hi. elim (ℕ_discrete i j) [
      | yes e ↦ subst (λ m. test (a m) ≡ false) e later
      | no ne ↦ f.before j (omega arith) hi
    ];
  }

  pub find_first-some :
      (n i : ℕ) (a : ℕ → A) (k : ℕ) → find_first test n i a ≡ some k → IsFirst i n a k
  unfolding find_first
  find_first-some zero i a k h = ground arith
  find_first-some (suc n) i a k h = elim (Bool-cases (test (a i))) [
    | inl here ↦ let e : i ≡ k = ground arith in IsFirst-here e here
    | inr later ↦ IsFirst-later later (find_first-some n (i + 1) a k (ground arith))
  ]

  pub find_first-none :
      (n i : ℕ) (a : ℕ → A)
      → find_first test n i a ≡ none
      → (j : ℕ) → i ≤ j
      → j < i + n
      → test (a j) ≡ false
  unfolding find_first
  find_first-none zero i a h j lo hi = ground arith
  find_first-none (suc n) i a h j lo hi = elim (Bool-cases (test (a i))) [
    | inl here ↦ ground arith
    | inr later ↦ elim (ℕ_discrete i j) [
      | yes e ↦ subst (λ m. test (a m) ≡ false) e later
      | no ne ↦ find_first-none n (i + 1) a (ground arith) j (omega arith) (omega arith)
    ]
  ]

module _ {ℓ} {A : Type ℓ} (test : A → Bool) where
  pub IsFirst-unique :
      (n i : ℕ) (a : ℕ → A) (k j : ℕ) → IsFirst test i n a k → IsFirst test i n a j → j ≡ k
  IsFirst-unique n i a k j f g = elim (dec_lt j k) [
    | yes below ↦ absurd (ground (arith, g.passes, f.before j g.lower below))
    | no not_below ↦ elim (dec_lt k j) [
      | yes above ↦ absurd (ground (arith, f.passes, g.before k f.lower above))
      | no not_above ↦ omega arith
    ]
  ]

  -- The first element that passes is found.
  pub find_first-eq :
      (n i : ℕ) (a : ℕ → A) (k : ℕ) → IsFirst test i n a k → find_first test n i a ≡ some k
  find_first-eq n i a k f = elim (Option-cases (find_first test n i a)) [
    | inl miss ↦
        absurd (ground (arith, f.passes, find_first-none test n i a miss k f.lower f.upper))
    | inr (j, hit) ↦ hit ∙ ap some (IsFirst-unique n i a k j f (find_first-some test n i a j hit))
  ]

-- A loop that rewrites each element by itself.
pub for_range-update {ℓ} :
    {A : Type ℓ} (f : A → A) (n i : ℕ) (a : ℕ → A) (j : ℕ)
    → for_range n i (λ k s. update s k (f (s k))) a j
      ≡ (if leb i j && ltb j (i + n) then f (a j) else a j)
unfolding for_range
for_range-update f zero i a j = ground arith
for_range-update f (suc n) i a j =
    ground (arith, for_range-update f n (i + 1) (update a i (f (a i))) j)
