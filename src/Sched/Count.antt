-- ===== src/Sched/Count.antt =====
-- `getHighPriority` of proc.c.
use p2b.Prelude.{
  ℕ, ◌+◌, ◌<◌, ◌≡◌, ◌↔◌, true, false, arith, if◌then◌else◌, for_range_inv, Bool-cases, inl, inr,
}
use native.Mathlib.Decide.{ℕ_discrete}
use p2b.Proc.{Proc, Table, nproc, is_runnable}
use p2b.Sched.{is_high, high_count}

-- The count over the first `i` slots.
record Counted (t : Table) (i n : ℕ) : Type 0 where
  some_high : 0 < n → (j : ℕ) × (j < i) × (is_high (t j) ≡ true)
  none_high : n ≡ 0 → (j : ℕ) → j < i → is_high (t j) ≡ false

high_count-Counted : (t : Table) → Counted t nproc (high_count t)
unfolding high_count
high_count-Counted t =
    for_range_inv (Counted t) (λ i n. if is_high (t i) then n + 1 else n) nproc
      (λ i n lt c. record {
        some_high = λ pos. elim (Bool-cases (is_high (t i))) [
          | inl yes_high ↦ (i, omega arith, yes_high)
          | inr not_high ↦ let (j, h, e) = c.some_high (rw not_high at pos) in (j, omega arith, e)
        ];
        none_high = λ z j h. elim (Bool-cases (is_high (t i))) [
          | inl yes_high ↦ absurd (ground arith)
          | inr not_high ↦ elim (ℕ_discrete j i) [
            | yes e ↦ rw e not_high
            | no ne ↦ c.none_high (ground arith) j (omega arith)
          ]
        ];
      })
      nproc 0 0 (omega arith)
      (record {
        some_high = λ pos. absurd (omega arith);
        none_high = λ z j h. absurd (omega arith);
      })

-- The count is 0 exactly when no runnable process has priority 1.
pub high_count-eq_zero_iff :
    (t : Table) → (high_count t ≡ 0) ↔ ((j : ℕ) → j < nproc → is_high (t j) ≡ false)
high_count-eq_zero_iff t = (
  (high_count-Counted t).none_high,
  λ all. elim (ℕ_discrete (high_count t) 0) [
    | yes e ↦ e
    | no ne ↦
        let (j, h, e) = (high_count-Counted t).some_high (omega arith) in
        absurd (ground (arith, all j h))
  ],
)

-- A runnable process of priority 1, one in the table, and none.
pub record IsHighJob (p : Proc) : Type 0 where
  pub ready : is_runnable p.state ≡ true
  pub first_class : p.priority ≡ 1

abbrev pub HasHigh : Table → Type 0
HasHigh t = (j : ℕ) × (j < nproc) × IsHighJob (t j)

abbrev pub NoHigh : Table → Type 0
NoHigh t = (j : ℕ) → j < nproc → IsHighJob (t j) → ⊥

pub is_high-IsHighJob : (p : Proc) → is_high p ≡ true → IsHighJob p
is_high-IsHighJob p e = record { ready = ground arith; first_class = ground arith }

pub IsHighJob-is_high : (p : Proc) → IsHighJob p → is_high p ≡ true
IsHighJob-is_high p h = ground (arith, h.ready, h.first_class)

pub HasHigh-pos : (t : Table) → HasHigh t → 0 < high_count t
HasHigh-pos t (j, lt, h) = elim (ℕ_discrete (high_count t) 0) [
  | yes e ↦ absurd (ground (arith, (high_count-eq_zero_iff t).0 e j lt, IsHighJob-is_high (t j) h))
  | no ne ↦ omega arith
]

pub pos-HasHigh : (t : Table) → 0 < high_count t → HasHigh t
pos-HasHigh t pos =
    let (j, lt, e) = (high_count-Counted t).some_high pos in (j, lt, is_high-IsHighJob (t j) e)

pub zero-NoHigh : (t : Table) → high_count t ≡ 0 → NoHigh t
zero-NoHigh t e j lt h =
    ground (arith, (high_count-eq_zero_iff t).0 e j lt, IsHighJob-is_high (t j) h)
