-- ===== src/Sched/Starves.antt =====
-- The loops of `scheduler`, when processes keep the CPU busy.
use p2b.Prelude.{
  ℕ, zero, suc, ◌+◌, ◌<◌, ◌≤◌, ◌≡◌, refl, ◌∙◌, ◌⊎◌, Bool, false, none, some, [], arith,
  for_range_inv, Bool-cases, inl, inr, IsFirst, find_first-eq, All, length, ap,
}
use mathlib.Core.Path.{subst}
use native.Mathlib.Decide.{ℕ_discrete}
use p2b.Proc.{Proc, nproc, is_runnable}
use p2b.Lifecycle.{Services, Kernel}
use p2b.Sched.{
  is_high, high_count, Cpu, start, dispatch, offer_high, high_pass, high_loop, low_pass, round,
  scheduler,
}
use p2b.Sched.Count.{HasHigh, HasHigh-pos, is_high-IsHighJob, IsHighJob-is_high}
use p2b.Sched.Priority.{IsHigh}
use p2b.Sched.Loop.{high_loop-more, high_loop-over, round-none, round-some, scheduler-suc}

module _ (svc : Services) where
  open svc use {Rest}

  -- `n` rounds of the loop for priority 1.
  pub passes : (run : ℕ → Kernel Rest → Kernel Rest) (n : ℕ) → Cpu Rest → Cpu Rest
  passes run zero c = c
  passes run (suc n) c = passes run n (high_pass svc run c)

  module _ (run : ℕ → Kernel Rest → Kernel Rest)
      (busy : (i : ℕ) (k : Kernel Rest) → HasHigh (run i k).proc) where
    -- The scan from `c` before slot `i`: a process has run, or there was none to run so far.
    record Scanned (c : Cpu Rest) (i : ℕ) (s : Cpu Rest) : Type 0 where
      highs : All IsHigh s.log
      some_high : HasHigh s.kernel.proc
      ran :
          (length c.log < length s.log)
          ⊎ ((s ≡ c) × ((j : ℕ) → j < i → is_high (c.kernel.proc j) ≡ false))

    offer_high-Scanned :
        (c : Cpu Rest) (i : ℕ) (s : Cpu Rest)
        → Scanned c i s
        → Scanned c (i + 1) (offer_high svc run i s)
    unfolding offer_high dispatch
    offer_high-Scanned c i s p = elim (Bool-cases (is_high (s.kernel.proc i))) [
      | inl high ↦ rw high (record {
        highs = ((is_high-IsHighJob (s.kernel.proc i) high).first_class, p.highs);
        some_high = busy i (start svc i s.kernel);
        ran = elim p.ran [
          | inl more ↦ inl (omega arith)
          | inr (same, _) ↦
              let len : length s.log ≡ length c.log = ap (λ (q : Cpu Rest). length q.log) same in
              inl (omega (arith, len))
        ];
      })
      | inr low ↦ rw low (record {
        highs = p.highs;
        some_high = p.some_high;
        ran = elim p.ran [
          | inl more ↦ inl more
          | inr (same, none_yet) ↦
              let low' : is_high (c.kernel.proc i) ≡ false =
                subst (λ (q : Cpu Rest). is_high (q.kernel.proc i) ≡ false) same low in
              inr (
                same,
                λ j lt. elim (ℕ_discrete j i) [
                  | yes e ↦ rw e low'
                  | no ne ↦ none_yet j (omega arith)
                ],
              )
        ];
      })
    ]

    high_pass-Scanned :
        (c : Cpu Rest)
        → All IsHigh c.log
        → HasHigh c.kernel.proc
        → Scanned c nproc (high_pass svc run c)
    unfolding high_pass
    high_pass-Scanned c a b =
        for_range_inv (Scanned c) (offer_high svc run) nproc (λ i s _ p. offer_high-Scanned c i s p)
          nproc 0 c (omega arith)
          (record { highs = a; some_high = b; ran = inr (refl, λ j lt. absurd (omega arith)) })

    high_pass-ran :
        (c : Cpu Rest)
        → All IsHigh c.log
        → HasHigh c.kernel.proc
        → length c.log < length (high_pass svc run c).log
    high_pass-ran c a (j, lt, h) = elim (high_pass-Scanned c a (j, lt, h)).ran [
      | inl more ↦ more
      | inr (_, no_job) ↦
          absurd (ground (arith, no_job j lt, IsHighJob-is_high (c.kernel.proc j) h))
    ]

    -- After `n` rounds of the loop from `c`.
    pub record Held (n : ℕ) (c d : Cpu Rest) : Type 0 where
      pub only_high : All IsHigh d.log
      pub dispatches : n + length c.log ≤ length d.log
      pub still : HasHigh d.kernel.proc

    passes-Held :
        (n : ℕ) (c : Cpu Rest)
        → All IsHigh c.log
        → HasHigh c.kernel.proc
        → Held n c (passes run n c)
    unfolding passes
    passes-Held zero c a b = record { only_high = a; dispatches = omega arith; still = b }
    passes-Held (suc n) c a b =
        let p = high_pass-Scanned c a b in
        let h = passes-Held n (high_pass svc run c) p.highs p.some_high in
        record {
          only_high = h.only_high;
          dispatches = omega (arith, h.dispatches, high_pass-ran c a b);
          still = h.still;
        }

    high_loop-passes :
        (n m : ℕ) (c : Cpu Rest)
        → All IsHigh c.log
        → HasHigh c.kernel.proc
        → high_loop svc run (n + m) c ≡ high_loop svc run m (passes run n c)
    unfolding passes
    high_loop-passes zero m c a b =
        let e : 0 + m ≡ m = omega arith in ap (λ q. high_loop svc run q c) e
    high_loop-passes (suc n) m c a b =
        let e : suc n + m ≡ suc (n + m) = omega arith in
        let p = high_pass-Scanned c a b in
        ap (λ q. high_loop svc run q c) e
        ∙ high_loop-more svc run (n + m) c (ground (arith, HasHigh-pos c.kernel.proc b))
        ∙ high_loop-passes n m (high_pass svc run c) p.highs p.some_high

    high_loop-none :
        (fuel : ℕ) (c : Cpu Rest)
        → All IsHigh c.log
        → HasHigh c.kernel.proc
        → high_loop svc run fuel c ≡ none
    unfolding high_loop
    high_loop-none fuel c a b =
        let e : fuel ≡ fuel + 0 = omega arith in
        ap (λ q. high_loop svc run q c) e ∙ high_loop-passes fuel 0 c a b

    -- While some process of priority 1 is runnable whenever the CPU comes back, the round of the
    -- scheduler does not end, whatever the fuel. It never leaves the loop for priority 1: the loop goes
    -- on from what its first `n` rounds leave, these have given the CPU to processes of priority 1
    -- only, `n` times at least, and one of these is runnable still.
    pub round_starves_low :
        (fuel n : ℕ) (c : Cpu Rest)
        → c.log ≡ []
        → HasHigh c.kernel.proc
        → let c0 = record c { has_hp = false } in
          (round svc run fuel c ≡ none)
          × ((m : ℕ) → high_loop svc run (n + m) c0 ≡ high_loop svc run m (passes run n c0))
          × Held n c0 (passes run n c0)
    round_starves_low fuel n c empty b =
        let c0 = record c { has_hp = false } in
        let a : All IsHigh c0.log = rw empty tt in
        (
          round-none svc run fuel c (high_loop-none fuel c0 a b),
          λ m. high_loop-passes n m c0 a b,
          passes-Held n c0 a b,
        )

  abbrev pub is_ready : Proc → Bool
  is_ready p = is_runnable p.state

  -- Slot `i` is the first runnable one, and no process of priority 1 is runnable.
  pub record Leads (i : ℕ) (k : Kernel Rest) : Type 0 where
    pub none_high : high_count k.proc ≡ 0
    pub first : IsFirst (λ (p : Proc). is_runnable p.state) 0 nproc k.proc i

  module _ (run : ℕ → Kernel Rest → Kernel Rest) (i : ℕ)
      (greedy : (k : Kernel Rest) → Leads i k → Leads i (run i (start svc i k))) where
    low_pass-Leads :
        (c : Cpu Rest)
        → Leads i c.kernel
        → low_pass svc run (record c { has_hp = false })
          ≡ dispatch svc run i (record c { has_hp = false })
    unfolding low_pass
    low_pass-Leads c l = rw (
      find_first-eq (λ (p : Proc). is_runnable p.state) nproc 0 c.kernel.proc i l.first,
      low_pass,
    )

    dispatch-Leads :
        (c : Cpu Rest)
        → Leads i c.kernel
        → Leads i (dispatch svc run i (record c { has_hp = false })).kernel
    unfolding dispatch
    dispatch-Leads c l = greedy c.kernel l

    dispatch-log :
        (c : Cpu Rest)
        → All (λ d. d.slot ≡ i) c.log
        → All (λ d. d.slot ≡ i) (dispatch svc run i (record c { has_hp = false })).log
    unfolding dispatch
    dispatch-log c a = (refl, a)

    dispatch-length :
        (c : Cpu Rest)
        → length (dispatch svc run i (record c { has_hp = false })).log ≡ suc (length c.log)
    unfolding dispatch
    dispatch-length c = refl

    round-Leads :
        (fuel : ℕ) (c : Cpu Rest)
        → Leads i c.kernel
        → round svc run (suc fuel) c ≡ some (dispatch svc run i (record c { has_hp = false }))
    round-Leads fuel c l =
        round-some svc run (suc fuel) c (record c { has_hp = false })
          (high_loop-over svc run fuel (record c { has_hp = false }) (ground (arith, l.none_high)))
        ∙ ap some (low_pass-Leads c l)

    -- If slot `i` is the first runnable one, no process of priority 1 is runnable, and both are so
    -- again whenever the process in `i` gives the CPU back, then the scheduler runs that process in
    -- every round, and no other.
    pub first_slot_hogs :
        (fuel n : ℕ) (c : Cpu Rest)
        → Leads i c.kernel
        → All (λ d. d.slot ≡ i) c.log
        → (c' : Cpu Rest) × (scheduler svc run (suc fuel) n c ≡ some c')
          × All (λ d. d.slot ≡ i) c'.log
          × (length c'.log ≡ n + length c.log)
    unfolding scheduler
    first_slot_hogs fuel zero c l a = (c, refl, a, omega arith)
    first_slot_hogs fuel (suc n) c l a =
        let d = dispatch svc run i (record c { has_hp = false }) in
        let (c', e, all, len) = first_slot_hogs fuel n d (dispatch-Leads c l) (dispatch-log c a) in
        (
          c',
          scheduler-suc svc run (suc fuel) n c d (round-Leads fuel c l) ∙ e,
          all,
          omega (arith, len, dispatch-length c),
        )
