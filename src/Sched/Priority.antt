-- ===== src/Sched/Priority.antt =====
-- Who gets the CPU in one round of `scheduler`.
use p2b.Prelude.{
  ℕ, zero, suc, ◌<◌, ◌≡◌, ◌≢◌, refl, sym, ap, ◌∙◌, true, false, some, List, [], ◌∷◌, map, All,
  arith, ltb, for_range_inv, find_first, find_first-some, find_first-none, IsFirst, Bool-cases,
  Option-cases, ◌⊎◌, inl, inr,
}
use p2b.Proc.{Proc, nproc, is_runnable}
use p2b.Lifecycle.{Services, Kernel}
use mathlib.Core.Path.{subst}
use p2b.Sched.Count.{HasHigh, NoHigh, is_high-IsHighJob, zero-NoHigh}
use p2b.Sched.Loop.{high_loop-zero, high_loop-more, high_loop-over}
use p2b.Sched.{
  is_high, high_count, Dispatch, Cpu, start, dispatch, offer_high, high_pass, high_loop, low_pass,
  round,
}

abbrev pub IsHigh : Dispatch → Type 0
IsHigh d = d.priority ≡ 1

module _ (svc : Services) where
  open svc use {Rest}

  module _ (run : ℕ → Kernel Rest → Kernel Rest) where
    -- While the loop for priority 1 runs from an empty log and the kernel `k`.
    record Highs (k : Kernel Rest) (c : Cpu Rest) : Type 0 where
      highs : All IsHigh c.log
      idle : c.has_hp ≡ false → (c.log ≡ []) × (c.kernel ≡ k)
      ran : c.has_hp ≡ true → (c.log ≢ []) × HasHigh k.proc

    cons-not_nil : (d : Dispatch) (l : List Dispatch) → d ∷ l ≢ []
    cons-not_nil d l e = ground arith

    offer_high-Highs :
        (k : Kernel Rest) (i : ℕ) (c : Cpu Rest)
        → i < nproc
        → Highs k c
        → Highs k (offer_high svc run i c)
    unfolding offer_high dispatch
    offer_high-Highs k i c lt h = elim (Bool-cases (is_high (c.kernel.proc i))) [
      | inl high ↦
          let job = is_high-IsHighJob (c.kernel.proc i) high in
          rw high (record {
            highs = (job.first_class, h.highs);
            idle = λ e. absurd (ground arith);
            ran = λ _. (
              cons-not_nil _ c.log,
              elim (Bool-cases c.has_hp) [
                | inl before ↦ (h.ran before).1
                | inr never ↦
                    subst (λ (q : Kernel Rest). HasHigh q.proc) (h.idle never).1 (i, lt, job)
              ],
            );
          })
      | inr low ↦ rw low h
    ]

    high_pass-Highs : (k : Kernel Rest) (c : Cpu Rest) → Highs k c → Highs k (high_pass svc run c)
    unfolding high_pass
    high_pass-Highs k c h =
        for_range_inv (λ _ s. Highs k s) (offer_high svc run) nproc
          (λ i s lt p. offer_high-Highs k i s lt p) nproc 0 c (omega arith) h

    high_loop-Highs :
        (fuel : ℕ) (k : Kernel Rest) (c c' : Cpu Rest)
        → Highs k c
        → high_loop svc run fuel c ≡ some c'
        → Highs k c' × NoHigh c'.kernel.proc
    high_loop-Highs zero k c c' h e = absurd (high_loop-zero svc run c c' e)
    high_loop-Highs (suc fuel) k c c' h e = elim (Bool-cases (ltb 0 (high_count c.kernel.proc))) [
      | inl more ↦
          high_loop-Highs fuel k (high_pass svc run c) c' (high_pass-Highs k c h)
            (sym (high_loop-more svc run fuel c more) ∙ e)
      | inr over ↦
          let same : c ≡ c' = cc (high_loop-over svc run fuel c over) in
          subst (λ d. Highs k d × NoHigh d.kernel.proc) same
            (h, zero-NoHigh c.kernel.proc (ground arith))
    ]

    -- Processes of priority 1 were runnable and get the CPU, until none of them is runnable.
    pub record HighRound (k : Kernel Rest) (c' : Cpu Rest) : Type 0 where
      pub could : HasHigh k.proc
      pub ran : c'.log ≢ []
      pub only : All IsHigh c'.log
      pub over : NoHigh c'.kernel.proc

    -- No process of priority 1 is runnable: the one in the first runnable slot gets the CPU once.
    pub record LowRound (k : Kernel Rest) (c' : Cpu Rest) : Type 0 where
      pub none_high : NoHigh k.proc
      pub slot : ℕ
      pub first : IsFirst (λ (p : Proc). is_runnable p.state) 0 nproc k.proc slot
      pub only : map (λ d. d.slot) c'.log ≡ slot ∷ []
      pub kernel : c'.kernel ≡ run slot (start svc slot k)

    -- No process is runnable: none gets the CPU.
    pub record IdleRound (k : Kernel Rest) (c' : Cpu Rest) : Type 0 where
      pub none_ready : (j : ℕ) → j < nproc → is_runnable (k.proc j).state ≡ false
      pub none_ran : c'.log ≡ []
      pub kernel : c'.kernel ≡ k

    abbrev pub RoundMeans : Kernel Rest → Cpu Rest → Type 0
    RoundMeans k c' = HighRound k c' ⊎ LowRound k c' ⊎ IdleRound k c'

    low_pass-idle :
        (c : Cpu Rest)
        → c.has_hp ≡ false
        → c.log ≡ []
        → NoHigh c.kernel.proc
        → RoundMeans c.kernel (low_pass svc run c)
    unfolding low_pass dispatch
    low_pass-idle c idle empty z =
        elim (Option-cases (find_first (λ (p : Proc). is_runnable p.state) nproc 0 c.kernel.proc)) [
          | inl miss ↦
              rw (idle, miss)
                (inr (
                  inr (record {
                    none_ready = λ j lt.
                        find_first-none _ nproc 0 c.kernel.proc miss j (omega arith) (omega arith);
                    none_ran = empty;
                    kernel = refl;
                  })))
          | inr (i, hit) ↦
              rw (idle, hit)
                (inr (
                  inl (record {
                    none_high = z;
                    slot = i;
                    first = find_first-some _ nproc 0 c.kernel.proc i hit;
                    only = ap (λ l. i ∷ map (λ (d : Dispatch). d.slot) l) empty;
                    kernel = refl;
                  })))
        ]

    low_pass-cases :
        (k : Kernel Rest) (c : Cpu Rest)
        → Highs k c
        → NoHigh c.kernel.proc
        → RoundMeans k (low_pass svc run c)
    unfolding low_pass
    low_pass-cases k c h z = elim (Bool-cases c.has_hp) [
      | inl ran ↦
          rw ran
            (inl (record { could = (h.ran ran).1; ran = (h.ran ran).0; only = h.highs; over = z }))
      | inr never ↦
          subst (λ q. RoundMeans q (low_pass svc run c)) (h.idle never).1
            (low_pass-idle c never (h.idle never).0 z)
    ]

    round-inv :
        (fuel : ℕ) (c c' : Cpu Rest)
        → round svc run fuel c ≡ some c'
        → (d : Cpu Rest) × (high_loop svc run fuel (record c { has_hp = false }) ≡ some d)
          × (c' ≡ low_pass svc run d)
    unfolding round
    round-inv fuel c c' e =
        elim (Option-cases (high_loop svc run fuel (record c { has_hp = false }))) [
          | inl out ↦ ground arith
          | inr (d, ends) ↦ (d, ends, ground arith)
        ]

    -- A round of the scheduler that ends is one of three. If a process of priority 1 is runnable when
    -- the round begins, only processes of priority 1 get the CPU, at least one does, and in the end
    -- none of them is runnable. If none is, but some process is runnable, the one in the first runnable
    -- slot gets the CPU, once, and no other does. If none is runnable at all, nothing happens.
    pub round_priority :
        (fuel : ℕ) (c c' : Cpu Rest)
        → c.log ≡ []
        → round svc run fuel c ≡ some c'
        → RoundMeans c.kernel c'
    round_priority fuel c c' empty e =
        let (d, ends, same) = round-inv fuel c c' e in
        let begin : Highs c.kernel (record c { has_hp = false }) = record {
          highs = rw empty tt;
          idle = λ _. (empty, refl);
          ran = λ ran. absurd (ground arith);
        } in
        let (h, z) = high_loop-Highs fuel c.kernel (record c { has_hp = false }) d begin ends in
        rw same (low_pass-cases c.kernel d h z)
