-- ===== src/Tests/Cpu.antt =====
-- The theorems on the scheduler, for three ways in which processes run.
use p2b.Prelude.{
  ℕ, ◌+◌, ◌<◌, ◌≡◌, refl, true, false, none, some, [], All, arith, ◌==◌, if◌then◌else◌, update,
  length,
}
use native.Mathlib.Decide.{ℕ_discrete}
use p2b.Proc.{Table, nproc, runnable, zombie, is_runnable}
use p2b.Lifecycle.{Kernel}
use p2b.Sched.{Cpu, is_high, start, high_loop, round, scheduler}
use p2b.Sched.Count.{HasHigh, high_count-eq_zero_iff}
use p2b.Sched.Priority.{RoundMeans, round_priority}
use p2b.Sched.Ends.{Settles, round_ends}
use p2b.Sched.Starves.{Leads, passes, Held, round_starves_low, first_slot_hogs}
use p2b.Tests.{toy, blank, process, booted}

-- Slots 1 and 2 hold runnable processes of priority 1 and 0.
abbrev two : Table
two i =
    if i == 1
    then process 2 1 (some 0) runnable
    else if i == 2
    then process 3 0 (some 0) runnable
    else blank

-- Slots 1 and 2 hold runnable processes of priority 0.
abbrev low_two : Table
low_two i =
    if i == 1
    then process 2 0 (some 0) runnable
    else if i == 2
    then process 3 0 (some 0) runnable
    else blank

abbrev idle_cpu : Table → Cpu ℕ
idle_cpu t = record { kernel = booted t; has_hp = false; log = [] }

-- A process runs to its end; it uses its slice up; or it wakes a process of priority 1.
abbrev dies : ℕ → Kernel ℕ → Kernel ℕ
dies i k = record k { proc = update k.proc i (record (k.proc i) { state = zombie }) }

abbrev spins : ℕ → Kernel ℕ → Kernel ℕ
spins i k = record k { proc = update k.proc i (record (k.proc i) { state = runnable }) }

abbrev wakes_high : ℕ → Kernel ℕ → Kernel ℕ
wakes_high i k = record k { proc = update k.proc 0 (process 1 1 none runnable) }

dies-Settles : Settles toy dies
unfolding start
dies-Settles = record { own = λ i k. ground arith; others = λ i j k low. ground arith }

round_ends_example : (c' : Cpu ℕ) × (round toy dies 2 (idle_cpu two) ≡ some c')
round_ends_example = round_ends toy dies dies-Settles (idle_cpu two)

abbrev after_round : Cpu ℕ
after_round = (round_ends toy dies dies-Settles (idle_cpu two)).0

round_priority_example : RoundMeans toy dies (booted two) after_round
round_priority_example =
    round_priority toy dies 2 (idle_cpu two) after_round refl
      (round_ends toy dies dies-Settles (idle_cpu two)).1

wakes_high-busy : (i : ℕ) (k : Kernel ℕ) → HasHigh (wakes_high i k).proc
wakes_high-busy i k = (0, omega arith, record { ready = refl; first_class = refl })

abbrev never_idle : Cpu ℕ
never_idle = idle_cpu (wakes_high 0 (booted two)).proc

round_starves_low_example :
    (round toy wakes_high 100 never_idle ≡ none)
    × ((m : ℕ)
        → high_loop toy wakes_high (7 + m) never_idle
          ≡ high_loop toy wakes_high m (passes toy wakes_high 7 never_idle))
    × Held toy wakes_high wakes_high-busy 7 never_idle (passes toy wakes_high 7 never_idle)
round_starves_low_example =
    round_starves_low toy wakes_high wakes_high-busy 100 7 never_idle refl
      (wakes_high-busy 0 (booted two))

abbrev NoneHigh : Table → Type 0
NoneHigh t = (j : ℕ) → j < nproc → is_high (t j) ≡ false

spins-greedy : (k : Kernel ℕ) → Leads toy 1 k → Leads toy 1 (spins 1 (start toy 1 k))
unfolding start
spins-greedy k l =
    let low : NoneHigh k.proc = (high_count-eq_zero_iff k.proc).0 l.none_high in
    let ready : is_runnable (k.proc 1).state ≡ true = l.first.passes in
    record {
      none_high = (high_count-eq_zero_iff (spins 1 (start toy 1 k)).proc).1 (λ j h.
          elim (ℕ_discrete 1 j) [
            | yes e ↦ ground (arith, low 1 (omega arith))
            | no ne ↦ ground (arith, low j h)
          ]);
      first = record {
        lower = omega arith;
        upper = omega arith;
        passes = refl;
        before = λ j lo hi. ground (arith, l.first.before j lo hi);
      };
    }

low_two-Leads : Leads toy 1 (booted low_two)
low_two-Leads = record {
  none_high = (high_count-eq_zero_iff low_two).1 (λ j h. ground arith);
  first = record {
    lower = omega arith;
    upper = omega arith;
    passes = refl;
    before = λ j lo hi. ground arith;
  };
}

first_slot_hogs_example :
    (c' : Cpu ℕ) × (scheduler toy spins 1 1000 (idle_cpu low_two) ≡ some c')
    × All (λ d. d.slot ≡ 1) c'.log
    × (length c'.log ≡ 1000 + 0)
first_slot_hogs_example =
    first_slot_hogs toy spins 1 spins-greedy 0 1000 (idle_cpu low_two) low_two-Leads tt
