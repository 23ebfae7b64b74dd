-- ===== src/Log/Crash.antt =====
-- `commit` and recovery of log.c, with crashes.
use p2b.Prelude.{
  ℕ, ◌+◌, ◌<◌, ◌≤◌, ◌≡◌, ◌≢◌, refl, sym, ap, ◌∙◌, ◌⊎◌, inl, inr, List, [], ◌∷◌, false, arith,
}
use mathlib.Core.Path.{subst}
use native.Mathlib.Decide.{dec_lt}
use p2b.Log.{
  Log, Store, read_head, write_head, install_trans, recover_from_log, reboot, initlog, commit,
}
use p2b.Log.Install.{Outside, Ready, Installed, install_trans-Installed}
use p2b.Log.Append.{Names, read_head-Names, Headed, write_head-Headed}
use p2b.Log.Commit.{Old, Mid, New, NotLogged, IsOutside, commit_crash}

-- A boot with the power for `left` writes.
abbrev pub boot : (start size left : ℕ) → Store → Store
boot start size left s = (initlog start size (reboot left s)).1

-- Boots that each end in another crash.
abbrev pub boots : (start size : ℕ) → List ℕ → Store → Store
boots start size [] s = s
boots start size (left ∷ more) s = boots start size more (boot start size left s)

module _ (l : Log) (s : Store) (outside : IsOutside l) (size left : ℕ) (r : Store) where
  abbrev fresh : Log
  fresh = record {
    start = l.start;
    size = size;
    outstanding = 0;
    committing = false;
    n = 0;
    block = λ _. 0;
  }

  abbrev booted : Store
  booted = reboot left r

  abbrev read : Log
  read = read_head fresh booted

  abbrev redone : Store
  redone = install_trans read booted

  abbrev after : Store
  after = write_head (record read { n = 0 }) redone

  Outside-ne : (h : ℕ) → Outside l h → h ≢ l.start
  Outside-ne h out = ground arith

  boot-eq : boot l.start size left r ≡ after
  unfolding initlog recover_from_log
  boot-eq = refl

  erase : Headed (record read { n = 0 }) redone after
  erase = write_head-Headed (record read { n = 0 }) redone

  -- A boot with an empty log writes at most the header, with no entries.
  boot-clear :
      r.disk l.start 0 ≡ 0
      → (after.disk l.start 0 ≡ 0) × ((h : ℕ) → h ≢ l.start → after.disk h ≡ r.disk h)
  unfolding read_head
  boot-clear clear = (
    elim (dec_lt 0 redone.left) [
      | yes pos ↦ (erase.on (omega arith)).count
      | no zero_left ↦ ap (λ b. b 0) (erase.off (omega arith) l.start ∙ same l.start) ∙ clear
    ],
    λ h ne. erase.disk h ne ∙ same h,
  )
    where
      third : Installed read s.cache booted read.n redone
      third =
          install_trans-Installed
            (record { home = λ u h. absurd (omega arith); logged = λ u h. absurd (omega arith) })

      same : (h : ℕ) → redone.disk h ≡ r.disk h
      same h = third.kept h (λ u lt. absurd (omega arith))

  boot-Old : Old l s r.disk → Old l s after.disk
  boot-Old o =
      let (clear, same) = boot-clear o.clear in
      record { clear = clear; home = λ h out. same h (Outside-ne h out) ∙ o.home h out }

  boot-New : New l s r.disk → New l s after.disk
  boot-New o =
      let (clear, same) = boot-clear o.clear in
      record {
        clear = clear;
        installed =
            λ u h. same (l.block u) (Outside-ne (l.block u) (outside u h)) ∙ o.installed u h;
        kept = λ h out new. same h (Outside-ne h out) ∙ o.kept h out new;
      }

  module _ (m : Mid l s r.disk) where
    count : read.n ≡ l.n
    count = (read_head-Names fresh booted l.n l.block m.header).0

    entries : (u : ℕ) → u < l.n → read.block u ≡ l.block u
    entries = (read_head-Names fresh booted l.n l.block m.header).1

    ready : Ready read s.cache booted
    unfolding read_head
    ready = record {
      home = λ u h.
          let lt : u < l.n = omega (arith, count) in
          let out : Outside l (read.block u) =
            subst (Outside l) (sym (entries u lt)) (outside u lt) in
          omega (arith, count);
      logged = λ u h.
          let lt : u < l.n = omega (arith, count) in
          m.logged u lt ∙ ap s.cache (sym (entries u lt));
    }

    third : Installed read s.cache booted read.n redone
    third = install_trans-Installed ready

    unlogged : (h : ℕ) → NotLogged l h → NotLogged read h
    unlogged h new u lt e =
        let lt' : u < l.n = omega (arith, count) in new u lt' (sym (entries u lt') ∙ e)

    boot-Mid : (left ≤ l.n → Mid l s after.disk) × (l.n < left → New l s after.disk)
    unfolding read_head
    boot-Mid = (
      λ le.
          let off = λ (h : ℕ). erase.off (omega (arith, third.left, count)) h in
          record {
            header = subst (Names l.n l.block) (sym (off l.start ∙ third.head)) m.header;
            logged =
                λ u h. off (l.start + u + 1) ∙ third.log u (omega (arith, count)) ∙ m.logged u h;
            kept = λ h out new. off h ∙ third.kept h (unlogged h new) ∙ m.kept h out new;
          },
      λ lt. record {
        clear = (erase.on (omega (arith, third.left, count))).count;
        installed = λ u h.
            erase.disk (l.block u) (Outside-ne (l.block u) (outside u h))
            ∙ subst (λ b. redone.disk b ≡ s.cache b) (entries u h)
                (third.copied u (omega (arith, count)) (omega arith));
        kept = λ h out new.
            erase.disk h (Outside-ne h out) ∙ third.kept h (unlogged h new) ∙ m.kept h out new;
      },
    )

module _ (l : Log) (s : Store) (outside : IsOutside l) (size : ℕ) where
  abbrev Committed : Store → Type 0
  Committed r = Mid l s r.disk ⊎ New l s r.disk

  boot-Committed : (left : ℕ) (r : Store) → Committed r → Committed (boot l.start size left r)
  boot-Committed left r (inr new) =
      inr (rw (boot-eq l s outside size left r) (boot-New l s outside size left r new))
  boot-Committed left r (inl mid) = rw (boot-eq l s outside size left r) (elim (dec_lt l.n left) [
    | yes lt ↦ inr ((boot-Mid l s outside size left r mid).1 lt)
    | no ge ↦ inl ((boot-Mid l s outside size left r mid).0 (omega arith))
  ])

  boots-Old :
      (powers : List ℕ) (r : Store) → Old l s r.disk → Old l s (boots l.start size powers r).disk
  boots-Old [] r o = o
  boots-Old (left ∷ more) r o =
      boots-Old more (boot l.start size left r)
        (rw (boot-eq l s outside size left r) (boot-Old l s outside size left r o))

  boots-Committed :
      (powers : List ℕ) (r : Store) → Committed r → Committed (boots l.start size powers r)
  boots-Committed [] r c = c
  boots-Committed (left ∷ more) r c =
      boots-Committed more (boot l.start size left r) (boot-Committed left r c)

  recovered-New :
      (last : ℕ) (r : Store) → l.n < last → Committed r → New l s (boot l.start size last r).disk
  recovered-New last r lt (inr new) =
      rw (boot-eq l s outside size last r) (boot-New l s outside size last r new)
  recovered-New last r lt (inl mid) =
      rw (boot-eq l s outside size last r) ((boot-Mid l s outside size last r mid).1 lt)

-- A transaction whose blocks lie outside the log is committed over an empty log, and the power fails
-- at any write; then the machine boots any number of times, the power failing at any write of a
-- recovery, and at last has the power for a whole recovery. If at most `n` writes of `commit` had
-- reached the disk, every block outside the log is as before the transaction. If more had, every
-- block of the transaction is what its buffer held, and the other blocks outside the log are as
-- before. Either way the log is empty again.
pub crash_atomic :
    (l : Log) (s : Store) (size : ℕ) (powers : List ℕ) (last : ℕ)
    → IsOutside l
    → s.disk l.start 0 ≡ 0
    → l.n < last
    → let after = boot l.start size last (boots l.start size powers (commit l s).1) in
      ((s.left ≤ l.n) × Old l s after.disk) ⊎ ((l.n < s.left) × New l s after.disk)
crash_atomic l s size powers last outside clear lt = elim (dec_lt l.n s.left) [
  | no le ↦
      let r = boots l.start size powers (commit l s).1 in
      inl (
        omega arith,
        rw (boot-eq l s outside size last r) (
            boot-Old l s outside size last r (
              boots-Old l s outside size powers (commit l s).1
                ((commit_crash l s outside clear).0 (omega arith)))),
      )
  | yes more ↦ inr (
    more,
    recovered-New l s outside size last (boots l.start size powers (commit l s).1) lt (
        boots-Committed l s outside size powers (commit l s).1
          ((commit_crash l s outside clear).1 more)),
  )
]
