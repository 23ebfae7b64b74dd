-- ===== src/Log/Commit.antt =====
-- `commit` of log.c: the disk when the power fails at some write.
use p2b.Prelude.{ℕ, ◌+◌, ◌<◌, ◌≤◌, ◌≡◌, ◌≢◌, refl, sym, ap, ◌∙◌, ◌⊎◌, inl, inr, arith}
use mathlib.Core.Path.{subst}
use native.Mathlib.Decide.{dec_lt}
use p2b.Log.{Block, Log, Store, write_log, write_head, install_trans, commit}
use p2b.Log.Install.{Outside, Ready, Installed, install_trans-Installed}
use p2b.Log.Append.{Logged, write_log-Logged, Names, Headed, write_head-Headed}

abbrev pub NotLogged : Log → ℕ → Type 0
NotLogged l h = (u : ℕ) → u < l.n → l.block u ≢ h

-- The home blocks are as before the transaction, and the log is empty.
pub record Old (l : Log) (s : Store) (d : ℕ → Block) : Type 0 where
  pub clear : d l.start 0 ≡ 0
  pub home : (h : ℕ) → Outside l h → d h ≡ s.disk h

-- The transaction is in the log; the blocks that it does not write are as before.
pub record Mid (l : Log) (s : Store) (d : ℕ → Block) : Type 0 where
  pub header : Names l.n l.block (d l.start)
  pub logged : (u : ℕ) → u < l.n → d (l.start + u + 1) ≡ s.cache (l.block u)
  pub kept : (h : ℕ) → Outside l h → NotLogged l h → d h ≡ s.disk h

-- All blocks of the transaction are in their homes, the others as before, and the log is empty.
pub record New (l : Log) (s : Store) (d : ℕ → Block) : Type 0 where
  pub clear : d l.start 0 ≡ 0
  pub installed : (u : ℕ) → u < l.n → d (l.block u) ≡ s.cache (l.block u)
  pub kept : (h : ℕ) → Outside l h → NotLogged l h → d h ≡ s.disk h

abbrev pub IsOutside : Log → Type 0
IsOutside l = (u : ℕ) → u < l.n → Outside l (l.block u)

module _ (l : Log) (s : Store) (outside : IsOutside l) where
  -- The stages of `commit`.
  abbrev s1 : Store
  s1 = write_log l s

  abbrev s2 : Store
  s2 = write_head l s1

  abbrev s3 : Store
  s3 = install_trans l s2

  abbrev s4 : Store
  s4 = write_head (record l { n = 0 }) s3

  first : Logged l s l.n s1
  first = write_log-Logged s outside

  head : Headed l s1 s2
  head = write_head-Headed l s1

  ready : Ready l s.cache s2
  ready = record {
    home = outside;
    logged = λ u h. head.cache (l.start + u + 1) (omega arith) ∙ first.logged u h;
  }

  third : Installed l s.cache s2 l.n s3
  third = install_trans-Installed ready

  erase : Headed (record l { n = 0 }) s3 s4
  erase = write_head-Headed (record l { n = 0 }) s3

  block-ne-start : (u : ℕ) → u < l.n → l.block u ≢ l.start
  block-ne-start u h = ground (arith, outside u h)

  Outside-ne : (h : ℕ) → Outside l h → h ≢ l.start
  Outside-ne h out = ground arith

  -- Before the header is written.
  s4-Old : s.disk l.start 0 ≡ 0 → s.left ≤ l.n → Old l s s4.disk
  s4-Old clear le =
      let same = λ (h : ℕ).
        erase.off (omega (arith, first.left, head.left, third.left)) h
        ∙ third.dead (omega (arith, first.left, head.left)) h
        ∙ head.off (omega (arith, first.left)) h in
      record {
        clear = ap (λ b. b 0) (same l.start ∙ first.head) ∙ clear;
        home = λ h out. same h ∙ first.kept h out;
      }

  -- Between the two writes of the header.
  s4-Mid : l.n < s.left → s.left ≤ l.n + l.n + 1 → Mid l s s4.disk
  s4-Mid lo hi =
      let off = λ (h : ℕ). erase.off (omega (arith, first.left, head.left, third.left)) h in
      record {
        header =
            subst (Names l.n l.block) (sym (off l.start ∙ third.head))
              (head.on (omega (arith, first.left)));
        logged = λ u h.
            off (l.start + u + 1)
            ∙ third.log u h
            ∙ head.disk (l.start + u + 1) (omega arith)
            ∙ first.copied u h (omega arith);
        kept = λ h out new.
            off h ∙ third.kept h new ∙ head.disk h (Outside-ne h out) ∙ first.kept h out;
      }

  -- After both.
  s4-New : l.n + l.n + 1 < s.left → New l s s4.disk
  s4-New lo = record {
    clear = (erase.on (omega (arith, first.left, head.left, third.left))).count;
    installed = λ u h.
        erase.disk (l.block u) (block-ne-start u h)
        ∙ third.copied u h (omega (arith, first.left, head.left));
    kept = λ h out new.
        erase.disk h (Outside-ne h out)
        ∙ third.kept h new
        ∙ head.disk h (Outside-ne h out)
        ∙ first.kept h out;
  }

  commit-eq : 0 < l.n → (commit l s).1 ≡ s4
  unfolding commit
  commit-eq pos = ground arith

  commit_empty : l.n ≡ 0 → commit l s ≡ (l, s)
  unfolding commit
  commit_empty z = ground arith

-- What a crash in `commit` leaves, by the number of writes that reach the disk: with at most `n`
-- nothing of the transaction counts, with more it is all in the log or in its homes.
pub commit_crash :
    (l : Log) (s : Store)
    → IsOutside l
    → s.disk l.start 0 ≡ 0
    → (s.left ≤ l.n → Old l s (commit l s).1.disk)
      × (l.n < s.left → Mid l s (commit l s).1.disk ⊎ New l s (commit l s).1.disk)
commit_crash l s outside clear = elim (dec_lt 0 l.n) [
  | no empty ↦ rw (commit_empty l s outside (omega arith)) (
    λ le. record { clear = clear; home = λ h out. refl },
    λ lt. inr (record {
      clear = clear;
      installed = λ u h. absurd (omega arith);
      kept = λ h out new. refl;
    }),
  )
  | yes pos ↦ rw (commit-eq l s outside pos) (
    λ le. s4-Old l s outside clear le,
    λ lt. elim (dec_lt (l.n + l.n + 1) s.left) [
      | yes all ↦ inr (s4-New l s outside all)
      | no some_left ↦ inl (s4-Mid l s outside lt (omega arith))
    ],
  )
]
