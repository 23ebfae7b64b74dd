-- ===== src/Log/Install.antt =====
-- `install_trans`: what it has written after each round, the power failing at any write.
use p2b.Prelude.{ℕ, ◌+◌, ◌-◌, ◌<◌, ◌≡◌, ◌≢◌, refl, sym, ap, ◌⊎◌, arith, for_range_inv}
use native.Mathlib.Decide.{ℕ_discrete}
use p2b.Log.{Block, Log, Store, install_block, install_trans}

-- A block that is not among the header and the `n` blocks of the log.
abbrev pub Outside : Log → ℕ → Type 0
Outside l h = (h < l.start) ⊎ (l.start + l.n < h)

-- `content` says what the log block for each home block holds.
pub record Ready (l : Log) (content : ℕ → Block) (s : Store) : Type 0 where
  pub home : (u : ℕ) → u < l.n → Outside l (l.block u)
  pub logged : (u : ℕ) → u < l.n → s.cache (l.start + u + 1) ≡ content (l.block u)

pub record Installed (l : Log) (content : ℕ → Block) (s : Store) (t : ℕ) (s' : Store) : Type 0 where
  pub logged : (u : ℕ) → u < l.n → s'.cache (l.start + u + 1) ≡ content (l.block u)
  pub left : s'.left ≡ s.left - t
  pub head : s'.disk l.start ≡ s.disk l.start
  pub log : (u : ℕ) → u < l.n → s'.disk (l.start + u + 1) ≡ s.disk (l.start + u + 1)
  pub kept : (h : ℕ) → ((u : ℕ) → u < l.n → l.block u ≢ h) → s'.disk h ≡ s.disk h
  pub dead : s.left ≡ 0 → (h : ℕ) → s'.disk h ≡ s.disk h
  pub copied : (u : ℕ) → u < t → u < s.left → s'.disk (l.block u) ≡ content (l.block u)

module _ {l : Log} {content : ℕ → Block} {s : Store} (r : Ready l content s) where
  install_block-Installed :
      (t : ℕ) (s' : Store)
      → t < l.n
      → Installed l content s t s'
      → Installed l content s (t + 1) (install_block l t s')
  install_block-Installed t s' lt i = record {
    logged = λ u h. ground (arith, i.logged u h, i.logged t lt, r.home t lt);
    left = omega (arith, i.left);
    head = ground (arith, i.head, r.home t lt);
    log = λ u h. ground (arith, i.log u h, r.home t lt);
    kept = λ h out. ground (arith, i.kept h out, out t lt);
    dead = λ z h. ground (arith, i.dead z h, i.left);
    copied = λ u hu hl. elim (ℕ_discrete (l.block t) (l.block u)) [
      | yes e ↦ ground (arith, i.copied u, i.left, i.logged t lt, ap content e, ap s'.disk e)
      | no ne ↦ ground (arith, i.copied u, i.left, λ (e : u ≡ t). ne (sym (ap l.block e)))
    ];
  }

  pub install_trans-Installed : Installed l content s l.n (install_trans l s)
  unfolding install_trans
  install_trans-Installed =
      for_range_inv (Installed l content s) (install_block l) l.n
        (λ t s' lt i. install_block-Installed t s' lt i) l.n 0 s (omega arith)
        (record {
          logged = r.logged;
          left = omega arith;
          head = refl;
          log = λ u h. refl;
          kept = λ h out. refl;
          dead = λ z h. refl;
          copied = λ u hu. absurd (omega arith);
        })
