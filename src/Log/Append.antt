-- ===== src/Log/Append.antt =====
-- `write_log` and the header block.
use p2b.Prelude.{ℕ, ◌+◌, ◌-◌, ◌<◌, ◌≡◌, ◌≢◌, refl, sym, ap, ◌∙◌, arith, update, for_range_inv}
use mathlib.Core.Path.{subst}
use native.Mathlib.Decide.{ℕ_discrete}
use p2b.Log.{
  Block, Log, Store, log_block, write_log, header_block, read_blocks, read_head, write_head,
}
use p2b.Log.Install.{Outside}

-- After `t` rounds of `write_log`.
pub record Logged (l : Log) (s : Store) (t : ℕ) (s' : Store) : Type 0 where
  pub home : (h : ℕ) → Outside l h → s'.cache h ≡ s.cache h
  pub logged : (u : ℕ) → u < t → s'.cache (l.start + u + 1) ≡ s.cache (l.block u)
  pub left : s'.left ≡ s.left - t
  pub head : s'.disk l.start ≡ s.disk l.start
  pub kept : (h : ℕ) → Outside l h → s'.disk h ≡ s.disk h
  pub copied : (u : ℕ) → u < t → u < s.left → s'.disk (l.start + u + 1) ≡ s.cache (l.block u)

module _ {l : Log} (s : Store) (outside : (u : ℕ) → u < l.n → Outside l (l.block u)) where
  log_block-Logged :
      (t : ℕ) (s' : Store) → t < l.n → Logged l s t s' → Logged l s (t + 1) (log_block l t s')
  log_block-Logged t s' lt i = record {
    home = λ h out. ground (arith, i.home h out);
    logged = λ u h. elim (ℕ_discrete u t) [
      | yes e ↦ ground (arith, i.home (l.block t) (outside t lt), e, ap l.block e)
      | no ne ↦ ground (arith, i.logged u)
    ];
    left = omega (arith, i.left);
    head = ground (arith, i.head);
    kept = λ h out. ground (arith, i.kept h out);
    copied = λ u hu hl. elim (ℕ_discrete u t) [
      | yes e ↦ ground (arith, i.home (l.block t) (outside t lt), e, ap l.block e, i.left)
      | no ne ↦ ground (arith, i.copied u)
    ];
  }

  pub write_log-Logged : Logged l s l.n (write_log l s)
  unfolding write_log
  write_log-Logged =
      for_range_inv (Logged l s) (log_block l) l.n (λ t s' lt i. log_block-Logged t s' lt i) l.n 0 s
        (omega arith)
        (record {
          home = λ h out. refl;
          logged = λ u hu. absurd (omega arith);
          left = omega arith;
          head = refl;
          kept = λ h out. refl;
          copied = λ u hu. absurd (omega arith);
        })

-- What a header block says.
pub record Names (n : ℕ) (block : ℕ → ℕ) (b : Block) : Type 0 where
  pub count : b 0 ≡ n
  pub entries : (u : ℕ) → u < n → b (u + 1) ≡ block u

header_round :
    (l : Log) (b : Block) (i : ℕ) (c : Block)
    → (c 0 ≡ l.n) × ((u : ℕ) → u < i → c (u + 1) ≡ l.block u)
    → (update c (i + 1) (l.block i) 0 ≡ l.n)
      × ((u : ℕ) → u < i + 1 → update c (i + 1) (l.block i) (u + 1) ≡ l.block u)
header_round l b i c (z, es) = (
  ground arith,
  λ u h. elim (ℕ_discrete u i) [
    | yes e ↦ ground (arith, ap l.block e)
    | no ne ↦ ground (arith, es u)
  ],
)

pub header_block-Names : (l : Log) (b : Block) → Names l.n l.block (header_block l b)
unfolding header_block
header_block-Names l b =
    let (z, es) =
      for_range_inv (λ i c. (c 0 ≡ l.n) × ((u : ℕ) → u < i → c (u + 1) ≡ l.block u))
        (λ i c. update c (i + 1) (l.block i)) l.n (λ i c _ p. header_round l b i c p) l.n 0
        (update b 0 l.n) (omega arith) (refl, λ u h. absurd (omega arith)) in
    record { count = z; entries = es }

read_blocks-lem :
    (b : Block) (n : ℕ) (old : ℕ → ℕ) (u : ℕ) → u < n → read_blocks b n old u ≡ b (u + 1)
unfolding read_blocks
read_blocks-lem b n old =
    for_range_inv (λ i f. (u : ℕ) → u < i → f u ≡ b (u + 1)) (λ i f. update f i (b (i + 1))) n
      (λ i f _ p u h. elim (ℕ_discrete u i) [
        | yes e ↦ ground (arith, ap (λ v. b (v + 1)) e)
        | no ne ↦ ground (arith, p u)
      ])
      n 0 old (omega arith) (λ u h. absurd (omega arith))

-- `read_head` reads back what `write_head` wrote.
pub read_head-Names :
    (l : Log) (s : Store) (n : ℕ) (block : ℕ → ℕ)
    → Names n block (s.cache l.start)
    → ((read_head l s).n ≡ n) × ((u : ℕ) → u < n → (read_head l s).block u ≡ block u)
unfolding read_head
read_head-Names l s n block names = (
  names.count,
  λ u h.
      read_blocks-lem (s.cache l.start) (s.cache l.start 0) l.block u (omega (arith, names.count))
      ∙ names.entries u h,
)

-- `write_head`, with the power on and off.
pub record Headed (l : Log) (s s' : Store) : Type 0 where
  pub off : s.left ≡ 0 → (h : ℕ) → s'.disk h ≡ s.disk h
  pub on : s.left ≢ 0 → Names l.n l.block (s'.disk l.start)
  pub disk : (h : ℕ) → h ≢ l.start → s'.disk h ≡ s.disk h
  pub cache : (h : ℕ) → h ≢ l.start → s'.cache h ≡ s.cache h
  pub left : s'.left ≡ s.left - 1

pub write_head-Headed : (l : Log) (s : Store) → Headed l s (write_head l s)
unfolding write_head
write_head-Headed l s = record {
  off = λ z h. ground arith;
  on = λ nz.
      let e : (write_head l s).disk l.start ≡ header_block l (s.cache l.start) = ground arith in
      subst (Names l.n l.block) (sym e) (header_block-Names l (s.cache l.start));
  disk = λ h ne. ground arith;
  cache = λ h ne. ground arith;
  left = refl;
}
