-- ===== src/Lifecycle/Closes.antt =====
-- The first part of `exit` of proc.c, without the lock: the caller's files and directory.
use p2b.Prelude.{
  ℕ, zero, suc, ◌+◌, ◌<◌, ◌≤◌, ◌≡◌, ◌≢◌, refl, sym, ap, ◌∙◌, true, false, arith, ◌==◌,
  if◌then◌else◌, for_range, for_range_inv, Bool-cases, inl, inr,
}
use native.Mathlib.Decide.{ℕ_discrete}
use p2b.Proc.{nofile}
use p2b.Lifecycle.{Services, Kernel, close_file, close_all}

module _ (svc : Services) where
  open svc use {Rest, fileclose, begin_op, iput, end_op}

  -- The other tables of the kernel after `fileclose` of each open one of the first `n` descriptors.
  pub with_closes : (n : ℕ) (ofile : ℕ → ℕ) → Rest → Rest
  with_closes zero ofile r = r
  with_closes (suc n) ofile r =
      let before = with_closes n ofile r in
      if ofile n == 0 then before else fileclose (ofile n) before

  with_closes-closed :
      (n : ℕ) (ofile : ℕ → ℕ) (r : Rest)
      → (ofile n == 0) ≡ true
      → with_closes (n + 1) ofile r ≡ with_closes n ofile r
  unfolding with_closes
  with_closes-closed n ofile r e =
      let next : n + 1 ≡ suc n = omega arith in
      ap (λ m. with_closes m ofile r) next ∙ rw (e, with_closes) refl

  with_closes-open :
      (n : ℕ) (ofile : ℕ → ℕ) (r : Rest)
      → (ofile n == 0) ≡ false
      → with_closes (n + 1) ofile r ≡ fileclose (ofile n) (with_closes n ofile r)
  unfolding with_closes
  with_closes-open n ofile r e =
      let next : n + 1 ≡ suc n = omega arith in
      ap (λ m. with_closes m ofile r) next ∙ rw (e, with_closes) refl

  -- What closing the first `n` files of `cur` does, with `after` what follows it.
  pub record Closed (cur n : ℕ) (after : Rest → Rest) (k k' : Kernel Rest) : Type 0 where
    pub others : (j : ℕ) → j ≢ cur → k'.proc j ≡ k.proc j
    pub own :
        k'.proc cur ≡ record (k.proc cur) { ofile = (k'.proc cur).ofile; cwd = (k'.proc cur).cwd }
    pub files : (fd : ℕ) → fd < n → (k'.proc cur).ofile fd ≡ 0
    pub later : (fd : ℕ) → n ≤ fd → (k'.proc cur).ofile fd ≡ (k.proc cur).ofile fd
    pub rest : k'.rest ≡ after (with_closes n (k.proc cur).ofile k.rest)
    pub initproc : k'.initproc ≡ k.initproc
    pub nextpid : k'.nextpid ≡ k.nextpid

  close_file-Closed :
      (cur fd : ℕ) (k k' : Kernel Rest)
      → (Closed cur fd (λ r. r) k k') × ((k'.proc cur).cwd ≡ (k.proc cur).cwd)
      → (Closed cur (fd + 1) (λ r. r) k (close_file svc cur fd k'))
        × (((close_file svc cur fd k').proc cur).cwd ≡ (k.proc cur).cwd)
  unfolding close_file
  close_file-Closed cur fd k k' (c, dir) =
      let here : (k'.proc cur).ofile fd ≡ (k.proc cur).ofile fd = c.later fd (omega arith) in
      (
        record {
          others = λ j ne. ground (arith, c.others j ne);
          own = ground (arith, c.own);
          files = λ i lt. elim (ℕ_discrete i fd) [
            | yes e ↦ rw e (ground arith)
            | no ne ↦ ground (arith, c.files i (omega arith))
          ];
          later = λ i le. ground (arith, c.later i (omega arith));
          rest = elim (Bool-cases ((k'.proc cur).ofile fd == 0)) [
            | inl shut ↦
                let shut' : ((k.proc cur).ofile fd == 0) ≡ true = ground arith in
                rw (shut, close_file)
                  (c.rest ∙ sym (with_closes-closed fd (k.proc cur).ofile k.rest shut'))
            | inr open_fd ↦
                let open' : ((k.proc cur).ofile fd == 0) ≡ false = ground arith in
                rw (open_fd, close_file)
                  (ap (λ f. fileclose f k'.rest) here
                    ∙ ap (fileclose ((k.proc cur).ofile fd)) c.rest
                    ∙ sym (with_closes-open fd (k.proc cur).ofile k.rest open'))
          ];
          initproc = ground (arith, c.initproc);
          nextpid = ground (arith, c.nextpid);
        },
        ground (arith, dir),
      )

  -- What `exit` does after it has closed its files: it puts its directory back, as an operation.
  abbrev pub put_back : ℕ → Rest → Rest
  put_back cwd r = end_op (iput cwd (begin_op r))

  pub close_all-Closed :
      (cur : ℕ) (k : Kernel Rest)
      → Closed cur nofile (put_back (k.proc cur).cwd) k (close_all svc cur k)
        × (((close_all svc cur k).proc cur).cwd ≡ 0)
  unfolding close_all with_closes
  close_all-Closed cur k =
      let k1 = for_range nofile 0 (close_file svc cur) k in
      let (c, dir) : (Closed cur nofile (λ r. r) k k1) × ((k1.proc cur).cwd ≡ (k.proc cur).cwd) =
        for_range_inv (λ i s. (Closed cur i (λ r. r) k s) × ((s.proc cur).cwd ≡ (k.proc cur).cwd))
          (close_file svc cur) nofile (λ i s _ p. close_file-Closed cur i k s p) nofile 0 k
          (omega arith)
          (
            record {
              others = λ j ne. refl;
              own = refl;
              files = λ fd lt. absurd (omega arith);
              later = λ fd le. refl;
              rest = refl;
              initproc = refl;
              nextpid = refl;
            },
            refl,
          ) in
      (
        record {
          others = λ j ne. ground (arith, c.others j ne);
          own = ground (arith, c.own);
          files = λ fd lt. ground (arith, c.files fd lt);
          later = λ fd le. ground (arith, c.later fd le);
          rest = ap (λ d. put_back d k1.rest) dir ∙ ap (put_back (k.proc cur).cwd) c.rest;
          initproc = ground (arith, c.initproc);
          nextpid = ground (arith, c.nextpid);
        },
        ground arith,
      )
