-- ===== src/Lifecycle/Copies.antt =====
-- The copies that `fork` of proc.c makes: the open files, in the loop over them, and the name.
use p2b.Prelude.{
  ℕ, zero, suc, ◌+◌, ◌<◌, ◌≤◌, ◌≡◌, ◌≢◌, refl, sym, ap, ◌∙◌, true, false, arith, ◌==◌,
  if◌then◌else◌, for_range, for_range_inv, Bool-cases, inl, inr, update, update_here, update_other,
}
use native.Mathlib.Decide.{ℕ_discrete}
use p2b.Proc.{Proc, nofile}
use p2b.Lifecycle.{Services, Kernel, dup_file, copy_name}

-- A name of 16 bytes as a string: the copy has the bytes up to the first 0, and 15 of them at most.
pub record SameName (name copy : ℕ → ℕ) : Type 0 where
  pub bytes : (m : ℕ) → m < 15 → ((j : ℕ) → j < m → name j ≢ 0) → copy m ≡ name m
  pub ends : ((j : ℕ) → j < 15 → name j ≢ 0) → copy 15 ≡ 0

-- The loop of the copy from byte `i` on, with `n` bytes left.
record CopiedFrom (n i : ℕ) (src dst copy : ℕ → ℕ) : Type 0 where
  below : (m : ℕ) → m < i → copy m ≡ dst m
  bytes : (m : ℕ) → i ≤ m → m < i + n → ((j : ℕ) → i ≤ j → j < m → src j ≢ 0) → copy m ≡ src m
  ends : ((j : ℕ) → i ≤ j → j < i + n → src j ≢ 0) → copy (i + n) ≡ 0

copy_name-CopiedFrom : (n i : ℕ) (src dst : ℕ → ℕ) → CopiedFrom n i src dst (copy_name n i src dst)
unfolding copy_name
copy_name-CopiedFrom zero i src dst = record {
  below = λ m lt. update_other dst i 0 m (λ e. omega arith);
  bytes = λ m lo hi all. absurd (omega arith);
  ends = λ all. let e : i + 0 ≡ i = omega arith in ap (update dst i 0) e ∙ update_here dst i 0;
}
copy_name-CopiedFrom (suc n) i src dst = elim (Bool-cases (src i == 0)) [
  | inl nul ↦
      rw (nul, copy_name)
        (record {
          below = λ m lt. ground arith;
          bytes = λ m lo hi all. elim (ℕ_discrete m i) [
            | yes e ↦ rw e (ground arith)
            | no ne ↦ absurd (ground (arith, all i (omega arith) (omega arith)))
          ];
          ends = λ all. absurd (ground (arith, all i (omega arith) (omega arith)));
        })
  | inr more ↦
      let c = copy_name-CopiedFrom n (i + 1) src (update dst i (src i)) in
      rw (more, copy_name)
        (record {
          below = λ m lt. c.below m (omega arith) ∙ update_other dst i (src i) m (λ e. omega arith);
          bytes = λ m lo hi all. elim (ℕ_discrete m i) [
            | yes e ↦ rw e (c.below i (omega arith) ∙ update_here dst i (src i))
            | no ne ↦
                c.bytes m (omega arith) (omega arith)
                  (λ j low high. all j (omega arith) (omega arith))
          ];
          ends = λ all.
              let e : i + suc n ≡ i + 1 + n = omega arith in
              ap (copy_name n (i + 1) src (update dst i (src i))) e
              ∙ c.ends (λ j low high. all j (omega arith) (omega arith));
        })
]

pub copy_name-SameName : (src dst : ℕ → ℕ) → SameName src (copy_name 15 0 src dst)
copy_name-SameName src dst =
    let c = copy_name-CopiedFrom 15 0 src dst in
    record {
      bytes = λ m lt all. c.bytes m (omega arith) (omega arith) (λ j low high. all j high);
      ends = λ all. c.ends (λ j low high. all j (omega arith));
    }

module _ (svc : Services) where
  open svc use {Rest, filedup}

  -- The other tables of the kernel after `filedup` of each open one of the first `n` descriptors.
  pub with_dups : (n : ℕ) (ofile : ℕ → ℕ) → Rest → Rest
  with_dups zero ofile r = r
  with_dups (suc n) ofile r =
      let before = with_dups n ofile r in
      if ofile n == 0 then before else (filedup (ofile n) before).1

  with_dups-closed :
      (n : ℕ) (ofile : ℕ → ℕ) (r : Rest)
      → (ofile n == 0) ≡ true
      → with_dups (n + 1) ofile r ≡ with_dups n ofile r
  unfolding with_dups
  with_dups-closed n ofile r e =
      let next : n + 1 ≡ suc n = omega arith in
      ap (λ m. with_dups m ofile r) next ∙ rw (e, with_dups) refl

  with_dups-open :
      (n : ℕ) (ofile : ℕ → ℕ) (r : Rest)
      → (ofile n == 0) ≡ false
      → with_dups (n + 1) ofile r ≡ (filedup (ofile n) (with_dups n ofile r)).1
  unfolding with_dups
  with_dups-open n ofile r e =
      let next : n + 1 ≡ suc n = omega arith in
      ap (λ m. with_dups m ofile r) next ∙ rw (e, with_dups) refl

  -- Descriptor `fd` of the child: what `filedup` returned for it, if the caller's is open.
  pub dup_of : (fd : ℕ) (ofile old : ℕ → ℕ) → Rest → ℕ
  unfolding with_dups
  dup_of fd ofile old r =
      if ofile fd == 0 then old fd else (filedup (ofile fd) (with_dups fd ofile r)).0

  -- After `n` rounds of the loop of `fork` over the files: only the child's files have changed.
  pub record Copied (cur np : ℕ) (k0 : Kernel Rest) (n : ℕ) (k : Kernel Rest) : Type 0 where
    pub others : (j : ℕ) → j ≢ np → k.proc j ≡ k0.proc j
    pub child : k.proc np ≡ record (k0.proc np) { ofile = (k.proc np).ofile }
    pub nextpid : k.nextpid ≡ k0.nextpid
    pub rest : k.rest ≡ with_dups n (k0.proc cur).ofile k0.rest
    pub files :
        (fd : ℕ)
        → fd < n
        → (k.proc np).ofile fd ≡ dup_of fd (k0.proc cur).ofile (k0.proc np).ofile k0.rest
    pub later : (fd : ℕ) → n ≤ fd → (k.proc np).ofile fd ≡ (k0.proc np).ofile fd

  dup_file-Copied :
      (cur np fd : ℕ) (k0 k : Kernel Rest)
      → cur ≢ np
      → Copied cur np k0 fd k
      → Copied cur np k0 (fd + 1) (dup_file svc cur np fd k)
  unfolding dup_file dup_of
  dup_file-Copied cur np fd k0 k ne c =
      let own : (k.proc cur).ofile ≡ (k0.proc cur).ofile =
        ap (λ (p : Proc). p.ofile) (c.others cur ne) in
      elim (Bool-cases ((k0.proc cur).ofile fd == 0)) [
        | inl closed ↦
            let closed' : ((k.proc cur).ofile fd == 0) ≡ true = rw own closed in
            rw (closed', dup_file)
              (record {
                others = c.others;
                child = c.child;
                nextpid = c.nextpid;
                rest = c.rest ∙ sym (with_dups-closed fd (k0.proc cur).ofile k0.rest closed);
                files = λ g lt. elim (ℕ_discrete g fd) [
                  | yes e ↦ rw (e, closed) (c.later fd (omega arith))
                  | no far ↦ c.files g (omega arith)
                ];
                later = λ g le. c.later g (omega arith);
              })
        | inr open_fd ↦
            let open' : ((k.proc cur).ofile fd == 0) ≡ false = rw own open_fd in
            rw (open', dup_file)
              (record {
                others = λ j far. ground (arith, c.others j far);
                child = ground (arith, c.child);
                nextpid = c.nextpid;
                rest =
                    ap (λ g. (filedup (g fd) k.rest).1) own
                    ∙ ap (λ q. (filedup ((k0.proc cur).ofile fd) q).1) c.rest
                    ∙ sym (with_dups-open fd (k0.proc cur).ofile k0.rest open_fd);
                files = λ g lt. elim (ℕ_discrete g fd) [
                  | yes e ↦ rw (e, open_fd, own, c.rest) (ground arith)
                  | no far ↦ ground (arith, c.files g (omega arith))
                ];
                later = λ g le. ground (arith, c.later g (omega arith));
              })
      ]

  pub dup_files-Copied :
      (cur np : ℕ) (k0 : Kernel Rest)
      → cur ≢ np
      → Copied cur np k0 nofile (for_range nofile 0 (dup_file svc cur np) k0)
  unfolding with_dups
  dup_files-Copied cur np k0 ne =
      for_range_inv (Copied cur np k0) (dup_file svc cur np) nofile
        (λ fd s _ p. dup_file-Copied cur np fd k0 s ne p) nofile 0 k0 (omega arith)
        (record {
          others = λ j far. refl;
          child = refl;
          nextpid = refl;
          rest = refl;
          files = λ fd lt. absurd (omega arith);
          later = λ fd le. refl;
        })
