-- ===== src/Files/Loops.antt =====
-- The loops over descriptors: `fork` shares the files of the parent, and `exit` closes them.
use p2b.Prelude.{
  ℕ, ◌+◌, ◌-◌, ◌<◌, ◌≤◌, ◌≡◌, refl, ap, sym, ◌∙◌, Option, none, some, arith, ltb, update,
  Bool-cases, Option-cases, inl, inr, for_range_inv, update_here, update_other,
}
use mathlib.Core.Path.{subst}
use mathlib.Core.Option
use native.Mathlib.Decide.{ℕ_discrete}
use p2b.Proc.{nproc, nofile}
use p2b.Files.{
  Open, set_fd, set_ref, filedup, fileclose, share_file, share_files, drop_file, drop_files,
}
use p2b.Files.Count.{refs-pos}
use p2b.Files.Calls.{IsTable, filedup-some, filedup-IsTable, take_fd-IsTable, drop_fd-IsTable}
use p2b.Files.Descriptors.{close_held}

-- The loop of `fork` before descriptor `i`: the child has none from there on.
record Sharing (np i : ℕ) (s : Option Open) : Type 0 where
  sound :
      (o : Open) × (s ≡ some o)
      × IsTable none o
      × ((fd : ℕ) → i ≤ fd → fd < nofile → o.ofile np fd ≡ none)

share_file-Sharing :
    (p np i : ℕ) (s : Option Open)
    → p < nproc
    → np < nproc
    → i < nofile
    → Sharing np i s
    → Sharing np (i + 1) (share_file p np i s)
unfolding share_file
share_file-Sharing p np i s lt nlt below sh =
    let (o, e, t, later) = sh.sound in
    elim (Option-cases (o.ofile p i)) [
      | inl none_here ↦ record {
        sound = (o, rw (e, none_here, share_file) refl, t, λ fd le. later fd (omega arith));
      }
      | inr (f, here) ↦
          let fl = t.valid p i f lt below here in
          let some_ref = refs-pos o.ofile p i f lt below here in
          let o1 = set_ref f ((o.file f).ref + 1) o in
          let run : filedup f o ≡ some o1 =
            filedup-some f o (omega (arith, t.counted f fl, some_ref)) in
          record {
            sound = (
              set_fd np i (some f) o1,
              rw (e, here, run, share_file) refl,
              take_fd-IsTable np i f (filedup-IsTable f fl t some_ref) nlt below fl
                  (later i (omega arith) below),
              λ fd le small.
                  ap (λ g. g fd) (update_here o.ofile np (update (o.ofile np) i (some f)))
                  ∙ update_other (o.ofile np) i (some f) fd (λ same. omega arith)
                  ∙ later fd (omega arith) small,
            );
          }
    ]

pub share_files-IsTable :
    (p np : ℕ) {o : Open}
    → p < nproc
    → np < nproc
    → IsTable none o
    → ((fd : ℕ) → fd < nofile → o.ofile np fd ≡ none)
    → (o1 : Open) × (share_files p np o ≡ some o1) × IsTable none o1
unfolding share_files
share_files-IsTable p np {o} lt nlt t empty =
    let (o1, run, kept, _) =
      (for_range_inv (Sharing np) (share_file p np) nofile
        (λ i s below sh. share_file-Sharing p np i s lt nlt below sh) nofile 0 (some o)
        (omega arith) (record { sound = (o, refl, t, λ fd le small. empty fd small) })).sound in
    (o1, run, kept)

-- `fileclose` does not look at the descriptors.
fileclose-set_fd :
    (f p fd : ℕ) (v : Option ℕ) (o : Open)
    → fileclose f (set_fd p fd v o) ≡ Option.map (set_fd p fd v) (fileclose f o)
unfolding fileclose
fileclose-set_fd f p fd v o = elim (Bool-cases (ltb (o.file f).ref 1)) [
  | inl dead ↦ rw (dead, fileclose) refl
  | inr alive ↦ elim (Bool-cases (ltb 0 ((o.file f).ref - 1))) [
    | inl more ↦ rw (alive, more, fileclose) refl
    | inr last ↦ rw (alive, last, fileclose) refl
  ]
]

-- The loop of `exit` before descriptor `i`.
record Dropping (p i : ℕ) (s : Option Open) : Type 0 where
  sound : (o : Open) × (s ≡ some o) × IsTable none o × ((fd : ℕ) → fd < i → o.ofile p fd ≡ none)

dropped_fd :
    (o : Open) (p i fd : ℕ)
    → ((d : ℕ) → d < i → o.ofile p d ≡ none)
    → fd < i + 1
    → (set_fd p i none o).ofile p fd ≡ none
dropped_fd o p i fd earlier lt =
    ap (λ g. g fd) (update_here o.ofile p (update (o.ofile p) i none)) ∙ (elim (ℕ_discrete fd i) [
      | yes e ↦
          subst (λ d. update (o.ofile p) i none d ≡ none) (sym e) (update_here (o.ofile p) i none)
      | no ne ↦ update_other (o.ofile p) i none fd ne ∙ earlier fd (omega arith)
    ])

-- After closing, the descriptor is dropped: as if it had been dropped first.
drop_after :
    (o : Open) {o1 : Open} (p i f : ℕ)
    → fileclose f (set_fd p i none o) ≡ some o1
    → (o2 : Open) × (fileclose f o ≡ some o2) × (set_fd p i none o2 ≡ o1)
drop_after o {o1} p i f run = elim (Option-cases (fileclose f o)) [
  | inl dead ↦
      absurd (cc (sym run ∙ fileclose-set_fd f p i none o ∙ ap (Option.map (set_fd p i none)) dead))
  | inr (o2, e) ↦
      (o2, e, cc (sym run ∙ fileclose-set_fd f p i none o ∙ ap (Option.map (set_fd p i none)) e))
]

drop_file-Dropping :
    (p i : ℕ) (s : Option Open)
    → p < nproc
    → i < nofile
    → Dropping p i s
    → Dropping p (i + 1) (drop_file p i s)
unfolding drop_file
drop_file-Dropping p i s lt below dr =
    let (o, e, t, earlier) = dr.sound in
    elim (Option-cases (o.ofile p i)) [
      | inl none_here ↦ record {
        sound = (
          o,
          rw (e, none_here, drop_file) refl,
          t,
          λ fd le. elim (ℕ_discrete fd i) [
            | yes same ↦ subst (λ d. o.ofile p d ≡ none) (sym same) none_here
            | no ne ↦ earlier fd (omega arith)
          ],
        );
      }
      | inr (f, here) ↦
          let (o1, run, kept, same) =
            close_held f (t.valid p i f lt below here) (drop_fd-IsTable p i f t lt below here) in
          let (o2, close, joins) = drop_after o p i f run in
          record {
            sound = (
              o1,
              rw (e, here, close, drop_file) (ap some joins),
              kept,
              λ fd le. ap (λ g. g p fd) same ∙ dropped_fd o p i fd earlier le,
            );
          }
    ]

-- `exit` leaves the process without descriptors.
pub drop_files-IsTable :
    (p : ℕ) {o : Open}
    → p < nproc
    → IsTable none o
    → (o1 : Open) × (drop_files p o ≡ some o1)
      × IsTable none o1
      × ((fd : ℕ) → fd < nofile → o1.ofile p fd ≡ none)
unfolding drop_files
drop_files-IsTable p {o} lt t =
    (for_range_inv (Dropping p) (drop_file p) nofile
      (λ i s below dr. drop_file-Dropping p i s lt below dr) nofile 0 (some o) (omega arith)
      (record { sound = (o, refl, t, λ fd le. absurd (omega arith)) })).sound
