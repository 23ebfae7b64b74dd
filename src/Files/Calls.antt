-- ===== src/Files/Calls.antt =====
-- Each call of file.c keeps the counts of references right.
use p2b.Prelude.{
  ℕ, ◌+◌, ◌-◌, ◌<◌, ◌≤◌, ◌≡◌, ◌≢◌, ◌⊎◌, refl, ap, sym, ◌∙◌, true, false, Option, none, some, List,
  arith, ◌==◌, ltb, update, update_here, update_other, Bool-cases, Option-cases, inl, inr,
  find_first, find_first-some,
}
use mathlib.Core.Path.{subst}
use native.Mathlib.Decide.{ℕ_discrete}
use p2b.Proc.{nproc, nofile}
use p2b.Files.{
  nfile, File, fd_none, Open, set_fd, set_ref, filealloc, filedup, fileclose, close_last, Release,
  releases, is_null, fdalloc,
}
use p2b.Files.Count.{points, refs, refs-update}

-- The count of each file is the number of its descriptors, and one more for the file `held` by the call
-- under way. A file with no reference is of no type.
pub record IsTable (held : Option ℕ) (o : Open) : Type 0 where
  pub counted : (f : ℕ) → f < nfile → (o.file f).ref ≡ refs o.ofile f + points held f
  pub valid : (p fd f : ℕ) → p < nproc → fd < nofile → o.ofile p fd ≡ some f → f < nfile
  pub idle : (f : ℕ) → f < nfile → (o.file f).ref ≡ 0 → (o.file f).type ≡ fd_none

-- A file takes a new count, and the call holds one reference more or less.
pub IsTable-recount :
    {held held' : Option ℕ} {o : Open} (f : ℕ) (x : File) (l : List Release)
    → IsTable held o
    → f < nfile
    → ((g : ℕ) → g ≢ f → points held g ≡ points held' g)
    → x.ref ≡ refs o.ofile f + points held' f
    → (x.ref ≡ 0 → x.type ≡ fd_none)
    → IsTable held' (record o { file = update o.file f x; released = l })
IsTable-recount {held} {held'} {o} f x l t lt same count none_left = record {
  counted = λ g gl. elim (ℕ_discrete g f) [
    | yes e ↦
        subst (λ k. (update o.file f x k).ref ≡ refs o.ofile k + points held' k) (sym e)
          (ap (λ y. y.ref) (update_here o.file f x) ∙ count)
    | no ne ↦
        ap (λ y. y.ref) (update_other o.file f x g ne) ∙ omega (arith, t.counted g gl, same g ne)
  ];
  valid = t.valid;
  idle = λ g gl z. elim (ℕ_discrete g f) [
    | yes e ↦
        subst (λ k. (update o.file f x k).type ≡ fd_none) (sym e)
          (ap (λ y. y.type) (update_here o.file f x)
            ∙ none_left (
                sym (ap (λ y. y.ref) (update_here o.file f x))
                ∙ subst (λ k. (update o.file f x k).ref ≡ 0) e z))
    | no ne ↦
        ap (λ y. y.type) (update_other o.file f x g ne)
        ∙ t.idle g gl (sym (ap (λ y. y.ref) (update_other o.file f x g ne)) ∙ z)
  ];
}

-- A descriptor changes, and what the call holds makes up for it.
IsTable-set_fd :
    {held held' : Option ℕ} {o : Open} (p fd : ℕ) (v : Option ℕ)
    → IsTable held o
    → p < nproc
    → fd < nofile
    → ((f : ℕ) → v ≡ some f → f < nfile)
    → ((f : ℕ) → points held f + points (o.ofile p fd) f ≡ points held' f + points v f)
    → IsTable held' (set_fd p fd v o)
IsTable-set_fd {held} {held'} {o} p fd v t lt below small balance = record {
  counted = λ f fl. omega (arith, t.counted f fl, balance f, refs-update o.ofile p fd f v lt below);
  valid = λ q d f ql dl e. elim (ℕ_discrete q p) [
    | no other ↦
        t.valid q d f ql dl
          (sym (ap (λ g. g d) (update_other o.ofile p (update (o.ofile p) fd v) q other)) ∙ e)
    | yes same ↦ elim (ℕ_discrete d fd) [
      | yes here ↦ small f (
          sym (update_here (o.ofile p) fd v)
          ∙ sym (ap (λ g. g fd) (update_here o.ofile p (update (o.ofile p) fd v)))
          ∙ subst (λ k. update o.ofile p (update (o.ofile p) fd v) p k ≡ some f) here
              (subst (λ k. update o.ofile p (update (o.ofile p) fd v) k d ≡ some f) same e))
      | no ne ↦ t.valid p d f lt dl (
          sym (update_other (o.ofile p) fd v d ne)
          ∙ sym (ap (λ g. g d) (update_here o.ofile p (update (o.ofile p) fd v)))
          ∙ subst (λ k. update o.ofile p (update (o.ofile p) fd v) k d ≡ some f) same e)
    ]
  ];
  idle = t.idle;
}

points_self : (f : ℕ) → points (some f) f ≡ 1
points_self f = ground arith

points_other : (f g : ℕ) → g ≢ f → points none g ≡ points (some f) g
points_other f g ne = ground arith

-- `filealloc` finds a file without references, and the call holds one to it.
pub filealloc-IsTable :
    {o : Open}
    → IsTable none o
    → (filealloc o ≡ none)
      ⊎ ((f : ℕ) × (f < nfile)
          × ((o.file f).ref ≡ 0)
          × (filealloc o ≡ some (f, set_ref f 1 o))
          × IsTable (some f) (set_ref f 1 o))
unfolding filealloc
filealloc-IsTable {o} t = elim (Option-cases (find_first (λ x. x.ref == 0) nfile 0 o.file)) [
  | inl full ↦ inl (rw (full, filealloc) refl)
  | inr (f, hit) ↦
      let first = find_first-some (λ x. x.ref == 0) nfile 0 o.file f hit in
      let lt : f < nfile = omega (arith, first.upper) in
      let free : (o.file f).ref ≡ 0 = ground (arith, first.passes) in
      inr (
        f,
        lt,
        free,
        rw (hit, filealloc) refl,
        IsTable-recount f (record (o.file f) { ref = 1 }) o.released t lt (points_other f)
            (omega (arith, points_self f, t.counted f lt, free)) (λ z. absurd (omega arith)),
      )
]

pub filedup-some :
    (f : ℕ) (o : Open) → 1 ≤ (o.file f).ref → filedup f o ≡ some (set_ref f ((o.file f).ref + 1) o)
unfolding filedup
filedup-some f o some_ref = let alive : ltb (o.file f).ref 1 ≡ false = ground arith in rw alive

module _ {o : Open} (f : ℕ) (lt : f < nfile) where
  pub filedup-IsTable :
      IsTable none o → 1 ≤ refs o.ofile f → IsTable (some f) (set_ref f ((o.file f).ref + 1) o)
  filedup-IsTable t some_ref =
      IsTable-recount f (record (o.file f) { ref = (o.file f).ref + 1 }) o.released t lt
        (points_other f) (omega (arith, points_self f, t.counted f lt)) (λ z. absurd (omega arith))

  -- `fileclose` lets go what the file is for just if no descriptor is left.
  pub fileclose-IsTable :
      IsTable (some f) o
      → ((1 ≤ refs o.ofile f)
          × (fileclose f o ≡ some (set_ref f ((o.file f).ref - 1) o))
          × IsTable none (set_ref f ((o.file f).ref - 1) o))
        ⊎ ((refs o.ofile f ≡ 0)
            × (fileclose f o ≡ some (close_last f o))
            × IsTable none (close_last f o))
  unfolding fileclose
  fileclose-IsTable t =
      let count : (o.file f).ref ≡ refs o.ofile f + 1 =
        t.counted f lt ∙ ap (λ n. refs o.ofile f + n) (points_self f) in
      let alive : ltb (o.file f).ref 1 ≡ false = ground arith in
      let same : (g : ℕ) → g ≢ f → points (some f) g ≡ points none g =
        λ g ne. sym (points_other f g ne) in
      elim (Bool-cases (ltb 0 ((o.file f).ref - 1))) [
        | inl more ↦ inl (
          ground arith,
          rw (alive, more),
          IsTable-recount f (record (o.file f) { ref = (o.file f).ref - 1 }) o.released t lt same
              (omega arith) (λ z. ground arith),
        )
        | inr last ↦ inr (
          ground arith,
          rw (alive, last),
          IsTable-recount f (record (o.file f) { ref = 0; type = fd_none })
              (releases (o.file f) o.released) t lt same (ground arith) (λ z. refl),
        )
      ]

is_null-none : (v : Option ℕ) → is_null v ≡ true → v ≡ none
is_null-none none h = refl
is_null-none (some g) h = absurd (cc h)

-- `fdalloc` finds a free descriptor if there is one.
pub fdalloc-cases :
    (p f : ℕ) (o : Open)
    → (fdalloc p f o ≡ none)
      ⊎ ((fd : ℕ) × (fd < nofile)
          × (o.ofile p fd ≡ none)
          × (fdalloc p f o ≡ some (fd, set_fd p fd (some f) o)))
unfolding fdalloc
fdalloc-cases p f o = elim (Option-cases (find_first is_null nofile 0 (o.ofile p))) [
  | inl full ↦ inl (rw (full, fdalloc) refl)
  | inr (fd, hit) ↦
      let first = find_first-some is_null nofile 0 (o.ofile p) fd hit in
      inr (
        fd,
        omega (arith, first.upper),
        is_null-none (o.ofile p fd) first.passes,
        rw (hit, fdalloc) refl,
      )
]

-- A free descriptor takes over the reference that the call holds.
pub take_fd-IsTable :
    {o : Open} (p fd f : ℕ)
    → IsTable (some f) o
    → p < nproc
    → fd < nofile
    → f < nfile
    → o.ofile p fd ≡ none
    → IsTable none (set_fd p fd (some f) o)
take_fd-IsTable {o} p fd f t lt below small free =
    IsTable-set_fd p fd (some f) t lt below (λ g e. subst (λ k. k < nfile) (cc e) small)
      (λ g. rw free (omega arith))

-- A descriptor is given up, and the call holds its reference.
pub drop_fd-IsTable :
    {o : Open} (p fd f : ℕ)
    → IsTable none o
    → p < nproc
    → fd < nofile
    → o.ofile p fd ≡ some f
    → IsTable (some f) (set_fd p fd none o)
drop_fd-IsTable {o} p fd f t lt below e =
    IsTable-set_fd p fd none t lt below (λ g h. absurd (cc h)) (λ g. rw e (omega arith))
