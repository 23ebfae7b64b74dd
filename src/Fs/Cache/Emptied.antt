-- ===== src/Fs/Cache/Emptied.antt =====
-- `itrunc` of fs.c as a whole: the blocks of a file become free, and no others.
use p2b.Prelude.{
  ℕ, ◌+◌, ◌-◌, ◌*◌, ◌<◌, ◌≤◌, ◌≡◌, ◌≢◌, refl, sym, ap, ◌∙◌, inl, inr, Bool, true, false, ◌||◌, some,
  arith, ◌==◌, if◌then◌else◌, Bool-cases,
}
use mathlib.Core.Path.{subst}
use native.Mathlib.Decide.{ℕ_discrete, dec_lt}
use p2b.Fs.{Disk, is_free}
use p2b.Fs.Bitmap.{IsBitmap}
use p2b.Fs.Inode.{Inode, ndirect, nindirect, max_file, get_word, inode_block}
use p2b.Fs.Inode.Blocks.{IsOwn, IsFile, ref_at, ref_at-block}
use p2b.Fs.Inode.Map.{block_at-none, block_at-low, block_at-table}
use p2b.Fs.Cache.{free_entries}
use p2b.Fs.Cache.Truncate.{
  IsGiven, AreOwn, AreFreed, among, among-here, among-not, free_entries_lem,
}

-- The references of the file that are blocks.
abbrev pub IsRefTo : (ip : Inode) (d : Disk) (c : ℕ) → Type 0
IsRefTo ip d c = (j : ℕ) × (j < 141) × (ref_at j ip d ≢ 0) × (ref_at j ip d ≡ c)

or_true : (b : Bool) → (b || true) ≡ true
or_true true = refl
or_true false = refl

module _ (ip : Inode) (d : Disk) (file : IsFile ip d) where
  direct_ref : (j : ℕ) → j < ndirect → ref_at j ip d ≡ ip.addrs j
  direct_ref j lt = ref_at-block j ip d (omega arith) ∙ block_at-low j ip d lt

  entry_ref :
      (j : ℕ)
      → j < nindirect
      → ip.addrs ndirect ≢ 0
      → ref_at (j + ndirect) ip d ≡ get_word (d.bytes (ip.addrs ndirect)) (4 * j)
  entry_ref j lt nz =
      let index : j + ndirect - ndirect ≡ j = omega arith in
      ref_at-block (j + ndirect) ip d (omega arith)
      ∙ block_at-table (j + ndirect) ip d (omega arith) nz
      ∙ ap (λ k. get_word (d.bytes (ip.addrs ndirect)) (4 * k)) index

  -- Reference `r` is to none of the direct blocks, and to no block of the table.
  pub not_direct :
      (r c : ℕ) → r < 142 → ndirect ≤ r → ref_at r ip d ≡ c → c ≢ 0 → among ip.addrs 12 0 c ≡ false
  not_direct r c lt le e nz = among-not ip.addrs 12 0 c (λ j _ hj jz q.
      let same : j ≡ r =
        file.apart j r (omega arith) lt (λ z. jz (sym (direct_ref j (omega arith)) ∙ z))
          (direct_ref j (omega arith) ∙ q ∙ sym e) in
      omega arith)

  pub not_entry :
      (r c : ℕ)
      → r < 142
      → max_file ≤ r
      → ref_at r ip d ≡ c
      → c ≢ 0
      → ip.addrs ndirect ≢ 0
      → among (λ j. get_word (d.bytes (ip.addrs ndirect)) (4 * j)) 128 0 c ≡ false
  not_entry r c lt le e nz table =
      among-not (λ j. get_word (d.bytes (ip.addrs ndirect)) (4 * j)) 128 0 c
        (λ j _ hj jz q.
          let same : j + ndirect ≡ r =
            file.apart (j + ndirect) r (omega arith) lt
              (λ z. jz (sym (entry_ref j (omega arith) table) ∙ z))
              (entry_ref j (omega arith) table ∙ q ∙ sym e) in
          omega arith)

  pub AreOwn-direct : AreOwn ip.addrs 0 12 d
  AreOwn-direct = record {
    own = λ j _ lt nz.
        subst (IsOwn d) (direct_ref j lt)
          (file.refs j (omega arith) (λ z. nz (sym (direct_ref j lt) ∙ z)));
    apart = λ i j _ ij lt nz e.
        let same : i ≡ j =
          file.apart i j (omega arith) (omega arith)
            (λ z. nz (sym (direct_ref i (omega arith)) ∙ z))
            (direct_ref i (omega arith) ∙ e ∙ sym (direct_ref j lt)) in
        omega arith;
  }

  -- What is left when the first loop has freed the direct blocks.
  module _ (d1 : Disk) (f : AreFreed ip.addrs 12 0 d d1) (table : ip.addrs ndirect ≢ 0) where
    pub IsOwn-table : IsOwn d (ip.addrs ndirect)
    IsOwn-table = file.refs max_file (omega arith) table

    pub table_out : among ip.addrs 12 0 (ip.addrs ndirect) ≡ false
    table_out = not_direct max_file (ip.addrs ndirect) (omega arith) (omega arith) refl table

    entries_same :
        (j : ℕ)
        → get_word (d1.bytes (ip.addrs ndirect)) (4 * j)
          ≡ get_word (d.bytes (ip.addrs ndirect)) (4 * j)
    entries_same j =
        let kept : (k : ℕ) → d1.bytes (ip.addrs ndirect) k ≡ d.bytes (ip.addrs ndirect) k =
          λ k. f.same (ip.addrs ndirect) k IsOwn-table table_out in
        rw (kept (4 * j), kept (4 * j + 1), kept (4 * j + 2), kept (4 * j + 3)) refl

    AreOwn-entries : AreOwn (λ j. get_word (d.bytes (ip.addrs ndirect)) (4 * j)) 0 128 d1
    AreOwn-entries = record {
      own = λ j _ lt nz.
          let is_ref = entry_ref j lt table in
          f.keeps (get_word (d.bytes (ip.addrs ndirect)) (4 * j))
            (subst (IsOwn d) is_ref
              (file.refs (j + ndirect) (omega arith) (λ z. nz (sym is_ref ∙ z))))
            (not_direct (j + ndirect) (get_word (d.bytes (ip.addrs ndirect)) (4 * j)) (omega arith)
              (omega arith) is_ref nz);
      apart = λ i j _ ij lt nz e.
          let same : i + ndirect ≡ j + ndirect =
            file.apart (i + ndirect) (j + ndirect) (omega arith) (omega arith)
              (λ z. nz (sym (entry_ref i (omega arith) table) ∙ z))
              (entry_ref i (omega arith) table ∙ e ∙ sym (entry_ref j lt table)) in
          omega arith;
    }

    pub freed_rest :
        (d2 : Disk) × (free_entries nindirect 0 (ip.addrs ndirect) d1 ≡ some d2)
        × AreFreed (λ j. get_word (d.bytes (ip.addrs ndirect)) (4 * j)) 128 0 d1 d2
    freed_rest =
        free_entries_lem 128 0 (ip.addrs ndirect)
          (λ j. get_word (d.bytes (ip.addrs ndirect)) (4 * j)) d1 f.bitmap
          (f.keeps (ip.addrs ndirect) IsOwn-table table_out) AreOwn-entries
          (λ j _ lt nz q.
            let same : j + ndirect ≡ max_file =
              file.apart (j + ndirect) max_file (omega arith) (omega arith)
                (λ z. nz (sym (entry_ref j lt table) ∙ z)) (entry_ref j lt table ∙ q) in
            omega arith)
          entries_same

-- The references of an inode are free, no other block has become free or gone into use.
pub record IsEmptied (ip : Inode) (d d' : Disk) : Type 0 where
  pub bitmap : IsBitmap d'
  pub sb : d'.sb ≡ d.sb
  pub freed : (c : ℕ) → IsRefTo ip d c → is_free d' c ≡ true
  pub kept : (c : ℕ) → c < d.sb.size → (IsRefTo ip d c → ⊥) → is_free d' c ≡ is_free d c

module _ (ip : Inode) (d : Disk) (file : IsFile ip d) (d1 : Disk)
    (f : AreFreed ip.addrs 12 0 d d1) where
  pub ref_below : (c : ℕ) → IsRefTo ip d c → c < d.sb.size
  ref_below c (j, lt, nz, e) = subst (λ b. b < d.sb.size) e ((file.refs j (omega arith) nz).below)

  direct_freed : (j : ℕ) → j < ndirect → ref_at j ip d ≢ 0 → is_free d1 (ref_at j ip d) ≡ true
  direct_freed j lt nz =
      let eq = direct_ref ip d file j lt in
      let nz' : ip.addrs j ≢ 0 = λ z. nz (eq ∙ z) in
      let here = among-here ip.addrs 12 0 j (omega arith) (omega arith) nz' in
      subst (λ c. is_free d1 c ≡ true) (sym eq)
        (f.marks (ip.addrs j) (ref_below (ip.addrs j) (j, (omega arith), nz, eq)) ∙ rw here refl)

  direct_kept : (c : ℕ) → c < d.sb.size → (IsRefTo ip d c → ⊥) → is_free d1 c ≡ is_free d c
  direct_kept c lt out =
      f.marks c lt
      ∙ (let none_there = among-not ip.addrs 12 0 c (λ j _ hj jz e. out (
        j,
        (omega arith),
        (λ z. jz (sym (direct_ref ip d file j (omega arith)) ∙ z)),
        (direct_ref ip d file j (omega arith) ∙ e),
      )) in
          rw none_there refl)

  home_block : IsOwn d (inode_block d ip.inum)
  home_block = file.refs 141 (omega arith) file.home

  pub home_kept : IsOwn d1 (inode_block d ip.inum)
  home_kept =
      f.keeps (inode_block d ip.inum) home_block (
        not_direct ip d file 141 (inode_block d ip.inum) (omega arith) (omega arith) refl file.home)

  -- Without a table of indirect blocks.
  pub IsEmptied-direct : ip.addrs ndirect ≡ 0 → IsEmptied ip d d1
  IsEmptied-direct z = record {
    bitmap = f.bitmap;
    sb = f.sb;
    freed = λ c (j, lt, nz, e).
        subst (λ b. is_free d1 b ≡ true) e
          (elim (dec_lt j ndirect) [
            | yes low ↦ direct_freed j low nz
            | no high ↦ elim (ℕ_discrete j max_file) [
              | yes t ↦ absurd (nz (ap (λ k. ref_at k ip d) t ∙ z))
              | no nt ↦
                  absurd
                    (nz (ref_at-block j ip d (omega arith) ∙ block_at-none j ip d (omega arith) z))
            ]
          ]);
    kept = direct_kept;
  }

  -- With one, which is freed last.
  module _ (table : ip.addrs ndirect ≢ 0) (d2 : Disk)
      (f2 : AreFreed (λ j. get_word (d.bytes (ip.addrs ndirect)) (4 * j)) 128 0 d1 d2) (d3 : Disk)
      (last : IsGiven d2 (ip.addrs ndirect) d3) where
    later : (c : ℕ) → c < d.sb.size → is_free d2 c ≡ true → is_free d3 c ≡ true
    later c lt h =
        last.marks c (subst (λ s. c < s.size) (sym (f2.sb ∙ f.sb)) lt)
        ∙ elim (Bool-cases (ip.addrs ndirect == c)) [ inl e ↦ rw e refl | inr e ↦ rw e h ]

    stays : (c : ℕ) → c < d.sb.size → is_free d1 c ≡ true → is_free d3 c ≡ true
    stays c lt h = later c lt (
        f2.marks c (subst (λ s. c < s.size) (sym f.sb) lt)
        ∙ ap (λ b. among (λ j. get_word (d.bytes (ip.addrs ndirect)) (4 * j)) 128 0 c || b) h
        ∙ or_true (among (λ j. get_word (d.bytes (ip.addrs ndirect)) (4 * j)) 128 0 c))

    entry_freed :
        (j : ℕ)
        → j < nindirect
        → ref_at (j + ndirect) ip d ≢ 0
        → is_free d3 (ref_at (j + ndirect) ip d) ≡ true
    entry_freed j lt nz =
        let eq = entry_ref ip d file j lt table in
        let w : ℕ = get_word (d.bytes (ip.addrs ndirect)) (4 * j) in
        let below = ref_below w (j + ndirect, (omega arith), nz, eq) in
        let here =
          among-here (λ k. get_word (d.bytes (ip.addrs ndirect)) (4 * k)) 128 0 j (omega arith)
            (omega arith) (λ z. nz (eq ∙ z)) in
        subst (λ c. is_free d3 c ≡ true) (sym eq)
          (later w below (
            f2.marks w (subst (λ s. w < s.size) (sym f.sb) below)
            ∙ ap (λ b. b || is_free d1 w) here))

    table_freed : is_free d3 (ip.addrs ndirect) ≡ true
    table_freed =
        let same : (ip.addrs ndirect == ip.addrs ndirect) ≡ true = ground arith in
        let below = ref_below (ip.addrs ndirect) (max_file, (omega arith), table, refl) in
        last.marks (ip.addrs ndirect)
          (subst (λ s. ip.addrs ndirect < s.size) (sym (f2.sb ∙ f.sb)) below)
        ∙ rw same refl

    table_kept : (c : ℕ) → c < d.sb.size → (IsRefTo ip d c → ⊥) → is_free d3 c ≡ is_free d c
    table_kept c lt out =
        let not_table : (ip.addrs ndirect == c) ≡ false =
          (let ne : ip.addrs ndirect ≢ c = λ e. out (max_file, (omega arith), table, e) in
            ground arith) in
        let none_there =
          among-not (λ k. get_word (d.bytes (ip.addrs ndirect)) (4 * k)) 128 0 c
            (λ j _ hj jz e.
              let eq = entry_ref ip d file j (omega arith) table in
              out (j + ndirect, (omega arith), (λ z. jz (sym eq ∙ z)), (eq ∙ e))) in
        last.marks c (subst (λ s. c < s.size) (sym (f2.sb ∙ f.sb)) lt)
        ∙ ap (λ b. if b then true else is_free d2 c) not_table
        ∙ f2.marks c (subst (λ s. c < s.size) (sym f.sb) lt)
        ∙ ap (λ b. b || is_free d1 c) none_there
        ∙ direct_kept c lt out

    pub IsEmptied-table : IsEmptied ip d d3
    IsEmptied-table = record {
      bitmap = last.bitmap;
      sb = last.sb ∙ f2.sb ∙ f.sb;
      freed = λ c (j, lt, nz, e).
          subst (λ b. is_free d3 b ≡ true) e
            (elim (dec_lt j ndirect) [
              | yes low ↦
                  stays (ref_at j ip d) (ref_below (ref_at j ip d) (j, lt, nz, refl))
                    (direct_freed j low nz)
              | no high ↦ elim (ℕ_discrete j max_file) [
                | yes t ↦ subst (λ k. is_free d3 (ref_at k ip d) ≡ true) (sym t) table_freed
                | no nt ↦
                    let index : j - ndirect + ndirect ≡ j = omega arith in
                    subst (λ k. is_free d3 (ref_at k ip d) ≡ true) index
                      (entry_freed (j - ndirect) (omega arith)
                        (λ z. nz (ap (λ k. ref_at k ip d) (sym index) ∙ z)))
              ]
            ]);
      kept = table_kept;
    }

    pub home_left : IsOwn d3 (inode_block d ip.inum)
    home_left =
        last.keeps (inode_block d ip.inum)
          (f2.keeps (inode_block d ip.inum) home_kept (
            not_entry ip d file 141 (inode_block d ip.inum) (omega arith) (omega arith) refl
              file.home table))
          (λ e.
            let same : 141 ≡ max_file =
              file.apart 141 max_file (omega arith) (omega arith) file.home e in
            omega arith)
