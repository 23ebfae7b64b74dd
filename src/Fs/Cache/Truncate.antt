-- ===== src/Fs/Cache/Truncate.antt =====
-- `itrunc` of fs.c: which blocks it frees.
use p2b.Prelude.{
  ℕ, zero, suc, ◌+◌, ◌*◌, ◌/◌, ◌<◌, ◌≤◌, ◌≡◌, ◌≢◌, refl, sym, ap, ◌∙◌, ◌⊎◌, inl, inr, Bool, true,
  false, not, ◌&&◌, ◌||◌, some, arith, ◌==◌, if◌then◌else◌, update, Bool-cases,
}
use mathlib.Core.Path.{subst}
use native.Mathlib.Decide.{ℕ_discrete}
use p2b.Fs.{Disk, is_free, bfree}
use p2b.Fs.Bitmap.{IsBitmap, bfree_lem}
use p2b.Fs.Inode.{Inode, get_word}
use p2b.Fs.Inode.Blocks.{IsOwn}
use p2b.Fs.Cache.{free_direct, free_entries}

-- `bfree` of a block of a file: it succeeds, and the other blocks of files are as before.
pub record IsGiven (d : Disk) (b : ℕ) (d' : Disk) : Type 0 where
  pub bitmap : IsBitmap d'
  pub sb : d'.sb ≡ d.sb
  pub marks : (c : ℕ) → c < d.sb.size → is_free d' c ≡ (if b == c then true else is_free d c)
  pub keeps : (c : ℕ) → IsOwn d c → c ≢ b → IsOwn d' c
  pub same : (c i : ℕ) → IsOwn d c → d'.bytes c i ≡ d.bytes c i

pub bfree-IsOwn :
    (b : ℕ) (d : Disk)
    → IsBitmap d
    → IsOwn d b
    → (d' : Disk) × (bfree b d ≡ some d') × IsGiven d b d'
bfree-IsOwn b d bm own = elim (bfree_lem d b bm own.below own.off_bitmap) [
  | inl (free, _) ↦ absurd (ground (arith, own.used))
  | inr (used, (d', e, f)) ↦ (
    d',
    e,
    record {
      bitmap = f.bitmap;
      sb = f.sb;
      marks = f.marks;
      keeps = λ c o ne. record {
        below = subst (λ s. c < s.size) (sym f.sb) o.below;
        used = f.marks c o.below ∙ (let other : (b == c) ≡ false = ground arith in rw other o.used);
        off_bitmap = λ k lt q.
            o.off_bitmap k (subst (λ s. k < s.size) f.sb lt)
              (sym (ap (λ s. k / 4096 + s.bmapstart) f.sb) ∙ q);
      };
      same = λ c i o. f.others c i (λ q. o.off_bitmap b own.below (sym q));
    },
  )
]

-- The numbers `g i` for `i` from `i0` up to `top` that are not 0 are different blocks of a file.
pub record AreOwn (g : ℕ → ℕ) (i0 top : ℕ) (d : Disk) : Type 0 where
  pub own : (i : ℕ) → i0 ≤ i → i < top → g i ≢ 0 → IsOwn d (g i)
  pub apart : (i j : ℕ) → i0 ≤ i → i < j → j < top → g i ≢ 0 → g i ≢ g j

-- A block is among them.
pub among : (g : ℕ → ℕ) (n i b : ℕ) → Bool
among g zero i b = false
among g (suc n) i b = (not (g i == 0) && (g i == b)) || among g n (i + 1) b

-- They are freed, and no other block.
pub record AreFreed (g : ℕ → ℕ) (n i0 : ℕ) (d d' : Disk) : Type 0 where
  pub bitmap : IsBitmap d'
  pub sb : d'.sb ≡ d.sb
  pub marks : (c : ℕ) → c < d.sb.size → is_free d' c ≡ (among g n i0 c || is_free d c)
  pub keeps : (c : ℕ) → IsOwn d c → among g n i0 c ≡ false → IsOwn d' c
  pub same : (c i : ℕ) → IsOwn d c → (among g n i0 c ≡ false) → d'.bytes c i ≡ d.bytes c i

AreFreed-none : (g : ℕ → ℕ) (i : ℕ) (d : Disk) → IsBitmap d → AreFreed g 0 i d d
unfolding among
AreFreed-none g i d bm = record {
  bitmap = bm;
  sb = refl;
  marks = λ c lt. refl;
  keeps = λ c o _. o;
  same = λ c i o _. refl;
}

AreOwn-next : (g : ℕ → ℕ) (i top : ℕ) (d : Disk) → AreOwn g i top d → AreOwn g (i + 1) top d
AreOwn-next g i top d a = record {
  own = λ j le lt nz. a.own j (omega arith) lt nz;
  apart = λ j k le lt top nz. a.apart j k (omega arith) lt top nz;
}

AreOwn-given :
    (g : ℕ → ℕ) (i top : ℕ) (d d' : Disk)
    → i < top
    → g i ≢ 0
    → AreOwn g i top d
    → IsGiven d (g i) d'
    → AreOwn g (i + 1) top d'
AreOwn-given g i top d d' lt nz a f = record {
  own = λ j le jt jz.
      f.keeps (g j) (a.own j (omega arith) jt jz)
        (λ e. a.apart i j (omega arith) (omega arith) jt nz (sym e));
  apart = λ j k le jk kt jz. a.apart j k (omega arith) jk kt jz;
}

-- No number is freed twice on the way.
AreFreed-skip :
    (g : ℕ → ℕ) (n i : ℕ) (d d' : Disk)
    → g i ≡ 0
    → AreFreed g n (i + 1) d d'
    → AreFreed g (suc n) i d d'
unfolding among
AreFreed-skip g n i d d' z f =
    let skip : (g i == 0) ≡ true = ground arith in
    record {
      bitmap = f.bitmap;
      sb = f.sb;
      marks = λ c lt. rw skip (f.marks c lt);
      keeps = λ c o h. f.keeps c o (rw skip at h);
      same = λ c k o h. f.same c k o (rw skip at h);
    }

AreFreed-one :
    (g : ℕ → ℕ) (n i : ℕ) (d d1 d' : Disk)
    → g i ≢ 0
    → IsGiven d (g i) d1
    → AreFreed g n (i + 1) d1 d'
    → AreFreed g (suc n) i d d'
unfolding among
AreFreed-one g n i d d1 d' nz o f = record {
  bitmap = f.bitmap;
  sb = f.sb ∙ o.sb;
  marks = λ c lt.
      f.marks c (subst (λ s. c < s.size) (sym o.sb) lt)
      ∙ ap (λ z. among g n (i + 1) c || z) (o.marks c lt)
      ∙ merge c;
  keeps = λ c own h. f.keeps c (o.keeps c own (not_first c h)) (not_later c h);
  same = λ c k own h. f.same c k (o.keeps c own (not_first c h)) (not_later c h) ∙ o.same c k own;
}
  where
    there : (g i == 0) ≡ false
    there = ground arith

    merge :
        (c : ℕ)
        → (among g n (i + 1) c || (if g i == c then true else is_free d c))
          ≡ (among g (suc n) i c || is_free d c)
    merge c = rw there (elim (Bool-cases (g i == c)) [
      | inl e ↦
          rw e (elim (Bool-cases (among g n (i + 1) c)) [ inl h ↦ rw h refl | inr h ↦ rw h refl ])
      | inr e ↦ rw e refl
    ])

    split : (c : ℕ) → among g (suc n) i c ≡ false → ((g i == c) || among g n (i + 1) c) ≡ false
    split c h = rw there at h

    not_first : (c : ℕ) → among g (suc n) i c ≡ false → c ≢ g i
    not_first c h e =
        let eq : (g i == c) ≡ true = ground arith in
        let bad : true ≡ false = rw eq at (split c h) in ground arith

    not_later : (c : ℕ) → among g (suc n) i c ≡ false → among g n (i + 1) c ≡ false
    not_later c h = elim (Bool-cases (g i == c)) [
      | inl e ↦ absurd (let bad : true ≡ false = rw e at (split c h) in ground arith)
      | inr e ↦ rw e at (split c h)
    ]

-- The inode after the first loop: the addresses from `i` on are 0.
pub record IsCleared (n i : ℕ) (ip ip' : Inode) : Type 0 where
  pub fields : ip' ≡ record ip { addrs = ip'.addrs }
  pub cleared : (j : ℕ) → i ≤ j → j < i + n → ip'.addrs j ≡ 0
  pub rest : (j : ℕ) → (j < i) ⊎ (i + n ≤ j) → ip'.addrs j ≡ ip.addrs j

IsCleared-skip :
    (n i : ℕ) (ip ip' : Inode)
    → ip.addrs i ≡ 0
    → IsCleared n (i + 1) ip ip'
    → IsCleared (suc n) i ip ip'
IsCleared-skip n i ip ip' z k = record {
  fields = k.fields;
  cleared = λ j lo hi. elim (ℕ_discrete j i) [
    | yes e ↦ k.rest j (inl (omega arith)) ∙ ap ip.addrs e ∙ z
    | no ne ↦ k.cleared j (omega arith) (omega arith)
  ];
  rest = λ j out. elim out [
    | inl below ↦ k.rest j (inl (omega arith))
    | inr above ↦ k.rest j (inr (omega arith))
  ];
}

IsCleared-one :
    (n i : ℕ) (ip ip' : Inode)
    → IsCleared n (i + 1) (record ip { addrs = update ip.addrs i 0 }) ip'
    → IsCleared (suc n) i ip ip'
IsCleared-one n i ip ip' k = record {
  fields = k.fields;
  cleared = λ j lo hi. elim (ℕ_discrete j i) [
    | yes e ↦ let hit : (i == j) ≡ true = ground arith in k.rest j (inl (omega arith)) ∙ rw hit refl
    | no ne ↦ k.cleared j (omega arith) (omega arith)
  ];
  rest = λ j out.
      let miss : (i == j) ≡ false = (elim out [
        | inl below ↦ ground arith
        | inr above ↦ ground arith
      ]) in
      (elim out [
        | inl below ↦ k.rest j (inl (omega arith))
        | inr above ↦ k.rest j (inr (omega arith))
      ])
      ∙ rw miss refl;
}

pub free_direct_lem :
    (n i : ℕ) (g : ℕ → ℕ) (ip : Inode) (d : Disk)
    → IsBitmap d
    → AreOwn g i (i + n) d
    → ((j : ℕ) → i ≤ j → ip.addrs j ≡ g j)
    → (ip' : Inode) × (d' : Disk) × (free_direct n i ip d ≡ some (ip', d'))
      × AreFreed g n i d d'
      × IsCleared n i ip ip'
unfolding free_direct
free_direct_lem zero i g ip d bm a same = (
  ip,
  d,
  refl,
  AreFreed-none g i d bm,
  record { fields = refl; cleared = λ j lo hi. absurd (omega arith); rest = λ j out. refl },
)
free_direct_lem (suc n) i g ip d bm a same = elim (ℕ_discrete (g i) 0) [
  | yes z ↦
      let top : i + suc n ≡ i + 1 + n = omega arith in
      let none_there : (ip.addrs i == 0) ≡ true = ground (arith, same i) in
      let (ip', d', e, f, k) =
        free_direct_lem n (i + 1) g ip d bm
          (subst (λ t. AreOwn g (i + 1) t d) top (AreOwn-next g i (i + suc n) d a))
          (λ j le. same j (omega arith)) in
      (
        ip',
        d',
        rw (none_there, free_direct) e,
        AreFreed-skip g n i d d' z f,
        IsCleared-skip n i ip ip' (same i (omega arith) ∙ z) k,
      )
  | no nz ↦
      let top : i + suc n ≡ i + 1 + n = omega arith in
      let there : (ip.addrs i == 0) ≡ false = ground (arith, same i) in
      let eq : ip.addrs i ≡ g i = same i (omega arith) in
      let (d1, e1, o) = bfree-IsOwn (g i) d bm (a.own i (omega arith) (omega arith) nz) in
      let ip1 : Inode = record ip { addrs = update ip.addrs i 0 } in
      let (ip', d', e, f, k) =
        free_direct_lem n (i + 1) g ip1 d1 o.bitmap
          (subst (λ t. AreOwn g (i + 1) t d1) top
            (AreOwn-given g i (i + suc n) d d1 (omega arith) nz a o))
          (λ j le. skip_update j le ∙ same j (omega arith)) in
      (
        ip',
        d',
        rw (there, eq, e1, free_direct) e,
        AreFreed-one g n i d d1 d' nz o f,
        IsCleared-one n i ip ip' k,
      )
]
  where
    skip_update : (j : ℕ) → i + 1 ≤ j → update ip.addrs i 0 j ≡ ip.addrs j
    skip_update j le = let miss : (i == j) ≡ false = ground arith in rw miss refl

module _ (g : ℕ → ℕ) where
  pub among-here : (n i j : ℕ) → i ≤ j → j < i + n → g j ≢ 0 → among g n i (g j) ≡ true
  unfolding among
  among-here zero i j le lt nz = absurd (omega arith)
  among-here (suc n) i j le lt nz = elim (ℕ_discrete i j) [
    | yes e ↦
        let nonzero : (g i == 0) ≡ false =
          let q : g i ≢ 0 = λ z. nz (ap g (sym e) ∙ z) in ground arith in
        let same : (g i == g j) ≡ true = let q : g i ≡ g j = ap g e in ground arith in
        rw (nonzero, same) refl
    | no ne ↦
        rw (among-here n (i + 1) j (omega arith) (omega arith) nz)
          (elim (Bool-cases (not (g i == 0) && (g i == g j))) [
            | inl h ↦ rw h refl
            | inr h ↦ rw h refl
          ])
  ]

  pub among-not :
      (n i c : ℕ) → ((j : ℕ) → i ≤ j → j < i + n → g j ≢ 0 → g j ≢ c) → among g n i c ≡ false
  unfolding among
  among-not zero i c out = refl
  among-not (suc n) i c out =
      let rest = among-not n (i + 1) c (λ j le lt. out j (omega arith) (omega arith)) in
      elim (ℕ_discrete (g i) 0) [
        | yes z ↦ let zero_here : (g i == 0) ≡ true = ground arith in rw zero_here rest
        | no nz ↦
            let ne : g i ≢ c = out i (omega arith) (omega arith) nz in
            let other : (g i == c) ≡ false = ground arith in
            rw other (elim (Bool-cases (g i == 0)) [ inl h ↦ rw h rest | inr h ↦ rw h rest ])
      ]

pub free_entries_lem :
    (n i t : ℕ) (g : ℕ → ℕ) (d : Disk)
    → IsBitmap d
    → IsOwn d t
    → AreOwn g i (i + n) d
    → ((j : ℕ) → i ≤ j → j < i + n → g j ≢ 0 → g j ≢ t)
    → ((j : ℕ) → get_word (d.bytes t) (4 * j) ≡ g j)
    → (d' : Disk) × (free_entries n i t d ≡ some d') × AreFreed g n i d d'
unfolding free_entries
free_entries_lem zero i t g d bm own a out same = (d, refl, AreFreed-none g i d bm)
free_entries_lem (suc n) i t g d bm own a out same = elim (ℕ_discrete (g i) 0) [
  | yes z ↦
      let none_there : (get_word (d.bytes t) (4 * i) == 0) ≡ true = ground (arith, same i) in
      let (d', e, f) =
        free_entries_lem n (i + 1) t g d bm own
          (subst (λ q. AreOwn g (i + 1) q d) top (AreOwn-next g i (i + suc n) d a))
          (λ j le lt. out j (omega arith) (omega arith)) same in
      (d', rw (none_there, free_entries) e, AreFreed-skip g n i d d' z f)
  | no nz ↦
      let there : (get_word (d.bytes t) (4 * i) == 0) ≡ false = ground (arith, same i) in
      let (d1, e1, o) = bfree-IsOwn (g i) d bm (a.own i (omega arith) (omega arith) nz) in
      let kept : (k : ℕ) → d1.bytes t k ≡ d.bytes t k = λ k. o.same t k own in
      let (d', e, f) =
        free_entries_lem n (i + 1) t g d1 o.bitmap
          (o.keeps t own (λ q. out i (omega arith) (omega arith) nz (sym q)))
          (subst (λ q. AreOwn g (i + 1) q d1) top
            (AreOwn-given g i (i + suc n) d d1 (omega arith) nz a o))
          (λ j le lt. out j (omega arith) (omega arith))
          (λ j. rw (kept (4 * j), kept (4 * j + 1), kept (4 * j + 2), kept (4 * j + 3)) (same j)) in
      (d', rw (there, same i, e1, free_entries) e, AreFreed-one g n i d d1 d' nz o f)
]
  where
    top : i + suc n ≡ i + 1 + n
    top = omega arith
