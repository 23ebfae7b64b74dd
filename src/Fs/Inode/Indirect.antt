-- ===== src/Fs/Inode/Indirect.antt =====
-- `bmap` of fs.c: the references in the table of indirect blocks, and both kinds together.
use p2b.Prelude.{
  ℕ, ◌+◌, ◌-◌, ◌*◌, ◌/◌, ◌^◌, ◌<◌, ◌≤◌, ◌≡◌, ◌≢◌, refl, sym, ap, ◌∙◌, true, false, arith, ◌==◌, ltb,
  leb, if◌then◌else◌,
}
use mathlib.Core.Path.{subst}
use native.Mathlib.Decide.{ℕ_discrete, dec_lt}
use p2b.Fs.{Disk, bitmap_block, is_free}
use p2b.Fs.Bitmap.{IsBitmap, Allocated}
use p2b.Fs.Inode.{ndirect, nindirect, max_file, Inode, byte_of, get_word, put_word, set_block}
use p2b.Fs.Inode.Layout.{word_at}
use p2b.Fs.Inode.Blocks.{
  IsOwn, ref_at, IsFile, IsFresh, Allocated-IsFresh, IsRefAdded, IsFile-added, bytes-added,
  ref_at-block,
}
use p2b.Fs.Inode.Room.{IsRoom}
use p2b.Fs.Inode.Map.{IsBlockOf, Allocated-bytes, block_at-low, block_at-table}

-- A write to a block in use that is none of the bitmap's.
module _ (d : Disk) (bm : IsBitmap d) (t : ℕ) (own : IsOwn d t) (f : ℕ → ℕ)
    (small : (i : ℕ) → f i < 256) where
  pub free_same : (c : ℕ) → c < d.sb.size → is_free (set_block d t f) c ≡ is_free d c
  free_same c lt =
      let other : (t == bitmap_block d c) ≡ false = ground (arith, own.off_bitmap c lt) in
      rw other refl

  pub set_block-IsBitmap : IsBitmap (set_block d t f)
  set_block-IsBitmap = record {
    bytes = λ c i. ground (arith, bm.bytes c i, small i);
    inside = bm.inside;
    in_use = λ c lt. free_same (bitmap_block d c) (bm.inside c lt) ∙ bm.in_use c lt;
  }

  pub set_block-IsOwn : (c : ℕ) → IsOwn d c → IsOwn (set_block d t f) c
  set_block-IsOwn c o = record {
    below = o.below;
    used = free_same c o.below ∙ o.used;
    off_bitmap = o.off_bitmap;
  }

  pub set_block-IsRoom : (q : ℕ) → IsRoom q d → IsRoom q (set_block d t f)
  set_block-IsRoom q room = record {
    pick = room.pick;
    below = room.below;
    free = λ i lt. free_same (room.pick i) (room.below i lt) ∙ room.free i lt;
    different = room.different;
  }

-- Words of a table.
get_word-put_same : (p v : ℕ) (f : ℕ → ℕ) → v < 2 ^ 32 → get_word (put_word p v f) p ≡ v
get_word-put_same p v f lt =
    word_at (put_word p v f) p v lt (byte 0 (omega arith)) (byte 1 (omega arith))
      (byte 2 (omega arith)) (byte 3 (omega arith))
  where
    byte : (j : ℕ) → j < 4 → put_word p v f (p + j) ≡ byte_of v j
    byte j small =
        let index : p + j - p ≡ j = omega arith in
        let low : leb p (p + j) ≡ true = ground arith in
        let high : ltb (p + j) (p + 4) ≡ true = ground arith in rw (low, high, index) refl

get_word-put_other :
    (x y v : ℕ) (f : ℕ → ℕ) → x ≢ y → get_word (put_word (4 * x) v f) (4 * y) ≡ get_word f (4 * y)
get_word-put_other x y v f ne =
    rw
      (
        byte (4 * y) (omega arith) (omega arith),
        byte (4 * y + 1) (omega arith) (omega arith),
        byte (4 * y + 2) (omega arith) (omega arith),
        byte (4 * y + 3) (omega arith) (omega arith),
      )
      refl
  where
    byte : (i : ℕ) → 4 * y ≤ i → i < 4 * y + 4 → put_word (4 * x) v f i ≡ f i
    byte i low high = elim (dec_lt x y) [
      | yes below ↦ let out : ltb i (4 * x + 4) ≡ false = ground arith in ground arith
      | no above ↦ let out : leb (4 * x) i ≡ false = ground arith in ground arith
    ]

module _ (x : ℕ) (lt : x < nindirect) (ip : Inode) (d : Disk) (file : IsFile ip d)
    (table : ip.addrs ndirect ≢ 0) (empty : get_word (d.bytes (ip.addrs ndirect)) (4 * x) ≡ 0)
    (b : ℕ) (d' : Disk) (al : Allocated d b d') where
  fresh : IsFresh d b d'
  fresh = Allocated-IsFresh d b d' file.bitmap file.origin file.nonempty al

  abbrev pub stored : Disk
  stored = set_block d' (ip.addrs ndirect) (put_word (4 * x) b (d'.bytes (ip.addrs ndirect)))

  pub IsOwn-table : IsOwn d (ip.addrs ndirect)
  IsOwn-table = file.refs max_file (omega arith) table

  pub small_entries : (i : ℕ) → put_word (4 * x) b (d'.bytes (ip.addrs ndirect)) i < 256
  small_entries i = ground (arith, al.bitmap.bytes (ip.addrs ndirect) i)

  IsOwn-now : (c : ℕ) → IsOwn d' c → IsOwn stored c
  IsOwn-now =
      set_block-IsOwn d' al.bitmap (ip.addrs ndirect) (fresh.keeps (ip.addrs ndirect) IsOwn-table)
        (put_word (4 * x) b (d'.bytes (ip.addrs ndirect))) small_entries

  stored-IsFresh : IsFresh d b stored
  stored-IsFresh = record {
    bitmap =
        set_block-IsBitmap d' al.bitmap (ip.addrs ndirect)
          (fresh.keeps (ip.addrs ndirect) IsOwn-table)
          (put_word (4 * x) b (d'.bytes (ip.addrs ndirect))) small_entries;
    sb = al.sb;
    positive = fresh.positive;
    own = IsOwn-now b fresh.own;
    keeps = λ c o. IsOwn-now c (fresh.keeps c o);
    new = fresh.new;
    origin =
        free_same d' al.bitmap (ip.addrs ndirect) (fresh.keeps (ip.addrs ndirect) IsOwn-table)
          (put_word (4 * x) b (d'.bytes (ip.addrs ndirect))) small_entries 0
          (subst (λ s. 0 < s.size) (sym al.sb) file.nonempty)
        ∙ fresh.origin;
  }

  abbrev Added : ℕ → Type 0
  Added j = ref_at j ip stored ≡ (if j == x + ndirect then b else ref_at j ip d)

  stored_table : stored.bytes (ip.addrs ndirect) ≡ put_word (4 * x) b (d'.bytes (ip.addrs ndirect))
  stored_table =
      let here : (ip.addrs ndirect == ip.addrs ndirect) ≡ true = ground arith in rw here refl

  Added-high : (j : ℕ) → ndirect ≤ j → j < max_file → Added j
  Added-high j high small =
      ref_at-block j ip stored small
      ∙ block_at-table j ip stored high table
      ∙ ap (λ g. get_word g (4 * (j - ndirect))) stored_table
      ∙ elim (ℕ_discrete j (x + ndirect)) [
        | yes e ↦
            let here : (j == x + ndirect) ≡ true = ground arith in
            let index : j - ndirect ≡ x = omega arith in
            ap (λ y. get_word (put_word (4 * x) b (d'.bytes (ip.addrs ndirect))) (4 * y)) index
            ∙ get_word-put_same (4 * x) b (d'.bytes (ip.addrs ndirect))
                (omega (arith, al.below, file.fits))
            ∙ rw here refl
        | no ne ↦
            let other : (j == x + ndirect) ≡ false = ground arith in
            get_word-put_other x (j - ndirect) b (d'.bytes (ip.addrs ndirect))
              (λ e. ne (omega arith))
            ∙ kept (4 * (j - ndirect))
            ∙ sym (block_at-table j ip d high table)
            ∙ sym (ref_at-block j ip d small)
            ∙ rw other refl
      ]
    where
      kept :
          (p : ℕ)
          → get_word (d'.bytes (ip.addrs ndirect)) p ≡ get_word (d.bytes (ip.addrs ndirect)) p
      kept p =
          let keep : (i : ℕ) → d'.bytes (ip.addrs ndirect) i ≡ d.bytes (ip.addrs ndirect) i = λ i.
            Allocated-bytes d b d' al (ip.addrs ndirect) i IsOwn-table
              (fresh.new (ip.addrs ndirect) IsOwn-table) in
          rw (keep p, keep (p + 1), keep (p + 2), keep (p + 3)) refl

  added : IsRefAdded (x + ndirect) b ip d ip stored
  added j small = elim (ℕ_discrete j 141) [
    | yes e ↦ subst Added (sym e) (
        let other : (141 == x + ndirect) ≡ false = ground arith in
        rw other (ap (λ s. ip.inum / 8 + s.inodestart) al.sb))
    | no ne ↦ elim (ℕ_discrete j max_file) [
      | yes e ↦
          subst Added (sym e)
            (let other : (max_file == x + ndirect) ≡ false = ground arith in rw other refl)
      | no nt ↦ elim (dec_lt j ndirect) [
        | yes low ↦
            let other : (j == x + ndirect) ≡ false = ground arith in
            ref_at-block j ip stored (omega arith)
            ∙ block_at-low j ip stored low
            ∙ sym (block_at-low j ip d low)
            ∙ sym (ref_at-block j ip d (omega arith))
            ∙ rw other refl
        | no high ↦ Added-high j (omega arith) (omega arith)
      ]
    ]
  ]

  was_empty : ref_at (x + ndirect) ip d ≡ 0
  was_empty =
      let index : x + ndirect - ndirect ≡ x = omega arith in
      ref_at-block (x + ndirect) ip d (omega arith)
      ∙ block_at-table (x + ndirect) ip d (omega arith) table
      ∙ ap (λ y. get_word (d.bytes (ip.addrs ndirect)) (4 * y)) index
      ∙ empty

  pub indirect-new : IsBlockOf (x + ndirect) b ip d ip stored
  indirect-new = record {
    file =
        IsFile-added ip d file (x + ndirect) b ip stored stored-IsFresh added was_empty
          (λ e. omega arith);
    block =
        added (x + ndirect) (omega arith)
        ∙ (let eq : (x + ndirect == x + ndirect) ≡ true = ground arith in rw eq refl);
    positive = fresh.positive;
    same =
        bytes-added ip d file (x + ndirect) b ip stored stored-IsFresh added was_empty zeros keep;
    fields = refl;
    sb = al.sb;
  }
    where
      zeros : x + ndirect < max_file → (i : ℕ) → stored.bytes b i ≡ 0
      zeros _ i =
          let other : (ip.addrs ndirect == b) ≡ false =
            ground (arith, fresh.new (ip.addrs ndirect) IsOwn-table) in
          rw other (al.zeros i)

      keep : (c i : ℕ) → IsOwn d c → c ≢ ip.addrs ndirect → stored.bytes c i ≡ d.bytes c i
      keep c i own ne =
          let other : (ip.addrs ndirect == c) ≡ false = ground arith in
          rw other (Allocated-bytes d b d' al c i own (fresh.new c own))
