-- ===== src/Fs/Bitmap.antt =====
-- `balloc` and `bfree` of fs.c: which blocks the bitmap says are in use.
use Prim.Native.Nat.{bit_or, bit_and}
use p2b.Prelude.{
  ℕ, ◌+◌, ◌-◌, ◌*◌, ◌/◌, ◌%◌, ◌^◌, ◌<◌, ◌≤◌, ◌≡◌, ◌≢◌, refl, sym, ap, ◌∙◌, ◌⊎◌, inl, inr, Bool,
  true, false, not, ◌||◌, Option, none, some, arith, ◌==◌, ltb, if◌then◌else◌, update, IsFirst,
  find_first, find_first-some, find_first-none, Option-cases, Bool-cases, passes_all,
  passes_all_sound,
}
use mathlib.Core.Path.{subst}
use native.Mathlib.Decide.{ℕ_discrete}
use p2b.Fs.{
  Disk, bpb, bitmap_block, map_byte, is_free, set_byte, mark, unmark, bzero, balloc, bfree,
}

abbrev bit : (v i : ℕ) → Bool
bit v i = bit_and v (2 ^ i) == 0

abbrev same_bool : Bool → Bool → Bool
same_bool true b = b
same_bool false b = not b

-- What setting and clearing bit `i` of a byte does to bit `j`.
abbrev set_ok : (v i j : ℕ) → Bool
set_ok v i j =
    if i == j
    then not (bit (bit_or v (2 ^ i)) j)
    else same_bool (bit (bit_or v (2 ^ i)) j) (bit v j)

abbrev clear_ok : (v i j : ℕ) → Bool
clear_ok v i j =
    if i == j
    then bit (bit_and v (255 - 2 ^ i)) j
    else same_bool (bit (bit_and v (255 - 2 ^ i)) j) (bit v j)

set_table : passes_all 256 (λ v. passes_all 8 (λ i. passes_all 8 (λ j. set_ok v i j))) ≡ true
unfolding p2b.Prelude.passes_all
set_table = refl

clear_table : passes_all 256 (λ v. passes_all 8 (λ i. passes_all 8 (λ j. clear_ok v i j))) ≡ true
unfolding p2b.Prelude.passes_all
clear_table = refl

byte_table :
    passes_all 256 (λ v.
      passes_all 8
        (λ i. if ltb (bit_or v (2 ^ i)) 256 then ltb (bit_and v (255 - 2 ^ i)) 256 else false))
    ≡ true
unfolding p2b.Prelude.passes_all
byte_table = refl

all_bits :
    (test : ℕ → ℕ → ℕ → Bool)
    → passes_all 256 (λ v. passes_all 8 (λ i. passes_all 8 (λ j. test v i j))) ≡ true
    → (v i j : ℕ) → v < 256
    → i < 8
    → j < 8
    → test v i j ≡ true
all_bits test all v i j hv hi hj =
    passes_all_sound 8 (λ j. test v i j)
      (passes_all_sound 8 (λ i. passes_all 8 (λ j. test v i j))
        (passes_all_sound 256 (λ v. passes_all 8 (λ i. passes_all 8 (λ j. test v i j))) all v hv) i
        hi)
      j hj

-- What an operation on the bitmap does to the marks: block `b` gets the mark, the others keep theirs.
abbrev pub MarksOnly : (b : ℕ) (free : Bool) → Disk → Disk → Type 0
MarksOnly b free d d' =
    (c : ℕ) → c < d.sb.size → is_free d' c ≡ (if b == c then free else is_free d c)

-- The blocks hold bytes, and the blocks of the bitmap are in use.
pub record IsBitmap (d : Disk) : Type 0 where
  pub bytes : (b i : ℕ) → d.bytes b i < 256
  pub inside : (b : ℕ) → b < d.sb.size → bitmap_block d b < d.sb.size
  pub in_use : (b : ℕ) → b < d.sb.size → is_free d (bitmap_block d b) ≡ false

-- Block `b` has gone into use.
pub record Allocated (d : Disk) (b : ℕ) (d' : Disk) : Type 0 where
  pub below : b < d.sb.size
  pub was_free : is_free d b ≡ true
  pub marks : MarksOnly b false d d'
  pub zeros : (i : ℕ) → d'.bytes b i ≡ 0
  pub others : (c i : ℕ) → c ≢ b → c ≢ bitmap_block d b → d'.bytes c i ≡ d.bytes c i
  pub bitmap : IsBitmap d'
  pub sb : d'.sb ≡ d.sb

same_bool-true : (a b : Bool) → same_bool a b ≡ true → a ≡ b
same_bool-true true b e = sym e
same_bool-true false true e = absurd (ground arith)
same_bool-true false false e = refl

-- A change of one bit of a byte.
abbrev Flips : (op : ℕ → ℕ → ℕ) (free : Bool) → Type 0
Flips op free =
    (v i j : ℕ) → v < 256 → i < 8 → j < 8 → bit (op v i) j ≡ (if i == j then free else bit v j)

Flips-set : Flips (λ v i. bit_or v (2 ^ i)) false
Flips-set v i j hv hi hj =
    let ok = all_bits set_ok set_table v i j hv hi hj in
    elim (Bool-cases (i == j)) [
      | inl same ↦ rw same (ground (arith, rw same at ok))
      | inr other ↦ rw other (same_bool-true _ _ (rw other at ok))
    ]

Flips-clear : Flips (λ v i. bit_and v (255 - 2 ^ i)) true
Flips-clear v i j hv hi hj =
    let ok = all_bits clear_ok clear_table v i j hv hi hj in
    elim (Bool-cases (i == j)) [
      | inl same ↦ rw same (rw same at ok)
      | inr other ↦ rw other (same_bool-true _ _ (rw other at ok))
    ]

module _ (d : Disk) (is_bitmap : IsBitmap d) (b : ℕ) (op : ℕ → ℕ → ℕ) (free : Bool)
    (flips : Flips op free) where
  abbrev flipped : Disk
  flipped = set_byte d (bitmap_block d b) (b % bpb / 8) (op (map_byte d b) (b % 8))

  flipped-MarksOnly : MarksOnly b free d flipped
  flipped-MarksOnly c lt = elim (ℕ_discrete (b / bpb) (c / bpb)) [
    | yes block ↦ elim (ℕ_discrete (b % bpb / 8) (c % bpb / 8)) [
      | yes byte ↦
          let old : map_byte d c ≡ map_byte d b =
            ap (λ q. d.bytes (q + d.sb.bmapstart) (c % bpb / 8)) (sym block)
            ∙ ap (λ q. d.bytes (bitmap_block d b) q) (sym byte) in
          let new : map_byte flipped c ≡ op (map_byte d b) (b % 8) = ground (arith, block) in
          let eq : (b == c) ≡ (b % 8 == c % 8) = ground arith in
          rw (new, old, eq)
            (flips (map_byte d b) (b % 8) (c % 8) (is_bitmap.bytes (bitmap_block d b) (b % bpb / 8))
              (omega arith) (omega arith))
      | no ne ↦
          let other : (b == c) ≡ false = ground arith in
          let new : map_byte flipped c ≡ map_byte d c = ground (arith, block) in
          rw (new, other) refl
    ]
    | no ne ↦
        let other : (b == c) ≡ false = ground arith in
        let new : map_byte flipped c ≡ map_byte d c = ground arith in rw (new, other) refl
  ]

  flipped-bytes : op (map_byte d b) (b % 8) < 256 → (c i : ℕ) → flipped.bytes c i < 256
  flipped-bytes lt c i = ground (arith, is_bitmap.bytes c i)

byte_ok : (v i : ℕ) → v < 256 → i < 8 → (bit_or v (2 ^ i) < 256) × (bit_and v (255 - 2 ^ i) < 256)
byte_ok v i hv hi =
    let test : ℕ → ℕ → Bool =
      λ v i. if ltb (bit_or v (2 ^ i)) 256 then ltb (bit_and v (255 - 2 ^ i)) 256 else false in
    let ok : test v i ≡ true =
      passes_all_sound 8 (λ i. test v i)
        (passes_all_sound 256 (λ v. passes_all 8 (λ i. test v i)) byte_table v hv) i hi in
    (ground arith, ground arith)

module _ (d : Disk) (bm : IsBitmap d) (b : ℕ) (below : b < d.sb.size) where
  bits :
      (bit_or (map_byte d b) (2 ^ (b % 8)) < 256)
      × (bit_and (map_byte d b) (255 - 2 ^ (b % 8)) < 256)
  bits = byte_ok (map_byte d b) (b % 8) (bm.bytes (bitmap_block d b) (b % bpb / 8)) (omega arith)

  mark-MarksOnly : MarksOnly b false d (mark b d)
  mark-MarksOnly = flipped-MarksOnly d bm b (λ v i. bit_or v (2 ^ i)) false Flips-set

  unmark-MarksOnly : MarksOnly b true d (unmark b d)
  unmark-MarksOnly = flipped-MarksOnly d bm b (λ v i. bit_and v (255 - 2 ^ i)) true Flips-clear

  module _ (free : is_free d b ≡ true) where
    no_bitmap_block : (c : ℕ) → c < d.sb.size → bitmap_block d c ≢ b
    no_bitmap_block c lt e =
        let used : is_free d b ≡ false = subst (λ q. is_free d q ≡ false) e (bm.in_use c lt) in
        ground arith

    zeroed-MarksOnly : MarksOnly b false d (bzero b (mark b d))
    zeroed-MarksOnly c lt =
        let same : map_byte (bzero b (mark b d)) c ≡ map_byte (mark b d) c =
          ground (arith, no_bitmap_block c lt) in
        rw same (mark-MarksOnly c lt)

    marked : Allocated d b (bzero b (mark b d))
    marked = record {
      below = below;
      was_free = free;
      marks = zeroed-MarksOnly;
      zeros = λ i. ground arith;
      others = λ c i ne nb. ground arith;
      bitmap = record {
        bytes = λ c i.
            let old = flipped-bytes d bm b (λ v i. bit_or v (2 ^ i)) false Flips-set bits.0 c i in
            ground arith;
        inside = bm.inside;
        in_use = λ c lt.
            let m = zeroed-MarksOnly (bitmap_block d c) (bm.inside c lt) in
            let other : (b == bitmap_block d c) ≡ false = ground (arith, no_bitmap_block c lt) in
            m ∙ rw other (bm.in_use c lt);
      };
      sb = refl;
    }

-- `balloc` returns a block that was free and marks it, and no other; its bytes are 0 then, and the
-- blocks but it and its block of the bitmap are as before. It panics just when no block is free.
pub balloc_lem :
    (d : Disk)
    → IsBitmap d
    → ((balloc d ≡ none) × ((b : ℕ) → b < d.sb.size → is_free d b ≡ false))
      ⊎ ((b : ℕ) × (d' : Disk) × (balloc d ≡ some (b, d')) × Allocated d b d')
unfolding balloc
balloc_lem d bm = elim (Option-cases (find_first (λ free. free) d.sb.size 0 (is_free d))) [
  | inl miss ↦ inl (
    rw (miss, balloc) refl,
    λ b lt.
        find_first-none (λ free. free) d.sb.size 0 (is_free d) miss b (omega arith) (omega arith),
  )
  | inr (b, hit) ↦
      let first = find_first-some (λ free. free) d.sb.size 0 (is_free d) b hit in
      inr (
        b,
        bzero b (mark b d),
        rw (hit, balloc) refl,
        marked d bm b (omega (arith, first.upper)) first.passes,
      )
]

-- Block `b` has gone out of use.
pub record Freed (d : Disk) (b : ℕ) (d' : Disk) : Type 0 where
  pub marks : MarksOnly b true d d'
  pub others : (c i : ℕ) → c ≢ bitmap_block d b → d'.bytes c i ≡ d.bytes c i
  pub bitmap : IsBitmap d'
  pub sb : d'.sb ≡ d.sb

-- `bfree` of a block in use that is none of the bitmap's own frees it, and no other, and changes no
-- other block but one of the bitmap; of a free block it panics.
pub bfree_lem :
    (d : Disk) (b : ℕ)
    → IsBitmap d
    → b < d.sb.size
    → ((c : ℕ) → c < d.sb.size → bitmap_block d c ≢ b)
    → ((is_free d b ≡ true) × (bfree b d ≡ none))
      ⊎ ((is_free d b ≡ false) × ((d' : Disk) × (bfree b d ≡ some d') × Freed d b d'))
unfolding bfree
bfree_lem d b bm below own = elim (Bool-cases (is_free d b)) [
  | inl free ↦ inl (free, rw (free, bfree) refl)
  | inr used ↦ inr (
    used,
    (
      unmark b d,
      rw (used, bfree) refl,
      record {
        marks = unmark-MarksOnly d bm b below;
        others = λ c i ne. ground arith;
        bitmap = record {
          bytes =
              flipped-bytes d bm b (λ v i. bit_and v (255 - 2 ^ i)) true Flips-clear
                (bits d bm b below).1;
          inside = bm.inside;
          in_use = λ c lt.
              let m = unmark-MarksOnly d bm b below (bitmap_block d c) (bm.inside c lt) in
              let other : (b == bitmap_block d c) ≡ false = ground (arith, own c lt) in
              m ∙ rw other (bm.in_use c lt);
        };
        sb = refl;
      },
    ),
  )
]
