-- ===== src/Fs/Cache.antt =====
-- fs.c: the table of inodes in memory, `icache`. A pointer to an inode is its index. `none` is a panic.
-- The spin lock and the sleep lock are the atomicity of each function.
pub mod Get
pub mod Truncate
pub mod Emptied
pub mod Itrunc
use p2b.Prelude.{
  ℕ, zero, suc, ◌+◌, ◌-◌, ◌*◌, ◌%◌, ◌^◌, ◌⊎◌, inl, inr, Bool, true, false, not, ◌&&◌, Option, none,
  some, ◌==◌, ltb, if◌then◌else◌, update,
}
use p2b.Fs.{Disk, bfree}
use p2b.Fs.Inode.{Inode, ndirect, nindirect, get_word, iupdate}

-- NINODE
abbrev pub ninode : ℕ
ninode = 50

abbrev pub Icache : Type 0
Icache = ℕ → Inode

-- ip->ref > 0 && ip->dev == dev && ip->inum == inum
abbrev pub holds : (inum : ℕ) → Inode → Bool
holds inum ip = (not (ip.ref == 0) && ltb ip.ref (2 ^ 31)) && (ip.inum == inum)

abbrev pub is_empty : Inode → Bool
is_empty ip = ip.ref == 0

-- if(empty == 0 && ip->ref == 0) empty = ip;
pub remember : Option ℕ → (i : ℕ) → Inode → Option ℕ
remember none i ip = if is_empty ip then some i else none
remember (some e) i ip = some e

-- The loop over the table: the entry of the inode, or the empty slot to use.
pub look_for : (n i : ℕ) (empty : Option ℕ) (inum : ℕ) → Icache → ℕ ⊎ Option ℕ
unfolding remember
look_for zero i empty inum c = inr empty
look_for (suc n) i empty inum c =
    let rest = look_for n (i + 1) (remember empty i (c i)) inum c in
    if holds inum (c i) then inl i else rest

pub take_entry : (inum : ℕ) → Icache → ℕ ⊎ Option ℕ → Option (ℕ × Icache)
take_entry inum c (inl i) = some (i, update c i (record (c i) { ref = ((c i).ref + 1) % 2 ^ 32 }))
take_entry inum c (inr none) = none
take_entry inum c (inr (some e)) =
    some (e, update c e (record (c e) { inum = inum; ref = 1; valid = false }))

pub iget : (inum : ℕ) → Icache → Option (ℕ × Icache)
unfolding look_for take_entry
iget inum c = take_entry inum c (look_for ninode 0 none inum c)

pub idup : (i : ℕ) → Icache → ℕ × Icache
idup i c = (i, update c i (record (c i) { ref = ((c i).ref + 1) % 2 ^ 32 }))

-- The first loop of `itrunc`.
pub free_direct : (n i : ℕ) → Inode → Disk → Option (Inode × Disk)
free_direct zero i ip d = some (ip, d)
free_direct (suc n) i ip d = elim (ip.addrs i == 0) [
  | true ↦ free_direct n (i + 1) ip d
  | false ↦ elim (bfree (ip.addrs i) d) [
    | none ↦ none
    | some d1 ↦ free_direct n (i + 1) (record ip { addrs = update ip.addrs i 0 }) d1
  ]
]

-- The second loop, over the table of indirect blocks in block `t`.
pub free_entries : (n j t : ℕ) → Disk → Option Disk
free_entries zero j t d = some d
free_entries (suc n) j t d = elim (get_word (d.bytes t) (4 * j) == 0) [
  | true ↦ free_entries n (j + 1) t d
  | false ↦ elim (bfree (get_word (d.bytes t) (4 * j)) d) [
    | none ↦ none
    | some d1 ↦ free_entries n (j + 1) t d1
  ]
]

pub free_indirect : Inode → Disk → Option (Inode × Disk)
unfolding free_entries
free_indirect ip d = elim (ip.addrs ndirect == 0) [
  | true ↦ some (ip, d)
  | false ↦ elim (free_entries nindirect 0 (ip.addrs ndirect) d) [
    | none ↦ none
    | some d1 ↦ elim (bfree (ip.addrs ndirect) d1) [
      | none ↦ none
      | some d2 ↦ some (record ip { addrs = update ip.addrs ndirect 0 }, d2)
    ]
  ]
]

pub itrunc : Inode → Disk → Option (Inode × Disk)
unfolding free_direct free_indirect
itrunc ip d = elim (free_direct ndirect 0 ip d) [
  | none ↦ none
  | some (ip1, d1) ↦ elim (free_indirect ip1 d1) [
    | none ↦ none
    | some (ip2, d2) ↦ some (record ip2 { size = 0 }, iupdate (record ip2 { size = 0 }) d2)
  ]
]

-- The last reference to an inode without links goes: the inode is freed on the disk.
drop_inode : Inode → Disk → Option (Inode × Disk)
drop_inode ip d = elim (itrunc ip d) [
  | none ↦ none
  | some (ip1, d1) ↦
      some (record ip1 { itype = 0; valid = false }, iupdate (record ip1 { itype = 0 }) d1)
]

pub put_last : Inode → Disk → Option (Inode × Disk)
unfolding drop_inode
put_last ip d =
    if ip.valid && ((ip.nlink == 0) && (ip.ref == 1)) then drop_inode ip d else some (ip, d)

-- ip->ref--
abbrev pub less_ref : Inode → Inode
less_ref ip = record ip { ref = (ip.ref + 2 ^ 32 - 1) % 2 ^ 32 }

pub iput : (i : ℕ) → Icache → Disk → Option (Icache × Disk)
iput i c d = elim (put_last (c i) d) [
  | none ↦ none
  | some (ip, d1) ↦ some (update c i (less_ref ip), d1)
]
