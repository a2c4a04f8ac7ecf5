-- ===== src/Fs/Inode.antt =====
-- Inodes: icommon_t and inode_t of kernel/fs.h, and readInode, writeInode and getFreeInode of
-- kernel/kernel.c.
pub mod Stored
pub mod FreeInode
use arm_kernel.Base.{
  ℕ, zero, suc, ◌+◌, ◌-◌, ◌*◌, ◌/◌, ◌%◌, Option, none, some, ltb, ◌==◌, if◌then◌else◌,
}
use arm_kernel.Fs.Disk.{block_size, Block, disk_wr, disk_rd, word, byte, words_bytes}
use arm_kernel.Fs.Alloc.{Store}

-- NDADDR.
abbrev pub ndaddr : ℕ
ndaddr = 11

-- mode_t.
abbrev pub ifzero : ℕ
ifzero = 0

abbrev pub ifdir : ℕ
ifdir = 2

abbrev pub ifreg : ℕ
ifreg = 3

-- icommon_t.
pub record Icommon : Type 0 where
  pub mode : ℕ
  pub size : ℕ
  pub db : ℕ → ℕ
  pub ib : ℕ → ℕ

-- inode_t.
pub record Inode : Type 0 where
  pub number : ℕ
  pub links : ℕ
  pub ic : Icommon

-- The sixteen words of an icommon_t, in its layout.
unfoldable pub ic_word : Icommon → ℕ → ℕ
ic_word ic i =
    if i == 0
    then ic.mode
    else if i == 1
    then ic.size
    else if ltb i 13
    then ic.db (i - 2)
    else ic.ib (i - 13)

-- ic[ r ], of the eight that lie in a block.
unfoldable pub ic_of : Block → ℕ → Icommon
ic_of b r = record {
  mode = word b (16 * r);
  size = word b (16 * r + 1);
  db = λ k. word b (16 * r + 2 + k);
  ib = λ k. word b (16 * r + 13 + k);
}

-- ic[ r ] = ic
unfoldable pub set_ic : Block → ℕ → Icommon → Block
set_ic b r ic j = if j / 64 == r then words_bytes (ic_word ic) (j % 64) else b j

-- The block of inodes that `ino` lies in.
abbrev pub inode_block : Store → ℕ → Block
inode_block s q = disk_rd (s.fs.iblkno + q) (λ _. 0) block_size s.disk

unfoldable pub read_inode : Inode → ℕ → Store → Inode
read_inode in_core ino s = record in_core {
  number = ino;
  ic = ic_of (inode_block s (ino / 8)) (ino % 8);
}

unfoldable pub write_inode : Inode → Store → Store
write_inode inode s =
    let q = inode.number / 8 in
    record s {
      disk =
          disk_wr (s.fs.iblkno + q) (set_ic (inode_block s q) (inode.number % 8) inode.ic)
            block_size s.disk;
    }

-- The inner loop of getFreeInode, over the inodes of a block from `j` on.
unfoldable pub free_in_block : ℕ → ℕ → Block → Option ℕ
free_in_block zero j b = none
free_in_block (suc rounds) j b =
    let rest = free_in_block rounds (j + 1) b in if (ic_of b j).mode == ifzero then some j else rest

-- The outer loop, over the blocks from `i` on: the number of the inode.
unfoldable pub free_ino : ℕ → ℕ → Store → Option ℕ
unfolding free_in_block
free_ino zero i s = none
free_ino (suc rounds) i s =
    let rest = free_ino rounds (i + 1) s in
    elim (free_in_block 8 0 (inode_block s i)) [ some j ↦ some (8 * i + j) | none ↦ rest ]

abbrev pub start_inode : Inode → ℕ → Inode
start_inode in_core ino = record in_core {
  number = ino;
  ic = record (in_core.ic) { mode = ifreg; size = 0 };
}

-- The rest of the in-core inode stays as it was.
unfoldable pub get_free_inode : Inode → Store → Option Inode
unfolding free_ino
get_free_inode in_core s = elim (free_ino (s.fs.isize / 8) 0 s) [
  | some ino ↦ some (start_inode in_core ino)
  | none ↦ none
]
