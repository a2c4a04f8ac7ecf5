-- ===== src/Fs/Alloc.antt =====
-- The superblock of kernel/fs.h, and balloc and bfree of kernel/kernel.c.
pub mod FreeList
pub mod Freed
pub mod Saved
use arm_kernel.Base.{
  ℕ, zero, suc, ◌+◌, ◌-◌, ◌*◌, ◌/◌, ◌%◌, not, ltb, ◌==◌, if◌then◌else◌, update, memcpy, Run, ok,
  ◌>>=◌, ◌>>◌, check,
}
use arm_kernel.Base.Words.{neg1}
use arm_kernel.Fs.Disk.{block_size, Block, Disk, disk_wr, disk_rd, byte, word, words_bytes}

-- fs_t. `pad` is the unused space.
pub record Superblock : Type 0 where
  pub sblkno : ℕ
  pub size : ℕ
  pub iblkno : ℕ
  pub isize : ℕ
  pub dblkno : ℕ
  pub dsize : ℕ
  pub fdbhead : ℕ
  pub fdb : ℕ → ℕ
  pub fil : ℕ → ℕ
  pub pad : ℕ → ℕ

-- The disk, and the global `fs`.
pub record Store : Type 0 where
  pub disk : Disk
  pub fs : Superblock

-- The words of an fs_t, in its layout: seven numbers, 64 of fs_fdb, 32 of fs_fil.
unfoldable pub fs_word : Superblock → ℕ → ℕ
fs_word fs i =
    if i == 0
    then fs.sblkno
    else if i == 1
    then fs.size
    else if i == 2
    then fs.iblkno
    else if i == 3
    then fs.isize
    else if i == 4
    then fs.dblkno
    else if i == 5
    then fs.dsize
    else if i == 6
    then fs.fdbhead
    else if ltb i 71
    then fs.fdb (i - 7)
    else fs.fil (i - 71)

-- (uint8_t*)(&fs), 412 bytes and the padding.
unfoldable pub fs_bytes : Superblock → Block
unfolding fs_word words_bytes byte
fs_bytes fs i = if ltb i 412 then words_bytes (fs_word fs) i else fs.pad (i - 412)

-- The fs_t that lies in a block.
unfoldable pub fs_of_bytes : Block → Superblock
unfolding word
fs_of_bytes b = record {
  sblkno = word b 0;
  size = word b 1;
  iblkno = word b 2;
  isize = word b 3;
  dblkno = word b 4;
  dsize = word b 5;
  fdbhead = word b 6;
  fdb = λ i. word b (i + 7);
  fil = λ i. word b (i + 71);
  pad = λ i. b (i + 412);
}

-- disk_wr( fs.fs_sblkno, (uint8_t*)(&fs), sizeof( fs_t ) );
unfoldable pub update_sb : Store → Store
update_sb s = record s { disk = disk_wr s.fs.sblkno (fs_bytes s.fs) block_size s.disk }

-- Taking the back of the list. fs_fdb has 64 places.
unfoldable pub take_back : ℕ → Store → Run (ℕ × Store)
take_back head s =
    check (ltb head 64)
    >> ok (s.fs.fdb head, update_sb (record s { fs = record (s.fs) { fdbhead = head - 1 } }))

-- Taking the block that the front points to, with the list that it holds.
unfoldable pub take_front : Store → ℕ × Store
take_front s =
    let addr = s.fs.fdb 0 in
    let block = disk_rd addr (λ _. 0) block_size s.disk in
    (
      addr,
      update_sb
          (record s { fs = record (s.fs) { fdb = memcpy s.fs.fdb (word block) 64; fdbhead = 63 } }),
    )

unfoldable pub balloc : Store → Run (ℕ × Store)
unfolding take_back take_front
balloc s =
    if ltb 0 s.fs.fdbhead
    then take_back s.fs.fdbhead s
    else if not (s.fs.fdb 0 == 1)
    then ok (take_front s)
    else ok (neg1, s)

unfoldable pub bfree : ℕ → Store → ℕ × Store
bfree a s =
    if ltb s.fs.fdbhead 63
    then (
      0,
      update_sb (record s {
        fs = record (s.fs) {
          fdb = update s.fs.fdb (s.fs.fdbhead + 1) a;
          fdbhead = s.fs.fdbhead + 1;
        };
      }),
    )
    else (
      1,
      update_sb (record {
        disk = disk_wr a (words_bytes s.fs.fdb) (64 * 4) s.disk;
        fs = record (s.fs) { fdb = update s.fs.fdb 0 a; fdbhead = 0 };
      }),
    )
