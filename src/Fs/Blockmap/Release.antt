-- ===== src/Fs/Blockmap/Release.antt =====
-- freeDataBlocks of kernel/kernel.c frees the single indirect table before the blocks in it.
use arm_kernel.Base.{ℕ, ◌+◌, ◌*◌, ◌≤◌, ◌<◌, ◌≡◌, ◌≢◌, ◌∙◌, ap, arith, List}
use arm_kernel.Fs.Disk.{word, words_bytes, word-words_bytes, word-agree, word-disk_rd, disk_wr_self}
use arm_kernel.Fs.Alloc.{Store, bfree, update_sb}
use arm_kernel.Fs.Alloc.FreeList.{FreeList, update_sb-disk}
use arm_kernel.Fs.Alloc.Freed.{spilled, bfree_front, place_small}
use arm_kernel.Fs.Inode.{ndaddr, Inode}
use arm_kernel.Fs.Blockmap.{addr_of_blk, read_block}
use arm_kernel.Fs.Blockmap.Allocate.{addr_single}

-- Where the list in memory is full, bfree of an inode's single indirect table stores that list in
-- the table: getDataBlockAddr of block 11 + j, for j below 64, then gives place j of the list of
-- free blocks, and no longer the file's block.
pub bfree_table-addr :
    (inode : Inode) (j : ℕ) (s : Store) (xs : List ℕ)
    → FreeList s xs
    → 63 ≤ s.fs.fdbhead
    → inode.ic.ib 0 ≢ 1
    → j < 64
    → addr_of_blk inode (ndaddr + j) (bfree (inode.ic.ib 0) s).1 ≡ s.fs.fdb j
bfree_table-addr inode j s xs f full ne lt = rw (bfree_front (inode.ic.ib 0) s full) (
    addr_single inode (ndaddr + j) (update_sb (spilled (inode.ic.ib 0) s)) (omega arith)
      (omega arith)
    ∙ ap (word (read_block (update_sb (spilled (inode.ic.ib 0) s)) (inode.ic.ib 0))) (omega arith)
    ∙ word-disk_rd (inode.ic.ib 0) j (λ _. 0) (update_sb (spilled (inode.ic.ib 0) s)).disk
        (omega arith)
    ∙ ap (λ b. word b j) other
    ∙ word-agree ((spilled (inode.ic.ib 0) s).disk (inode.ic.ib 0)) (words_bytes s.fs.fdb) j
        (λ k lt'. lies k lt')
    ∙ word-words_bytes s.fs.fdb j (place_small s xs j f (omega arith)))
  where
    other :
        (update_sb (spilled (inode.ic.ib 0) s)).disk (inode.ic.ib 0)
        ≡ (spilled (inode.ic.ib 0) s).disk (inode.ic.ib 0)
    other =
        update_sb-disk (spilled (inode.ic.ib 0) s) (inode.ic.ib 0)
          (unfold spilled in λ e. ne (e ∙ f.super))

    lies :
        (k : ℕ)
        → k < 4
        → (spilled (inode.ic.ib 0) s).disk (inode.ic.ib 0) (4 * j + k)
          ≡ words_bytes s.fs.fdb (4 * j + k)
    lies k lt' =
        unfold spilled in
        disk_wr_self (inode.ic.ib 0) (4 * j + k) 256 (words_bytes s.fs.fdb) s.disk (omega arith)
