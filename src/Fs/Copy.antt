-- ===== src/Fs/Copy.antt =====
-- copyInode of kernel/kernel.c, for sizes below 2 ^ 31.
pub mod Unallocated
use arm_kernel.Base.{
  ℕ, zero, suc, ◌+◌, ◌-◌, ◌/◌, Option, none, some, ltb, if◌then◌else◌, Run, ok, ◌>>=◌,
}
use arm_kernel.Fs.Disk.{block_size, disk_wr}
use arm_kernel.Fs.Alloc.{Store}
use arm_kernel.Fs.Inode.{Inode, get_free_inode}
use arm_kernel.Fs.Blockmap.{read_block, get_data_block_addr, allocate_data_blocks}

-- The loop, from byte `i` on.
unfoldable pub copy_loop : (rounds i : ℕ) → (copy inode : Inode) → Store → Store
copy_loop zero i copy inode s = s
copy_loop (suc rounds) i copy inode s =
    let block = read_block s (get_data_block_addr inode i s) in
    let left = inode.ic.size - i in
    let n = if ltb block_size left then block_size else left in
    copy_loop rounds (i + block_size) copy inode
      (record s { disk = disk_wr (get_data_block_addr copy i s) block n s.disk })

-- The body of copyInode, with the inode that getFreeInode gave. It does not write that inode.
unfoldable pub copy_into : Option Inode → Inode → Store → Run (Option Inode × Store)
unfolding copy_loop
copy_into none inode s = ok (none, s)
copy_into (some copy) inode s = do
  (_, copy', s') ← allocate_data_blocks (inode.ic.size / block_size + 1) copy s
  ok (some copy', copy_loop ((inode.ic.size + (block_size - 1)) / block_size) 0 copy' inode s')

unfoldable pub copy_inode : (copy inode : Inode) → Store → Run (Option Inode × Store)
unfolding copy_into
copy_inode copy inode s = copy_into (get_free_inode copy s) inode s
