-- ===== src/Fs/Blockmap/Allocate/Double.antt =====
-- allocateDataBlockAddr of kernel/kernel.c at the first block of the double indirect table.
use arm_kernel.Fs.Alloc.FreeList.{FreeList}
use arm_kernel.Fs.Inode.{Inode}
