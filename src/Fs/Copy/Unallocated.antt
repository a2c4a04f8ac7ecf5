-- ===== src/Fs/Copy/Unallocated.antt =====
-- copyInode of kernel/kernel.c gives a copy without blocks of its own.
use arm_kernel.Base.{ℕ}
use arm_kernel.Fs.Inode.{Inode}

abbrev pub resized : ℕ → Inode → Inode
resized n inode = record inode { ic = record (inode.ic) { size = n } }
