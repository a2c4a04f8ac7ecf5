-- ===== src/Lib.antt =====
-- A model of the kernel of an ARM system: its processes, its message channels and its file system.
--
-- The program: an interrupt enters kernel_handler_svc or kernel_handler_irq (kernel/kernel.c) with
-- the saved registers of the process that runs. Those call the functions on processes (fork, exec,
-- kill, scheduler), on channels (mq_open, mq_send, mq_receive), which block a process by a signal of
-- kill, and on files, which stand on inodes, those on data blocks, those on the list of free blocks,
-- and that on the disk. device/disk.c sends each request over a serial line (device/PL011.c) to a
-- process on the host (device/disk.py), which keeps the image. The programs of user call the kernel
-- by the wrappers of user/libc.c.
--
-- The files:
--   Base        the shared helpers: Boolean tests on numbers (Tests), arrays (Arrays), lists without
--               repetition (Lists, Members, Pigeonhole), results with faults (Outcome), what holds of
--               every result (Always), that there is one (Returns), 32-bit words (Words) and bit
--               masks (Masks).
--   Proc        kernel/kernel.h: ctx_t, pst_t, pcb_t, and the globals pcb, current, rq, rq_size.
--     ReadyQueue  rq_rotate, rq_add, rq_rm.   Signal  kill.   Lifecycle  fork, exec, and the process
--     part of kernel_handler_rst.   Scheduler  scheduler.   Interrupt  kernel_handler_irq.
--     Invariant  the table in order: the queue is an array without gaps of distinct processes that
--     are not TERMINATED, and each pcb has its index as its pid.   Invariant/Lively  that invariant
--     with one process in the queue; Invariant/Awake  with that process EXECUTING.
--   Mqueue      kernel/mqueue.h and mq_open, mq_unlink, mq_send, mq_receive.
--   Fs          Disk  blocks, words and disk_wr, disk_rd.   Alloc  fs_t, balloc, bfree.   Inode
--               icommon_t, inode_t, readInode, writeInode, getFreeInode.   Blockmap
--               getDataBlockAddr, allocateDataBlockAddr, allocateDataBlocks, freeDataBlocks.
--     Dirs        dir_t, name_to_ino, path_to_ino, path_to_ino2, addInodeToDirectory.
--               Lookup, Resolve  name_to_ino and path_to_ino as searches.   Copy  copyInode.
--   Files       the tables (getFD, getOFT, getAIT) and open, close, fread, fwrite, lseek, tell.
--     Tables      open and close.   Seek  lseek, tell.   Reading  fread.   Writing  fwrite.
--     Unlink      removable, getLastDir, remove, unlink: Kept  which entry goes, Dropped  the
--     directory without it, Freed  the file's blocks and inode, Effect  both.
--     Paths       open on a path.   Fds  these functions and the process table.   Format  wipe and createObjFiles; Format/Wiped and
--     Format/Fresh the list of free blocks that wipe makes.
--   Device      the serial line. Uart  device/PL011.c.   Protocol  device/disk.c.   Peer
--               device/disk.py.   Hex, Lines, Transfer, Requests, Answers  the text of requests and
--               of acknowledgements.   Refine, Session  one request and sequences of requests
--               against the store of Fs/Disk.
--   Svc         kernel_handler_svc: Console  write, read, ls.   Directories  mkdir, cd, mv, cp.
--               Paths  path arguments and getProgramEntry.   Handler  the other cases and the
--               choice.   Invariant  what the calls do to the process table.   System
--               kernel_handler_rst, and the steps of the kernel from then on: calls, interrupts,
--               and what programs do between them.
--   User        user: Libc  the wrappers of libc.c, and Messages on msgsend and msgreceive through
--               the kernel.   Text  int2str, str2int, write_int, and Decimal on base ten.
--               Programs  is_prime, gcd, weight, Divisors on gcd, Primes on is_prime.
--
-- How the state corresponds. A `pcb_t *`, `ofile_t *` or `inode_t *` is an index into its array, and
-- NULL is `none`. `current` is an index: it is never NULL once kernel_handler_rst has run. A global
-- array is a function, and its bounds are tested where the code relies on an index it does not
-- test; a C `int` is its 32-bit pattern. An undefined access is `fault`,
-- and so is arithmetic of user/libc.c beyond an `int`. The functions on one part
-- of the state take and return that part: Procs, Channels, Store (the disk and the superblock in
-- memory) and Kernel (all of them but the channels, with the tables of open files).
-- kernel_handler_svc works on a Machine, which adds the channels, cwd, the memory of the programs
-- as one array of bytes, the characters typed at the console and those printed. The line to the
-- disk is a Peer: the image, the part of a line that disk.py has read, the characters on their way
-- back, and whether disk.py still runs.
--
-- Fuel. rq_rotate calls itself, so it takes a number of rounds; scheduler gives nine, which is
-- enough since the queue has at most eight entries and each round brings the next one to the front.
-- Running out is the value `out_of_fuel`. disk.c tries three times, as RETRY says; a read of a
-- character that never comes is `out_of_fuel`. A string in memory is read with 2 ^ 32 rounds, the
-- number of addresses. The digits of an int take 31 rounds, which is enough in base two. gcd and
-- is_prime take the rounds as an argument: for gcd the sum of its arguments is enough, and for
-- is_prime 32767 below 65535 * 65535. Every other loop is bounded in the code, by a constant or a
-- count that is computed first.
--
-- Not modelled. The registers of the devices (device/GIC.h, device/SP804.h, device/PL011.h), whose
-- behaviour is not in the sources, and the loops that wait for room in a FIFO; the assembly of
-- kernel/interrupt.s but for the number that it takes from the svc instruction; the main loops of the
-- programs of user and the shell of user/init.c; the build. The file system stands on the store of
-- blocks of Fs/Disk, which Device shows to be what disk.c and disk.py give for blocks that exist. A
-- local that the code does not set is an argument (`Local` and `Env`) where it matters, and 0 where a read of a
-- whole block overwrites it. An address does not pass the end of the memory. The linker's symbols are
-- arguments (`Env`).
pub mod Base
pub mod Proc
pub mod Mqueue
pub mod Fs
pub mod Files
pub mod Device
pub mod Svc
pub mod User
