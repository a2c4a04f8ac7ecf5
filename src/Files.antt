-- ===== src/Files.antt =====
-- Open files: the tables of kernel/kernel.c (getFD, getOFT, getAIT) and its functions on
-- descriptors (open, close, fwrite, fread, lseek, tell).
pub mod Tables
pub mod Seek
pub mod Reading
pub mod Writing
pub mod Unlink
pub mod Paths
pub mod Format
pub mod Fds
mod Tests
use arm_kernel.Base.{
  ℕ, zero, suc, ◌+◌, ◌-◌, ◌*◌, ◌/◌, ◌%◌, ◌&&◌, ◌||◌, not, Option, none, some, Bool, true, false,
  ltb, ◌==◌, if◌then◌else◌, update, Run, ok, fault, out_of_fuel, ◌>>=◌, deref, first_where,
}
use arm_kernel.Base.Words.{neg1, nonneg, add32, sub32}
use arm_kernel.Proc.{fdt_limit, process_limit, Pcb, Procs}
use arm_kernel.Fs.Disk.{block_size, Block, Disk, disk_wr, disk_rd}
use arm_kernel.Fs.Alloc.{Store}
use arm_kernel.Fs.Inode.{ifzero, Icommon, Inode, read_inode, write_inode}
use arm_kernel.Fs.Blockmap.{get_data_block_addr, allocate_data_blocks}

-- OFT_LIMIT and AIT_LIMIT.
abbrev pub oft_limit : ℕ
oft_limit = 128

-- ofile_t. An `inode_t *` is an index into the table of active inodes.
pub record Ofile : Type 0 where
  pub inptr : Option ℕ
  pub head : ℕ

-- The globals of the file functions.
pub record Kernel : Type 0 where
  pub procs : Procs
  pub store : Store
  pub oft : ℕ → Ofile
  pub ait : ℕ → Inode

abbrev pub is_none {ℓ} : {A : Type ℓ} → Option A → Bool
is_none none = true
is_none (some _) = false

abbrev pub current_fd : Kernel → ℕ → Option ℕ
current_fd k = (k.procs.pcb k.procs.current).fd

-- getFD and getOFT: the first entry that is NULL.
unfoldable pub get_fd : Kernel → Option ℕ
unfolding first_where
get_fd k = first_where fdt_limit 0 (λ fd. is_none (current_fd k fd))

unfoldable pub get_oft : Kernel → Option ℕ
unfolding first_where
get_oft k = first_where oft_limit 0 (λ i. is_none (k.oft i).inptr)

-- The two passes of getAIT.
unfoldable pub find_active : ℕ → Kernel → Option ℕ
unfolding first_where
find_active ino k =
    first_where oft_limit 0 (λ i. (k.ait i).number == ino && not ((k.ait i).ic.mode == ifzero))

unfoldable pub find_unused : Kernel → Option ℕ
unfolding first_where
find_unused k = first_where oft_limit 0 (λ i. (k.ait i).ic.mode == ifzero)

load_inode : Option ℕ → ℕ → Kernel → Option (ℕ × Kernel)
load_inode none ino k = none
load_inode (some i) ino k =
    some (i, record k { ait = update k.ait i (read_inode (k.ait i) ino k.store) })

active_or_load : Option ℕ → ℕ → Kernel → Option (ℕ × Kernel)
unfolding load_inode
active_or_load (some i) ino k = some (i, k)
active_or_load none ino k = load_inode (find_unused k) ino k

unfoldable pub get_ait : ℕ → Kernel → Option (ℕ × Kernel)
unfolding active_or_load find_active find_unused
get_ait ino k = active_or_load (find_active ino k) ino k

-- current->fd[ fd ] = o
abbrev pub set_fd : ℕ → Option ℕ → Kernel → Kernel
set_fd fd o k =
    let c = k.procs.current in
    let p = k.procs.pcb c in
    record k {
      procs = record (k.procs) { pcb = update k.procs.pcb c (record p { fd = update p.fd fd o }) };
    }

-- The end of open: the link count, and the links between the tables.
unfoldable pub link_tables : ℕ → ℕ → ℕ → Kernel → Kernel
link_tables fd o i k = set_fd fd (some o) (record k {
  oft = update k.oft o (record (k.oft o) { inptr = some i });
  ait = update k.ait i (record (k.ait i) { links = add32 (k.ait i).links 1 });
})

open_entry : ℕ → ℕ → Option ℕ → Kernel → ℕ × Kernel
unfolding link_tables
open_entry fd i none k = (neg1, k)
open_entry fd i (some o) k = (fd, link_tables fd o i k)

open_inode : ℕ → Option (ℕ × Kernel) → Kernel → ℕ × Kernel
unfolding open_entry get_oft
open_inode fd none k = (neg1, k)
open_inode fd (some (i, k')) k = open_entry fd i (get_oft k') k'

open_at : Option ℕ → (Kernel → ℕ × Kernel) → Kernel → ℕ × Kernel
unfolding open_inode get_ait
open_at none path k = (neg1, k)
open_at (some fd) path k =
    let (ino, k') = path k in if nonneg ino then open_inode fd (get_ait ino k') k' else (neg1, k')

-- open, where `path` is the call of path_to_ino or path_to_ino2 with its arguments.
unfoldable pub open_file : (Kernel → ℕ × Kernel) → Kernel → ℕ × Kernel
unfolding open_at get_fd
open_file path k = open_at (get_fd k) path k

-- The end of close, for the entry `o` of the open file table and the inode `i` that it names.
unfoldable pub close_entry : ℕ → ℕ → ℕ → Kernel → Kernel
close_entry fd o i k =
    let inode = record (k.ait i) { links = sub32 (k.ait i).links 1 } in
    let last = inode.links == 0 in
    set_fd fd none (record k {
      store = if last then write_inode inode k.store else k.store;
      ait =
          update k.ait i
            (if last then record inode { ic = record (inode.ic) { mode = ifzero } } else inode);
      oft = update k.oft o (record { inptr = none; head = 0 });
    })

close_open : ℕ → Option ℕ → Kernel → Run (ℕ × Kernel)
unfolding close_entry
close_open fd none k = ok (neg1, k)
close_open fd (some o) k = do i ← deref (k.oft o).inptr; ok (0, close_entry fd o i k)

unfoldable pub close_file : ℕ → Kernel → Run (ℕ × Kernel)
unfolding close_open
close_file fd k = if ltb fd fdt_limit then close_open fd (current_fd k fd) k else ok (neg1, k)

-- whence_t.
abbrev pub seek_set : ℕ
seek_set = 0

abbrev pub seek_cur : ℕ
seek_cur = 1

abbrev pub seek_end : ℕ
seek_end = 2

abbrev pub set_head : ℕ → ℕ → Kernel → Kernel
set_head o h k = record k { oft = update k.oft o (record (k.oft o) { head = h }) }

seek_open : Option ℕ → ℕ → ℕ → Kernel → Run (ℕ × Kernel)
seek_open none offset whence k = ok (neg1, k)
seek_open (some o) offset whence k =
    if whence == seek_set
    then ok (offset, set_head o offset k)
    else if whence == seek_cur
    then (let h = add32 (k.oft o).head offset in ok (h, set_head o h k))
    else if whence == seek_end
    then (do
      i ← deref (k.oft o).inptr
      let h = add32 (k.ait i).ic.size offset
      ok (h, set_head o h k))
    else ok (neg1, k)

unfoldable pub lseek : (fd offset whence : ℕ) → Kernel → Run (ℕ × Kernel)
unfolding seek_open
lseek fd offset whence k =
    if ltb fd fdt_limit then seek_open (current_fd k fd) offset whence k else ok (neg1, k)

tell_open : Option ℕ → Kernel → ℕ
tell_open none k = neg1
tell_open (some o) k = (k.oft o).head

unfoldable pub tell : ℕ → Kernel → ℕ
unfolding tell_open
tell fd k = if ltb fd fdt_limit then tell_open (current_fd k fd) k else neg1

-- getDataBlock, the contents; the buffer is overwritten as a whole.
abbrev pub get_data_block : Inode → ℕ → Store → Block
get_data_block inode byte s = disk_rd (get_data_block_addr inode byte s) (λ _. 0) block_size s.disk

-- Not the last byte, and the next one begins a block.
abbrev pub crosses : (i n head : ℕ) → Bool
crosses i n head = not (i == n - 1) && (head + i + 1) % block_size == 0

-- fread's loop: `rounds` bytes from `i` on.
unfoldable pub read_loop : (rounds i n head : ℕ) → Inode → Store → Block → (ℕ → ℕ) → ℕ → ℕ
read_loop zero i n head inode s buf x = x
read_loop (suc rounds) i n head inode s buf x =
    read_loop rounds (i + 1) n head inode s
      (if crosses i n head then get_data_block inode (add32 head (i + 1)) s else buf)
      (update x i (buf ((head + i) % block_size)))

-- An `int` that counts: a negative one makes no round.
abbrev pub rounds_of : ℕ → ℕ
rounds_of n = if nonneg n then n else 0

read_open : Option ℕ → (ℕ → ℕ) → ℕ → Kernel → Run (ℕ × (ℕ → ℕ) × Kernel)
unfolding read_loop
read_open none x n k = ok (neg1, x, k)
read_open (some o) x n k = do
  i ← deref (k.oft o).inptr
  let head = (k.oft o).head
  let inode = k.ait i
  if ltb inode.ic.size (add32 head n)
      then ok (neg1, x, k)
      else ok (
        0,
        read_loop (rounds_of n) 0 n head inode k.store (get_data_block inode head k.store) x,
        set_head o (add32 head n) k,
      )

-- fread: the result, the buffer at `data`, and the state.
unfoldable pub fread : ℕ → (ℕ → ℕ) → ℕ → Kernel → Run (ℕ × (ℕ → ℕ) × Kernel)
unfolding read_open
fread fd x n k = if ltb fd fdt_limit then read_open (current_fd k fd) x n k else ok (neg1, x, k)

-- fwrite's loop, with the block in `buf` and its address.
unfoldable pub write_loop : (rounds i n head : ℕ) → Inode → (ℕ → ℕ) → ℕ → Block → Store → Store
write_loop zero i n head inode x addr buf s = record s { disk = disk_wr addr buf block_size s.disk }
write_loop (suc rounds) i n head inode x addr buf s =
    let buf' = update buf ((head + i) % block_size) (x i) in
    let s' = record s { disk = disk_wr addr buf' block_size s.disk } in
    elim (crosses i n head) [
      | true ↦
          write_loop rounds (i + 1) n head inode x
            (get_data_block_addr inode (add32 head (i + 1)) s')
            (get_data_block inode (add32 head (i + 1)) s') s'
      | false ↦ write_loop rounds (i + 1) n head inode x addr buf' s
    ]

-- allocateDataBlocks if the write passes the size; whether it failed is not looked at.
unfoldable pub extend_file : ℕ → ℕ → Inode → Store → Run (Inode × Store)
extend_file head n inode s =
    if ltb inode.ic.size (add32 head n)
    then (do
      (_, inode', s') ← allocate_data_blocks (sub32 (add32 head n) inode.ic.size) inode s
      ok (inode', s'))
    else ok (inode, s)

write_open : Option ℕ → (ℕ → ℕ) → ℕ → Kernel → Run (ℕ × Kernel)
unfolding write_loop extend_file
write_open none x n k = ok (neg1, k)
write_open (some o) x n k = do
  i ← deref (k.oft o).inptr
  let head = (k.oft o).head
  (inode, s) ← extend_file head n (k.ait i) k.store
  let s' =
      write_loop (rounds_of n) 0 n head inode x (get_data_block_addr inode head s)
        (get_data_block inode head s) s
  ok (0, set_head o (add32 head n) (record k { store = s'; ait = update k.ait i inode }))

unfoldable pub fwrite : ℕ → (ℕ → ℕ) → ℕ → Kernel → Run (ℕ × Kernel)
unfolding write_open
fwrite fd x n k = if ltb fd fdt_limit then write_open (current_fd k fd) x n k else ok (neg1, k)
