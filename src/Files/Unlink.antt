-- ===== src/Files/Unlink.antt =====
-- removable, getLastDir, remove and unlink of kernel/kernel.c. `cwd` is the number of the working
-- directory.
pub mod Kept
pub mod Freed
pub mod Dropped
pub mod Effect
mod Tests
use arm_kernel.Base.{
  ℕ, zero, suc, ◌+◌, ◌-◌, ◌*◌, ◌/◌, ◌%◌, ◌&&◌, not, Option, none, some, Bool, true, false, List,
  ltb, ◌==◌, if◌then◌else◌, first_where,
}
use arm_kernel.Base.Words.{neg1, sub32}
use arm_kernel.Fs.Disk.{block_size, Block, disk_wr}
use arm_kernel.Fs.Alloc.{Store}
use arm_kernel.Fs.Inode.{ifzero, ifdir, Icommon, Inode, read_inode, write_inode}
use arm_kernel.Fs.Blockmap.{read_block, get_data_block_addr, free_data_blocks}
use arm_kernel.Fs.Dirs.{Dirent, dirent_of, set_dirent, cstr, matches, dirs, dir_block, blank_inode}
use arm_kernel.Files.{Kernel, oft_limit, is_none, find_active}

-- The number of the child, or -1.
unfoldable pub removable : (cwd ino : ℕ) → Kernel → ℕ
unfolding find_active
removable cwd ino k =
    let inode = read_inode blank_inode ino k.store in
    if ino == cwd
    then neg1
    else if not (is_none (find_active ino k))
    then neg1
    else if inode.ic.mode == ifdir && ltb 64 inode.ic.size
    then neg1
    else ino

-- getLastDir( &dir[ j ], parent ), in the block `b` that holds `dir`.
unfoldable pub get_last_dir : Block → ℕ → Inode → Store → Block
unfolding set_dirent
get_last_dir b j parent s =
    set_dirent b j (read_block s (get_data_block_addr parent (sub32 parent.ic.size 32) s))
      (sub32 (parent.ic.size / 32) 1 % 16)

-- The last entry takes the place of entry `j` of block `i`, and the directory is shorter by one.
unfoldable pub drop_entry : (i j : ℕ) → Inode → Store → Store
unfolding get_last_dir
drop_entry i j parent s =
    let addr = get_data_block_addr parent (block_size * i) s in
    let b = get_last_dir (dir_block parent i s) j parent s in
    let shorter : Inode = record parent {
      ic = record (parent.ic) { size = sub32 parent.ic.size 32 };
    } in
    write_inode shorter (record s { disk = disk_wr addr b block_size s.disk })

-- The test of an entry, the name first.
abbrev pub goes : List ℕ → (cwd : ℕ) → Kernel → Dirent → Bool
goes name cwd k d = matches name d && not (removable cwd d.ino k == neg1)

unfoldable pub remove_in_block : (n i : ℕ) → List ℕ → (cwd : ℕ) → Inode → Kernel → Option ℕ
unfolding matches removable
remove_in_block n i name cwd parent k =
    first_where n 0 (λ j. goes name cwd k (dirent_of (dir_block parent i k.store) j))

abbrev pub removed_at : (i j : ℕ) → Inode → Kernel → ℕ × Store
removed_at i j parent k =
    ((dirent_of (dir_block parent i k.store) j).ino, drop_entry i j parent k.store)

-- The whole blocks from `i` on, and the last one: the number of the child, or -1, and the store.
unfoldable pub remove_from : (rounds i r : ℕ) → List ℕ → (cwd : ℕ) → Inode → Kernel → ℕ × Store
unfolding remove_in_block drop_entry
remove_from zero i r name cwd parent k = elim (remove_in_block r i name cwd parent k) [
  | some j ↦ removed_at i j parent k
  | none ↦ (neg1, k.store)
]
remove_from (suc rounds) i r name cwd parent k =
    let rest = remove_from rounds (i + 1) r name cwd parent k in
    elim (remove_in_block 16 i name cwd parent k) [ some j ↦ removed_at i j parent k | none ↦ rest ]

unfoldable pub remove : List ℕ → (cwd : ℕ) → Inode → Kernel → ℕ × Store
unfolding remove_from
remove name cwd parent k =
    if ltb 0 (dirs parent)
    then remove_from ((dirs parent - 1) / 16) 0 (dirs parent % 16) name cwd parent k
    else (neg1, k.store)

-- The end of unlink, for the inode of the entry that is gone.
unfoldable pub free_file : ℕ → Store → Store
free_file ino s =
    let inode = read_inode blank_inode ino s in
    let freed = free_data_blocks inode s in
    write_inode (record inode { ic = record (inode.ic) { mode = ifzero; size = 0 } }) freed

unfoldable pub unlink : List ℕ → (cwd : ℕ) → Kernel → ℕ × Kernel
unfolding remove free_file
unlink name cwd k =
    if cstr name 0 == 46
    then (neg1, k)
    else (let (ino, s) = remove name cwd (read_inode blank_inode cwd k.store) k in
        if ino == neg1
        then (neg1, record k { store = s })
        else (0, record k { store = free_file ino s }))
