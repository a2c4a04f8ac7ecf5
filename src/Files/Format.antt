-- ===== src/Files/Format.antt =====
-- wipe and createObjFiles of kernel/kernel.c: a new file system with the programs in it. A program
-- is a file of eight bytes, its entry and its priority.
pub mod Fresh
pub mod Wiped
use arm_kernel.Base.{
  ℕ, zero, suc, ◌+◌, ◌-◌, ◌*◌, ◌/◌, ◌%◌, ◌==◌, ◌&&◌, Bool, true, false, ltb, leb, if◌then◌else◌,
  List, [], ◌∷◌, update, Run, ok, ◌>>=◌,
}
use arm_kernel.Fs.Disk.{Block, Disk, block_size, disk_wr, disk_rd, byte, words_bytes}
use arm_kernel.Fs.Alloc.{Superblock, Store, balloc, update_sb}
use arm_kernel.Fs.Inode.{ifzero, ifdir, Icommon, ic_of, set_ic}
use arm_kernel.Fs.Dirs.{put_dirent}
use arm_kernel.Files.{Kernel, fwrite, close_file}
use arm_kernel.Files.Paths.{o_creat, open_string}

-- The numbers of the new superblock; fs_fil and the padding are left as they were.
abbrev pub new_fs : Superblock → Superblock
new_fs fs = record fs {
  sblkno = 1;
  size = 2048;
  iblkno = 2;
  isize = 64 * 8;
  dblkno = 66;
  dsize = 1982;
  fdbhead = 1982 % 64 - 1;
}

-- The list in block `i` of the chain: the next block in front, 1 for none, and 63 blocks.
unfoldable pub chain_words : ℕ → ℕ → ℕ
chain_words i j =
    if j == 0 then (if i == 29 then 1 else i + 1 + 66) else 63 * i + (j - 1) + (66 + 30)

unfoldable pub write_chain : (rounds i : ℕ) → Disk → Disk
unfolding chain_words words_bytes
write_chain zero i d = d
write_chain (suc rounds) i d =
    write_chain rounds (i + 1) (disk_wr (i + 66) (words_bytes (chain_words i)) (64 * 4) d)

-- fs_fdb from place 1 to place 61; the places behind are left as they were.
abbrev pub new_fdb : (ℕ → ℕ) → ℕ → ℕ
new_fdb fdb i = if i == 0 then 66 else if leb 1 i && ltb i 62 then i + 1986 else fdb i

-- The free blocks.
unfoldable pub wipe_blocks : Store → Store
unfolding write_chain update_sb
wipe_blocks s =
    let fs = new_fs s.fs in
    update_sb (record { disk = write_chain 30 0 s.disk; fs = record fs { fdb = new_fdb fs.fdb } })

-- The eight inodes of a block from `j` on, unused.
unfoldable pub clear_inodes : (rounds j : ℕ) → Block → Block
unfolding ic_of set_ic
clear_inodes zero j b = b
clear_inodes (suc rounds) j b =
    let ic : Icommon = record (ic_of b j) { mode = ifzero; size = 0 } in
    clear_inodes rounds (j + 1) (set_ic b j ic)

-- The blocks of inodes from `i` on.
unfoldable pub wipe_inodes : (rounds i : ℕ) → Store → Store
unfolding clear_inodes
wipe_inodes zero i s = s
wipe_inodes (suc rounds) i s =
    let b = disk_rd (i + s.fs.iblkno) (λ _. 0) block_size s.disk in
    wipe_inodes rounds (i + 1)
      (record s { disk = disk_wr (i + s.fs.iblkno) (clear_inodes 8 0 b) block_size s.disk })

-- The first block of inodes: the root directory, with an entry for itself in a new block, and seven
-- unused inodes. `dir` is what the local array holds.
unfoldable pub wipe_root : Block → Store → Run Store
unfolding clear_inodes put_dirent balloc
wipe_root dir s = do
  let b = disk_rd s.fs.iblkno (λ _. 0) block_size s.disk
  let old = ic_of b 0
  (addr, s) ← balloc s
  let ic : Icommon = record old { mode = ifdir; size = 32; db = update old.db 0 addr }
  let d = disk_wr addr (put_dirent dir 0 0 (b'.' ∷ [])) block_size s.disk
  ok (record s { disk = disk_wr s.fs.iblkno (clear_inodes 7 1 (set_ic b 0 ic)) block_size d })

-- One program: its name, and the address that it starts at.
unfoldable pub create_program : List ℕ → ℕ → Kernel → Run Kernel
unfolding open_string fwrite close_file
create_program name entry k = do
  (fd, k) ← open_string name o_creat k
  (_, k) ← fwrite fd (byte entry) 4 k
  (_, k) ← fwrite fd (byte 1) 4 k
  (_, k) ← close_file fd k
  ok k

unfoldable pub create_obj_files : List (List ℕ × ℕ) → Kernel → Run Kernel
unfolding create_program
create_obj_files [] k = ok k
create_obj_files ((name, entry) ∷ programs) k = do
  k ← create_program name entry k
  create_obj_files programs k

-- The programs, by their names, with the addresses that the linker gives them.
abbrev pub programs : (ℕ → ℕ) → List (List ℕ × ℕ)
programs entry =
    ((b'P' ∷ b'0' ∷ []), entry 0)
    ∷ ((b'P' ∷ b'1' ∷ []), entry 1)
    ∷ ((b'P' ∷ b'2' ∷ []), entry 2)
    ∷ ((b'h' ∷ b'e' ∷ b't' ∷ []), entry 3)
    ∷ ((b'p' ∷ b'i' ∷ b'n' ∷ b'g' ∷ []), entry 4)
    ∷ ((b'p' ∷ b'o' ∷ b'n' ∷ b'g' ∷ []), entry 5)
    ∷ ((b'b' ∷ b'l' ∷ b'a' ∷ b'n' ∷ b'k' ∷ b's' ∷ []), entry 6)
    ∷ ((b'h' ∷ b'a' ∷ b's' ∷ b'h' ∷ b's' ∷ []), entry 7)
    ∷ []

unfoldable pub wipe : (entry : ℕ → ℕ) → (dir : Block) → Kernel → Run Kernel
unfolding wipe_blocks wipe_root wipe_inodes create_obj_files
wipe entry dir k = do
  s ← wipe_root dir (wipe_blocks k.store)
  create_obj_files (programs entry) (record k { store = wipe_inodes 63 1 s })
