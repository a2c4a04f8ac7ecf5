-- ===== src/Svc/Directories.antt =====
-- The calls of kernel_handler_svc (kernel/kernel.c) on directories: mkdir, cd, mv and cp. `local`
-- is what the local inode_t and dir_t hold before the code sets them.
use arm_kernel.Base.{
  ℕ, zero, suc, ◌+◌, ◌-◌, ◌/◌, ◌%◌, ◌==◌, not, ltb, if◌then◌else◌, Option, none, some, List, [],
  ◌∷◌, Run, ok, fault, ◌>>=◌,
}
use arm_kernel.Base.Words.{neg1}
use arm_kernel.Proc.{Ctx}
use arm_kernel.Fs.Disk.{Block, block_size, disk_wr}
use arm_kernel.Fs.Alloc.{Store, balloc, update_sb}
use arm_kernel.Fs.Inode.{ifzero, ifdir, Icommon, Inode, read_inode, write_inode, get_free_inode}
use arm_kernel.Fs.Dirs.{
  Dirent, dirent_of, dir_block, dirs, blank_inode, put_dirent, add_inode_to_directory,
}
use arm_kernel.Fs.Copy.{copy_inode}
use arm_kernel.Files.{Kernel}
use arm_kernel.Files.Unlink.{remove, remove_in_block}
use arm_kernel.Svc.{Machine, result, with_store, string_at}
use arm_kernel.Files.Paths.{root_dir}
use arm_kernel.Svc.Paths.{path_at}

pub record Local : Type 0 where
  pub inode : Inode
  pub dir : Block

-- The entries `.` and `..` of a new directory.
unfoldable pub dot_entries : (child parent : ℕ) → Block → Block
unfolding put_dirent
dot_entries child parent b =
    put_dirent (put_dirent b 0 child (b'.' ∷ [])) 1 parent (b'.' ∷ b'.' ∷ [])

-- mkdir, with the free inode that was found.
unfoldable pub make_directory : Inode → Block → List ℕ → (cwd : ℕ) → Store → Run Store
unfolding dot_entries add_inode_to_directory balloc
make_directory found dir name cwd s = do
  let parent = read_inode blank_inode cwd s
  (addr, s) ← balloc s
  let ic : Icommon = record (found.ic) {
    mode = ifdir;
    size = 64;
    db = λ k. if k == 0 then addr else found.ic.db k;
  }
  let child : Inode = record found { ic = ic }
  let s : Store = record s {
    disk = disk_wr addr (dot_entries child.number parent.number dir) block_size s.disk;
  }
  (_, s) ← add_inode_to_directory parent child.number name (write_inode child s)
  ok s

unfoldable pub svc_mkdir : Local → Ctx → Machine → Run (Ctx × Machine)
unfolding make_directory get_free_inode
svc_mkdir local ctx m = elim (get_free_inode local.inode m.kernel.store) [
  | none ↦ ok (result neg1 ctx, m)
  | some found ↦ do
    name ← string_at (ctx.gpr 0) m
    s ← make_directory found local.dir name m.cwd m.kernel.store
    ok (result 0 ctx, with_store s m)
]

-- cd: the loop of path_to_ino, from the working directory. Nothing tests that it leads to a directory.
unfoldable pub svc_cd : Ctx → Machine → Run (Ctx × Machine)
unfolding path_at
svc_cd ctx m = do
  (ino, m) ← path_at (ctx.gpr 0) m.cwd m
  ok (if ino == neg1 then (result neg1 ctx, m) else (result 0 ctx, record m { cwd = ino }))

-- The entry that remove copies to its caller, if it finds one.
abbrev entry_of : (i : ℕ) → Inode → Kernel → Option ℕ → Option Dirent → Option Dirent
entry_of i parent k none rest = rest
entry_of i parent k (some j) rest = some (dirent_of (dir_block parent i k.store) j)

unfoldable pub removed_from : (rounds i r : ℕ) → List ℕ → (cwd : ℕ) → Inode → Kernel → Option Dirent
unfolding remove_in_block
removed_from zero i r name cwd parent k =
    entry_of i parent k (remove_in_block r i name cwd parent k) none
removed_from (suc rounds) i r name cwd parent k =
    entry_of i parent k (remove_in_block 16 i name cwd parent k)
      (removed_from rounds (i + 1) r name cwd parent k)

unfoldable pub removed : List ℕ → (cwd : ℕ) → Inode → Kernel → Option Dirent
unfolding removed_from
removed name cwd parent k =
    if ltb 0 (dirs parent)
    then removed_from ((dirs parent - 1) / 16) 0 (dirs parent % 16) name cwd parent k
    else none

-- The name of an entry as a string: d_name has 26 characters.
unfoldable pub name_string : (rounds i : ℕ) → Dirent → Run (List ℕ)
name_string zero i d = fault
name_string (suc rounds) i d =
    let rest = name_string rounds (i + 1) d in
    if d.name i == 0 then ok [] else (rest >>= λ s. ok (d.name i ∷ s))

-- mv, behind its tests: `dest` was read before the entry is removed.
unfoldable pub move_entry : List ℕ → Inode → (cwd : ℕ) → Kernel → Run Store
unfolding remove removed name_string add_inode_to_directory
move_entry name dest cwd k =
    let parent = read_inode blank_inode cwd k.store in
    let (ino, s) = remove name cwd parent k in
    if ino == neg1 then ok s else elim (removed name cwd parent k) [
      | none ↦ ok s
      | some d ↦ do
        entry_name ← name_string 26 0 d
        (_, s) ← add_inode_to_directory dest d.ino entry_name s
        ok s
    ]

unfoldable pub svc_mv : Ctx → Machine → Run (Ctx × Machine)
unfolding path_at move_entry update_sb
svc_mv ctx m = if m.mem (ctx.gpr 0) == b'.' then ok (result neg1 ctx, m) else (do
  (ino, m) ← path_at (ctx.gpr 1) root_dir m
  let dest = read_inode blank_inode ino m.kernel.store
  if ino == neg1 then ok (ctx, m) else if not (dest.ic.mode == ifdir) then ok (ctx, m) else (do
    name ← string_at (ctx.gpr 0) m
    s ← move_entry name dest m.cwd m.kernel
    ok (ctx, with_store (update_sb s) m)))

-- cp, behind its tests: the result of copyInode is not tested, nor is the inode of the copy written.
abbrev number_of : Inode → Option Inode → ℕ
number_of local none = local.number
number_of local (some copy) = copy.number

unfoldable pub copy_file : Inode → Inode → List ℕ → (cwd : ℕ) → Store → Run Store
unfolding copy_inode add_inode_to_directory
copy_file local src name cwd s = do
  (copy, s) ← copy_inode local src s
  (_, s) ← add_inode_to_directory (read_inode blank_inode cwd s) (number_of local copy) name s
  ok s

unfoldable pub svc_cp : Local → Ctx → Machine → Run (Ctx × Machine)
unfolding path_at copy_file update_sb
svc_cp local ctx m = if m.mem (ctx.gpr 0) == b'.' then ok (result neg1 ctx, m) else (do
  (ino, m) ← path_at (ctx.gpr 0) m.cwd m
  let src = read_inode blank_inode ino m.kernel.store
  if ino == neg1 then ok (ctx, m) else if src.ic.mode == ifzero then ok (ctx, m) else (do
    name ← string_at (ctx.gpr 1) m
    s ← copy_file local.inode src name m.cwd m.kernel.store
    ok (ctx, with_store (update_sb s) m)))
