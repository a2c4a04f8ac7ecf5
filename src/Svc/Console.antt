-- ===== src/Svc/Console.antt =====
-- The calls of kernel_handler_svc (kernel/kernel.c) that read and write: files and the console.
use arm_kernel.Base.{
  ℕ, zero, suc, ◌+◌, ◌-◌, ◌/◌, ◌%◌, ◌==◌, ltb, if◌then◌else◌, [], ◌∷◌, update, check, Run, ok,
  out_of_fuel, ◌>>=◌, ◌>>◌,
}
use arm_kernel.Proc.{Ctx}
use arm_kernel.Fs.Disk.{Block}
use arm_kernel.Fs.Inode.{Inode, ndaddr, read_inode}
use arm_kernel.Fs.Blockmap.{read_block}
use arm_kernel.Fs.Dirs.{dirent_of, blank_inode}
use arm_kernel.Files.{fread, fwrite, rounds_of}
use arm_kernel.Svc.{Machine, stdio, result, bytes_at, put_bytes, put_char, print_from}

-- write: the count is returned as it was given.
unfoldable pub svc_write : Ctx → Machine → Run (Ctx × Machine)
unfolding print_from fwrite
svc_write ctx m =
    let fd = ctx.gpr 0 in
    let x = bytes_at (ctx.gpr 1) m.mem in
    let n = ctx.gpr 2 in
    if fd == stdio
    then ok (result n ctx, print_from (rounds_of n) 0 x m)
    else (do (r, k) ← fwrite fd x n m.kernel; ok (result r ctx, record m { kernel = k }))

-- The loop of a read from the console, which echoes; 13 is the end of a line.
unfoldable pub read_from : (rounds a : ℕ) → Machine → Run Machine
read_from zero a m = ok m
read_from (suc rounds) a m = elim m.typed [
  | [] ↦ out_of_fuel
  | c ∷ cs ↦
      let got : Machine = record m { mem = update m.mem a c; typed = cs } in
      let rest = read_from rounds (a + 1) (put_char c got) in
      if c == 13 then ok (put_char b'\n' got) else rest
]

unfoldable pub svc_read : Ctx → Machine → Run (Ctx × Machine)
unfolding read_from fread
svc_read ctx m =
    let fd = ctx.gpr 0 in
    let a = ctx.gpr 1 in
    let n = ctx.gpr 2 in
    if fd == stdio then (do m ← read_from (rounds_of n) a m; ok (result n ctx, m)) else (do
      (r, x, k) ← fread fd (bytes_at a m.mem) n m.kernel
      ok (result r ctx, record m { kernel = k; mem = put_bytes a (rounds_of n) x m.mem }))

-- A name of `ls` and the end of its line; the names of a block from `j` on.
abbrev pub print_name : Block → ℕ → Machine → Machine
print_name b j m = let d = dirent_of b j in put_char b'\n' (print_from d.namlen 0 d.name m)

unfoldable pub print_names : (rounds j : ℕ) → Block → Machine → Machine
unfolding print_from
print_names zero j b m = m
print_names (suc rounds) j b m = print_names rounds (j + 1) b (print_name b j m)

-- The whole blocks from `i` on, and `r` names of the last one. ic_db has NDADDR places.
unfoldable pub print_blocks : (rounds i r : ℕ) → Inode → Machine → Run Machine
unfolding print_names
print_blocks zero i r inode m =
    check (ltb i ndaddr) >> ok (print_names r 0 (read_block m.kernel.store (inode.ic.db i)) m)
print_blocks (suc rounds) i r inode m =
    check (ltb i ndaddr)
    >> print_blocks rounds (i + 1) r inode
        (print_names 16 0 (read_block m.kernel.store (inode.ic.db i)) m)

-- ls: `(dirs-1) / 16` is 0 for no entries.
unfoldable pub svc_ls : Ctx → Machine → Run (Ctx × Machine)
unfolding print_blocks
svc_ls ctx m = do
  let inode = read_inode blank_inode m.cwd m.kernel.store
  let dirs = inode.ic.size / 32
  m ← print_blocks ((dirs - 1) / 16) 0 (dirs % 16) inode m
  ok (ctx, m)
