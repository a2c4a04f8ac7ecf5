-- ===== src/Svc/Paths.antt =====
-- Paths that a program passes to kernel_handler_svc of kernel/kernel.c: strtok cuts them in the
-- memory of the program. getProgramEntry.
use arm_kernel.Base.{
  ℕ, zero, suc, ◌==◌, Bool, true, false, if◌then◌else◌, Option, none, some, List, [], ◌∷◌, length,
  Run, ok, ◌>>=◌,
}
use arm_kernel.Base.Words.{neg1}
use arm_kernel.Fs.Disk.{Block, word}
use arm_kernel.Fs.Alloc.{Store}
use arm_kernel.Fs.Inode.{read_inode}
use arm_kernel.Fs.Dirs.{cstr, tokens_from, name_to_ino, blank_inode, path_to_ino}
use arm_kernel.Files.{Kernel, get_fd, close_file, fread}
use arm_kernel.Files.Paths.{root_dir, o_exist, open_string}
use arm_kernel.Svc.{Machine, put_bytes, string_at}

-- What `calls` calls of strtok make of the characters: each one skips the characters `/`, and puts
-- a null character behind the name. `inside` a name.
unfoldable pub cut : (calls : ℕ) → (inside : Bool) → List ℕ → List ℕ
cut zero inside s = s
cut (suc calls) inside [] = []
cut (suc calls) false (c ∷ s) =
    if c == b'/' then c ∷ cut (suc calls) false s else c ∷ cut (suc calls) true s
cut (suc calls) true (c ∷ s) =
    if c == b'/' then 0 ∷ cut calls false s else c ∷ cut (suc calls) true s

-- How many names the loop of path_to_ino, or that of path_to_ino2, looks up.
unfoldable pub looked_up : List (List ℕ) → ℕ → Store → ℕ
unfolding name_to_ino
looked_up [] ino s = 0
looked_up (tok ∷ toks) ino s =
    let rest = looked_up toks (name_to_ino tok (read_inode blank_inode ino s) s) s in
    if ino == neg1 then 0 else suc rest

-- The memory behind such a loop on the string `s` at address `a`.
unfoldable pub cut_path : ℕ → List ℕ → ℕ → Machine → Machine
unfolding cut looked_up tokens_from
cut_path a s dir m =
    let left = cut (suc (looked_up (tokens_from [] s) dir m.kernel.store)) false s in
    record m { mem = put_bytes a (length left) (cstr left) m.mem }

-- path_to_ino of the string at `a`.
unfoldable pub path_at : ℕ → ℕ → Machine → Run (ℕ × Machine)
unfolding cut_path path_to_ino
path_at a dir m = do s ← string_at a m; ok (path_to_ino s dir m.kernel.store, cut_path a s dir m)

-- open, on the string at `a`: without a free descriptor the path is not looked at.
unfoldable pub open_path_at : ℕ → ℕ → Machine → Run (ℕ × Machine)
unfolding get_fd open_string cut_path
open_path_at a oflag m = elim (get_fd m.kernel) [
  | none ↦ ok (neg1, m)
  | some _ ↦ do
    s ← string_at a m
    (fd, k) ← open_string s oflag m.kernel
    ok (fd, record (cut_path a s root_dir m) { kernel = k })
]

-- The entry and the priority that stand in the first eight bytes of a file; where a read fails, they
-- stay what the locals of exec hold, `entry` and `priority`.
unfoldable pub read_entry : (entry priority : Block) → ℕ → Kernel → Run (Option (ℕ × ℕ) × Kernel)
unfolding fread close_file word
read_entry entry priority fd k = do
  (_, entry, k) ← fread fd entry 4 k
  (_, priority, k) ← fread fd priority 4 k
  (_, k) ← close_file fd k
  ok (some (word entry 0, word priority 0), k)

-- getProgramEntry: the path is read a second time as the first loop has left it.
unfoldable pub get_program_entry :
    (entry priority : Block) → ℕ → Machine → Run (Option (ℕ × ℕ) × Machine)
unfolding path_at open_path_at read_entry
get_program_entry entry priority a m = do
  (ino, m) ← path_at a root_dir m
  if ino == neg1 then ok (none, m) else (do
    (fd, m) ← open_path_at a o_exist m
    if fd == neg1 then ok (none, m) else (do
      (found, k) ← read_entry entry priority fd m.kernel
      ok (found, record m { kernel = k })))
