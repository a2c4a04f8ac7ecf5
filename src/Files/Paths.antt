-- ===== src/Files/Paths.antt =====
-- open of kernel/kernel.c on a path: path_to_ino2 or path_to_ino, as `oflag` says.
use arm_kernel.Base.{ℕ, ◌==◌, if◌then◌else◌, none, some, List, Run, ok, ◌>>=◌}
use arm_kernel.Base.Words.{neg1}
use arm_kernel.Fs.Dirs.{path_to_ino, path_to_ino2}
use arm_kernel.Files.{Kernel, get_fd, open_file}

-- ROOT_DIR.
abbrev pub root_dir : ℕ
root_dir = 0

-- O_CREAT and O_EXIST.
abbrev pub o_creat : ℕ
o_creat = 0

abbrev pub o_exist : ℕ
o_exist = 1

-- Without a free descriptor the path is not looked at.
unfoldable pub open_string : List ℕ → (oflag : ℕ) → Kernel → Run (ℕ × Kernel)
unfolding path_to_ino2 path_to_ino open_file get_fd
open_string s oflag k = elim (get_fd k) [
  | none ↦ ok (neg1, k)
  | some _ ↦
      if oflag == o_creat
      then (do
        (ino, store) ← path_to_ino2 s root_dir k.store
        ok (open_file (λ k. (ino, record k { store = store })) k))
      else ok (open_file (λ k. (path_to_ino s root_dir k.store, k)) k)
]
