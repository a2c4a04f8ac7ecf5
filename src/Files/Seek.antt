-- ===== src/Files/Seek.antt =====
-- lseek and tell of kernel/kernel.c.
use arm_kernel.Base.{
  ℕ, ◌<◌, ◌≡◌, true, false, arith, ◌==◌, if◌then◌else◌, some, ok, lt→ltb, eq_refl, inl, inr,
  Bool-cases,
}
use arm_kernel.Base.Words.{add32}
use arm_kernel.Proc.{fdt_limit}
use arm_kernel.Files.{
  Kernel, current_fd, set_head, seek_set, seek_cur, seek_end, seek_open, tell_open, lseek, tell,
}

-- Descriptor `fd` of the process that runs leads to entry `o`, and that to inode `i`.
pub record IsOpen (k : Kernel) (fd o i : ℕ) : Type 0 where
  pub inside : fd < fdt_limit
  pub entry : current_fd k fd ≡ some o
  pub inode : (k.oft o).inptr ≡ some i

-- The position that lseek sets.
abbrev pub target : (offset whence head size : ℕ) → ℕ
target offset whence head size =
    if whence == seek_set
    then offset
    else if whence == seek_cur
    then add32 head offset
    else add32 size offset

seek_some :
    (o i offset whence : ℕ) (k : Kernel)
    → (k.oft o).inptr ≡ some i
    → whence < 3
    → let h = target offset whence (k.oft o).head (k.ait i).ic.size in
      seek_open (some o) offset whence k ≡ ok (h, set_head o h k)
unfolding seek_open
seek_some o i offset whence k e lt = elim (Bool-cases (whence == seek_set)) [
  | inl set ↦ rw set
  | inr not_set ↦ elim (Bool-cases (whence == seek_cur)) [
    | inl cur ↦ rw (not_set, cur)
    | inr not_cur ↦
        let last : (whence == seek_end) ≡ true = ends whence lt not_set not_cur in
        rw (not_set, not_cur, last, e)
  ]
]
  where
    ends :
        (w : ℕ) → w < 3 → (w == seek_set) ≡ false → (w == seek_cur) ≡ false → (w == seek_end) ≡ true
    ends w lt a b = ground arith

-- On an open descriptor, with one of the three whences, lseek moves the head as whence says, changes
-- nothing else and returns the new head, and tell gives it from then on.
pub lseek-tell :
    (fd o i offset whence : ℕ) (k : Kernel)
    → IsOpen k fd o i
    → whence < 3
    → let h = target offset whence (k.oft o).head (k.ait i).ic.size in
      (lseek fd offset whence k ≡ ok (h, set_head o h k)) × (tell fd (set_head o h k) ≡ h)
unfolding lseek tell tell_open
lseek-tell fd o i offset whence k open_ lt = (
  rw (lt→ltb fd fdt_limit open_.inside, open_.entry) (seek_some o i offset whence k open_.inode lt),
  rw (lt→ltb fd fdt_limit open_.inside, open_.entry) (rw (eq_refl o, tell_open)),
)
