-- ===== src/Files/Fds.antt =====
-- What the file functions of kernel/kernel.c do to the process table: they change descriptors only.
use arm_kernel.Base.{
  ℕ, ◌≡◌, refl, ◌∙◌, ap, sym, subst, arith, Option, none, some, ◌==◌, List, [], ◌∷◌, Run, deref,
  inl, inr, Bool-cases, Option-cases,
}
use arm_kernel.Base.Words.{nonneg}
use arm_kernel.Base.Always.{Always, Always-ok, Always-if, Always-bind, Always-then, Always-map}
use arm_kernel.Proc.{Pcb, Procs}
use arm_kernel.Proc.Invariant.{Inv, Inv-pcb}
use arm_kernel.Fs.Disk.{Block, byte}
use arm_kernel.Files.{
  Kernel, current_fd, get_fd, get_oft, get_ait, find_active, find_unused, seek_set, seek_cur,
  seek_end, set_fd, link_tables, seek_open, read_open, write_open, close_open, open_entry,
  open_inode, open_at, load_inode, active_or_load, open_file, close_file, lseek, fread, fwrite,
  extend_file,
}
use arm_kernel.Fs.Dirs.{path_to_ino, path_to_ino2}
use arm_kernel.Files.Paths.{root_dir, o_creat, open_string}
use arm_kernel.Files.Format.{
  create_program, create_obj_files, wipe, programs, wipe_root, wipe_blocks, wipe_inodes,
}

-- The tables differ in descriptors at most.
pub record SameRuns (s s' : Procs) : Type 0 where
  pub pcb : ℕ → Pcb
  pub table : s' ≡ record s { pcb = pcb }
  pub pid : (p : ℕ) → (pcb p).pid ≡ (s.pcb p).pid
  pub pst : (p : ℕ) → (pcb p).pst ≡ (s.pcb p).pst

abbrev with_pcb : (ℕ → Pcb) → Procs → Procs
with_pcb f s = record s { pcb = f }

pub SameRuns-refl : (s : Procs) → SameRuns s s
SameRuns-refl s = record { pcb = s.pcb; table = refl; pid = λ p. refl; pst = λ p. refl }

pub SameRuns-trans : (s t u : Procs) → SameRuns s t → SameRuns t u → SameRuns s u
SameRuns-trans s t u a b = record {
  pcb = b.pcb;
  table = b.table ∙ ap (with_pcb b.pcb) a.table;
  pid = λ p. b.pid p ∙ ap (λ v. (v.pcb p).pid) a.table ∙ a.pid p;
  pst = λ p. b.pst p ∙ ap (λ v. (v.pcb p).pst) a.table ∙ a.pst p;
}

pub Inv-SameRuns : (s s' : Procs) (xs : List ℕ) → SameRuns s s' → Inv s xs → Inv s' xs
Inv-SameRuns s s' xs a i =
    subst (λ t. Inv t xs) (sym a.table)
      (Inv-pcb s a.pcb xs i a.pid (λ p m. rw (a.pst p) (i.alive p m)))

set_fd-SameRuns : (fd : ℕ) (o : Option ℕ) (k : Kernel) → SameRuns k.procs (set_fd fd o k).procs
set_fd-SameRuns fd o k = record {
  pcb = (set_fd fd o k).procs.pcb;
  table = refl;
  pid = λ p. ground arith;
  pst = λ p. ground arith;
}

-- Whatever the call returns.
abbrev pub KeepsRuns {ℓ} : {A : Type ℓ} → (A → Kernel) → Kernel → Run A → Type ℓ
KeepsRuns kernel k r = Always (λ a. SameRuns k.procs (kernel a).procs) r

seek_open-KeepsRuns :
    (o : Option ℕ) (offset whence : ℕ) (k : Kernel)
    → KeepsRuns (λ r. r.1) k (seek_open o offset whence k)
unfolding seek_open
seek_open-KeepsRuns none offset whence k = Always-ok (SameRuns-refl k.procs)
seek_open-KeepsRuns (some o) offset whence k =
    Always-if (whence == seek_set) (Always-ok (SameRuns-refl k.procs)) (
      Always-if (whence == seek_cur) (Always-ok (SameRuns-refl k.procs)) (
        Always-if (whence == seek_end)
          (Always-then (deref (k.oft o).inptr) (λ i. (Always-ok (SameRuns-refl k.procs))))
          (Always-ok (SameRuns-refl k.procs))))

pub lseek-KeepsRuns :
    (fd offset whence : ℕ) (k : Kernel) → KeepsRuns (λ r. r.1) k (lseek fd offset whence k)
unfolding lseek
lseek-KeepsRuns fd offset whence k =
    Always-if _ (seek_open-KeepsRuns (current_fd k fd) offset whence k)
      (Always-ok (SameRuns-refl k.procs))

read_open-KeepsRuns :
    (o : Option ℕ) (n : ℕ) (x : ℕ → ℕ) (k : Kernel) → KeepsRuns (λ r. r.2) k (read_open o x n k)
unfolding read_open
read_open-KeepsRuns none n x k = Always-ok (SameRuns-refl k.procs)
read_open-KeepsRuns (some o) n x k =
    let same = SameRuns-refl k.procs in
    Always-then (deref (k.oft o).inptr) (λ i. Always-if _ (Always-ok same) (Always-ok same))

pub fread-KeepsRuns : (fd n : ℕ) (x : ℕ → ℕ) (k : Kernel) → KeepsRuns (λ r. r.2) k (fread fd x n k)
unfolding fread
fread-KeepsRuns fd n x k =
    Always-if _ (read_open-KeepsRuns (current_fd k fd) n x k) (Always-ok (SameRuns-refl k.procs))

write_open-KeepsRuns :
    (o : Option ℕ) (n : ℕ) (x : ℕ → ℕ) (k : Kernel) → KeepsRuns (λ r. r.1) k (write_open o x n k)
unfolding write_open
write_open-KeepsRuns none n x k = Always-ok (SameRuns-refl k.procs)
write_open-KeepsRuns (some o) n x k = Always-then (deref (k.oft o).inptr) λ i.
    Always-then (extend_file (k.oft o).head n (k.ait i) k.store)
      λ r. Always-ok (SameRuns-refl k.procs)

pub fwrite-KeepsRuns :
    (fd n : ℕ) (x : ℕ → ℕ) (k : Kernel) → KeepsRuns (λ r. r.1) k (fwrite fd x n k)
unfolding fwrite
fwrite-KeepsRuns fd n x k =
    Always-if _ (write_open-KeepsRuns (current_fd k fd) n x k) (Always-ok (SameRuns-refl k.procs))

close_open-KeepsRuns :
    (fd : ℕ) (o : Option ℕ) (k : Kernel) → KeepsRuns (λ r. r.1) k (close_open fd o k)
unfolding close_open
close_open-KeepsRuns fd none k = Always-ok (SameRuns-refl k.procs)
close_open-KeepsRuns fd (some o) k =
    Always-then (deref (k.oft o).inptr) λ i. Always-ok (set_fd-SameRuns fd none k)

pub close_file-KeepsRuns : (fd : ℕ) (k : Kernel) → KeepsRuns (λ r. r.1) k (close_file fd k)
unfolding close_file
close_file-KeepsRuns fd k =
    Always-if _ (close_open-KeepsRuns fd (current_fd k fd) k) (Always-ok (SameRuns-refl k.procs))

abbrev kernel_or : Kernel → Option (ℕ × Kernel) → Procs
kernel_or k none = k.procs
kernel_or k (some (i, k')) = k'.procs

-- open changes descriptors only, where the lookup of the path keeps the table.
open_entry-SameRuns :
    (fd i : ℕ) (o : Option ℕ) (k : Kernel) → SameRuns k.procs (open_entry fd i o k).1.procs
unfolding open_entry link_tables
open_entry-SameRuns fd i none k = SameRuns-refl k.procs
open_entry-SameRuns fd i (some o) k = set_fd-SameRuns fd (some o) k

open_inode-SameRuns :
    (fd : ℕ) (g : Option (ℕ × Kernel)) (k : Kernel)
    → ((i : ℕ) (k' : Kernel) → g ≡ some (i, k') → k'.procs ≡ k.procs)
    → SameRuns k.procs (open_inode fd g k).1.procs
unfolding open_inode
open_inode-SameRuns fd none k h = SameRuns-refl k.procs
open_inode-SameRuns fd (some (i, k')) k h =
    subst (λ t. SameRuns t (open_entry fd i (get_oft k') k').1.procs) (h i k' refl)
      (open_entry-SameRuns fd i (get_oft k') k')

load_inode-procs :
    (o : Option ℕ) (ino i : ℕ) (k k' : Kernel)
    → load_inode o ino k ≡ some (i, k')
    → k'.procs ≡ k.procs
unfolding load_inode
load_inode-procs none ino i k k' e = absurd (ground arith)
load_inode-procs (some j) ino i k k' e = sym (ap (kernel_or k) e)

active_or_load-procs :
    (o : Option ℕ) (ino i : ℕ) (k k' : Kernel)
    → active_or_load o ino k ≡ some (i, k')
    → k'.procs ≡ k.procs
unfolding active_or_load
active_or_load-procs (some j) ino i k k' e = sym (ap (kernel_or k) e)
active_or_load-procs none ino i k k' e = load_inode-procs (find_unused k) ino i k k' e

open_at-SameRuns :
    (o : Option ℕ) (path : Kernel → ℕ × Kernel) (k : Kernel)
    → (path k).1.procs ≡ k.procs
    → SameRuns k.procs (open_at o path k).1.procs
unfolding open_at get_ait
open_at-SameRuns none path k e = SameRuns-refl k.procs
open_at-SameRuns (some fd) path k e =
    let ino = (path k).0 in
    let k' = (path k).1 in
    subst (λ t. SameRuns t (open_at (some fd) path k).1.procs) e
      (elim (Bool-cases (nonneg ino)) [
        | inl e1 ↦ rw e1 (
            open_inode-SameRuns fd (get_ait ino k') k'
              (λ i l. active_or_load-procs (find_active ino k') ino i k' l))
        | inr e1 ↦ rw e1 (SameRuns-refl k'.procs)
      ])

-- The path leaves the table alone.
pub open_file-SameRuns :
    (path : Kernel → ℕ × Kernel) (k : Kernel)
    → (path k).1.procs ≡ k.procs
    → SameRuns k.procs (open_file path k).1.procs
unfolding open_file
open_file-SameRuns path k e = open_at-SameRuns (get_fd k) path k e

pub open_string-KeepsRuns :
    (s : List ℕ) (oflag : ℕ) (k : Kernel) → KeepsRuns (λ r. r.1) k (open_string s oflag k)
unfolding open_string
open_string-KeepsRuns s oflag k = elim (Option-cases (get_fd k)) [
  | inl e ↦ rw (e, open_string) (Always-ok (SameRuns-refl k.procs))
  | inr (fd, e) ↦
      rw (e, open_string)
        (Always-if _
          (Always-then (path_to_ino2 s root_dir k.store)
            λ r. Always-ok (open_file-SameRuns (λ k. (r.0, record k { store = r.1 })) k refl))
          (Always-ok (open_file-SameRuns (λ k. (path_to_ino s root_dir k.store, k)) k refl)))
]

-- wipe, with the files that it creates.
create_program-KeepsRuns :
    (name : List ℕ) (entry : ℕ) (k : Kernel) → KeepsRuns (λ r. r) k (create_program name entry k)
unfolding create_program
create_program-KeepsRuns name entry k =
    Always-bind (open_string name o_creat k) (open_string-KeepsRuns name o_creat k) λ r a.
      Always-bind (fwrite r.0 (byte entry) 4 r.1) (fwrite-KeepsRuns r.0 4 (byte entry) r.1) λ t b.
        Always-bind (fwrite r.0 (byte 1) 4 t.1) (fwrite-KeepsRuns r.0 4 (byte 1) t.1) λ u c.
          Always-bind (close_file r.0 u.1) (close_file-KeepsRuns r.0 u.1) λ v d.
            Always-ok (SameRuns-trans _ _ _ a (SameRuns-trans _ _ _ b (SameRuns-trans _ _ _ c d)))

create_obj_files-KeepsRuns :
    (ps : List (List ℕ × ℕ)) (k : Kernel) → KeepsRuns (λ r. r) k (create_obj_files ps k)
unfolding create_obj_files
create_obj_files-KeepsRuns [] k = Always-ok (SameRuns-refl k.procs)
create_obj_files-KeepsRuns ((name, entry) ∷ ps) k =
    Always-bind (create_program name entry k) (create_program-KeepsRuns name entry k)
      λ k1 a. Always-map (λ k2 b. SameRuns-trans _ _ _ a b) (create_obj_files-KeepsRuns ps k1)

pub wipe-KeepsRuns :
    (entry : ℕ → ℕ) (dir : Block) (k : Kernel) → KeepsRuns (λ r. r) k (wipe entry dir k)
unfolding wipe
wipe-KeepsRuns entry dir k =
    Always-then (wipe_root dir (wipe_blocks k.store))
      λ s. create_obj_files-KeepsRuns (programs entry) (record k { store = wipe_inodes 63 1 s })
