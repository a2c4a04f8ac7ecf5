-- ===== src/Files/Unlink/Tests.antt =====
-- unlink of kernel/kernel.c at a concrete input: the working directory holds `.` and `ab`, a file of
-- 600 bytes.
use arm_kernel.Base.{
  ℕ, zero, suc, ◌+◌, ◌*◌, ◌/◌, ◌≡◌, ◌≢◌, ◌<◌, ◌∙◌, refl, List, [], ◌∷◌, has, arith, ◌==◌,
  if◌then◌else◌, none, true, false, not-has-cons, subst, sym,
}
use arm_kernel.Proc.{executing}
use arm_kernel.Proc.Lifecycle.{zero_ctx}
use arm_kernel.Fs.Disk.{Block, word, disk_rd, disk_wr, words_bytes, byte}
use arm_kernel.Fs.Alloc.{Store}
use arm_kernel.Fs.Alloc.FreeList.{FreeList}
use arm_kernel.Fs.Inode.{
  Icommon, Inode, ifdir, ifreg, ic_word, set_ic, ic_of, read_inode, write_inode,
}
use arm_kernel.Fs.Inode.Stored.{IsWords, SameIc, read_inode-write_inode}
use arm_kernel.Fs.Blockmap.{get_data_block_addr}
use arm_kernel.Fs.Dirs.{blank_inode, put_dirent, dirent_of}
use arm_kernel.Files.{Kernel}
use arm_kernel.Files.Unlink.{unlink}
use arm_kernel.Files.Unlink.Kept.{working, nth_ino}
use arm_kernel.Files.Unlink.Dropped.{IsDirectory}
use arm_kernel.Files.Unlink.Freed.{freed, blocks}
use arm_kernel.Fs.Blockmap.Allocate.{home}
use arm_kernel.Fs.Dirs.Lookup.{named}
use arm_kernel.Files.Unlink.Effect.{IsChild, Tidy, Unlinked, unlink-Unlinked}

abbrev blank : Block
blank _ = 0

abbrev ab : List ℕ
ab = 97 ∷ 98 ∷ []

abbrev root : Inode
root = record {
  number = 0;
  links = 0;
  ic = record { mode = ifdir; size = 64; db = λ i. 200 + i; ib = blank };
}

abbrev file : Inode
file = record {
  number = 5;
  links = 0;
  ic = record { mode = ifreg; size = 600; db = λ i. 300 + i; ib = blank };
}

abbrev entries : Store
entries = record {
  disk = λ a. if a == 200 then put_dirent (put_dirent blank 0 0 (46 ∷ [])) 1 5 ab else blank;
  fs = record {
    sblkno = 1;
    size = 2048;
    iblkno = 2;
    isize = 512;
    dblkno = 66;
    dsize = 1982;
    fdbhead = 0;
    fdb = λ _. 1;
    fil = blank;
    pad = blank;
  };
}

abbrev store : Store
store = write_inode file (write_inode root entries)

abbrev kernel : Kernel
kernel = record {
  procs = record {
    pcb = λ p. record {
      pid = p;
      prt = 0;
      ctx = zero_ctx;
      pst = executing;
      defp = 1;
      prio = 1;
      fd = λ _. none;
    };
    current = 0;
    rq = λ _. none;
    rq_size = 0;
  };
  store = store;
  oft = λ o. record { inptr = none; head = 0 };
  ait = λ _. blank_inode;
}

root-IsWords : IsWords root.ic
root-IsWords = record {
  mode = omega arith;
  size = omega arith;
  db = λ k lt. omega arith;
  ib = λ k lt. omega arith;
}

file-IsWords : IsWords file.ic
file-IsWords = record {
  mode = omega arith;
  size = omega arith;
  db = λ k lt. omega arith;
  ib = λ k lt. omega arith;
}

file_stored : SameIc (read_inode blank_inode 5 store).ic file.ic
file_stored = read_inode-write_inode file blank_inode 5 (write_inode root entries) file-IsWords

root_stored : SameIc (read_inode blank_inode 0 store).ic root.ic
root_stored =
    let later = read_inode-write_inode file blank_inode 0 (write_inode root entries) file-IsWords in
    let first = read_inode-write_inode root blank_inode 0 entries root-IsWords in
    record {
      mode = later.mode ∙ first.mode;
      size = later.size ∙ first.size;
      db = λ k lt. later.db k lt ∙ first.db k lt;
      ib = λ k lt. later.ib k lt ∙ first.ib k lt;
    }

store-FreeList : FreeList store []
unfolding write_inode
store-FreeList = record {
  chain = refl;
  head = omega arith;
  super = refl;
  apart = refl;
  distinct = tt;
  small = λ x m. absurd (ground arith);
}

dot_ino : nth_ino 0 0 kernel ≡ 0
unfolding write_inode read_inode dirent_of put_dirent disk_rd disk_wr get_data_block_addr ic_of
    set_ic ic_word word words_bytes byte
dot_ino = refl

ab_ino : nth_ino 1 0 kernel ≡ 5
unfolding write_inode read_inode dirent_of put_dirent disk_rd disk_wr get_data_block_addr ic_of
    set_ic ic_word word words_bytes byte
ab_ino = refl

SameIc-IsWords : (a b : Icommon) → SameIc a b → IsWords b → IsWords a
SameIc-IsWords a b same w = record {
  mode = rw same.mode w.mode;
  size = rw same.size w.size;
  db = λ k lt. rw (same.db k lt) (w.db k lt);
  ib = λ k lt. rw (same.ib k lt) (w.ib k lt);
}

-- The directory has one block, and the file two.
root_block : (i : ℕ) → 16 * i < 2 → (working 0 kernel).ic.db i ≡ 200
root_block i lt = root_stored.db i (omega arith) ∙ omega arith

home_two : home (working 0 kernel) store ≡ 2
unfolding read_inode write_inode
home_two = refl

table_two : store.fs.iblkno ≡ 2
unfolding write_inode
table_two = refl

root-IsDirectory : IsDirectory (working 0 kernel) 2 store []
root-IsDirectory = record {
  words = SameIc-IsWords (working 0 kernel).ic root.ic root_stored root-IsWords;
  size = root_stored.size;
  direct = omega arith;
  distinct = λ i j li lj ne. absurd (ne (omega arith));
  apart = λ i lt e. omega (arith, e, root_block i lt, home_two);
  taken = λ i lt. refl;
  home_taken = refl;
}

abbrev read_file : Icommon
read_file = (read_inode blank_inode 5 store).ic

file_blocks : blocks read_file ≡ 2
file_blocks = let z = file_stored.size in omega (arith, z)

file_block : (i : ℕ) → i < blocks read_file → read_file.db i ≡ 300 + i
file_block i lt = file_stored.db i (omega (arith, lt, file_blocks))

file-taken : (i : ℕ) → i < blocks read_file → has (read_file.db i) (freed read_file i []) ≡ false
file-taken zero lt = refl
file-taken (suc zero) lt =
    let first = file_block 0 (omega (arith, file_blocks)) in
    let second = file_block 1 lt in
    not-has-cons (read_file.db 1) (read_file.db 0) [] (λ e. omega (arith, first, second, e)) refl
file-taken (suc (suc i)) lt = absurd (omega (arith, lt, file_blocks))

file-apart : has (store.fs.iblkno + 5 / 8) (freed read_file (blocks read_file) []) ≡ false
file-apart =
    let first = file_block 0 (omega (arith, file_blocks)) in
    let second = file_block 1 (omega (arith, file_blocks)) in
    let place : store.fs.iblkno + 5 / 8 ≡ 2 = omega (arith, table_two) in
    rw (file_blocks, place)
      (not-has-cons 2 (read_file.db 1) (read_file.db 0 ∷ []) (λ e. omega (arith, second, e))
        (not-has-cons 2 (read_file.db 0) [] (λ e. omega (arith, first, e)) refl))

file-IsChild : IsChild (working 0 kernel) 2 5 store []
file-IsChild = record {
  file = record {
    words = SameIc-IsWords read_file file.ic file_stored file-IsWords;
    direct = omega (arith, file_blocks);
    taken = file-taken;
    not_super = λ i lt e. omega (arith, file_block i lt, e);
    small = λ i lt. omega (arith, file_block i lt, lt, file_blocks);
    apart = file-apart;
  };
  other_blocks = λ i j li lj e. omega (arith, file_block j lj, root_block i li, e);
  other_home = λ j lt e. omega (arith, file_block j lt, home_two, e);
  table = λ i lt e. omega (arith, root_block i lt, table_two, e);
}

kernel-Tidy : Tidy ab 0 2 kernel []
kernel-Tidy = record {
  free = store-FreeList;
  dir = root-IsDirectory;
  super = λ i lt e. omega (arith, root_block i lt, e);
  home_super = λ e. omega (arith, home_two, e);
  children = children;
}
  where
    children :
        (n : ℕ)
        → n < 2
        → named ab (working 0 kernel) store n ≡ true
        → nth_ino n 0 kernel ≢ 0
        → IsChild (working 0 kernel) 2 (nth_ino n 0 kernel) store []
    children zero lt hit ne = absurd (ne dot_ino)
    children (suc zero) lt hit ne =
        subst (λ ino. IsChild (working 0 kernel) 2 ino store []) (sym ab_ino) file-IsChild
    children (suc (suc n)) lt hit ne = absurd (omega arith)

unlink-Unlinked_example : Unlinked ab 0 2 kernel [] (unlink ab 0 kernel)
unlink-Unlinked_example = unlink-Unlinked ab 0 2 kernel [] kernel-Tidy
