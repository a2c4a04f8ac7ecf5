-- ===== src/Files/Unlink/Effect.antt =====
-- What unlink of kernel/kernel.c leaves on the disk: the directory without the entry, and the blocks
-- and the inode of the file free.
use arm_kernel.Base.{
  ℕ, zero, suc, ◌+◌, ◌*◌, ◌/◌, ◌%◌, ◌≤◌, ◌<◌, ◌≡◌, ◌≢◌, ◌∙◌, ap, sym, refl, subst, List, ◌∷◌, true,
  arith,
}
use arm_kernel.Base.Words.{neg1}
use arm_kernel.Fs.Alloc.{Store}
use arm_kernel.Fs.Alloc.FreeList.{FreeList}
use arm_kernel.Fs.Inode.{Inode, Icommon, ndaddr, read_inode}
use arm_kernel.Fs.Inode.Stored.{SameIc}
use arm_kernel.Fs.Blockmap.Allocate.{home}
use arm_kernel.Fs.Dirs.{blank_inode, cstr, dirs}
use arm_kernel.Fs.Dirs.Lookup.{named}
use arm_kernel.Fs.Dirs.Insert.{read_block-same}
use arm_kernel.Files.{Kernel}
use arm_kernel.Files.Unlink.{drop_entry, free_file, unlink}
use arm_kernel.Files.Unlink.Kept.{Unused, Unlinks, failed, done, working, nth_ino, unlink-Unlinks}
use arm_kernel.Files.Unlink.Dropped.{
  IsDirectory, Dropped, shorter, dir_block-read, drop_entry-Dropped, drop_entry-FreeList,
  drop_entry-SameIc, drop_entry-iblkno,
}
use arm_kernel.Files.Unlink.Freed.{
  freed, blocks, IsFile, Freed, free_file-Freed, free_file-other, free_file-inode,
}

freed-same :
    (a b : Icommon) (c : ℕ) (xs : List ℕ) → SameIc a b → c ≤ ndaddr → freed a c xs ≡ freed b c xs
freed-same a b zero xs same le = refl
freed-same a b (suc c) xs same le =
    ap (λ x. x ∷ freed a c xs) (same.db c (omega (arith, le)))
    ∙ ap (λ t. b.db c ∷ t) (freed-same a b c xs same (omega (arith, le)))

-- A file that reads the same in another store.
IsFile-same :
    (ino : ℕ) (a b : Icommon) (s t : Store) (xs : List ℕ)
    → SameIc a b
    → t.fs.iblkno ≡ s.fs.iblkno
    → IsFile ino b s xs
    → IsFile ino a t xs
IsFile-same ino a b s t xs same fs file =
    let count : blocks a ≡ blocks b = ap (λ n. (n + 511) / 512) same.size in
    let short : (i : ℕ) → i < blocks a → i < ndaddr =
      λ i lt. let d = file.direct in omega (arith, lt, count, d) in
    let inside : (i : ℕ) → i < blocks a → i < blocks b = λ i lt. omega (arith, lt, count) in
    record {
      words = record {
        mode = rw same.mode file.words.mode;
        size = rw same.size file.words.size;
        db = λ i lt. rw (same.db i lt) (file.words.db i lt);
        ib = λ i lt. rw (same.ib i lt) (file.words.ib i lt);
      };
      direct = rw count file.direct;
      taken = λ i lt.
          let le = short i lt in
          rw (same.db i le, freed-same a b i xs same (omega (arith, le)))
            (file.taken i (inside i lt));
      not_super = λ i lt. rw (same.db i (short i lt)) (file.not_super i (inside i lt));
      small = λ i lt. rw (same.db i (short i lt)) (file.small i (inside i lt));
      apart = rw (fs, count, freed-same a b (blocks b) xs same file.direct) file.apart;
    }

-- A file of the directory: its blocks and its inode are apart from those of the directory.
pub record IsChild (par : Inode) (m ino : ℕ) (s : Store) (xs : List ℕ) : Type 0 where
  pub file : IsFile ino (read_inode blank_inode ino s).ic s xs
  pub other_blocks :
      (i j : ℕ)
      → 16 * i < m
      → j < blocks (read_inode blank_inode ino s).ic
      → (read_inode blank_inode ino s).ic.db j ≢ par.ic.db i
  pub other_home :
      (j : ℕ)
      → j < blocks (read_inode blank_inode ino s).ic
      → (read_inode blank_inode ino s).ic.db j ≢ home par s
  pub table : (i : ℕ) → 16 * i < m → par.ic.db i ≢ s.fs.iblkno + ino / 8

module _ (par : Inode) (n m ino : ℕ) (s : Store) (xs : List ℕ) where
  module _ (dir : IsDirectory par m s xs) (inside : n < m) (child : IsChild par m ino s xs)
      (ne : ino ≢ par.number) (f : FreeList s xs) (super : (i : ℕ) → 16 * i < m → par.ic.db i ≢ 1)
      (home_super : home par s ≢ 1) where
    abbrev s1 : Store
    s1 = drop_entry (n / 16) (n % 16) par s

    abbrev before : Icommon
    before = (read_inode blank_inode ino s).ic

    same_file : SameIc (read_inode blank_inode ino s1).ic before
    same_file =
        drop_entry-SameIc par n m s xs dir inside ino (child.table (n / 16) (omega (arith, inside)))
          ne

    fs_same : s1.fs.iblkno ≡ s.fs.iblkno
    fs_same = drop_entry-iblkno par n m s xs dir inside

    file1 : IsFile ino (read_inode blank_inode ino s1).ic s1 xs
    file1 =
        IsFile-same ino (read_inode blank_inode ino s1).ic before s s1 xs same_file fs_same
          child.file

    f1 : FreeList s1 xs
    f1 = drop_entry-FreeList par n m s xs dir inside f

    -- A block that is none of the file's before is none of them now.
    away :
        (b : ℕ)
        → ((j : ℕ) → j < blocks before → before.db j ≢ b)
        → (j : ℕ) → j < blocks (read_inode blank_inode ino s1).ic
        → (read_inode blank_inode ino s1).ic.db j ≢ b
    away b out j lt =
        let count : blocks (read_inode blank_inode ino s1).ic ≡ blocks before =
          ap (λ x. (x + 511) / 512) same_file.size in
        let d = file1.direct in
        rw (same_file.db j (omega (arith, lt, d))) (out j (omega (arith, lt, count)))

    pub effect-Freed : Freed ino before xs (free_file ino s1)
    effect-Freed =
        let r = free_file-Freed ino s1 xs f1 file1 in
        let count : blocks (read_inode blank_inode ino s1).ic ≡ blocks before =
          ap (λ x. (x + 511) / 512) same_file.size in
        record {
          free =
              subst (λ ys. FreeList (free_file ino s1) ys)
                (ap (λ c. freed (read_inode blank_inode ino s1).ic c xs) count
                  ∙ freed-same (read_inode blank_inode ino s1).ic before (blocks before) xs
                      same_file child.file.direct)
                r.free;
          mode = r.mode;
          size = r.size;
        }

    kept_block :
        (i : ℕ) → 16 * i < m → (free_file ino s1).disk (par.ic.db i) ≡ s1.disk (par.ic.db i)
    kept_block i lt =
        free_file-other ino s1 xs f1 file1 (par.ic.db i)
          (super i lt, away (par.ic.db i) (λ j lt1. child.other_blocks i j lt lt1))
          (λ e. child.table i lt (e ∙ ap (λ a. a + ino / 8) fs_same))

    pub effect-Dropped : Dropped par n m s (free_file ino s1)
    effect-Dropped =
        let d = drop_entry-Dropped par n m s xs dir inside in
        let home_same : s1.fs.iblkno + par.number / 8 ≡ home par s =
          ap (λ a. a + par.number / 8) fs_same in
        let root =
          free_file-inode ino s1 xs f1 file1 par.number (λ e. ne (sym e))
            (rw home_same (home_super, away (home par s) child.other_home)) in
        record {
          size = root.size ∙ d.size;
          entries = λ k b lt small.
              let in_dir : 16 * (k / 16) < m = omega (arith, lt) in
              ap (λ x. x (32 * (k % 16) + b))
                (dir_block-read par n m s xs dir inside (shorter par) (free_file ino s1) (k / 16)
                    refl in_dir
                  ∙ read_block-same (free_file ino s1) s1 (par.ic.db (k / 16))
                      (kept_block (k / 16) in_dir)
                  ∙ sym (
                      dir_block-read par n m s xs dir inside (shorter par) s1 (k / 16) refl in_dir))
              ∙ d.entries k b lt small;
        }

-- A working directory of `m` entries and the free blocks `xs`, in order: the blocks of the directory,
-- of the superblock, and of every file of the name are apart.
pub record Tidy (name : List ℕ) (cwd m : ℕ) (k : Kernel) (xs : List ℕ) : Type 0 where
  pub free : FreeList k.store xs
  pub dir : IsDirectory (working cwd k) m k.store xs
  pub super : (i : ℕ) → 16 * i < m → (working cwd k).ic.db i ≢ 1
  pub home_super : home (working cwd k) k.store ≢ 1
  pub children :
      (n : ℕ)
      → n < m
      → named name (working cwd k) k.store n ≡ true
      → nth_ino n cwd k ≢ cwd
      → IsChild (working cwd k) m (nth_ino n cwd k) k.store xs

pub data Unlinked (name : List ℕ) (cwd m : ℕ) (k : Kernel) (xs : List ℕ) (r : ℕ × Kernel)
    : Type 0 where
  unchanged : r ≡ (neg1, k) → Unlinked name cwd m k xs r
  unlinked :
      (n : ℕ) (s' : Store)
      → cstr name 0 ≢ 46
      → n < m
      → named name (working cwd k) k.store n ≡ true
      → Unused cwd (nth_ino n cwd k) k
      → r ≡ (0, record k { store = s' })
      → Dropped (working cwd k) n m k.store s'
      → Freed (nth_ino n cwd k) (read_inode blank_inode (nth_ino n cwd k) k.store).ic xs s'
      → Unlinked name cwd m k xs r

-- In a working directory in direct blocks, with files of the name in direct blocks, all of them apart
-- and none of them free: unlink returns -1 and changes nothing, or it returns 0 and takes away one
-- entry of that name, which does not begin with a dot. The last entry then stands in its place, every
-- other where it was, and the size of the directory on the disk is less by one entry. The blocks of the
-- file are in front of the free ones, and its inode has mode IFZERO and size 0 on the disk. It was not
-- the working directory, not in use in memory, and not a directory with entries of its own.
pub unlink-Unlinked :
    (name : List ℕ) (cwd m : ℕ) (k : Kernel) (xs : List ℕ)
    → Tidy name cwd m k xs
    → Unlinked name cwd m k xs (unlink name cwd k)
unlink-Unlinked name cwd m k xs tidy = of_unlinks (unlink-Unlinks name cwd k)
  where
    count : dirs (working cwd k) ≡ m
    count = let z = tidy.dir.size in let d = tidy.dir.direct in ground (arith, z, d)

    number : (working cwd k).number ≡ cwd
    number = unfold read_inode in refl

    of_unlinks : {r : ℕ × Kernel} → Unlinks name cwd k r → Unlinked name cwd m k xs r
    of_unlinks (failed e) = unchanged e
    of_unlinks (done n dot lt hit free e) =
        let inside : n < m = omega (arith, lt, count) in
        let child = tidy.children n inside hit free.not_cwd in
        let ne : nth_ino n cwd k ≢ (working cwd k).number = λ q. free.not_cwd (q ∙ number) in
        unlinked n _ dot inside hit free e
          (effect-Dropped (working cwd k) n m (nth_ino n cwd k) k.store xs tidy.dir inside child ne
            tidy.free tidy.super tidy.home_super)
          (effect-Freed (working cwd k) n m (nth_ino n cwd k) k.store xs tidy.dir inside child ne
            tidy.free tidy.super tidy.home_super)
