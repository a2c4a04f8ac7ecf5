-- ===== src/Files/Unlink/Freed.antt =====
-- The end of unlink in kernel/kernel.c: the blocks of the file go to the list of free blocks, and its
-- inode is no longer in use.
use arm_kernel.Base.{
  not-has-cons, ne→==, memcpy, ◌%◌, ℕ, zero, suc, ◌+◌, ◌/◌, ◌≤◌, ◌<◌, ◌≡◌, ◌≢◌, ◌∙◌, ap, sym, refl,
  subst, List, [], ◌∷◌, has, ltb, inl, inr, Bool-cases, arith, lt→ltb, eq_refl, false, ◌==◌,
}
use arm_kernel.Base.Words.{neg1}
use arm_kernel.Fs.Disk.{block_size, Block, disk_rd, disk_wr-other}
use arm_kernel.Fs.Alloc.{Store, bfree, update_sb}
use arm_kernel.Fs.Alloc.FreeList.{FreeList}
use arm_kernel.Fs.Alloc.Freed.{bfree-FreeList}
use arm_kernel.Fs.Inode.{Inode, Icommon, ndaddr, ifzero, ic_of, read_inode, write_inode}
use arm_kernel.Fs.Inode.Stored.{IsWords, SameIc, read_inode-write_inode}
use arm_kernel.Fs.Blockmap.{free_blk, free_from, free_data_blocks}
use arm_kernel.Fs.Blockmap.Allocate.{write_inode-FreeList}
use arm_kernel.Fs.Dirs.{blank_inode}
use arm_kernel.Files.Unlink.{free_file}

-- The free blocks behind the release of the first `c` blocks of a file.
abbrev pub freed : Icommon → ℕ → List ℕ → List ℕ
freed ic zero xs = xs
freed ic (suc c) xs = ic.db c ∷ freed ic c xs

-- The number of blocks of a file.
abbrev pub blocks : Icommon → ℕ
blocks ic = (ic.size + 511) / 512

-- A file in direct blocks that are not free, each another one, none of them the superblock; its inode
-- does not lie in one of these or of the free blocks.
pub record IsFile (ino : ℕ) (ic : Icommon) (s : Store) (xs : List ℕ) : Type 0 where
  pub words : IsWords ic
  pub direct : blocks ic ≤ ndaddr
  pub taken : (i : ℕ) → i < blocks ic → has (ic.db i) (freed ic i xs) ≡ false
  pub not_super : (i : ℕ) → i < blocks ic → ic.db i ≢ 1
  pub small : (i : ℕ) → i < blocks ic → ic.db i < neg1
  pub apart : has (s.fs.iblkno + ino / 8) (freed ic (blocks ic) xs) ≡ false

bfree-iblkno : (a : ℕ) (s : Store) → (bfree a s).1.fs.iblkno ≡ s.fs.iblkno
unfolding bfree update_sb
bfree-iblkno a s = elim (Bool-cases (ltb s.fs.fdbhead 63)) [ inl e ↦ rw e refl | inr e ↦ rw e refl ]

free_blk_direct :
    (inode : Inode) (blk : ℕ) (s : Store)
    → blk < ndaddr
    → free_blk inode blk s ≡ (bfree (inode.ic.db blk) s).1
unfolding free_blk
free_blk_direct inode blk s lt = rw (lt→ltb blk ndaddr lt) refl

free_from-FreeList :
    (rounds blk top : ℕ) (inode : Inode) (s : Store) (xs : List ℕ)
    → blk + rounds ≡ top
    → top ≤ ndaddr
    → FreeList s (freed inode.ic blk xs)
    → ((i : ℕ) → i < top → has (inode.ic.db i) (freed inode.ic i xs) ≡ false)
    → ((i : ℕ) → i < top → inode.ic.db i ≢ 1)
    → ((i : ℕ) → i < top → inode.ic.db i < neg1)
    → FreeList (free_from rounds blk inode s) (freed inode.ic top xs)
      × ((free_from rounds blk inode s).fs.iblkno ≡ s.fs.iblkno)
      × ((b : ℕ)
          → b ≢ 1
          → ((i : ℕ) → i < top → inode.ic.db i ≢ b)
          → (free_from rounds blk inode s).disk b ≡ s.disk b)
unfolding free_from
free_from-FreeList zero blk top inode s xs e le f taken super small =
    let same : blk ≡ top = omega (arith, e) in
    (subst (λ m. FreeList s (freed inode.ic m xs)) same f, refl, λ b ne out. refl)
free_from-FreeList (suc rounds) blk top inode s xs e le f taken super small =
    let n : blk + 1 ≡ suc blk = omega arith in
    let a = inode.ic.db blk in
    let (g, same, result) =
      bfree-FreeList s a (freed inode.ic blk xs) f (super blk (omega arith))
        (taken blk (omega arith)) (small blk (omega arith)) in
    let (h, kept, rest) =
      free_from-FreeList rounds (suc blk) top inode (bfree a s).1 xs (omega (arith, e)) le g taken
        super small in
    let step : free_from (suc rounds) blk inode s ≡ free_from rounds (suc blk) inode (bfree a s).1 =
      ap (λ t. free_from rounds (blk + 1) inode t) (free_blk_direct inode blk s (omega (arith, le)))
      ∙ ap (λ m. free_from rounds m inode (bfree a s).1) n in
    (
      subst (λ t. FreeList t (freed inode.ic top xs)) (sym step) h,
      ap (λ (t : Store). t.fs.iblkno) step ∙ kept ∙ bfree-iblkno a s,
      λ b ne out.
          ap (λ (t : Store). t.disk b) step
          ∙ rest b ne out
          ∙ same b (
              not-has-cons b 1 (a ∷ []) (λ e. ne (sym e))
                (not-has-cons b a [] (out blk (omega (arith, e))) refl)),
    )

-- What becomes of a file: its blocks are in front of the free ones, the last first, and its inode is
-- not in use, with size 0.
pub record Freed (ino : ℕ) (ic : Icommon) (xs : List ℕ) (s' : Store) : Type 0 where
  pub free : FreeList s' (freed ic (blocks ic) xs)
  pub mode : (read_inode blank_inode ino s').ic.mode ≡ ifzero
  pub size : (read_inode blank_inode ino s').ic.size ≡ 0

pub free_file-Freed :
    (ino : ℕ) (s : Store) (xs : List ℕ)
    → FreeList s xs
    → IsFile ino (read_inode blank_inode ino s).ic s xs
    → Freed ino (read_inode blank_inode ino s).ic xs (free_file ino s)
unfolding free_file free_data_blocks read_inode
free_file-Freed ino s xs f file =
    let inode = read_inode blank_inode ino s in
    let (g, kept, others) =
      free_from-FreeList (blocks inode.ic) 0 (blocks inode.ic) inode s xs (omega arith) file.direct
        f file.taken file.not_super file.small in
    let gone : Inode = record inode { ic = record (inode.ic) { mode = ifzero; size = 0 } } in
    let words : IsWords gone.ic = record {
      mode = omega arith;
      size = omega arith;
      db = file.words.db;
      ib = file.words.ib;
    } in
    let t = free_data_blocks inode s in
    let read : SameIc (read_inode blank_inode ino (write_inode gone t)).ic gone.ic =
      stored gone t words in
    record {
      free =
          write_inode-FreeList gone t (freed inode.ic (blocks inode.ic) xs) (rw kept file.apart) g;
      mode = read.mode;
      size = read.size;
    }
  where
    stored :
        (inode : Inode) (t : Store)
        → IsWords inode.ic
        → SameIc (read_inode blank_inode inode.number (write_inode inode t)).ic inode.ic
    stored inode t w =
        let r = read_inode-write_inode inode blank_inode inode.number t w in
        rw (eq_refl inode.number) at r

-- An inode is read from its block.
read_inode-agree :
    (ino : ℕ) (s t : Store)
    → t.fs.iblkno ≡ s.fs.iblkno
    → t.disk (s.fs.iblkno + ino / 8) ≡ s.disk (s.fs.iblkno + ino / 8)
    → read_inode blank_inode ino t ≡ read_inode blank_inode ino s
unfolding read_inode disk_rd
read_inode-agree ino s t fs e = ap of_block (ap (λ n. t.disk (n + ino / 8)) fs ∙ e)
  where
    of_block : Block → Inode
    of_block b = record {
      number = ino;
      links = 0;
      ic = ic_of (memcpy (λ _. 0) b block_size) (ino % 8);
    }

-- Behind it, the blocks that are neither the superblock, nor the file's, nor that of its inode are as
-- they were, and so is every other inode in such a block.
module _ (ino : ℕ) (s : Store) (xs : List ℕ) (f : FreeList s xs) where
  module _ (file : IsFile ino (read_inode blank_inode ino s).ic s xs) where
    abbrev Away : ℕ → Type 0
    Away b =
        (b ≢ 1)
        × ((i : ℕ)
            → i < blocks (read_inode blank_inode ino s).ic
            → (read_inode blank_inode ino s).ic.db i ≢ b)

    pub free_data_blocks-other :
        (b : ℕ) → Away b → (free_data_blocks (read_inode blank_inode ino s) s).disk b ≡ s.disk b
    unfolding free_data_blocks
    free_data_blocks-other b away =
        (free_from-FreeList (blocks (read_inode blank_inode ino s).ic) 0
            (blocks (read_inode blank_inode ino s).ic) (read_inode blank_inode ino s) s xs
            (omega arith) file.direct f file.taken file.not_super file.small).2
          b away.0 away.1

    pub free_data_blocks-iblkno :
        (free_data_blocks (read_inode blank_inode ino s) s).fs.iblkno ≡ s.fs.iblkno
    unfolding free_data_blocks
    free_data_blocks-iblkno =
        (free_from-FreeList (blocks (read_inode blank_inode ino s).ic) 0
          (blocks (read_inode blank_inode ino s).ic) (read_inode blank_inode ino s) s xs
          (omega arith) file.direct f file.taken file.not_super file.small).1

    pub free_file-other :
        (b : ℕ) → Away b → b ≢ s.fs.iblkno + ino / 8 → (free_file ino s).disk b ≡ s.disk b
    unfolding free_file write_inode read_inode
    free_file-other b away ne =
        disk_wr-other _ b block_size _ _
          (λ e. ne (e ∙ ap (λ a. a + ino / 8) free_data_blocks-iblkno))
        ∙ free_data_blocks-other b away

    pub free_file-inode :
        (other : ℕ)
        → other ≢ ino
        → Away (s.fs.iblkno + other / 8)
        → SameIc
            (read_inode blank_inode other (free_file ino s)).ic
            (read_inode blank_inode other s).ic
    unfolding free_file
    free_file-inode other ne away =
        let inode = read_inode blank_inode ino s in
        let gone : Inode = record inode { ic = record (inode.ic) { mode = ifzero; size = 0 } } in
        let t = free_data_blocks inode s in
        let kept = free_data_blocks-iblkno in
        let r = read_inode-write_inode gone blank_inode other t (record {
          mode = omega arith;
          size = omega arith;
          db = file.words.db;
          ib = file.words.ib;
        }) in
        let away_one : (other == gone.number) ≡ false = unfold read_inode in ne→== other ino ne in
        let same = read_inode-agree other s t kept (free_data_blocks-other _ away) in
        subst (λ (i : Inode). SameIc (read_inode blank_inode other (write_inode gone t)).ic i.ic)
          same (rw away_one at r)
