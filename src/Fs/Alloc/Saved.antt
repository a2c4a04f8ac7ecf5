-- ===== src/Fs/Alloc/Saved.antt =====
-- The superblock on disk and in memory: what kernel_handler_rst of kernel/kernel.c reads at reset.
use arm_kernel.Base.{
  ℕ, ◌+◌, ◌-◌, ◌*◌, ◌^◌, ◌≤◌, ◌<◌, ◌≡◌, ◌∙◌, ap, refl, inl, inr, Bool-cases, arith, ltb, lt→ltb,
  ltb→lt, ltb→le,
}
use arm_kernel.Fs.Disk.{
  block_size, Disk, disk_wr, disk_rd, word, words_bytes, word-words_bytes, word-agree, disk_wr_self,
}
use arm_kernel.Fs.Alloc.{Superblock, Store, fs_word, fs_bytes, fs_of_bytes, update_sb, bfree}
use arm_kernel.Fs.Alloc.Freed.{added, spilled, bfree_back, bfree_front}

-- disk_rd( 1, (uint8_t*)(&fs), sizeof( fs_t ) ) at reset.
unfoldable pub boot : Disk → Superblock
unfolding fs_of_bytes disk_rd
boot d = fs_of_bytes (disk_rd 1 (λ _. 0) block_size d)

-- Every number of an fs_t fits a word.
pub record IsWords (fs : Superblock) : Type 0 where
  pub sblkno : fs.sblkno < 2 ^ 32
  pub size : fs.size < 2 ^ 32
  pub iblkno : fs.iblkno < 2 ^ 32
  pub isize : fs.isize < 2 ^ 32
  pub dblkno : fs.dblkno < 2 ^ 32
  pub dsize : fs.dsize < 2 ^ 32
  pub fdbhead : fs.fdbhead < 2 ^ 32
  pub fdb : (i : ℕ) → i < 64 → fs.fdb i < 2 ^ 32
  pub fil : (i : ℕ) → i < 32 → fs.fil i < 2 ^ 32

-- Two fs_t that agree in every field and every place of their arrays, the padding aside.
pub record SameSuper (a b : Superblock) : Type 0 where
  pub sblkno : a.sblkno ≡ b.sblkno
  pub size : a.size ≡ b.size
  pub iblkno : a.iblkno ≡ b.iblkno
  pub isize : a.isize ≡ b.isize
  pub dblkno : a.dblkno ≡ b.dblkno
  pub dsize : a.dsize ≡ b.dsize
  pub fdbhead : a.fdbhead ≡ b.fdbhead
  pub fdb : (i : ℕ) → i < 64 → a.fdb i ≡ b.fdb i
  pub fil : (i : ℕ) → i < 32 → a.fil i ≡ b.fil i

fs_word_small : (fs : Superblock) (i : ℕ) → IsWords fs → i < 103 → fs_word fs i < 2 ^ 32
unfolding fs_word
fs_word_small fs i w lt = ground (arith, w.fdb (i - 7), w.fil (i - 71))

word-fs_bytes :
    (fs : Superblock) (i : ℕ) → IsWords fs → i < 103 → word (fs_bytes fs) i ≡ fs_word fs i
word-fs_bytes fs i w lt =
    word-agree (fs_bytes fs) (words_bytes (fs_word fs)) i (λ k lt'. inside k lt')
    ∙ word-words_bytes (fs_word fs) i (fs_word_small fs i w lt)
  where
    inside : (k : ℕ) → k < 4 → fs_bytes fs (4 * i + k) ≡ words_bytes (fs_word fs) (4 * i + k)
    inside k lt' = unfold fs_bytes in rw (lt→ltb (4 * i + k) 412 (omega arith))

-- What a reset reads is what update_sb wrote.
boot-word :
    (s : Store) (i : ℕ)
    → s.fs.sblkno ≡ 1
    → IsWords s.fs
    → i < 103
    → word (disk_rd 1 (λ _. 0) block_size (update_sb s).disk) i ≡ fs_word s.fs i
boot-word s i super w lt =
    word-agree _ (fs_bytes s.fs) i (λ k lt'. inside k lt') ∙ word-fs_bytes s.fs i w lt
  where
    inside :
        (k : ℕ)
        → k < 4
        → disk_rd 1 (λ _. 0) block_size (update_sb s).disk (4 * i + k) ≡ fs_bytes s.fs (4 * i + k)
    inside k lt' =
        unfold disk_rd update_sb in
        rw (lt→ltb (4 * i + k) 512 (omega arith)) (
          ap (λ a. disk_wr a (fs_bytes s.fs) 512 s.disk 1 (4 * i + k)) super
          ∙ disk_wr_self 1 (4 * i + k) 512 (fs_bytes s.fs) s.disk (omega arith))

-- After update_sb a reset reads the superblock that memory holds, in every field but the padding.
boot-update_sb :
    (s : Store) → s.fs.sblkno ≡ 1 → IsWords s.fs → SameSuper (boot (update_sb s).disk) s.fs
unfolding boot fs_of_bytes
boot-update_sb s super w = record {
  sblkno = boot-word s 0 super w (omega arith) ∙ unfold fs_word in refl;
  size = boot-word s 1 super w (omega arith) ∙ unfold fs_word in refl;
  iblkno = boot-word s 2 super w (omega arith) ∙ unfold fs_word in refl;
  isize = boot-word s 3 super w (omega arith) ∙ unfold fs_word in refl;
  dblkno = boot-word s 4 super w (omega arith) ∙ unfold fs_word in refl;
  dsize = boot-word s 5 super w (omega arith) ∙ unfold fs_word in refl;
  fdbhead = boot-word s 6 super w (omega arith) ∙ unfold fs_word in refl;
  fdb = λ i lt. boot-word s (i + 7) super w (omega arith) ∙ fdb_word i lt;
  fil = λ i lt. boot-word s (i + 71) super w (omega arith) ∙ fil_word i lt;
}
  where
    fdb_word : (i : ℕ) → i < 64 → fs_word s.fs (i + 7) ≡ s.fs.fdb i
    fdb_word i lt =
        unfold fs_word in let e : i + 7 - 7 ≡ i = omega arith in ground (arith, ap s.fs.fdb e)

    fil_word : (i : ℕ) → i < 32 → fs_word s.fs (i + 71) ≡ s.fs.fil i
    fil_word i lt =
        unfold fs_word in let e : i + 71 - 71 ≡ i = omega arith in ground (arith, ap s.fs.fil e)

-- Where the superblock is block 1, a reset after bfree reads the superblock that memory holds.
pub bfree-boot :
    (a : ℕ) (s : Store)
    → s.fs.sblkno ≡ 1
    → IsWords s.fs
    → a < 2 ^ 32
    → SameSuper (boot (bfree a s).1.disk) (bfree a s).1.fs
bfree-boot a s super w lt = elim (Bool-cases (ltb s.fs.fdbhead 63)) [
  | inl some_room ↦
      let lo : s.fs.fdbhead < 63 = ltb→lt s.fs.fdbhead 63 some_room in
      rw (bfree_back a s lo) (
        unfold update_sb in
        boot-update_sb (added a s) super (record {
          sblkno = w.sblkno;
          size = w.size;
          iblkno = w.iblkno;
          isize = w.isize;
          dblkno = w.dblkno;
          dsize = w.dsize;
          fdbhead = omega arith;
          fdb = λ i lt'. ground (arith, w.fdb i lt');
          fil = w.fil;
        }))
  | inr full ↦
      let hi : 63 ≤ s.fs.fdbhead = ltb→le s.fs.fdbhead 63 full in
      rw (bfree_front a s hi) (
        unfold update_sb spilled in
        boot-update_sb (spilled a s) super (record {
          sblkno = w.sblkno;
          size = w.size;
          iblkno = w.iblkno;
          isize = w.isize;
          dblkno = w.dblkno;
          dsize = w.dsize;
          fdbhead = omega arith;
          fdb = λ i lt'. ground (arith, w.fdb i lt');
          fil = w.fil;
        }))
]
