-- ===== src/Fs/Inode/Stored.antt =====
-- What writeInode stores, readInode reads.
use arm_kernel.Base.{
  ℕ, ◌+◌, ◌-◌, ◌*◌, ◌/◌, ◌%◌, ◌^◌, ◌≤◌, ◌<◌, ◌≡◌, ◌∙◌, ap, sym, refl, inl, inr, Bool-cases, Bool,
  true, false, arith, ◌==◌, if◌then◌else◌,
}
use arm_kernel.Fs.Disk.{Block, word, words_bytes, word-words_bytes, word-agree, word-moved, read-wr}
use arm_kernel.Fs.Alloc.{Store}
use arm_kernel.Fs.Inode.{
  Icommon, Inode, ndaddr, ic_word, ic_of, set_ic, inode_block, read_inode, write_inode,
}

-- Every number of an icommon_t fits a word.
pub record IsWords (ic : Icommon) : Type 0 where
  pub mode : ic.mode < 2 ^ 32
  pub size : ic.size < 2 ^ 32
  pub db : (k : ℕ) → k < ndaddr → ic.db k < 2 ^ 32
  pub ib : (k : ℕ) → k < 3 → ic.ib k < 2 ^ 32

-- Two icommon_t that agree in every field and every place of their arrays.
pub record SameIc (a b : Icommon) : Type 0 where
  pub mode : a.mode ≡ b.mode
  pub size : a.size ≡ b.size
  pub db : (k : ℕ) → k < ndaddr → a.db k ≡ b.db k
  pub ib : (k : ℕ) → k < 3 → a.ib k ≡ b.ib k

ic_word_small : (ic : Icommon) (i : ℕ) → IsWords ic → i < 16 → ic_word ic i < 2 ^ 32
unfolding ic_word
ic_word_small ic i w lt = ground (arith, w.db (i - 2), w.ib (i - 13))

-- Word `i` of inode `r` in a block.
word-set_ic :
    (b : Block) (r r' i : ℕ) (ic : Icommon)
    → IsWords ic
    → i < 16
    → word (set_ic b r ic) (16 * r' + i) ≡ (if r' == r then ic_word ic i else word b (16 * r' + i))
unfolding set_ic
word-set_ic b r r' i ic w lt = elim (Bool-cases (r' == r)) [
  | inl e ↦ rw e (
      word-moved (set_ic b r ic) (words_bytes (ic_word ic)) (16 * r' + i) i (λ k lt'. here k lt' e)
      ∙ word-words_bytes (ic_word ic) i (ic_word_small ic i w lt))
  | inr e ↦ rw e (word-agree (set_ic b r ic) b (16 * r' + i) (λ k lt'. there k lt' e))
]
  where
    place :
        (k : ℕ)
        → k < 4
        → ((4 * (16 * r' + i) + k) / 64 ≡ r') × ((4 * (16 * r' + i) + k) % 64 ≡ 4 * i + k)
    place k lt' = omega arith

    here :
        (k : ℕ)
        → k < 4
        → (r' == r) ≡ true
        → set_ic b r ic (4 * (16 * r' + i) + k) ≡ words_bytes (ic_word ic) (4 * i + k)
    here k lt' e = rw ((place k lt').0, (place k lt').1, e)

    there :
        (k : ℕ)
        → k < 4
        → (r' == r) ≡ false
        → set_ic b r ic (4 * (16 * r' + i) + k) ≡ b (4 * (16 * r' + i) + k)
    there k lt' e = rw ((place k lt').0, e)

-- Word `i` of inode `ino` on the disk.
abbrev disk_word : Store → ℕ → ℕ → ℕ
disk_word s ino i = word (inode_block s (ino / 8)) (16 * (ino % 8) + i)

same_inode : (m n : ℕ) → m / 8 ≡ n / 8 → (m % 8 == n % 8) ≡ (m == n)
same_inode m n e = ground arith

disk_word-write :
    (inode : Inode) (ino i : ℕ) (s : Store)
    → IsWords inode.ic
    → i < 16
    → disk_word (write_inode inode s) ino i
      ≡ (if ino == inode.number then ic_word inode.ic i else disk_word s ino i)
unfolding write_inode
disk_word-write inode ino i s w lt =
    read-wr (s.fs.iblkno + inode.number / 8) (s.fs.iblkno + ino / 8) (16 * (ino % 8) + i)
      (set_ic (inode_block s (inode.number / 8)) (inode.number % 8) inode.ic) s.disk (omega arith)
    ∙ elim (Bool-cases (s.fs.iblkno + ino / 8 == s.fs.iblkno + inode.number / 8)) [
      | inl e ↦
          let same : ino / 8 ≡ inode.number / 8 = ground arith in
          rw e (
            word-set_ic (inode_block s (inode.number / 8)) (inode.number % 8) (ino % 8) i inode.ic w
              lt
            ∙ ap
                (λ (b : Bool).
                  if b
                  then ic_word inode.ic i
                  else word (inode_block s (inode.number / 8)) (16 * (ino % 8) + i))
                (same_inode ino inode.number same)
            ∙ ap
                (λ (q : ℕ).
                  if ino == inode.number
                  then ic_word inode.ic i
                  else word (inode_block s q) (16 * (ino % 8) + i))
                (sym same))
      | inr e ↦ let other : (ino == inode.number) ≡ false = ground arith in rw (e, other)
    ]

-- An icommon_t is known by its words.
SameIc-of_words :
    (b : Block) (r : ℕ) (ic : Icommon)
    → ((i : ℕ) → i < 16 → word b (16 * r + i) ≡ ic_word ic i)
    → SameIc (ic_of b r) ic
unfolding ic_of
SameIc-of_words b r ic h = record {
  mode = ap (word b) (omega arith) ∙ h 0 (omega arith) ∙ unfold ic_word in refl;
  size = h 1 (omega arith) ∙ unfold ic_word in refl;
  db = λ k lt. ap (word b) (omega arith) ∙ h (2 + k) (omega arith) ∙ db_word k lt;
  ib = λ k lt. ap (word b) (omega arith) ∙ h (13 + k) (omega arith) ∙ ib_word k lt;
}
  where
    db_word : (k : ℕ) → k < ndaddr → ic_word ic (2 + k) ≡ ic.db k
    db_word k lt =
        unfold ic_word in let e : 2 + k - 2 ≡ k = omega arith in ground (arith, ap ic.db e)

    ib_word : (k : ℕ) → k < 3 → ic_word ic (13 + k) ≡ ic.ib k
    ib_word k lt =
        unfold ic_word in let e : 13 + k - 13 ≡ k = omega arith in ground (arith, ap ic.ib e)

ic_word-ic_of : (b : Block) (r i : ℕ) → i < 16 → ic_word (ic_of b r) i ≡ word b (16 * r + i)
unfolding ic_word ic_of
ic_word-ic_of b r i lt = ground (
  arith,
  ap (word b) mode,
  ap (word b) size,
  λ (le : 2 ≤ i). ap (word b) (db le),
  λ (le : 13 ≤ i). ap (word b) (ib le),
)
  where
    mode : 16 * r + 0 ≡ 16 * r
    mode = omega arith

    size : 16 * r + 1 ≡ 16 * r + 1
    size = refl

    db : 2 ≤ i → 16 * r + 2 + (i - 2) ≡ 16 * r + i
    db le = omega arith

    ib : 13 ≤ i → 16 * r + 13 + (i - 13) ≡ 16 * r + i
    ib le = omega arith

-- readInode gives what writeInode stored, in every field; every other inode reads as before.
pub read_inode-write_inode :
    (inode in_core : Inode) (ino : ℕ) (s : Store)
    → IsWords inode.ic
    → SameIc
        (read_inode in_core ino (write_inode inode s)).ic
        (if ino == inode.number then inode.ic else (read_inode in_core ino s).ic)
unfolding read_inode
read_inode-write_inode inode in_core ino s w = elim (Bool-cases (ino == inode.number)) [
  | inl e ↦
      rw e
        (SameIc-of_words _ (ino % 8) inode.ic (λ i lt. disk_word-write inode ino i s w lt ∙ rw e))
  | inr e ↦ rw e (
      SameIc-of_words _ (ino % 8) (ic_of (inode_block s (ino / 8)) (ino % 8)) (λ i lt.
        disk_word-write inode ino i s w lt
        ∙ rw e (sym (ic_word-ic_of (inode_block s (ino / 8)) (ino % 8) i lt))))
]
