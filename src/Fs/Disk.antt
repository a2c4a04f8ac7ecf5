-- ===== src/Fs/Disk.antt =====
-- Blocks of bytes, the 32-bit words in them, and the disk as a store of blocks. The store is
-- the abstract view of the exchange of device/disk.c with device/disk.py, for addresses below the
-- number of blocks: disk.py refuses others, and an address from 2 ^ 31 on ends it.
use mathlib.Core.Path.{ap₂}
use arm_kernel.Base.{
  ℕ, ◌+◌, ◌*◌, ◌/◌, ◌%◌, ◌^◌, ◌<◌, ◌≡◌, ◌≢◌, ◌∙◌, ap, sym, inl, inr, Bool-cases, arith, ◌==◌,
  if◌then◌else◌, update, memcpy,
}

-- BLOCK_SIZE.
abbrev pub block_size : ℕ
block_size = 512

abbrev pub Block : Type 0
Block = ℕ → ℕ

abbrev pub Disk : Type 0
Disk = ℕ → Block

-- disk_wr( a, x, n ) and disk_rd( a, x, n ).
unfoldable pub disk_wr : ℕ → Block → ℕ → Disk → Disk
disk_wr a x n d = update d a (memcpy (d a) x n)

unfoldable pub disk_rd : ℕ → Block → ℕ → Disk → Block
disk_rd a x n d = memcpy x (d a) n

-- Byte `k` of a word, the lowest first.
unfoldable pub byte : ℕ → ℕ → ℕ
byte w k =
    if k == 0
    then w % 256
    else if k == 1
    then w / 256 % 256
    else if k == 2
    then w / 65536 % 256
    else w / 16777216 % 256

-- ( (uint32_t*)block )[ i ]
unfoldable pub word : Block → ℕ → ℕ
word b i = b (4 * i) + 256 * b (4 * i + 1) + 65536 * b (4 * i + 2) + 16777216 * b (4 * i + 3)

-- ( (uint32_t*)block )[ i ] = w
unfoldable pub set_word : Block → ℕ → ℕ → Block
set_word b i w j = if j / 4 == i then byte w (j % 4) else b j

-- An array of words as the bytes that it lies in.
unfoldable pub words_bytes : (ℕ → ℕ) → Block
words_bytes f j = byte (f (j / 4)) (j % 4)

word_of_bytes :
    (w : ℕ) → w < 2 ^ 32 → byte w 0 + 256 * byte w 1 + 65536 * byte w 2 + 16777216 * byte w 3 ≡ w
unfolding byte
word_of_bytes w lt = omega arith

quad : (i k : ℕ) → k < 4 → ((4 * i + k) / 4 ≡ i) × ((4 * i + k) % 4 ≡ k)
quad i k lt = omega arith

quad_zero : (i : ℕ) → (4 * i / 4 ≡ i) × (4 * i % 4 ≡ 0)
quad_zero i = omega arith

-- A block that is `b` in the four bytes of word `i`.
word_of_quad :
    (b : Block) (i w : ℕ) → w < 2 ^ 32 → ((k : ℕ) → k < 4 → b (4 * i + k) ≡ byte w k) → word b i ≡ w
unfolding word
word_of_quad b i w lt h =
    omega
      (arith, word_of_bytes w lt, at_zero, h 1 (omega arith), h 2 (omega arith), h 3 (omega arith))
  where
    at_zero : b (4 * i) ≡ byte w 0
    at_zero = ap b (omega arith) ∙ h 0 (omega arith)

pub word-words_bytes : (f : ℕ → ℕ) (i : ℕ) → f i < 2 ^ 32 → word (words_bytes f) i ≡ f i
unfolding words_bytes
word-words_bytes f i lt =
    word_of_quad (words_bytes f) i (f i) lt
      (λ k lt'. ap₂ byte (ap f ((quad i k lt').0)) ((quad i k lt').1))

-- Two blocks that agree on the bytes of a word, perhaps at different places, agree on the word.
pub word-moved :
    (b c : Block) (i j : ℕ)
    → ((k : ℕ) → k < 4 → b (4 * i + k) ≡ c (4 * j + k))
    → word b i ≡ word c j
unfolding word
word-moved b c i j h =
    omega (arith, at_zero, h 1 (omega arith), h 2 (omega arith), h 3 (omega arith))
  where
    at_zero : b (4 * i) ≡ c (4 * j)
    at_zero = ap b (omega arith) ∙ h 0 (omega arith) ∙ ap c (omega arith)

pub word-agree :
    (b c : Block) (i : ℕ) → ((k : ℕ) → k < 4 → b (4 * i + k) ≡ c (4 * i + k)) → word b i ≡ word c i
word-agree b c i h = word-moved b c i i h

-- A word that is written is read back, and no other word changes.
pub word-set_word :
    (b : Block) (i j w : ℕ)
    → w < 2 ^ 32
    → word (set_word b i w) j ≡ (if i == j then w else word b j)
unfolding set_word
word-set_word b i j w lt = elim (Bool-cases (i == j)) [
  | inl e ↦ rw e (word_of_quad (set_word b i w) j w lt (λ k lt'. ground (arith, quad j k lt')))
  | inr e ↦ rw e (word-agree (set_word b i w) b j (λ k lt'. ground (arith, quad j k lt')))
]

-- A whole block that is read has the words that lie on the disk.
pub word-disk_rd :
    (a i : ℕ) (buf : Block) (d : Disk)
    → i < 128
    → word (disk_rd a buf block_size d) i ≡ word (d a) i
unfolding disk_rd
word-disk_rd a i buf d lt = word-agree (memcpy buf (d a) block_size) (d a) i (λ k lt'. ground arith)

pub disk_wr_self : (a i n : ℕ) (x : Block) (d : Disk) → i < n → disk_wr a x n d a i ≡ x i
unfolding disk_wr
disk_wr_self a i n x d lt = ground arith

pub disk_wr-other : (a b n : ℕ) (x : Block) (d : Disk) → b ≢ a → disk_wr a x n d b ≡ d b
unfolding disk_wr
disk_wr-other a b n x d ne = ground arith

-- A word of a block that is read back behind a write of a whole block.
pub read-wr :
    (a b i : ℕ) (x : Block) (d : Disk)
    → i < 128
    → word (disk_rd b (λ _. 0) block_size (disk_wr a x block_size d)) i
      ≡ (if b == a then word x i else word (disk_rd b (λ _. 0) block_size d) i)
read-wr a b i x d lt = elim (Bool-cases (b == a)) [
  | inl e ↦
      let same : b ≡ a = ground arith in
      rw e (
        word-disk_rd b i (λ _. 0) (disk_wr a x block_size d) lt
        ∙ ap (λ y. word (disk_wr a x block_size d y) i) same
        ∙ word-agree (disk_wr a x block_size d a) x i
            (λ k lt'. disk_wr_self a (4 * i + k) block_size x d (omega arith)))
  | inr e ↦
      let other : b ≢ a = ground arith in
      rw e (
        word-disk_rd b i (λ _. 0) (disk_wr a x block_size d) lt
        ∙ ap (λ c. word c i) (disk_wr-other a b block_size x d other)
        ∙ sym (word-disk_rd b i (λ _. 0) d lt))
]
