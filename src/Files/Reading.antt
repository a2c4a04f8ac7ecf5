-- ===== src/Files/Reading.antt =====
-- fread of kernel/kernel.c reads the bytes of the file, across the borders of blocks.
use arm_kernel.Base.{
  ℕ, zero, suc, ◌+◌, ◌/◌, ◌%◌, ◌^◌, ◌≤◌, ◌<◌, ◌≡◌, ◌∙◌, ap, false, arith, ltb, leb, ◌==◌, ◌&&◌,
  if◌then◌else◌, update, ok, lt→ltb, le→ltb, ==→eq, inl, inr, Bool-cases,
}
use arm_kernel.Base.Words.{add32}
use arm_kernel.Proc.{fdt_limit}
use arm_kernel.Fs.Disk.{block_size, Block, disk_rd}
use arm_kernel.Fs.Alloc.{Store}
use arm_kernel.Fs.Inode.{Inode}
use arm_kernel.Fs.Blockmap.{get_data_block_addr, addr_of_blk}
use arm_kernel.Files.{Kernel, set_head, get_data_block, crosses, read_loop, read_open, fread}
use arm_kernel.Files.Seek.{IsOpen}

-- Byte `p` of the file.
abbrev pub file_byte : Inode → Store → ℕ → ℕ
file_byte inode s p = s.disk (get_data_block_addr inode p s) (p % block_size)

-- The buffer holds the block of byte `p`.
abbrev Loaded : Inode → Store → Block → ℕ → Type 0
Loaded inode s buf p = (j : ℕ) → j < block_size → buf j ≡ s.disk (get_data_block_addr inode p s) j

get_data_block-Loaded :
    (inode : Inode) (s : Store) (p : ℕ) → Loaded inode s (get_data_block inode p s) p
unfolding disk_rd
get_data_block-Loaded inode s p j lt = rw (lt→ltb j block_size lt)

same_block :
    (inode : Inode) (p q : ℕ) (s : Store)
    → p / block_size ≡ q / block_size
    → get_data_block_addr inode p s ≡ get_data_block_addr inode q s
unfolding get_data_block_addr
same_block inode p q s e = ap (λ b. addr_of_blk inode b s) e

next_Loaded :
    (i n head : ℕ) (inode : Inode) (s : Store) (buf : Block)
    → i + 1 < n
    → head + n < 2 ^ 32
    → Loaded inode s buf (head + i)
    → Loaded inode s
        (if crosses i n head then get_data_block inode (add32 head (i + 1)) s else buf)
        (head + (i + 1))
next_Loaded i n head inode s buf more small l = elim (Bool-cases (crosses i n head)) [
  | inl e ↦
      let plain : add32 head (i + 1) ≡ head + (i + 1) = omega arith in
      rw (e, plain) (get_data_block-Loaded inode s (head + (i + 1)))
  | inr e ↦ rw e λ j lt.
      l j lt ∙ ap (λ a. s.disk a j) (same_block inode (head + i) (head + (i + 1)) s (within e))
]
  where
    within : crosses i n head ≡ false → (head + i) / block_size ≡ (head + (i + 1)) / block_size
    within e = ground arith

one_more :
    (f x : ℕ → ℕ) (i j n v : ℕ)
    → i < n
    → v ≡ f i
    → (if leb (i + 1) j && ltb j n then f j else update x i v j)
      ≡ (if leb i j && ltb j n then f j else x j)
one_more f x i j n v lt e = elim (Bool-cases (i == j)) [
  | inl same ↦ let eq = ==→eq i j same in rw (← eq) (ground arith)
  | inr other ↦ ground arith
]

read_loop_lem :
    (rounds i n head : ℕ) (inode : Inode) (s : Store) (buf : Block) (x : ℕ → ℕ) (j : ℕ)
    → i + rounds ≡ n
    → head + n < 2 ^ 32
    → (0 < rounds → Loaded inode s buf (head + i))
    → read_loop rounds i n head inode s buf x j
      ≡ (if leb i j && ltb j n then file_byte inode s (head + j) else x j)
unfolding read_loop
read_loop_lem zero i n head inode s buf x j e small l = ground arith
read_loop_lem (suc rounds) i n head inode s buf x j e small l =
    read_loop_lem rounds (i + 1) n head inode s _ (update x i (buf ((head + i) % block_size))) j
      (omega arith) small
      (λ more. next_Loaded i n head inode s buf (omega arith) small (l (omega arith)))
    ∙ one_more (λ q. file_byte inode s (head + q)) x i j n (buf ((head + i) % block_size))
        (omega arith) (l (omega arith) ((head + i) % block_size) (omega arith))

-- fread on an open descriptor, of n bytes that lie in the file, returns 0, puts those bytes at the
-- start of the buffer and leaves the rest of it alone, and moves the head behind them.
pub fread-file_byte :
    (fd o i n : ℕ) (x : ℕ → ℕ) (k : Kernel)
    → IsOpen k fd o i
    → n < 2 ^ 31
    → (k.oft o).head + n ≤ (k.ait i).ic.size
    → (k.ait i).ic.size < 2 ^ 32
    → (x' : ℕ → ℕ) × (fread fd x n k ≡ ok (0, x', set_head o ((k.oft o).head + n) k))
      × ((j : ℕ)
          → x' j ≡ (if ltb j n then file_byte (k.ait i) k.store ((k.oft o).head + j) else x j))
unfolding fread read_open
fread-file_byte fd o i n x k opened small within sized =
    let head = (k.oft o).head in
    let inode = k.ait i in
    let plain : add32 head n ≡ head + n = omega arith in
    (
      read_loop n 0 n head inode k.store (get_data_block inode head k.store) x,
      rw (lt→ltb fd fdt_limit opened.inside, opened.entry)
          (rw
            (opened.inode, plain, le→ltb inode.ic.size (head + n) within, lt→ltb n (2 ^ 31) small)),
      λ j.
          read_loop_lem n 0 n head inode k.store (get_data_block inode head k.store) x j
            (omega arith) (omega arith) (λ more. first head inode)
          ∙ ground arith,
    )
  where
    first :
        (head : ℕ) (inode : Inode)
        → Loaded inode k.store (get_data_block inode head k.store) (head + 0)
    first head inode =
        let e : head + 0 ≡ head = omega arith in rw e (get_data_block-Loaded inode k.store head)
