-- ===== src/Files/Writing.antt =====
-- fwrite of kernel/kernel.c writes the bytes of the file, across the borders of blocks.
use arm_kernel.Base.{
  ℕ, zero, suc, ◌+◌, ◌-◌, ◌*◌, ◌/◌, ◌%◌, ◌^◌, ◌≤◌, ◌<◌, ◌≡◌, ◌∙◌, ap, sym, refl, true, false, arith,
  ltb, leb, ◌==◌, ◌&&◌, if◌then◌else◌, update, ok, lt→ltb, le→ltb, ==→eq, ==→ne, inl, inr,
  Bool-cases, Bool,
}
use arm_kernel.Base.Words.{add32}
use arm_kernel.Proc.{fdt_limit}
use arm_kernel.Fs.Disk.{block_size, Block, disk_rd, disk_wr, disk_wr_self, disk_wr-other}
use arm_kernel.Fs.Alloc.{Store}
use arm_kernel.Fs.Inode.{Inode, ndaddr}
use arm_kernel.Fs.Blockmap.{get_data_block_addr}
use arm_kernel.Fs.Blockmap.Allocate.{addr_direct}
use arm_kernel.Files.{
  Kernel, set_head, get_data_block, crosses, write_loop, extend_file, write_open, fwrite,
}
use arm_kernel.Files.Seek.{IsOpen}
use arm_kernel.Files.Reading.{file_byte}

-- The bytes that the direct blocks hold.
abbrev pub direct_bytes : ℕ
direct_bytes = ndaddr * block_size

-- No two direct blocks are the same.
abbrev pub Apart : Inode → Type 0
Apart inode = (a b : ℕ) → a < ndaddr → b < ndaddr → inode.ic.db a ≡ inode.ic.db b → a ≡ b

pub addr_of_byte :
    (inode : Inode) (p : ℕ) (s : Store)
    → p < direct_bytes
    → get_data_block_addr inode p s ≡ inode.ic.db (p / block_size)
unfolding get_data_block_addr
addr_of_byte inode p s lt = addr_direct inode (p / block_size) s (omega arith)

-- Byte `p` of the file while block `cur` is in the buffer.
abbrev view : Inode → (cur : ℕ) → Block → Store → ℕ → ℕ
view inode cur buf s p =
    if p / block_size == cur
    then buf (p % block_size)
    else s.disk (inode.ic.db (p / block_size)) (p % block_size)

-- The store with the buffer written.
abbrev flush : Inode → (cur : ℕ) → Block → Store → Store
flush inode cur buf s = record s { disk = disk_wr (inode.ic.db cur) buf block_size s.disk }

flush-view :
    (inode : Inode) (cur p : ℕ) (buf : Block) (s : Store)
    → Apart inode
    → cur < ndaddr
    → p < direct_bytes
    → (flush inode cur buf s).disk (inode.ic.db (p / block_size)) (p % block_size)
      ≡ view inode cur buf s p
flush-view inode cur p buf s apart lt plt = elim (Bool-cases (p / block_size == cur)) [
  | inl e ↦
      let q = ==→eq (p / block_size) cur e in
      rw (e, q)
        (disk_wr_self (inode.ic.db cur) (p % block_size) block_size buf s.disk (omega arith))
  | inr e ↦ rw e (
      ap (λ b. b (p % block_size))
        (disk_wr-other (inode.ic.db cur) (inode.ic.db (p / block_size)) block_size buf s.disk
          (λ same.
            ==→ne (p / block_size) cur e (apart (p / block_size) cur (omega arith) lt same))))
]

-- The next block, behind a flush.
fetched-view :
    (inode : Inode) (next p : ℕ) (t : Store)
    → next < direct_bytes
    → view inode (next / block_size) (get_data_block inode next t) t p
      ≡ t.disk (inode.ic.db (p / block_size)) (p % block_size)
unfolding disk_rd
fetched-view inode next p t lt = elim (Bool-cases (p / block_size == next / block_size)) [
  | inl e ↦
      let q = ==→eq (p / block_size) (next / block_size) e in
      let inside : ltb (p % block_size) block_size ≡ true = ground arith in
      rw (e, inside, addr_of_byte inode next t lt, q)
  | inr e ↦ rw e
]

-- A byte put into the buffer.
put-view :
    (inode : Inode) (cur p q v : ℕ) (buf : Block) (s : Store)
    → q / block_size ≡ cur
    → view inode cur (update buf (q % block_size) v) s p
      ≡ (if p == q then v else view inode cur buf s p)
put-view inode cur p q v buf s e = ground arith

-- One more byte of the data.
next_byte :
    (x : ℕ → ℕ) (head i n p old : ℕ)
    → i < n
    → (if leb (head + (i + 1)) p && ltb p (head + n)
        then x (p - head)
        else if p == head + i
        then x i
        else old)
      ≡ (if leb (head + i) p && ltb p (head + n) then x (p - head) else old)
next_byte x head i n p old lt = elim (Bool-cases (p == head + i)) [
  | inl e ↦
      let q = ==→eq p (head + i) e in
      let at : head + i - head ≡ i = omega arith in
      ground (arith, ap x at, ap (λ r. x (r - head)) q)
  | inr e ↦ ground arith
]

-- One round of the loop, at a border of blocks and within one.
write_across :
    (rounds i n head : ℕ) (inode : Inode) (x : ℕ → ℕ) (addr : ℕ) (buf : Block) (s : Store)
    → crosses i n head ≡ true
    → let s' = record s {
      disk = disk_wr addr (update buf ((head + i) % block_size) (x i)) block_size s.disk;
    } in
      write_loop (suc rounds) i n head inode x addr buf s
      ≡ write_loop rounds
          (i + 1)
          n
          head
          inode
          x
          (get_data_block_addr inode (add32 head (i + 1)) s')
          (get_data_block inode (add32 head (i + 1)) s')
          s'
unfolding write_loop
write_across rounds i n head inode x addr buf s c =
    let buf' = update buf ((head + i) % block_size) (x i) in
    let s' : Store = record s { disk = disk_wr addr buf' block_size s.disk } in
    ap
      (λ (b : Bool). elim b [
        | true ↦
            write_loop rounds (i + 1) n head inode x
              (get_data_block_addr inode (add32 head (i + 1)) s')
              (get_data_block inode (add32 head (i + 1)) s') s'
        | false ↦ write_loop rounds (i + 1) n head inode x addr buf' s
      ])
      c

write_within :
    (rounds i n head : ℕ) (inode : Inode) (x : ℕ → ℕ) (addr : ℕ) (buf : Block) (s : Store)
    → crosses i n head ≡ false
    → write_loop (suc rounds) i n head inode x addr buf s
      ≡ write_loop rounds (i + 1) n head inode x addr (update buf ((head + i) % block_size) (x i)) s
unfolding write_loop
write_within rounds i n head inode x addr buf s c =
    let buf' = update buf ((head + i) % block_size) (x i) in
    let s' : Store = record s { disk = disk_wr addr buf' block_size s.disk } in
    ap
      (λ (b : Bool). elim b [
        | true ↦
            write_loop rounds (i + 1) n head inode x
              (get_data_block_addr inode (add32 head (i + 1)) s')
              (get_data_block inode (add32 head (i + 1)) s') s'
        | false ↦ write_loop rounds (i + 1) n head inode x addr buf' s
      ])
      c

module _ (inode : Inode) (x : ℕ → ℕ) (n head : ℕ) where
  -- What is in byte `p` once the loop has gone through bytes `i` to `n`.
  abbrev written : ℕ → ℕ → ℕ → ℕ
  written i p old = if leb (head + i) p && ltb p (head + n) then x (p - head) else old

  abbrev Writes : ℕ → ℕ → ℕ → Block → Store → ℕ → Type 0
  Writes rounds i cur buf s p =
      (write_loop rounds i n head inode x (inode.ic.db cur) buf s).disk
        (inode.ic.db (p / block_size)) (p % block_size)
      ≡ written i p (view inode cur buf s p)

  write_loop-written :
      (rounds i cur : ℕ) (buf : Block) (s : Store) (p : ℕ)
      → Apart inode
      → head + n ≤ direct_bytes
      → i + rounds ≡ n
      → (0 < rounds → (head + i) / block_size ≡ cur)
      → cur < ndaddr
      → p < direct_bytes
      → Writes rounds i cur buf s p
  unfolding write_loop
  write_loop-written zero i cur buf s p apart fits e here lt plt =
      flush-view inode cur p buf s apart lt plt ∙ ground arith
  write_loop-written (suc rounds) i cur buf s p apart fits e here lt plt =
      elim (Bool-cases (crosses i n head)) [
        | inl c ↦
            let next : add32 head (i + 1) ≡ head + (i + 1) = omega arith in
            let more : i + 1 < n = ground arith in
            let behind : head + (i + 1) < direct_bytes = omega arith in
            let t = flush inode cur buf' s in
            ap at_byte (write_across rounds i n head inode x (inode.ic.db cur) buf s c)
            ∙ ap
                (λ a. at_byte (
                  write_loop rounds (i + 1) n head inode x (get_data_block_addr inode a t)
                    (get_data_block inode a t) t))
                next
            ∙ ap
                (λ a. at_byte (
                  write_loop rounds (i + 1) n head inode x a
                    (get_data_block inode (head + (i + 1)) t) t))
                (addr_of_byte inode (head + (i + 1)) t behind)
            ∙ write_loop-written rounds (i + 1) ((head + (i + 1)) / block_size)
                (get_data_block inode (head + (i + 1)) t) t p apart fits (omega arith) (λ r. refl)
                (omega arith) plt
            ∙ ap (written (i + 1) p) (
                fetched-view inode (head + (i + 1)) p t behind
                ∙ flush-view inode cur p buf' s apart lt plt)
            ∙ step
        | inr c ↦
            ap at_byte (write_within rounds i n head inode x (inode.ic.db cur) buf s c)
            ∙ write_loop-written rounds (i + 1) cur buf' s p apart fits (omega arith)
                (λ r. same_block c r) lt plt
            ∙ step
      ]
    where
      buf' : Block
      buf' = update buf ((head + i) % block_size) (x i)

      at_byte : Store → ℕ
      at_byte t = t.disk (inode.ic.db (p / block_size)) (p % block_size)

      step : written (i + 1) p (view inode cur buf' s p) ≡ written i p (view inode cur buf s p)
      step =
          ap (written (i + 1) p) (put-view inode cur p (head + i) (x i) buf s (here (omega arith)))
          ∙ next_byte x head i n p (view inode cur buf s p) (omega arith)

      same_block : crosses i n head ≡ false → 0 < rounds → (head + (i + 1)) / block_size ≡ cur
      same_block c r = let before = here (omega arith) in ground arith

-- fwrite of n bytes, at least one, that lie in the file and in its direct blocks, which differ,
-- returns 0 and moves the head behind them; those bytes of the file are then the data, and every
-- other byte of the direct blocks is as it was.
pub fwrite-file_byte :
    (fd o i n : ℕ) (x : ℕ → ℕ) (k : Kernel)
    → IsOpen k fd o i
    → 0 < n
    → (k.oft o).head + n ≤ (k.ait i).ic.size
    → (k.ait i).ic.size < 2 ^ 32
    → (k.oft o).head + n ≤ direct_bytes
    → Apart (k.ait i)
    → (s' : Store) × (fwrite fd x n k
        ≡ ok (
          0,
          set_head o ((k.oft o).head + n) (record k { store = s'; ait = update k.ait i (k.ait i) }),
        ))
      × ((p : ℕ)
          → p < direct_bytes
          → file_byte (k.ait i) s' p ≡ (
              if leb (k.oft o).head p && ltb p ((k.oft o).head + n)
              then x (p - (k.oft o).head)
              else file_byte (k.ait i) k.store p))
unfolding fwrite write_open extend_file
fwrite-file_byte fd o i n x k opened some_byte within sized fits apart =
    let head = (k.oft o).head in
    let inode = k.ait i in
    let plain : add32 head n ≡ head + n = omega arith in
    let addr = addr_of_byte inode head k.store (omega arith) in
    let s' =
      write_loop n 0 n head inode x (inode.ic.db (head / block_size))
        (get_data_block inode head k.store) k.store in
    (
      s',
      rw (lt→ltb fd fdt_limit opened.inside, opened.entry)
          (rw (
            opened.inode,
            plain,
            le→ltb inode.ic.size (head + n) within,
            lt→ltb n (2 ^ 31) (omega arith),
            addr,
          )),
      λ p lt.
          ap (λ a. s'.disk a (p % block_size)) (addr_of_byte inode p s' lt)
          ∙ write_loop-written inode x n head n 0 (head / block_size)
              (get_data_block inode head k.store) k.store p apart fits (omega arith) (λ r. start)
              (omega arith) lt
          ∙ ap
              (λ h.
                if leb h p && ltb p (head + n)
                then x (p - head)
                else view inode (head / block_size) (get_data_block inode head k.store) k.store p)
              (omega arith)
          ∙ ap (λ old. if leb head p && ltb p (head + n) then x (p - head) else old)
              (fetched-view inode head p k.store (omega arith)
                ∙ sym
                    (ap (λ a. k.store.disk a (p % block_size)) (addr_of_byte inode p k.store lt))),
    )
  where
    start : ((k.oft o).head + 0) / block_size ≡ (k.oft o).head / block_size
    start = ap (λ h. h / block_size) (omega arith)
