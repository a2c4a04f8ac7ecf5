-- ===== src/Fs/Blockmap.antt =====
-- getDataBlockAddr, allocateDataBlockAddr, allocateDataBlocks and freeDataBlocks of
-- kernel/kernel.c: the direct and indirect blocks of an inode.
pub mod Release
pub mod Allocate
use arm_kernel.Base.{
  ℕ, zero, suc, ◌+◌, ◌-◌, ◌*◌, ◌/◌, ◌%◌, Option, none, some, Bool, ltb, ◌==◌, if◌then◌else◌, update,
  Run, ok, fault, out_of_fuel,
}
use arm_kernel.Base.Words.{neg1, add32}
use arm_kernel.Fs.Disk.{block_size, Block, disk_wr, disk_rd, word, set_word}
use arm_kernel.Fs.Alloc.{Store, balloc, bfree}
use arm_kernel.Fs.Inode.{ndaddr, Icommon, Inode, write_inode}

-- `ls`, the words of a block.
abbrev pub ls : ℕ
ls = 128

-- The first block numbers behind the direct, single, double and triple indirect blocks.
abbrev pub end_single : ℕ
end_single = 139

abbrev pub end_double : ℕ
end_double = 16523

abbrev pub end_triple : ℕ
end_triple = 2113675

-- disk_rd( a, block, BLOCK_SIZE )
abbrev pub read_block : Store → ℕ → Block
read_block s a = disk_rd a (λ _. 0) block_size s.disk

-- getDataBlockAddr, for block number `blk`.
unfoldable pub addr_of_blk : Inode → ℕ → Store → ℕ
addr_of_blk inode blk s =
    if ltb blk ndaddr
    then inode.ic.db blk
    else if ltb blk end_single
    then word (read_block s (inode.ic.ib 0)) (blk - ndaddr)
    else if ltb blk end_double
    then (let b = blk - end_single in
        word (read_block s (word (read_block s (inode.ic.ib 1)) (b / ls))) (b % ls))
    else if ltb blk end_triple
    then (let b = blk - end_double in
        word
          (read_block s (
            word (read_block s (word (read_block s (inode.ic.ib 2)) (b / (ls * ls))))
              (b % (ls * ls) / ls)))
          (b % ls))
    else neg1

unfoldable pub get_data_block_addr : Inode → ℕ → Store → ℕ
unfolding addr_of_blk
get_data_block_addr inode byte s = addr_of_blk inode (byte / block_size) s

-- Steps that change an inode in memory and the store. `none` is the return of -1 in between.
abbrev pub Try : Type 0 → Type 0
Try A = Inode → Store → Run (Option A × Inode × Store)

abbrev pub pure : {A : Type 0} → A → Try A
pure a inode s = ok (some a, inode, s)

abbrev pub and_then {ℓ} :
    {A : Type ℓ} {B : Type 0}
    → Run (Option A × Inode × Store)
    → (A → Try B)
    → Run (Option B × Inode × Store)
and_then (ok (some a, inode, s)) f = f a inode s
and_then (ok (none, inode, s)) f = ok (none, inode, s)
and_then fault f = fault
and_then out_of_fuel f = out_of_fuel

infixl 5 ◌>>=◌ ◌>>◌
abbrev pub ◌>>=◌ : {A B : Type 0} → Try A → (A → Try B) → Try B
◌>>=◌ m f inode s = and_then (m inode s) f

abbrev pub ◌>>◌ : {B : Type 0} → Try (Unit {0}) → Try B → Try B
m >> k = m >>= λ _. k

abbrev or_stop : Inode → Run (ℕ × Store) → Run (Option ℕ × Inode × Store)
or_stop inode (ok (a, s)) = ok (if a == neg1 then none else some a, inode, s)
or_stop inode fault = fault
or_stop inode out_of_fuel = out_of_fuel

-- taddr = balloc(); if (taddr == -1) return -1;
unfoldable pub try_balloc : Try ℕ
try_balloc inode s = or_stop inode (balloc s)

-- writeInode( inode ) after a change of ic_db or ic_ib.
abbrev pub with_db : ℕ → ℕ → Inode → Inode
with_db k a inode = record inode { ic = record (inode.ic) { db = update inode.ic.db k a } }

abbrev pub with_ib : ℕ → ℕ → Inode → Inode
with_ib k a inode = record inode { ic = record (inode.ic) { ib = update inode.ic.ib k a } }

unfoldable pub put_db : ℕ → ℕ → Try (Unit {0})
put_db k a inode s = ok (some tt, with_db k a inode, write_inode (with_db k a inode) s)

unfoldable pub put_ib : ℕ → ℕ → Try (Unit {0})
put_ib k a inode s = ok (some tt, with_ib k a inode, write_inode (with_ib k a inode) s)

-- disk_rd( taddr, … ); ((uint32_t*)block)[ i ] = a; disk_wr( taddr, … );
unfoldable pub put_entry : ℕ → ℕ → ℕ → Try (Unit {0})
put_entry taddr i a inode s = ok (
  some tt,
  inode,
  record s { disk = disk_wr taddr (set_word (read_block s taddr) i a) block_size s.disk },
)

abbrev pub get_ib : ℕ → Try ℕ
get_ib k inode s = ok (some (inode.ic.ib k), inode, s)

abbrev pub get_entry : ℕ → ℕ → Try ℕ
get_entry taddr i inode s = ok (some (word (read_block s taddr) i), inode, s)

-- The table that ic_ib[ k ] names, a new one at its first block.
unfoldable pub root_table : ℕ → Bool → Try ℕ
unfolding try_balloc put_ib
root_table k first = if first then (do t ← try_balloc; put_ib k t; pure t) else get_ib k

-- A new table for entry `i` of a table: the changed table is written to the block of the new one, and
-- the block that it was read from stays as it was.
unfoldable pub new_table : ℕ → ℕ → Try ℕ
unfolding try_balloc
new_table taddr i inode s =
    let block = read_block s taddr in
    and_then (try_balloc inode s) (λ t inode' s'.
      ok (some t, inode', record s' { disk = disk_wr t (set_word block i t) block_size s'.disk }))

-- The table that entry `i` of a table names, a new one at its first block.
unfoldable pub index_table : ℕ → ℕ → Bool → Try ℕ
unfolding new_table
index_table taddr i first = if first then new_table taddr i else get_entry taddr i

-- The branches of allocateDataBlockAddr behind its first balloc, for block number `blk`.
unfoldable pub place : ℕ → ℕ → Try (Unit {0})
unfolding put_db root_table index_table put_entry
place blk addr =
    if ltb blk ndaddr
    then put_db blk addr
    else if ltb blk end_single
    then (let b = blk - ndaddr in do t ← root_table 0 (b == 0); put_entry t b addr)
    else if ltb blk end_double
    then (let b = blk - end_single in
        do
          t ← root_table 1 (b == 0)
          t ← index_table t (b / ls) (b % ls == 0)
          put_entry t (b % ls) addr)
    else if ltb blk end_triple
    then (let b = blk - end_double in
        let c = b % (ls * ls) in
        do
          t ← root_table 2 (b == 0)
          t ← index_table t (b / (ls * ls)) (c == 0)
          t ← index_table t (c / ls) (c % ls == 0)
          put_entry t (c % ls) addr)
    else pure tt

-- Behind the last branch the address is returned though it is placed nowhere.
unfoldable pub allocate_data_block_addr : ℕ → Try ℕ
unfolding try_balloc place
allocate_data_block_addr byte = do addr ← try_balloc; place (byte / block_size) addr; pure addr

-- The loop of allocateDataBlocks.
unfoldable pub allocate_from : ℕ → ℕ → Try (Unit {0})
unfolding allocate_data_block_addr
allocate_from zero i = pure tt
allocate_from (suc rounds) i = do
  _ ← allocate_data_block_addr (i * block_size)
  allocate_from rounds (i + 1)

abbrev grow : ℕ → Try ℕ
grow bytes inode s =
    let size = add32 inode.ic.size bytes in
    ok (some size, record inode { ic = record (inode.ic) { size = size } }, s)

-- The new size, or none for -1.
unfoldable pub allocate_data_blocks : ℕ → Try ℕ
unfolding allocate_from
allocate_data_blocks bytes inode s =
    let b = inode.ic.size / block_size in
    let n = add32 inode.ic.size bytes / block_size in
    (allocate_from (n - b) (b + 1) >> grow bytes) inode s

-- The body of freeDataBlocks' loop, for block number `blk`: the block itself, and the tables whose
-- first block it is.
unfoldable pub free_blk : Inode → ℕ → Store → Store
unfolding addr_of_blk
free_blk inode blk s =
    let s = (bfree (addr_of_blk inode blk s) s).1 in
    if ltb blk ndaddr
    then s
    else if ltb blk end_single
    then (if blk - ndaddr == 0 then (bfree (inode.ic.ib 0) s).1 else s)
    else if ltb blk end_double
    then (let b = blk - end_single in
        let block = read_block s (inode.ic.ib 1) in
        let s = if b % ls == 0 then (bfree (word block (b / ls)) s).1 else s in
        if b == 0 then (bfree (inode.ic.ib 1) s).1 else s)
    else if ltb blk end_triple
    then (let b = blk - end_double in
        let block = read_block s (word (read_block s (inode.ic.ib 2)) (b / (ls * ls))) in
        let c = b % (ls * ls) in
        let s = if c % ls == 0 then (bfree (word block (c / ls)) s).1 else s in
        let block = read_block s (inode.ic.ib 2) in
        let s = if c == 0 then (bfree (word block (b / (ls * ls))) s).1 else s in
        if b == 0 then (bfree (inode.ic.ib 2) s).1 else s)
    else s

unfoldable pub free_from : ℕ → ℕ → Inode → Store → Store
unfolding free_blk
free_from zero blk inode s = s
free_from (suc rounds) blk inode s = free_from rounds (blk + 1) inode (free_blk inode blk s)

-- One round for each block that the size reaches into.
unfoldable pub free_data_blocks : Inode → Store → Store
unfolding free_from
free_data_blocks inode s = free_from ((inode.ic.size + (block_size - 1)) / block_size) 0 inode s
