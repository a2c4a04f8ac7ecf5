-- ===== src/Fs/Tests.antt =====
-- The file system of kernel/kernel.c at concrete inputs: a disk with some free blocks from 100 on.
use arm_kernel.Base.{
  ℕ, zero, suc, ◌+◌, ◌*◌, ◌≡◌, ◌≤◌, ◌<◌, ◌⊎◌, inl, inr, refl, List, [], ◌∷◌, some, none, true,
  false, arith, ◌==◌, if◌then◌else◌, ok, has, Distinct, has-cons_cases, Bool-cases,
}
use arm_kernel.Fs.Disk.{Block}
use arm_kernel.Fs.Alloc.{Superblock, Store, balloc, bfree}
use arm_kernel.Fs.Alloc.FreeList.{Chain, FreeList, SameBlocks, balloc_some}
use arm_kernel.Fs.Alloc.Freed.{bfree-FreeList}
use arm_kernel.Fs.Alloc.Saved.{boot, SameSuper, bfree-boot}
use arm_kernel.Fs.Inode.{Inode, ifreg, read_inode, write_inode, get_free_inode}
use arm_kernel.Fs.Inode.Stored.{SameIc, read_inode-write_inode}
use arm_kernel.Fs.Inode.FreeInode.{disk_mode, FirstZero, Started, get_free_inode-FirstZero}
use arm_kernel.Fs.Blockmap.{addr_of_blk, allocate_data_block_addr}
use arm_kernel.Fs.Blockmap.Allocate.{Allocated, allocate-Allocated}
use arm_kernel.Fs.Blockmap.Release.{bfree_table-addr}

-- Blocks 99 + n down to 100.
abbrev places : ℕ → List ℕ
places zero = []
places (suc n) = (100 + n) ∷ places n

has-places : (x n : ℕ) → has x (places n) ≡ true → (100 ≤ x) × (x < 100 + n)
has-places x zero m = absurd (ground arith)
has-places x (suc n) m = elim (has-cons_cases x (100 + n) (places n) m) [
  | inl e ↦ (omega arith, omega arith)
  | inr m' ↦ let (lo, hi) = has-places x n m' in (lo, omega arith)
]

out-places : (x n : ℕ) → (x < 100) ⊎ (100 + n ≤ x) → has x (places n) ≡ false
out-places x n out = elim (Bool-cases (has x (places n))) [
  | inl m ↦ let (lo, hi) = has-places x n m in absurd (grind arith)
  | inr free ↦ free
]

places-Distinct : (n : ℕ) → Distinct (places n)
places-Distinct zero = tt
places-Distinct (suc n) = (out-places (100 + n) n (inr (omega arith)), places-Distinct n)

abbrev blank : Block
blank _ = 0

abbrev stock_super : ℕ → Superblock
stock_super n = record {
  sblkno = 1;
  size = 32768;
  iblkno = 2;
  isize = 8;
  dblkno = 3;
  dsize = 32765;
  fdbhead = n;
  fdb = λ i. if i == 0 then 1 else 99 + i;
  fil = blank;
  pad = blank;
}

abbrev stock : ℕ → Store
stock n = record { disk = λ _. blank; fs = stock_super n }

stock-Chain : (n : ℕ) → Chain (λ _. blank) (λ i. if i == 0 then 1 else 99 + i) n (places n)
stock-Chain zero = refl
stock-Chain (suc n) = (ground arith, stock-Chain n)

stock-FreeList : (n : ℕ) → n < 64 → FreeList (stock n) (places n)
stock-FreeList n lt = record {
  chain = stock-Chain n;
  head = lt;
  super = refl;
  apart = out-places 1 n (inl (omega arith));
  distinct = places-Distinct n;
  small = λ x m. omega (arith, has-places x n m);
}

balloc_some_example :
    (s' : Store) × (balloc (stock 2) ≡ ok (101, s'))
    × FreeList s' (100 ∷ [])
    × SameBlocks (1 ∷ []) (stock 2) s'
    × (s'.fs.iblkno ≡ 2)
balloc_some_example = balloc_some (stock 2) 101 (100 ∷ []) (stock-FreeList 2 (omega arith))

bfree-FreeList_example :
    FreeList (bfree 50 (stock 63)).1 (50 ∷ places 63)
    × SameBlocks (1 ∷ 50 ∷ []) (stock 63) (bfree 50 (stock 63)).1
    × ((bfree 50 (stock 63)).0 < 2)
bfree-FreeList_example =
    bfree-FreeList (stock 63) 50 (places 63) (stock-FreeList 63 (omega arith)) (omega arith) refl
      (omega arith)

bfree-boot_example : SameSuper (boot (bfree 50 (stock 2)).1.disk) (bfree 50 (stock 2)).1.fs
bfree-boot_example =
    bfree-boot 50 (stock 2) refl
      (record {
        sblkno = omega arith;
        size = omega arith;
        iblkno = omega arith;
        isize = omega arith;
        dblkno = omega arith;
        dsize = omega arith;
        fdbhead = omega arith;
        fdb = λ i lt. ground arith;
        fil = λ i lt. omega arith;
      })
      (omega arith)

abbrev empty_file : Inode
empty_file = record {
  number = 3;
  links = 1;
  ic = record { mode = ifreg; size = 0; db = blank; ib = blank };
}

read_inode-write_inode_example :
    SameIc (read_inode empty_file 3 (write_inode empty_file (stock 2))).ic empty_file.ic
read_inode-write_inode_example = read_inode-write_inode empty_file empty_file 3 (stock 2) (record {
  mode = omega arith;
  size = omega arith;
  db = λ k lt. omega arith;
  ib = λ k lt. omega arith;
})

get_free_inode-FirstZero_example :
    ((ino : ℕ) × (inode : Inode) × (get_free_inode empty_file (stock 2) ≡ some inode)
      × Started empty_file ino inode
      × FirstZero (disk_mode (stock 2)) 0 8 (some ino))
    ⊎ ((get_free_inode empty_file (stock 2) ≡ none) × FirstZero (disk_mode (stock 2)) 0 8 none)
get_free_inode-FirstZero_example = get_free_inode-FirstZero empty_file (stock 2)

allocate-Allocated_example :
    (inode' : Inode) × (s' : Store) × (allocate_data_block_addr (11 * 512) empty_file (stock 2)
      ≡ ok (some 101, inode', s'))
    × Allocated empty_file 11 101 (stock 2) [] inode' s'
allocate-Allocated_example =
    allocate-Allocated empty_file (11 * 512) 101 100 (stock 2) [] (omega arith)
      (stock-FreeList 2 (omega arith)) refl (λ lo. absurd (omega arith))

abbrev with_table : Inode
with_table = record {
  number = 3;
  links = 1;
  ic = record { mode = ifreg; size = 6144; db = blank; ib = λ _. 70 };
}

bfree_table-addr_example : addr_of_blk with_table 12 (bfree 70 (stock 63)).1 ≡ 100
bfree_table-addr_example =
    bfree_table-addr with_table 1 (stock 63) (places 63) (stock-FreeList 63 (omega arith))
      (omega arith) (λ e. ground arith) (omega arith)
