-- ===== src/Fs/Blockmap/Allocate.antt =====
-- allocateDataBlockAddr and getDataBlockAddr of kernel/kernel.c agree: a block that is allocated is
-- the one that is found, and those before it are found as before.
pub mod Double
use arm_kernel.Base.{
  ℕ, ◌+◌, ◌-◌, ◌/◌, ◌^◌, ◌≤◌, ◌<◌, ◌≡◌, ◌∙◌, ap, sym, refl, inl, inr, false, arith, ltb, ◌==◌,
  if◌then◌else◌, ok, List, [], ◌∷◌, has, Bool-cases, lt→ltb, ltb→lt, ltb→le, le→ltb, ne→==, ==→eq,
  ==→ne, some, not-has_tail, not-has_head, not-has-cons, has_head, eq_refl,
}
use arm_kernel.Base.Words.{neg1}
use arm_kernel.Fs.Disk.{
  block_size, disk_wr, word, set_word, word-set_word, read-wr, disk_wr-other, word-disk_rd,
}
use arm_kernel.Fs.Alloc.{Store}
use arm_kernel.Fs.Alloc.FreeList.{FreeList, SameBlocks, balloc_some, FreeList-disk, ne_of_has}
use arm_kernel.Fs.Inode.{Inode, ndaddr, write_inode}
use arm_kernel.Fs.Blockmap.{
  end_single, read_block, addr_of_blk, try_balloc, with_db, with_ib, put_db, put_ib, put_entry,
  root_table, place, allocate_data_block_addr,
}

-- The block of the inode on disk.
abbrev pub home : Inode → Store → ℕ
home inode s = s.fs.iblkno + inode.number / 8

try_balloc-some :
    (inode : Inode) (s : Store) (x : ℕ) (xs : List ℕ)
    → FreeList s (x ∷ xs)
    → (s' : Store) × (try_balloc inode s ≡ ok (some x, inode, s'))
      × FreeList s' xs
      × SameBlocks (1 ∷ []) s s'
      × (s'.fs.iblkno ≡ s.fs.iblkno)
unfolding try_balloc
try_balloc-some inode s x xs f =
    let (s', run, f', same, home) = balloc_some s x xs f in
    (s', rw run (rw (ne→== x neg1 (omega (arith, f.small x (has_head x xs))))), f', same, home)

-- Writing an inode whose block is not free, and an entry of a table that is not free.
pub write_inode-FreeList :
    (inode : Inode) (s : Store) (xs : List ℕ)
    → has (home inode s) xs ≡ false
    → FreeList s xs
    → FreeList (write_inode inode s) xs
unfolding write_inode
write_inode-FreeList inode s xs out = FreeList-disk s _ xs (λ x m.
    disk_wr-other (home inode s) x block_size _ s.disk (ne_of_has x (home inode s) xs m out))

abbrev entered : ℕ → ℕ → ℕ → Store → Store
entered t i a s = record s { disk = disk_wr t (set_word (read_block s t) i a) block_size s.disk }

entered-FreeList :
    (t i a : ℕ) (s : Store) (xs : List ℕ)
    → has t xs ≡ false
    → FreeList s xs
    → FreeList (entered t i a s) xs
entered-FreeList t i a s xs out =
    FreeList-disk s _ xs (λ x m. disk_wr-other t x block_size _ s.disk (ne_of_has x t xs m out))

-- The entry is read back, and the others are as they were.
entered-word :
    (t i j a : ℕ) (s : Store)
    → a < 2 ^ 32
    → j < 128
    → word (read_block (entered t i a s) t) j ≡ (if i == j then a else word (read_block s t) j)
entered-word t i j a s small lt =
    read-wr t t j (set_word (read_block s t) i a) s.disk lt
    ∙ rw (eq_refl t) (word-set_word (read_block s t) i j a small)

-- A block that was not written reads as before.
read-same :
    (t j : ℕ) (s s' : Store)
    → j < 128
    → s'.disk t ≡ s.disk t
    → word (read_block s' t) j ≡ word (read_block s t) j
read-same t j s s' lt e =
    word-disk_rd t j (λ _. 0) s'.disk lt
    ∙ ap (λ b. word b j) e
    ∙ sym (word-disk_rd t j (λ _. 0) s.disk lt)

-- What an allocation of block number `blk` at address `x` achieves, with `ys` left free.
pub record Allocated (inode : Inode) (blk x : ℕ) (s : Store) (ys : List ℕ) (inode' : Inode)
    (s' : Store) : Type 0 where
  pub found : addr_of_blk inode' blk s' ≡ x
  pub before : (j : ℕ) → j < blk → addr_of_blk inode' j s' ≡ addr_of_blk inode j s
  pub left : FreeList s' ys

pub addr_direct :
    (inode : Inode) (j : ℕ) (s : Store) → j < ndaddr → addr_of_blk inode j s ≡ inode.ic.db j
unfolding addr_of_blk
addr_direct inode j s lt = rw (lt→ltb j ndaddr lt)

pub addr_single :
    (inode : Inode) (j : ℕ) (s : Store)
    → ndaddr ≤ j
    → j < end_single
    → addr_of_blk inode j s ≡ word (read_block s (inode.ic.ib 0)) (j - ndaddr)
unfolding addr_of_blk
addr_single inode j s le lt = rw (le→ltb j ndaddr le, lt→ltb j end_single lt)

place_direct :
    (inode : Inode) (blk x : ℕ) (s t : Store) (ys : List ℕ)
    → blk < ndaddr
    → has (home inode t) ys ≡ false
    → FreeList t ys
    → (inode' : Inode) × (s' : Store) × (place blk x inode t ≡ ok (some tt, inode', s'))
      × Allocated inode blk x s ys inode' s'
unfolding place put_db
place_direct inode blk x s t ys lt out f =
    let new = with_db blk x inode in
    (
      new,
      write_inode new t,
      rw (lt→ltb blk ndaddr lt),
      record {
        found = addr_direct new blk (write_inode new t) lt ∙ ground arith;
        before = λ j jlt.
            addr_direct new j (write_inode new t) (omega arith)
            ∙ ground arith
            ∙ sym (addr_direct inode j s (omega arith));
        left = write_inode-FreeList new t ys out f;
      },
    )

-- A later block of the single indirect table, which is not free and not the superblock.
place_single :
    (inode : Inode) (blk x : ℕ) (s t : Store) (ys : List ℕ)
    → ndaddr < blk
    → blk < end_single
    → x < 2 ^ 32
    → t.disk (inode.ic.ib 0) ≡ s.disk (inode.ic.ib 0)
    → has (inode.ic.ib 0) ys ≡ false
    → FreeList t ys
    → (inode' : Inode) × (s' : Store) × (place blk x inode t ≡ ok (some tt, inode', s'))
      × Allocated inode blk x s ys inode' s'
unfolding place put_entry root_table
place_single inode blk x s t ys lo hi small same out f =
    let tab = inode.ic.ib 0 in
    let s' = entered tab (blk - ndaddr) x t in
    (
      inode,
      s',
      rw (
        le→ltb blk ndaddr (omega arith),
        lt→ltb blk end_single hi,
        ne→== (blk - ndaddr) 0 (omega arith),
      ),
      record {
        found =
            addr_single inode blk s' (omega arith) hi
            ∙ entered-word tab (blk - ndaddr) (blk - ndaddr) x t small (omega arith)
            ∙ rw (eq_refl (blk - ndaddr));
        before = λ j jlt. elim (Bool-cases (ltb j ndaddr)) [
          | inl direct ↦
              let lt = ltb→lt j ndaddr direct in
              addr_direct inode j s' lt ∙ sym (addr_direct inode j s lt)
          | inr single ↦
              let le = ltb→le j ndaddr single in
              addr_single inode j s' le (omega arith)
              ∙ entered-word tab (blk - ndaddr) (j - ndaddr) x t small (omega arith)
              ∙ rw (ne→== (blk - ndaddr) (j - ndaddr) (omega arith))
                  (read-same tab (j - ndaddr) s t (omega arith) same)
              ∙ sym (addr_single inode j s le (omega arith))
        ];
        left = entered-FreeList tab (blk - ndaddr) x t ys out f;
      },
    )

-- The first block of the table, for which `y` becomes the table.
place_first :
    (inode : Inode) (x y : ℕ) (s t : Store) (ys : List ℕ)
    → x < 2 ^ 32
    → has (home inode t) (y ∷ ys) ≡ false
    → FreeList t (y ∷ ys)
    → (inode' : Inode) × (s' : Store) × (place ndaddr x inode t ≡ ok (some tt, inode', s'))
      × Allocated inode ndaddr x s ys inode' s'
unfolding place put_entry root_table put_ib
place_first inode x y s t ys small out f =
    let (u, run, f', same, kept) = try_balloc-some inode t y ys f in
    let new = with_ib 0 y inode in
    let u' = write_inode new u in
    let s' = entered y 0 x u' in
    (
      new,
      s',
      rw run,
      record {
        found =
            addr_single new ndaddr s' (omega arith) (omega arith)
            ∙ entered-word y 0 0 x u' small (omega arith);
        before = λ j jlt. addr_direct new j s' jlt ∙ sym (addr_direct inode j s jlt);
        left =
            entered-FreeList y 0 x u' ys f.distinct.0
              (write_inode-FreeList new u ys (rw kept (not-has_tail (home inode t) y ys out)) f');
      },
    )

-- The free blocks behind an allocation of block number `blk`: the table takes one too.
abbrev pub still_free : ℕ → ℕ → List ℕ → List ℕ
still_free blk y ys = if blk == ndaddr then ys else y ∷ ys

place-Allocated :
    (inode : Inode) (blk x y : ℕ) (s t : Store) (ys : List ℕ)
    → blk < end_single
    → x < 2 ^ 32
    → has (home inode t) (y ∷ ys) ≡ false
    → (ndaddr < blk → has (inode.ic.ib 0) (y ∷ ys) ≡ false)
    → (ndaddr < blk → t.disk (inode.ic.ib 0) ≡ s.disk (inode.ic.ib 0))
    → FreeList t (y ∷ ys)
    → (inode' : Inode) × (s' : Store) × (place blk x inode t ≡ ok (some tt, inode', s'))
      × Allocated inode blk x s (still_free blk y ys) inode' s'
place-Allocated inode blk x y s t ys hi small out table same f =
    elim (Bool-cases (ltb blk ndaddr)) [
      | inl direct ↦
          let lt = ltb→lt blk ndaddr direct in
          rw (ne→== blk ndaddr (omega arith)) (place_direct inode blk x s t (y ∷ ys) lt out f)
      | inr single ↦ elim (Bool-cases (blk == ndaddr)) [
        | inl first ↦
            let e = ==→eq blk ndaddr first in rw e (place_first inode x y s t ys small out f)
        | inr later ↦
            let lo : ndaddr < blk =
              omega (arith, ltb→le blk ndaddr single, ==→ne blk ndaddr later) in
            rw later (place_single inode blk x s t (y ∷ ys) lo hi small (same lo) (table lo) f)
      ]
    ]

allocate_step :
    (byte x : ℕ) (inode inode' : Inode) (s t s' : Store)
    → try_balloc inode s ≡ ok (some x, inode, t)
    → place (byte / block_size) x inode t ≡ ok (some tt, inode', s')
    → allocate_data_block_addr byte inode s ≡ ok (some x, inode', s')
unfolding allocate_data_block_addr
allocate_step byte x inode inode' s t s' first second = rw first (rw second)

-- With two free blocks, an allocation of a direct block or a block of the single indirect table
-- succeeds: it gives the first free block, getDataBlockAddr then finds that block there, finds every
-- earlier block where it was, and the other free blocks are still free, less the table's own. The
-- inode's block on disk, and the table once it is in use, must not be free or the superblock.
pub allocate-Allocated :
    (inode : Inode) (byte x y : ℕ) (s : Store) (ys : List ℕ)
    → byte / block_size < end_single
    → FreeList s (x ∷ y ∷ ys)
    → has (home inode s) (x ∷ y ∷ ys) ≡ false
    → (ndaddr < byte / block_size → has (inode.ic.ib 0) (1 ∷ x ∷ y ∷ ys) ≡ false)
    → (inode' : Inode) × (s' : Store) × (allocate_data_block_addr byte inode s
        ≡ ok (some x, inode', s'))
      × Allocated inode (byte / block_size) x s (still_free (byte / block_size) y ys) inode' s'
allocate-Allocated inode byte x y s ys hi f out table =
    let (t, first, f', same, kept) = try_balloc-some inode s x (y ∷ ys) f in
    let (inode', s', second, a) =
      place-Allocated inode (byte / block_size) x y s t ys hi
        (omega (arith, f.small x (has_head x (y ∷ ys))))
        (ap (λ n. has (n + inode.number / 8) (y ∷ ys)) kept
          ∙ not-has_tail (home inode s) x (y ∷ ys) out)
        (λ lo.
          not-has_tail (inode.ic.ib 0) x (y ∷ ys)
            (not-has_tail (inode.ic.ib 0) 1 (x ∷ y ∷ ys) (table lo)))
        (λ lo. same (inode.ic.ib 0) (
          not-has-cons (inode.ic.ib 0) 1 [] (not-has_head (inode.ic.ib 0) 1 (x ∷ y ∷ ys) (table lo))
            refl))
        f' in
    (inode', s', allocate_step byte x inode inode' s t s' first second, a)
