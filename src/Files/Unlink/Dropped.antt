-- ===== src/Files/Unlink/Dropped.antt =====
-- remove of kernel/kernel.c takes one entry out of a directory: the last entry comes in its place.
use arm_kernel.Base.{
  ℕ, ◌+◌, ◌-◌, ◌*◌, ◌/◌, ◌%◌, ◌≤◌, ◌<◌, ◌≡◌, ◌≢◌, ◌∙◌, ap, sym, refl, subst, List, has, ne→==,
  memcpy, ◌==◌, if◌then◌else◌, inl, inr, Bool-cases, arith, eq_refl, true, false, ==→eq, ==→ne,
}
use arm_kernel.Base.Words.{sub32}
use arm_kernel.Fs.Disk.{block_size, Block, Disk, disk_wr, disk_rd, disk_wr-other, disk_wr_self}
use arm_kernel.Fs.Alloc.{Store}
use arm_kernel.Fs.Alloc.FreeList.{FreeList, FreeList-disk, ne_of_has}
use arm_kernel.Fs.Inode.{Inode, Icommon, ndaddr, ic_of, read_inode, write_inode}
use arm_kernel.Fs.Inode.Stored.{IsWords, SameIc, read_inode-write_inode}
use arm_kernel.Fs.Blockmap.{get_data_block_addr, read_block}
use arm_kernel.Fs.Blockmap.Allocate.{addr_direct, home, write_inode-FreeList}
use arm_kernel.Fs.Dirs.{blank_inode, set_dirent, dir_block}
use arm_kernel.Fs.Dirs.Insert.{read_block-inside}
use arm_kernel.Files.Unlink.{get_last_dir, drop_entry}

-- A directory of `m` entries in direct blocks, each another one, that are not the block of its inode,
-- and none of which is free.
pub record IsDirectory (par : Inode) (m : ℕ) (s : Store) (xs : List ℕ) : Type 0 where
  pub words : IsWords par.ic
  pub size : par.ic.size ≡ 32 * m
  pub direct : m ≤ 16 * ndaddr
  pub distinct : (i j : ℕ) → 16 * i < m → 16 * j < m → i ≢ j → par.ic.db i ≢ par.ic.db j
  pub apart : (i : ℕ) → 16 * i < m → par.ic.db i ≢ home par s
  pub taken : (i : ℕ) → 16 * i < m → has (par.ic.db i) xs ≡ false
  pub home_taken : has (home par s) xs ≡ false

-- Byte `b` of entry `k`, of 32 bytes.
abbrev pub entry_byte : Inode → (k : ℕ) → Store → (b : ℕ) → ℕ
entry_byte par k s b = dir_block par (k / 16) s (32 * (k % 16) + b)

abbrev pub shorter : Inode → Inode
shorter par = record par { ic = record (par.ic) { size = sub32 par.ic.size 32 } }

-- Entry `n` is gone: the last one of `m` stands in its place, and each other where it was; the size on
-- the disk is that of one entry less.
pub record Dropped (par : Inode) (n m : ℕ) (s s' : Store) : Type 0 where
  pub size : (read_inode blank_inode par.number s').ic.size ≡ 32 * (m - 1)
  pub entries :
      (k b : ℕ)
      → k < m - 1
      → b < 32
      → entry_byte (shorter par) k s' b
        ≡ (if k == n then entry_byte par (m - 1) s b else entry_byte par k s b)

read_inode-disk :
    (ino : ℕ) (s : Store) (d : Disk)
    → d (s.fs.iblkno + ino / 8) ≡ s.disk (s.fs.iblkno + ino / 8)
    → read_inode blank_inode ino (record s { disk = d }) ≡ read_inode blank_inode ino s
unfolding read_inode disk_rd
read_inode-disk ino s d e = ap of_block e
  where
    of_block : Block → Inode
    of_block b = record {
      number = ino;
      links = 0;
      ic = ic_of (memcpy (λ _. 0) b block_size) (ino % 8);
    }

module _ (par : Inode) (n m : ℕ) (s : Store) (xs : List ℕ) where
  module _ (dir : IsDirectory par m s xs) (inside : n < m) where
    addr_of :
        (p : Inode) (t : Store) (i byte : ℕ)
        → p.ic.db i ≡ par.ic.db i
        → 16 * i < m
        → byte / block_size ≡ i
        → get_data_block_addr p byte t ≡ par.ic.db i
    unfolding get_data_block_addr
    addr_of p t i byte same lt e = rw e (addr_direct p i t (omega (arith, dir.direct, lt)) ∙ same)

    -- The block that is written.
    abbrev block : Block
    block =
        set_dirent (dir_block par (n / 16) s) (n % 16) (read_block s (par.ic.db ((m - 1) / 16)))
          ((m - 1) % 16)

    abbrev after : Store
    after =
        write_inode (shorter par)
          (record s { disk = disk_wr (par.ic.db (n / 16)) block block_size s.disk })

    drop_entry_lem : drop_entry (n / 16) (n % 16) par s ≡ after
    unfolding drop_entry get_last_dir
    drop_entry_lem =
        let less : sub32 par.ic.size 32 ≡ 32 * (m - 1) =
          omega (arith, dir.size, dir.direct, inside) in
        let place : sub32 (par.ic.size / 32) 1 % 16 ≡ (m - 1) % 16 =
          omega (arith, dir.size, dir.direct, inside) in
        let last =
          addr_of par s ((m - 1) / 16) (sub32 par.ic.size 32) refl (omega (arith, inside))
            (omega (arith, less)) in
        let first =
          addr_of par s (n / 16) (block_size * (n / 16)) refl (omega (arith, inside))
            (omega arith) in
        rw (last, first, place) refl

    pub dir_block-read :
        (p : Inode) (t : Store) (i : ℕ)
        → p.ic.db i ≡ par.ic.db i
        → 16 * i < m
        → dir_block p i t ≡ read_block t (par.ic.db i)
    dir_block-read p t i same lt =
        ap (read_block t) (addr_of p t i (block_size * i) same lt (omega arith))

    -- A byte of the directory behind the write.
    byte_after :
        (i j : ℕ)
        → 16 * i < m
        → j < block_size
        → dir_block (shorter par) i after j
          ≡ disk_wr (par.ic.db (n / 16)) block block_size s.disk (par.ic.db i) j
    unfolding write_inode
    byte_after i j lt small =
        ap (λ b. b j) (dir_block-read (shorter par) after i refl lt)
        ∙ read_block-inside after (par.ic.db i) j small
        ∙ ap (λ b. b j) (disk_wr-other (home par s) (par.ic.db i) block_size _ _ (dir.apart i lt))

    byte_before :
        (i j : ℕ) → 16 * i < m → j < block_size → dir_block par i s j ≡ s.disk (par.ic.db i) j
    byte_before i j lt small =
        ap (λ b. b j) (dir_block-read par s i refl lt) ∙ read_block-inside s (par.ic.db i) j small

    -- In the block of the entry that goes.
    in_block :
        (k b : ℕ)
        → k < m - 1
        → b < 32
        → n / 16 ≡ k / 16
        → block (32 * (k % 16) + b)
          ≡ (if k == n then entry_byte par (m - 1) s b else entry_byte par k s b)
    unfolding set_dirent
    in_block k b lt small same =
        let slot : (32 * (k % 16) + b) / 32 ≡ k % 16 = omega (arith, small) in
        let byte : (32 * (k % 16) + b) % 32 ≡ b = omega (arith, small) in
        elim (Bool-cases (k == n)) [
          | inl e ↦
              let eq : k ≡ n = ==→eq k n e in
              let here : (k % 16 == n % 16) ≡ true = ground (arith, ap (λ x. x % 16) eq) in
              rw (slot, byte, e, here)
                (sym (
                  ap (λ x. x (32 * ((m - 1) % 16) + b))
                    (dir_block-read par s ((m - 1) / 16) refl (omega (arith, inside)))))
          | inr e ↦
              let ne = ==→ne k n e in
              let apart : k % 16 ≢ n % 16 = λ r. ne (omega (arith, r, same)) in
              let away : (k % 16 == n % 16) ≡ false = ground (arith, apart) in
              rw (slot, e, away) (ap (λ i. dir_block par i s (32 * (k % 16) + b)) same)
        ]

    entry_after :
        (k b : ℕ)
        → k < m - 1
        → b < 32
        → entry_byte (shorter par) k after b
          ≡ (if k == n then entry_byte par (m - 1) s b else entry_byte par k s b)
    entry_after k b lt small =
        let j = 32 * (k % 16) + b in
        let within : j < block_size = omega (arith, small) in
        let in_dir : 16 * (k / 16) < m = omega (arith, lt) in
        byte_after (k / 16) j in_dir within ∙ elim (Bool-cases (n / 16 == k / 16)) [
          | inl e ↦
              let same : n / 16 ≡ k / 16 = ==→eq (n / 16) (k / 16) e in
              ap (λ i. disk_wr (par.ic.db (n / 16)) block block_size s.disk (par.ic.db i) j)
                (sym same)
              ∙ disk_wr_self (par.ic.db (n / 16)) j block_size block s.disk within
              ∙ in_block k b lt small same
          | inr e ↦
              let ne = ==→ne (n / 16) (k / 16) e in
              let other : (k == n) ≡ false =
                ground (arith, λ (q : k ≡ n). ne (ap (λ x. x / 16) (sym q))) in
              ap (λ x. x j)
                (disk_wr-other (par.ic.db (n / 16)) (par.ic.db (k / 16)) block_size block s.disk
                  (dir.distinct (k / 16) (n / 16) in_dir (omega (arith, inside)) (λ q. ne (sym q))))
              ∙ sym (byte_before (k / 16) j in_dir within)
              ∙ rw other refl
        ]

    shorter-IsWords : IsWords (shorter par).ic
    shorter-IsWords = record {
      mode = dir.words.mode;
      size = omega arith;
      db = dir.words.db;
      ib = dir.words.ib;
    }

    -- Any inode behind the removal, in a block that is none of the directory.
    pub inode_after :
        (ino : ℕ)
        → par.ic.db (n / 16) ≢ s.fs.iblkno + ino / 8
        → SameIc
            (read_inode blank_inode ino after).ic
            (if ino == par.number then (shorter par).ic else (read_inode blank_inode ino s).ic)
    inode_after ino apart =
        subst
          (λ (ic : Icommon).
            SameIc (read_inode blank_inode ino after).ic
              (if ino == par.number then (shorter par).ic else ic))
          (ap (λ (i : Inode). i.ic)
            (read_inode-disk ino s (disk_wr (par.ic.db (n / 16)) block block_size s.disk) (
              disk_wr-other (par.ic.db (n / 16)) (s.fs.iblkno + ino / 8) block_size block s.disk
                (λ e. apart (sym e)))))
          (read_inode-write_inode (shorter par) blank_inode ino
            (record s { disk = disk_wr (par.ic.db (n / 16)) block block_size s.disk })
            shorter-IsWords)

    pub drop_entry-Dropped : Dropped par n m s (drop_entry (n / 16) (n % 16) par s)
    drop_entry-Dropped = rw drop_entry_lem (record {
      size =
          (rw (eq_refl par.number) at
            (inode_after par.number (dir.apart (n / 16) (omega (arith, inside))))).size
          ∙ omega (arith, dir.size, dir.direct, inside);
      entries = entry_after;
    })

    pub drop_entry-FreeList : FreeList s xs → FreeList (drop_entry (n / 16) (n % 16) par s) xs
    drop_entry-FreeList f = rw drop_entry_lem (
        write_inode-FreeList (shorter par)
          (record s { disk = disk_wr (par.ic.db (n / 16)) block block_size s.disk }) xs
          dir.home_taken
          (FreeList-disk s (disk_wr (par.ic.db (n / 16)) block block_size s.disk) xs
            (λ x m.
              disk_wr-other (par.ic.db (n / 16)) x block_size block s.disk (
                ne_of_has x (par.ic.db (n / 16)) xs m (dir.taken (n / 16) (omega (arith, inside)))))
            f))

    pub drop_entry-SameIc :
        (ino : ℕ)
        → par.ic.db (n / 16) ≢ s.fs.iblkno + ino / 8
        → ino ≢ par.number
        → SameIc
            (read_inode blank_inode ino (drop_entry (n / 16) (n % 16) par s)).ic
            (read_inode blank_inode ino s).ic
    drop_entry-SameIc ino apart ne =
        rw drop_entry_lem (rw (ne→== ino par.number ne) at (inode_after ino apart))

    pub drop_entry-iblkno : (drop_entry (n / 16) (n % 16) par s).fs.iblkno ≡ s.fs.iblkno
    unfolding write_inode
    drop_entry-iblkno = ap (λ (t : Store). t.fs.iblkno) drop_entry_lem
