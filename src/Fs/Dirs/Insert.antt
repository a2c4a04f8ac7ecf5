-- ===== src/Fs/Dirs/Insert.antt =====
-- addInodeToDirectory of kernel/kernel.c against name_to_ino: a name that is added is found.
use arm_kernel.Base.{
  ℕ, ◌+◌, ◌*◌, ◌/◌, ◌%◌, ◌^◌, ◌≤◌, ◌<◌, ◌≡◌, ◌≢◌, ◌∙◌, ap, sym, refl, true, false, List, Option,
  none, some, ltb, leb, ◌==◌, length, inl, inr, Bool-cases, arith, lt→ltb, le→ltb, ne→==, ==→eq,
  ltb→lt, ltb→le, fun_ext, First, ok, memcpy,
}
use arm_kernel.Base.Words.{add32}
use arm_kernel.Fs.Disk.{block_size, Block, disk_wr, disk_rd, disk_wr-other, disk_wr_self}
use arm_kernel.Fs.Alloc.{Store}
use arm_kernel.Fs.Inode.{ndaddr, Inode, write_inode}
use arm_kernel.Fs.Blockmap.{read_block, get_data_block_addr}
use arm_kernel.Fs.Blockmap.Allocate.{home, addr_direct}
use arm_kernel.Fs.Dirs.{
  dirent_of, dir_block, dirs, matches, put_dirent, new_dir_block, name_to_ino,
  add_inode_to_directory,
}
use arm_kernel.Fs.Dirs.Lookup.{entry, named, visible, ino_of, name_to_ino-First}
use arm_kernel.Fs.Dirs.Entries.{put_dirent-Entered, matches-same}

-- A directory of `n` entries with room in its last block, which is direct; its blocks are not the
-- one that the inode lies in, and the last is none of the others.
pub record Room (par : Inode) (n : ℕ) (s : Store) : Type 0 where
  pub size : par.ic.size ≡ 32 * n
  pub begun : n % 16 ≢ 0
  pub direct : n < 16 * ndaddr
  pub last : (i : ℕ) → i < n / 16 → par.ic.db i ≢ par.ic.db (n / 16)
  pub apart : (i : ℕ) → i ≤ n / 16 → par.ic.db i ≢ home par s
  pub lengths : (k : ℕ) → k < n → (entry par k s).namlen ≤ 26

abbrev pub grown : Inode → Inode
grown par = record par { ic = record (par.ic) { size = add32 par.ic.size 32 } }

-- Two blocks that agree on an entry.
abbrev SameEntry : Block → Block → ℕ → Type 0
SameEntry b c r = (i : ℕ) → i / 32 ≡ r → b i ≡ c i

same_namlen :
    (b c : Block) (r : ℕ) → SameEntry b c r → (dirent_of b r).namlen ≡ (dirent_of c r).namlen
unfolding dirent_of
same_namlen b c r same =
    ground (arith, same (32 * r + 4) (omega arith), same (32 * r + 5) (omega arith))

same_name :
    (b c : Block) (r : ℕ)
    → SameEntry b c r
    → (i : ℕ) → i < 26
    → (dirent_of b r).name i ≡ (dirent_of c r).name i
unfolding dirent_of
same_name b c r same i lt = same (32 * r + 6 + i) (omega arith)

-- What a block reads as.
pub read_block-same : (t s : Store) (a : ℕ) → t.disk a ≡ s.disk a → read_block t a ≡ read_block s a
unfolding disk_rd
read_block-same t s a e = ap (λ b. memcpy (λ _. 0) b block_size) e

pub read_block-inside : (s : Store) (a j : ℕ) → j < block_size → read_block s a j ≡ s.disk a j
unfolding disk_rd
read_block-inside s a j lt = rw (lt→ltb j block_size lt)

read_block-outside : (s : Store) (a j : ℕ) → block_size ≤ j → read_block s a j ≡ 0
unfolding disk_rd
read_block-outside s a j le = rw (le→ltb j block_size le)

module _ (par : Inode) (n : ℕ) (s : Store) (room : Room par n s) (ino : ℕ) (name : List ℕ) where
  abbrev last_block : Block
  last_block = read_block s (par.ic.db (n / 16))

  abbrev new_block : Block
  new_block = put_dirent last_block (n % 16) ino name

  abbrev after : Store
  after =
      write_inode (grown par)
        (record s { disk = disk_wr (par.ic.db (n / 16)) new_block block_size s.disk })

  block_addr :
      (p : Inode) (t : Store) (i byte : ℕ)
      → p.ic.db i ≡ par.ic.db i
      → i ≤ n / 16
      → byte / block_size ≡ i
      → get_data_block_addr p byte t ≡ par.ic.db i
  unfolding get_data_block_addr
  block_addr p t i byte same le e = rw e (addr_direct p i t (omega (arith, room.direct)) ∙ same)

  added_run : length name ≤ 26 → add_inode_to_directory par ino name s ≡ ok (grown par, after)
  unfolding add_inode_to_directory new_dir_block
  added_run short =
      let r : par.ic.size / 32 % 16 ≡ n % 16 = omega (arith, room.size) in
      let addr =
        block_addr par s (n / 16) par.ic.size refl (omega arith) (omega (arith, room.size)) in
      let fits : leb (32 * (n % 16) + 6 + length name) block_size ≡ true = ground arith in
      rw (r, ne→== (n % 16) 0 room.begun, addr, fits)

  -- The blocks of the directory behind the insertion.
  after-disk :
      (i : ℕ)
      → i ≤ n / 16
      → after.disk (par.ic.db i)
        ≡ disk_wr (par.ic.db (n / 16)) new_block block_size s.disk (par.ic.db i)
  unfolding write_inode
  after-disk i le = disk_wr-other (home par s) (par.ic.db i) block_size _ _ (room.apart i le)

  dir_block-after :
      (i : ℕ) → i ≤ n / 16 → dir_block (grown par) i after ≡ read_block after (par.ic.db i)
  dir_block-after i le =
      ap (read_block after) (block_addr (grown par) after i (block_size * i) refl le (omega arith))

  earlier : (i : ℕ) → i < n / 16 → dir_block (grown par) i after ≡ dir_block par i s
  earlier i lt =
      dir_block-after i (omega arith)
      ∙ read_block-same after s (par.ic.db i) (
          after-disk i (omega arith)
          ∙ disk_wr-other (par.ic.db (n / 16)) (par.ic.db i) block_size new_block s.disk
              (room.last i lt))
      ∙ sym
          (ap (read_block s) (block_addr par s i (block_size * i) refl (omega arith) (omega arith)))

  last_one : ino < 2 ^ 32 → length name ≤ 26 → dir_block (grown par) (n / 16) after ≡ new_block
  last_one small short =
      dir_block-after (n / 16) (omega arith)
      ∙ fun_ext λ j. elim (Bool-cases (ltb j block_size)) [
        | inl e ↦
            let lt = ltb→lt j block_size e in
            read_block-inside after (par.ic.db (n / 16)) j lt
            ∙ ap (λ b. b j) (after-disk (n / 16) (omega arith))
            ∙ disk_wr_self (par.ic.db (n / 16)) j block_size new_block s.disk lt
        | inr e ↦
            let le = ltb→le j block_size e in
            read_block-outside after (par.ic.db (n / 16)) j le
            ∙ sym (read_block-outside s (par.ic.db (n / 16)) j le)
            ∙ sym (
                (put_dirent-Entered last_block (n % 16) ino name small short).others j
                  (omega arith))
      ]

  -- The entries that were there.
  old_entry :
      (k : ℕ)
      → k < n
      → ino < 2 ^ 32
      → length name ≤ 26
      → named name (grown par) after k ≡ named name par s k
  old_entry k lt small short = elim (Bool-cases (k / 16 == n / 16)) [
    | inr e ↦ ap (λ b. matches name (dirent_of b (k % 16))) (earlier (k / 16) (ground arith))
    | inl e ↦
        let q : k / 16 ≡ n / 16 = ==→eq (k / 16) (n / 16) e in
        let here : dir_block par (k / 16) s ≡ last_block = ap (read_block s) (
          block_addr par s (k / 16) (block_size * (k / 16)) refl (omega arith) (omega arith)
          ∙ ap par.ic.db q) in
        let spared = (put_dirent-Entered last_block (n % 16) ino name small short).others in
        ap (λ i. matches name (dirent_of (dir_block (grown par) i after) (k % 16))) q
        ∙ ap (λ b. matches name (dirent_of b (k % 16))) (last_one small short)
        ∙ sym (
            ap (λ b. matches name (dirent_of b (k % 16))) here
            ∙ matches-same name (dirent_of last_block (k % 16)) (dirent_of new_block (k % 16)) short
                (rw here at (room.lengths k lt))
                (same_namlen last_block new_block (k % 16) (λ i near. sym (spared i (omega arith))))
                (same_name last_block new_block (k % 16) (λ i near. sym (spared i (omega arith)))))
  ]

  new_entry :
      ino < 2 ^ 32
      → length name ≤ 26
      → (named name (grown par) after n ≡ true) × ((entry (grown par) n after).ino ≡ ino)
  new_entry small short =
      let e = put_dirent-Entered last_block (n % 16) ino name small short in
      let b = last_one small short in
      (
        ap (λ b. matches name (dirent_of b (n % 16))) b ∙ e.name,
        ap (λ b. (dirent_of b (n % 16)).ino) b ∙ e.ino,
      )

-- In a directory whose blocks are direct and apart, and whose last block has room for two more
-- entries, a name of at most 26 characters that no entry has is added by addInodeToDirectory, and
-- found by name_to_ino with its inode number; the directory is then longer by that entry.
pub add_inode_to_directory-name_to_ino :
    (par : Inode) (n : ℕ) (s : Store) (ino : ℕ) (name : List ℕ)
    → Room par n s
    → (n + 1) % 16 ≢ 0
    → ino < 2 ^ 32
    → length name ≤ 26
    → ((k : ℕ) → k < n → named name par s k ≡ false)
    → (s' : Store) × (add_inode_to_directory par ino name s ≡ ok (grown par, s'))
      × (dirs (grown par) ≡ n + 1)
      × (name_to_ino name (grown par) s' ≡ ino)
add_inode_to_directory-name_to_ino par n s ino name room more small short fresh = (
  after par n s room ino name,
  added_run par n s room ino name short,
  count,
  found (name_to_ino-First name (grown par) (after par n s room ino name)),
)
  where
    count : dirs (grown par) ≡ n + 1
    count = ground (arith, room.size, room.direct)

    found :
        (o : Option ℕ) × First
            (named name (grown par) (after par n s room ino name))
            0
            (visible (dirs (grown par)))
            o
          × (name_to_ino name (grown par) (after par n s room ino name)
              ≡ ino_of (grown par) (after par n s room ino name) o)
        → name_to_ino name (grown par) (after par n s room ino name) ≡ ino
    found (none, f, e) =
        let here = new_entry par n s room ino name small short in
        absurd (ground (arith, here.0, f n (omega arith) (ground (arith, count))))
    found (some k, f, e) =
        let here = new_entry par n s room ino name small short in
        elim (Bool-cases (ltb k n)) [
          | inl before ↦
              let lt = ltb→lt k n before in
              absurd
                (ground (arith, f.2, old_entry par n s room ino name k lt small short, fresh k lt))
          | inr behind ↦
              let last : k ≡ n = no_later k f.3 f.1 (ltb→le k n behind) in
              e ∙ ap (λ j. (entry (grown par) j (after par n s room ino name)).ino) last ∙ here.1
        ]
      where
        no_later :
            (k : ℕ)
            → ((j : ℕ)
                → 0 ≤ j
                → j < k
                → named name (grown par) (after par n s room ino name) j ≡ false)
            → k < visible (dirs (grown par))
            → n ≤ k
            → k ≡ n
        no_later k none_before lt le = ground (arith, count)
