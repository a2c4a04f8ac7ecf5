-- ===== src/Fs/Dirs.antt =====
-- Directories of kernel/kernel.c: dir_t, name_to_ino, path_to_ino, path_to_ino2 and
-- addInodeToDirectory. A C string is the list of its characters, none of them 0. An inode_t that is
-- not initialised reads as 0.
pub mod Lookup
pub mod Paths
pub mod Resolve
pub mod Entries
pub mod Insert
mod Tests
use arm_kernel.Base.{
  ℕ, zero, suc, ◌+◌, ◌-◌, ◌*◌, ◌/◌, ◌%◌, ◌&&◌, Option, none, some, Bool, true, false, List, [], ◌∷◌,
  ltb, leb, ◌==◌, if◌then◌else◌, length, Run, ok, ◌>>=◌, ◌>>◌, check, first_where,
}
use arm_kernel.Base.Words.{neg1, add32, sub32, nonneg}
use arm_kernel.Fs.Disk.{block_size, Block, disk_wr, byte, word}
use arm_kernel.Fs.Alloc.{Store, balloc}
use arm_kernel.Fs.Inode.{ifzero, Icommon, Inode, read_inode, write_inode, get_free_inode}
use arm_kernel.Fs.Blockmap.{read_block, get_data_block_addr, allocate_data_block_addr, with_db}

-- dir_t.
pub record Dirent : Type 0 where
  pub ino : ℕ
  pub namlen : ℕ
  pub name : ℕ → ℕ

-- dir[ j ], of the sixteen that lie in a block. What follows the 26 characters of a name is the next
-- entry.
unfoldable pub dirent_of : Block → ℕ → Dirent
dirent_of b j = record {
  ino = word b (8 * j);
  namlen = b (32 * j + 4) + 256 * b (32 * j + 5);
  name = λ i. b (32 * j + 6 + i);
}

-- memcpy( &dir[ j ], &from[ r ], sizeof( dir_t ) )
unfoldable pub set_dirent : Block → ℕ → Block → ℕ → Block
set_dirent b j from r i = if i / 32 == j then from (32 * r + i % 32) else b i

-- A string with its null character.
abbrev pub cstr : List ℕ → ℕ → ℕ
cstr [] i = 0
cstr (c ∷ cs) i = if i == 0 then c else cstr cs (i - 1)

-- strncmp( a, b, n ) == 0
unfoldable pub strncmp_eq : ℕ → (ℕ → ℕ) → (ℕ → ℕ) → Bool
strncmp_eq zero a b = true
strncmp_eq (suc n) a b =
    let rest = strncmp_eq n (λ i. a (i + 1)) (λ i. b (i + 1)) in
    if a 0 == b 0 then (if a 0 == 0 then true else rest) else false

-- The test of the name, over the longer of the two lengths.
unfoldable pub matches : List ℕ → Dirent → Bool
unfolding strncmp_eq
matches name d =
    strncmp_eq (if leb (length name) d.namlen then d.namlen else length name) (cstr name) d.name

-- `dirs`, the number of entries; a negative size has none.
abbrev pub dirs : Inode → ℕ
dirs inode = if nonneg inode.ic.size then inode.ic.size / 32 else 0

-- getDataBlock of byte BLOCK_SIZE * i
abbrev pub dir_block : Inode → ℕ → Store → Block
dir_block inode i s = read_block s (get_data_block_addr inode (block_size * i) s)

-- The first of the first `n` entries of block `i` that has the name.
unfoldable pub find_in_block : ℕ → ℕ → List ℕ → Inode → Store → Option ℕ
unfolding matches
find_in_block n i name inode s =
    first_where n 0 (λ j. matches name (dirent_of (dir_block inode i s) j))

-- The loop over the whole blocks from `i` on, and the last block behind it.
unfoldable pub find_entry : ℕ → ℕ → ℕ → List ℕ → Inode → Store → ℕ
unfolding find_in_block
find_entry zero i r name inode s = elim (find_in_block r i name inode s) [
  | some j ↦ (dirent_of (dir_block inode i s) j).ino
  | none ↦ neg1
]
find_entry (suc rounds) i r name inode s =
    let rest = find_entry rounds (i + 1) r name inode s in
    elim (find_in_block 16 i name inode s) [
      | some j ↦ (dirent_of (dir_block inode i s) j).ino
      | none ↦ rest
    ]

-- Of the last block the first `dirs % 16` entries are looked at.
unfoldable pub name_to_ino : List ℕ → Inode → Store → ℕ
unfolding find_entry
name_to_ino name inode s =
    if ltb 0 (dirs inode)
    then find_entry ((dirs inode - 1) / 16) 0 (dirs inode % 16) name inode s
    else neg1

-- A local inode_t before it is filled.
abbrev pub blank_inode : Inode
blank_inode = record {
  number = 0;
  links = 0;
  ic = record { mode = 0; size = 0; db = λ _. 0; ib = λ _. 0 };
}

-- The names that strtok finds between the characters `/`, with `cur` read of the first.
abbrev end_name : List ℕ → List (List ℕ) → List (List ℕ)
end_name [] ts = ts
end_name (c ∷ cs) ts = (c ∷ cs) ∷ ts

abbrev snoc : List ℕ → ℕ → List ℕ
snoc [] x = x ∷ []
snoc (c ∷ cs) x = c ∷ snoc cs x

unfoldable pub tokens_from : List ℕ → List ℕ → List (List ℕ)
tokens_from cur [] = end_name cur []
tokens_from cur (c ∷ path) =
    if c == 47 then end_name cur (tokens_from [] path) else tokens_from (snoc cur c) path

-- path_to_ino's loop.
unfoldable pub walk : List (List ℕ) → ℕ → Store → ℕ
unfolding name_to_ino
walk [] ino s = ino
walk (tok ∷ toks) ino s =
    let rest = walk toks (name_to_ino tok (read_inode blank_inode ino s) s) s in
    if ino == neg1 then ino else rest

unfoldable pub path_to_ino : List ℕ → ℕ → Store → ℕ
unfolding walk tokens_from
path_to_ino path dir s = walk (tokens_from [] path) dir s

-- dir[ r ].d_ino = ino; dir[ r ].d_namlen = strlen( name ); strncpy( dir[ r ].d_name, name, … )
unfoldable pub put_dirent : Block → ℕ → ℕ → List ℕ → Block
put_dirent b r ino name i =
    if i / 4 == 8 * r
    then byte ino (i % 4)
    else if i == 32 * r + 4
    then length name % 256
    else if i == 32 * r + 5
    then length name / 256 % 256
    else if leb (32 * r + 6) i && ltb i (32 * r + 6 + length name)
    then cstr name (i - (32 * r + 6))
    else b i

-- The block for a further entry: a failure is not looked at.
unfoldable pub new_dir_block : Inode → Store → Run (Inode × Store)
new_dir_block par s =
    if par.ic.size / 32 % 16 == 0 && ltb 0 par.ic.size
    then (do (_, par', s') ← allocate_data_block_addr par.ic.size par s; ok (par', s'))
    else ok (par, s)

-- A name is copied without a test of its length, up to the end of the local block.
unfoldable pub add_inode_to_directory : Inode → ℕ → List ℕ → Store → Run (Inode × Store)
unfolding new_dir_block put_dirent
add_inode_to_directory par ino name s = do
  let r = par.ic.size / 32 % 16
  (par, s) ← new_dir_block par s
  check (leb (32 * r + 6 + length name) block_size)
  let addr = get_data_block_addr par par.ic.size s
  let b = put_dirent (read_block s addr) r ino name
  let grown : Inode = record par { ic = record (par.ic) { size = add32 par.ic.size 32 } }
  ok (grown, write_inode grown (record s { disk = disk_wr addr b block_size s.disk }))

-- Where the loop of path_to_ino2 ends: the names that are left, `ino`, `ino0`, `tok0`, and `inode`.
pub record Walked : Type 0 where
  pub left : List (List ℕ)
  pub ino : ℕ
  pub ino0 : ℕ
  pub tok0 : List ℕ
  pub inode : Inode

-- Before the loop, and behind one round of it.
abbrev pub walk_start : ℕ → Walked
walk_start dir = record { left = []; ino = dir; ino0 = dir; tok0 = []; inode = blank_inode }

abbrev pub walk_step : List ℕ → List (List ℕ) → Walked → Store → Walked
walk_step tok toks w s =
    let inode = read_inode w.inode w.ino s in
    record { left = toks; ino = name_to_ino tok inode s; ino0 = w.ino; tok0 = tok; inode = inode }

unfoldable pub walk2 : List (List ℕ) → Walked → Store → Walked
unfolding name_to_ino
walk2 [] w s = record w { left = [] }
walk2 (tok ∷ toks) w s =
    let rest = walk2 toks (walk_step tok toks w s) s in
    if w.ino == neg1 then record w { left = tok ∷ toks } else rest

-- The new file at the end of path_to_ino2, in directory `ino0`. The result of balloc is not tested.
unfoldable pub create_file : Option Inode → ℕ → List ℕ → Store → Run (ℕ × Store)
unfolding add_inode_to_directory
create_file none ino0 name s = ok (neg1 - 1, s)
create_file (some inode) ino0 name s = do
  (addr, s) ← balloc s
  let file = with_db 0 addr inode
  let s = write_inode file s
  (_, s) ← add_inode_to_directory (read_inode blank_inode ino0 s) file.number name s
  ok (file.number, s)

unfoldable pub path_to_ino2 : List ℕ → ℕ → Store → Run (ℕ × Store)
unfolding walk2 tokens_from create_file
path_to_ino2 path dir s =
    let w = walk2 (tokens_from [] path) (walk_start dir) s in
    if w.ino == neg1
    then elim w.left [
      | [] ↦ create_file (get_free_inode w.inode s) w.ino0 w.tok0 s
      | _ ∷ _ ↦ ok (neg1, s)
    ]
    else ok (w.ino, s)
