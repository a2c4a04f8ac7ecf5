-- ===== src/Fs/Dirs/Tests.antt =====
-- Directories of kernel/kernel.c at a concrete input: a root directory that holds `.` alone, in
-- block 200.
use arm_kernel.Base.{
  ℕ, ◌+◌, ◌≡◌, refl, List, [], ◌∷◌, Option, true, false, arith, ◌==◌, if◌then◌else◌, ok, First,
  first_where,
}
use arm_kernel.Base.Words.{neg1}
use arm_kernel.Fs.Disk.{Block, word, disk_rd, words_bytes, byte}
use arm_kernel.Fs.Alloc.{Store}
use arm_kernel.Fs.Inode.{Icommon, Inode, ifdir, ic_word, set_ic, ic_of, read_inode}
use arm_kernel.Fs.Blockmap.{get_data_block_addr}
use arm_kernel.Fs.Dirs.{
  dirent_of, dirs, matches, put_dirent, find_in_block, find_entry, name_to_ino, tokens_from, walk,
  path_to_ino, add_inode_to_directory,
}
use arm_kernel.Fs.Dirs.Lookup.{entry, named, ino_of, name_to_ino-First}
use arm_kernel.Fs.Dirs.Resolve.{Leads, path_to_ino-Leads}
use arm_kernel.Fs.Dirs.Entries.{Entered, put_dirent-Entered, matches-put_dirent}
use arm_kernel.Fs.Dirs.Insert.{Room, grown, add_inode_to_directory-name_to_ino}

abbrev blank : Block
blank _ = 0

abbrev root_ic : Icommon
root_ic = record { mode = ifdir; size = 32; db = λ i. 200 + i; ib = blank }

abbrev root : Inode
root = record { number = 0; links = 0; ic = root_ic }

-- `.`, `ab` and `abc`.
abbrev dot : List ℕ
dot = 46 ∷ []

abbrev ab : List ℕ
ab = 97 ∷ 98 ∷ []

abbrev abc : List ℕ
abc = 97 ∷ 98 ∷ 99 ∷ []

abbrev formatted : Store
formatted = record {
  disk = λ a.
      if a == 2
      then set_ic blank 0 root_ic
      else if a == 200
      then put_dirent blank 0 0 dot
      else blank;
  fs = record {
    sblkno = 1;
    size = 2048;
    iblkno = 2;
    isize = 512;
    dblkno = 66;
    dsize = 1982;
    fdbhead = 0;
    fdb = λ _. 1;
    fil = blank;
    pad = blank;
  };
}

dot_found : path_to_ino dot 0 formatted ≡ 0
unfolding path_to_ino walk name_to_ino tokens_from find_entry find_in_block first_where matches
    dirent_of put_dirent read_inode ic_of word disk_rd set_ic words_bytes byte ic_word
    get_data_block_addr
dot_found = refl

ab_missing : path_to_ino ab 0 formatted ≡ neg1
unfolding path_to_ino walk name_to_ino tokens_from find_entry find_in_block first_where matches
    dirent_of put_dirent read_inode ic_of word disk_rd set_ic words_bytes byte ic_word
    get_data_block_addr
ab_missing = refl

name_to_ino-First_example :
    (o : Option ℕ) × First (named dot root formatted) 0 1 o
    × (name_to_ino dot root formatted ≡ ino_of root formatted o)
name_to_ino-First_example = name_to_ino-First dot root formatted

-- The path `./ab`.
path_to_ino-Leads_example :
    Leads formatted (dot ∷ ab ∷ []) 0 (path_to_ino (46 ∷ 47 ∷ 97 ∷ 98 ∷ []) 0 formatted)
path_to_ino-Leads_example =
    path_to_ino-Leads dot (ab ∷ []) 0 formatted
      (record { some_letter = λ e. ground arith; no_slash = (omega arith, tt) })
      (record { some_letter = λ e. ground arith; no_slash = (omega arith, (omega arith, tt)) }, tt)

matches-put_dirent_example :
    matches abc (dirent_of (put_dirent (put_dirent blank 1 7 abc) 1 8 ab) 1) ≡ true
matches-put_dirent_example =
    matches-put_dirent (put_dirent blank 1 7 abc) 1 8 ab (99 ∷ []) (omega arith)
      (λ i lt. unfold put_dirent dirent_of in ground arith)

dot-Entered : Entered blank 0 0 dot
dot-Entered = put_dirent-Entered blank 0 0 dot (omega arith) (omega arith)

first_length : (entry root 0 formatted).namlen ≡ 1
unfolding dirent_of put_dirent disk_rd get_data_block_addr
first_length = refl

not_ab : named ab root formatted 0 ≡ false
unfolding matches dirent_of put_dirent disk_rd get_data_block_addr
not_ab = refl

root-Room : Room root 1 formatted
root-Room = record {
  size = omega arith;
  begun = λ e. omega arith;
  direct = omega arith;
  last = λ i lt. absurd (omega arith);
  apart = λ i le e. omega arith;
  lengths = λ k lt. let e : k ≡ 0 = omega arith in rw e (omega (arith, first_length));
}

add_inode_to_directory-name_to_ino_example :
    (s' : Store) × (add_inode_to_directory root 5 ab formatted ≡ ok (grown root, s'))
    × (dirs (grown root) ≡ 2)
    × (name_to_ino ab (grown root) s' ≡ 5)
add_inode_to_directory-name_to_ino_example =
    add_inode_to_directory-name_to_ino root 1 formatted 5 ab root-Room (λ e. omega arith)
      (omega arith) (omega arith) (λ k lt. let e : k ≡ 0 = omega arith in rw e not_ab)
