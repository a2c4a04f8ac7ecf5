-- ===== src/Files/Tests.antt =====
-- Descriptors of kernel/kernel.c at a concrete input: descriptor 2 leads through entry 5 of the open
-- file table to inode 7 in memory, a file of 600 bytes, with its head at 510.
use arm_kernel.Base.{
  leb, ◌<◌, ◌≤◌, ◌≢◌, ◌↔◌, has, length, true, ◌&&◌, ◌-◌, update, ℕ, ◌+◌, ◌≡◌, refl, some, none,
  arith, ltb, ◌==◌, if◌then◌else◌, ok,
}
use arm_kernel.Proc.{executing}
use arm_kernel.Proc.Lifecycle.{zero_ctx}
use arm_kernel.Fs.Alloc.{Superblock, Store}
use arm_kernel.Fs.Inode.{Inode, ifreg}
use arm_kernel.Files.{
  Kernel, current_fd, link_tables, open_file, close_file, set_head, fread, fwrite,
}
use arm_kernel.Fs.Alloc.FreeList.{FreeList}
use arm_kernel.Files.Format.{wipe_blocks}
use arm_kernel.Files.Format.Fresh.{fresh}
use arm_kernel.Files.Format.Wiped.{wipe_blocks-FreeList}
use arm_kernel.Files.Writing.{direct_bytes, fwrite-file_byte}
use arm_kernel.Files.Tables.{
  Linked, Opens, link_tables-Linked, open_file-Opens, close_file-open_file,
}
use arm_kernel.Files.Seek.{IsOpen}
use arm_kernel.Files.Reading.{file_byte, fread-file_byte}

abbrev blank : ℕ → ℕ
blank _ = 0

abbrev fs_of_two : Superblock
fs_of_two = record {
  sblkno = 1;
  size = 2048;
  iblkno = 2;
  isize = 512;
  dblkno = 66;
  dsize = 1982;
  fdbhead = 0;
  fdb = λ _. 1;
  fil = blank;
  pad = blank;
}

-- Block 200 + k of the file holds k + 1 everywhere.
abbrev file_600 : Inode
file_600 = record {
  number = 9;
  links = 1;
  ic = record { mode = ifreg; size = 600; db = λ i. 200 + i; ib = blank };
}

abbrev reader : Kernel
reader = record {
  procs = record {
    pcb = λ p. record {
      pid = p;
      prt = 0;
      ctx = zero_ctx;
      pst = executing;
      defp = 1;
      prio = 1;
      fd = λ i. if i == 2 then some 5 else none;
    };
    current = 0;
    rq = λ _. none;
    rq_size = 0;
  };
  store = record { disk = λ a _. if a == 200 then 1 else 2; fs = fs_of_two };
  oft = λ i.
      if i == 5 then record { inptr = some 7; head = 510 } else record { inptr = none; head = 0 };
  ait = λ _. file_600;
}

reader-IsOpen : IsOpen reader 2 5 7
reader-IsOpen = record { inside = omega arith; entry = refl; inode = refl }

fread-file_byte_example :
    (x' : ℕ → ℕ) × (fread 2 blank 4 reader ≡ ok (0, x', set_head 5 514 reader))
    × ((j : ℕ) → x' j ≡ (if ltb j 4 then file_byte file_600 reader.store (510 + j) else 0))
fread-file_byte_example =
    fread-file_byte 2 5 7 4 blank reader reader-IsOpen (omega arith) (omega arith) (omega arith)

fwrite-file_byte_example :
    (s' : Store) × (fwrite 2 (λ j. 65 + j) 4 reader
      ≡ ok (0, set_head 5 514 (record reader { store = s'; ait = update reader.ait 7 file_600 })))
    × ((p : ℕ)
        → p < direct_bytes
        → file_byte file_600 s' p
          ≡ (if leb 510 p && ltb p 514 then 65 + (p - 510) else file_byte file_600 reader.store p))
fwrite-file_byte_example =
    fwrite-file_byte 2 5 7 4 (λ j. 65 + j) reader reader-IsOpen (omega arith) (omega arith)
      (omega arith) (omega arith) (λ a b alt blt e. omega arith)

abbrev to_nine : Kernel → ℕ × Kernel
to_nine k = (9, k)

open_file-Opens_example : Opens reader to_nine (open_file to_nine reader)
open_file-Opens_example = open_file-Opens to_nine reader

-- Descriptor 3 of `reader`, opened on inode 9 through entry 6.
reader-Linked : Linked 9 3 6 7 reader (link_tables 3 6 7 reader)
reader-Linked =
    link_tables-Linked 9 3 6 7 reader reader (omega arith)
      (record { number = refl; procs = refl; oft = refl; store = refl }) refl

close_file-open_file_example :
    (k'' : Kernel) × (close_file 3 (link_tables 3 6 7 reader) ≡ ok (0, k''))
    × ((f : ℕ) → current_fd k'' f ≡ current_fd reader f)
    × ((e : ℕ) → (k''.oft e).inptr ≡ (reader.oft e).inptr)
close_file-open_file_example =
    close_file-open_file 3 6 7 9 reader (link_tables 3 6 7 reader) refl reader-Linked

wipe_blocks-FreeList_example :
    FreeList (wipe_blocks reader.store) fresh
    × (length fresh ≡ 1981)
    × ((x : ℕ) → (has x fresh ≡ true) ↔ ((66 ≤ x) × (x < 2048) × (x ≢ 1986)))
wipe_blocks-FreeList_example = wipe_blocks-FreeList reader.store
