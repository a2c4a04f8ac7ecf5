-- ===== src/Device/Refine.antt =====
-- disk_wr and disk_rd of device/disk.c, over the line to device/disk.py, against the store of blocks
-- that the file system stands on.
use arm_kernel.Base.{
  ℕ, ◌+◌, ◌-◌, ◌*◌, ◌^◌, ◌<◌, ◌≤◌, ◌≡◌, refl, ◌∙◌, ap, arith, ltb, ◌==◌, ◌&&◌, [], ◌++◌, All, ok,
  out_of_fuel, if◌then◌else◌, fun_ext, inl, inr, Bool-cases, ==→eq, ==→ne,
}
use arm_kernel.Fs.Disk
use arm_kernel.Fs.Disk.{Block, Disk, disk_wr_self, disk_wr-other}
use arm_kernel.Device.{codes, hexlify}
use arm_kernel.Device.Peer.{Image, Peer, block_num, block_len, slice, nth, file_write, answer}
use arm_kernel.Device.Uart.{geth, getc}
use arm_kernel.Device.Hex.{IsByte}
use arm_kernel.Device.Transfer.{talking, filled}
use arm_kernel.Device.Requests.{wr_request-handled, rd_request-handled, wr_line, rd_line}
use arm_kernel.Device.Answers.{
  slice-IsByte, length-slice, nth-slice, wr_at_inside, wr_at_outside, wr_at_negative, rd_at_inside,
  rd_at_outside, rd_at_negative, wr_tries_okay, wr_tries_fail, rd_tries_okay, rd_tries_fail,
  read_data-filled,
}
use arm_kernel.Device.Protocol.{disk_wr, disk_rd, wr_request, rd_request, wr_tries, rd_tries}

-- Between two requests.
abbrev pub idle : Image → Peer
idle f = talking f [] []

-- The file has every block of the store, byte for byte.
pub record IsImage (f : Image) (d : Disk) : Type 0 where
  pub sized : f.size ≡ block_num * block_len
  pub content : (a j : ℕ) → a < block_num → j < block_len → f.bytes (a * block_len + j) ≡ d a j
  pub in_bytes : (a j : ℕ) → j < block_len → d a j < 256

from_start : (n j : ℕ) (x : Block) → j < n → nth (slice x 0 n) j ≡ x j
from_start n j x lt = nth-slice n 0 j x lt ∙ ap x (omega arith)

file_write-size :
    (a n : ℕ) (x : Block) (f : Image)
    → a < block_num
    → n ≤ block_len
    → f.size ≡ block_num * block_len
    → (file_write (a * block_len) (slice x 0 n) f).size ≡ block_num * block_len
unfolding file_write
file_write-size a n x f la ln e = rw (length-slice n 0 x) (ground arith)

file_write-block :
    (a n b j : ℕ) (x : Block) (f : Image)
    → a < block_num
    → b < block_num
    → j < block_len
    → n ≤ block_len
    → f.size ≡ block_num * block_len
    → (file_write (a * block_len) (slice x 0 n) f).bytes (b * block_len + j)
      ≡ (if a == b && ltb j n then x j else f.bytes (b * block_len + j))
unfolding file_write
file_write-block a n b j x f la lb lj ln e = rw (length-slice n 0 x) (elim (Bool-cases (a == b)) [
  | inl same ↦
      let eq : a ≡ b = ==→eq a b same in
      let at : b * 512 + j - a * 512 ≡ j = omega arith in rw at (ground (arith, from_start n j x))
  | inr other ↦ let ne = ==→ne a b other in ground arith
])

disk_wr-IsImage :
    (a n : ℕ) (x : Block) (f : Image) (d : Disk)
    → IsImage f d
    → a < block_num
    → n ≤ block_len
    → ((j : ℕ) → j < n → x j < 256)
    → IsImage (file_write (a * block_len) (slice x 0 n) f) (Disk.disk_wr a x n d)
unfolding Disk.disk_wr
disk_wr-IsImage a n x f d i la ln h = record {
  sized = file_write-size a n x f la ln i.sized;
  content = λ b j lb lj.
      file_write-block a n b j x f la lb lj ln i.sized ∙ stored b j (i.content b j lb lj);
  in_bytes = λ b j lj. ground (arith, i.in_bytes a j, i.in_bytes b j, h j);
}
  where
    stored :
        (b j : ℕ)
        → f.bytes (b * block_len + j) ≡ d b j
        → (if a == b && ltb j n then x j else f.bytes (b * block_len + j))
          ≡ Disk.disk_wr a x n d b j
    stored b j e = elim (Bool-cases (a == b)) [
      | inl same ↦
          let eq : d a j ≡ d b j = ap (λ y. d y j) (==→eq a b same) in
          rw same (ground (arith, eq, e))
      | inr other ↦ rw other e
    ]

bytes_from_start : (n : ℕ) (x : Block) → ((j : ℕ) → j < n → x j < 256) → All IsByte (slice x 0 n)
bytes_from_start n x h = slice-IsByte n 0 x λ j lt. let e : 0 + j ≡ j = omega arith in rw e (h j lt)

-- A write of at most one block, to an address on the disk, ends, and makes the file one of the store
-- after the write; nothing of the exchange is left on the line.
pub disk_wr-disk_wr :
    (a n : ℕ) (x : Block) (f : Image) (d : Disk)
    → IsImage f d
    → a < block_num
    → 0 < n
    → n ≤ block_len
    → ((j : ℕ) → j < n → x j < 256)
    → (f' : Image) × (disk_wr a x n (idle f) ≡ ok (idle f')) × IsImage f' (Disk.disk_wr a x n d)
unfolding disk_wr
disk_wr-disk_wr a n x f d i la pos ln h =
    let f' = file_write (a * block_len) (slice x 0 n) f in
    (
      f',
      wr_tries_okay 2 a n x (idle f) f' (
          wr_request-handled a n x f [] (omega arith) pos (bytes_from_start n x h)
          ∙ ap (λ r. answer r (talking f (wr_line a (slice x 0 n)) []))
              (wr_at_inside a (slice x 0 n) f la)),
      disk_wr-IsImage a n x f d i la ln h,
    )

-- A read of a block on the disk ends, and gives what the store gives; nothing is left on the line.
pub disk_rd-disk_rd :
    (a : ℕ) (x : Block) (f : Image) (d : Disk)
    → IsImage f d
    → a < block_num
    → disk_rd a x block_len (idle f) ≡ ok (Disk.disk_rd a x block_len d, idle f)
unfolding disk_rd Disk.disk_rd
disk_rd-disk_rd a x f d i la =
    let (x', e, c) =
      read_data-filled 512 (a * 512) f.bytes x f (
        slice-IsByte 512 (a * 512) f.bytes
          (λ j lt. rw (i.content a j la lt) (i.in_bytes a j lt))) in
    rd_tries_okay 2 a 512 x (idle f) f (hexlify (slice f.bytes (a * 512) 512) ++ codes "\n") (
      rd_request-handled a f [] (omega arith)
      ∙ ap (λ r. answer r (talking f (rd_line a) [])) (rd_at_inside a f la i.sized))
    ∙ e
    ∙ ap (λ y. ok (y, idle f)) (fun_ext λ k. c k ∙ read_back k)
  where
    read_back :
        (k : ℕ) → filled f.bytes x 0 (a * block_len) block_len k ≡ Disk.disk_rd a x block_len d k
    read_back k = let whole : k - 0 ≡ k = omega arith in rw whole (ground (arith, i.content a k la))

-- An address behind the disk is refused in each of the tries: the call ends, the file, the buffer
-- and the line are as before, and the caller learns nothing of it.
pub disk_wr_outside :
    (a n : ℕ) (x : Block) (f : Image)
    → block_num ≤ a
    → a < 2 ^ 31
    → 0 < n
    → ((j : ℕ) → j < n → x j < 256)
    → disk_wr a x n (idle f) ≡ ok (idle f)
unfolding disk_wr wr_tries
disk_wr_outside a n x f le lt pos h =
    wr_tries_fail 2 a n x (idle f) f refused
    ∙ wr_tries_fail 1 a n x (idle f) f refused
    ∙ wr_tries_fail 0 a n x (idle f) f refused
  where
    refused : wr_request a x n (idle f) ≡ talking f [] (codes "01\n")
    refused =
        wr_request-handled a n x f [] (omega arith) pos (bytes_from_start n x h)
        ∙ ap (λ r. answer r (talking f (wr_line a (slice x 0 n)) []))
            (wr_at_outside a (slice x 0 n) f le lt)

pub disk_rd_outside :
    (a n : ℕ) (x : Block) (f : Image)
    → block_num ≤ a
    → a < 2 ^ 31
    → disk_rd a x n (idle f) ≡ ok (x, idle f)
unfolding disk_rd rd_tries
disk_rd_outside a n x f le lt =
    rd_tries_fail 2 a n x (idle f) f refused
    ∙ rd_tries_fail 1 a n x (idle f) f refused
    ∙ rd_tries_fail 0 a n x (idle f) f refused
  where
    refused : rd_request a (idle f) ≡ talking f [] (codes "01\n")
    refused =
        rd_request-handled a f [] (omega arith)
        ∙ ap (λ r. answer r (talking f (rd_line a) [])) (rd_at_outside a f le lt)

-- An address from 2 ^ 31 on passes the test of disk.py as a negative number and ends that process:
-- neither call returns.
pub disk_negative :
    (a n : ℕ) (x : Block) (f : Image)
    → 2 ^ 31 ≤ a
    → a < 2 ^ 32
    → 0 < n
    → ((j : ℕ) → j < n → x j < 256)
    → (disk_wr a x n (idle f) ≡ out_of_fuel) × (disk_rd a x n (idle f) ≡ out_of_fuel)
unfolding disk_wr wr_tries disk_rd rd_tries geth getc
disk_negative a n x f le lt pos h = (
  rw
      (
        wr_request-handled a n x f [] lt pos (bytes_from_start n x h),
        wr_at_negative a (slice x 0 n) f le,
      )
      refl,
  rw (rd_request-handled a f [] lt, rd_at_negative a f le) refl,
)
