-- ===== src/Device/Answers.antt =====
-- What device/disk.py does with an address: in range, out of range, and negative; and how one try of
-- disk_wr or disk_rd in device/disk.c takes the acknowledgement.
use arm_kernel.Base.{
  ℕ, zero, suc, ◌+◌, ◌*◌, ◌^◌, ◌<◌, ◌≤◌, ◌≡◌, refl, ◌∙◌, ap, arith, lt→ltb, le→ltb, le→leb, gt→leb,
  subst, length, List, [], ◌++◌, All, none, some, ok,
}
use arm_kernel.Fs.Disk.{Block}
use arm_kernel.Device.{codes, hexlify}
use arm_kernel.Device.Peer.{
  Image, Peer, block_num, block_len, slice, nth, file_read, file_write, wr_at, rd_at, fail,
  ack_okay,
}
use arm_kernel.Device.Uart.{getc, geth}
use arm_kernel.Device.Hex.{IsByte}
use arm_kernel.Device.Transfer.{talking, filled, data_geth-talking}
use arm_kernel.Device.Protocol.{wr_request, wr_tries, rd_request, rd_tries, read_data, data_geth}

pub slice-IsByte :
    (n i : ℕ) (x : Block) → ((j : ℕ) → j < n → x (i + j) < 256) → All IsByte (slice x i n)
unfolding slice
slice-IsByte zero i x h = tt
slice-IsByte (suc n) i x h =
    let front : i + 0 ≡ i = omega arith in
    (
      subst (λ k. x k < 256) front (h 0 (omega arith)),
      slice-IsByte n (i + 1) x (λ j lt.
          let next : i + suc j ≡ i + 1 + j = omega arith in
          subst (λ k. x k < 256) next (h (suc j) (omega arith))),
    )

pub length-slice : (n i : ℕ) (x : Block) → length (slice x i n) ≡ n
unfolding slice
length-slice zero i x = refl
length-slice (suc n) i x = ap suc (length-slice n (i + 1) x)

pub nth-slice : (n i j : ℕ) (x : Block) → j < n → nth (slice x i n) j ≡ x (i + j)
unfolding slice nth
nth-slice zero i j x lt = absurd (omega arith)
nth-slice (suc n) i zero x lt = ap x (omega arith)
nth-slice (suc n) i (suc j) x lt = nth-slice n (i + 1) j x (omega arith) ∙ ap x (omega arith)

pub wr_at_inside :
    (a : ℕ) (xs : List ℕ) (f : Image)
    → a < block_num
    → wr_at a xs f
      ≡ some (file_write (a * block_len) xs f, record { status = ack_okay; datum = none })
unfolding wr_at
wr_at_inside a xs f lt = rw (lt→ltb a (2 ^ 31) (omega arith), gt→leb 2048 a lt) refl

pub wr_at_outside :
    (a : ℕ) (xs : List ℕ) (f : Image) → block_num ≤ a → a < 2 ^ 31 → wr_at a xs f ≡ fail f
unfolding wr_at
wr_at_outside a xs f le lt = rw (lt→ltb a (2 ^ 31) lt, le→leb 2048 a le) refl

pub wr_at_negative : (a : ℕ) (xs : List ℕ) (f : Image) → 2 ^ 31 ≤ a → wr_at a xs f ≡ none
unfolding wr_at
wr_at_negative a xs f le = rw (le→ltb a (2 ^ 31) le) refl

-- The file has all of the block.
pub rd_at_inside :
    (a : ℕ) (f : Image)
    → a < block_num
    → f.size ≡ block_num * block_len
    → rd_at a f
      ≡ some
          (f, record { status = ack_okay; datum = some (slice f.bytes (a * block_len) block_len) })
unfolding rd_at file_read
rd_at_inside a f lt e =
    rw (lt→ltb a (2 ^ 31) (omega arith), gt→leb 2048 a lt)
      (rw (le→leb (a * 512 + 512) f.size (omega arith)) refl)

pub rd_at_outside : (a : ℕ) (f : Image) → block_num ≤ a → a < 2 ^ 31 → rd_at a f ≡ fail f
unfolding rd_at
rd_at_outside a f le lt = rw (lt→ltb a (2 ^ 31) lt, le→leb 2048 a le) refl

pub rd_at_negative : (a : ℕ) (f : Image) → 2 ^ 31 ≤ a → rd_at a f ≡ none
unfolding rd_at
rd_at_negative a f le = rw (le→ltb a (2 ^ 31) le) refl

-- A write that is acknowledged ends the tries; one that is refused leads to the next.
pub wr_tries_okay :
    (tries a n : ℕ) (x : Block) (p : Peer) (f : Image)
    → wr_request a x n p ≡ talking f [] (codes "00\n")
    → wr_tries (suc tries) a x n p ≡ ok (talking f [] [])
unfolding wr_tries geth getc
wr_tries_okay tries a n x p f e = rw e refl

pub wr_tries_fail :
    (tries a n : ℕ) (x : Block) (p : Peer) (f : Image)
    → wr_request a x n p ≡ talking f [] (codes "01\n")
    → wr_tries (suc tries) a x n p ≡ wr_tries tries a x n (talking f [] [])
unfolding wr_tries geth getc
wr_tries_fail tries a n x p f e = rw e refl

pub rd_tries_okay :
    (tries a n : ℕ) (x : Block) (p : Peer) (f : Image) (s : List ℕ)
    → rd_request a p ≡ talking f [] (codes "00 " ++ s)
    → rd_tries (suc tries) a x n p ≡ read_data x n (talking f [] s)
unfolding rd_tries geth getc
rd_tries_okay tries a n x p f s e = rw e refl

pub rd_tries_fail :
    (tries a n : ℕ) (x : Block) (p : Peer) (f : Image)
    → rd_request a p ≡ talking f [] (codes "01\n")
    → rd_tries (suc tries) a x n p ≡ rd_tries tries a x n (talking f [] [])
unfolding rd_tries geth getc
rd_tries_fail tries a n x p f e = rw e refl

pub read_data-filled :
    (n j : ℕ) (g x : Block) (f : Image)
    → All IsByte (slice g j n)
    → (x' : Block) × (read_data x n (talking f [] (hexlify (slice g j n) ++ codes "\n"))
        ≡ ok (x', talking f [] []))
      × ((k : ℕ) → x' k ≡ filled g x 0 j n k)
unfolding read_data data_geth getc
read_data-filled n j g x f h =
    let (x', e, c) = data_geth-talking n 0 j g x f [] (codes "\n") h in (x', rw e refl, c)
