-- ===== src/Device/Peer.antt =====
-- device/disk.py: the process at the other end of the line, which answers requests from a file.
-- --block-num is 2048 and --block-len is 512, as disk.sh runs it.
use arm_kernel.Base.{
  ℕ, zero, suc, ◌+◌, ◌-◌, ◌*◌, ◌/◌, ◌%◌, ltb, leb, ◌==◌, ◌&&◌, ◌||◌, if◌then◌else◌, Bool, true,
  false, List, [], ◌∷◌, ◌++◌, Option, none, some, length,
}
use arm_kernel.Base.Words.{nonneg}
use arm_kernel.Device.{codes, newline, space, unhexlify, hexlify, ◌>>=◌}

abbrev pub block_num : ℕ
block_num = 2048

abbrev pub block_len : ℕ
block_len = 512

-- The open file: its bytes, which count below its size.
pub record Image : Type 0 where
  pub size : ℕ
  pub bytes : ℕ → ℕ

-- `k` bytes from place `i` on.
unfoldable pub slice : (ℕ → ℕ) → ℕ → ℕ → List ℕ
slice f i zero = []
slice f i (suc k) = f i ∷ slice f (i + 1) k

unfoldable pub nth : List ℕ → ℕ → ℕ
nth [] i = 0
nth (x ∷ xs) zero = x
nth (x ∷ xs) (suc i) = nth xs i

-- fd.seek( at ); fd.read( k ): what the file has of these bytes.
unfoldable pub file_read : ℕ → ℕ → Image → List ℕ
unfolding slice
file_read at k f = slice f.bytes at (if leb (at + k) f.size then k else f.size - at)

-- fd.seek( at ); fd.write( data ): a file that was shorter is filled with zeros.
unfoldable pub file_write : ℕ → List ℕ → Image → Image
unfolding nth
file_write at written f = record {
  size = if ltb f.size (at + length written) then at + length written else f.size;
  bytes = λ j.
      if leb at j && ltb j (at + length written)
      then nth written (j - at)
      else if ltb j f.size
      then f.bytes j
      else 0;
}

-- str.strip and str.split( ' ' ).
abbrev pub is_white : ℕ → Bool
is_white c = (c == 32) || (leb 9 c && leb c 13)

unfoldable pub lstrip : List ℕ → List ℕ
lstrip [] = []
lstrip (c ∷ s) = let rest = lstrip s in if is_white c then rest else c ∷ s

abbrev pub push_back : ℕ → List ℕ → List ℕ
push_back c [] = if is_white c then [] else c ∷ []
push_back c (d ∷ s) = c ∷ d ∷ s

unfoldable pub rstrip : List ℕ → List ℕ
rstrip [] = []
rstrip (c ∷ s) = push_back c (rstrip s)

abbrev pub join_first : ℕ → List (List ℕ) → List (List ℕ)
join_first c [] = (c ∷ []) ∷ []
join_first c (w ∷ ws) = (c ∷ w) ∷ ws

unfoldable pub split_words : List ℕ → List (List ℕ)
split_words [] = [] ∷ []
split_words (c ∷ s) =
    let rest = split_words s in if c == space then [] ∷ rest else join_first c rest

-- struct.unpack( '<l', x ): the bit pattern of the number, and an exception but for four bytes.
unfoldable pub unpack : List ℕ → Option ℕ
unpack (a ∷ b ∷ c ∷ d ∷ []) = some (a + 256 * b + 65536 * c + 16777216 * d)
unpack _ = none

-- struct.pack( '<l', x ) for a number below 2 ^ 31.
abbrev pub pack : ℕ → List ℕ
pack x = x % 256 ∷ x / 256 % 256 ∷ x / 65536 % 256 ∷ x / 16777216 % 256 ∷ []

-- The status, and the data if there is any.
pub record Ack : Type 0 where
  pub status : List ℕ
  pub datum : Option (List ℕ)

abbrev pub ack_okay : List ℕ
ack_okay = codes "00"

abbrev pub ack_fail : List ℕ
ack_fail = codes "01"

abbrev pub fail : Image → Option (Image × Ack)
fail f = some (f, record { status = ack_fail; datum = none })

unfoldable pub conf : Image → Option (Image × Ack)
conf f = some (f, record { status = ack_okay; datum = some (pack block_num ++ pack block_len) })

-- `address >= args.block_num`, where an address from 2 ^ 31 on is negative: it passes, and the
-- seek raises an exception.
unfoldable pub wr_at : ℕ → List ℕ → Image → Option (Image × Ack)
unfolding file_write
wr_at address x f =
    if nonneg address
    then if leb block_num address
      then fail f
      else some (file_write (address * block_len) x f, record { status = ack_okay; datum = none })
    else none

unfoldable pub wr : List (List ℕ) → Image → Option (Image × Ack)
unfolding wr_at unhexlify unpack
wr (c ∷ a ∷ x ∷ more) f = do
  raw ← unhexlify a
  address ← unpack raw
  bytes ← unhexlify x
  wr_at address bytes f
wr _ f = none

unfoldable pub rd_at : ℕ → Image → Option (Image × Ack)
unfolding file_read
rd_at address f =
    if nonneg address
    then if leb block_num address
      then fail f
      else some (
        f,
        record { status = ack_okay; datum = some (file_read (address * block_len) block_len f) },
      )
    else none

unfoldable pub rd : List (List ℕ) → Image → Option (Image × Ack)
unfolding rd_at unhexlify unpack
rd (c ∷ a ∷ more) f = do raw ← unhexlify a; address ← unpack raw; rd_at address f
rd _ f = none

-- Equality of texts.
abbrev pub same_text : List ℕ → List ℕ → Bool
same_text [] [] = true
same_text (c ∷ s) (d ∷ t) = (c == d) && same_text s t
same_text _ _ = false

-- One round of the loop: the request, then its handler. `none` is an exception, which ends the
-- process.
unfoldable pub handle : List (List ℕ) → Image → Option (Image × Ack)
unfolding conf wr rd
handle [] f = fail f
handle (c ∷ more) f =
    if same_text c (codes "00")
    then conf f
    else if same_text c (codes "01")
    then wr (c ∷ more) f
    else if same_text c (codes "02")
    then rd (c ∷ more) f
    else fail f

-- The text of an acknowledgement.
unfoldable pub ack_text : Ack → List ℕ
unfolding hexlify
ack_text a = elim a.datum [
  | none ↦ a.status ++ (newline ∷ [])
  | some x ↦ a.status ++ (space ∷ (hexlify x ++ (newline ∷ [])))
]

-- The process: its file, the part of a line that came in, the characters that went out and are not
-- yet read, and whether it still runs.
pub record Peer : Type 0 where
  pub image : Image
  pub line : List ℕ
  pub out : List ℕ
  pub up : Bool

abbrev pub answer : Option (Image × Ack) → Peer → Peer
unfolding ack_text
answer none p = record p { line = []; up = false }
answer (some (f, a)) p = record p { image = f; line = []; out = p.out ++ ack_text a }

-- What a whole line makes the process do.
unfoldable pub respond : Peer → Peer
unfolding handle split_words lstrip rstrip ack_text
respond p = answer (handle (split_words (lstrip (rstrip p.line))) p.image) p
