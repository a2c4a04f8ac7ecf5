-- ===== src/Device.antt =====
-- device/PL011.c, device/disk.c and device/disk.py: the serial line to the disk. This file has the
-- characters: codes of literals, and the hexadecimal digits of PL011.c and of Python's binascii.
pub mod Peer
pub mod Uart
pub mod Protocol
pub mod Hex
pub mod Lines
pub mod Requests
pub mod Transfer
pub mod Answers
pub mod Refine
pub mod Session
mod Tests
use Prim.Native.Char.{code}
use Prim.Native.String.{String}
use arm_kernel.Base.{
  ℕ, ◌+◌, ◌-◌, ◌*◌, ◌/◌, ◌%◌, leb, ◌==◌, ◌&&◌, ◌||◌, if◌then◌else◌, List, [], ◌∷◌, Option, none,
  some,
}
use arm_kernel.Base.Words.{neg1}

abbrev pub codes : String → List ℕ
codes String.[] = []
codes (String.◌∷◌ c s) = code c ∷ codes s

abbrev pub newline : ℕ
newline = 10

abbrev pub space : ℕ
space = 32

-- An `int`: -1 is the word of all ones.
unfoldable pub xtoi : ℕ → ℕ
xtoi x =
    if leb b'0' x && leb x b'9'
    then x - b'0'
    else if leb b'a' x && leb x b'f'
    then 10 + (x - b'a')
    else if leb b'A' x && leb x b'F'
    then 10 + (x - b'A')
    else neg1

-- A `char`: -1 is 255.
unfoldable pub itox : ℕ → ℕ
itox x =
    if leb 0 x && leb x 9 then b'0' + x else if leb 10 x && leb x 15 then b'A' + (x - 10) else 255

-- An exception ends the computation.
infixl 5 ◌>>=◌
abbrev pub ◌>>=◌ {ℓ κ} : {A : Type ℓ} {B : Type κ} → Option A → (A → Option B) → Option B
none >>= f = none
some a >>= f = f a

-- binascii.unhexlify: pairs of digits of either case, and an exception for any other text.
unfoldable pub unhexlify : List ℕ → Option (List ℕ)
unfolding xtoi
unhexlify [] = some []
unhexlify (h ∷ []) = none
unhexlify (h ∷ l ∷ s) = do
  rest ← unhexlify s
  if (xtoi h == neg1) || (xtoi l == neg1) then none else some ((16 * xtoi h + xtoi l) ∷ rest)

-- binascii.hexlify: digits in lower case.
abbrev pub lower_digit : ℕ → ℕ
lower_digit x = if leb x 9 then b'0' + x else b'a' + (x - 10)

unfoldable pub hexlify : List ℕ → List ℕ
hexlify [] = []
hexlify (x ∷ xs) = lower_digit (x / 16) ∷ lower_digit (x % 16) ∷ hexlify xs
