-- ===== src/Device/Hex.antt =====
-- Hexadecimal text: what PL011_puth sends is read back by unhexlify, and what hexlify writes is
-- read back by PL011_geth.
use Prim.Native.Nat.{bit_and}
use arm_kernel.Base.{
  ℕ, ◌+◌, ◌*◌, ◌/◌, ◌%◌, ◌<◌, ◌≡◌, refl, arith, true, false, Bool, not, ◌==◌, ◌&&◌, ◌||◌, List, [],
  ◌∷◌, some, All, ==→eq,
}
use arm_kernel.Base.Words.{neg1}
use arm_kernel.Base.Masks.{every, every_elim}
use arm_kernel.Device.{space, xtoi, itox, lower_digit, unhexlify}
use arm_kernel.Device.Peer.{is_white}
use arm_kernel.Device.Uart.{joined}

-- The characters that PL011_puth sends.
abbrev pub high : ℕ → ℕ
high x = itox (bit_and (x / 16) 0xF)

abbrev pub low : ℕ → ℕ
low x = itox (bit_and x 0xF)

abbrev pub upper_text : List ℕ → List ℕ
upper_text [] = []
upper_text (x ∷ xs) = high x ∷ low x ∷ upper_text xs

abbrev pub IsByte : ℕ → Type 0
IsByte x = x < 256

-- A character that is neither white nor the space that splits a line.
abbrev pub is_plain : ℕ → Bool
is_plain c = not (is_white c) && not (c == space) && not (c == 10)

abbrev pub IsPlain : ℕ → Type 0
IsPlain c = is_plain c ≡ true

upper_plain_table : every 256 (λ x. is_plain (high x) && is_plain (low x)) ≡ true
unfolding every itox
upper_plain_table = refl

upper_value_table :
    every 256 (λ x.
      not ((xtoi (high x) == neg1) || (xtoi (low x) == neg1))
      && (16 * xtoi (high x) + xtoi (low x) == x))
    ≡ true
unfolding every itox xtoi
upper_value_table = refl

lower_table : every 256 (λ x. joined (lower_digit (x / 16)) (lower_digit (x % 16)) == x) ≡ true
unfolding every joined
lower_table = refl

&&_split : (a b : Bool) → (a && b) ≡ true → (a ≡ true) × (b ≡ true)
&&_split true b h = (refl, h)
&&_split false b h = absurd (ground arith)

pub joined_lower : (x : ℕ) → IsByte x → joined (lower_digit (x / 16)) (lower_digit (x % 16)) ≡ x
joined_lower x lt = ==→eq (joined (lower_digit (x / 16)) (lower_digit (x % 16))) x (
    every_elim 256 (λ x. joined (lower_digit (x / 16)) (lower_digit (x % 16)) == x) x lower_table
      lt)

pub upper-IsPlain : (x : ℕ) → IsByte x → IsPlain (high x) × IsPlain (low x)
upper-IsPlain x lt =
    &&_split (is_plain (high x)) (is_plain (low x))
      (every_elim 256 (λ x. is_plain (high x) && is_plain (low x)) x upper_plain_table lt)

pub upper_text-IsPlain : (xs : List ℕ) → All IsByte xs → All IsPlain (upper_text xs)
upper_text-IsPlain [] h = tt
upper_text-IsPlain (x ∷ xs) h =
    let (a, b) = upper-IsPlain x h.0 in (a, (b, upper_text-IsPlain xs h.1))

upper_value :
    (x : ℕ)
    → IsByte x
    → (((xtoi (high x) == neg1) || (xtoi (low x) == neg1)) ≡ false)
      × (16 * xtoi (high x) + xtoi (low x) ≡ x)
upper_value x lt =
    let (a, b) =
      &&_split (not ((xtoi (high x) == neg1) || (xtoi (low x) == neg1)))
        (16 * xtoi (high x) + xtoi (low x) == x)
        (every_elim 256
          (λ x.
            not ((xtoi (high x) == neg1) || (xtoi (low x) == neg1))
            && (16 * xtoi (high x) + xtoi (low x) == x))
          x upper_value_table lt) in
    (ground (arith, a), ==→eq (16 * xtoi (high x) + xtoi (low x)) x b)

pub unhexlify-upper_text : (xs : List ℕ) → All IsByte xs → unhexlify (upper_text xs) ≡ some xs
unfolding unhexlify
unhexlify-upper_text [] h = refl
unhexlify-upper_text (x ∷ xs) h =
    let (valid, value) = upper_value x h.0 in
    rw (unhexlify-upper_text xs h.1) (rw (valid, value) refl)
