-- ===== src/Base/Masks.antt =====
-- `x & 0xFF`, `x & 1`, and a check of every value of a small range by evaluation.
use Prim.Native.Nat.{
  ℕ, zero, suc, ◌+◌, ◌*◌, ◌/◌, ◌%◌, ◌≤◌, ◌<◌, min, bit_and, digits, bit_and-bitwise,
}
use mathlib.Core.Path.{◌≡◌, refl, ◌∙◌}
use mathlib.Core.Bool.{Bool, true, ◌&&◌}
use native.Mathlib.Omega.{arith}

-- `p` holds of every number below `n`.
unfoldable pub every : ℕ → (ℕ → Bool) → Bool
every zero p = true
every (suc n) p = p n && every n p

pub every_elim : (n : ℕ) (p : ℕ → Bool) (x : ℕ) → every n p ≡ true → x < n → p x ≡ true
unfolding every
every_elim zero p x h lt = absurd (omega arith)
every_elim (suc n) p x h lt = ground (arith, every_elim n p x)

-- `f` is what the mask `b` leaves of a number that has at most `n` digits.
abbrev Leaves : ℕ → (ℕ → ℕ) → Type 0
Leaves b f = (n a : ℕ) → a ≤ n → digits (λ c. zero) min n a b ≡ f a

-- A mask with one more digit.
Leaves-more :
    (b c : ℕ) (f g : ℕ → ℕ)
    → Leaves b f
    → c ≡ 2 * b + 1
    → g 0 ≡ 0
    → ((a : ℕ) → g a ≡ f (a / 2) * 2 + a % 2)
    → Leaves c g
Leaves-more b c f g h e z r zero zero le = omega (arith, z)
Leaves-more b c f g h e z r zero (suc a) le = absurd (omega arith)
Leaves-more b c f g h e z r (suc n) zero le = omega (arith, z)
Leaves-more b c f g h e z r (suc n) (suc a) le =
    let half : c / 2 ≡ b = omega arith in
    rw half (omega (arith, r (suc a), h n (suc a / 2) (omega arith)))

Leaves-none : Leaves 0 (λ a. a % 1)
Leaves-none zero a le = omega arith
Leaves-none (suc n) zero le = omega arith
Leaves-none (suc n) (suc a) le = omega (arith, Leaves-none n (suc a / 2) (omega arith))

Leaves-nibble : Leaves 15 (λ a. a % 16)
Leaves-nibble =
    Leaves-more 7 15 (λ a. a % 8) (λ a. a % 16)
      (Leaves-more 3 7 (λ a. a % 4) (λ a. a % 8)
        (Leaves-more 1 3 (λ a. a % 2) (λ a. a % 4)
          (Leaves-more 0 1 (λ a. a % 1) (λ a. a % 2) Leaves-none refl refl (λ a. omega arith)) refl
          refl (λ a. omega arith))
        refl refl (λ a. omega arith))
      refl refl (λ a. omega arith)

Leaves-byte : Leaves 255 (λ a. a % 256)
Leaves-byte =
    Leaves-more 127 255 (λ a. a % 128) (λ a. a % 256)
      (Leaves-more 63 127 (λ a. a % 64) (λ a. a % 128)
        (Leaves-more 31 63 (λ a. a % 32) (λ a. a % 64)
          (Leaves-more 15 31 (λ a. a % 16) (λ a. a % 32) Leaves-nibble refl refl (λ a. omega arith))
          refl refl (λ a. omega arith))
        refl refl (λ a. omega arith))
      refl refl (λ a. omega arith)

pub bit_and_byte : (a : ℕ) → bit_and a 0xFF ≡ a % 256
bit_and_byte a = (λ i. bit_and-bitwise a 0xFF i) ∙ Leaves-byte a a (omega arith)

pub bit_and_one : (a : ℕ) → bit_and a 1 ≡ a % 2
bit_and_one a =
    (λ i. bit_and-bitwise a 1 i)
    ∙ Leaves-more 0 1 (λ a. a % 1) (λ a. a % 2) Leaves-none refl refl (λ a. omega arith) a a
        (omega arith)
