-- ===== src/Base/Pigeonhole.antt =====
-- A list of distinct numbers below `n` has at most `n` members.
use Prim.Native.Nat.{ℕ, zero, suc, ◌+◌, ◌≤◌, ◌<◌}
use mathlib.Core.Path.{◌≡◌, refl}
use mathlib.Core.Logic.{inl, inr}
use mathlib.Core.Bool.{true, false}
use mathlib.Core.List.{List, [], ◌∷◌}
use native.Mathlib.Omega.{arith}
use arm_kernel.Base.Tests.{◌==◌, Bool-cases}
use arm_kernel.Base.Lists.{length, has, Distinct, erase}

pub has-erase_self : (a : ℕ) (xs : List ℕ) → Distinct xs → has a (erase a xs) ≡ false
has-erase_self a [] d = refl
has-erase_self a (x ∷ xs) d = ground (arith, has-erase_self a xs d.1)

-- What is left of a list was in it.
pub has-erase : (a b : ℕ) (xs : List ℕ) → has b (erase a xs) ≡ true → has b xs ≡ true
has-erase a b [] h = h
has-erase a b (x ∷ xs) h = ground (arith, has-erase a b xs)

not-has-erase : (a b : ℕ) (xs : List ℕ) → has b xs ≡ false → has b (erase a xs) ≡ false
not-has-erase a b [] h = h
not-has-erase a b (x ∷ xs) h = ground (arith, not-has-erase a b xs)

pub Distinct-erase : (a : ℕ) (xs : List ℕ) → Distinct xs → Distinct (erase a xs)
Distinct-erase a [] d = tt
Distinct-erase a (x ∷ xs) d = ground (arith, Distinct-erase a xs d.1, not-has-erase a x xs d.0)

length-erase : (a : ℕ) (xs : List ℕ) → length xs ≤ length (erase a xs) + 1
length-erase a [] = omega arith
length-erase a (x ∷ xs) = ground (arith, length-erase a xs)

pub pigeonhole :
    (n : ℕ) (xs : List ℕ) → Distinct xs → ((p : ℕ) → has p xs ≡ true → p < n) → length xs ≤ n
pigeonhole zero [] d below = omega arith
pigeonhole zero (x ∷ xs) d below = absurd (omega (arith, below x (ground arith)))
pigeonhole (suc n) xs d below = omega (
  arith,
  length-erase n xs,
  pigeonhole n (erase n xs) (Distinct-erase n xs d) (λ p h. elim (Bool-cases (p == n)) [
    | inl e ↦ absurd (impossible p h e)
    | inr e ↦ ground (arith, below p (has-erase n p xs h))
  ]),
)
  where
    impossible : (p : ℕ) → has p (erase n xs) ≡ true → (p == n) ≡ true → ⊥
    impossible p h e = ground (arith, has-erase_self n xs d, ap2 p h e)
      where
        ap2 : (p : ℕ) → has p (erase n xs) ≡ true → (p == n) ≡ true → has n (erase n xs) ≡ true
        ap2 p h e = ground arith
