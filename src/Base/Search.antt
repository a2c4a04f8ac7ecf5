-- ===== src/Base/Search.antt =====
-- A search for the first number of a range that passes a test.
use Prim.Native.Nat.{ℕ, zero, suc, ◌+◌, ◌≤◌, ◌<◌}
use mathlib.Core.Path.{◌≡◌}
use mathlib.Core.Logic.{◌⊎◌, inl, inr}
use mathlib.Core.Bool.{Bool, true, false}
use mathlib.Core.Option.{Option, none, some}
use native.Mathlib.Omega.{arith}
use arm_kernel.Base.Tests.{if◌then◌else◌, Bool-cases}

-- for (; n rounds; i++) if (test( i )) return i;
unfoldable pub first_where : ℕ → ℕ → (ℕ → Bool) → Option ℕ
first_where zero i test = none
first_where (suc rounds) i test =
    let rest = first_where rounds (i + 1) test in if test i then some i else rest

-- The result of a search from `lo` up to `hi`.
abbrev pub First : (ℕ → Bool) → ℕ → ℕ → Option ℕ → Type 0
First f lo hi (some k) =
    (lo ≤ k) × (k < hi) × (f k ≡ true) × ((j : ℕ) → lo ≤ j → j < k → f j ≡ false)
First f lo hi none = (j : ℕ) → lo ≤ j → j < hi → f j ≡ false

split : (a b : ℕ) → (a < b) ⊎ (b ≤ a)
split a b = grind arith

-- A search that begins later, behind numbers that fail the test.
pub First-later :
    (f : ℕ → Bool) (lo mid hi : ℕ) (o : Option ℕ)
    → lo ≤ mid
    → ((j : ℕ) → lo ≤ j → j < mid → f j ≡ false)
    → First f mid hi o
    → First f lo hi o
First-later f lo mid hi none le used z =
    λ j a b. elim (split j mid) [ inl lt ↦ used j a lt | inr ge ↦ z j ge b ]
First-later f lo mid hi (some k) le used z = (
  omega (arith, z.0),
  z.1,
  z.2,
  λ j a b. elim (split j mid) [ inl lt ↦ used j a lt | inr ge ↦ z.3 j ge b ],
)

pub first_where-First :
    (rounds i : ℕ) (f : ℕ → Bool) → First f i (i + rounds) (first_where rounds i f)
unfolding first_where
first_where-First zero i f = λ j lo hi. absurd (omega arith)
first_where-First (suc rounds) i f = elim (Bool-cases (f i)) [
  | inl e ↦ rw e (omega arith, omega arith, e, λ j lo hi. absurd (omega arith))
  | inr e ↦
      let end : i + 1 + rounds ≡ i + suc rounds = omega arith in
      rw e (
        First-later f i (i + 1) (i + suc rounds) (first_where rounds (i + 1) f) (omega arith)
          (λ j lo hi. let same : j ≡ i = omega arith in rw same e)
          (rw end at (first_where-First rounds (i + 1) f)))
]

-- A search of the same numbers under another name.
pub First-agree :
    (f g : ℕ → Bool) (lo hi : ℕ) (o : Option ℕ)
    → ((j : ℕ) → lo ≤ j → j < hi → f j ≡ g j)
    → First f lo hi o
    → First g lo hi o
First-agree f g lo hi none same z = λ j a b. ground (arith, same j a b, z j a b)
First-agree f g lo hi (some k) same z = (
  z.0,
  z.1,
  ground (arith, same k z.0 z.1, z.2),
  λ j a b. ground (arith, same j a (omega (arith, z.1)), z.3 j a b),
)
