-- ===== src/Base/Members.antt =====
-- Membership and distinctness under append, and under a rotation.
use Prim.Native.Nat.{ℕ}
use mathlib.Core.Path.{◌≡◌, refl, sym, subst}
use mathlib.Core.Logic.{◌≢◌, ◌⊎◌, inl, inr}
use mathlib.Core.Bool.{true, false}
use mathlib.Core.List.{List, [], ◌∷◌, ◌++◌, append_assoc, append-nil}
use native.Mathlib.Omega.{arith}
use arm_kernel.Base.Tests.{if◌then◌else◌, ◌==◌, Bool-cases, ==→eq}
use arm_kernel.Base.Lists.{has, All, Distinct}

pub has-append : (a : ℕ) (xs ys : List ℕ) → has a (xs ++ ys) ≡ (if has a xs then true else has a ys)
has-append a [] ys = refl
has-append a (x ∷ xs) ys = ground (arith, has-append a xs ys)

pub has-swap : (a : ℕ) (xs ys : List ℕ) → has a (xs ++ ys) ≡ has a (ys ++ xs)
has-swap a xs ys = ground (arith, has-append a xs ys, has-append a ys xs)

pub Distinct-snoc : (xs : List ℕ) (p : ℕ) → Distinct xs → has p xs ≡ false → Distinct (xs ++ p ∷ [])
Distinct-snoc [] p d out = (refl, tt)
Distinct-snoc (x ∷ xs) p d out =
    (ground (arith, has-append x xs (p ∷ [])), Distinct-snoc xs p d.1 (ground arith))

pub Distinct-swap : (xs ys : List ℕ) → Distinct (xs ++ ys) → Distinct (ys ++ xs)
Distinct-swap [] ys d = rw append-nil d
Distinct-swap (x ∷ xs) ys d =
    let turned : Distinct (xs ++ (ys ++ x ∷ [])) =
      rw (append_assoc xs ys (x ∷ [])) at (Distinct-snoc (xs ++ ys) x d.1 d.0) in
    rw (append_assoc ys (x ∷ []) xs) at (Distinct-swap xs (ys ++ x ∷ []) turned)

pub has_later : (a x : ℕ) (xs : List ℕ) → has a xs ≡ true → has a (x ∷ xs) ≡ true
has_later a x xs h = ground arith

pub not-has_head : (a x : ℕ) (xs : List ℕ) → has a (x ∷ xs) ≡ false → x ≢ a
not-has_head a x xs h = ground arith

pub not-has_tail : (a x : ℕ) (xs : List ℕ) → has a (x ∷ xs) ≡ false → has a xs ≡ false
not-has_tail a x xs h = ground arith

pub not-has-cons : (a x : ℕ) (xs : List ℕ) → x ≢ a → has a xs ≡ false → has a (x ∷ xs) ≡ false
not-has-cons a x xs ne h = ground arith

pub has_head : (x : ℕ) (xs : List ℕ) → has x (x ∷ xs) ≡ true
has_head x xs = ground arith

-- A member of a longer list is its head or a member of the rest.
pub has-cons_cases : (a x : ℕ) (xs : List ℕ) → has a (x ∷ xs) ≡ true → (x ≡ a) ⊎ (has a xs ≡ true)
has-cons_cases a x xs h = ground arith

pub has_of_eq : (y x : ℕ) (xs : List ℕ) → y ≡ x → has y (x ∷ xs) ≡ true
has_of_eq y x xs e = ground arith

pub All-has {κ} : (P : ℕ → Type κ) (q : ℕ) (xs : List ℕ) → All P xs → has q xs ≡ true → P q
All-has P q [] h m = absurd (ground arith)
All-has P q (x ∷ xs) h m = elim (Bool-cases (q == x)) [
  | inl e ↦ subst P (sym (==→eq q x e)) h.0
  | inr ne ↦ All-has P q xs h.1 (ground arith)
]
