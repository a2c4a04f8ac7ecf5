-- ===== src/User/Divisors.antt =====
-- gcd of user/P1.c gives the greatest common divisor, and comes to an end.
use Prim.Native.Nat.{zero, suc, ◌+◌, ◌-◌, ◌*◌, ◌<◌, ◌≤◌}
use native.Mathlib.Nat.{mul-add, mul-sub}
use arm_kernel.Base.{
  ℕ, ◌≡◌, refl, arith, ltb, ◌==◌, Bool-cases, inl, inr, ok, out_of_fuel, ==→eq, ltb→lt, subst, true,
  false,
}
use arm_kernel.User.Programs.{gcd}

abbrev pub Divides : ℕ → ℕ → Type 0
Divides d n = (k : ℕ) × (n ≡ d * k)

-- A common divisor that every common divisor divides.
pub record IsGcd (g x y : ℕ) : Type 0 where
  pub left : Divides g x
  pub right : Divides g y
  pub greatest : (d : ℕ) → Divides d x → Divides d y → Divides d g

Divides-sum : (d a b : ℕ) → Divides d a → Divides d b → Divides d (a + b)
Divides-sum d a b (k, e) (l, f) = (k + l, omega (arith, e, f, mul-add d k l))

Divides-difference : (d a b : ℕ) → Divides d a → Divides d b → Divides d (a - b)
Divides-difference d a b (k, e) (l, f) = (k - l, omega (arith, e, f, mul-sub d k l))

step_left : (g x y : ℕ) → y < x → IsGcd g (x - y) y → IsGcd g x y
step_left g x y lt r = record {
  left = subst (Divides g) (omega arith) (Divides-sum g (x - y) y r.left r.right);
  right = r.right;
  greatest = λ d a b. r.greatest d (Divides-difference d x y a b) b;
}

swapped : (g x y : ℕ) → IsGcd g x y → IsGcd g y x
swapped g x y r = record { left = r.right; right = r.left; greatest = λ d a b. r.greatest d b a }

-- For positive numbers whose sum does not pass the fuel, gcd ends with a common divisor that every
-- common divisor divides.
pub gcd-IsGcd :
    (fuel x y : ℕ) → 0 < x → 0 < y → x + y ≤ fuel → (g : ℕ) × (gcd fuel x y ≡ ok g) × IsGcd g x y
unfolding gcd
gcd-IsGcd zero x y px py le = absurd (omega arith)
gcd-IsGcd (suc fuel) x y px py le = elim (Bool-cases (x == y)) [
  | inl e ↦
      let same : x ≡ y = ==→eq x y e in
      (
        x,
        rw e refl,
        record { left = (1, omega arith); right = (1, omega (arith, same)); greatest = λ d a b. a },
      )
  | inr ne ↦ elim (Bool-cases (ltb y x)) [
    | inl lt ↦
        let (g, run, r) = gcd-IsGcd fuel (x - y) y (ground arith) py (ground arith) in
        (g, rw (ne, lt) run, step_left g x y (ltb→lt y x lt) r)
    | inr ge ↦
        let lt : x < y = ground arith in
        let (g, run, r) = gcd-IsGcd fuel x (y - x) px (omega arith) (omega arith) in
        (g, rw (ne, ge) run, swapped g y x (step_left g y x lt (swapped g x (y - x) r)))
  ]
]

-- With 0 and a positive number it does not end, whatever the fuel.
pub gcd_zero : (fuel y : ℕ) → 0 < y → (gcd fuel 0 y ≡ out_of_fuel) × (gcd fuel y 0 ≡ out_of_fuel)
unfolding gcd
gcd_zero zero y p = (refl, refl)
gcd_zero (suc fuel) y p =
    let (a, b) = gcd_zero fuel y p in
    let e : y - 0 ≡ y = omega arith in
    let f : (0 == y) ≡ false = ground arith in
    let f' : (y == 0) ≡ false = ground arith in
    let g : ltb y 0 ≡ false = ground arith in
    let g' : ltb 0 y ≡ true = ground arith in (rw (f, g, e) a, rw (f', g', e) b)
