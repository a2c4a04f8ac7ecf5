-- ===== src/User/Decimal.antt =====
-- int2str and str2int of user/libc.c in base ten: the digits that int2str writes are the digits that
-- str2int sums.
pub mod RoundTrip
use Prim.Native.Nat.{zero, suc, ◌+◌, ◌-◌, ◌*◌, ◌/◌, ◌%◌, ◌^◌, ◌<◌, ◌≤◌}
use native.Mathlib.Nat.{mul-add, mul_assoc, mul-le-mul_left}
use arm_kernel.Base.{
  ℕ, ◌≡◌, ◌≢◌, refl, ◌∙◌, ap, sym, subst, arith, ltb, leb, ◌==◌, not, Bool, true, false, Bool-cases,
  inl, inr, Option, some, none, Run, ok, fault, ◌>>=◌, out_of_fuel, update, if◌then◌else◌, ◌&&◌,
  ==→eq, ==→ne, ltb→lt, ltb→le, lt→ltb, le→ltb, eq_refl, ne→==,
}
use arm_kernel.Base.Words.{u32_mod, nonneg, add32, sub32}
use arm_kernel.User.Text.{
  put_digits, reverse_from, finish, int2str, mul_int, add_int, sum_from, str2int, length_from,
  write_int,
}

-- Digit `k`, the lowest first, and what stands above the lowest `k`.
abbrev pub digit : ℕ → ℕ → ℕ
digit zero v = v % 10
digit (suc k) v = digit k (v / 10)

abbrev pub above : ℕ → ℕ → ℕ
above zero v = v
above (suc k) v = above k (v / 10)

pub digit-lt : (k v : ℕ) → digit k v < 10
digit-lt zero v = omega arith
digit-lt (suc k) v = digit-lt k (v / 10)

-- The text holds the `n` digits of `v` from place `c` on, the lowest first.
pub record IsDigits (v c n : ℕ) (str : ℕ → ℕ) : Type 0 where
  pub some_digit : 0 < n
  pub all : above n v ≡ 0
  pub each : (k : ℕ) → k < n → str (c + k) ≡ digit k v + b'0'

last_digit : (v c : ℕ) (str : ℕ → ℕ) → v / 10 ≡ 0 → IsDigits v c 1 (update str c (v % 10 + b'0'))
last_digit v c str last = record { some_digit = omega arith; all = last; each = only }
  where
    only : (k : ℕ) → k < 1 → update str c (v % 10 + b'0') (c + k) ≡ digit k v + b'0'
    only zero l = let e : c + 0 ≡ c = omega arith in rw e (ground arith)
    only (suc k) l = absurd (omega arith)

more-IsDigits :
    (v c n : ℕ) (str : ℕ → ℕ)
    → str c ≡ v % 10 + b'0'
    → IsDigits (v / 10) (c + 1) n str
    → IsDigits v c (suc n) str
more-IsDigits v c n str first r = record { some_digit = omega arith; all = r.all; each = next }
  where
    next : (k : ℕ) → k < suc n → str (c + k) ≡ digit k v + b'0'
    next zero l = ap str (omega arith) ∙ first
    next (suc k) l = ap str (omega arith) ∙ r.each k (omega arith)

pub put_digits-IsDigits :
    (fuel m c v : ℕ) (str : ℕ → ℕ)
    → m < fuel
    → above m v < 10
    → (n : ℕ) × (str' : ℕ → ℕ) × (put_digits fuel c v 10 str ≡ ok (c + n, str'))
      × (n ≤ m + 1)
      × IsDigits v c n str'
      × ((j : ℕ) → j < c → str' j ≡ str j)
unfolding put_digits
put_digits-IsDigits zero m c v str lt small = absurd (omega arith)
put_digits-IsDigits (suc fuel) zero c v str lt small =
    let last : v / 10 ≡ 0 = omega arith in
    let stop : (v / 10 == 0) ≡ true = ground arith in
    (
      1,
      update str c (v % 10 + b'0'),
      rw stop refl,
      omega arith,
      last_digit v c str last,
      λ j l. ground arith,
    )
put_digits-IsDigits (suc fuel) (suc m) c v str lt small = elim (Bool-cases (v / 10 == 0)) [
  | inl stop ↦ (
    1,
    update str c (v % 10 + b'0'),
    rw stop refl,
    omega arith,
    last_digit v c str (==→eq (v / 10) 0 stop),
    λ j l. ground arith,
  )
  | inr more ↦
      let (n, str', run, short, digits, before) =
        put_digits-IsDigits fuel m (c + 1) (v / 10) (update str c (v % 10 + b'0')) (omega arith)
          small in
      let place : c + suc n ≡ c + 1 + n = omega arith in
      (
        suc n,
        str',
        rw (more, place) run,
        omega arith,
        more-IsDigits v c n str' (before c (omega arith) ∙ ground arith) digits,
        λ j l. before j (omega arith) ∙ ground arith,
      )
]

-- The number that the lowest `k` digits stand for.
abbrev pub low : ℕ → ℕ → ℕ
low zero v = 0
low (suc k) v = v % 10 + 10 * low k (v / 10)

abbrev pub ten_to : ℕ → ℕ
ten_to zero = 1
ten_to (suc k) = 10 * ten_to k

pub low-above : (k v : ℕ) → v ≡ low k v + ten_to k * above k v
low-above zero v = omega arith
low-above (suc k) v =
    let rest = low-above k (v / 10) in
    let moved = mul_assoc 10 (ten_to k) (above k (v / 10)) in omega (arith, rest, moved)

low-lt : (k v : ℕ) → low k v < ten_to k
low-lt zero v = omega arith
low-lt (suc k) v = let rest = low-lt k (v / 10) in omega (arith, rest)

-- One digit more.
pub low_last : (k v : ℕ) → low (suc k) v ≡ low k v + ten_to k * digit k v
low_last zero v = omega arith
low_last (suc k) v =
    let rest = low_last k (v / 10) in
    let moved = mul_assoc 10 (ten_to k) (digit k (v / 10)) in omega (arith, rest, moved)

pub low-le : (k v : ℕ) → low k v ≤ v
low-le zero v = omega arith
low-le (suc k) v = let rest = low-le k (v / 10) in omega (arith, rest)

pub ten_to-pos : (k : ℕ) → 1 ≤ ten_to k
ten_to-pos zero = omega arith
ten_to-pos (suc k) = let rest = ten_to-pos k in omega (arith, rest)

pub mul_int_small : (e d : ℕ) → d < 2 ^ 31 → e * d < 2 ^ 31 → mul_int e d ≡ ok (e * d)
unfolding mul_int
mul_int_small e d small fits = rw (lt→ltb d (2 ^ 31) small, lt→ltb (e * d) (2 ^ 31) fits) refl

add_int_small : (a b : ℕ) → a + b < 2 ^ 31 → add_int a b ≡ ok (a + b)
unfolding add_int
add_int_small a b fits =
    let sum : add32 a b ≡ a + b = omega arith in
    let whole : nonneg (a + b) ≡ true = ground arith in
    let left : nonneg a ≡ true = ground arith in
    let right : nonneg b ≡ true = ground arith in rw (sum, whole, left, right) refl

pub ten_to-le : (k m : ℕ) → k ≤ m → ten_to k ≤ ten_to m
ten_to-le zero m le = ten_to-pos m
ten_to-le (suc k) zero le = absurd (omega arith)
ten_to-le (suc k) (suc m) le = let rest = ten_to-le k m (omega arith) in omega (arith, rest)

-- A number of which nothing stands above its lowest `n` digits.
pub low_all : (n v : ℕ) → above n v ≡ 0 → low n v ≡ v
low_all n v all =
    let parts = low-above n v in
    let none_above : ten_to n * above n v ≡ 0 = rw all (omega arith) in
    omega (arith, parts, none_above)

pub short_small : (n v : ℕ) → above n v ≡ 0 → n ≤ 9 → v < 10 ^ 9
short_small n v all le =
    let same = low_all n v all in
    let lt = low-lt n v in let top = ten_to-le n 9 le in omega (arith, same, lt, top)

pub mul_int_large : (e d : ℕ) → d < 2 ^ 31 → 2 ^ 31 ≤ e * d → mul_int e d ≡ fault
unfolding mul_int
mul_int_large e d small far = rw (lt→ltb d (2 ^ 31) small, le→ltb (e * d) (2 ^ 31) far) refl

-- One round of str2int on a digit, within an `int`.
pub digit_round :
    (i e value d : ℕ) (str : ℕ → ℕ)
    → str i ≡ d + b'0'
    → d < 10
    → value + e * d < 2 ^ 31
    → sum_from (suc i) e value 10 str
      ≡ (mul_int e 10 >>= λ e'. sum_from i e' (value + e * d) 10 str)
unfolding sum_from
digit_round i e value d str here small fits =
    let no_sign : (str i == b'-') ≡ false = rw here (ground arith) in
    let digit_value : sub32 (str i) b'0' ≡ d = rw here (omega arith) in
    let product = mul_int_small e d (omega (arith, small)) (omega (arith, fits)) in
    let sum = add_int_small value (e * d) fits in rw (no_sign, digit_value, product, sum) refl

-- The loop of str2int over the lowest `n` digits of `v`, which stand from place `o` on, the highest
-- first, while `e` stays an `int`.
pub sum_from-digits :
    (n k o e acc v : ℕ) (str : ℕ → ℕ)
    → n + o ≡ k
    → e * ten_to n < 2 ^ 31
    → acc + e * v < 2 ^ 31
    → ((i : ℕ) → i < n → str (o + i) ≡ digit (n - 1 - i) v + b'0')
    → sum_from k e acc 10 str ≡ sum_from o (e * ten_to n) (acc + e * low n v) 10 str
unfolding sum_from
sum_from-digits zero k o e acc v str eq fits small each =
    let same : k ≡ o = omega arith in
    let e1 : e * 1 ≡ e = omega arith in
    let a1 : acc + e * 0 ≡ acc = omega arith in rw (same, e1, a1) refl
sum_from-digits (suc n) zero o e acc v str eq fits small each = absurd (omega arith)
sum_from-digits (suc n) (suc k) o e acc v str eq fits small each =
    let at : o + n ≡ k = omega arith in
    let lowest : suc n - 1 - n ≡ 0 = omega arith in
    let here : str k ≡ v % 10 + b'0' =
      ap str (sym at) ∙ each n (omega arith) ∙ ap (λ i. digit i v + b'0') lowest in
    let power : e * 10 * ten_to n ≡ e * (10 * ten_to n) = mul_assoc e 10 (ten_to n) in
    let grows : e * 10 * 1 ≤ e * 10 * ten_to n = mul-le-mul_left (e * 10) (ten_to-pos n) in
    let split_v : v ≡ v % 10 + 10 * (v / 10) = omega arith in
    let value : e * v ≡ e * (v % 10) + e * 10 * (v / 10) =
      ap (λ t. e * t) split_v
      ∙ mul-add e (v % 10) (10 * (v / 10))
      ∙ ap (λ t. e * (v % 10) + t) (sym (mul_assoc e 10 (v / 10))) in
    let result : acc + e * (v % 10) + e * 10 * low n (v / 10)
        ≡ acc + e * (v % 10 + 10 * low n (v / 10)) =
      omega (arith, mul-add e (v % 10) (10 * low n (v / 10)), mul_assoc e 10 (low n (v / 10))) in
    digit_round k e acc (v % 10) str here (omega arith) (omega (arith, value, small))
    ∙ ap (λ r. r >>= λ e'. sum_from k e' (acc + e * (v % 10)) 10 str)
        (mul_int_small e 10 (omega arith) (omega (arith, fits, power, grows)))
    ∙ sum_from-digits n k o (e * 10) (acc + e * (v % 10)) (v / 10) str (omega arith)
        (omega (arith, fits, power)) (omega (arith, value, small))
        (λ i l.
          let index : suc n - 1 - i ≡ suc (n - 1 - i) = omega arith in
          each i (omega arith) ∙ ap (λ d. digit d v + b'0') index)
    ∙ ap (λ x. sum_from o x (acc + e * (v % 10) + e * 10 * low n (v / 10)) 10 str) power
    ∙ ap (λ x. sum_from o (e * (10 * ten_to n)) x 10 str) result
