-- ===== src/User/Text.antt =====
-- int2str, str2int and write_int of user/libc.c. A base is positive and at most ten. Arithmetic
-- beyond an `int` is undefined: `value *= -1` on the least one, and the sums and products of str2int.
use Prim.Native.Nat.{zero, suc, ◌+◌, ◌-◌, ◌*◌, ◌/◌, ◌%◌, ◌^◌}
use arm_kernel.Base.{
  ℕ, ◌==◌, ◌||◌, leb, Bool, not, if◌then◌else◌, Option, none, some, update, Run, ok, out_of_fuel,
  check, ◌>>=◌, ◌>>◌,
}
use arm_kernel.Base.Words.{nonneg, add32, sub32}

-- The do loop: the digits, the lowest first. An `int` has at most 31 of them.
unfoldable pub put_digits : (fuel c value base : ℕ) → (ℕ → ℕ) → Run (ℕ × (ℕ → ℕ))
put_digits zero c value base str = out_of_fuel
put_digits (suc fuel) c value base str =
    let str' = update str c (value % base + b'0') in
    let rest = put_digits fuel (c + 1) (value / base) base str' in
    if value / base == 0 then ok (c + 1, str') else rest

-- The loop that reverses, from `i` on.
unfoldable pub reverse_from : (rounds i c : ℕ) → (ℕ → ℕ) → ℕ → ℕ
reverse_from zero i c str = str
reverse_from (suc rounds) i c str =
    reverse_from rounds (i + 1) c (update (update str i (str (c - i - 1))) (c - i - 1) (str i))

-- Behind the digits: the sign, the order, and the null character.
unfoldable pub finish : Bool → ℕ → (ℕ → ℕ) → ℕ → ℕ
unfolding reverse_from
finish negative c str =
    let str' = if negative then update str c b'-' else str in
    let c' = if negative then c + 1 else c in
    update (reverse_from ((c' - 1) / 2 + 1) 0 c' str') c' 0

unfoldable pub int2str : (value : ℕ) → (ℕ → ℕ) → (base : ℕ) → Run (ℕ → ℕ)
unfolding put_digits finish
int2str value str base = if value == 0 then ok (update (update str 0 b'0') 1 0) else (do
  check (not (value == 2 ^ 31))
  let negative = not (nonneg value)
  (c, str') ← put_digits 31 0 (if negative then sub32 0 value else value) base str
  ok (finish negative c str'))

-- Products and sums of `int`, as 32-bit patterns, and a change of sign: beyond an `int` they are
-- undefined. `e` is not negative.
unfoldable pub mul_int : (e d : ℕ) → Run ℕ
mul_int e d =
    if nonneg d
    then check (nonneg (e * d)) >> ok (e * d)
    else check (leb (e * sub32 0 d) (2 ^ 31)) >> ok (sub32 0 (e * sub32 0 d))

unfoldable pub add_int : (a b : ℕ) → Run ℕ
add_int a b =
    let sum = add32 a b in
    if nonneg a
    then check (not (nonneg b) || nonneg sum) >> ok sum
    else check (nonneg b || not (nonneg sum)) >> ok sum

unfoldable pub neg_int : ℕ → Run ℕ
neg_int a = check (not (a == 2 ^ 31)) >> ok (sub32 0 a)

-- str2int's loop, from character `rounds - 1` down.
unfoldable pub sum_from : (rounds e value base : ℕ) → (ℕ → ℕ) → Run ℕ
unfolding mul_int add_int neg_int
sum_from zero e value base str = ok value
sum_from (suc i) e value base str = if str i == b'-' then neg_int value else (do
  d ← mul_int e (sub32 (str i) b'0')
  value ← add_int value d
  e ← mul_int e base
  sum_from i e value base str)

unfoldable pub str2int : (ℕ → ℕ) → (n base : ℕ) → Run ℕ
unfolding sum_from
str2int str n base = sum_from n 1 0 base str

-- What write_int passes to write: the length of the text, if it is below 12.
unfoldable pub length_from : (rounds n : ℕ) → (ℕ → ℕ) → Option ℕ
length_from zero n buf = none
length_from (suc rounds) n buf =
    let rest = length_from rounds (n + 1) buf in if buf n == 0 then some n else rest

unfoldable pub write_int : (buf : ℕ → ℕ) → (x : ℕ) → Run (Option ℕ × (ℕ → ℕ))
unfolding int2str length_from
write_int buf x = do buf' ← int2str x buf 10; ok (length_from 12 0 buf', buf')
