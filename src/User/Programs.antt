-- ===== src/User/Programs.antt =====
-- What the programs compute: is_prime of user/P0.c, gcd of user/P1.c, weight of user/P2.c.
use Prim.Native.Nat.{zero, suc, ◌+◌, ◌-◌, ◌*◌, ◌/◌, ◌%◌, bit_and}
use arm_kernel.Base.{ℕ, ◌==◌, ◌||◌, ltb, leb, if◌then◌else◌, Run, ok, out_of_fuel}
use arm_kernel.Base.Words.{u32_mod, add32}

-- The loop from `d` on; `d * d` is computed in 32 bits.
unfoldable pub no_factor : (fuel d x : ℕ) → Run ℕ
no_factor zero d x = out_of_fuel
no_factor (suc fuel) d x =
    let rest = no_factor fuel (add32 d 2) x in
    if leb (d * d % u32_mod) x then (if x % d == 0 then ok 0 else rest) else ok 1

unfoldable pub is_prime : (fuel x : ℕ) → Run ℕ
unfolding no_factor
is_prime fuel x =
    if (bit_and x 1 == 0) || ltb x 2 then ok (if x == 2 then 1 else 0) else no_factor fuel 3 x

unfoldable pub gcd : (fuel x y : ℕ) → Run ℕ
gcd zero x y = out_of_fuel
gcd (suc fuel) x y =
    let smaller_x = gcd fuel (x - y) y in
    let smaller_y = gcd fuel x (y - x) in
    if x == y then ok x else if ltb y x then smaller_x else smaller_y

unfoldable pub weight : ℕ → ℕ
weight x =
    let a = bit_and x 0x5555_5555 + bit_and (x / 2) 0x5555_5555 in
    let b = bit_and a 0x3333_3333 + bit_and (a / 4) 0x3333_3333 in
    let c = bit_and b 0x0F0F_0F0F + bit_and (b / 16) 0x0F0F_0F0F in
    let d = bit_and c 0x00FF_00FF + bit_and (c / 256) 0x00FF_00FF in
    bit_and d 0x0000_FFFF + bit_and (d / 65536) 0x0000_FFFF
