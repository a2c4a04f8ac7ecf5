-- ===== src/User/Tests.antt =====
-- Texts and divisors of the programs of user at concrete inputs.
use arm_kernel.Base.{◌<◌, ◌≢◌, ◌↔◌, ℕ, ◌≡◌, ◌≤◌, refl, arith, ok, some}
use arm_kernel.Base.Words.{neg1}
use arm_kernel.User.Text.{write_int, str2int}
use arm_kernel.User.Programs.{is_prime, gcd, weight}
use arm_kernel.User.Primes.{IsPrime, is_prime-IsPrime}
use arm_kernel.User.Divisors.{IsGcd, gcd-IsGcd}
use arm_kernel.User.Decimal.RoundTrip.{str2int-write_int}

str2int-write_int_example :
    (n : ℕ) × (str : ℕ → ℕ) × (write_int (λ i. 7) neg1 ≡ ok (some n, str))
    × (n ≤ 11)
    × ((j : ℕ) → j < n → str j ≢ 0)
    × (str2int str n 10 ≡ ok neg1)
str2int-write_int_example = str2int-write_int neg1 (λ i. 7) (omega arith) (λ e. ground arith)

gcd-IsGcd_example : (g : ℕ) × (gcd 30 12 18 ≡ ok g) × IsGcd g 12 18
gcd-IsGcd_example = gcd-IsGcd 30 12 18 (omega arith) (omega arith) (omega arith)

primes : (is_prime 50 97 ≡ ok 1) × (is_prime 50 91 ≡ ok 0)
unfolding is_prime
primes = (refl, refl)

weights : weight 0xFF00_00F1 ≡ 13
unfolding weight
weights = refl

is_prime-IsPrime_example : (r : ℕ) × (is_prime 32767 97 ≡ ok r) × ((r ≡ 1) ↔ IsPrime 97)
is_prime-IsPrime_example = is_prime-IsPrime 32767 97 (omega arith) (omega arith)
