-- ===== src/User/Primes.antt =====
-- is_prime of user/P0.c, for numbers whose odd divisors up to the root have squares of 32 bits.
use Prim.Native.Nat.{zero, suc, ◌+◌, ◌*◌, ◌%◌, ◌<◌, ◌≤◌, bit_and}
use native.Mathlib.Nat.{
  mul-le-mul, dvd_trans, dvd-mul_right, dvd_of_mod-eq-zero, mod-eq-zero_of_dvd, mod-eq_of_lt,
}
use arm_kernel.Base.{
  ℕ, ◌≡◌, ◌≢◌, ◌↔◌, refl, ◌∙◌, sym, subst, arith, ltb, leb, ◌==◌, ◌||◌, Bool-cases, inl, inr, ok,
  ==→eq, ==→ne, ltb→lt, true, false,
}
use arm_kernel.Base.Words.{u32_mod, add32}
use arm_kernel.Base.Masks.{bit_and_one}
use arm_kernel.User.Programs.{no_factor, is_prime}

-- At least 2, and divided by no number from 2 on whose square does not pass it.
abbrev pub IsPrime : ℕ → Type 0
IsPrime x = (2 ≤ x) × ((k : ℕ) → 2 ≤ k → k * k ≤ x → x % k ≢ 0)

-- An even number divides no odd one.
even_apart : (x c : ℕ) → x % 2 ≡ 1 → x % (2 * c) ≢ 0
even_apart x c odd e =
    let halved = dvd_trans 2 (dvd-mul_right 2 c) (dvd_of_mod-eq-zero (2 * c) e) in
    omega (arith, odd, mod-eq-zero_of_dvd 2 halved)

leb_le : (a b : ℕ) → leb a b ≡ true → a ≤ b
leb_le a b e = ground (arith, e)

squares : (a b : ℕ) → a ≤ b → a * a ≤ b * b
squares a b le = mul-le-mul le le

-- From an odd `d` on, all smaller numbers being no divisors.
no_factor-IsPrime :
    (fuel c x : ℕ)
    → x % 2 ≡ 1
    → x < 65535 * 65535
    → 2 * c + 1 ≤ 65535
    → 65536 ≤ 2 * c + 1 + 2 * fuel
    → 1 ≤ c
    → ((k : ℕ) → 2 ≤ k → k < 2 * c + 1 → x % k ≢ 0)
    → 2 ≤ x
    → (r : ℕ) × (no_factor fuel (2 * c + 1) x ≡ ok r) × ((r ≡ 1) ↔ IsPrime x)
unfolding no_factor
no_factor-IsPrime zero c x odd small le enough pos before two = absurd (omega arith)
no_factor-IsPrime (suc fuel) c x odd small le enough pos before two =
    let d = 2 * c + 1 in
    let square : d * d ≤ 65535 * 65535 = squares d 65535 le in
    let exact : d * d % u32_mod ≡ d * d = mod-eq_of_lt (omega (arith, square)) in
    elim (Bool-cases (leb (d * d) x)) [
      | inr above ↦ (
        1,
        rw (exact, above) refl,
        (λ e. (two, λ k lo sq. before k lo (below k sq above)), λ h. refl),
      )
      | inl within ↦ elim (Bool-cases (x % d == 0)) [
        | inl e ↦ (
          0,
          rw (exact, within, e) refl,
          (
            λ z. absurd (omega (arith, z)),
            λ h. absurd (h.1 d (omega arith) (leb_le (d * d) x within) (==→eq (x % d) 0 e)),
          ),
        )
        | inr ne ↦
            let less : d < 65535 = smaller (leb_le (d * d) x within) in
            let next : add32 d 2 ≡ 2 * (c + 1) + 1 = omega (arith, less) in
            let step : no_factor (suc fuel) d x ≡ no_factor fuel (2 * (c + 1) + 1) x =
              rw (exact, within, ne, next) refl in
            let (r, run, prime) =
              no_factor-IsPrime fuel (c + 1) x odd small (omega (arith, less)) (omega arith)
                (omega arith) (later (==→ne (x % d) 0 ne)) two in
            (r, step ∙ run, prime)
      ]
    ]
  where
    below : (k : ℕ) → k * k ≤ x → leb ((2 * c + 1) * (2 * c + 1)) x ≡ false → k < 2 * c + 1
    below k sq above = elim (Bool-cases (ltb k (2 * c + 1))) [
      | inl lt ↦ ltb→lt k (2 * c + 1) lt
      | inr ge ↦
          let more = squares (2 * c + 1) k (ground arith) in
          let far : x < (2 * c + 1) * (2 * c + 1) = ground (arith, above) in
          absurd (omega (arith, more, far, sq))
    ]

    smaller : (2 * c + 1) * (2 * c + 1) ≤ x → 2 * c + 1 < 65535
    smaller sq = elim (Bool-cases (ltb (2 * c + 1) 65535)) [
      | inl lt ↦ ltb→lt (2 * c + 1) 65535 lt
      | inr ge ↦
          let more = squares 65535 (2 * c + 1) (ground arith) in
          absurd (omega (arith, more, sq, small))
    ]

    later : x % (2 * c + 1) ≢ 0 → (k : ℕ) → 2 ≤ k → k < 2 * (c + 1) + 1 → x % k ≢ 0
    later ne k lo hi = elim (Bool-cases (k == 2 * c + 1)) [
      | inl e ↦ let same = ==→eq k (2 * c + 1) e in rw same ne
      | inr other ↦ elim (Bool-cases (ltb k (2 * c + 1))) [
        | inl lt ↦ before k lo (ltb→lt k (2 * c + 1) lt)
        | inr ge ↦
            let even : k ≡ 2 * (c + 1) = ground (arith, other, ge) in
            rw even (even_apart x (c + 1) odd)
      ]
    ]

two-IsPrime : IsPrime 2
two-IsPrime =
    (omega arith, λ k lo sq. let more = squares 2 k lo in absurd (omega (arith, more, sq)))

-- The first test: even numbers and those below 2.
is_prime_first :
    (fuel x : ℕ)
    → (bit_and x 1 == 0) || ltb x 2 ≡ true
    → (r : ℕ) × (is_prime fuel x ≡ ok r) × ((r ≡ 1) ↔ IsPrime x)
unfolding is_prime
is_prime_first fuel x e = elim (Bool-cases (x == 2)) [
  | inl two ↦
      let same = ==→eq x 2 two in
      (1, rw (e, two) refl, (λ h. subst IsPrime (sym same) two-IsPrime, λ h. refl))
  | inr other ↦ (
    0,
    rw (e, other) refl,
    (λ z. absurd (omega (arith, z)), λ h. absurd (refused (==→ne x 2 other) h)),
  )
]
  where
    refused : x ≢ 2 → IsPrime x → ⊥
    refused ne h =
        let bit = bit_and_one x in
        let two : 2 ≤ x = h.0 in
        let even : x % 2 ≡ 0 = ground (arith, e, bit, two) in
        h.1 2 (omega arith) (omega (arith, two, ne, even)) even

-- For a number below 65535 * 65535, with 32767 rounds, is_prime ends, and returns 1 exactly for a
-- prime: the product of 32 bits in its loop does not wrap.
pub is_prime-IsPrime :
    (fuel x : ℕ)
    → x < 65535 * 65535
    → 32767 ≤ fuel
    → (r : ℕ) × (is_prime fuel x ≡ ok r) × ((r ≡ 1) ↔ IsPrime x)
unfolding is_prime
is_prime-IsPrime fuel x small enough = elim (Bool-cases ((bit_and x 1 == 0) || ltb x 2)) [
  | inl e ↦ is_prime_first fuel x e
  | inr e ↦
      let bit = bit_and_one x in
      let odd : x % 2 ≡ 1 = ground (arith, e, bit) in
      let two : 2 ≤ x = ground (arith, e) in
      let (r, run, prime) =
        no_factor-IsPrime fuel 1 x odd small (omega arith) (omega (arith, enough)) (omega arith)
          (λ k lo hi f. let same : k ≡ 2 = omega (arith, lo, hi) in absurd (odd_two f same odd))
          two in
      (r, rw e refl ∙ run, prime)
]
  where
    odd_two : {k : ℕ} → x % k ≡ 0 → k ≡ 2 → x % 2 ≡ 1 → ⊥
    odd_two f same odd = let g = subst (λ n. x % n ≡ 0) same f in omega (arith, g, odd)
