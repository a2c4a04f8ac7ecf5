-- ===== src/User/Decimal/RoundTrip.antt =====
-- The text that int2str of user/libc.c leaves in its buffer, and what write_int and str2int make of it.
use Prim.Native.Nat.{zero, suc, ◌+◌, ◌*◌, ◌-◌, ◌/◌, ◌^◌, ◌<◌, ◌≤◌}
use arm_kernel.Base.{
  ℕ, ◌≡◌, ◌≢◌, refl, ◌∙◌, ap, sym, subst, arith, fault, ◌>>=◌, ltb, leb, ◌==◌, true, false,
  Bool-cases, inl, inr, some, ok, update, if◌then◌else◌, ◌&&◌, ==→eq, ==→ne, ltb→lt, ltb→le, lt→ltb,
  le→ltb, ne→==,
}
use arm_kernel.Base.Words.{nonneg, sub32}
use arm_kernel.User.Text.{
  put_digits, reverse_from, finish, int2str, sum_from, str2int, length_from, write_int, neg_int,
}
use arm_kernel.User.Decimal.{
  digit, digit-lt, above, IsDigits, put_digits-IsDigits, sum_from-digits, ten_to, ten_to-le, low,
  low-le, low_last, low_all, short_small, mul_int_large, digit_round,
}

-- What the loop that reverses leaves in each place.
reverse_from_lem :
    (rounds i c : ℕ) (str : ℕ → ℕ) (j : ℕ)
    → i + rounds ≡ (c - 1) / 2 + 1
    → 0 < c
    → reverse_from rounds i c str j ≡ (if leb i j && ltb (j + i) c then str (c - 1 - j) else str j)
unfolding reverse_from
reverse_from_lem zero i c str j e pos = ground arith
reverse_from_lem (suc rounds) i c str j e pos =
    reverse_from_lem rounds (i + 1) c _ j (omega arith) pos ∙ swapped
  where
    swapped :
        (if leb (i + 1) j && ltb (j + (i + 1)) c
          then update (update str i (str (c - i - 1))) (c - i - 1) (str i) (c - 1 - j)
          else update (update str i (str (c - i - 1))) (c - i - 1) (str i) j)
        ≡ (if leb i j && ltb (j + i) c then str (c - 1 - j) else str j)
    swapped = elim (Bool-cases (i == j)) [
      | inl e1 ↦
          let eq : i ≡ j = ==→eq i j e1 in
          let far : c - i - 1 ≡ c - 1 - j = omega arith in
          elim (Bool-cases (c - i - 1 == j)) [
            | inl e2 ↦
                let mid : c - i - 1 ≡ j = ==→eq (c - i - 1) j e2 in
                let back : i ≡ c - 1 - j = omega arith in ground (arith, ap str back)
            | inr n2 ↦ ground (arith, ap str far)
          ]
      | inr n1 ↦ elim (Bool-cases (c - i - 1 == j)) [
        | inl e2 ↦
            let eq : c - i - 1 ≡ j = ==→eq (c - i - 1) j e2 in
            let back : i ≡ c - 1 - j = omega arith in ground (arith, ap str back)
        | inr n2 ↦ ground arith
      ]
    ]

-- The text of `int2str`: its digits in the order of reading, perhaps behind a sign.
pub record IsText (v o n : ℕ) (str : ℕ → ℕ) : Type 0 where
  pub each : (i : ℕ) → i < n → str (o + i) ≡ digit (n - 1 - i) v + b'0'
  pub sign : (i : ℕ) → i < o → str i ≡ b'-'
  pub ended : str (n + o) ≡ 0

reversed :
    (c i : ℕ) (str : ℕ → ℕ) → i < c → reverse_from ((c - 1) / 2 + 1) 0 c str i ≡ str (c - 1 - i)
reversed c i str lt =
    reverse_from_lem ((c - 1) / 2 + 1) 0 c str i (omega arith) (omega arith) ∙ ground arith

finish-IsText : (v n : ℕ) (str : ℕ → ℕ) → IsDigits v 0 n str → IsText v 0 n (finish false n str)
unfolding finish
finish-IsText v n str d = record {
  each = λ i l.
      let inside : (n == 0 + i) ≡ false = ground arith in
      rw inside (
        reversed n (0 + i) str (omega arith)
        ∙ ap str (omega arith)
        ∙ d.each (n - 1 - i) (omega arith));
  sign = λ i l. absurd (omega arith);
  ended = let e : n ≡ n + 0 = omega arith in ground arith;
}

finish-IsText_negative :
    (v n : ℕ) (str : ℕ → ℕ) → IsDigits v 0 n str → IsText v 1 n (finish true n str)
unfolding finish
finish-IsText_negative v n str d = record { each = each; sign = sign; ended = ground arith }
  where
    each : (i : ℕ) → i < n → finish true n str (1 + i) ≡ digit (n - 1 - i) v + b'0'
    each i l =
        let inside : (n + 1 == 1 + i) ≡ false = ground arith in
        let before : (n == n + 1 - 1 - (1 + i)) ≡ false = ground arith in
        rw inside (
          reversed (n + 1) (1 + i) (update str n b'-') (omega arith)
          ∙ rw before (ap str (omega arith) ∙ d.each (n - 1 - i) (omega arith)))

    sign : (i : ℕ) → i < 1 → finish true n str i ≡ b'-'
    sign i l =
        let inside : (n + 1 == i) ≡ false = ground arith in
        let last : (n == n + 1 - 1 - i) ≡ true = ground arith in
        rw inside (reversed (n + 1) i (update str n b'-') (omega arith) ∙ rw last refl)

length_from_lem :
    (rounds i n : ℕ) (buf : ℕ → ℕ)
    → i ≤ n
    → n < i + rounds
    → buf n ≡ 0
    → ((j : ℕ) → j < n → buf j ≢ 0)
    → length_from rounds i buf ≡ some n
unfolding length_from
length_from_lem zero i n buf le lt z nz = absurd (omega arith)
length_from_lem (suc rounds) i n buf le lt z nz = elim (Bool-cases (i == n)) [
  | inl e ↦ let eq : i ≡ n = ==→eq i n e in rw (eq, z) refl
  | inr ne ↦
      let other = ==→ne i n ne in
      let full : (buf i == 0) ≡ false = ne→== (buf i) 0 (nz i (omega arith)) in
      rw full (length_from_lem rounds (i + 1) n buf (omega arith) (omega arith) z nz)
]

-- A text of the digits of `v`: what write_int finds as its length, and what str2int makes of it.
IsText-nonzero : (v o n : ℕ) (str : ℕ → ℕ) → IsText v o n str → (j : ℕ) → j < n + o → str j ≢ 0
IsText-nonzero v o n str t j l = elim (Bool-cases (ltb j o)) [
  | inl lt ↦ λ e. let s = t.sign j (ltb→lt j o lt) in absurd (omega (arith, s, e))
  | inr ge ↦ λ e.
      let le = ltb→le j o ge in
      let place : j ≡ o + (j - o) = omega arith in
      let s = ap str place ∙ t.each (j - o) (omega arith) in absurd (omega (arith, e, s))
]

IsText-length :
    (v o n : ℕ) (str : ℕ → ℕ) → IsText v o n str → n + o < 12 → length_from 12 0 str ≡ some (n + o)
IsText-length v o n str t short =
    length_from_lem 12 0 (n + o) str (omega arith) (omega arith) t.ended
      (IsText-nonzero v o n str t)

-- A value of at most nine digits is read back, whatever stands in front of the digits.
IsText-value :
    (v o n : ℕ) (str : ℕ → ℕ)
    → IsText v o n str
    → above n v ≡ 0
    → n ≤ 9
    → str2int str (n + o) 10 ≡ sum_from o (1 * ten_to n) v 10 str
unfolding str2int
IsText-value v o n str t all short =
    let top = ten_to-le n 9 short in
    let small = short_small n v all short in
    sum_from-digits n (n + o) o 1 0 v str refl (omega (arith, top)) (omega (arith, small)) t.each
    ∙ ap (λ x. sum_from o (1 * ten_to n) x 10 str) (omega (arith, low_all n v all))

-- For a tenth digit the power of ten passes an `int`.
IsText-overflow :
    (v o : ℕ) (str : ℕ → ℕ) → IsText v o 10 str → v < 2 ^ 31 → str2int str (10 + o) 10 ≡ fault
unfolding str2int
IsText-overflow v o str t small =
    let nine =
      sum_from-digits 9 (10 + o) (o + 1) 1 0 v str (omega arith) (omega arith) (omega arith)
        behind in
    let next : o + 1 ≡ suc o = omega arith in
    let e9 : 1 * ten_to 9 ≡ 10 ^ 9 = refl in
    let last = low_last 9 v in
    let fits = low-le 10 v in
    nine
    ∙ ap (λ k. sum_from k (1 * ten_to 9) (0 + 1 * low 9 v) 10 str) next
    ∙ digit_round o (1 * ten_to 9) (0 + 1 * low 9 v) (digit 9 v) str first (digit-lt 9 v)
        (omega (arith, last, fits))
    ∙ ap (λ r. r >>= λ e'. sum_from o e' (0 + 1 * low 9 v + 1 * ten_to 9 * digit 9 v) 10 str)
        (mul_int_large (1 * ten_to 9) 10 (omega arith) (omega arith))
  where
    behind : (i : ℕ) → i < 9 → str (o + 1 + i) ≡ digit (9 - 1 - i) v + b'0'
    behind i l =
        let index : 10 - 1 - (i + 1) ≡ 9 - 1 - i = omega arith in
        ap str (omega arith) ∙ t.each (i + 1) (omega arith) ∙ ap (λ k. digit k v + b'0') index

    first : str o ≡ digit 9 v + b'0'
    first =
        let index : 10 - 1 - 0 ≡ 9 = omega arith in
        ap str (omega arith) ∙ t.each 0 (omega arith) ∙ ap (λ k. digit k v + b'0') index

-- What str2int makes of the text, by the size of the number; `w` is the number with its sign.
IsText-read :
    (v w o n : ℕ) (str : ℕ → ℕ)
    → IsText v o n str
    → above n v ≡ 0
    → n ≤ 10
    → (v < 10 ^ 9 → n ≤ 9)
    → v < 2 ^ 31
    → sum_from o (1 * ten_to n) v 10 str ≡ ok w
    → str2int str (n + o) 10 ≡ (if ltb v (10 ^ 9) then ok w else fault)
IsText-read v w o n str t all ten nine small front = elim (Bool-cases (ltb v (10 ^ 9))) [
  | inl lt ↦ rw lt (IsText-value v o n str t all (nine (ltb→lt v (10 ^ 9) lt)) ∙ front)
  | inr ge ↦
      let far = ltb→le v (10 ^ 9) ge in
      let same : n ≡ 10 = exact far in
      rw ge (
        ap (λ k. str2int str (k + o) 10) same
        ∙ IsText-overflow v o str (subst (λ k. IsText v o k str) same t) small)
]
  where
    exact : 10 ^ 9 ≤ v → n ≡ 10
    exact far = elim (Bool-cases (ltb n 10)) [
      | inl lt ↦
          let le = ltb→lt n 10 lt in
          absurd (omega (arith, far, short_small n v all (omega (arith, le))))
      | inr ge ↦ let le = ltb→le n 10 ge in omega (arith, le)
    ]

-- The sign in front of the digits.
read_sign :
    (e v : ℕ) (str : ℕ → ℕ) → str 0 ≡ b'-' → v < 2 ^ 31 → sum_from 1 e v 10 str ≡ ok (sub32 0 v)
unfolding sum_from neg_int
read_sign e v str sign small =
    let minus : (str 0 == b'-') ≡ true = rw sign refl in
    let least : (v == 2 ^ 31) ≡ false = ground arith in rw (minus, least) refl

-- The digits of a number, as few as its size asks for.
put_decimal-IsDigits :
    (v : ℕ) (buf : ℕ → ℕ)
    → v < 2 ^ 31
    → (n : ℕ) × (str : ℕ → ℕ) × (put_digits 31 0 v 10 buf ≡ ok (0 + n, str))
      × (n ≤ 10)
      × (v < 10 ^ 9 → n ≤ 9)
      × IsDigits v 0 n str
put_decimal-IsDigits v buf small = elim (Bool-cases (ltb v (10 ^ 9))) [
  | inl lt ↦
      let nine = ltb→lt v (10 ^ 9) lt in
      let (n, str, run, short, d, _) =
        put_digits-IsDigits 31 8 0 v buf (omega arith) (omega (arith, nine)) in
      (n, str, run, omega (arith, short), (λ _. omega (arith, short)), d)
  | inr ge ↦
      let far = ltb→le v (10 ^ 9) ge in
      let (n, str, run, short, d, _) =
        put_digits-IsDigits 31 9 0 v buf (omega arith) (omega (arith, small)) in
      (n, str, run, omega (arith, short), (λ lt. absurd (omega (arith, lt, far))), d)
]

int2str_positive :
    (value n : ℕ) (buf str : ℕ → ℕ)
    → (value == 0) ≡ false
    → value < 2 ^ 31
    → put_digits 31 0 value 10 buf ≡ ok (0 + n, str)
    → int2str value buf 10 ≡ ok (finish false n str)
unfolding int2str
int2str_positive value n buf str nz small run =
    let least : (value == 2 ^ 31) ≡ false = ground arith in
    let e : 0 + n ≡ n = omega arith in
    rw (nz, least, lt→ltb value (2 ^ 31) small) (rw run (rw e refl))

int2str_negative :
    (value n : ℕ) (buf str : ℕ → ℕ)
    → value ≢ 2 ^ 31
    → 2 ^ 31 ≤ value
    → put_digits 31 0 (sub32 0 value) 10 buf ≡ ok (0 + n, str)
    → int2str value buf 10 ≡ ok (finish true n str)
unfolding int2str
int2str_negative value n buf str ne big run =
    let nz : (value == 0) ≡ false = ground arith in
    let e : 0 + n ≡ n = omega arith in
    rw (nz, ne→== value (2 ^ 31) ne, le→ltb value (2 ^ 31) big) (rw run (rw e refl))

write_int-int2str :
    (value n : ℕ) (buf str : ℕ → ℕ)
    → int2str value buf 10 ≡ ok str
    → length_from 12 0 str ≡ some n
    → write_int buf value ≡ ok (some n, str)
unfolding write_int
write_int-int2str value n buf str e l = rw e (rw l refl)

written_zero :
    (buf : ℕ → ℕ)
    → (write_int buf 0 ≡ ok (some 1, update (update buf 0 b'0') 1 0))
      × (str2int (update (update buf 0 b'0') 1 0) 1 10 ≡ ok 0)
unfolding write_int str2int
written_zero buf = (refl, refl)

-- The absolute value of an `int`.
abbrev pub magnitude : ℕ → ℕ
magnitude value = if nonneg value then value else sub32 0 value

-- Every `int` but the least one is written in at most eleven characters, none of them the null
-- character; str2int reads the same `int` from them where it has at most nine digits, and for ten
-- digits its power of ten passes an `int`, which is undefined.
pub str2int-write_int :
    (value : ℕ) (buf : ℕ → ℕ)
    → value < 2 ^ 32
    → value ≢ 2 ^ 31
    → (n : ℕ) × (str : ℕ → ℕ) × (write_int buf value ≡ ok (some n, str))
      × (n ≤ 11)
      × ((j : ℕ) → j < n → str j ≢ 0)
      × (str2int str n 10 ≡ (if ltb (magnitude value) (10 ^ 9) then ok value else fault))
str2int-write_int value buf lt ne = elim (Bool-cases (value == 0)) [
  | inl z ↦
      let zero_value : value ≡ 0 = ==→eq value 0 z in
      rw zero_value (
        1,
        update (update buf 0 b'0') 1 0,
        (written_zero buf).0,
        omega arith,
        (λ j l. ground arith),
        (written_zero buf).1,
      )
  | inr nz ↦ elim (Bool-cases (nonneg value)) [
    | inl pos ↦
        let small = ltb→lt value (2 ^ 31) pos in
        let (n, str, run, ten, nine, d) = put_decimal-IsDigits value buf small in
        let t = finish-IsText value n str d in
        let e : n + 0 ≡ n = omega arith in
        (
          n,
          finish false n str,
          write_int-int2str value n buf (finish false n str)
              (int2str_positive value n buf str nz small run)
              (IsText-length value 0 n (finish false n str) t (omega (arith, ten)) ∙ ap some e),
          omega (arith, ten),
          (λ j l. IsText-nonzero value 0 n (finish false n str) t j (omega (arith, l))),
          rw pos (
              ap (λ k. str2int (finish false n str) k 10) (sym e)
              ∙ IsText-read value value 0 n (finish false n str) t d.all ten nine small
                  (unfold sum_from in refl)),
        )
    | inr neg ↦
        let big = ltb→le value (2 ^ 31) neg in
        let v = sub32 0 value in
        let small : v < 2 ^ 31 = omega (arith, big, lt, ne) in
        let back : sub32 0 v ≡ value = omega (arith, big, lt) in
        let (n, str, run, ten, nine, d) = put_decimal-IsDigits v buf small in
        let t = finish-IsText_negative v n str d in
        (
          n + 1,
          finish true n str,
          write_int-int2str value (n + 1) buf (finish true n str)
              (int2str_negative value n buf str ne big run)
              (IsText-length v 1 n (finish true n str) t (omega (arith, ten))),
          omega (arith, ten),
          (λ j l. IsText-nonzero v 1 n (finish true n str) t j l),
          rw neg (
              IsText-read v value 1 n (finish true n str) t d.all ten nine small (
                read_sign (1 * ten_to n) v (finish true n str) (t.sign 0 (omega arith)) small
                ∙ ap ok back)),
        )
  ]
]
