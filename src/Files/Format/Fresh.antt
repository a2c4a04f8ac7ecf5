-- ===== src/Files/Format/Fresh.antt =====
-- The list of free blocks that wipe of kernel/kernel.c writes, against the one that balloc reads.
use arm_kernel.Base.{
  ℕ, zero, suc, ◌+◌, ◌*◌, ◌≤◌, ◌<◌, ◌≡◌, ◌≢◌, refl, ap, arith, List, [], ◌∷◌, ◌++◌, has, has-append,
  has-cons_cases, ◌⊎◌, ltb→lt, ltb→le, length, length-append, Distinct, true, false, ltb, leb, ◌==◌,
  Bool-cases, inl, inr,
}

-- The numbers from `b + n` down to `b + 1`.
abbrev pub run : ℕ → ℕ → List ℕ
run b zero = []
run b (suc n) = (b + suc n) ∷ run b n

-- The blocks of the chain from `i` on, each with the list that it holds.
abbrev pub chain_list : (rounds i : ℕ) → List ℕ
chain_list zero i = []
chain_list (suc rounds) i = (66 + i) ∷ (run (63 * i + 95) 63 ++ chain_list rounds (i + 1))

-- What balloc gives after wipe, in that order.
unfoldable pub fresh : List ℕ
fresh = run 1986 61 ++ chain_list 30 0

-- Membership, by place.
has-append_cases :
    (x : ℕ) (xs ys : List ℕ) → has x (xs ++ ys) ≡ true → (has x xs ≡ true) ⊎ (has x ys ≡ true)
has-append_cases x xs ys m = ground (arith, has-append x xs ys)

pub has-append_left : (x : ℕ) (xs ys : List ℕ) → has x xs ≡ true → has x (xs ++ ys) ≡ true
has-append_left x xs ys m = ground (arith, has-append x xs ys)

has-append_right : (x : ℕ) (xs ys : List ℕ) → has x ys ≡ true → has x (xs ++ ys) ≡ true
has-append_right x xs ys m = ground (arith, has-append x xs ys)

has-run_bounds : (x b n : ℕ) → has x (run b n) ≡ true → (b < x) × (x ≤ b + n)
has-run_bounds x b zero m = absurd (ground arith)
has-run_bounds x b (suc n) m = elim (has-cons_cases x (b + suc n) (run b n) m) [
  | inl e ↦ (omega arith, omega arith)
  | inr t ↦ let (lo, hi) = has-run_bounds x b n t in (lo, omega arith)
]

has-run : (x b n : ℕ) → b < x → x ≤ b + n → has x (run b n) ≡ true
has-run x b zero lo hi = absurd (omega arith)
has-run x b (suc n) lo hi = elim (Bool-cases (b + suc n == x)) [
  | inl e ↦ rw e refl
  | inr ne ↦ rw ne (has-run x b n lo (ground arith))
]

-- Where a block of the chain stands.
abbrev InChain : ℕ → ℕ → ℕ → Type 0
InChain x i rounds =
    ((66 + i ≤ x) × (x < 66 + i + rounds)) ⊎ ((63 * i + 95 < x) × (x ≤ 63 * (i + rounds) + 95))

has-chain_list_bounds : (x rounds i : ℕ) → has x (chain_list rounds i) ≡ true → InChain x i rounds
has-chain_list_bounds x zero i m = absurd (ground arith)
has-chain_list_bounds x (suc rounds) i m =
    elim (has-cons_cases x (66 + i) (run (63 * i + 95) 63 ++ chain_list rounds (i + 1)) m) [
      | inl e ↦ inl (omega arith, omega arith)
      | inr t ↦ elim (has-append_cases x (run (63 * i + 95) 63) (chain_list rounds (i + 1)) t) [
        | inl here ↦ let (lo, hi) = has-run_bounds x (63 * i + 95) 63 here in inr (lo, omega arith)
        | inr later ↦ elim (has-chain_list_bounds x rounds (i + 1) later) [
          | inl (lo, hi) ↦ inl (omega arith, omega arith)
          | inr (lo, hi) ↦ inr (omega arith, omega arith)
        ]
      ]
    ]

has-chain_list : (x rounds i : ℕ) → InChain x i rounds → has x (chain_list rounds i) ≡ true
has-chain_list x zero i c = elim c [
  | inl (lo, hi) ↦ absurd (omega arith)
  | inr (lo, hi) ↦ absurd (omega arith)
]
has-chain_list x (suc rounds) i c = elim (Bool-cases (66 + i == x)) [
  | inl e ↦ rw e refl
  | inr ne ↦ rw ne (elim c [
    | inl (lo, hi) ↦
        has-append_right x (run (63 * i + 95) 63) (chain_list rounds (i + 1))
          (has-chain_list x rounds (i + 1) (inl (ground arith, omega arith)))
    | inr (lo, hi) ↦ elim (Bool-cases (leb x (63 * i + 158))) [
      | inl near ↦
          has-append_left x (run (63 * i + 95) 63) (chain_list rounds (i + 1))
            (has-run x (63 * i + 95) 63 lo (ground arith))
      | inr far ↦
          has-append_right x (run (63 * i + 95) 63) (chain_list rounds (i + 1))
            (has-chain_list x rounds (i + 1) (inr (ground arith, omega arith)))
    ]
  ])
]

-- The free blocks are those from 66 on, but for 1986.
pub has-fresh_bounds : (x : ℕ) → has x fresh ≡ true → (66 ≤ x) × (x < 2048) × (x ≢ 1986)
unfolding fresh
has-fresh_bounds x m = elim (has-append_cases x (run 1986 61) (chain_list 30 0) m) [
  | inl top ↦
      let (lo, hi) = has-run_bounds x 1986 61 top in
      (omega arith, omega arith, λ e. absurd (omega arith))
  | inr c ↦ elim (has-chain_list_bounds x 30 0 c) [
    | inl (lo, hi) ↦ (omega arith, omega arith, λ e. absurd (omega arith))
    | inr (lo, hi) ↦ (omega arith, omega arith, λ e. absurd (omega arith))
  ]
]

pub has-fresh : (x : ℕ) → 66 ≤ x → x < 2048 → x ≢ 1986 → has x fresh ≡ true
unfolding fresh
has-fresh x lo hi ne = elim (Bool-cases (ltb 1986 x)) [
  | inl top ↦
      has-append_left x (run 1986 61) (chain_list 30 0)
        (has-run x 1986 61 (ltb→lt 1986 x top) (omega arith))
  | inr low ↦
      let le = ltb→le 1986 x low in
      has-append_right x (run 1986 61) (chain_list 30 0) (
        has-chain_list x 30 0 (elim (Bool-cases (ltb x 96)) [
          | inl chain ↦ let lt = ltb→lt x 96 chain in inl (omega arith, omega arith)
          | inr data_block ↦ let ge = ltb→le x 96 data_block in inr (omega arith, omega arith)
        ]))
]

Distinct-append :
    (xs ys : List ℕ)
    → Distinct xs
    → Distinct ys
    → ((x : ℕ) → has x xs ≡ true → has x ys ≡ false)
    → Distinct (xs ++ ys)
Distinct-append [] ys dx dy apart = dy
Distinct-append (x ∷ xs) ys dx dy apart = (
  ground (arith, has-append x xs ys, dx.0, apart x),
  Distinct-append xs ys dx.1 dy (λ y m. apart y (ground arith)),
)

pub not_has : (x : ℕ) (xs : List ℕ) → (has x xs ≡ true → ⊥) → has x xs ≡ false
not_has x xs h = elim (Bool-cases (has x xs)) [ inl e ↦ absurd (h e) | inr e ↦ e ]

Distinct-run : (b n : ℕ) → Distinct (run b n)
Distinct-run b zero = tt
Distinct-run b (suc n) = (
  not_has (b + suc n) (run b n)
      (λ m. let (lo, hi) = has-run_bounds (b + suc n) b n m in omega arith),
  Distinct-run b n,
)

Distinct-chain_list : (rounds i : ℕ) → i + rounds ≤ 30 → Distinct (chain_list rounds i)
Distinct-chain_list zero i le = tt
Distinct-chain_list (suc rounds) i le = (
  not_has (66 + i) (run (63 * i + 95) 63 ++ chain_list rounds (i + 1)) λ m.
      elim (has-append_cases (66 + i) (run (63 * i + 95) 63) (chain_list rounds (i + 1)) m) [
        | inl here ↦
            let (lo, hi) = has-run_bounds (66 + i) (63 * i + 95) 63 here in absurd (omega arith)
        | inr later ↦ elim (has-chain_list_bounds (66 + i) rounds (i + 1) later) [
          | inl (lo, hi) ↦ absurd (omega arith)
          | inr (lo, hi) ↦ absurd (omega arith)
        ]
      ],
  Distinct-append (run (63 * i + 95) 63) (chain_list rounds (i + 1)) (Distinct-run (63 * i + 95) 63)
      (Distinct-chain_list rounds (i + 1) (omega arith))
      λ x here.
        let (lo, hi) = has-run_bounds x (63 * i + 95) 63 here in
        not_has x (chain_list rounds (i + 1)) λ m. elim (has-chain_list_bounds x rounds (i + 1) m) [
          | inl (lo', hi') ↦ absurd (omega arith)
          | inr (lo', hi') ↦ absurd (omega arith)
        ],
)

pub Distinct-fresh : Distinct fresh
unfolding fresh
Distinct-fresh =
    Distinct-append (run 1986 61) (chain_list 30 0) (Distinct-run 1986 61)
      (Distinct-chain_list 30 0 (omega arith))
      λ x top.
        let (lo, hi) = has-run_bounds x 1986 61 top in
        not_has x (chain_list 30 0) λ m. elim (has-chain_list_bounds x 30 0 m) [
          | inl (lo', hi') ↦ absurd (omega arith)
          | inr (lo', hi') ↦ absurd (omega arith)
        ]

length-run : (b n : ℕ) → length (run b n) ≡ n
length-run b zero = refl
length-run b (suc n) = ap suc (length-run b n)

length-chain_list : (rounds i : ℕ) → length (chain_list rounds i) ≡ 64 * rounds
length-chain_list zero i = refl
length-chain_list (suc rounds) i = omega (
  arith,
  length-append (run (63 * i + 95) 63) (chain_list rounds (i + 1)),
  length-run (63 * i + 95) 63,
  length-chain_list rounds (i + 1),
)

pub length-fresh : length fresh ≡ 1981
unfolding fresh
length-fresh = omega (
  arith,
  length-append (run 1986 61) (chain_list 30 0),
  length-run 1986 61,
  length-chain_list 30 0,
)
