-- ===== src/Proc/ReadyQueue/Content.antt =====
-- The list of processes that `rq` and `rq_size` of kernel/kernel.c stand for, front first.
use arm_kernel.Base.{
  ℕ, zero, suc, ◌+◌, ◌≤◌, ◌<◌, ◌≡◌, Option, some, List, [], ◌∷◌, ◌++◌, ◌&&◌, arith, leb, ltb,
  if◌then◌else◌, update, length, length-append, has, true,
}
use arm_kernel.Proc.{process_limit, Procs}
use arm_kernel.Proc.ReadyQueue.{shift_left, rq_add}

abbrev pub Holds : (ℕ → Option ℕ) → ℕ → List ℕ → Type 0
Holds rq i [] = Unit
Holds rq i (x ∷ xs) = (rq i ≡ some x) × Holds rq (i + 1) xs

pub record IsQueue (s : Procs) (xs : List ℕ) : Type 0 where
  pub size : s.rq_size ≡ length xs
  pub slots : Holds s.rq 0 xs
  pub bounded : length xs ≤ process_limit

pub shift_left_lem {ℓ} :
    {A : Type ℓ} (n i j : ℕ) (a : ℕ → A)
    → shift_left n i a j ≡ (if leb i j && ltb j (i + n) then a (j + 1) else a j)
unfolding shift_left
shift_left_lem zero i j a = ground arith
shift_left_lem (suc n) i j a = ground (arith, shift_left_lem n (i + 1) j (update a i (a (i + 1))))

-- Slots that agree hold the same list, also where they are moved by `k`.
pub Holds-agree :
    (a b : ℕ → Option ℕ) (xs : List ℕ) (i j : ℕ)
    → ((k : ℕ) → k < length xs → b (j + k) ≡ a (i + k))
    → Holds a i xs
    → Holds b j xs
Holds-agree a b [] i j same h = tt
Holds-agree a b (x ∷ xs) i j same h = (
  ground (arith, same 0 (omega arith), zero_right a i, zero_right b j),
  Holds-agree a b xs (i + 1) (j + 1)
      (λ k lt. ground (arith, same (k + 1) (omega arith), one_right a i k, one_right b j k)) h.1,
)
  where
    zero_right : (f : ℕ → Option ℕ) (n : ℕ) → f (n + 0) ≡ f n
    zero_right f n = ground arith

    one_right : (f : ℕ → Option ℕ) (n k : ℕ) → f (n + (k + 1)) ≡ f (n + 1 + k)
    one_right f n k = ground arith

pub Holds-snoc :
    (a : ℕ → Option ℕ) (xs : List ℕ) (i x : ℕ)
    → Holds a i xs
    → a (i + length xs) ≡ some x
    → Holds a i (xs ++ x ∷ [])
Holds-snoc a [] i x h e = (ground arith, tt)
Holds-snoc a (y ∷ xs) i x h e = (h.0, Holds-snoc a xs (i + 1) x h.1 (ground arith))

pub Holds-back :
    (a : ℕ → Option ℕ) (xs ys : List ℕ) (i : ℕ) → Holds a i (xs ++ ys) → Holds a (i + length xs) ys
Holds-back a [] ys i h = Holds-agree a a ys i (i + 0) (λ k lt. ground arith) h
Holds-back a (x ∷ xs) ys i h =
    Holds-agree a a ys (i + 1 + length xs) (i + suc (length xs)) (λ k lt. ground arith)
      (Holds-back a xs ys (i + 1) h.1)

pub Holds-front : (a : ℕ → Option ℕ) (xs ys : List ℕ) (i : ℕ) → Holds a i (xs ++ ys) → Holds a i xs
Holds-front a [] ys i h = tt
Holds-front a (x ∷ xs) ys i h = (h.0, Holds-front a xs ys (i + 1) h.1)

-- In a queue with room rq_add puts the process at the back.
pub rq_add-append :
    (s : Procs) (xs : List ℕ) (p : ℕ)
    → IsQueue s xs
    → length xs < process_limit
    → IsQueue (rq_add p s) (xs ++ p ∷ [])
unfolding rq_add
rq_add-append s xs p q room = record {
  size = ground (arith, length-append xs (p ∷ []));
  slots =
      Holds-snoc _ xs 0 p (Holds-agree _ _ xs 0 0 (λ k lt. ground arith) q.slots) (ground arith);
  bounded = omega (arith, length-append xs (p ∷ []));
}

pub Holds-append :
    (a : ℕ → Option ℕ) (xs ys : List ℕ) (i : ℕ)
    → Holds a i xs
    → Holds a (i + length xs) ys
    → Holds a i (xs ++ ys)
Holds-append a [] ys i h k = Holds-agree a a ys (i + 0) i (λ j lt. ground arith) k
Holds-append a (x ∷ xs) ys i h k = (
  h.0,
  Holds-append a xs ys (i + 1) h.1
      (Holds-agree a a ys (i + suc (length xs)) (i + 1 + length xs) (λ j lt. ground arith) k),
)

-- A slot of the list's range holds a member of the list.
pub Holds-has :
    (a : ℕ → Option ℕ) (xs : List ℕ) (i p : ℕ)
    → Holds a i xs
    → p < length xs
    → (x : ℕ) × (a (i + p) ≡ some x) × (has x xs ≡ true)
Holds-has a [] i p h lt = elim lt [ ]
Holds-has a (x ∷ xs) i zero h lt = (x, ground arith, ground arith)
Holds-has a (x ∷ xs) i (suc p) h lt =
    let (y, e, m) = Holds-has a xs (i + 1) p h.1 (omega arith) in (y, ground arith, ground arith)
