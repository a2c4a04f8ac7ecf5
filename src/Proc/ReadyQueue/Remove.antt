-- ===== src/Proc/ReadyQueue/Remove.antt =====
-- rq_rm of kernel/kernel.c as the removal of a member of the queue's list.
use mathlib.Core.List.{append_assoc}
use arm_kernel.Base.{
  ℕ, zero, suc, ◌+◌, ◌-◌, ◌≤◌, ◌<◌, ◌≡◌, ◌∙◌, refl, Option, some, List, [], ◌∷◌, ◌++◌, inl, inr,
  true, false, ◌&&◌, arith, leb, ltb, ◌==◌, lt→ltb, le→ltb, Bool-cases, if◌then◌else◌, length,
  length-append, has, has-append, Distinct, erase, ok,
}
use arm_kernel.Proc.{Procs}
use arm_kernel.Proc.ReadyQueue.{shift_left, remove_at, rm_from, rq_rm}
use arm_kernel.Proc.ReadyQueue.Content.{
  Holds-agree, Holds-append, Holds-front, Holds-back, Holds-has, IsQueue, shift_left_lem,
}

-- Each process of the list sits in the slot of `pcb` that its pid names.
abbrev pub IsNamed : Procs → List ℕ → Type 0
IsNamed s xs = (p : ℕ) → has p xs ≡ true → (s.pcb p).pid ≡ p

remove_at-IsQueue :
    (s : Procs) (xs ys : List ℕ) (y : ℕ)
    → IsQueue s (xs ++ y ∷ ys)
    → IsQueue (remove_at (length xs) s) (xs ++ ys)
unfolding remove_at
remove_at-IsQueue s xs ys y q = record {
  size = omega (arith, q.size, length-append xs (y ∷ ys), length-append xs ys);
  slots =
      Holds-append _ xs ys 0
        (Holds-agree s.rq _ xs 0 0 (λ k lt. ground (arith, count, moved (0 + k)))
          (Holds-front s.rq xs (y ∷ ys) 0 q.slots))
        (Holds-agree s.rq _ ys (0 + length xs + 1) (0 + length xs)
          (λ k lt. ground (arith, count, moved (0 + length xs + k), next k))
          (Holds-back s.rq xs (y ∷ ys) 0 q.slots).1);
  bounded = omega (arith, q.bounded, length-append xs (y ∷ ys), length-append xs ys);
}
  where
    count : s.rq_size ≡ length xs + suc (length ys)
    count = omega (arith, q.size, length-append xs (y ∷ ys))

    moved :
        (j : ℕ)
        → shift_left (s.rq_size - 1 - length xs) (length xs) s.rq j ≡ (
            if leb (length xs) j && ltb j (length xs + (s.rq_size - 1 - length xs))
            then s.rq (j + 1)
            else s.rq j)
    moved j = shift_left_lem (s.rq_size - 1 - length xs) (length xs) j s.rq

    next : (k : ℕ) → s.rq (0 + length xs + 1 + k) ≡ s.rq (0 + length xs + k + 1)
    next k = ground arith

-- Where no slot holds the process, the loop changes nothing.
rm_from_absent :
    (rounds p pid : ℕ) (s : Procs) (xs : List ℕ)
    → IsQueue s xs
    → IsNamed s xs
    → has pid xs ≡ false
    → rm_from rounds p pid s ≡ ok s
unfolding rm_from
rm_from_absent zero p pid s xs q named out = refl
rm_from_absent (suc rounds) p pid s xs q named out = elim (Bool-cases (ltb p s.rq_size)) [
  | inr past ↦ rw past
  | inl within ↦
      let (y, e, m) = Holds-has s.rq xs 0 p q.slots (ground (arith, q.size)) in
      let here : s.rq p ≡ some y = ground (arith, zero_left p) in
      let other : ((s.pcb y).pid == pid) ≡ false = ground (arith, named y m) in
      rw (within, here, other) (rm_from_absent rounds (p + 1) pid s xs q named out)
]
  where
    zero_left : (n : ℕ) → s.rq (0 + n) ≡ s.rq n
    zero_left n = ground arith

rm_from_step :
    (rounds p pid y : ℕ) (s : Procs)
    → p < s.rq_size
    → s.rq p ≡ some y
    → (s.pcb y).pid ≡ y
    → rm_from (suc rounds) p pid s
      ≡ rm_from rounds (p + 1) pid (if y == pid then remove_at p s else s)
unfolding rm_from
rm_from_step rounds p pid y s lt here name = rw (lt→ltb p s.rq_size lt, here, name)

pub record Erased (pid : ℕ) (s : Procs) (ys : List ℕ) (s' : Procs) : Type 0 where
  pub queue : IsQueue s' ys
  pub pcb : s'.pcb ≡ s.pcb
  pub current : s'.current ≡ s.current

rm_from-erase :
    (rounds pid : ℕ) (s : Procs) (xs ys : List ℕ)
    → IsQueue s (xs ++ ys)
    → IsNamed s (xs ++ ys)
    → has pid xs ≡ false
    → Distinct ys
    → length ys ≤ rounds
    → (s' : Procs) × (rm_from rounds (length xs) pid s ≡ ok s')
      × Erased pid s (xs ++ erase pid ys) s'
unfolding rm_from
rm_from-erase zero pid s xs [] q named out d enough =
    (s, refl, record { queue = q; pcb = refl; current = refl })
rm_from-erase zero pid s xs (y ∷ ys) q named out d enough = absurd (omega arith)
rm_from-erase (suc rounds) pid s xs [] q named out d enough = (
  s,
  rw (le→ltb (length xs) s.rq_size (omega (arith, q.size, length-append xs []))),
  record { queue = q; pcb = refl; current = refl },
)
rm_from-erase (suc rounds) pid s xs (y ∷ ys) q named out d enough =
    let here = (Holds-back s.rq xs (y ∷ ys) 0 q.slots).0 in
    let within : length xs < s.rq_size = omega (arith, q.size, length-append xs (y ∷ ys)) in
    let step =
      rm_from_step rounds (length xs) pid y s within (ground (arith, at_zero s.rq (length xs)))
        (named y (ground (arith, has-append y xs (y ∷ ys)))) in
    elim (Bool-cases (y == pid)) [
      | inl hit ↦
          let s' = remove_at (length xs) s in
          (
            s',
            step
                ∙ rw hit (
                    rm_from_absent rounds (length xs + 1) pid s' (xs ++ ys)
                      (remove_at-IsQueue s xs ys y q)
                      (λ p m.
                        unfold remove_at in
                        named p (ground (arith, has-append p xs ys, has-append p xs (y ∷ ys))))
                      (ground (arith, has-append pid xs ys))),
            record {
              queue = rw hit (remove_at-IsQueue s xs ys y q);
              pcb = unfold remove_at in refl;
              current = unfold remove_at in refl;
            },
          )
      | inr miss ↦
          let same = append_assoc xs (y ∷ []) ys in
          let (s', run, e) =
            rm_from-erase rounds pid s (xs ++ y ∷ []) ys (rw same q) (rw same named)
              (ground (arith, has-append pid xs (y ∷ []))) d.1 (omega arith) in
          let longer : length (xs ++ y ∷ []) ≡ length xs + 1 =
            omega (arith, length-append xs (y ∷ [])) in
          (
            s',
            step ∙ rw miss (rw longer at run),
            rw miss (rw (append_assoc xs (y ∷ []) (erase pid ys)) at e),
          )
    ]
  where
    at_zero : (f : ℕ → Option ℕ) (n : ℕ) → f (0 + n) ≡ f n
    at_zero f n = ground arith

-- rq_rm takes the process out of the queue and leaves the order of the others; a process that is
-- not in the queue leaves it as it was. Neither a pcb nor `current` changes.
pub rq_rm-erase :
    (pid : ℕ) (s : Procs) (xs : List ℕ)
    → IsQueue s xs
    → IsNamed s xs
    → Distinct xs
    → (s' : Procs) × (rq_rm pid s ≡ ok s') × Erased pid s (erase pid xs) s'
unfolding rq_rm
rq_rm-erase pid s xs q named d =
    rm_from-erase s.rq_size pid s [] xs q named refl d (omega (arith, q.size))
