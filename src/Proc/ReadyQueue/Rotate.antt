-- ===== src/Proc/ReadyQueue/Rotate.antt =====
-- rq_rotate of kernel/kernel.c as a rotation of the queue's list.
use mathlib.Core.List.{append_assoc, append-nil}
use arm_kernel.Base.{
  ℕ, zero, suc, ◌+◌, ◌<◌, ◌≡◌, ◌∙◌, refl, Option, some, List, [], ◌∷◌, ◌++◌, true, false, arith,
  lt→ltb, update, length, length-append, All, All-append, ok, out_of_fuel,
}
use arm_kernel.Base.Words.{sub32}
use arm_kernel.Proc.{process_limit, Procs, is_executing}
use arm_kernel.Proc.ReadyQueue.{shift_left, rotate_once, rq_rotate}
use arm_kernel.Proc.ReadyQueue.Content.{Holds-agree, Holds-snoc, IsQueue, shift_left_lem}

abbrev pub IsLive : Procs → ℕ → Type 0
IsLive s p = is_executing (s.pcb p).pst ≡ true

abbrev pub IsIdle : Procs → ℕ → Type 0
IsIdle s p = is_executing (s.pcb p).pst ≡ false

-- The array after one move.
abbrev pub turned : Procs → ℕ → ℕ → Option ℕ
turned s n = update (shift_left n 0 s.rq) n (s.rq 0)

-- One move takes the head to the back.
pub rotate_once_lem :
    (s : Procs) (h : ℕ) (t : List ℕ)
    → IsQueue s (h ∷ t)
    → (rotate_once s ≡ ok (record s { rq = turned s (length t) }))
      × IsQueue (record s { rq = turned s (length t) }) (t ++ h ∷ [])
unfolding rotate_once
rotate_once_lem s h t q = (
  rw (q.slots.0, last) (rw (lt→ltb (length t) process_limit (omega (arith, q.bounded)))),
  record {
    size = omega (arith, q.size, length-append t (h ∷ []));
    slots =
        Holds-snoc _ t 0 h
          (Holds-agree _ _ t 1 0 (λ k lt. ground (arith, shift_left_lem (length t) 0 (0 + k) s.rq))
            q.slots.1)
          (ground (arith, q.slots.0));
    bounded = omega (arith, q.bounded, length-append t (h ∷ []));
  },
)
  where
    last : sub32 s.rq_size 1 ≡ length t
    last = omega (arith, q.size, q.bounded)

-- A move that brings an idle process to the front is followed by another.
rotate_idle :
    (fuel : ℕ) (s s' : Procs) (x : ℕ)
    → rotate_once s ≡ ok s'
    → s'.rq 0 ≡ some x
    → IsIdle s' x
    → rq_rotate (suc fuel) s ≡ rq_rotate fuel s'
unfolding rq_rotate
rotate_idle fuel s s' x once front idle = rw (once, front, idle)

rotate_live :
    (fuel : ℕ) (s s' : Procs) (x : ℕ)
    → rotate_once s ≡ ok s'
    → s'.rq 0 ≡ some x
    → IsLive s' x
    → rq_rotate (suc fuel) s ≡ ok s'
unfolding rq_rotate
rotate_live fuel s s' x once front live = rw (once, front, live)

-- rq_rotate turns the queue until a process that is EXECUTING is in front: the ones before it in
-- the turned queue go behind the others, and nothing but the array changes.
pub rq_rotate-IsQueue :
    (fuel : ℕ) (s : Procs) (h x : ℕ) (t ys rest : List ℕ)
    → IsQueue s (h ∷ t)
    → t ++ h ∷ [] ≡ ys ++ x ∷ rest
    → All (IsIdle s) ys
    → IsLive s x
    → length ys < fuel
    → (rq : ℕ → Option ℕ) × (rq_rotate fuel s ≡ ok (record s { rq = rq }))
      × IsQueue (record s { rq = rq }) (x ∷ rest ++ ys)
rq_rotate-IsQueue zero s h x t ys rest q e idle live lt = elim lt [ ]
rq_rotate-IsQueue (suc fuel) s h x t [] rest q e idle live lt =
    let (once, q') = rotate_once_lem s h t q in
    let q'' : IsQueue (record s { rq = turned s (length t) }) (x ∷ rest) = rw e at q' in
    (turned s (length t), rotate_live fuel s _ x once q''.slots.0 live, rw append-nil q'')
rq_rotate-IsQueue (suc fuel) s h x t (y ∷ ys) rest q e idle live lt =
    let (once, q') = rotate_once_lem s h t q in
    let s' : Procs = record s { rq = turned s (length t) } in
    let q'' : IsQueue s' (y ∷ ys ++ x ∷ rest) = rw e at q' in
    let (rq, run, q₃) =
      rq_rotate-IsQueue fuel s' y x (ys ++ x ∷ rest) ys (rest ++ y ∷ []) q''
        (append_assoc ys (x ∷ rest) (y ∷ [])) idle.1 live (omega arith) in
    (
      rq,
      rotate_idle fuel s _ y once q''.slots.0 idle.0 ∙ run,
      rw (append_assoc rest (y ∷ []) ys) at q₃,
    )

-- While no process of the queue is EXECUTING, no number of rounds brings rq_rotate to an end.
pub rq_rotate-diverges :
    (fuel : ℕ) (s : Procs) (h : ℕ) (t : List ℕ)
    → IsQueue s (h ∷ t)
    → All (IsIdle s) (h ∷ t)
    → rq_rotate fuel s ≡ out_of_fuel
rq_rotate-diverges zero s h t q idle = unfold rq_rotate in refl
rq_rotate-diverges (suc fuel) s h [] q idle =
    let (once, q') = rotate_once_lem s h [] q in
    let s' : Procs = record s { rq = turned s 0 } in
    rotate_idle fuel s s' h once q'.slots.0 idle.0 ∙ rq_rotate-diverges fuel s' h [] q' idle
rq_rotate-diverges (suc fuel) s h (y ∷ t) q idle =
    let (once, q') = rotate_once_lem s h (y ∷ t) q in
    let s' : Procs = record s { rq = turned s (length (y ∷ t)) } in
    let idle' = All-append (IsIdle s) t (h ∷ []) idle.1.1 (idle.0, tt) in
    rotate_idle fuel s s' y once q'.slots.0 idle.1.0
    ∙ rq_rotate-diverges fuel s' y (t ++ h ∷ []) q' (idle.1.0, idle')
