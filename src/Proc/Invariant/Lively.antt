-- ===== src/Proc/Invariant/Lively.antt =====
-- The invariant of the process table with a process that stays in the queue: what the functions of
-- kernel/kernel.c on processes make of it, whatever their arguments.
use arm_kernel.Base.{
  ℕ, ◌≡◌, ◌≢◌, refl, ap, arith, List, [], ◌∷◌, ◌++◌, All, All-split, true, has, erase, has-append,
  ltb, ◌==◌, Bool-cases, inl, inr, ◌⊎◌, ltb→lt, ltb→le, Option,
}
use arm_kernel.Base.Always.{Always, Always-ok}
use arm_kernel.Proc.{process_limit, Ctx, Procs, is_executing}
use arm_kernel.Proc.Signal.{kill, sigkill}
use arm_kernel.Proc.Scheduler.{scheduler}
use arm_kernel.Proc.Lifecycle.{fork, exec}
use arm_kernel.Proc.ReadyQueue.Rotate.{IsLive, IsIdle}
use arm_kernel.Proc.Invariant.{Inv}
use arm_kernel.Proc.Invariant.Signals.{left, kill-Delivered, kill_beyond}
use arm_kernel.Proc.Invariant.Forks.{fork-Forked, exec-Inv}
use arm_kernel.Proc.Invariant.Schedules.{scheduler-Dispatched, scheduler-diverges}

-- The table is in order, and process `q` is in the queue.
pub record Lively (q : ℕ) (s : Procs) : Type 0 where
  pub queue : List ℕ
  pub inv : Inv s queue
  pub member : has q queue ≡ true

has-erase_other : (p q : ℕ) (xs : List ℕ) → p ≢ q → has q xs ≡ true → has q (erase p xs) ≡ true
has-erase_other p q [] ne m = absurd (ground arith)
has-erase_other p q (x ∷ xs) ne m = ground (arith, has-erase_other p q xs ne)

-- No signal but a SIGKILL to `q` itself, or to pid 9, breaks this.
pub kill-Lively :
    (q pid sig : ℕ) (s : Procs)
    → Lively q s
    → (sig ≡ sigkill → (pid ≢ q) × (pid ≢ 9))
    → Always (Lively q) (kill pid sig s)
kill-Lively q pid sig s l spares = elim (Bool-cases (ltb pid process_limit)) [
  | inl lt ↦
      let (s', e, d) = kill-Delivered pid sig s l.queue (ltb→lt pid process_limit lt) l.inv in
      rw e (Always-ok (record { queue = left pid sig l.queue; inv = d.inv; member = kept }))
  | inr ge ↦
      rw (kill_beyond pid sig s (ltb→le pid process_limit ge) (λ both. (spares both.1).1 both.0))
        (elim (Bool-cases (pid == process_limit)) [
          | inl e ↦ rw e (record { holds = λ a f. absurd (ground arith) })
          | inr e ↦ rw e (Always-ok l)
        ])
]
  where
    kept : has q (left pid sig l.queue) ≡ true
    kept = elim (Bool-cases (sig == sigkill)) [
      | inl e ↦ rw e (has-erase_other pid q l.queue ((spares (ground arith)).0) l.member)
      | inr e ↦ rw e l.member
    ]

-- The first process of a list that is EXECUTING.
pub first-IsLive :
    (s : Procs) (ys : List ℕ)
    → All (IsIdle s) ys
      ⊎ ((front : List ℕ) × (x : ℕ) × (bs : List ℕ) × (ys ≡ front ++ x ∷ bs)
          × All (IsIdle s) front
          × IsLive s x)
first-IsLive s [] = inl tt
first-IsLive s (y ∷ ys) = elim (Bool-cases (is_executing (s.pcb y).pst)) [
  | inl live ↦ inr ([], y, ys, refl, tt, live)
  | inr idle ↦ elim (first-IsLive s ys) [
    | inl none_live ↦ inl (idle, none_live)
    | inr (front, x, bs, e, before, live) ↦
        inr (y ∷ front, x, bs, ap (λ t. y ∷ t) e, (idle, before), live)
  ]
]

-- scheduler, in whatever order the queue is.
scheduler_from :
    (q h : ℕ) (t : List ℕ) (ctx : Ctx) (s : Procs)
    → Inv s (h ∷ t)
    → has q (h ∷ t) ≡ true
    → Always (λ r. Lively q r.1) (scheduler ctx s)
scheduler_from q h t ctx s i m = elim (first-IsLive s (t ++ h ∷ [])) [
  | inl idle ↦
      rw (scheduler-diverges ctx s h t i.queue (all_idle idle))
        (record { holds = λ a f. absurd (ground arith) })
  | inr (front, x, bs, e, before, live) ↦
      let (ctx', s', run, d, inv) = scheduler-Dispatched ctx s h x t front bs i e before live in
      rw run
        (Always-ok (record { queue = x ∷ bs ++ front; inv = inv; member = turned front x bs e }))
]
  where
    all_idle : All (IsIdle s) (t ++ h ∷ []) → All (IsIdle s) (h ∷ t)
    all_idle a = let (rest, last) = All-split (IsIdle s) t (h ∷ []) a in (last.0, rest)

    turned :
        (front : List ℕ) (x : ℕ) (bs : List ℕ)
        → t ++ h ∷ [] ≡ front ++ x ∷ bs
        → has q (x ∷ bs ++ front) ≡ true
    turned front x bs e =
        let same : has q (t ++ h ∷ []) ≡ has q (front ++ x ∷ bs) = ap (has q) e in
        ground (
          arith,
          m,
          same,
          has-append q t (h ∷ []),
          has-append q front (x ∷ bs),
          has-append q bs front,
        )

pub scheduler-Lively :
    (q : ℕ) (ctx : Ctx) (s : Procs) → Lively q s → Always (λ r. Lively q r.1) (scheduler ctx s)
scheduler-Lively q ctx s l = go l.queue l.inv l.member
  where
    go : (xs : List ℕ) → Inv s xs → has q xs ≡ true → Always (λ r. Lively q r.1) (scheduler ctx s)
    go [] i m = absurd (ground arith)
    go (h ∷ t) i m = scheduler_from q h t ctx s i m

pub fork-Lively : (q : ℕ) (ctx : Ctx) (s : Procs) → Lively q s → Lively q (fork ctx s).1
fork-Lively q ctx s l = elim (fork-Forked ctx s l.queue l.inv) [
  | inl (k, lo, hi, ended, before, value, child, inv) ↦ record {
    queue = l.queue ++ k ∷ [];
    inv = inv;
    member = ground (arith, l.member, has-append q l.queue (k ∷ []));
  }
  | inr (full, same) ↦ rw same l
]

pub exec-Lively :
    (q tos_init : ℕ) (ctx : Ctx) (found : Option (ℕ × ℕ)) (s : Procs)
    → Lively q s
    → Lively q (exec tos_init ctx found s).2
exec-Lively q tos_init ctx found s l = record {
  queue = l.queue;
  inv = exec-Inv tos_init ctx found s l.queue l.inv;
  member = l.member;
}
