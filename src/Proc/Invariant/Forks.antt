-- ===== src/Proc/Invariant/Forks.antt =====
-- fork, exec and the reset of kernel/kernel.c against the invariant of the process table.
use arm_kernel.Base.{
  ℕ, zero, suc, ◌+◌, ◌≤◌, ◌<◌, ◌≡◌, refl, List, [], ◌∷◌, ◌++◌, true, false, ◌⊎◌, inl, inr, arith,
  has, length, pigeonhole, has-append, Distinct-snoc, ◌==◌, update, Bool-cases, Option, some, none,
}
use arm_kernel.Base.Words.{neg1}
use arm_kernel.Proc.{process_limit, Procs, Pcb, Ctx, executing, is_terminated}
use arm_kernel.Proc.ReadyQueue.{rq_add}
use arm_kernel.Proc.ReadyQueue.Content.{rq_add-append}
use arm_kernel.Proc.Lifecycle.{spawn, fork_from, fork, exec, reset}
use arm_kernel.Proc.Invariant.{Inv}

-- A process that has ended leaves room for another.
room :
    (s : Procs) (xs : List ℕ) (p : ℕ)
    → Inv s xs
    → p < process_limit
    → has p xs ≡ false
    → length xs < process_limit
room s xs p i lt out =
    pigeonhole process_limit (p ∷ xs) (out, i.distinct)
      (λ q m. elim (Bool-cases (p == q)) [
        | inl e ↦ ground arith
        | inr e ↦ i.inside q (ground arith)
      ])

absent :
    (s : Procs) (xs : List ℕ) (p : ℕ)
    → Inv s xs
    → is_terminated (s.pcb p).pst ≡ true
    → has p xs ≡ false
absent s xs p i ended = elim (Bool-cases (has p xs)) [
  | inl m ↦ ground (arith, i.alive p m)
  | inr out ↦ out
]

rq_add-pcb : (p : ℕ) (s : Procs) → ((rq_add p s).pcb ≡ s.pcb) × ((rq_add p s).current ≡ s.current)
unfolding rq_add
rq_add-pcb p s = ground arith

-- The child: a copy of the caller's registers but for r0, and the caller as its parent.
pub record IsChild (caller : Ctx) (s : Procs) (p : ℕ) (c : Pcb) : Type 0 where
  pub pid : c.pid ≡ p
  pub prt : c.prt ≡ (s.pcb s.current).pid
  pub ctx : c.ctx ≡ record caller { gpr = update caller.gpr 0 0 }
  pub pst : c.pst ≡ executing

spawn-Inv :
    (ctx : Ctx) (s : Procs) (xs : List ℕ) (p : ℕ)
    → Inv s xs
    → p < process_limit
    → is_terminated (s.pcb p).pst ≡ true
    → Inv (spawn p ctx s) (xs ++ p ∷ []) × IsChild ctx s p ((spawn p ctx s).pcb p)
unfolding spawn
spawn-Inv ctx s xs p i lt ended = (
  record {
    queue =
        rq_add-append t xs p
          (record { size = i.queue.size; slots = i.queue.slots; bounded = i.queue.bounded })
          (room s xs p i lt out);
    named = λ q m. rw ((rq_add-pcb p t).0) (ground (arith, i.named q, has-append q xs (p ∷ [])));
    distinct = Distinct-snoc xs p i.distinct out;
    inside = λ q m. ground (arith, i.inside q, has-append q xs (p ∷ []));
    alive = λ q m. rw ((rq_add-pcb p t).0) (ground (arith, i.alive q, has-append q xs (p ∷ [])));
    current_inside = rw ((rq_add-pcb p t).1) i.current_inside;
    current_named = rw ((rq_add-pcb p t).0, (rq_add-pcb p t).1) (ground (arith, i.current_named));
  },
  rw ((rq_add-pcb p t).0) (ground (arith, i.current_named)),
)
  where
    out : has p xs ≡ false
    out = absent s xs p i ended

    pcb : ℕ → Pcb
    pcb = update s.pcb p (record (s.pcb p) { pid = p })

    t : Procs
    t = record s {
      pcb = update pcb p (record {
        pid = p;
        prt = (pcb s.current).pid;
        ctx = record ctx { gpr = update ctx.gpr 0 0 };
        pst = executing;
        defp = 0x7FFF_FFFF;
        prio = 0x7FFF_FFFF;
        fd = (s.pcb p).fd;
      });
    }

-- The two results of the loop from slot `p` on.
abbrev pub Forked : Ctx → Procs → List ℕ → ℕ → ℕ → ℕ × Procs → Type 0
Forked ctx s xs p rounds r =
    ((k : ℕ) × (p ≤ k)
      × (k < p + rounds)
      × (is_terminated (s.pcb k).pst ≡ true)
      × ((q : ℕ) → p ≤ q → q < k → is_terminated (s.pcb q).pst ≡ false)
      × (r.0 ≡ k)
      × IsChild ctx s k (r.1.pcb k)
      × Inv r.1 (xs ++ k ∷ []))
    ⊎ (((q : ℕ) → p ≤ q → q < p + rounds → is_terminated (s.pcb q).pst ≡ false) × (r ≡ (neg1, s)))

fork_from-Forked :
    (rounds p : ℕ) (ctx : Ctx) (s : Procs) (xs : List ℕ)
    → Inv s xs
    → p + rounds ≤ process_limit
    → Forked ctx s xs p rounds (fork_from rounds p ctx s)
unfolding fork_from
fork_from-Forked zero p ctx s xs i le = inr (λ q a b. absurd (omega arith), refl)
fork_from-Forked (suc rounds) p ctx s xs i le = elim (Bool-cases (is_terminated (s.pcb p).pst)) [
  | inl ended ↦
      let (inv, child) = spawn-Inv ctx s xs p i (omega arith) ended in
      rw ended
        (inl (p, omega arith, omega arith, ended, λ q a b. absurd (omega arith), refl, child, inv))
  | inr alive ↦ rw alive (elim (fork_from-Forked rounds (p + 1) ctx s xs i (omega arith)) [
    | inl (k, lo, hi, ended, before, value, child, inv) ↦ inl (
      k,
      omega arith,
      omega arith,
      ended,
      λ q a b. earlier q alive (λ c. before q c b) a,
      value,
      child,
      inv,
    )
    | inr (full, same) ↦ inr (λ q a b. earlier q alive (λ c. full q c (omega arith)) a, same)
  ])
]
  where
    earlier :
        (q : ℕ)
        → is_terminated (s.pcb p).pst ≡ false
        → (p + 1 ≤ q → is_terminated (s.pcb q).pst ≡ false)
        → p ≤ q
        → is_terminated (s.pcb q).pst ≡ false
    earlier q alive later le = elim (Bool-cases (p == q)) [
      | inl e ↦ ground arith
      | inr e ↦ later (ground arith)
    ]

-- fork takes the lowest slot that is TERMINATED, puts a copy of the caller there, with r0 = 0 and
-- EXECUTING, and at the back of the queue, and returns its pid; the invariant holds of the longer
-- queue. Without such a slot it returns -1 and changes nothing.
pub fork-Forked :
    (ctx : Ctx) (s : Procs) (xs : List ℕ) → Inv s xs → Forked ctx s xs 0 process_limit (fork ctx s)
unfolding fork
fork-Forked ctx s xs i = fork_from-Forked process_limit 0 ctx s xs i (omega arith)

-- exec keeps the invariant, whether or not the program was found.
pub exec-Inv :
    (tos_init : ℕ) (ctx : Ctx) (found : Option (ℕ × ℕ)) (s : Procs) (xs : List ℕ)
    → Inv s xs
    → Inv (exec tos_init ctx found s).2 xs
unfolding exec
exec-Inv tos_init ctx none s xs i = i
exec-Inv tos_init ctx (some (entry, priority)) s xs i = record {
  queue = record { size = i.queue.size; slots = i.queue.slots; bounded = i.queue.bounded };
  named = λ p m. ground (arith, i.named p m, i.current_named);
  distinct = i.distinct;
  inside = i.inside;
  alive = λ p m. ground (arith, i.alive p m);
  current_inside = i.current_inside;
  current_named = ground (arith, i.current_named);
}

-- At reset the queue holds init alone, whatever the memory held.
pub reset-Inv : (entry_init tos_init : ℕ) (s : Procs) → Inv (reset entry_init tos_init s).1 (0 ∷ [])
unfolding reset rq_add
reset-Inv entry_init tos_init s = record {
  queue = record { size = refl; slots = (refl, tt); bounded = omega arith };
  named = λ p m. ground arith;
  distinct = (refl, tt);
  inside = λ p m. ground arith;
  alive = λ p m. ground arith;
  current_inside = omega arith;
  current_named = refl;
}
