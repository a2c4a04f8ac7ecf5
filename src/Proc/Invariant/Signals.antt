-- ===== src/Proc/Invariant/Signals.antt =====
-- kill of kernel/kernel.c against the invariant of the process table.
use arm_kernel.Base.{
  ℕ, zero, suc, ◌+◌, ◌≤◌, ◌<◌, ◌≡◌, ◌∙◌, refl, List, true, false, ◌&&◌, inl, inr, ◌≢◌, arith, has,
  erase, has-erase, has-erase_self, Distinct-erase, ltb, leb, ◌==◌, if◌then◌else◌, update, ok,
  fault, Bool-cases, lt→ltb, ==→eq, Bool,
}
use arm_kernel.Base.Words.{nonneg}
use arm_kernel.Proc.{
  process_limit, Procs, Pst, Pcb, terminated, waiting, executing, is_terminated, is_waiting,
  set_pst,
}
use arm_kernel.Proc.ReadyQueue.{rq_rm}
use arm_kernel.Proc.ReadyQueue.Content.{IsQueue}
use arm_kernel.Proc.ReadyQueue.Remove.{IsNamed, Erased, rq_rm-erase}
use arm_kernel.Proc.Invariant.{Inv, Inv-pcb}
use arm_kernel.Proc.Signal.{sigkill, sigwait, sigcont, sigpri0, signal, terminate_from, kill}

-- The queue after a signal.
abbrev pub left : ℕ → ℕ → List ℕ → List ℕ
left pid sig xs = if sig == sigkill then erase pid xs else xs

-- The state of a process after a signal to it.
abbrev pub signalled : ℕ → Pst → Pst
signalled sig v =
    if sig == sigkill
    then terminated
    else if sig == sigwait
    then waiting
    else if sig == sigcont
    then (if is_waiting v then executing else v)
    else v

-- What a signal to `pid` makes of a table whose queue is `xs`.
pub record Delivered (pid sig : ℕ) (s : Procs) (xs : List ℕ) (s' : Procs) : Type 0 where
  pub inv : Inv s' (left pid sig xs)
  pub state :
      (p : ℕ) → (s'.pcb p).pst ≡ (if pid == p then signalled sig (s.pcb p).pst else (s.pcb p).pst)
  pub current : s'.current ≡ s.current
  pub defp : (p : ℕ) → (s'.pcb p).defp ≡ (if pid == p && sig == sigpri0 then 0 else (s.pcb p).defp)
  pub prio : (p : ℕ) → (s'.pcb p).prio ≡ (if pid == p && sig == sigpri0 then 0 else (s.pcb p).prio)
  pub ctx : (p : ℕ) → (s'.pcb p).ctx ≡ (s.pcb p).ctx
  pub fd : (p : ℕ) → (s'.pcb p).fd ≡ (s.pcb p).fd

set_pst-Inv :
    (pid : ℕ) (v : Pst) (s : Procs) (xs : List ℕ)
    → Inv s xs
    → is_terminated v ≡ false
    → Inv (set_pst pid v s) xs
set_pst-Inv pid v s xs i live =
    Inv-pcb s _ xs i (λ p. ground arith) (λ p m. ground (arith, i.alive p m))

-- SIGKILL: what is left of the queue has not ended.
sigkill-Inv :
    (pid : ℕ) (s : Procs) (xs : List ℕ)
    → Inv s xs
    → (s' : Procs) × (rq_rm pid (set_pst pid terminated s) ≡ ok s')
      × Inv s' (erase pid xs)
      × Erased pid (set_pst pid terminated s) (erase pid xs) s'
sigkill-Inv pid s xs i =
    let t : Procs = set_pst pid terminated s in
    let q : IsQueue t xs = record {
      size = i.queue.size;
      slots = i.queue.slots;
      bounded = i.queue.bounded;
    } in
    let named : IsNamed t xs = λ p m. ground (arith, i.named p m) in
    let (s', run, e) = rq_rm-erase pid t xs q named i.distinct in
    (
      s',
      run,
      record {
        queue = e.queue;
        named = λ p m. rw e.pcb (named p (has-erase pid p xs m));
        distinct = Distinct-erase pid xs i.distinct;
        inside = λ p m. i.inside p (has-erase pid p xs m);
        alive = λ p m. rw e.pcb (
            ground (
              arith,
              i.alive p (has-erase pid p xs m),
              has-erase_self pid xs i.distinct,
              other p m,
            ));
        current_inside = rw e.current i.current_inside;
        current_named = rw (e.current, e.pcb) (ground (arith, i.current_named));
      },
      e,
    )
  where
    other : (p : ℕ) → has p (erase pid xs) ≡ true → (pid == p) ≡ false
    other p m = elim (Bool-cases (pid == p)) [
      | inl e ↦ absurd (same p m (ground arith))
      | inr e ↦ e
    ]
      where
        same : (p : ℕ) → has p (erase pid xs) ≡ true → pid ≡ p → ⊥
        same p m e = let h = has-erase_self pid xs i.distinct in ground (arith, rw (← e) at m)

-- A signal to a pid below the limit is delivered, and the invariant holds of what is left.
signal-Inv :
    (pid sig : ℕ) (s : Procs) (xs : List ℕ)
    → Inv s xs
    → (s' : Procs) × (signal pid sig s ≡ ok s') × Delivered pid sig s xs s'
unfolding signal
signal-Inv pid sig s xs i = elim (Bool-cases (sig == sigkill)) [
  | inl e ↦
      let (s', run, inv, gone) = sigkill-Inv pid s xs i in
      (
        s',
        rw e run,
        record {
          inv = rw e inv;
          state = λ p. rw (gone.pcb, e) (ground arith);
          current = gone.current;
          defp = λ p. rw (gone.pcb, ==→eq sig sigkill e) (ground arith);
          prio = λ p. rw (gone.pcb, ==→eq sig sigkill e) (ground arith);
          ctx = λ p. rw gone.pcb (ground arith);
          fd = λ p. rw gone.pcb (ground arith);
        },
      )
  | inr e₀ ↦ elim (Bool-cases (sig == sigwait)) [
    | inl e ↦ (
      set_pst pid waiting s,
      rw (e₀, e),
      record {
        inv = rw e₀ (set_pst-Inv pid waiting s xs i refl);
        state = λ p. rw (e₀, e) (ground arith);
        current = refl;
        defp = λ p. rw (==→eq sig sigwait e) (ground arith);
        prio = λ p. rw (==→eq sig sigwait e) (ground arith);
        ctx = λ p. ground arith;
        fd = λ p. ground arith;
      },
    )
    | inr e₁ ↦ elim (Bool-cases (sig == sigcont)) [
      | inl e ↦ (
        woken,
        rw (e₀, e₁, e),
        record {
          inv = rw e₀ (woken-Inv (is_waiting (s.pcb pid).pst));
          state = λ p. rw (e₀, e₁, e) (ground arith);
          current = ground arith;
          defp = λ p. rw (==→eq sig sigcont e) (ground arith);
          prio = λ p. rw (==→eq sig sigcont e) (ground arith);
          ctx = λ p. ground arith;
          fd = λ p. ground arith;
        },
      )
      | inr e₂ ↦ elim (Bool-cases (sig == sigpri0)) [
        | inl e ↦ (
          record s { pcb = lowered },
          rw (e₀, e₁, e₂, e),
          record {
            inv =
                rw e₀
                  (Inv-pcb s lowered xs i (λ p. ground arith) (λ p m. ground (arith, i.alive p m)));
            state = λ p. rw (e₀, e₁, e₂) (ground arith);
            current = refl;
            defp = λ p. rw e (ground arith);
            prio = λ p. rw e (ground arith);
            ctx = λ p. ground arith;
            fd = λ p. ground arith;
          },
        )
        | inr e₃ ↦ (
          s,
          rw (e₀, e₁, e₂, e₃),
          record {
            inv = rw e₀ i;
            state = λ p. rw (e₀, e₁, e₂) (ground arith);
            current = refl;
            defp = λ p. rw e₃ (ground arith);
            prio = λ p. rw e₃ (ground arith);
            ctx = λ p. refl;
            fd = λ p. refl;
          },
        )
      ]
    ]
  ]
]
  where
    woken : Procs
    woken = if is_waiting (s.pcb pid).pst then set_pst pid executing s else s

    woken-Inv : (b : Bool) → Inv (if b then set_pst pid executing s else s) xs
    woken-Inv true = set_pst-Inv pid executing s xs i refl
    woken-Inv false = i

    lowered : ℕ → Pcb
    lowered = update s.pcb pid (record (s.pcb pid) { defp = 0; prio = 0 })

-- kill of a pid below PROCESS_LIMIT, with any signal, does not fault and keeps the invariant.
-- SIGKILL takes the process out of the queue and makes it TERMINATED; SIGWAIT makes it WAITING;
-- SIGCONT makes it EXECUTING if it was WAITING; SIGPRI0 sets both its priorities to 0. No other signal
-- changes its state or its priorities, none but SIGKILL the queue, none its registers or descriptors,
-- and none anything of another process.
pub kill-Delivered :
    (pid sig : ℕ) (s : Procs) (xs : List ℕ)
    → pid < process_limit
    → Inv s xs
    → (s' : Procs) × (kill pid sig s ≡ ok s') × Delivered pid sig s xs s'
unfolding kill
kill-Delivered pid sig s xs lt i =
    let (s', run, d) = signal-Inv pid sig s xs i in
    (s', rw (inside, lt→ltb pid process_limit lt) run, d)
  where
    inside : nonneg pid && leb pid process_limit ≡ true
    inside = ground arith

-- kill of pid 8 passes the test of the pid and writes behind the end of `pcb`; every other pid
-- from PROCESS_LIMIT on, a negative one too, changes nothing, but for SIGKILL to pid 9.
pub kill_beyond :
    (pid sig : ℕ) (s : Procs)
    → process_limit ≤ pid
    → ((pid ≡ 9) × (sig ≡ sigkill) → ⊥)
    → kill pid sig s ≡ (if pid == process_limit then fault else ok s)
unfolding kill
kill_beyond pid sig s far other = ground (arith, other)

terminate_from_lem :
    (rounds p q : ℕ) (s : Procs)
    → ((terminate_from rounds p s).pcb q).pst
      ≡ (if leb p q && ltb q (p + rounds) then terminated else (s.pcb q).pst)
unfolding terminate_from
terminate_from_lem zero p q s = ground arith
terminate_from_lem (suc rounds) p q s =
    ground (arith, terminate_from_lem rounds (p + 1) q (set_pst p terminated s))

terminate_from-rq :
    (rounds p : ℕ) (s : Procs)
    → ((terminate_from rounds p s).rq ≡ s.rq) × ((terminate_from rounds p s).rq_size ≡ s.rq_size)
unfolding terminate_from
terminate_from-rq zero p s = (refl, refl)
terminate_from-rq (suc rounds) p s = terminate_from-rq rounds (p + 1) (set_pst p terminated s)

-- SIGKILL to pid 9 ends every process but init and leaves the queue as it was, so after it the
-- invariant fails of every queue that holds another process than init.
pub kill_all-breaks :
    (p : ℕ) (s : Procs) (xs : List ℕ)
    → Inv s xs
    → has p xs ≡ true
    → p ≢ 0
    → (s' : Procs) × (kill 9 sigkill s ≡ ok s')
      × IsQueue s' xs
      × ((s'.pcb p).pst ≡ terminated)
      × ¬ Inv s' xs
unfolding kill
kill_all-breaks p s xs i m ne = (
  s',
  refl,
  record {
    size = (terminate_from-rq 7 1 s).1 ∙ i.queue.size;
    slots = rw ((terminate_from-rq 7 1 s).0) i.queue.slots;
    bounded = i.queue.bounded;
  },
  ended,
  λ bad. ground (arith, bad.alive p m, ended),
)
  where
    s' : Procs
    s' = terminate_from 7 1 s

    ended : (s'.pcb p).pst ≡ terminated
    ended = ground (arith, terminate_from_lem 7 1 p s, i.inside p m)
