-- ===== src/Proc/Invariant/Awake.antt =====
-- While process `q` is in the queue and EXECUTING, kill, fork, scheduler and kernel_handler_irq of
-- kernel/kernel.c return, and leave it so, unless a signal goes to `q` itself.
use arm_kernel.Base.{
  ℕ, zero, suc, ◌+◌, ◌<◌, ◌≡◌, ◌≢◌, ◌∙◌, refl, arith, List, [], ◌∷◌, ◌++◌, has, has-append, true,
  ◌==◌, ap, Bool-cases, inl, inr, ◌⊎◌, ==→eq, ne→==, if◌then◌else◌, ok, All-has,
}
use arm_kernel.Base.Always.{Always, Always-ok, Always-if}
use arm_kernel.Base.Returns.{Returns, Returns-ok, Returns-if}
use arm_kernel.Proc.{
  process_limit, Ctx, Procs, Pst, executing, is_executing, is_terminated, is_waiting,
}
use arm_kernel.Proc.Signal.{kill, sigkill, sigwait, sigcont}
use arm_kernel.Proc.Scheduler.{scheduler}
use arm_kernel.Proc.Lifecycle.{fork, fork_from, spawn, reset}
use arm_kernel.Proc.ReadyQueue.{rq_add}
use arm_kernel.Proc.ReadyQueue.Rotate.{IsLive, IsIdle}
use arm_kernel.Proc.Interrupt.{handler_irq, raise_init, source_timer0, source_uart0}
use arm_kernel.Proc.Invariant.{Inv}
use arm_kernel.Proc.Invariant.Forks.{reset-Inv}
use arm_kernel.Proc.Invariant.Interrupts.{raise_init-Inv}
use arm_kernel.Proc.Invariant.Signals.{kill-Delivered, signalled}
use arm_kernel.Proc.Invariant.Schedules.{scheduler-Dispatched}
use arm_kernel.Proc.Invariant.Lively.{
  Lively, kill-Lively, scheduler-Lively, fork-Lively, first-IsLive,
}

pub record Awake (q : ℕ) (s : Procs) : Type 0 where
  pub lively : Lively q s
  pub live : IsLive s q

-- The signal leaves `q` awake.
abbrev pub Gentle : (q pid sig : ℕ) → Type 0
Gentle q pid sig = (sig ≡ sigkill) ⊎ (sig ≡ sigwait) → pid ≢ q

signalled-live :
    (sig : ℕ) (v : Pst)
    → sig ≢ sigkill
    → sig ≢ sigwait
    → is_executing v ≡ true
    → is_executing (signalled sig v) ≡ true
signalled-live sig v a b live =
    rw (ne→== sig sigkill a, ne→== sig sigwait b)
      (elim (Bool-cases (sig == sigcont)) [
        | inl e ↦ rw e (executing_stays v live)
        | inr e ↦ rw e live
      ])
  where
    executing_stays :
        (v : Pst)
        → is_executing v ≡ true
        → is_executing (if is_waiting v then executing else v) ≡ true
    executing_stays v live = ground (arith, live)

pub kill-Awake :
    (q pid sig : ℕ) (s : Procs)
    → Awake q s
    → pid < process_limit
    → Gentle q pid sig
    → Returns (Awake q) (kill pid sig s)
kill-Awake q pid sig s w lt gentle =
    let (s', run, d) = kill-Delivered pid sig s w.lively.queue lt w.lively.inv in
    let kept =
      kill-Lively q pid sig s w.lively (λ e. (gentle (inl e), λ f. omega (arith, f, lt))) in
    record {
      value = s';
      ends = run;
      holds = record {
        lively = kept.holds s' run;
        live = ap is_executing (d.state q) ∙ (elim (Bool-cases (pid == q)) [
          | inl e ↦
              let same : pid ≡ q = ==→eq pid q e in
              rw e (
                signalled-live sig (s.pcb q).pst (λ f. gentle (inl f) same)
                  (λ f. gentle (inr f) same) w.live)
          | inr e ↦ rw e w.live
        ]);
      };
    }

-- Some process of the queue is found by the rotation.
scheduler_ends :
    (q h : ℕ) (t : List ℕ) (ctx : Ctx) (s : Procs)
    → Inv s (h ∷ t)
    → has q (h ∷ t) ≡ true
    → IsLive s q
    → (ctx' : Ctx) × (s' : Procs) × (scheduler ctx s ≡ ok (ctx', s')) × IsLive s' q
scheduler_ends q h t ctx s i m live = elim (first-IsLive s (t ++ h ∷ [])) [
  | inl idle ↦
      let met : has q (t ++ h ∷ []) ≡ true = ground (arith, m, has-append q t (h ∷ [])) in
      let f = All-has (IsIdle s) q (t ++ h ∷ []) idle met in absurd (ground (arith, f, live))
  | inr (front, x, bs, e, before, first) ↦
      let (ctx', s', run, d, inv) = scheduler-Dispatched ctx s h x t front bs i e before first in
      (ctx', s', run, ap is_executing (d.states q) ∙ live)
]

pub scheduler-Awake :
    (q : ℕ) (ctx : Ctx) (s : Procs) → Awake q s → Returns (λ r. Awake q r.1) (scheduler ctx s)
scheduler-Awake q ctx s w = go w.lively.queue w.lively.inv w.lively.member
  where
    go : (xs : List ℕ) → Inv s xs → has q xs ≡ true → Returns (λ r. Awake q r.1) (scheduler ctx s)
    go [] i m = absurd (ground arith)
    go (h ∷ t) i m =
        let (ctx', s', run, live) = scheduler_ends q h t ctx s i m w.live in
        record {
          value = (ctx', s');
          ends = run;
          holds = record {
            lively = (scheduler-Lively q ctx s w.lively).holds (ctx', s') run;
            live = live;
          };
        }

spawn-IsLive : (q p : ℕ) (ctx : Ctx) (s : Procs) → IsLive s q → IsLive (spawn p ctx s) q
unfolding spawn rq_add
spawn-IsLive q p ctx s live = ground (arith, live)

fork_from-IsLive :
    (rounds p q : ℕ) (ctx : Ctx) (s : Procs) → IsLive s q → IsLive (fork_from rounds p ctx s).1 q
unfolding fork_from
fork_from-IsLive zero p q ctx s live = live
fork_from-IsLive (suc rounds) p q ctx s live = elim (Bool-cases (is_terminated (s.pcb p).pst)) [
  | inl e ↦ rw e (spawn-IsLive q p ctx s live)
  | inr e ↦ rw e (fork_from-IsLive rounds (p + 1) q ctx s live)
]

pub fork-Awake : (q : ℕ) (ctx : Ctx) (s : Procs) → Awake q s → Awake q (fork ctx s).1
unfolding fork
fork-Awake q ctx s w = record {
  lively = fork-Lively q ctx s w.lively;
  live = fork_from-IsLive process_limit 0 q ctx s w.live;
}

-- The interrupts: the timer and the UART run scheduler, others nothing.
module _ (q id : ℕ) (ctx : Ctx) (s : Procs) where
  pub handler_irq-Awake : Awake q s → Returns (λ r. Awake q r.1) (handler_irq id ctx s)
  unfolding handler_irq
  handler_irq-Awake w = Returns-if (id == source_timer0) (scheduler-Awake q ctx s w) (
      Returns-if (id == source_uart0)
        (Returns-if ((s.pcb s.current).pid == 0) (Returns-ok w) (
          scheduler-Awake q ctx (raise_init s) (record {
            lively = record {
              queue = w.lively.queue;
              inv = raise_init-Inv s w.lively.queue w.lively.inv;
              member = w.lively.member;
            };
            live = ground (arith, w.live);
          })))
        (Returns-ok w))

  pub handler_irq-Lively : Lively q s → Always (λ r. Lively q r.1) (handler_irq id ctx s)
  unfolding handler_irq
  handler_irq-Lively l = Always-if (id == source_timer0) (scheduler-Lively q ctx s l) (
      Always-if (id == source_uart0)
        (Always-if ((s.pcb s.current).pid == 0) (Always-ok l) (
          scheduler-Lively q ctx (raise_init s)
            (record { queue = l.queue; inv = raise_init-Inv s l.queue l.inv; member = l.member })))
        (Always-ok l))

-- At reset init is alone in the queue, and EXECUTING.
pub reset-Awake : (entry_init tos_init : ℕ) (s : Procs) → Awake 0 (reset entry_init tos_init s).1
unfolding reset rq_add
reset-Awake entry_init tos_init s = record {
  lively = record { queue = 0 ∷ []; inv = reset-Inv entry_init tos_init s; member = refl };
  live = refl;
}
