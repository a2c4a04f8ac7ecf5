-- ===== src/Svc/System/Reached.antt =====
-- What holds of every state that the kernel reaches from reset (kernel/kernel.c).
use arm_kernel.Base.{ℕ, ◌≡◌, false}
use arm_kernel.Base.Returns.{Returns, Returns-Always}
use arm_kernel.Proc.{Ctx}
use arm_kernel.Proc.Interrupt.{handler_irq}
use arm_kernel.Proc.Invariant.Lively.{Lively}
use arm_kernel.Proc.Invariant.Awake.{Awake, handler_irq-Awake, handler_irq-Lively, reset-Awake}
use arm_kernel.Mqueue.Awake.{AllKnown}
use arm_kernel.Svc.{Machine}
use arm_kernel.Svc.System.{System, boot, Step, call, interrupt, user, Reach, here, next}
use arm_kernel.Svc.Invariant.Handler.{Spares, handler_svc-Lively}
use arm_kernel.Svc.Invariant.Ends.{Sound, Fits, is_file_call, handler_svc-Sound}

module _ (q : ℕ) where
  Step-Lively :
      {s t : System}
      → Step (Spares q) s t
      → Lively q s.machine.kernel.procs
      → Lively q t.machine.kernel.procs
  Step-Lively (call s env id ctx m spares run) l =
      (handler_svc-Lively q id env s.ctx s.machine l spares).holds (ctx, m) run
  Step-Lively (interrupt s id ctx t run) l =
      (handler_irq-Lively q id s.ctx s.machine.kernel.procs l).holds (ctx, t) run
  Step-Lively (user s ctx mem typed) l = l

  Reach-Lively :
      {s t : System}
      → Lively q s.machine.kernel.procs
      → Reach (Spares q) s t
      → Lively q t.machine.kernel.procs
  Reach-Lively l here = l
  Reach-Lively l (next r st) = Step-Lively st (Reach-Lively l r)

  -- Of the calls that do not touch files, those with arguments that fit.
  abbrev pub Calm : Ctx → Machine → ℕ → Type 0
  Calm ctx m id = (is_file_call id ≡ false) × Fits q ctx m id

  Step-Sound : {s t : System} → Step Calm s t → Sound q s.machine → Sound q t.machine
  Step-Sound (call s env id ctx m (plain, fits) run) w =
      (Returns-Always (handler_svc-Sound q id env s.ctx s.machine w plain fits)).holds (ctx, m) run
  Step-Sound (interrupt s id ctx t run) w = (
    (Returns-Always (handler_irq-Awake q id s.ctx s.machine.kernel.procs w.0)).holds (ctx, t) run,
    w.1,
  )
  Step-Sound (user s ctx mem typed) w = w

  Reach-Sound : {s t : System} → Sound q s.machine → Reach Calm s t → Sound q t.machine
  Reach-Sound w here = w
  Reach-Sound w (next r st) = Step-Sound st (Reach-Sound w r)

boot-Awake :
    (entry_init tos_init : ℕ) (m : Machine)
    → Awake 0 (boot entry_init tos_init m).machine.kernel.procs
unfolding boot
boot-Awake entry_init tos_init m = reset-Awake entry_init tos_init m.kernel.procs

pub boot-Sound :
    (entry_init tos_init : ℕ) (m : Machine)
    → AllKnown m.mq
    → Sound 0 (boot entry_init tos_init m).machine
unfolding boot
boot-Sound entry_init tos_init m known = (boot-Awake entry_init tos_init m, known)

-- In every state that is reached from reset by any calls, interrupts and steps of programs, the
-- process table is in order with init in the queue, as long as no kill sends SIGKILL to init or to
-- pid 9, and init raises none.
pub booted-Lively :
    (entry_init tos_init : ℕ) (m : Machine) (t : System)
    → Reach (Spares 0) (boot entry_init tos_init m) t
    → Lively 0 t.machine.kernel.procs
booted-Lively entry_init tos_init m t r = Reach-Lively 0 (boot-Awake entry_init tos_init m).lively r

-- From reset with channels that note pids of the table, and through calls as handler_svc-Sound asks
-- for them with `q` = init, interrupts and steps of programs, the next interrupt returns, and init is
-- then in the queue and EXECUTING: the kernel never ends up in rq_rotate without end.
pub booted-Awake :
    (entry_init tos_init : ℕ) (m : Machine) (t : System) (id : ℕ)
    → AllKnown m.mq
    → Reach (Calm 0) (boot entry_init tos_init m) t
    → Returns (λ r. Awake 0 r.1) (handler_irq id t.ctx t.machine.kernel.procs)
booted-Awake entry_init tos_init m t id known r =
    handler_irq-Awake 0 id t.ctx t.machine.kernel.procs
      (Reach-Sound 0 (boot-Sound entry_init tos_init m known) r).0
