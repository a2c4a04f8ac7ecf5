-- ===== src/Proc/Tests.antt =====
-- The process table of kernel/kernel.c at concrete inputs: two processes that run, in slots 0, 1.
use arm_kernel.Base.{
  ℕ, ◌≡◌, ◌+◌, refl, List, [], ◌∷◌, some, none, arith, ltb, if◌then◌else◌, ok, out_of_fuel,
}
use arm_kernel.Proc.{process_limit, Ctx, Pst, Pcb, Procs, terminated, executing, waiting}
use arm_kernel.Proc.ReadyQueue.{rq_add, rq_rm, rq_rotate}
use arm_kernel.Proc.ReadyQueue.Content.{IsQueue}
use arm_kernel.Proc.ReadyQueue.Rotate.{rq_rotate-diverges}
use arm_kernel.Proc.ReadyQueue.Remove.{Erased, rq_rm-erase}
use arm_kernel.Proc.Signal.{sigkill, kill}
use arm_kernel.Proc.Lifecycle.{zero_ctx, fork}
use arm_kernel.Proc.Scheduler.{scheduler}
use arm_kernel.Proc.Invariant.{Inv}
use arm_kernel.Proc.Invariant.Signals.{Delivered, kill-Delivered}
use arm_kernel.Proc.Invariant.Forks.{Forked, fork-Forked}
use arm_kernel.Proc.Interrupt.{source_timer0, handler_irq}
use arm_kernel.Proc.Invariant.Interrupts.{Handled, handler_irq-Handled}
use arm_kernel.Proc.Invariant.Schedules.{Dispatched, scheduler-Dispatched}

abbrev slot : Pst → ℕ → Pcb
slot v p = record {
  pid = p;
  prt = 0;
  ctx = record zero_ctx { pc = 100 + p };
  pst = v;
  defp = 1;
  prio = 1;
  fd = λ _. none;
}

abbrev table : Pst → Procs
table v = record {
  pcb = λ p. if ltb p 2 then slot v p else slot terminated p;
  current = 0;
  rq = λ i. if ltb i 2 then some i else none;
  rq_size = 2;
}

abbrev two : Procs
two = table executing

abbrev asleep : Procs
asleep = table waiting

abbrev both : List ℕ
both = 0 ∷ 1 ∷ []

table-IsQueue : (v : Pst) → IsQueue (table v) both
table-IsQueue v = record { size = refl; slots = (refl, (refl, tt)); bounded = omega arith }

two-Inv : Inv two both
two-Inv = record {
  queue = table-IsQueue executing;
  named = λ p m. ground arith;
  distinct = (refl, (refl, tt));
  inside = λ p m. ground arith;
  alive = λ p m. ground arith;
  current_inside = omega arith;
  current_named = refl;
}

scheduler-Dispatched_example :
    (ctx' : Ctx) × (s' : Procs) × (scheduler zero_ctx two ≡ ok (ctx', s'))
    × Dispatched zero_ctx two 1 ctx' s'
    × Inv s' (1 ∷ 0 ∷ [])
scheduler-Dispatched_example =
    scheduler-Dispatched zero_ctx two 0 1 (1 ∷ []) [] (0 ∷ []) two-Inv refl tt refl

fork-Forked_example : Forked zero_ctx two both 0 process_limit (fork zero_ctx two)
fork-Forked_example = fork-Forked zero_ctx two both two-Inv

kill-Delivered_example :
    (s' : Procs) × (kill 1 sigkill two ≡ ok s') × Delivered 1 sigkill two both s'
kill-Delivered_example = kill-Delivered 1 sigkill two both (omega arith) two-Inv

rq_rm-erase_example : (s' : Procs) × (rq_rm 0 two ≡ ok s') × Erased 0 two (1 ∷ []) s'
rq_rm-erase_example = rq_rm-erase 0 two both two-Inv.queue two-Inv.named two-Inv.distinct

rq_rotate-diverges_example : rq_rotate 5 asleep ≡ out_of_fuel
rq_rotate-diverges_example =
    rq_rotate-diverges 5 asleep 0 (1 ∷ []) (table-IsQueue waiting) (refl, (refl, tt))

handler_irq-Handled_example :
    Handled zero_ctx two 1 (1 ∷ 0 ∷ []) source_timer0 (handler_irq source_timer0 zero_ctx two)
handler_irq-Handled_example =
    handler_irq-Handled source_timer0 zero_ctx two 0 1 (1 ∷ []) [] (0 ∷ []) two-Inv refl tt refl

-- fork takes slot 2 of the two processes' table.
fork-two : (fork zero_ctx two).0 ≡ 2
unfolding fork rq_add
fork-two = refl
