-- ===== src/Proc/Invariant/Interrupts.antt =====
-- kernel_handler_irq of kernel/kernel.c against the invariant of the process table.
use arm_kernel.Base.{
  ℕ, ◌≡◌, ◌≢◌, refl, List, [], ◌∷◌, ◌++◌, ◌==◌, inl, inr, ◌⊎◌, Bool-cases, arith, All, Run, ok,
  ==→eq, ==→ne,
}
use arm_kernel.Proc.{Ctx, Procs}
use arm_kernel.Proc.Interrupt.{source_timer0, source_uart0, raise_init, handler_irq}
use arm_kernel.Proc.ReadyQueue.Rotate.{IsLive, IsIdle}
use arm_kernel.Proc.Invariant.{Inv, Inv-pcb}
use arm_kernel.Proc.Invariant.Schedules.{Dispatched, scheduler-Dispatched}

pub raise_init-Inv : (s : Procs) (xs : List ℕ) → Inv s xs → Inv (raise_init s) xs
raise_init-Inv s xs i =
    Inv-pcb s (raise_init s).pcb xs i (λ p. ground arith) (λ p m. ground (arith, i.alive p m))

raise_init-Idle : (s : Procs) (ys : List ℕ) → All (IsIdle s) ys → All (IsIdle (raise_init s)) ys
raise_init-Idle s [] idle = tt
raise_init-Idle s (y ∷ ys) idle = (ground (arith, idle.0), raise_init-Idle s ys idle.1)

-- What an interrupt does: another process comes to run as by scheduler, or nothing at all changes.
pub data Handled (ctx : Ctx) (s : Procs) (x : ℕ) (xs : List ℕ) (id : ℕ) (r : Run (Ctx × Procs))
    : Type 0 where
  ticked :
      (ctx' : Ctx) (s' : Procs)
      → r ≡ ok (ctx', s')
      → id ≡ source_timer0
      → Dispatched ctx s x ctx' s'
      → Inv s' xs
      → Handled ctx s x xs id r
  typed :
      (ctx' : Ctx) (s' : Procs)
      → r ≡ ok (ctx', s')
      → id ≡ source_uart0
      → s.current ≢ 0
      → Dispatched ctx (raise_init s) x ctx' s'
      → ((s'.pcb 0).defp ≡ 0x7FFF_FFFF) × ((s'.pcb 0).prio ≡ 0x7FFF_FFFF)
      → Inv s' xs
      → Handled ctx s x xs id r
  ignored :
      r ≡ ok (ctx, s)
      → id ≢ source_timer0
      → ((id ≡ source_uart0) → s.current ≡ 0)
      → Handled ctx s x xs id r

-- While some process of the queue is EXECUTING, kernel_handler_irq ends without a fault: the timer
-- runs scheduler, and so does the UART unless init runs, and both priorities of init are then at
-- their greatest;
-- any other source changes nothing. The invariant holds again of the rotated queue.
pub handler_irq-Handled :
    (id : ℕ) (ctx : Ctx) (s : Procs) (h x : ℕ) (t ys rest : List ℕ)
    → Inv s (h ∷ t)
    → t ++ h ∷ [] ≡ ys ++ x ∷ rest
    → All (IsIdle s) ys
    → IsLive s x
    → Handled ctx s x (x ∷ rest ++ ys) id (handler_irq id ctx s)
unfolding handler_irq
handler_irq-Handled id ctx s h x t ys rest i e idle live = elim (Bool-cases (id == source_timer0)) [
  | inl timer ↦
      let (ctx', s', run, d, i') = scheduler-Dispatched ctx s h x t ys rest i e idle live in
      rw timer (ticked ctx' s' run (==→eq id source_timer0 timer) d i')
  | inr not_timer ↦
      let no_timer = ==→ne id source_timer0 not_timer in
      elim (Bool-cases (id == source_uart0)) [
        | inl uart ↦
            let source = ==→eq id source_uart0 uart in
            elim (Bool-cases ((s.pcb s.current).pid == 0)) [
              | inl init ↦
                  rw (not_timer, uart, init)
                    (ignored refl no_timer (λ u. ground (arith, i.current_named, init)))
              | inr other ↦
                  let (ctx', s', run, d, i') =
                    scheduler-Dispatched ctx (raise_init s) h x t ys rest
                      (raise_init-Inv s (h ∷ t) i) e (raise_init-Idle s ys idle)
                      (ground (arith, live)) in
                  rw (not_timer, uart, other)
                    (typed ctx' s' run source (λ z. ground (arith, i.current_named, other)) d
                      (
                        d.defps 0,
                        raised (d.prios 0 (λ z. ground (arith, i.current_named, other, z))),
                      )
                      i')
            ]
        | inr not_uart ↦
            let no_uart = ==→ne id source_uart0 not_uart in
            rw (not_timer, not_uart) (ignored refl no_timer (λ u. absurd (no_uart u)))
      ]
]
  where
    raised : {v : ℕ} → (v ≡ 0x7FFF_FFFF) ⊎ (v ≡ 0x7FFF_FFFF) → v ≡ 0x7FFF_FFFF
    raised (inl e) = e
    raised (inr e) = e
