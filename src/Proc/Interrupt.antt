-- ===== src/Proc/Interrupt.antt =====
-- kernel_handler_irq of kernel/kernel.c: what it does to the process table. The registers of the
-- interrupt controller and of the devices are not modelled.
use arm_kernel.Base.{ℕ, ◌==◌, if◌then◌else◌, update, Run, ok}
use arm_kernel.Proc.{Ctx, Procs}
use arm_kernel.Proc.Scheduler.{scheduler}

-- GIC_SOURCE_TIMER0 and GIC_SOURCE_UART0.
abbrev pub source_timer0 : ℕ
source_timer0 = 36

abbrev pub source_uart0 : ℕ
source_uart0 = 44

-- Both priorities of pcb[ 0 ] at 0x7FFFFFFF.
abbrev pub raise_init : Procs → Procs
raise_init s = record s {
  pcb = update s.pcb 0 (record (s.pcb 0) { defp = 0x7FFF_FFFF; prio = 0x7FFF_FFFF });
}

unfoldable pub handler_irq : (id : ℕ) → Ctx → Procs → Run (Ctx × Procs)
unfolding scheduler
handler_irq id ctx s =
    if id == source_timer0
    then scheduler ctx s
    else if id == source_uart0
    then (if (s.pcb s.current).pid == 0 then ok (ctx, s) else scheduler ctx (raise_init s))
    else ok (ctx, s)
