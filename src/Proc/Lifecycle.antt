-- ===== src/Proc/Lifecycle.antt =====
-- fork and exec of kernel/kernel.c, and the process part of kernel_handler_rst.
use arm_kernel.Base.{ℕ, zero, suc, ◌+◌, ◌*◌, Option, none, some, if◌then◌else◌, update}
use arm_kernel.Base.Words.{neg1, sub32}
use arm_kernel.Proc.{process_limit, Ctx, Procs, executing, is_terminated}
use arm_kernel.Proc.ReadyQueue.{rq_add}

-- The body of fork's `if`. The slot keeps the descriptor table of the process that had it.
unfoldable pub spawn : ℕ → Ctx → Procs → Procs
unfolding rq_add
spawn p ctx s =
    let pcb = update s.pcb p (record (s.pcb p) { pid = p }) in
    rq_add p (record s {
      pcb = update pcb p (record {
        pid = p;
        prt = (pcb s.current).pid;
        ctx = record ctx { gpr = update ctx.gpr 0 0 };
        pst = executing;
        defp = 0x7FFF_FFFF;
        prio = 0x7FFF_FFFF;
        fd = (s.pcb p).fd;
      });
    })

-- fork's loop over the slots, from `p` on.
unfoldable pub fork_from : ℕ → ℕ → Ctx → Procs → ℕ × Procs
unfolding spawn
fork_from zero p ctx s = (neg1, s)
fork_from (suc rounds) p ctx s =
    let rest = fork_from rounds (p + 1) ctx s in
    if is_terminated (s.pcb p).pst then (p, spawn p ctx s) else rest

unfoldable pub fork : Ctx → Procs → ℕ × Procs
unfolding fork_from
fork ctx s = fork_from process_limit 0 ctx s

-- A pcb after memset( …, 0, sizeof( pcb_t ) ); TERMINATED is 0.
abbrev pub zero_ctx : Ctx
zero_ctx = record { cpsr = 0; pc = 0; gpr = λ _. 0; sp = 0; lr = 0 }

-- `found` is what getProgramEntry read, entry and priority; `tos_init` is the linker's symbol.
unfoldable pub exec : (tos_init : ℕ) → Ctx → Option (ℕ × ℕ) → Procs → ℕ × Ctx × Procs
exec tos_init ctx none s = (neg1, ctx, s)
exec tos_init ctx (some (entry, priority)) s =
    let pid = (s.pcb s.current).pid in
    let start : Ctx = record zero_ctx {
      cpsr = 0x50;
      pc = entry;
      sp = sub32 tos_init (pid * 0x1_0000);
    } in
    (
      0,
      start,
      record s {
        pcb = update s.pcb s.current (record {
          pid = pid;
          prt = 0;
          ctx = start;
          pst = executing;
          defp = priority;
          prio = priority;
          fd = λ _. none;
        });
      },
    )

-- pcb[ 0 ], `current`, the context and the queue at reset.
unfoldable pub reset : (entry_init tos_init : ℕ) → Procs → Ctx × Procs
unfolding rq_add
reset entry_init tos_init s =
    let start : Ctx = record zero_ctx { cpsr = 0x50; pc = entry_init; sp = tos_init } in
    (
      start,
      rq_add 0 (record s {
        pcb = update s.pcb 0 (record {
          pid = 0;
          prt = 0;
          ctx = start;
          pst = executing;
          defp = 1;
          prio = 1;
          fd = λ _. none;
        });
        current = 0;
        rq_size = 0;
      }),
    )
