-- ===== src/Proc.antt =====
-- The process table of kernel/kernel.c, as kernel/kernel.h declares it, and the signals of
-- kernel/terms.h. A `pcb_t *` is an index into `pcb`; NULL is `none`. `current` is never NULL once
-- kernel_handler_rst has run, and no handler runs before it.
pub mod ReadyQueue
pub mod Signal
pub mod Lifecycle
pub mod Scheduler
pub mod Interrupt
pub mod Invariant
mod Tests
use arm_kernel.Base.{ℕ, Bool, true, false, Option, update}

-- PROCESS_LIMIT.
abbrev pub process_limit : ℕ
process_limit = 8

-- FDT_LIMIT.
abbrev pub fdt_limit : ℕ
fdt_limit = 16

-- ctx_t, the saved registers.
pub record Ctx : Type 0 where
  pub cpsr : ℕ
  pub pc : ℕ
  pub gpr : ℕ → ℕ
  pub sp : ℕ
  pub lr : ℕ

-- pst_t.
pub data Pst : Type 0 where
  terminated created ready executing waiting : Pst

abbrev pub is_terminated : Pst → Bool
is_terminated terminated = true
is_terminated _ = false

abbrev pub is_executing : Pst → Bool
is_executing executing = true
is_executing _ = false

abbrev pub is_waiting : Pst → Bool
is_waiting waiting = true
is_waiting _ = false

-- pcb_t. The file descriptor table holds indices into the open file table.
pub record Pcb : Type 0 where
  pub pid : ℕ
  pub prt : ℕ
  pub ctx : Ctx
  pub pst : Pst
  pub defp : ℕ
  pub prio : ℕ
  pub fd : ℕ → Option ℕ

-- The globals `pcb`, `current`, `rq` and `rq_size`.
pub record Procs : Type 0 where
  pub pcb : ℕ → Pcb
  pub current : ℕ
  pub rq : ℕ → Option ℕ
  pub rq_size : ℕ

-- pcb[ p ].pst = v
abbrev pub set_pst : ℕ → Pst → Procs → Procs
set_pst p v s = record s { pcb = update s.pcb p (record (s.pcb p) { pst = v }) }
