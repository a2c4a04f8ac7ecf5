-- ===== src/Svc/System.antt =====
-- The kernel from reset on: kernel_handler_rst, and steps that are supervisor calls, interrupts, or
-- what happens between two of them (kernel/kernel.c).
pub mod Reached
use arm_kernel.Base.{ℕ, ◌≡◌, List, Run, ok}
use arm_kernel.Proc.{Ctx, Procs}
use arm_kernel.Proc.Lifecycle.{reset}
use arm_kernel.Proc.Interrupt.{handler_irq}
use arm_kernel.Fs.Disk.{disk_rd, block_size}
use arm_kernel.Fs.Alloc.{fs_of_bytes}
use arm_kernel.Files.Paths.{root_dir}
use arm_kernel.Svc.{Machine, with_procs}
use arm_kernel.Svc.Handler.{Env, handler_svc}

-- The registers of the program that runs, which a trap saves, and all else.
pub record System : Type 0 where
  pub ctx : Ctx
  pub machine : Machine

-- kernel_handler_rst, less the registers of the devices.
unfoldable pub boot : (entry_init tos_init : ℕ) → Machine → System
unfolding reset disk_rd fs_of_bytes
boot entry_init tos_init m =
    let (ctx, t) = reset entry_init tos_init m.kernel.procs in
    let fs = fs_of_bytes (disk_rd 1 (λ _. 0) block_size m.kernel.store.disk) in
    record {
      ctx = ctx;
      machine = record m {
        kernel = record (m.kernel) { procs = t; store = record (m.kernel.store) { fs = fs } };
        cwd = root_dir;
      };
    }

-- A call that is among those allowed; an interrupt; or the program changes its registers and the
-- memory, and characters are typed.
pub data Step (Allowed : Ctx → Machine → ℕ → Type 0) : System → System → Type 0 where
  call :
      (s : System) (env : Env) (id : ℕ) (ctx : Ctx) (m : Machine)
      → Allowed s.ctx s.machine id
      → handler_svc env s.ctx id s.machine ≡ ok (ctx, m)
      → Step Allowed s (record { ctx = ctx; machine = m })
  interrupt :
      (s : System) (id : ℕ) (ctx : Ctx) (t : Procs)
      → handler_irq id s.ctx s.machine.kernel.procs ≡ ok (ctx, t)
      → Step Allowed s (record { ctx = ctx; machine = with_procs t s.machine })
  user :
      (s : System) (ctx : Ctx) (mem : ℕ → ℕ) (typed : List ℕ)
      → Step Allowed s
          (record { ctx = ctx; machine = record s.machine { mem = mem; typed = typed } })

pub data Reach (Allowed : Ctx → Machine → ℕ → Type 0) (s : System) : System → Type 0 where
  here : Reach Allowed s s
  next : {t u : System} → Reach Allowed s t → Step Allowed t u → Reach Allowed s u
