-- ===== src/Svc/Handler.antt =====
-- kernel_handler_svc of kernel/kernel.c: the calls that the other modules of Svc do not have, and
-- the choice by the number of the call.
use arm_kernel.Base.{ℕ, zero, suc, ◌==◌, if◌then◌else◌, List, [], ◌∷◌, Run, ok, ◌>>=◌}
use arm_kernel.Base.Words.{neg1}
use arm_kernel.Fs.Disk.{Block}
use arm_kernel.Proc.{Ctx}
use arm_kernel.Proc.Signal.{kill}
use arm_kernel.Proc.Lifecycle.{fork, exec}
use arm_kernel.Mqueue.{mq_open, mq_unlink, mq_send, mq_receive}
use arm_kernel.Files.{close_file, lseek, tell}
use arm_kernel.Files.Unlink.{unlink}
use arm_kernel.Files.Format.{wipe}
use arm_kernel.Svc.{
  Machine, result, with_procs, with_comm, comm_of, reschedule, bytes_at, put_bytes, put_char,
  string_at,
}
use arm_kernel.Svc.Paths.{open_path_at, get_program_entry}
use arm_kernel.Svc.Console.{svc_write, svc_read, svc_ls}
use arm_kernel.Svc.Directories.{Local, svc_mkdir, svc_cd, svc_mv, svc_cp}

-- The linker's symbols, and what locals hold before they are set.
pub record Env : Type 0 where
  pub tos_init : ℕ
  pub entry : ℕ → ℕ
  pub local : Local
  pub unset_entry : Block
  pub unset_priority : Block

unfoldable pub svc_fork : Ctx → Machine → Run (Ctx × Machine)
unfolding fork
svc_fork ctx m = let (r, t) = fork ctx m.kernel.procs in ok (result r ctx, with_procs t m)

-- The result goes to the registers that the program starts with.
unfoldable pub svc_exec : Env → Ctx → Machine → Run (Ctx × Machine)
unfolding get_program_entry exec
svc_exec env ctx m = do
  (found, m) ← get_program_entry env.unset_entry env.unset_priority (ctx.gpr 0) m
  let (r, ctx, t) = exec env.tos_init ctx found m.kernel.procs
  ok (result r ctx, with_procs t m)

unfoldable pub svc_lseek : Ctx → Machine → Run (Ctx × Machine)
unfolding lseek
svc_lseek ctx m = do
  (r, k) ← lseek (ctx.gpr 0) (ctx.gpr 1) (ctx.gpr 2) m.kernel
  ok (result r ctx, record m { kernel = k })

unfoldable pub svc_kill : Ctx → Machine → Run (Ctx × Machine)
unfolding kill
svc_kill ctx m = do t ← kill (ctx.gpr 0) (ctx.gpr 1) m.kernel.procs; ok (ctx, with_procs t m)

unfoldable pub svc_raise : Ctx → Machine → Run (Ctx × Machine)
unfolding kill reschedule
svc_raise ctx m = do
  t ← kill (m.kernel.procs.pcb m.kernel.procs.current).pid (ctx.gpr 0) m.kernel.procs
  reschedule ctx (with_procs t m)

unfoldable pub svc_mq_open : Ctx → Machine → Run (Ctx × Machine)
unfolding mq_open
svc_mq_open ctx m =
    let (r, mq) = mq_open (ctx.gpr 0) m.mq in ok (result r ctx, record m { mq = mq })

-- A call that fails gives up the processor.
unfoldable pub svc_send : Ctx → Machine → Run (Ctx × Machine)
unfolding mq_send reschedule
svc_send ctx m = do
  (r, c) ← mq_send (ctx.gpr 0) (bytes_at (ctx.gpr 1) m.mem) (ctx.gpr 2) (comm_of m)
  if r == neg1 then reschedule (result r ctx) (with_comm c m) else ok (result r ctx, with_comm c m)

unfoldable pub svc_receive : Ctx → Machine → Run (Ctx × Machine)
unfolding mq_receive reschedule
svc_receive ctx m = do
  let a = ctx.gpr 1
  let n = ctx.gpr 2
  (r, buf, c) ← mq_receive (ctx.gpr 0) (bytes_at a m.mem) n (comm_of m)
  let got : Machine = record (with_comm c m) { mem = put_bytes a n buf m.mem }
  if r == neg1 then reschedule (result r ctx) got else ok (result r ctx, got)

unfoldable pub svc_wipe : Env → Ctx → Machine → Run (Ctx × Machine)
unfolding wipe
svc_wipe env ctx m = do k ← wipe env.entry env.local.dir m.kernel; ok (ctx, record m { kernel = k })

unfoldable pub svc_open : Ctx → Machine → Run (Ctx × Machine)
unfolding open_path_at
svc_open ctx m = do (r, m) ← open_path_at (ctx.gpr 0) (ctx.gpr 1) m; ok (result r ctx, m)

unfoldable pub svc_close : Ctx → Machine → Run (Ctx × Machine)
unfolding close_file
svc_close ctx m = do
  (r, k) ← close_file (ctx.gpr 0) m.kernel
  ok (result r ctx, record m { kernel = k })

unfoldable pub svc_unlink : Ctx → Machine → Run (Ctx × Machine)
unfolding unlink string_at
svc_unlink ctx m = do
  name ← string_at (ctx.gpr 0) m
  let (r, k) = unlink name m.cwd m.kernel
  ok (result r ctx, record m { kernel = k })

unfoldable pub svc_tell : Ctx → Machine → Run (Ctx × Machine)
unfolding tell
svc_tell ctx m = ok (result (tell (ctx.gpr 0) m.kernel) ctx, m)

unfoldable pub svc_mq_unlink : Ctx → Machine → Run (Ctx × Machine)
unfolding mq_unlink
svc_mq_unlink ctx m = do
  (r, mq) ← mq_unlink (ctx.gpr 0) m.mq
  ok (result r ctx, record m { mq = mq })

-- Element `i` of a list, or `other` behind its end.
abbrev pub select {ℓ} : {A : Type ℓ} → List A → A → ℕ → A
select [] other i = other
select (x ∷ xs) other zero = x
select (x ∷ xs) other (suc i) = select xs other i

unfoldable pub svc_pwd : Ctx → Machine → Run (Ctx × Machine)
svc_pwd ctx m = ok (ctx, put_char b'/' m)

-- An unknown call.
abbrev pub svc_none : Ctx → Machine → Run (Ctx × Machine)
svc_none ctx m = ok (ctx, m)

-- The cases, by number from 0x00 to 0x16.
abbrev pub cases : Env → List (Ctx → Machine → Run (Ctx × Machine))
cases env =
    reschedule
    ∷ svc_write
    ∷ svc_read
    ∷ svc_fork
    ∷ (svc_exec env)
    ∷ svc_lseek
    ∷ svc_kill
    ∷ svc_raise
    ∷ svc_mq_open
    ∷ svc_send
    ∷ svc_receive
    ∷ (svc_wipe env)
    ∷ svc_open
    ∷ svc_close
    ∷ svc_pwd
    ∷ svc_ls
    ∷ (svc_mkdir env.local)
    ∷ svc_cd
    ∷ svc_unlink
    ∷ svc_mv
    ∷ (svc_cp env.local)
    ∷ svc_tell
    ∷ svc_mq_unlink
    ∷ []

unfoldable pub handler_svc : Env → Ctx → (id : ℕ) → Machine → Run (Ctx × Machine)
handler_svc env ctx id m = select (cases env) svc_none id ctx m
