-- ===== src/Svc/Invariant.antt =====
-- kernel_handler_svc of kernel/kernel.c keeps the process table in order: the calls on processes and
-- on channels.
pub mod Transfers
pub mod Handler
pub mod Ends
use arm_kernel.Base.{
  ℕ, zero, suc, ◌+◌, ◌≡◌, ◌≢◌, refl, ◌∙◌, ap, sym, subst, arith, List, [], ◌∷◌, All, true, false,
  ltb, leb, ◌==◌, ◌&&◌, not, if◌then◌else◌, Bool-cases, Option-cases, inl, inr, ◌⊎◌, Option, none,
  some, Run, ok, check, ◌>>=◌, ◌>>◌, memcpy, update,
}
use arm_kernel.Base.Words.{neg1, nonneg}
use arm_kernel.Base.Always.{Always, Always-ok, Always-if, Always-bind, Always-then, Always-map}
use arm_kernel.Proc.{Ctx, Procs}
use arm_kernel.Proc.Signal.{kill, sigkill, sigwait, sigcont}
use arm_kernel.Proc.Scheduler.{scheduler}
use arm_kernel.Proc.Lifecycle.{fork, exec}
use arm_kernel.Proc.Invariant.{Inv}
use arm_kernel.Proc.Invariant.Lively.{
  Lively, kill-Lively, scheduler-Lively, fork-Lively, exec-Lively,
}
use arm_kernel.Mqueue.{Channel, Comm, mq_unlink, mq_send, mq_receive, msgchan_limit, msg_limit}
use arm_kernel.Files.{Kernel, get_fd, close_file, lseek, fread, fwrite, rounds_of}
use arm_kernel.Files.Paths.{open_string, root_dir, o_exist}
use arm_kernel.Files.Format.{wipe}
use arm_kernel.Files.Fds.{
  SameRuns, SameRuns-trans, Inv-SameRuns, KeepsRuns, lseek-KeepsRuns, fread-KeepsRuns,
  fwrite-KeepsRuns, close_file-KeepsRuns, open_string-KeepsRuns, wipe-KeepsRuns,
}
use arm_kernel.Svc.{
  Machine, stdio, reschedule, comm_of, with_comm, with_procs, result, string_at, bytes_at,
  print_from, put_char, put_bytes,
}
use arm_kernel.Svc.Paths.{cut_path, path_at, open_path_at, read_entry, get_program_entry}
use arm_kernel.Svc.Console.{svc_write, svc_read, read_from, svc_ls, print_blocks, print_names}
use arm_kernel.Svc.Directories.{svc_mkdir, svc_cd, svc_mv, svc_cp, Local}
use arm_kernel.Svc.Handler.{
  Env, select, cases, handler_svc, svc_fork, svc_exec, svc_lseek, svc_kill, svc_raise, svc_mq_open,
  svc_send, svc_receive, svc_wipe, svc_open, svc_close, svc_pwd, svc_unlink, svc_tell,
  svc_mq_unlink, svc_none,
}

pub Lively-SameRuns : (q : ℕ) (s s' : Procs) → Lively q s → SameRuns s s' → Lively q s'
Lively-SameRuns q s s' l a = record {
  queue = l.queue;
  inv = Inv-SameRuns s s' l.queue a l.inv;
  member = l.member;
}

module _ (q : ℕ) where
  -- Whatever the call returns.
  abbrev pub Keeps : Run (Ctx × Machine) → Type 0
  Keeps r = Always (λ a. Lively q a.1.kernel.procs) r

  abbrev pub InOrder : Machine → Type 0
  InOrder m = Lively q m.kernel.procs

  pub reschedule-Keeps : (ctx : Ctx) (m : Machine) → InOrder m → Keeps (reschedule ctx m)
  unfolding reschedule
  reschedule-Keeps ctx m l =
      Always-bind (scheduler ctx m.kernel.procs) (scheduler-Lively q ctx m.kernel.procs l)
        λ r l'. Always-ok l'

  -- Any signal but SIGKILL.
  mild : (pid sig : ℕ) (s : Procs) → Lively q s → sig ≢ sigkill → Always (Lively q) (kill pid sig s)
  mild pid sig s l ne = kill-Lively q pid sig s l (λ e. absurd (ne e))

  mq_send-Lively :
      (mqd len : ℕ) (msg : ℕ → ℕ) (s : Comm)
      → Lively q s.procs
      → Always (λ r. Lively q r.1.procs) (mq_send mqd msg len s)
  unfolding mq_send
  mq_send-Lively mqd len msg s l =
      let pid = (s.procs.pcb s.procs.current).pid in
      Always-then (check (ltb mqd msgchan_limit)) λ _.
        Always-bind (kill pid sigwait s.procs) (mild pid sigwait s.procs l (λ e. ground arith))
          λ t l'.
            Always-if ((s.mq mqd).qnum == 0)
              (Always-then (check (leb len msg_limit)) λ _.
                Always-if ((s.mq mqd).qrec == 1)
                  (Always-bind (kill (s.mq mqd).lrpid sigcont t)
                    (mild (s.mq mqd).lrpid sigcont t l' (λ e. ground arith)) λ u l''. Always-ok l'')
                  (Always-ok l'))
              (Always-ok l')

  mq_receive-Lively :
      (mqd len : ℕ) (buf : ℕ → ℕ) (s : Comm)
      → Lively q s.procs
      → Always (λ r. Lively q r.2.procs) (mq_receive mqd buf len s)
  unfolding mq_receive
  mq_receive-Lively mqd len buf s l =
      let c = s.mq mqd in
      let pid = (s.procs.pcb s.procs.current).pid in
      Always-then (check (ltb mqd msgchan_limit)) λ _.
        Always-if (ltb 0 c.qnum && nonneg c.qnum && not (c.lspid == pid))
          (Always-then (check (leb len msg_limit)) λ _.
            Always-bind (kill c.lspid sigcont s.procs)
              (mild c.lspid sigcont s.procs l (λ e. ground arith)) λ t l'. Always-ok l')
          (Always-bind (kill pid sigwait s.procs) (mild pid sigwait s.procs l (λ e. ground arith))
            λ t l'. Always-ok l')

  pub svc_send-Keeps : (ctx : Ctx) (m : Machine) → InOrder m → Keeps (svc_send ctx m)
  unfolding svc_send
  svc_send-Keeps ctx m l =
      Always-bind (mq_send (ctx.gpr 0) (bytes_at (ctx.gpr 1) m.mem) (ctx.gpr 2) (comm_of m))
        (mq_send-Lively (ctx.gpr 0) (ctx.gpr 2) (bytes_at (ctx.gpr 1) m.mem) (comm_of m) l)
        λ r l'. Always-if _ (reschedule-Keeps (result r.0 ctx) (with_comm r.1 m) l') (Always-ok l')

  pub svc_receive-Keeps : (ctx : Ctx) (m : Machine) → InOrder m → Keeps (svc_receive ctx m)
  unfolding svc_receive
  svc_receive-Keeps ctx m l =
      let a = ctx.gpr 1 in
      let n = ctx.gpr 2 in
      Always-bind (mq_receive (ctx.gpr 0) (bytes_at a m.mem) n (comm_of m))
        (mq_receive-Lively (ctx.gpr 0) n (bytes_at a m.mem) (comm_of m) l)
        λ r l'.
          Always-if (r.0 == neg1)
            (reschedule-Keeps (result r.0 ctx)
              (record (with_comm r.2 m) { mem = put_bytes a n r.1 m.mem }) l')
            (Always-ok l')

  pub svc_fork-Keeps : (ctx : Ctx) (m : Machine) → InOrder m → Keeps (svc_fork ctx m)
  unfolding svc_fork
  svc_fork-Keeps ctx m l = Always-ok (fork-Lively q ctx m.kernel.procs l)

  pub svc_kill-Keeps :
      (ctx : Ctx) (m : Machine)
      → InOrder m
      → (ctx.gpr 1 ≡ sigkill → (ctx.gpr 0 ≢ q) × (ctx.gpr 0 ≢ 9))
      → Keeps (svc_kill ctx m)
  unfolding svc_kill
  svc_kill-Keeps ctx m l spares =
      Always-bind (kill (ctx.gpr 0) (ctx.gpr 1) m.kernel.procs)
        (kill-Lively q (ctx.gpr 0) (ctx.gpr 1) m.kernel.procs l spares) λ t l'. Always-ok l'

  pub svc_raise-Keeps :
      (ctx : Ctx) (m : Machine)
      → InOrder m
      → (ctx.gpr 0 ≡ sigkill → m.kernel.procs.current ≢ q)
      → Keeps (svc_raise ctx m)
  unfolding svc_raise
  svc_raise-Keeps ctx m l spares =
      let s = m.kernel.procs in
      let named = l.inv.current_named in
      let inside = l.inv.current_inside in
      Always-bind (kill (s.pcb s.current).pid (ctx.gpr 0) s)
        (kill-Lively q (s.pcb s.current).pid (ctx.gpr 0) s l
          (λ e. (λ f. spares e (sym named ∙ f), λ f. omega (arith, named, inside, f))))
        λ t l'. reschedule-Keeps ctx (with_procs t m) l'
