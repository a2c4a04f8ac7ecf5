-- ===== src/Svc/Invariant/Ends.antt =====
-- The calls of kernel_handler_svc (kernel/kernel.c) that do not touch files return while some
-- process of the ready queue is EXECUTING, and leave it so.
use arm_kernel.Base.{
  ℕ, ◌+◌, ◌<◌, ◌≤◌, ◌≡◌, ◌≢◌, refl, sym, subst, arith, [], ◌∷◌, has, Bool, false, ◌==◌, inl, inr,
  ◌⊎◌, Run,
}
use arm_kernel.Base.Words.{neg1}
use arm_kernel.Base.Returns.{Returns, Returns-ok, Returns-if, Returns-bind}
use arm_kernel.Proc.{process_limit, Ctx}
use arm_kernel.Proc.Signal.{kill}
use arm_kernel.Proc.Scheduler.{scheduler}
use arm_kernel.Proc.Invariant.Awake.{Gentle, kill-Awake, scheduler-Awake, fork-Awake}
use arm_kernel.Mqueue.{mq_unlink, mq_send, mq_receive, msgchan_limit, msg_limit}
use arm_kernel.Mqueue.Awake.{
  Orderly, kill_current, mq_send-Orderly, mq_receive-Orderly, mq_open-AllKnown, mq_unlink-AllKnown,
}
use arm_kernel.Svc.{
  Machine, reschedule, comm_of, with_comm, with_procs, result, bytes_at, put_bytes,
}
use arm_kernel.Svc.Cases.{◌▸◌, select-Each}
use arm_kernel.Svc.Handler.{
  Env, cases, handler_svc, svc_fork, svc_kill, svc_raise, svc_mq_open, svc_send, svc_receive,
  svc_pwd, svc_tell, svc_mq_unlink, svc_none,
}

-- exec, wipe, and the calls that take a path, a descriptor or the console but for tell and pwd.
abbrev pub is_file_call : ℕ → Bool
is_file_call id = has id (1 ∷ 2 ∷ 4 ∷ 5 ∷ 11 ∷ 12 ∷ 13 ∷ 15 ∷ 16 ∷ 17 ∷ 18 ∷ 19 ∷ 20 ∷ [])

-- A send or a receive, by another process than `q`, on a channel that exists, of at most 64 bytes.
pub record Talks (q : ℕ) (ctx : Ctx) (m : Machine) : Type 0 where
  pub other : m.kernel.procs.current ≢ q
  pub channel : ctx.gpr 0 < msgchan_limit
  pub short : ctx.gpr 2 ≤ msg_limit

-- What the arguments of a call must be, by its number.
abbrev pub Fits : (q : ℕ) → Ctx → Machine → ℕ → Type 0
Fits q ctx m id =
    (id ≡ 6 → (ctx.gpr 0 < process_limit) × Gentle q (ctx.gpr 0) (ctx.gpr 1))
    × (id ≡ 7 → m.kernel.procs.current ≢ q)
    × ((id ≡ 9) ⊎ (id ≡ 10) → Talks q ctx m)
    × (id ≡ 22 → ctx.gpr 0 < msgchan_limit)

module _ (q : ℕ) where
  -- Process `q` is awake, and the channels note pids of the table.
  abbrev pub Sound : Machine → Type 0
  Sound m = Orderly q (comm_of m)

  abbrev Stays : Run (Ctx × Machine) → Type 0
  Stays r = Returns (λ a. Sound a.1) r

  reschedule-Stays : (ctx : Ctx) (m : Machine) → Sound m → Stays (reschedule ctx m)
  unfolding reschedule
  reschedule-Stays ctx m (w, all) =
      Returns-bind (scheduler ctx m.kernel.procs) (scheduler-Awake q ctx m.kernel.procs w)
        λ r w'. Returns-ok (w', all)

  svc_send-Stays : (ctx : Ctx) (m : Machine) → Sound m → Talks q ctx m → Stays (svc_send ctx m)
  unfolding svc_send
  svc_send-Stays ctx m w h =
      Returns-bind (mq_send (ctx.gpr 0) (bytes_at (ctx.gpr 1) m.mem) (ctx.gpr 2) (comm_of m))
        (mq_send-Orderly q (ctx.gpr 0) (ctx.gpr 2) (bytes_at (ctx.gpr 1) m.mem) (comm_of m) w
          h.other h.channel h.short)
        λ r w'. Returns-if (r.0 == neg1) (reschedule-Stays _ (with_comm r.1 m) w') (Returns-ok w')

  svc_receive-Stays :
      (ctx : Ctx) (m : Machine) → Sound m → Talks q ctx m → Stays (svc_receive ctx m)
  unfolding svc_receive
  svc_receive-Stays ctx m w h =
      let a = ctx.gpr 1 in
      let n = ctx.gpr 2 in
      Returns-bind (mq_receive (ctx.gpr 0) (bytes_at a m.mem) n (comm_of m))
        (mq_receive-Orderly q (ctx.gpr 0) n (bytes_at a m.mem) (comm_of m) w h.other h.channel
          h.short)
        λ r w'.
          Returns-if (r.0 == neg1)
            (reschedule-Stays (result r.0 ctx)
              (record (with_comm r.2 m) { mem = put_bytes a n r.1 m.mem }) w')
            (Returns-ok w')

  svc_kill-Stays :
      (ctx : Ctx) (m : Machine)
      → Sound m
      → ctx.gpr 0 < process_limit
      → Gentle q (ctx.gpr 0) (ctx.gpr 1)
      → Stays (svc_kill ctx m)
  unfolding svc_kill
  svc_kill-Stays ctx m (w, all) lt gentle =
      Returns-bind (kill (ctx.gpr 0) (ctx.gpr 1) m.kernel.procs)
        (kill-Awake q (ctx.gpr 0) (ctx.gpr 1) m.kernel.procs w lt gentle)
        λ t w'. Returns-ok (w', all)

  svc_raise-Stays :
      (ctx : Ctx) (m : Machine) → Sound m → m.kernel.procs.current ≢ q → Stays (svc_raise ctx m)
  unfolding svc_raise
  svc_raise-Stays ctx m (w, all) ne =
      Returns-bind (kill (m.kernel.procs.pcb m.kernel.procs.current).pid (ctx.gpr 0) m.kernel.procs)
        (kill_current q (ctx.gpr 0) m.kernel.procs w ne)
        λ t w'. reschedule-Stays ctx (with_procs t m) (w', all)

  svc_fork-Stays : (ctx : Ctx) (m : Machine) → Sound m → Stays (svc_fork ctx m)
  unfolding svc_fork
  svc_fork-Stays ctx m (w, all) = Returns-ok (fork-Awake q ctx m.kernel.procs w, all)

  svc_mq_open-Stays : (ctx : Ctx) (m : Machine) → Sound m → Stays (svc_mq_open ctx m)
  unfolding svc_mq_open
  svc_mq_open-Stays ctx m (w, all) = Returns-ok (w, mq_open-AllKnown (ctx.gpr 0) m.mq all)

  svc_mq_unlink-Stays :
      (ctx : Ctx) (m : Machine) → Sound m → ctx.gpr 0 < msgchan_limit → Stays (svc_mq_unlink ctx m)
  unfolding svc_mq_unlink
  svc_mq_unlink-Stays ctx m (w, all) lt =
      Returns-bind (mq_unlink (ctx.gpr 0) m.mq) (mq_unlink-AllKnown (ctx.gpr 0) m.mq all lt)
        λ r all'. Returns-ok (w, all')

-- While process `q` is in the queue and EXECUTING and the channels note pids of the table, yield,
-- fork, kill, raise, mqinit, mqunlink, msgsend, msgreceive, pwd, ftell and an unknown call return,
-- neither with a fault nor without end, and leave that so; read and write are left out, for the
-- console too. Of a kill it is asked that the pid is one
-- of the table, and that it sends no SIGKILL or SIGWAIT to `q`; of a raise, a send and a receive
-- that `q` does not run; of the channel of a send, a receive or an unlink that it is one of the
-- table, and of a message that it has at most 64 bytes.
pub handler_svc-Sound :
    (q id : ℕ) (env : Env) (ctx : Ctx) (m : Machine)
    → Sound q m
    → is_file_call id ≡ false
    → Fits q ctx m id
    → Returns (λ r. Sound q r.1) (handler_svc env ctx id m)
unfolding handler_svc svc_pwd svc_tell
handler_svc-Sound q id env ctx m w plain fits =
    let e : 0 + id ≡ id = omega arith in
    select-Each (λ k f. is_file_call k ≡ false → Fits q ctx m k → Stays q (f ctx m)) 0 id
      (cases env) svc_none
      ((λ p h. reschedule-Stays q ctx m w)
        ▸ (λ p h. absurd (ground arith))
        ▸ (λ p h. absurd (ground arith))
        ▸ (λ p h. svc_fork-Stays q ctx m w)
        ▸ (λ p h. absurd (ground arith))
        ▸ (λ p h. absurd (ground arith))
        ▸ (λ p h. let (lt, gentle) = h.0 refl in svc_kill-Stays q ctx m w lt gentle)
        ▸ (λ p h. svc_raise-Stays q ctx m w (h.1 refl))
        ▸ (λ p h. svc_mq_open-Stays q ctx m w)
        ▸ (λ p h. svc_send-Stays q ctx m w (h.2 (inl refl)))
        ▸ (λ p h. svc_receive-Stays q ctx m w (h.2 (inr refl)))
        ▸ (λ p h. absurd (ground arith))
        ▸ (λ p h. absurd (ground arith))
        ▸ (λ p h. absurd (ground arith))
        ▸ (λ p h. Returns-ok w)
        ▸ (λ p h. absurd (ground arith))
        ▸ (λ p h. absurd (ground arith))
        ▸ (λ p h. absurd (ground arith))
        ▸ (λ p h. absurd (ground arith))
        ▸ (λ p h. absurd (ground arith))
        ▸ (λ p h. absurd (ground arith))
        ▸ (λ p h. Returns-ok w)
        ▸ (λ p h. svc_mq_unlink-Stays q ctx m w (h.3 refl))
        ▸ tt)
      (λ j p h. Returns-ok w) (subst (λ k. is_file_call k ≡ false) (sym e) plain)
      (subst (Fits q ctx m) (sym e) fits)
