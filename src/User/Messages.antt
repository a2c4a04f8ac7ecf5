-- ===== src/User/Messages.antt =====
-- msgsend and msgreceive of user/libc.c through the kernel (kernel/kernel.c): a message goes from
-- the memory of one program to that of another.
use arm_kernel.Base.{
  ℕ, ◌+◌, ◌<◌, ◌≤◌, ◌≡◌, ◌≢◌, ◌∙◌, refl, sym, subst, arith, List, false, ◌==◌, ok, memcpy,
}
use arm_kernel.Base.Words.{neg1}
use arm_kernel.Base.Always.{Always, Always-ok}
use arm_kernel.Proc.{Ctx, waiting, executing}
use arm_kernel.Mqueue.{msgchan_limit, msg_limit}
use arm_kernel.Mqueue.Rendezvous.{Calls, Holding, state, mq_send-Holding, mq_receive-Holding}
use arm_kernel.Svc.{Machine, comm_of, with_comm, result, bytes_at, put_bytes}
use arm_kernel.Svc.Handler.{Env, handler_svc, svc_send, svc_receive}
use arm_kernel.User.Libc.{invoke, msgsend_once, msgreceive_once}

module _ (env : Env) (mqd n : ℕ) (channel : mqd < msgchan_limit) (short : n ≤ msg_limit) where
  -- Behind a send on a free channel, the channel holds the bytes of the sender's memory.
  msgsend-Holding :
      (a x : ℕ) (ctx : Ctx) (m : Machine) (xs : List ℕ)
      → Calls a (comm_of m) xs
      → (m.mq mqd).qnum ≡ 0
      → (m.mq mqd).qrec ≢ 1
      → Always
          (λ r. Holding a n (bytes_at x m.mem) (r.1.mq mqd))
          (invoke env (msgsend_once mqd x n) ctx m)
  unfolding invoke handler_svc svc_send
  msgsend-Holding a x ctx m xs c empty quiet =
      let (s', run, inv, holds, states, others) =
        mq_send-Holding mqd n channel short a (bytes_at x m.mem) (comm_of m) xs c empty quiet in
      rw run (Always-ok holds)

  placed :
      (y i : ℕ) (msg mem : ℕ → ℕ)
      → i < n
      → put_bytes y n (memcpy (bytes_at y mem) msg n) mem (y + i) ≡ msg i
  placed y i msg mem lt = ground arith

  -- A message that process `a` has sent from address `x` reaches address `y` of the program that
  -- receives it, while the channel is as the send left it, and `a` waits: msgreceive returns its
  -- length, the memory there holds what the memory of the sender held at the send, no other byte of
  -- the memory changes, and `a` is EXECUTING.
  pub msgreceive-msgsend :
      (a b x y : ℕ) (ctx ctx1 ctx2 : Ctx) (m m1 m2 : Machine) (xs ys : List ℕ)
      → Calls a (comm_of m) xs
      → (m.mq mqd).qnum ≡ 0
      → (m.mq mqd).qrec ≢ 1
      → invoke env (msgsend_once mqd x n) ctx m ≡ ok (ctx1, m1)
      → m2.mq mqd ≡ m1.mq mqd
      → Calls b (comm_of m2) ys
      → a ≢ b
      → state (comm_of m2) a ≡ waiting
      → (ctx3 : Ctx) × (m3 : Machine) × (invoke env (msgreceive_once mqd y n) ctx2 m2
          ≡ ok (ctx3, m3))
        × (ctx3.gpr 0 ≡ n)
        × ((i : ℕ) → i < n → m3.mem (y + i) ≡ m.mem (x + i))
        × ((j : ℕ) → m3.mem j ≢ m2.mem j → (y ≤ j) × (j < y + n))
        × (state (comm_of m3) a ≡ executing)
  unfolding invoke handler_svc svc_receive
  msgreceive-msgsend a b x y ctx ctx1 ctx2 m m1 m2 xs ys c empty quiet sent same c2 ne waits =
      let kept = (msgsend-Holding a x ctx m xs c empty quiet).holds (ctx1, m1) sent in
      let msg = bytes_at x m.mem in
      let holds : Holding a n msg (m2.mq mqd) = subst (Holding a n msg) (sym same) kept in
      let (s', run, inv, emptied, states) =
        mq_receive-Holding mqd n channel short a b msg (bytes_at y m2.mem) (comm_of m2) ys c2 ne
          c.inside holds waits in
      let kept_result : (n == neg1) ≡ false = ground arith in
      (
        result n ((msgreceive_once mqd y n).enter ctx2),
        record (with_comm s' m2) { mem = put_bytes y n (memcpy (bytes_at y m2.mem) msg n) m2.mem },
        rw run (rw kept_result refl),
        ground arith,
        λ i lt. placed y i msg m2.mem lt,
        λ j ne'. ground (arith, ne'),
        states a ∙ ground arith,
      )
