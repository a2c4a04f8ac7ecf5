-- ===== src/Mqueue/Awake.antt =====
-- mq_open, mq_unlink, mq_send and mq_receive of kernel/kernel.c return while some process other than
-- the caller is EXECUTING, and leave pids of the process table in the channels.
use arm_kernel.Base.{
  ℕ, ◌<◌, ◌≤◌, ◌≡◌, ◌≢◌, ◌∙◌, sym, arith, true, ltb, leb, ◌==◌, ◌&&◌, not, Bool-cases, Option-cases,
  inl, inr, update, lt→ltb,
}
use arm_kernel.Base.Words.{nonneg}
use arm_kernel.Base.Returns.{Returns, Returns-ok, Returns-if, Returns-bind}
use arm_kernel.Proc.{process_limit, Procs}
use arm_kernel.Proc.Signal.{kill, sigwait, sigcont}
use arm_kernel.Proc.Invariant.Awake.{Awake, kill-Awake}
use arm_kernel.Mqueue.{
  Channel, Channels, Comm, opened, find_name, open_found, open_new, mq_open, mq_unlink, mq_send,
  mq_receive, msgchan_limit, msg_limit,
}

-- The pids that a channel notes are of the table.
pub record Known (c : Channel) : Type 0 where
  pub sender : c.lspid < process_limit
  pub receiver : c.lrpid < process_limit

abbrev pub AllKnown : Channels → Type 0
AllKnown mq = (i : ℕ) → Known (mq i)

AllKnown-update :
    (i : ℕ) (c : Channel) (mq : Channels)
    → AllKnown mq
    → c.lspid < process_limit
    → c.lrpid < process_limit
    → AllKnown (update mq i c)
AllKnown-update i c mq all sender receiver j = elim (Bool-cases (i == j)) [
  | inl e ↦ rw e (record { sender = sender; receiver = receiver })
  | inr e ↦ rw e (all j)
]

pub mq_open-AllKnown : (name : ℕ) (mq : Channels) → AllKnown mq → AllKnown (mq_open name mq).1
unfolding mq_open open_found open_new
mq_open-AllKnown name mq all = elim (Option-cases (find_name msgchan_limit 0 name mq)) [
  | inr (i, e) ↦ rw e all
  | inl e ↦ elim (Option-cases (find_name msgchan_limit 0 0 mq)) [
    | inl f ↦ rw (e, f) all
    | inr (i, f) ↦
        rw (e, f) (AllKnown-update i (opened name (mq i)) mq all (omega arith) (omega arith))
  ]
]

pub mq_unlink-AllKnown :
    (m : ℕ) (mq : Channels)
    → AllKnown mq
    → m < msgchan_limit
    → Returns (λ r. AllKnown r.1) (mq_unlink m mq)
unfolding mq_unlink
mq_unlink-AllKnown m mq all lt =
    let passes : nonneg m && leb m msgchan_limit ≡ true = ground arith in
    let known = all m in
    rw (passes, lt→ltb m msgchan_limit lt)
      (Returns-ok
        (AllKnown-update m (record (mq m) { qname = 0 }) mq all known.sender known.receiver))

module _ (q : ℕ) where
  -- Process `q` stays awake, and the channels in order.
  abbrev pub Orderly : Comm → Type 0
  Orderly s = Awake q s.procs × AllKnown s.mq

  current_named : (s : Procs) → Awake q s → (s.pcb s.current).pid < process_limit
  current_named s w =
      let named = w.lively.inv.current_named in
      let inside = w.lively.inv.current_inside in omega (arith, named, inside)

  -- The process that runs is not `q`: any signal to it.
  pub kill_current :
      (sig : ℕ) (s : Procs)
      → Awake q s
      → s.current ≢ q
      → Returns (Awake q) (kill (s.pcb s.current).pid sig s)
  kill_current sig s w ne =
      kill-Awake q (s.pcb s.current).pid sig s w (current_named s w)
        (λ e f. ne (sym w.lively.inv.current_named ∙ f))

  -- SIGCONT to a process of the table.
  kill_awakes :
      (pid : ℕ) (s : Procs)
      → Awake q s
      → pid < process_limit
      → Returns (Awake q) (kill pid sigcont s)
  kill_awakes pid s w lt = kill-Awake q pid sigcont s w lt (λ e. absurd (ground arith))

  pub mq_send-Orderly :
      (mqd len : ℕ) (msg : ℕ → ℕ) (s : Comm)
      → Orderly s
      → s.procs.current ≢ q
      → mqd < msgchan_limit
      → len ≤ msg_limit
      → Returns (λ r. Orderly r.1) (mq_send mqd msg len s)
  unfolding mq_send
  mq_send-Orderly mqd len msg s (w, all) ne inside short =
      let in_table : ltb mqd msgchan_limit ≡ true = ground arith in
      let in_buffer : leb len msg_limit ≡ true = ground arith in
      let known = all mqd in
      rw (in_table, in_buffer)
        (Returns-bind (kill (s.procs.pcb s.procs.current).pid sigwait s.procs)
          (kill_current sigwait s.procs w ne)
          λ t w'.
            Returns-if ((s.mq mqd).qnum == 0)
              (Returns-if ((s.mq mqd).qrec == 1)
                (Returns-bind (kill (s.mq mqd).lrpid sigcont t)
                  (kill_awakes (s.mq mqd).lrpid t w' known.receiver)
                  λ u w''.
                    Returns-ok (
                      w'',
                      AllKnown-update mqd _ s.mq all (current_named s.procs w) known.receiver,
                    ))
                (Returns-ok
                  (w', AllKnown-update mqd _ s.mq all (current_named s.procs w) known.receiver)))
              (Returns-ok
                (w', AllKnown-update mqd _ s.mq all (current_named s.procs w) known.receiver)))

  pub mq_receive-Orderly :
      (mqd len : ℕ) (buf : ℕ → ℕ) (s : Comm)
      → Orderly s
      → s.procs.current ≢ q
      → mqd < msgchan_limit
      → len ≤ msg_limit
      → Returns (λ r. Orderly r.2) (mq_receive mqd buf len s)
  unfolding mq_receive
  mq_receive-Orderly mqd len buf s (w, all) ne inside short =
      let c = s.mq mqd in
      let known = all mqd in
      let pid = (s.procs.pcb s.procs.current).pid in
      let in_table : ltb mqd msgchan_limit ≡ true = ground arith in
      let in_buffer : leb len msg_limit ≡ true = ground arith in
      rw (in_table, in_buffer)
        (Returns-if (ltb 0 c.qnum && nonneg c.qnum && not (c.lspid == pid))
          (Returns-bind (kill c.lspid sigcont s.procs) (kill_awakes c.lspid s.procs w known.sender)
            λ t w'.
              Returns-ok
                (w', AllKnown-update mqd _ s.mq all known.sender (current_named s.procs w)))
          (Returns-bind (kill pid sigwait s.procs) (kill_current sigwait s.procs w ne) λ t w'.
            Returns-ok (w', AllKnown-update mqd _ s.mq all known.sender (current_named s.procs w))))
