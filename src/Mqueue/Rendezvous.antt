-- ===== src/Mqueue/Rendezvous.antt =====
-- mq_send and mq_receive of kernel/kernel.c as a rendezvous between processes. Between two calls
-- other processes may run: a later state is any that agrees on what the statement names.
use arm_kernel.Base.{
  ℕ, ◌≤◌, ◌<◌, ◌≡◌, ◌≢◌, ◌∙◌, ap, arith, memcpy, ok, List, ◌==◌, fun_ext, update, if◌then◌else◌,
}
use arm_kernel.Base.Words.{neg1}
use arm_kernel.Proc.{process_limit, Pst, waiting, executing}
use arm_kernel.Proc.Signal.{sigwait, sigcont}
use arm_kernel.Proc.Invariant.{Inv}
use arm_kernel.Proc.Invariant.Signals.{kill-Delivered}
use arm_kernel.Mqueue.{Channel, Comm, msgchan_limit, msg_limit, mq_send, mq_receive}
use arm_kernel.Mqueue.Branches.{
  stored, taken, send_quiet, send_wakes, send_refused, receive_taken, receive_waits,
}

-- Process `p` calls, over a table that is in order.
pub record Calls (p : ℕ) (s : Comm) (xs : List ℕ) : Type 0 where
  pub inv : Inv s.procs xs
  pub current : s.procs.current ≡ p
  pub inside : p < process_limit

Calls-pid : (p : ℕ) (s : Comm) (xs : List ℕ) → Calls p s xs → (s.procs.pcb s.procs.current).pid ≡ p
Calls-pid p s xs c = c.inv.current_named ∙ c.current

-- The channel holds a message of `a`, and no receiver waits.
pub record Holding (a len : ℕ) (msg : ℕ → ℕ) (c : Channel) : Type 0 where
  pub full : c.qnum ≡ 1
  pub sender : c.lspid ≡ a
  pub content : (i : ℕ) → i < len → c.qbuf i ≡ msg i

abbrev pub state : Comm → ℕ → Pst
state s p = (s.procs.pcb p).pst

module _ (mqd len : ℕ) (channel : mqd < msgchan_limit) (short : len ≤ msg_limit) where
  -- A send on an empty channel for which nobody waits returns 0: the channel holds the message, the
  -- sender waits, no other process changes state, and no other channel changes.
  pub mq_send-Holding :
      (a : ℕ) (msg : ℕ → ℕ) (s : Comm) (xs : List ℕ)
      → Calls a s xs
      → (s.mq mqd).qnum ≡ 0
      → (s.mq mqd).qrec ≢ 1
      → (s' : Comm) × (mq_send mqd msg len s ≡ ok (0, s'))
        × Inv s'.procs xs
        × Holding a len msg (s'.mq mqd)
        × ((p : ℕ) → state s' p ≡ (if a == p then waiting else state s p))
        × ((m : ℕ) → m ≢ mqd → s'.mq m ≡ s.mq m)
  mq_send-Holding a msg s xs c empty quiet =
      let (t, sent, d) = kill-Delivered a sigwait s.procs xs c.inside c.inv in
      (
        record { procs = t; mq = update s.mq mqd (stored a len msg (s.mq mqd)) },
        send_quiet mqd len a msg s t (Calls-pid a s xs c) channel short sent empty quiet,
        d.inv,
        record { full = ground arith; sender = ground arith; content = λ i lt. ground arith },
        λ p. d.state p,
        λ m ne. ground arith,
      )

  -- A receiver other than the sender takes the message that the channel holds, byte for byte, and
  -- leaves the rest of its buffer alone; the sender is woken and the channel is empty again.
  pub mq_receive-Holding :
      (a b : ℕ) (msg buf : ℕ → ℕ) (s : Comm) (xs : List ℕ)
      → Calls b s xs
      → a ≢ b
      → a < process_limit
      → Holding a len msg (s.mq mqd)
      → state s a ≡ waiting
      → (s' : Comm) × (mq_receive mqd buf len s ≡ ok (len, memcpy buf msg len, s'))
        × Inv s'.procs xs
        × ((s'.mq mqd).qnum ≡ 0)
        × ((p : ℕ) → state s' p ≡ (if a == p then executing else state s p))
  mq_receive-Holding a b msg buf s xs c ne lt h waits =
      let (t, woke, d) = kill-Delivered a sigcont s.procs xs lt c.inv in
      let got =
        receive_taken mqd len b buf s t (Calls-pid b s xs c) channel short (rw h.sender woke) h.full
          (rw h.sender ne) in
      (
        record { procs = t; mq = update s.mq mqd (taken b (s.mq mqd)) },
        got
            ∙ ap (λ f. ok (len, f, record { procs = t; mq = update s.mq mqd (taken b (s.mq mqd)) }))
                same,
        d.inv,
        ground (arith, h.full),
        λ p. ground (arith, d.state p, waits),
      )
    where
      same : memcpy buf (s.mq mqd).qbuf len ≡ memcpy buf msg len
      same = fun_ext λ i. ground (arith, h.content i)

  -- On an empty channel a receiver gets -1, waits, and is noted in the channel.
  pub mq_receive_waits :
      (b : ℕ) (buf : ℕ → ℕ) (s : Comm) (xs : List ℕ)
      → Calls b s xs
      → (s.mq mqd).qnum ≡ 0
      → (s' : Comm) × (mq_receive mqd buf len s ≡ ok (neg1, buf, s'))
        × Inv s'.procs xs
        × ((s'.mq mqd).qrec ≡ 1)
        × ((s'.mq mqd).lrpid ≡ b)
        × ((s'.mq mqd).qnum ≡ 0)
        × ((p : ℕ) → state s' p ≡ (if b == p then waiting else state s p))
  mq_receive_waits b buf s xs c empty =
      let (t, sent, d) = kill-Delivered b sigwait s.procs xs c.inside c.inv in
      (
        record { procs = t; mq = update s.mq mqd (record (s.mq mqd) { lrpid = b; qrec = 1 }) },
        receive_waits mqd len b buf s t (Calls-pid b s xs c) channel short sent empty,
        d.inv,
        ground arith,
        ground arith,
        ground arith,
        λ p. d.state p,
      )

  -- A send to a channel for which a receiver waits stores the message, wakes that receiver and
  -- leaves the sender waiting for it; no other process changes state.
  pub mq_send_wakes :
      (a b : ℕ) (msg : ℕ → ℕ) (s : Comm) (xs : List ℕ)
      → Calls a s xs
      → a ≢ b
      → b < process_limit
      → (s.mq mqd).qnum ≡ 0
      → (s.mq mqd).qrec ≡ 1
      → (s.mq mqd).lrpid ≡ b
      → state s b ≡ waiting
      → (s' : Comm) × (mq_send mqd msg len s ≡ ok (0, s'))
        × Inv s'.procs xs
        × Holding a len msg (s'.mq mqd)
        × ((s'.mq mqd).qrec ≡ 0)
        × ((p : ℕ)
            → state s' p ≡ (if a == p then waiting else if b == p then executing else state s p))
  mq_send_wakes a b msg s xs c ne lt empty awaited who waits =
      let (t, sent, d) = kill-Delivered a sigwait s.procs xs c.inside c.inv in
      let (u, woke, d') = kill-Delivered b sigcont t xs lt d.inv in
      (
        record {
          procs = u;
          mq = update s.mq mqd (record (stored a len msg (s.mq mqd)) { qrec = 0 });
        },
        send_wakes mqd len a msg s t (Calls-pid a s xs c) channel short u sent (rw who woke) empty
            awaited,
        d'.inv,
        record { full = ground arith; sender = ground arith; content = λ i lt'. ground arith },
        ground arith,
        λ p. ground (arith, d'.state p, d.state p, d.state b, waits),
      )

  -- A second sender is refused, but its pid replaces that of the first: the channel holds the same
  -- message as one of the second sender, and both senders wait.
  pub mq_send_second :
      (a b : ℕ) (msg more : ℕ → ℕ) (s : Comm) (xs : List ℕ)
      → Calls b s xs
      → a ≢ b
      → Holding a len msg (s.mq mqd)
      → state s a ≡ waiting
      → (s' : Comm) × (mq_send mqd more len s ≡ ok (neg1, s'))
        × Inv s'.procs xs
        × Holding b len msg (s'.mq mqd)
        × (state s' a ≡ waiting)
        × (state s' b ≡ waiting)
  mq_send_second a b msg more s xs c ne h waits =
      let (t, sent, d) = kill-Delivered b sigwait s.procs xs c.inside c.inv in
      (
        record { procs = t; mq = update s.mq mqd (record (s.mq mqd) { lspid = b }) },
        send_refused mqd len b more s t (Calls-pid b s xs c) channel short sent
            (λ e. ground (arith, h.full)),
        d.inv,
        record {
          full = ground (arith, h.full);
          sender = ground arith;
          content = λ i lt. ground (arith, h.content i);
        },
        ground (arith, d.state a),
        ground (arith, d.state b),
      )
