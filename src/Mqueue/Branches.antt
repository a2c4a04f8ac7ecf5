-- ===== src/Mqueue/Branches.antt =====
-- The branches of mq_send and mq_receive of kernel/kernel.c.
use arm_kernel.Base.{
  ℕ, ◌+◌, ◌-◌, ◌≤◌, ◌<◌, ◌≡◌, ◌≢◌, true, false, arith, ◌==◌, update, memcpy, ok, ltb, leb, lt→ltb,
  not, ◌&&◌,
}
use arm_kernel.Base.Words.{neg1, nonneg}
use arm_kernel.Proc.{Procs}
use arm_kernel.Proc.Signal.{kill, sigwait, sigcont}
use arm_kernel.Mqueue.{Channel, Comm, msgchan_limit, msg_limit, mq_send, mq_receive}

-- The channel after a message is stored, and after it is taken.
abbrev pub stored : ℕ → ℕ → (ℕ → ℕ) → Channel → Channel
stored a len msg c = record c { lspid = a; qnum = c.qnum + 1; qbuf = memcpy c.qbuf msg len }

abbrev pub taken : ℕ → Channel → Channel
taken b c = record c { lrpid = b; qnum = c.qnum - 1 }

-- The branches of mq_send and mq_receive that end, given what their calls of kill return.
module _ (mqd len a : ℕ) (buf : ℕ → ℕ) (s : Comm) (t : Procs)
    (name : (s.procs.pcb s.procs.current).pid ≡ a) (channel : mqd < msgchan_limit)
    (short : len ≤ msg_limit) where
  pub send_quiet :
      kill a sigwait s.procs ≡ ok t
      → (s.mq mqd).qnum ≡ 0
      → (s.mq mqd).qrec ≢ 1
      → mq_send mqd buf len s
        ≡ ok (0, record { procs = t; mq = update s.mq mqd (stored a len buf (s.mq mqd)) })
  unfolding mq_send
  send_quiet k empty quiet = rw (name, lt→ltb mqd msgchan_limit channel, k, is_empty, fits, nobody)
    where
      is_empty : ((s.mq mqd).qnum == 0) ≡ true
      is_empty = ground arith

      fits : leb len msg_limit ≡ true
      fits = ground arith

      nobody : ((s.mq mqd).qrec == 1) ≡ false
      nobody = ground arith

  pub send_wakes :
      (u : Procs)
      → kill a sigwait s.procs ≡ ok t
      → kill (s.mq mqd).lrpid sigcont t ≡ ok u
      → (s.mq mqd).qnum ≡ 0
      → (s.mq mqd).qrec ≡ 1
      → mq_send mqd buf len s
        ≡ ok (
          0,
          record {
            procs = u;
            mq = update s.mq mqd (record (stored a len buf (s.mq mqd)) { qrec = 0 });
          },
        )
  unfolding mq_send
  send_wakes u k w empty awaited =
      rw (name, lt→ltb mqd msgchan_limit channel, k, is_empty, fits, somebody, w)
    where
      is_empty : ((s.mq mqd).qnum == 0) ≡ true
      is_empty = ground arith

      fits : leb len msg_limit ≡ true
      fits = ground arith

      somebody : ((s.mq mqd).qrec == 1) ≡ true
      somebody = ground arith

  pub send_refused :
      kill a sigwait s.procs ≡ ok t
      → (s.mq mqd).qnum ≢ 0
      → mq_send mqd buf len s
        ≡ ok (neg1, record { procs = t; mq = update s.mq mqd (record (s.mq mqd) { lspid = a }) })
  unfolding mq_send
  send_refused k full = rw (name, lt→ltb mqd msgchan_limit channel, k, is_full)
    where
      is_full : ((s.mq mqd).qnum == 0) ≡ false
      is_full = ground arith

  pub receive_taken :
      kill (s.mq mqd).lspid sigcont s.procs ≡ ok t
      → (s.mq mqd).qnum ≡ 1
      → (s.mq mqd).lspid ≢ a
      → mq_receive mqd buf len s
        ≡ ok (
          len,
          memcpy buf (s.mq mqd).qbuf len,
          record { procs = t; mq = update s.mq mqd (taken a (s.mq mqd)) },
        )
  unfolding mq_receive
  receive_taken k full other = rw (name, lt→ltb mqd msgchan_limit channel, ready, fits, k)
    where
      ready : ltb 0 (s.mq mqd).qnum && nonneg (s.mq mqd).qnum && not ((s.mq mqd).lspid == a) ≡ true
      ready = ground arith

      fits : leb len msg_limit ≡ true
      fits = ground arith

  pub receive_waits :
      kill a sigwait s.procs ≡ ok t
      → (s.mq mqd).qnum ≡ 0
      → mq_receive mqd buf len s
        ≡ ok (
          neg1,
          buf,
          record { procs = t; mq = update s.mq mqd (record (s.mq mqd) { lrpid = a; qrec = 1 }) },
        )
  unfolding mq_receive
  receive_waits k empty = rw (name, lt→ltb mqd msgchan_limit channel, nothing, k)
    where
      nothing :
          ltb 0 (s.mq mqd).qnum && nonneg (s.mq mqd).qnum && not ((s.mq mqd).lspid == a) ≡ false
      nothing = ground arith
