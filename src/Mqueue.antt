-- ===== src/Mqueue.antt =====
-- The channels of kernel/mqueue.h and the message queue functions of kernel/kernel.c.
pub mod Names
pub mod Branches
pub mod Rendezvous
pub mod Awake
mod Tests
use arm_kernel.Base.{
  ℕ, zero, suc, ◌+◌, ◌-◌, Option, none, some, ◌&&◌, not, ltb, leb, ◌==◌, if◌then◌else◌, update,
  memcpy, Run, ok, ◌>>=◌, ◌>>◌, check,
}
use arm_kernel.Base.Words.{neg1, nonneg}
use arm_kernel.Proc.{Procs}
use arm_kernel.Proc.Signal.{kill, sigwait, sigcont}

-- MSGCHAN_LIMIT.
abbrev pub msgchan_limit : ℕ
msgchan_limit = 32

-- The size of msg_qbuf.
abbrev pub msg_limit : ℕ
msg_limit = 64

-- struct mqueue.
pub record Channel : Type 0 where
  pub qname : ℕ
  pub qnum : ℕ
  pub qrec : ℕ
  pub lspid : ℕ
  pub lrpid : ℕ
  pub qbuf : ℕ → ℕ

-- The global `mq`.
abbrev pub Channels : Type 0
Channels = ℕ → Channel

-- What the channel functions share with the scheduler.
pub record Comm : Type 0 where
  pub procs : Procs
  pub mq : Channels

-- The first channel from `i` on with the name.
pub find_name : ℕ → ℕ → ℕ → Channels → Option ℕ
find_name zero i name mq = none
find_name (suc rounds) i name mq =
    let rest = find_name rounds (i + 1) name mq in if (mq i).qname == name then some i else rest

-- The fields that a new channel starts with.
abbrev pub opened : ℕ → Channel → Channel
opened name c = record c { qname = name; qnum = 0; qrec = 0; lspid = 0; lrpid = 0 }

open_new : Option ℕ → ℕ → Channels → ℕ × Channels
open_new none name mq = (neg1, mq)
open_new (some i) name mq = (i, update mq i (opened name (mq i)))

open_found : Option ℕ → ℕ → Channels → ℕ × Channels
unfolding open_new
open_found none name mq = open_new (find_name msgchan_limit 0 0 mq) name mq
open_found (some i) name mq = (i, mq)

-- Both loops: a channel of that name, or else the first whose name is 0.
unfoldable pub mq_open : ℕ → Channels → ℕ × Channels
unfolding find_name open_found
mq_open name mq = open_found (find_name msgchan_limit 0 name mq) name mq

-- The test lets 32 through, for which there is no channel.
unfoldable pub mq_unlink : ℕ → Channels → Run (ℕ × Channels)
mq_unlink m mq =
    if nonneg m && leb m msgchan_limit
    then check (ltb m msgchan_limit) >> ok (0, update mq m (record (mq m) { qname = 0 }))
    else ok (neg1, mq)

-- A descriptor is used as an index with no test, and a length with none against `msg_qbuf`.
unfoldable pub mq_send : (mqd : ℕ) (msg : ℕ → ℕ) (len : ℕ) → Comm → Run (ℕ × Comm)
mq_send mqd msg len s = do
  let pid = (s.procs.pcb s.procs.current).pid
  check (ltb mqd msgchan_limit)
  let c : Channel = record (s.mq mqd) { lspid = pid }
  procs ← kill pid sigwait s.procs
  if c.qnum == 0
      then (do
        check (leb len msg_limit)
        let full : Channel = record c { qnum = c.qnum + 1; qbuf = memcpy c.qbuf msg len }
        if full.qrec == 1
            then (do
              procs ← kill full.lrpid sigcont procs
              ok (0, record { procs = procs; mq = update s.mq mqd (record full { qrec = 0 }) }))
            else ok (0, record { procs = procs; mq = update s.mq mqd full }))
      else ok (neg1, record { procs = procs; mq = update s.mq mqd c })

-- The buffer at msg_ptr is given and returned.
unfoldable pub mq_receive : (mqd : ℕ) (buf : ℕ → ℕ) (len : ℕ) → Comm → Run (ℕ × (ℕ → ℕ) × Comm)
mq_receive mqd buf len s = do
  let pid = (s.procs.pcb s.procs.current).pid
  check (ltb mqd msgchan_limit)
  let c : Channel = record (s.mq mqd) { lrpid = pid }
  if ltb 0 c.qnum && nonneg c.qnum && not (c.lspid == pid)
      then (do
        check (leb len msg_limit)
        procs ← kill c.lspid sigcont s.procs
        ok (
          len,
          memcpy buf c.qbuf len,
          record { procs = procs; mq = update s.mq mqd (record c { qnum = c.qnum - 1 }) },
        ))
      else (do
        procs ← kill pid sigwait s.procs
        ok (neg1, buf, record { procs = procs; mq = update s.mq mqd (record c { qrec = 1 }) }))
