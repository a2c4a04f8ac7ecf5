-- ===== src/Mqueue/Tests.antt =====
-- The channels of kernel/kernel.c at concrete inputs: processes 0, 1 and 2, and channel 3.
use arm_kernel.Base.{
  ℕ, ◌≡◌, ◌≢◌, ◌<◌, ◌+◌, refl, List, [], ◌∷◌, some, none, arith, ltb, ◌==◌, if◌then◌else◌, ok,
  memcpy,
}
use arm_kernel.Base.Words.{neg1}
use arm_kernel.Proc.{Procs, terminated, executing, waiting}
use arm_kernel.Proc.Lifecycle.{zero_ctx}
use arm_kernel.Proc.Invariant.{Inv}
use arm_kernel.Mqueue.{Channel, Channels, Comm, mq_open, mq_send, mq_receive}
use arm_kernel.Mqueue.Names.{Opens, mq_open-Opens}
use arm_kernel.Mqueue.Rendezvous.{
  Calls, Holding, state, mq_send-Holding, mq_receive-Holding, mq_send_wakes, mq_send_second,
}

-- Process `c` runs, process `w` waits.
abbrev procs : ℕ → ℕ → Procs
procs c w = record {
  pcb = λ p. record {
    pid = p;
    prt = 0;
    ctx = zero_ctx;
    defp = 1;
    prio = 1;
    fd = λ _. none;
    pst = if p == w then waiting else if ltb p 3 then executing else terminated;
  };
  current = c;
  rq = λ i. if ltb i 3 then some i else none;
  rq_size = 3;
}

abbrev all_three : List ℕ
all_three = 0 ∷ 1 ∷ 2 ∷ []

procs-Inv : (c w : ℕ) → c < 3 → Inv (procs c w) all_three
procs-Inv c w lt = record {
  queue = record { size = refl; slots = (refl, (refl, (refl, tt))); bounded = omega arith };
  named = λ p m. refl;
  distinct = (refl, (refl, (refl, tt)));
  inside = λ p m. ground arith;
  alive = λ p m. ground arith;
  current_inside = omega arith;
  current_named = refl;
}

abbrev free_channel : Channel
free_channel = record { qname = 0; qnum = 0; qrec = 0; lspid = 0; lrpid = 0; qbuf = λ _. 0 }

abbrev letter : ℕ → ℕ
letter i = 65 + i

-- A channel that is empty, one that holds a message of process 1, and one that process 2 waits for.
abbrev empty_channel : Channel
empty_channel = record free_channel { qname = 100 }

abbrev full_channel : Channel
full_channel = record empty_channel { qnum = 1; lspid = 1; qbuf = letter }

abbrev awaited_channel : Channel
awaited_channel = record empty_channel { qrec = 1; lrpid = 2 }

abbrev comm : ℕ → ℕ → Channel → Comm
comm c w m = record { procs = procs c w; mq = λ i. if i == 3 then m else free_channel }

comm-Calls : (c w : ℕ) (m : Channel) → c < 3 → Calls c (comm c w m) all_three
comm-Calls c w m lt = record { inv = procs-Inv c w lt; current = refl; inside = omega arith }

full-Holding : Holding 1 4 letter full_channel
full-Holding = record { full = refl; sender = refl; content = λ i lt. refl }

mq_send-Holding_example :
    (s' : Comm) × (mq_send 3 letter 4 (comm 1 9 empty_channel) ≡ ok (0, s'))
    × Inv s'.procs all_three
    × Holding 1 4 letter (s'.mq 3)
    × ((p : ℕ) → state s' p ≡ (if 1 == p then waiting else state (comm 1 9 empty_channel) p))
    × ((m : ℕ) → m ≢ 3 → s'.mq m ≡ (comm 1 9 empty_channel).mq m)
mq_send-Holding_example =
    mq_send-Holding 3 4 (omega arith) (omega arith) 1 letter (comm 1 9 empty_channel) all_three
      (comm-Calls 1 9 empty_channel (omega arith)) refl (λ e. ground arith)

mq_receive-Holding_example :
    (s' : Comm) × (mq_receive 3 (λ _. 0) 4 (comm 2 1 full_channel)
      ≡ ok (4, memcpy (λ _. 0) letter 4, s'))
    × Inv s'.procs all_three
    × ((s'.mq 3).qnum ≡ 0)
    × ((p : ℕ) → state s' p ≡ (if 1 == p then executing else state (comm 2 1 full_channel) p))
mq_receive-Holding_example =
    mq_receive-Holding 3 4 (omega arith) (omega arith) 1 2 letter (λ _. 0) (comm 2 1 full_channel)
      all_three (comm-Calls 2 1 full_channel (omega arith)) (λ e. ground arith) (omega arith)
      full-Holding refl

mq_send_wakes_example :
    (s' : Comm) × (mq_send 3 letter 4 (comm 1 2 awaited_channel) ≡ ok (0, s'))
    × Inv s'.procs all_three
    × Holding 1 4 letter (s'.mq 3)
    × ((s'.mq 3).qrec ≡ 0)
    × ((p : ℕ)
        → state s' p ≡ (
            if 1 == p
            then waiting
            else if 2 == p
            then executing
            else state (comm 1 2 awaited_channel) p))
mq_send_wakes_example =
    mq_send_wakes 3 4 (omega arith) (omega arith) 1 2 letter (comm 1 2 awaited_channel) all_three
      (comm-Calls 1 2 awaited_channel (omega arith)) (λ e. ground arith) (omega arith) refl refl
      refl refl

mq_send_second_example :
    (s' : Comm) × (mq_send 3 (λ _. 7) 4 (comm 2 1 full_channel) ≡ ok (neg1, s'))
    × Inv s'.procs all_three
    × Holding 2 4 letter (s'.mq 3)
    × (state s' 1 ≡ waiting)
    × (state s' 2 ≡ waiting)
mq_send_second_example =
    mq_send_second 3 4 (omega arith) (omega arith) 1 2 letter (λ _. 7) (comm 2 1 full_channel)
      all_three (comm-Calls 2 1 full_channel (omega arith)) (λ e. ground arith) full-Holding refl

abbrev channels : Channels
channels = (comm 1 9 empty_channel).mq

mq_open-Opens_example : Opens 100 channels (mq_open 100 channels)
mq_open-Opens_example = mq_open-Opens 100 channels

opens_third : mq_open 100 channels ≡ (3, channels)
unfolding mq_open
opens_third = refl
