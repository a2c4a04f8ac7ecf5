-- ===== src/Svc/Tests.antt =====
-- The supervisor calls of kernel/kernel.c at concrete inputs: processes 0, 1 and 2 run on an empty
-- disk.
use arm_kernel.Base.{
  ℕ, ◌<◌, ◌≤◌, ◌≢◌, ◌≡◌, refl, ◌+◌, ◌*◌, [], ◌∷◌, some, none, arith, ltb, ◌==◌, if◌then◌else◌, ok,
}
use arm_kernel.Proc.{Ctx, Procs, terminated, executing, waiting}
use arm_kernel.Proc.Lifecycle.{zero_ctx}
use arm_kernel.Proc.Invariant.{Inv}
use arm_kernel.Proc.Invariant.Lively.{Lively}
use arm_kernel.Fs.Dirs.{blank_inode}
use arm_kernel.Svc.{Machine}
use arm_kernel.Svc.Console.{svc_write}
use arm_kernel.Svc.Handler.{Env, handler_svc}
use arm_kernel.Svc.Invariant.Handler.{Spares}
use arm_kernel.Svc.Invariant.Ends.{Sound, Fits, handler_svc-Sound}
use arm_kernel.Svc.System.{System, boot, call, Reach, here, next}
use arm_kernel.Svc.System.Reached.{Calm, boot-Sound, booted-Awake, booted-Lively}
use arm_kernel.Mqueue.Awake.{AllKnown}
use arm_kernel.Proc.Interrupt.{handler_irq}
use arm_kernel.Proc.Invariant.Awake.{Awake}
use arm_kernel.Base.Returns.{Returns}
use arm_kernel.Mqueue.Rendezvous.{state}
use arm_kernel.Svc.{comm_of}
use arm_kernel.User.Libc.{invoke, msgsend_once, msgreceive_once}
use arm_kernel.User.Messages.{msgreceive-msgsend}

abbrev procs : Procs
procs = record {
  pcb = λ p. record {
    pid = p;
    prt = 0;
    ctx = zero_ctx;
    defp = 1;
    prio = 1;
    fd = λ _. none;
    pst = if ltb p 3 then executing else terminated;
  };
  current = 1;
  rq = λ i. if ltb i 3 then some i else none;
  rq_size = 3;
}

procs-Inv : Inv procs (0 ∷ 1 ∷ 2 ∷ [])
procs-Inv = record {
  queue = record { size = refl; slots = (refl, (refl, (refl, tt))); bounded = omega arith };
  named = λ p m. refl;
  distinct = (refl, (refl, (refl, tt)));
  inside = λ p m. ground arith;
  alive = λ p m. ground arith;
  current_inside = omega arith;
  current_named = refl;
}

procs-Lively : Lively 0 procs
procs-Lively = record { queue = 0 ∷ 1 ∷ 2 ∷ []; inv = procs-Inv; member = refl }

abbrev machine : Machine
machine = record {
  kernel = record {
    procs = procs;
    store = record {
      disk = λ a j. 0;
      fs = record {
        sblkno = 1;
        size = 2048;
        iblkno = 2;
        isize = 512;
        dblkno = 66;
        dsize = 1982;
        fdbhead = 0;
        fdb = λ i. 1;
        fil = λ i. 0;
        pad = λ i. 0;
      };
    };
    oft = λ o. record { inptr = none; head = 0 };
    ait = λ i. blank_inode;
  };
  mq = λ i. record { qname = 0; qnum = 0; qrec = 0; lspid = 0; lrpid = 0; qbuf = λ j. 0 };
  cwd = 0;
  mem = λ a. 65 + a;
  typed = [];
  printed = [];
}

abbrev env : Env
env = record {
  tos_init = 1_000_000;
  entry = λ i. 1000 * i;
  local = record { inode = blank_inode; dir = λ j. 0 };
  unset_entry = λ j. 0;
  unset_priority = λ j. 0;
}

-- A write of three characters to the console prints them.
abbrev prints : Ctx
prints = record zero_ctx { gpr = λ i. if i == 0 then 0x7FFF_FFFF else if i == 1 then 10 else 3 }

printed_three :
    handler_svc env prints 1 machine
    ≡ ok (
      record prints { gpr = λ i. if 0 == i then 3 else prints.gpr i },
      record machine { printed = 75 ∷ 76 ∷ 77 ∷ [] },
    )
unfolding handler_svc svc_write
printed_three = refl

machine-Known : AllKnown machine.mq
machine-Known = λ i. record { sender = omega arith; receiver = omega arith }

machine-Sound : Sound 0 machine
machine-Sound = (record { lively = procs-Lively; live = refl }, machine-Known)

-- Process 1 sends four bytes to channel 5.
abbrev sends : Ctx
sends = record zero_ctx { gpr = λ i. if i == 0 then 5 else if i == 1 then 100 else 4 }

sends-Fits : Fits 0 sends machine 9
sends-Fits = (
  λ e. ground arith,
  λ e. ground arith,
  λ e. record { other = ground arith; channel = omega arith; short = omega arith },
  λ e. ground arith,
)

handler_svc-Sound_example : Returns (λ r. Sound 0 r.1) (handler_svc env sends 9 machine)
handler_svc-Sound_example = handler_svc-Sound 0 9 env sends machine machine-Sound refl sends-Fits

abbrev start : System
start = boot 0x8000 0x9000 machine

-- init forks right behind a reset.
fork-Calm : Calm 0 start.ctx start.machine 3
fork-Calm = (refl, (λ e. ground arith, λ e. ground arith, λ e. ground arith, λ e. ground arith))

forked : Returns (λ r. Sound 0 r.1) (handler_svc env start.ctx 3 start.machine)
forked =
    handler_svc-Sound 0 3 env start.ctx start.machine
      (boot-Sound 0x8000 0x9000 machine machine-Known) fork-Calm.0 fork-Calm.1

abbrev after_fork : System
after_fork = record { ctx = forked.value.0; machine = forked.value.1 }

after_fork-Calm : Reach (Calm 0) start after_fork
after_fork-Calm = next here (call start env 3 forked.value.0 forked.value.1 fork-Calm forked.ends)

after_fork-Spares : Reach (Spares 0) start after_fork
after_fork-Spares = next here (
    call start env 3 forked.value.0 forked.value.1 (λ e. ground arith, λ e. ground arith)
      forked.ends)

-- The timer interrupts one of the two processes.
booted-Awake_example :
    Returns (λ r. Awake 0 r.1) (handler_irq 36 after_fork.ctx after_fork.machine.kernel.procs)
booted-Awake_example =
    booted-Awake 0x8000 0x9000 machine after_fork 36 machine-Known after_fork-Calm

booted-Lively_example : Lively 0 after_fork.machine.kernel.procs
booted-Lively_example = booted-Lively 0x8000 0x9000 machine after_fork after_fork-Spares

-- Process 1 sends the four bytes from 100 on to channel 5; process 2 receives them at 300.
sent : Returns (λ r. Sound 0 r.1) (invoke env (msgsend_once 5 100 4) zero_ctx machine)
unfolding invoke
sent =
    handler_svc-Sound 0 9 env ((msgsend_once 5 100 4).enter zero_ctx) machine machine-Sound refl (
      λ e. ground arith,
      λ e. ground arith,
      λ e. record { other = ground arith; channel = omega arith; short = omega arith },
      λ e. ground arith,
    )

abbrev receiving : Procs
receiving = record procs {
  pcb = λ p. record (procs.pcb p) { pst = if p == 1 then waiting else (procs.pcb p).pst };
  current = 2;
}

receiving-Inv : Inv receiving (0 ∷ 1 ∷ 2 ∷ [])
receiving-Inv = record {
  queue = record { size = refl; slots = (refl, (refl, (refl, tt))); bounded = omega arith };
  named = λ p m. refl;
  distinct = (refl, (refl, (refl, tt)));
  inside = λ p m. ground arith;
  alive = λ p m. ground arith;
  current_inside = omega arith;
  current_named = refl;
}

abbrev receiver : Machine
receiver = record machine {
  kernel = record (machine.kernel) { procs = receiving };
  mq = sent.value.1.mq;
  mem = λ a. 0;
}

msgreceive-msgsend_example :
    (ctx3 : Ctx) × (m3 : Machine) × (invoke env (msgreceive_once 5 300 4) zero_ctx receiver
      ≡ ok (ctx3, m3))
    × (ctx3.gpr 0 ≡ 4)
    × ((i : ℕ) → i < 4 → m3.mem (300 + i) ≡ machine.mem (100 + i))
    × ((j : ℕ) → m3.mem j ≢ receiver.mem j → (300 ≤ j) × (j < 300 + 4))
    × (state (comm_of m3) 1 ≡ executing)
msgreceive-msgsend_example =
    msgreceive-msgsend env 5 4 (omega arith) (omega arith) 1 2 100 300 zero_ctx sent.value.0
      zero_ctx machine sent.value.1 receiver (0 ∷ 1 ∷ 2 ∷ []) (0 ∷ 1 ∷ 2 ∷ [])
      (record { inv = procs-Inv; current = refl; inside = omega arith }) refl (omega arith)
      sent.ends refl (record { inv = receiving-Inv; current = refl; inside = omega arith })
      (omega arith) refl
