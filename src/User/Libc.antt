-- ===== src/User/Libc.antt =====
-- The wrappers of user/libc.c: the number in the svc instruction, and the registers that are set
-- before it. Those that return something return what r0 holds when the program runs again.
use Prim.Native.Nat.{ℕ}
use arm_kernel.Base.{update, Run}
use arm_kernel.Proc.{Ctx}
use arm_kernel.Svc.{Machine}
use arm_kernel.Svc.Handler.{Env, handler_svc}

pub record Stub : Type 0 where
  pub number : ℕ
  pub enter : Ctx → Ctx

abbrev as_is : Ctx → Ctx
as_is ctx = ctx

abbrev pass_one : ℕ → Ctx → Ctx
pass_one a ctx = record ctx { gpr = update ctx.gpr 0 a }

abbrev pass_two : ℕ → ℕ → Ctx → Ctx
pass_two a b ctx = let c = pass_one a ctx in record c { gpr = update c.gpr 1 b }

abbrev pass_three : ℕ → ℕ → ℕ → Ctx → Ctx
pass_three a b n ctx = let c = pass_two a b ctx in record c { gpr = update c.gpr 2 n }

-- The svc instruction: interrupt.s passes the saved registers and the number to the handler.
unfoldable pub invoke : Env → Stub → Ctx → Machine → Run (Ctx × Machine)
unfolding handler_svc
invoke env f ctx m = handler_svc env (f.enter ctx) f.number m

abbrev pub yield_now : Stub
yield_now = record { number = 0; enter = as_is }

abbrev pub cfork : Stub
cfork = record { number = 3; enter = as_is }

-- The result is not taken from r0: the last instruction moves the unset result to r0.
abbrev pub cexec : (path : ℕ) → Stub
cexec path = record { number = 4; enter = pass_one path }

abbrev pub ckill : (pid sig : ℕ) → Stub
ckill pid sig = record { number = 6; enter = pass_two pid sig }

abbrev pub craise : (sig : ℕ) → Stub
craise sig = record { number = 7; enter = pass_one sig }

abbrev pub mqinit : (mqd : ℕ) → Stub
mqinit mqd = record { number = 8; enter = pass_one mqd }

abbrev pub mqunlink : (mqd : ℕ) → Stub
mqunlink mqd = record { number = 22; enter = pass_one mqd }

-- One try of msgsend, which calls itself while the result is -1.
abbrev pub msgsend_once : (mqd buf size : ℕ) → Stub
msgsend_once mqd buf size = record { number = 9; enter = pass_three mqd buf size }

-- One try of msgreceive, which calls itself while the result is -1.
abbrev pub msgreceive_once : (mqd buf size : ℕ) → Stub
msgreceive_once mqd buf size = record { number = 10; enter = pass_three mqd buf size }

abbrev pub write : (fd x n : ℕ) → Stub
write fd x n = record { number = 1; enter = pass_three fd x n }

abbrev pub read : (fd x n : ℕ) → Stub
read fd x n = record { number = 2; enter = pass_three fd x n }

abbrev pub disk_wipe : Stub
disk_wipe = record { number = 11; enter = as_is }

abbrev pub fopen : (path ofile : ℕ) → Stub
fopen path ofile = record { number = 12; enter = pass_two path ofile }

abbrev pub fclose : (fd : ℕ) → Stub
fclose fd = record { number = 13; enter = pass_one fd }

abbrev pub fseek : (fd offset whence : ℕ) → Stub
fseek fd offset whence = record { number = 5; enter = pass_three fd offset whence }

abbrev pub funlink : (name : ℕ) → Stub
funlink name = record { number = 18; enter = pass_one name }

abbrev pub ftell : (fd : ℕ) → Stub
ftell fd = record { number = 21; enter = pass_one fd }

abbrev pub pwd : Stub
pwd = record { number = 14; enter = as_is }

abbrev pub ls : Stub
ls = record { number = 15; enter = as_is }

abbrev pub mkdir : (name : ℕ) → Stub
mkdir name = record { number = 16; enter = pass_one name }

abbrev pub cd : (path : ℕ) → Stub
cd path = record { number = 17; enter = pass_one path }

abbrev pub mv : (src dest : ℕ) → Stub
mv src dest = record { number = 19; enter = pass_two src dest }

abbrev pub cp : (src dest : ℕ) → Stub
cp src dest = record { number = 20; enter = pass_two src dest }

-- A craise of SIGKILL.
abbrev pub cexit : Stub
cexit = craise 0
