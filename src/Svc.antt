-- ===== src/Svc.antt =====
-- What kernel_handler_svc of kernel/kernel.c works on: the kernel's globals, the memory of the
-- programs, and the console at UART0. Addresses do not pass the end of the memory.
pub mod Paths
pub mod Console
pub mod Directories
pub mod Handler
pub mod Cases
pub mod Invariant
pub mod System
mod Tests
use arm_kernel.Base.{
  ℕ, zero, suc, ◌+◌, ◌-◌, ◌==◌, ◌&&◌, Bool, true, false, leb, ltb, if◌then◌else◌, List, [], ◌∷◌,
  ◌++◌, length, update, Run, ok, out_of_fuel, ◌>>=◌,
}
use arm_kernel.Base.Words.{u32_mod}
use arm_kernel.Proc.{Ctx, Procs}
use arm_kernel.Proc.Scheduler.{scheduler}
use arm_kernel.Fs.Alloc.{Store}
use arm_kernel.Fs.Dirs.{cstr}
use arm_kernel.Mqueue.{Channels, Comm}
use arm_kernel.Files.{Kernel}

-- `typed` is what the console will send, `printed` what was sent to it.
pub record Machine : Type 0 where
  pub kernel : Kernel
  pub mq : Channels
  pub cwd : ℕ
  pub mem : ℕ → ℕ
  pub typed : List ℕ
  pub printed : List ℕ

-- STDIO.
abbrev pub stdio : ℕ
stdio = 0x7FFF_FFFF

-- ctx->gpr[ 0 ] = v
abbrev pub result : ℕ → Ctx → Ctx
result v ctx = record ctx { gpr = update ctx.gpr 0 v }

abbrev pub with_procs : Procs → Machine → Machine
with_procs t m = record m { kernel = record (m.kernel) { procs = t } }

abbrev pub with_store : Store → Machine → Machine
with_store s m = record m { kernel = record (m.kernel) { store = s } }

abbrev pub with_comm : Comm → Machine → Machine
with_comm c m = record m { kernel = record (m.kernel) { procs = c.procs }; mq = c.mq }

abbrev pub comm_of : Machine → Comm
comm_of m = record { procs = m.kernel.procs; mq = m.mq }

-- scheduler( ctx )
unfoldable pub reschedule : Ctx → Machine → Run (Ctx × Machine)
unfolding scheduler
reschedule ctx m = do (ctx', t) ← scheduler ctx m.kernel.procs; ok (ctx', with_procs t m)

-- The array at an address, and a write of its first `n` elements.
abbrev pub bytes_at : ℕ → (ℕ → ℕ) → ℕ → ℕ
bytes_at a mem i = mem (a + i)

abbrev pub put_bytes : ℕ → ℕ → (ℕ → ℕ) → (ℕ → ℕ) → ℕ → ℕ
put_bytes a n x mem b = if leb a b && ltb b (a + n) then x (b - a) else mem b

-- The string at an address, up to its null character.
unfoldable pub string_from : (fuel : ℕ) → (ℕ → ℕ) → ℕ → Run (List ℕ)
string_from zero mem a = out_of_fuel
string_from (suc fuel) mem a = elim (mem a == 0) [
  | true ↦ ok []
  | false ↦ string_from fuel mem (a + 1) >>= λ s. ok (mem a ∷ s)
]

unfoldable pub string_at : ℕ → Machine → Run (List ℕ)
unfolding string_from
string_at a m = string_from u32_mod m.mem a

-- PL011_putc( UART0, c )
abbrev pub put_char : ℕ → Machine → Machine
put_char c m = record m { printed = m.printed ++ (c ∷ []) }

-- for( i = 0; i < n; i++ ) PL011_putc( UART0, f[ i ] );
unfoldable pub print_from : (rounds i : ℕ) → (ℕ → ℕ) → Machine → Machine
print_from zero i f m = m
print_from (suc rounds) i f m = print_from rounds (i + 1) f (put_char (f i) m)
