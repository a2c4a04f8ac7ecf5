-- ===== src/Proc/Invariant.antt =====
-- What holds of the process table between two handlers.
pub mod Signals
pub mod Forks
pub mod Schedules
pub mod Interrupts
pub mod Lively
pub mod Awake
use arm_kernel.Base.{ℕ, ◌<◌, ◌≡◌, List, true, false, arith, has, Distinct, update}
use arm_kernel.Proc.{process_limit, Procs, Pcb, is_terminated}
use arm_kernel.Proc.ReadyQueue.Content.{IsQueue}
use arm_kernel.Proc.ReadyQueue.Remove.{IsNamed}

-- The queue holds processes of the table that have not ended, each once, under their own pid; so
-- is `current`.
pub record Inv (s : Procs) (xs : List ℕ) : Type 0 where
  pub queue : IsQueue s xs
  pub named : IsNamed s xs
  pub distinct : Distinct xs
  pub inside : (p : ℕ) → has p xs ≡ true → p < process_limit
  pub alive : (p : ℕ) → has p xs ≡ true → is_terminated (s.pcb p).pst ≡ false
  pub current_inside : s.current < process_limit
  pub current_named : (s.pcb s.current).pid ≡ s.current

-- A change of the pcbs that keeps the pids and ends no process of the queue.
pub Inv-pcb :
    (s : Procs) (f : ℕ → Pcb) (xs : List ℕ)
    → Inv s xs
    → ((p : ℕ) → (f p).pid ≡ (s.pcb p).pid)
    → ((p : ℕ) → has p xs ≡ true → is_terminated (f p).pst ≡ false)
    → Inv (record s { pcb = f }) xs
Inv-pcb s f xs v pids lives = record {
  queue = record { size = v.queue.size; slots = v.queue.slots; bounded = v.queue.bounded };
  named = λ p m. ground (arith, pids p, v.named p m);
  distinct = v.distinct;
  inside = v.inside;
  alive = lives;
  current_inside = v.current_inside;
  current_named = ground (arith, pids s.current, v.current_named);
}
