-- ===== src/Proc/ReadyQueue.antt =====
-- The ready queue of kernel/kernel.c: rq_rotate, rq_add and rq_rm.
pub mod Content
pub mod Rotate
pub mod Remove
use arm_kernel.Base.{
  ℕ, zero, suc, ◌+◌, ◌-◌, Option, none, some, Bool, ltb, ◌==◌, if◌then◌else◌, update, Run, ok,
  out_of_fuel, ◌>>=◌, ◌>>◌, check, deref,
}
use arm_kernel.Base.Words.{sub32}
use arm_kernel.Proc.{process_limit, is_executing, Procs}

-- for (; n rounds; i++) a[ i ] = a[ i+1 ];
unfoldable pub shift_left {ℓ} : {A : Type ℓ} → ℕ → ℕ → (ℕ → A) → ℕ → A
shift_left zero i a = a
shift_left (suc n) i a = shift_left n (i + 1) (update a i (a (i + 1)))

-- The `end` of rq_rotate. With a head in an empty queue it is -1.
abbrev pub rotate_end : Option ℕ → ℕ → ℕ
rotate_end none size = size
rotate_end (some _) size = sub32 size 1

-- The move at the start of rq_rotate: the head goes to the back. The array has no slot 8.
unfoldable pub rotate_once : Procs → Run Procs
unfolding shift_left
rotate_once s = do
  let e = rotate_end (s.rq 0) s.rq_size
  check (ltb e process_limit)
  ok (record s { rq = update (shift_left e 0 s.rq) e (s.rq 0) })

-- One round for each of the nested calls. rq[ 0 ]->pst is read before rq[ 0 ] is compared to NULL.
unfoldable pub rq_rotate : ℕ → Procs → Run Procs
unfolding rotate_once
rq_rotate zero s = out_of_fuel
rq_rotate (suc fuel) s = do
  s ← rotate_once s
  head ← deref (s.rq 0)
  let again = rq_rotate fuel s
  if is_executing (s.pcb head).pst then ok s else again

unfoldable pub rq_add : ℕ → Procs → Procs
rq_add pid s =
    if ltb s.rq_size process_limit
    then record s { rq = update s.rq s.rq_size (some pid); rq_size = s.rq_size + 1 }
    else s

-- Where the entry at `p` is the process: close the gap, and clear the last slot.
unfoldable pub remove_at : ℕ → Procs → Procs
unfolding shift_left
remove_at p s = record s {
  rq = update (shift_left (s.rq_size - 1 - p) p s.rq) (s.rq_size - 1) none;
  rq_size = s.rq_size - 1;
}

-- The outer loop of rq_rm. It goes on behind a removal, at the next index.
unfoldable pub rm_from : ℕ → ℕ → ℕ → Procs → Run Procs
unfolding remove_at
rm_from zero p pid s = ok s
rm_from (suc rounds) p pid s =
    if ltb p s.rq_size
    then (do
      q ← deref (s.rq p)
      rm_from rounds (p + 1) pid (if (s.pcb q).pid == pid then remove_at p s else s))
    else ok s

-- `rq_size` only falls, so that many rounds are enough.
unfoldable pub rq_rm : ℕ → Procs → Run Procs
unfolding rm_from
rq_rm pid s = rm_from s.rq_size 0 pid s
