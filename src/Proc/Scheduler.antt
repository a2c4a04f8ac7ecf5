-- ===== src/Proc/Scheduler.antt =====
-- scheduler of kernel/kernel.c.
use arm_kernel.Base.{
  ℕ, zero, suc, ◌+◌, none, some, ◌==◌, if◌then◌else◌, update, Run, ok, ◌>>=◌, deref,
}
use arm_kernel.Base.Words.{sub32}
use arm_kernel.Proc.{process_limit, Ctx, Procs}
use arm_kernel.Proc.ReadyQueue.{rq_rotate}

-- for (; n rounds; i++) rq[ i ]->prio = rq[ i ]->defp;
unfoldable pub reset_prios : ℕ → ℕ → Procs → Run Procs
reset_prios zero i s = ok s
reset_prios (suc rounds) i s = do
  q ← deref (s.rq i)
  let p = s.pcb q
  reset_prios rounds (i + 1) (record s { pcb = update s.pcb q (record p { prio = p.defp }) })

-- The two copies of a context, and the new `current`.
unfoldable pub switch_to : ℕ → Ctx → Procs → Ctx × Procs
switch_to head ctx s =
    let slot = (s.pcb s.current).pid in
    let pcb = update s.pcb slot (record (s.pcb slot) { ctx = ctx }) in
    ((pcb head).ctx, record s { pcb = pcb; current = head })

-- The scheduler behind the rotation, with `head` in front.
unfoldable pub dispatch : ℕ → Ctx → Procs → Run (Ctx × Procs)
unfolding reset_prios switch_to
dispatch head ctx s = do
  s ← if (s.pcb head).prio == 0 then reset_prios s.rq_size 0 s else ok s
  let p = s.pcb head
  if s.current == head
      then ok (ctx, record s { pcb = update s.pcb head (record p { prio = sub32 p.prio 1 }) })
      else ok (switch_to head ctx s)

-- Nine rounds of rq_rotate pass every entry of a full queue once.
unfoldable pub scheduler : Ctx → Procs → Run (Ctx × Procs)
unfolding rq_rotate dispatch
scheduler ctx s = do
  s ← rq_rotate (process_limit + 1) s
  elim (s.rq 0) [ none ↦ ok (ctx, s) | some head ↦ dispatch head ctx s ]
