-- ===== src/Proc/Signal.antt =====
-- kill of kernel/kernel.c.
use arm_kernel.Base.{
  ℕ, zero, suc, ◌+◌, ◌&&◌, leb, ltb, ◌==◌, if◌then◌else◌, update, Run, ok, ◌>>◌, check,
}
use arm_kernel.Base.Words.{nonneg}
use arm_kernel.Proc.{process_limit, Procs, terminated, executing, waiting, is_waiting, set_pst}
use arm_kernel.Proc.ReadyQueue.{rq_rm}

-- sig_t.
abbrev pub sigkill : ℕ
sigkill = 0

abbrev pub sigwait : ℕ
sigwait = 1

abbrev pub sigcont : ℕ
sigcont = 2

abbrev pub sigpri0 : ℕ
sigpri0 = 3

-- The switch on the signal. Another number does nothing.
unfoldable pub signal : ℕ → ℕ → Procs → Run Procs
signal pid sig s =
    if sig == sigkill
    then rq_rm pid (set_pst pid terminated s)
    else if sig == sigwait
    then ok (set_pst pid waiting s)
    else if sig == sigcont
    then ok (if is_waiting (s.pcb pid).pst then set_pst pid executing s else s)
    else if sig == sigpri0
    then ok (record s { pcb = update s.pcb pid (record (s.pcb pid) { defp = 0; prio = 0 }) })
    else ok s

-- for (p = 1; p < PROCESS_LIMIT; p++) pcb[ p ].pst = TERMINATED;
unfoldable pub terminate_from : ℕ → ℕ → Procs → Procs
terminate_from zero p s = s
terminate_from (suc rounds) p s = terminate_from rounds (p + 1) (set_pst p terminated s)

-- The test lets pid 8 through, for which there is no pcb.
unfoldable pub kill : ℕ → ℕ → Procs → Run Procs
unfolding signal terminate_from
kill pid sig s =
    if nonneg pid && leb pid process_limit
    then check (ltb pid process_limit) >> signal pid sig s
    else if (pid == 9) && (sig == sigkill)
    then ok (terminate_from 7 1 s)
    else ok s
