-- ===== src/Proc/Invariant/Schedules.antt =====
-- scheduler of kernel/kernel.c: which process runs next, and what becomes of the registers.
use arm_kernel.Base.{
  ℕ, ◌+◌, ◌<◌, ◌≡◌, ◌∙◌, refl, ap, List, [], ◌∷◌, ◌++◌, true, inl, inr, ◌⊎◌, ◌≢◌, arith, has,
  has-swap, Distinct-swap, length, length-append, All, ◌==◌, if◌then◌else◌, update, Bool-cases,
  Option, some, ok, out_of_fuel,
}
use arm_kernel.Base.Words.{sub32}
use arm_kernel.Proc.{process_limit, Procs, Pcb, Ctx}
use arm_kernel.Proc.ReadyQueue.{rq_rotate}
use arm_kernel.Proc.ReadyQueue.Content.{Holds, IsQueue}
use arm_kernel.Proc.ReadyQueue.Rotate.{IsIdle, IsLive, rq_rotate-IsQueue, rq_rotate-diverges}
use arm_kernel.Proc.Scheduler.{reset_prios, switch_to, dispatch, scheduler}
use arm_kernel.Proc.Invariant.{Inv, Inv-pcb}

-- Two pcbs that differ in the priority at most.
pub record SamePcb (a b : Pcb) : Type 0 where
  pub pid : a.pid ≡ b.pid
  pub ctx : a.ctx ≡ b.ctx
  pub pst : a.pst ≡ b.pst
  pub defp : a.defp ≡ b.defp
  pub fd : a.fd ≡ b.fd
  pub prio : (a.prio ≡ b.prio) ⊎ (a.prio ≡ b.defp)

same_refl : (a : Pcb) → SamePcb a a
same_refl a = record { pid = refl; ctx = refl; pst = refl; defp = refl; fd = refl; prio = inl refl }

same_trans : {a b c : Pcb} → SamePcb a b → SamePcb b c → SamePcb a c
same_trans h k = record {
  pid = h.pid ∙ k.pid;
  ctx = h.ctx ∙ k.ctx;
  pst = h.pst ∙ k.pst;
  defp = h.defp ∙ k.defp;
  fd = h.fd ∙ k.fd;
  prio = ground (arith, h.prio, k.prio, h.defp, k.defp);
}

reset_prios_lem :
    (xs : List ℕ) (i : ℕ) (s : Procs)
    → Holds s.rq i xs
    → (f : ℕ → Pcb) × (reset_prios (length xs) i s ≡ ok (record s { pcb = f }))
      × ((p : ℕ) → SamePcb (f p) (s.pcb p))
unfolding reset_prios
reset_prios_lem [] i s h = (s.pcb, refl, λ p. same_refl (s.pcb p))
reset_prios_lem (x ∷ xs) i s h =
    let t = update s.pcb x (record (s.pcb x) { prio = (s.pcb x).defp }) in
    let (f, run, same) = reset_prios_lem xs (i + 1) (record s { pcb = t }) h.1 in
    (f, rw h.0 run, λ p. same_trans (same p) (one p))
  where
    one :
        (p : ℕ) → SamePcb (update s.pcb x (record (s.pcb x) { prio = (s.pcb x).defp }) p) (s.pcb p)
    one p = ground arith

-- The front process runs next: it keeps the registers if it ran before, and otherwise they are
-- stored in the pcb of the process that ran and loaded from its own. A process that did not run keeps
-- its priority, or gets its default one.
pub record Dispatched (ctx : Ctx) (s : Procs) (x : ℕ) (ctx' : Ctx) (s' : Procs) : Type 0 where
  pub current : s'.current ≡ x
  pub stays : x ≡ s.current → ctx' ≡ ctx
  pub loaded : x ≢ s.current → ctx' ≡ (s.pcb x).ctx
  pub stored : x ≢ s.current → (s'.pcb s.current).ctx ≡ ctx
  pub others : (p : ℕ) → p ≢ s.current → (s'.pcb p).ctx ≡ (s.pcb p).ctx
  pub states : (p : ℕ) → (s'.pcb p).pst ≡ (s.pcb p).pst
  pub defps : (p : ℕ) → (s'.pcb p).defp ≡ (s.pcb p).defp
  pub prios :
      (p : ℕ)
      → p ≢ s.current
      → ((s'.pcb p).prio ≡ (s.pcb p).prio) ⊎ ((s'.pcb p).prio ≡ (s.pcb p).defp)

dispatch-Dispatched :
    (ctx : Ctx) (s : Procs) (xs : List ℕ) (x : ℕ)
    → Inv s (x ∷ xs)
    → (ctx' : Ctx) × (s' : Procs) × (dispatch x ctx s ≡ ok (ctx', s'))
      × Dispatched ctx s x ctx' s'
      × Inv s' (x ∷ xs)
unfolding dispatch switch_to
dispatch-Dispatched ctx s xs x i =
    let (f, run, same) = prios in
    let t : Procs = record s { pcb = f } in
    let slot : (f s.current).pid ≡ s.current = (same s.current).pid ∙ i.current_named in
    elim (Bool-cases (s.current == x)) [
      | inl e ↦
          let g = update f x (record (f x) { prio = sub32 (f x).prio 1 }) in
          (
            ctx,
            record s { pcb = g },
            rw run (rw e),
            record {
              current = ground arith;
              stays = λ _. refl;
              loaded = λ ne. ground arith;
              stored = λ ne. ground arith;
              others = λ p ne. ground (arith, same p);
              states = λ p. ground (arith, same p);
              defps = λ p. ground (arith, same p);
              prios = λ p ne. ground (arith, same p, (same p).prio);
            },
            Inv-pcb s g (x ∷ xs) i (λ p. ground (arith, same p))
                (λ p m. ground (arith, same p, i.alive p m)),
          )
      | inr e ↦
          let g = update f s.current (record (f s.current) { ctx = ctx }) in
          let kept =
            Inv-pcb s g (x ∷ xs) i (λ p. ground (arith, same p))
              (λ p m. ground (arith, same p, i.alive p m)) in
          (
            (f x).ctx,
            record s { pcb = g; current = x },
            rw run (rw e (rw slot (ground arith))),
            record {
              current = refl;
              stays = λ eq. ground arith;
              loaded = λ ne. (same x).ctx;
              stored = λ ne. ground arith;
              others = λ p ne. ground (arith, same p);
              states = λ p. ground (arith, same p);
              defps = λ p. ground (arith, same p);
              prios = λ p ne. ground (arith, same p, (same p).prio);
            },
            record {
              queue = record {
                size = kept.queue.size;
                slots = kept.queue.slots;
                bounded = kept.queue.bounded;
              };
              named = kept.named;
              distinct = kept.distinct;
              inside = kept.inside;
              alive = kept.alive;
              current_inside = i.inside x (ground arith);
              current_named = kept.named x (ground arith);
            },
          )
    ]
  where
    prios :
        (f : ℕ → Pcb) × ((if (s.pcb x).prio == 0 then reset_prios s.rq_size 0 s else ok s)
          ≡ ok (record s { pcb = f }))
        × ((p : ℕ) → SamePcb (f p) (s.pcb p))
    prios = elim (Bool-cases ((s.pcb x).prio == 0)) [
      | inl e ↦
          let (f, run, same) = reset_prios_lem (x ∷ xs) 0 s i.queue.slots in
          (f, rw e (ap (λ n. reset_prios n 0 s) i.queue.size ∙ run), same)
      | inr e ↦ (s.pcb, rw e, λ p. same_refl (s.pcb p))
    ]

-- The invariant holds of the turned queue.
rotated-Inv :
    (s : Procs) (rq : ℕ → Option ℕ) (h x : ℕ) (t ys rest : List ℕ)
    → Inv s (h ∷ t)
    → t ++ h ∷ [] ≡ ys ++ x ∷ rest
    → IsQueue (record s { rq = rq }) (x ∷ rest ++ ys)
    → Inv (record s { rq = rq }) (x ∷ rest ++ ys)
rotated-Inv s rq h x t ys rest i e q = record {
  queue = q;
  named = λ p m. i.named p (back p m);
  distinct = Distinct-swap ys (x ∷ rest) (rw e at (Distinct-swap (h ∷ []) t i.distinct));
  inside = λ p m. i.inside p (back p m);
  alive = λ p m. i.alive p (back p m);
  current_inside = i.current_inside;
  current_named = i.current_named;
}
  where
    back : (p : ℕ) → has p (x ∷ rest ++ ys) ≡ true → has p (h ∷ t) ≡ true
    back p m = has-swap p (h ∷ []) t ∙ ap (has p) e ∙ has-swap p ys (x ∷ rest) ∙ m

scheduler_step :
    (ctx : Ctx) (s t : Procs) (x : ℕ)
    → rq_rotate (process_limit + 1) s ≡ ok t
    → t.rq 0 ≡ some x
    → scheduler ctx s ≡ dispatch x ctx t
unfolding scheduler
scheduler_step ctx s t x turn front = rw (turn, front)

-- scheduler ends, without a fault, whenever some process of the queue is EXECUTING: the first one
-- behind the head, or else the head itself, comes to the front and runs next, the processes passed
-- over go to the back in their order, and the invariant holds again.
pub scheduler-Dispatched :
    (ctx : Ctx) (s : Procs) (h x : ℕ) (t ys rest : List ℕ)
    → Inv s (h ∷ t)
    → t ++ h ∷ [] ≡ ys ++ x ∷ rest
    → All (IsIdle s) ys
    → IsLive s x
    → (ctx' : Ctx) × (s' : Procs) × (scheduler ctx s ≡ ok (ctx', s'))
      × Dispatched ctx s x ctx' s'
      × Inv s' (x ∷ rest ++ ys)
scheduler-Dispatched ctx s h x t ys rest i e idle live =
    let enough : length ys < process_limit + 1 = omega (
      arith,
      i.queue.bounded,
      ap length e,
      length-append t (h ∷ []),
      length-append ys (x ∷ rest),
    ) in
    let (rq, turn, q) =
      rq_rotate-IsQueue (process_limit + 1) s h x t ys rest i.queue e idle live enough in
    let (ctx', s', run, d, i') =
      dispatch-Dispatched ctx (record s { rq = rq }) (rest ++ ys) x
        (rotated-Inv s rq h x t ys rest i e q) in
    (
      ctx',
      s',
      scheduler_step ctx s _ x turn q.slots.0 ∙ run,
      record {
        current = d.current;
        stays = d.stays;
        loaded = d.loaded;
        stored = d.stored;
        others = d.others;
        states = d.states;
        defps = d.defps;
        prios = d.prios;
      },
      i',
    )

-- While no process of the queue is EXECUTING, scheduler does not return: its rounds of rq_rotate run
-- out.
pub scheduler-diverges :
    (ctx : Ctx) (s : Procs) (h : ℕ) (t : List ℕ)
    → IsQueue s (h ∷ t)
    → All (IsIdle s) (h ∷ t)
    → scheduler ctx s ≡ out_of_fuel
unfolding scheduler
scheduler-diverges ctx s h t q idle = rw (rq_rotate-diverges (process_limit + 1) s h t q idle)
