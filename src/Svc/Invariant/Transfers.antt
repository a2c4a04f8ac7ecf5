-- ===== src/Svc/Invariant/Transfers.antt =====
-- kernel_handler_svc of kernel/kernel.c keeps the process table in order: the calls on files.
use arm_kernel.Base.{
  ℕ, zero, suc, ◌+◌, ◌≡◌, refl, sym, subst, arith, List, [], ◌∷◌, ◌==◌, Option-cases, inl, inr, ◌⊎◌,
  Run, ok, ◌>>=◌, update,
}
use arm_kernel.Base.Words.{neg1}
use arm_kernel.Base.Always.{Always, Always-ok, Always-if, Always-bind, Always-then}
use arm_kernel.Proc.{Ctx}
use arm_kernel.Proc.Invariant.Lively.{Lively, exec-Lively}
use arm_kernel.Files.{Kernel, get_fd, close_file, lseek, fread, fwrite, rounds_of}
use arm_kernel.Files.Paths.{open_string, root_dir, o_exist}
use arm_kernel.Files.Format.{wipe}
use arm_kernel.Files.Fds.{
  SameRuns-trans, KeepsRuns, lseek-KeepsRuns, fread-KeepsRuns, fwrite-KeepsRuns,
  close_file-KeepsRuns, open_string-KeepsRuns, wipe-KeepsRuns,
}
use arm_kernel.Svc.{Machine, stdio, result, string_at, bytes_at, print_from, put_char, put_bytes}
use arm_kernel.Svc.Paths.{cut_path, path_at, open_path_at, read_entry, get_program_entry}
use arm_kernel.Fs.Disk.{Block}
use arm_kernel.Svc.Console.{svc_write, svc_read, read_from}
use arm_kernel.Svc.Handler.{Env, svc_exec, svc_lseek, svc_wipe, svc_open, svc_close}
use arm_kernel.Svc.Invariant.{Lively-SameRuns, Keeps, InOrder}

module _ (q : ℕ) where
  -- A call of a function on files.
  by_files {ℓ} :
      {A : Type ℓ} (kernel : A → Kernel) (r : Run A) (out : A → Ctx × Machine) (m : Machine)
      → InOrder q m
      → KeepsRuns kernel m.kernel r
      → ((a : A) → (out a).1.kernel ≡ kernel a)
      → Keeps q (r >>= λ a. ok (out a))
  by_files kernel r out m l h e =
      Always-bind r h
        λ a k. Always-ok (subst (λ t. Lively q t.procs) (sym (e a)) (Lively-SameRuns q _ _ l k))

  pub svc_lseek-Keeps : (ctx : Ctx) (m : Machine) → InOrder q m → Keeps q (svc_lseek ctx m)
  unfolding svc_lseek
  svc_lseek-Keeps ctx m l =
      by_files (λ r. r.1) (lseek (ctx.gpr 0) (ctx.gpr 1) (ctx.gpr 2) m.kernel)
        (λ r. (result r.0 ctx, record m { kernel = r.1 })) m l
        (lseek-KeepsRuns (ctx.gpr 0) (ctx.gpr 1) (ctx.gpr 2) m.kernel) (λ r. refl)

  pub svc_close-Keeps : (ctx : Ctx) (m : Machine) → InOrder q m → Keeps q (svc_close ctx m)
  unfolding svc_close
  svc_close-Keeps ctx m l =
      by_files (λ r. r.1) (close_file (ctx.gpr 0) m.kernel)
        (λ r. (result r.0 ctx, record m { kernel = r.1 })) m l
        (close_file-KeepsRuns (ctx.gpr 0) m.kernel) (λ r. refl)

  pub svc_wipe-Keeps :
      (env : Env) (ctx : Ctx) (m : Machine) → InOrder q m → Keeps q (svc_wipe env ctx m)
  unfolding svc_wipe
  svc_wipe-Keeps env ctx m l =
      by_files (λ k. k) (wipe env.entry env.local.dir m.kernel)
        (λ k. (ctx, record m { kernel = k })) m l (wipe-KeepsRuns env.entry env.local.dir m.kernel)
        (λ k. refl)

  pub print_from-kernel :
      (rounds i : ℕ) (f : ℕ → ℕ) (m : Machine) → (print_from rounds i f m).kernel ≡ m.kernel
  unfolding print_from
  print_from-kernel zero i f m = refl
  print_from-kernel (suc rounds) i f m = print_from-kernel rounds (i + 1) f (put_char (f i) m)

  pub svc_write-Keeps : (ctx : Ctx) (m : Machine) → InOrder q m → Keeps q (svc_write ctx m)
  unfolding svc_write
  svc_write-Keeps ctx m l =
      let x = bytes_at (ctx.gpr 1) m.mem in
      let n = ctx.gpr 2 in
      Always-if (ctx.gpr 0 == stdio)
        (Always-ok (subst (λ k. Lively q k.procs) (sym (print_from-kernel (rounds_of n) 0 x m)) l))
        (by_files (λ r. r.1) (fwrite (ctx.gpr 0) x n m.kernel)
          (λ r. (result r.0 ctx, record m { kernel = r.1 })) m l
          (fwrite-KeepsRuns (ctx.gpr 0) n x m.kernel) (λ r. refl))

  typed_cases : (s : List ℕ) → (s ≡ []) ⊎ ((c : ℕ) × (cs : List ℕ) × (s ≡ c ∷ cs))
  typed_cases [] = inl refl
  typed_cases (c ∷ cs) = inr (c, cs, refl)

  abbrev echoed : ℕ → ℕ → List ℕ → Machine → Machine
  echoed a c cs m = put_char c (record m { mem = update m.mem a c; typed = cs })

  read_from-kernel :
      (rounds a : ℕ) (m : Machine) → Always (λ m'. m'.kernel ≡ m.kernel) (read_from rounds a m)
  unfolding read_from
  read_from-kernel zero a m = Always-ok refl
  read_from-kernel (suc rounds) a m = elim (typed_cases m.typed) [
    | inl e ↦ rw (e, read_from) (record { holds = λ b f. absurd (ground arith) })
    | inr (c, cs, e) ↦
        rw (e, read_from)
          (Always-if (c == 13) (Always-ok refl) (read_from-kernel rounds (a + 1) (echoed a c cs m)))
  ]

  pub svc_read-Keeps : (ctx : Ctx) (m : Machine) → InOrder q m → Keeps q (svc_read ctx m)
  unfolding svc_read
  svc_read-Keeps ctx m l =
      let a = ctx.gpr 1 in
      let n = ctx.gpr 2 in
      let x = bytes_at a m.mem in
      Always-if (ctx.gpr 0 == stdio)
        (Always-bind (read_from (rounds_of n) a m) (read_from-kernel (rounds_of n) a m)
          λ m' e. Always-ok (subst (λ k. Lively q k.procs) (sym e) l))
        (by_files (λ r. r.2) (fread (ctx.gpr 0) x n m.kernel)
          (λ r.
            (result r.0 ctx, record m { kernel = r.2; mem = put_bytes a (rounds_of n) r.1 m.mem }))
          m l (fread-KeepsRuns (ctx.gpr 0) n x m.kernel) (λ r. refl))

  -- What a path that is cut in memory leaves alone.
  pub path_at-kernel :
      (a dir : ℕ) (m : Machine) → Always (λ r. r.1.kernel ≡ m.kernel) (path_at a dir m)
  unfolding path_at cut_path
  path_at-kernel a dir m = Always-then (string_at a m) λ s. Always-ok refl

  open_path_at-Lively :
      (a oflag : ℕ) (m : Machine)
      → InOrder q m
      → Always (λ r. Lively q r.1.kernel.procs) (open_path_at a oflag m)
  unfolding open_path_at cut_path
  open_path_at-Lively a oflag m l = elim (Option-cases (get_fd m.kernel)) [
    | inl e ↦ rw (e, open_path_at) (Always-ok l)
    | inr (fd, e) ↦
        rw (e, open_path_at)
          (Always-then (string_at a m) λ s.
            Always-bind (open_string s oflag m.kernel) (open_string-KeepsRuns s oflag m.kernel)
              λ r k. Always-ok (Lively-SameRuns q _ _ l k))
  ]

  pub svc_open-Keeps : (ctx : Ctx) (m : Machine) → InOrder q m → Keeps q (svc_open ctx m)
  unfolding svc_open
  svc_open-Keeps ctx m l =
      Always-bind (open_path_at (ctx.gpr 0) (ctx.gpr 1) m)
        (open_path_at-Lively (ctx.gpr 0) (ctx.gpr 1) m l) λ r l'. Always-ok l'

  read_entry-KeepsRuns :
      (x y : Block) (fd : ℕ) (k : Kernel) → KeepsRuns (λ r. r.1) k (read_entry x y fd k)
  unfolding read_entry
  read_entry-KeepsRuns x y fd k = Always-bind (fread fd x 4 k) (fread-KeepsRuns fd 4 x k) λ r a.
      Always-bind (fread fd y 4 r.2) (fread-KeepsRuns fd 4 y r.2) λ t b.
        Always-bind (close_file fd t.2) (close_file-KeepsRuns fd t.2)
          λ u c. Always-ok (SameRuns-trans _ _ _ a (SameRuns-trans _ _ _ b c))

  get_program_entry-Lively :
      (x y : Block) (a : ℕ) (m : Machine)
      → InOrder q m
      → Always (λ r. Lively q r.1.kernel.procs) (get_program_entry x y a m)
  unfolding get_program_entry
  get_program_entry-Lively x y a m l =
      Always-bind (path_at a root_dir m) (path_at-kernel a root_dir m) λ r e.
        let l1 : InOrder q r.1 = subst (λ k. Lively q k.procs) (sym e) l in
        Always-if (r.0 == neg1) (Always-ok l1) (
          Always-bind (open_path_at a o_exist r.1) (open_path_at-Lively a o_exist r.1 l1) λ t l2.
            Always-if (t.0 == neg1) (Always-ok l2) (
              Always-bind (read_entry x y t.0 t.1.kernel) (read_entry-KeepsRuns x y t.0 t.1.kernel)
                λ u k. Always-ok (Lively-SameRuns q _ _ l2 k)))

  pub svc_exec-Keeps :
      (env : Env) (ctx : Ctx) (m : Machine) → InOrder q m → Keeps q (svc_exec env ctx m)
  unfolding svc_exec
  svc_exec-Keeps env ctx m l =
      Always-bind (get_program_entry env.unset_entry env.unset_priority (ctx.gpr 0) m)
        (get_program_entry-Lively env.unset_entry env.unset_priority (ctx.gpr 0) m l)
        λ r l'. Always-ok (exec-Lively q env.tos_init ctx r.0 r.1.kernel.procs l')
