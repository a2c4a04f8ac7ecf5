-- ===== src/Svc/Invariant/Handler.antt =====
-- kernel_handler_svc of kernel/kernel.c keeps the process table in order: the calls on directories,
-- and all of them.
use arm_kernel.Base.{
  ℕ, zero, suc, ◌+◌, ◌-◌, ◌/◌, ◌%◌, ◌≡◌, ◌≢◌, refl, ◌∙◌, sym, subst, arith, List, ltb, ◌==◌, not,
  Bool-cases, Option-cases, inl, inr, check,
}
use arm_kernel.Base.Words.{neg1}
use arm_kernel.Base.Always.{Always, Always-ok, Always-if, Always-bind, Always-then, Always-map}
use arm_kernel.Proc.{Ctx}
use arm_kernel.Proc.Signal.{sigkill}
use arm_kernel.Proc.Invariant.Lively.{Lively}
use arm_kernel.Mqueue.{mq_unlink}
use arm_kernel.Files.{Kernel}
use arm_kernel.Files.Paths.{root_dir}
use arm_kernel.Svc.{Machine, string_at}
use arm_kernel.Svc.Paths.{path_at}
use arm_kernel.Svc.Console.{svc_ls, print_blocks, print_names, print_name}
use arm_kernel.Fs.Disk.{Block}
use arm_kernel.Fs.Inode.{Inode, ndaddr, ifzero, ifdir, read_inode, get_free_inode}
use arm_kernel.Fs.Blockmap.{read_block}
use arm_kernel.Fs.Dirs.{cstr, dirent_of, blank_inode}
use arm_kernel.Files.Unlink.{unlink, remove}
use arm_kernel.Svc.Directories.{
  make_directory, move_entry, copy_file, svc_mkdir, svc_cd, svc_mv, svc_cp, Local,
}
use arm_kernel.Svc.Handler.{
  Env, cases, handler_svc, svc_mq_open, svc_pwd, svc_unlink, svc_tell, svc_mq_unlink, svc_none,
}
use arm_kernel.Svc.Cases.{◌▸◌, select-Each}
use arm_kernel.Svc.Invariant.{
  Keeps, InOrder, reschedule-Keeps, svc_send-Keeps, svc_receive-Keeps, svc_fork-Keeps,
  svc_kill-Keeps, svc_raise-Keeps,
}
use arm_kernel.Svc.Invariant.Transfers.{
  print_from-kernel, path_at-kernel, svc_lseek-Keeps, svc_close-Keeps, svc_wipe-Keeps,
  svc_write-Keeps, svc_read-Keeps, svc_open-Keeps, svc_exec-Keeps,
}

unlink-procs : (name : List ℕ) (cwd : ℕ) (k : Kernel) → (unlink name cwd k).1.procs ≡ k.procs
unfolding unlink
unlink-procs name cwd k = elim (Bool-cases (cstr name 0 == 46)) [
  | inl e ↦ rw e refl
  | inr e ↦ elim (Bool-cases ((remove name cwd (read_inode blank_inode cwd k.store) k).0 == neg1)) [
    | inl f ↦ rw (e, f) refl
    | inr f ↦ rw (e, f) refl
  ]
]

module _ (q : ℕ) where
  svc_mkdir-Keeps :
      (local : Local) (ctx : Ctx) (m : Machine) → InOrder q m → Keeps q (svc_mkdir local ctx m)
  unfolding svc_mkdir
  svc_mkdir-Keeps local ctx m l = elim (Option-cases (get_free_inode local.inode m.kernel.store)) [
    | inl e ↦ rw (e, svc_mkdir) (Always-ok l)
    | inr (found, e) ↦
        rw (e, svc_mkdir)
          (Always-then (string_at (ctx.gpr 0) m) λ name.
            Always-then (make_directory found local.dir name m.cwd m.kernel.store) λ s. Always-ok l)
  ]

  svc_cd-Keeps : (ctx : Ctx) (m : Machine) → InOrder q m → Keeps q (svc_cd ctx m)
  unfolding svc_cd
  svc_cd-Keeps ctx m l =
      Always-bind (path_at (ctx.gpr 0) m.cwd m) (path_at-kernel q (ctx.gpr 0) m.cwd m) λ r e.
        let l1 : InOrder q r.1 = subst (λ k. Lively q k.procs) (sym e) l in
        elim (Bool-cases (r.0 == neg1)) [
          | inl f ↦ rw f (Always-ok l1)
          | inr f ↦ rw f (Always-ok l1)
        ]

  svc_mv-Keeps : (ctx : Ctx) (m : Machine) → InOrder q m → Keeps q (svc_mv ctx m)
  unfolding svc_mv
  svc_mv-Keeps ctx m l = Always-if (m.mem (ctx.gpr 0) == b'.') (Always-ok l) (
      Always-bind (path_at (ctx.gpr 1) root_dir m) (path_at-kernel q (ctx.gpr 1) root_dir m) λ r e.
        let l1 : InOrder q r.1 = subst (λ k. Lively q k.procs) (sym e) l in
        let dest = read_inode blank_inode r.0 r.1.kernel.store in
        Always-if (r.0 == neg1) (Always-ok l1) (
          Always-if (not (dest.ic.mode == ifdir)) (Always-ok l1) (
            Always-then (string_at (ctx.gpr 0) r.1)
              λ name. Always-then (move_entry name dest r.1.cwd r.1.kernel) λ s. Always-ok l1)))

  svc_cp-Keeps :
      (local : Local) (ctx : Ctx) (m : Machine) → InOrder q m → Keeps q (svc_cp local ctx m)
  unfolding svc_cp
  svc_cp-Keeps local ctx m l = Always-if (m.mem (ctx.gpr 0) == b'.') (Always-ok l) (
      Always-bind (path_at (ctx.gpr 0) m.cwd m) (path_at-kernel q (ctx.gpr 0) m.cwd m) λ r e.
        let l1 : InOrder q r.1 = subst (λ k. Lively q k.procs) (sym e) l in
        let src = read_inode blank_inode r.0 r.1.kernel.store in
        Always-if (r.0 == neg1) (Always-ok l1) (
          Always-if (src.ic.mode == ifzero) (Always-ok l1) (
            Always-then (string_at (ctx.gpr 1) r.1) λ name.
              Always-then (copy_file local.inode src name r.1.cwd r.1.kernel.store)
                λ s. Always-ok l1)))

  print_names-kernel :
      (rounds j : ℕ) (b : Block) (m : Machine) → (print_names rounds j b m).kernel ≡ m.kernel
  unfolding print_names
  print_names-kernel zero j b m = refl
  print_names-kernel (suc rounds) j b m =
      print_names-kernel rounds (j + 1) b (print_name b j m)
      ∙ print_from-kernel q (dirent_of b j).namlen 0 (dirent_of b j).name m

  print_blocks-kernel :
      (rounds i r : ℕ) (inode : Inode) (m : Machine)
      → Always (λ m'. m'.kernel ≡ m.kernel) (print_blocks rounds i r inode m)
  unfolding print_blocks
  print_blocks-kernel zero i r inode m =
      Always-then (check (ltb i ndaddr))
        λ _. Always-ok (print_names-kernel r 0 (read_block m.kernel.store (inode.ic.db i)) m)
  print_blocks-kernel (suc rounds) i r inode m =
      let b = read_block m.kernel.store (inode.ic.db i) in
      Always-then (check (ltb i ndaddr)) λ _.
        Always-map (λ m' e. e ∙ print_names-kernel 16 0 b m)
          (print_blocks-kernel rounds (i + 1) r inode (print_names 16 0 b m))

  svc_ls-Keeps : (ctx : Ctx) (m : Machine) → InOrder q m → Keeps q (svc_ls ctx m)
  unfolding svc_ls
  svc_ls-Keeps ctx m l =
      let inode = read_inode blank_inode m.cwd m.kernel.store in
      let dirs = inode.ic.size / 32 in
      Always-bind (print_blocks ((dirs - 1) / 16) 0 (dirs % 16) inode m)
        (print_blocks-kernel ((dirs - 1) / 16) 0 (dirs % 16) inode m)
        λ m' e. Always-ok (subst (λ k. Lively q k.procs) (sym e) l)

  svc_unlink-Keeps : (ctx : Ctx) (m : Machine) → InOrder q m → Keeps q (svc_unlink ctx m)
  unfolding svc_unlink
  svc_unlink-Keeps ctx m l =
      Always-then (string_at (ctx.gpr 0) m)
        λ name. Always-ok (subst (Lively q) (sym (unlink-procs name m.cwd m.kernel)) l)

  svc_mq_unlink-Keeps : (ctx : Ctx) (m : Machine) → InOrder q m → Keeps q (svc_mq_unlink ctx m)
  unfolding svc_mq_unlink
  svc_mq_unlink-Keeps ctx m l = Always-then (mq_unlink (ctx.gpr 0) m.mq) λ r. Always-ok l

-- No SIGKILL of a kill goes to process `q` or to pid 9, and `q` does not raise one.
abbrev pub Spares : (q : ℕ) → Ctx → Machine → (id : ℕ) → Type 0
Spares q ctx m id =
    (id ≡ 0x06 → ctx.gpr 1 ≡ sigkill → (ctx.gpr 0 ≢ q) × (ctx.gpr 0 ≢ 9))
    × (id ≡ 0x07 → ctx.gpr 0 ≡ sigkill → m.kernel.procs.current ≢ q)

-- Every call that returns leaves the process table in order, with process `q` in the queue, if `q`
-- was there, and no SIGKILL goes to `q` or to pid 9.
pub handler_svc-Lively :
    (q id : ℕ) (env : Env) (ctx : Ctx) (m : Machine)
    → Lively q m.kernel.procs
    → Spares q ctx m id
    → Always (λ r. Lively q r.1.kernel.procs) (handler_svc env ctx id m)
unfolding handler_svc svc_mq_open svc_pwd svc_tell
handler_svc-Lively q id env ctx m l spares =
    let e : 0 + id ≡ id = omega arith in
    select-Each (λ k f. Spares q ctx m k → Keeps q (f ctx m)) 0 id (cases env) svc_none
      ((λ h. reschedule-Keeps q ctx m l)
        ▸ (λ h. svc_write-Keeps q ctx m l)
        ▸ (λ h. svc_read-Keeps q ctx m l)
        ▸ (λ h. svc_fork-Keeps q ctx m l)
        ▸ (λ h. svc_exec-Keeps q env ctx m l)
        ▸ (λ h. svc_lseek-Keeps q ctx m l)
        ▸ (λ h. svc_kill-Keeps q ctx m l (h.0 refl))
        ▸ (λ h. svc_raise-Keeps q ctx m l (h.1 refl))
        ▸ (λ h. Always-ok l)
        ▸ (λ h. svc_send-Keeps q ctx m l)
        ▸ (λ h. svc_receive-Keeps q ctx m l)
        ▸ (λ h. svc_wipe-Keeps q env ctx m l)
        ▸ (λ h. svc_open-Keeps q ctx m l)
        ▸ (λ h. svc_close-Keeps q ctx m l)
        ▸ (λ h. Always-ok l)
        ▸ (λ h. svc_ls-Keeps q ctx m l)
        ▸ (λ h. svc_mkdir-Keeps q env.local ctx m l)
        ▸ (λ h. svc_cd-Keeps q ctx m l)
        ▸ (λ h. svc_unlink-Keeps q ctx m l)
        ▸ (λ h. svc_mv-Keeps q ctx m l)
        ▸ (λ h. svc_cp-Keeps q env.local ctx m l)
        ▸ (λ h. Always-ok l)
        ▸ (λ h. svc_mq_unlink-Keeps q ctx m l)
        ▸ tt)
      (λ j h. Always-ok l) (subst (Spares q ctx m) (sym e) spares)
