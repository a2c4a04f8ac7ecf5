-- ===== src/Fs/Inode/FreeInode.antt =====
-- getFreeInode of kernel/kernel.c takes the lowest inode that is not in use.
use arm_kernel.Base.{
  ℕ, zero, suc, ◌+◌, ◌*◌, ◌/◌, ◌%◌, ◌≤◌, ◌<◌, ◌≡◌, ◌≢◌, ◌∙◌, ap, sym, refl, subst, ◌-◌, ◌⊎◌, inl,
  inr, Bool-cases, Option, none, some, arith, ◌==◌,
}
use arm_kernel.Fs.Disk.{Block}
use arm_kernel.Fs.Alloc.{Store}
use arm_kernel.Fs.Inode.{
  Inode, ifzero, ifreg, ic_of, inode_block, free_in_block, free_ino, start_inode, get_free_inode,
}

-- The mode of inode `ino` on the disk.
abbrev pub disk_mode : Store → ℕ → ℕ
disk_mode s ino = (ic_of (inode_block s (ino / 8)) (ino % 8)).mode

-- A search from `lo` up to `hi` ends at the first number at which `f` is 0, or there is none.
abbrev pub FirstZero : (ℕ → ℕ) → ℕ → ℕ → Option ℕ → Type 0
FirstZero f lo hi (some k) = (lo ≤ k) × (k < hi) × (f k ≡ 0) × ((j : ℕ) → lo ≤ j → j < k → f j ≢ 0)
FirstZero f lo hi none = (j : ℕ) → lo ≤ j → j < hi → f j ≢ 0

split : (a b : ℕ) → (a < b) ⊎ (b ≤ a)
split a b = grind arith

-- A search that begins later, behind numbers at which `f` is not 0.
FirstZero-later :
    (f : ℕ → ℕ) (lo mid hi : ℕ) (o : Option ℕ)
    → lo ≤ mid
    → ((j : ℕ) → lo ≤ j → j < mid → f j ≢ 0)
    → FirstZero f mid hi o
    → FirstZero f lo hi o
FirstZero-later f lo mid hi none le used z =
    λ j a b. elim (split j mid) [ inl lt ↦ used j a lt | inr ge ↦ z j ge b ]
FirstZero-later f lo mid hi (some k) le used z = (
  omega (arith, z.0),
  z.1,
  z.2,
  λ j a b. elim (split j mid) [ inl lt ↦ used j a lt | inr ge ↦ z.3 j ge b ],
)

free_in_block-FirstZero :
    (rounds j : ℕ) (b : Block)
    → FirstZero (λ r. (ic_of b r).mode) j (j + rounds) (free_in_block rounds j b)
unfolding free_in_block
free_in_block-FirstZero zero j b = λ k lo hi. absurd (omega arith)
free_in_block-FirstZero (suc rounds) j b = elim (Bool-cases ((ic_of b j).mode == ifzero)) [
  | inl e ↦ rw e (omega arith, omega arith, ground arith, λ k lo hi. absurd (omega arith))
  | inr e ↦
      let ne : (ic_of b j).mode ≢ 0 = ground arith in
      let end : j + 1 + rounds ≡ j + suc rounds = omega arith in
      rw e (
        FirstZero-later (λ r. (ic_of b r).mode) j (j + 1) (j + suc rounds)
          (free_in_block rounds (j + 1) b) (omega arith)
          (λ k lo hi. let same : k ≡ j = omega arith in rw same ne)
          (rw end at (free_in_block-FirstZero rounds (j + 1) b)))
]

mode_at :
    (s : Store) (i k : ℕ)
    → 8 * i ≤ k
    → k < 8 * i + 8
    → disk_mode s k ≡ (ic_of (inode_block s i) (k - 8 * i)).mode
unfolding ic_of
mode_at s i k lo hi =
    let q : k / 8 ≡ i = omega arith in let r : k % 8 ≡ k - 8 * i = omega arith in rw (q, r)

numbered : ℕ → Option ℕ → Option ℕ
numbered i none = none
numbered i (some j) = some (8 * i + j)

-- The block of eight, seen as inodes of the disk.
block-FirstZero :
    (s : Store) (i : ℕ) (o : Option ℕ)
    → FirstZero (λ r. (ic_of (inode_block s i) r).mode) 0 8 o
    → FirstZero (disk_mode s) (8 * i) (8 * i + 8) (numbered i o)
unfolding numbered
block-FirstZero s i none z =
    λ k lo hi e. z (k - 8 * i) (omega arith) (omega arith) (sym (mode_at s i k lo hi) ∙ e)
block-FirstZero s i (some j) z = (
  omega arith,
  omega (arith, z.1),
  mode_at s i (8 * i + j) (omega arith) (omega (arith, z.1))
      ∙ ap (λ r. (ic_of (inode_block s i) r).mode) (omega arith)
      ∙ z.2,
  λ k lo hi e.
      z.3 (k - 8 * i) (omega arith) (omega arith) (sym (mode_at s i k lo (omega (arith, z.1))) ∙ e),
)

free_ino-FirstZero :
    (rounds i : ℕ) (s : Store)
    → FirstZero (disk_mode s) (8 * i) (8 * (i + rounds)) (free_ino rounds i s)
unfolding free_ino
free_ino-FirstZero zero i s = λ k lo hi. absurd (omega arith)
free_ino-FirstZero (suc rounds) i s =
    join (free_in_block 8 0 (inode_block s i))
      (block-FirstZero s i (free_in_block 8 0 (inode_block s i))
        (free_in_block-FirstZero 8 0 (inode_block s i)))
      (subst (λ n. FirstZero (disk_mode s) (8 * (i + 1)) (8 * n) (free_ino rounds (i + 1) s)) end
        (free_ino-FirstZero rounds (i + 1) s))
  where
    end : i + 1 + rounds ≡ i + suc rounds
    end = omega arith

    join :
        (o : Option ℕ)
        → FirstZero (disk_mode s) (8 * i) (8 * i + 8) (numbered i o)
        → FirstZero (disk_mode s) (8 * (i + 1)) (8 * (i + suc rounds)) (free_ino rounds (i + 1) s)
        → FirstZero
            (disk_mode s)
            (8 * i)
            (8 * (i + suc rounds))
            (elim o [ some j ↦ some (8 * i + j) | none ↦ free_ino rounds (i + 1) s ])
    join none z rest =
        unfold numbered in
        FirstZero-later (disk_mode s) (8 * i) (8 * (i + 1)) (8 * (i + suc rounds))
          (free_ino rounds (i + 1) s) (omega arith) (λ k lo hi. z k lo (omega arith)) rest
    join (some j) z rest = unfold numbered in (z.0, omega (arith, z.1), z.2, z.3)

-- The inode in memory that getFreeInode gives for number `ino`.
pub record Started (in_core : Inode) (ino : ℕ) (inode : Inode) : Type 0 where
  pub number : inode.number ≡ ino
  pub mode : inode.ic.mode ≡ ifreg
  pub size : inode.ic.size ≡ 0
  pub links : inode.links ≡ in_core.links
  pub db : inode.ic.db ≡ in_core.ic.db
  pub ib : inode.ic.ib ≡ in_core.ic.ib

-- getFreeInode gives the lowest inode whose mode on disk is IFZERO, with mode IFREG and size 0 in
-- memory, the other fields as they were there; it gives none exactly where all the inodes of the whole blocks are in use.
pub get_free_inode-FirstZero :
    (in_core : Inode) (s : Store)
    → ((ino : ℕ) × (inode : Inode) × (get_free_inode in_core s ≡ some inode)
        × Started in_core ino inode
        × FirstZero (disk_mode s) 0 (8 * (s.fs.isize / 8)) (some ino))
      ⊎ ((get_free_inode in_core s ≡ none) × FirstZero (disk_mode s) 0 (8 * (s.fs.isize / 8)) none)
unfolding get_free_inode
get_free_inode-FirstZero in_core s = cases (free_ino (s.fs.isize / 8) 0 s) (
    subst (λ n. FirstZero (disk_mode s) 0 (8 * n) (free_ino (s.fs.isize / 8) 0 s)) start
      (free_ino-FirstZero (s.fs.isize / 8) 0 s))
  where
    start : 0 + s.fs.isize / 8 ≡ s.fs.isize / 8
    start = omega arith

    cases :
        (o : Option ℕ)
        → FirstZero (disk_mode s) 0 (8 * (s.fs.isize / 8)) o
        → ((ino : ℕ) × (inode : Inode) × (elim o [
          | some ino ↦ some (start_inode in_core ino)
          | none ↦ none
        ]
              ≡ some inode)
            × Started in_core ino inode
            × FirstZero (disk_mode s) 0 (8 * (s.fs.isize / 8)) (some ino))
          ⊎ ((elim o [ some ino ↦ some (start_inode in_core ino) | none ↦ none ] ≡ none)
              × FirstZero (disk_mode s) 0 (8 * (s.fs.isize / 8)) none)
    cases none z = inr (refl, z)
    cases (some ino) z = inl (
      ino,
      start_inode in_core ino,
      refl,
      record { number = refl; mode = refl; size = refl; links = refl; db = refl; ib = refl },
      z,
    )
