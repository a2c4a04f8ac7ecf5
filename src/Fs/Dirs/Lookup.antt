-- ===== src/Fs/Dirs/Lookup.antt =====
-- name_to_ino of kernel/kernel.c as a search of the directory's entries.
use arm_kernel.Base.{
  ℕ, zero, suc, ◌+◌, ◌-◌, ◌*◌, ◌/◌, ◌%◌, ◌≤◌, ◌<◌, ◌≡◌, ◌∙◌, ap, sym, refl, Option, none, some,
  Bool, List, ltb, ◌==◌, if◌then◌else◌, inl, inr, Bool-cases, arith, First, First-later,
  first_where-First, ltb→lt, ltb→le,
}
use arm_kernel.Base.Words.{neg1}
use arm_kernel.Fs.Alloc.{Store}
use arm_kernel.Fs.Inode.{Inode}
use arm_kernel.Fs.Dirs.{
  Dirent, dirent_of, dir_block, dirs, matches, find_in_block, find_entry, name_to_ino,
}

-- Entry `k` of a directory.
abbrev pub entry : Inode → ℕ → Store → Dirent
entry inode k s = dirent_of (dir_block inode (k / 16) s) (k % 16)

abbrev pub named : List ℕ → Inode → Store → ℕ → Bool
named name inode s k = matches name (entry inode k s)

-- The entries that name_to_ino looks at: where they fill the last block, that block is passed over.
abbrev pub visible : ℕ → ℕ
visible n = if n % 16 == 0 then n - 16 else n

abbrev pub ino_of : Inode → Store → Option ℕ → ℕ
ino_of inode s none = neg1
ino_of inode s (some k) = (entry inode k s).ino

abbrev in_block : ℕ → Option ℕ → Option ℕ
in_block i none = none
in_block i (some j) = some (16 * i + j)

pub entry_at :
    (inode : Inode) (i k : ℕ) (s : Store)
    → 16 * i ≤ k
    → k < 16 * i + 16
    → entry inode k s ≡ dirent_of (dir_block inode i s) (k - 16 * i)
entry_at inode i k s lo hi =
    let q : k / 16 ≡ i = omega arith in let r : k % 16 ≡ k - 16 * i = omega arith in rw (q, r)

module _ (name : List ℕ) (inode : Inode) (s : Store) where
  -- A search of one block, seen as one of the directory.
  in_block-First :
      (n i : ℕ) (o : Option ℕ)
      → n ≤ 16
      → First (λ j. matches name (dirent_of (dir_block inode i s) j)) 0 (0 + n) o
      → First (named name inode s) (16 * i) (16 * i + n) (in_block i o)
  in_block-First n i none le z = λ k lo hi.
      ap (matches name) (entry_at inode i k s lo (omega arith))
      ∙ z (k - 16 * i) (omega arith) (omega arith)
  in_block-First n i (some j) le z = (
    omega arith,
    omega (arith, z.1),
    ap (matches name) (entry_at inode i (16 * i + j) s (omega arith) (omega (arith, z.1)))
        ∙ ap (λ r. matches name (dirent_of (dir_block inode i s) r)) (omega arith)
        ∙ z.2,
    λ k lo hi.
        ap (matches name) (entry_at inode i k s lo (omega (arith, z.1)))
        ∙ z.3 (k - 16 * i) (omega arith) (omega arith),
  )

  ino_in_block :
      (i j : ℕ)
      → j < 16
      → (dirent_of (dir_block inode i s) j).ino ≡ ino_of inode s (in_block i (some j))
  ino_in_block i j lt =
      ap (λ r. (dirent_of (dir_block inode i s) r).ino) (omega arith)
      ∙ sym
          (ap (λ (d : Dirent). d.ino) (entry_at inode i (16 * i + j) s (omega arith) (omega arith)))

  -- The search of the blocks from `i` on.
  abbrev Finds : ℕ → ℕ → ℕ → Type 0
  Finds lo hi r = (o : Option ℕ) × First (named name inode s) lo hi o × (r ≡ ino_of inode s o)

  -- A block of `n` entries, and what is found behind it.
  block_then :
      (n i hi rest : ℕ) (o : Option ℕ)
      → n ≤ 16
      → 16 * i + n ≤ hi
      → First (λ j. matches name (dirent_of (dir_block inode i s) j)) 0 (0 + n) o
      → Finds (16 * i + n) hi rest
      → Finds
          (16 * i)
          hi
          (elim o [ some j ↦ (dirent_of (dir_block inode i s) j).ino | none ↦ rest ])
  block_then n i hi rest none le top z behind = (
    behind.0,
    First-later (named name inode s) (16 * i) (16 * i + n) hi behind.0 (omega arith)
        (in_block-First n i none le z) behind.1,
    behind.2,
  )
  block_then n i hi rest (some j) le top z behind =
      let f = in_block-First n i (some j) le z in
      (
        some (16 * i + j),
        (f.0, omega (arith, f.1), f.2, f.3),
        ino_in_block i j (omega (arith, z.1)),
      )

  find_entry-Finds :
      (rounds i r : ℕ)
      → r < 16
      → Finds (16 * i) (16 * (i + rounds) + r) (find_entry rounds i r name inode s)
  unfolding find_entry find_in_block
  find_entry-Finds zero i r lt =
      let end : 16 * (i + 0) + r ≡ 16 * i + r = omega arith in
      rw end (
        block_then r i (16 * i + r) neg1 _ (omega arith) (omega arith) (first_where-First r 0 _)
          (none, (λ k lo hi. absurd (omega arith)), refl))
  find_entry-Finds (suc rounds) i r lt =
      let start : 16 * (i + 1) ≡ 16 * i + 16 = omega arith in
      let end : i + 1 + rounds ≡ i + suc rounds = omega arith in
      block_then 16 i (16 * (i + suc rounds) + r) _ _ (omega arith) (omega arith)
        (first_where-First 16 0 _) (rw (start, end) at (find_entry-Finds rounds (i + 1) r lt))

-- name_to_ino gives the inode number of the first entry that it looks at whose name matches, and -1
-- where none does. It looks at all the entries of the directory, save that it passes over the last
-- block where that is full: the last sixteen entries of a directory of 16, 32, … are never found.
pub name_to_ino-First :
    (name : List ℕ) (inode : Inode) (s : Store)
    → (o : Option ℕ) × First (named name inode s) 0 (visible (dirs inode)) o
      × (name_to_ino name inode s ≡ ino_of inode s o)
unfolding name_to_ino
name_to_ino-First name inode s = by_count (dirs inode)
  where
    by_count :
        (n : ℕ)
        → (o : Option ℕ) × First (named name inode s) 0 (visible n) o
          × ((if ltb 0 n then find_entry ((n - 1) / 16) 0 (n % 16) name inode s else neg1)
              ≡ ino_of inode s o)
    by_count n = elim (Bool-cases (ltb 0 n)) [
      | inr empty ↦
          let e : n ≡ 0 = omega (arith, ltb→le 0 n empty) in
          rw e (none, (λ k lo hi. absurd (omega arith)), refl)
      | inl some_entry ↦
          let lt : 0 < n = ltb→lt 0 n some_entry in
          let end : 16 * (0 + (n - 1) / 16) + n % 16 ≡ visible n = ground arith in
          rw (some_entry, ← end)
            (find_entry-Finds name inode s ((n - 1) / 16) 0 (n % 16) (omega arith))
    ]
