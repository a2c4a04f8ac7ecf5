-- ===== src/Files/Unlink/Kept.antt =====
-- What remove and unlink of kernel/kernel.c never take away.
use arm_kernel.Base.{
  ℕ, zero, suc, ◌+◌, ◌-◌, ◌*◌, ◌/◌, ◌%◌, ◌≤◌, ◌<◌, ◌≡◌, ◌≢◌, ◌∙◌, ◌&&◌, ap, refl, inl, inr, Option,
  none, some, Bool, true, false, not, List, ltb, ◌==◌, if◌then◌else◌, Bool-cases, arith, First,
  first_where-First, ltb→lt, ==→ne, ne→==,
}
use arm_kernel.Base.Words.{neg1}
use arm_kernel.Fs.Alloc.{Store}
use arm_kernel.Fs.Inode.{ifzero, ifdir, Inode, read_inode}
use arm_kernel.Fs.Dirs.{Dirent, dirent_of, cstr, matches, dirs, dir_block, blank_inode}
use arm_kernel.Fs.Dirs.Lookup.{entry, named, entry_at}
use arm_kernel.Files.{Kernel, oft_limit, is_none, find_active}
use arm_kernel.Files.Unlink.{
  removable, goes, remove_in_block, removed_at, remove_from, remove, drop_entry, free_file, unlink,
}

-- Nothing stands on inode `ino`: it is not the working directory, not in use in memory, and not a
-- directory with more entries than its own two.
pub record Unused (cwd ino : ℕ) (k : Kernel) : Type 0 where
  pub not_cwd : ino ≢ cwd
  pub inactive : (i : ℕ) → i < oft_limit → (k.ait i).number ≡ ino → (k.ait i).ic.mode ≡ ifzero
  pub not_full :
      (read_inode blank_inode ino k.store).ic.mode ≡ ifdir
      → (read_inode blank_inode ino k.store).ic.size ≤ 64

no_active :
    (ino : ℕ) (k : Kernel) (o : Option ℕ)
    → First (λ i. (k.ait i).number == ino && not ((k.ait i).ic.mode == ifzero)) 0 oft_limit o
    → is_none o ≡ true
    → (i : ℕ) → i < oft_limit
    → (k.ait i).number ≡ ino
    → (k.ait i).ic.mode ≡ ifzero
no_active ino k none f e i lt same = ground (arith, f i (omega arith) lt)
no_active ino k (some j) f e i lt same = absurd (ground (arith, e))

-- The three tests of removable, and the value behind them.
after_tests :
    (is_cwd unused busy : Bool) (ino : ℕ)
    → let r = if is_cwd then neg1 else if not unused then neg1 else if busy then neg1 else ino in
      r ≢ neg1 → (is_cwd ≡ false) × (unused ≡ true) × (busy ≡ false) × (r ≡ ino)
after_tests true unused busy ino ne = absurd (ne refl)
after_tests false false busy ino ne = absurd (ne refl)
after_tests false true true ino ne = absurd (ne refl)
after_tests false true false ino ne = (refl, refl, refl, refl)

abbrev is_busy : ℕ → Kernel → Bool
is_busy ino k =
    let inode = read_inode blank_inode ino k.store in inode.ic.mode == ifdir && ltb 64 inode.ic.size

busy_size : (mode size : ℕ) → (mode == ifdir && ltb 64 size) ≡ false → mode ≡ ifdir → size ≤ 64
busy_size mode size e dir = ground arith

removable_tests :
    (cwd ino : ℕ) (k : Kernel)
    → removable cwd ino k ≢ neg1
    → ((ino == cwd) ≡ false)
      × (is_none (find_active ino k) ≡ true)
      × (is_busy ino k ≡ false)
      × (removable cwd ino k ≡ ino)
unfolding removable
removable_tests cwd ino k =
    after_tests (ino == cwd) (is_none (find_active ino k)) (is_busy ino k) ino

removable-Unused : (cwd ino : ℕ) (k : Kernel) → removable cwd ino k ≢ neg1 → Unused cwd ino k
unfolding find_active
removable-Unused cwd ino k ne =
    let tests = removable_tests cwd ino k ne in
    record {
      not_cwd = ==→ne ino cwd tests.0;
      inactive =
          no_active ino k (find_active ino k)
            (first_where-First oft_limit 0
              (λ i. (k.ait i).number == ino && not ((k.ait i).ic.mode == ifzero)))
            tests.1;
      not_full = λ e.
          busy_size (read_inode blank_inode ino k.store).ic.mode
            (read_inode blank_inode ino k.store).ic.size tests.2 e;
    }

removable-ino : (cwd ino : ℕ) (k : Kernel) → removable cwd ino k ≢ neg1 → removable cwd ino k ≡ ino
removable-ino cwd ino k ne = (removable_tests cwd ino k ne).3

-- What remove does: nothing, or it drops an entry of that name on whose inode nothing stands.
pub data Removes (name : List ℕ) (cwd : ℕ) (parent : Inode) (k : Kernel) (r : ℕ × Store)
    : Type 0 where
  kept : r ≡ (neg1, k.store) → Removes name cwd parent k r
  gone :
      (n : ℕ)
      → n < dirs parent
      → named name parent k.store n ≡ true
      → (entry parent n k.store).ino ≢ neg1
      → Unused cwd (entry parent n k.store).ino k
      → r ≡ ((entry parent n k.store).ino, drop_entry (n / 16) (n % 16) parent k.store)
      → Removes name cwd parent k r

module _ (name : List ℕ) (cwd : ℕ) (parent : Inode) (k : Kernel) where
  goes-both :
      (d : Dirent)
      → goes name cwd k d ≡ true
      → (matches name d ≡ true) × (removable cwd d.ino k ≢ neg1)
  goes-both d e = (ground (arith, e), λ x. ground (arith, e, x))

  -- Entry `j` of block `i` that goes.
  removed_at-Removes :
      (i j : ℕ)
      → j < 16
      → 16 * i + j < dirs parent
      → goes name cwd k (dirent_of (dir_block parent i k.store) j) ≡ true
      → Removes name cwd parent k (removed_at i j parent k)
  removed_at-Removes i j lt inside e =
      let d = dirent_of (dir_block parent i k.store) j in
      let at : 16 * i + j - 16 * i ≡ j = omega arith in
      let same : entry parent (16 * i + j) k.store ≡ d =
        entry_at parent i (16 * i + j) k.store (omega arith) (omega arith)
        ∙ ap (dirent_of (dir_block parent i k.store)) at in
      let (hit, free) = goes-both d e in
      let q : (16 * i + j) / 16 ≡ i = omega arith in
      let r : (16 * i + j) % 16 ≡ j = omega arith in
      gone (16 * i + j) inside (ap (matches name) same ∙ hit)
        (λ x.
          ground (arith, free, removable-ino cwd d.ino k free, ap (λ (d : Dirent). d.ino) same, x))
        (rw same (removable-Unused cwd d.ino k free)) (rw (same, q, r) refl)

  block_then-Removes :
      (n i : ℕ) (o : Option ℕ) (rest : ℕ × Store)
      → n ≤ 16
      → 16 * i + n ≤ dirs parent
      → First (λ j. goes name cwd k (dirent_of (dir_block parent i k.store) j)) 0 (0 + n) o
      → Removes name cwd parent k rest
      → Removes name cwd parent k (elim o [ some j ↦ removed_at i j parent k | none ↦ rest ])
  block_then-Removes n i none rest le top f behind = behind
  block_then-Removes n i (some j) rest le top f behind =
      removed_at-Removes i j (omega (arith, f.1)) (omega (arith, f.1)) f.2

  remove_from-Removes :
      (rounds i r : ℕ)
      → r < 16
      → 16 * (i + rounds) + r ≤ dirs parent
      → Removes name cwd parent k (remove_from rounds i r name cwd parent k)
  unfolding remove_from remove_in_block
  remove_from-Removes zero i r lt top =
      block_then-Removes r i _ _ (omega arith) (omega arith)
        (first_where-First r 0 (λ x. goes name cwd k (dirent_of (dir_block parent i k.store) x)))
        (kept refl)
  remove_from-Removes (suc rounds) i r lt top =
      block_then-Removes 16 i _ _ (omega arith) (omega arith)
        (first_where-First 16 0 (λ x. goes name cwd k (dirent_of (dir_block parent i k.store) x)))
        (remove_from-Removes rounds (i + 1) r lt (omega arith))

  remove-Removes : Removes name cwd parent k (remove name cwd parent k)
  unfolding remove
  remove-Removes = elim (Bool-cases (ltb 0 (dirs parent))) [
    | inl e ↦
        let lt = ltb→lt 0 (dirs parent) e in
        rw e (
          remove_from-Removes ((dirs parent - 1) / 16) 0 (dirs parent % 16) (omega arith)
            (omega arith))
    | inr e ↦ rw e (kept refl)
  ]

-- The inode of the working directory, and the number in its entry `n`.
abbrev pub working : ℕ → Kernel → Inode
working cwd k = read_inode blank_inode cwd k.store

abbrev pub nth_ino : ℕ → (cwd : ℕ) → Kernel → ℕ
nth_ino n cwd k = (entry (working cwd k) n k.store).ino

-- What unlink does: it fails and changes nothing, or it takes away the inode of an entry of that
-- name, which does not begin with a dot.
pub data Unlinks (name : List ℕ) (cwd : ℕ) (k : Kernel) (r : ℕ × Kernel) : Type 0 where
  failed : r ≡ (neg1, k) → Unlinks name cwd k r
  done :
      (n : ℕ)
      → cstr name 0 ≢ 46
      → n < dirs (working cwd k)
      → named name (working cwd k) k.store n ≡ true
      → Unused cwd (nth_ino n cwd k) k
      → r ≡ (
        0,
        record k {
          store =
              free_file (nth_ino n cwd k) (drop_entry (n / 16) (n % 16) (working cwd k) k.store);
        },
      )
      → Unlinks name cwd k r

-- unlink returns -1 and changes nothing, or it returns 0, having dropped one entry of that name from
-- the working directory and freed its inode: one that is not the working directory, not in use in
-- memory, and not a directory with entries besides `.` and `..`.
pub unlink-Unlinks : (name : List ℕ) (cwd : ℕ) (k : Kernel) → Unlinks name cwd k (unlink name cwd k)
unfolding unlink
unlink-Unlinks name cwd k = elim (Bool-cases (cstr name 0 == 46)) [
  | inl e ↦ rw e (failed refl)
  | inr e ↦ rw e (
      finish (==→ne (cstr name 0) 46 e) (remove name cwd (read_inode blank_inode cwd k.store) k)
        (remove-Removes name cwd (read_inode blank_inode cwd k.store) k))
]
  where
    finish :
        cstr name 0 ≢ 46
        → (r : ℕ × Store) → Removes name cwd (read_inode blank_inode cwd k.store) k r
        → Unlinks name cwd k (
            if r.0 == neg1
            then (neg1, record k { store = r.1 })
            else (0, record k { store = free_file r.0 r.1 }))
    finish dot r (kept e) = rw e (failed refl)
    finish dot r (gone n lt hit some_ino free e) =
        rw (e, ne→== (entry (read_inode blank_inode cwd k.store) n k.store).ino neg1 some_ino)
          (done n dot lt hit free refl)
