-- ===== src/Files/Tables.antt =====
-- open and close of kernel/kernel.c against the descriptors and the open file table.
use arm_kernel.Base.{
  ℕ, ◌<◌, ◌≡◌, ◌≢◌, ◌∙◌, ap, sym, refl, true, arith, ◌==◌, ◌&&◌, not, if◌then◌else◌, update, Option,
  some, none, ok, lt→ltb, eq_refl, ne→==, ==→eq, ==→ne, inl, inr, Bool-cases, First,
  first_where-First,
}
use arm_kernel.Base.Words.{neg1, nonneg}
use arm_kernel.Proc.{fdt_limit, Procs}
use arm_kernel.Fs.Inode.{ifzero, read_inode}
use arm_kernel.Files.{
  Kernel, Ofile, oft_limit, is_none, current_fd, get_fd, get_oft, get_ait, find_active, find_unused,
  link_tables, open_file, close_entry, close_file, load_inode, active_or_load, open_entry,
  open_inode, open_at,
}
use arm_kernel.Files.Seek.{IsOpen}

is_none-none {ℓ} : {A : Type ℓ} (o : Option A) → is_none o ≡ true → o ≡ none
is_none-none none e = refl
is_none-none (some a) e = absurd (ground (arith, e))

get_fd-First : (k : Kernel) → First (λ fd. is_none (current_fd k fd)) 0 fdt_limit (get_fd k)
unfolding get_fd
get_fd-First k = first_where-First fdt_limit 0 (λ fd. is_none (current_fd k fd))

get_oft-First : (k : Kernel) → First (λ i. is_none (k.oft i).inptr) 0 oft_limit (get_oft k)
unfolding get_oft
get_oft-First k = first_where-First oft_limit 0 (λ i. is_none (k.oft i).inptr)

-- An inode in memory that getAIT gives, the other tables as they were.
pub record Active (ino i : ℕ) (k k' : Kernel) : Type 0 where
  pub number : (k'.ait i).number ≡ ino
  pub procs : k'.procs ≡ k.procs
  pub oft : k'.oft ≡ k.oft
  pub store : k'.store ≡ k.store

pub data Gets (ino : ℕ) (k : Kernel) (r : Option (ℕ × Kernel)) : Type 0 where
  full : r ≡ none → Gets ino k r
  got : (i : ℕ) (k' : Kernel) → r ≡ some (i, k') → Active ino i k k' → Gets ino k r

get_ait-Gets : (ino : ℕ) (k : Kernel) → Gets ino k (get_ait ino k)
unfolding get_ait find_active read_inode
get_ait-Gets ino k = by_active (find_active ino k) (
    first_where-First oft_limit 0
      (λ i. (k.ait i).number == ino && not ((k.ait i).ic.mode == ifzero)))
  where
    by_unused : (o : Option ℕ) → Gets ino k (load_inode o ino k)
    by_unused none = full refl
    by_unused (some i) =
        got i (record k { ait = update k.ait i (read_inode (k.ait i) ino k.store) }) refl
          (record { number = rw (eq_refl i) refl; procs = refl; oft = refl; store = refl })

    by_active :
        (o : Option ℕ)
        → First (λ i. (k.ait i).number == ino && not ((k.ait i).ic.mode == ifzero)) 0 oft_limit o
        → Gets ino k (active_or_load o ino k)
    by_active none f = by_unused (find_unused k)
    by_active (some i) f =
        got i k refl
          (record { number = ground (arith, f.2); procs = refl; oft = refl; store = refl })

-- The tables behind an open that gives descriptor `fd`, from the state `k` in which the path was
-- found: the entries that it takes were free, and nothing else in the two tables changes.
pub record Linked (ino fd o i : ℕ) (k k' : Kernel) : Type 0 where
  pub opened : IsOpen k' fd o i
  pub number : (k'.ait i).number ≡ ino
  pub was_free : (k.oft o).inptr ≡ none
  pub fds : (f : ℕ) → f ≢ fd → current_fd k' f ≡ current_fd k f
  pub entries : (e : ℕ) → e ≢ o → k'.oft e ≡ k.oft e

pub data Opens (k : Kernel) (path : Kernel → ℕ × Kernel) (r : ℕ × Kernel) : Type 0 where
  failed : r.0 ≡ neg1 → Opens k path r
  done :
      (o i : ℕ)
      → current_fd k r.0 ≡ none
      → ((f : ℕ) → f < r.0 → current_fd k f ≢ none)
      → Linked (path k).0 r.0 o i (path k).1 r.1
      → Opens k path r

link_tables-current_fd :
    (fd f o i : ℕ) (k : Kernel)
    → current_fd (link_tables fd o i k) f ≡ (if fd == f then some o else current_fd k f)
unfolding link_tables
link_tables-current_fd fd f o i k = ground arith

close_entry-current_fd :
    (fd f o i : ℕ) (k : Kernel)
    → current_fd (close_entry fd o i k) f ≡ (if fd == f then none else current_fd k f)
unfolding close_entry
close_entry-current_fd fd f o i k = ground arith

pub link_tables-Linked :
    (ino fd o i : ℕ) (k k' : Kernel)
    → fd < fdt_limit
    → Active ino i k k'
    → (k'.oft o).inptr ≡ none
    → Linked ino fd o i k (link_tables fd o i k')
unfolding link_tables
link_tables-Linked ino fd o i k k' lt a free = record {
  opened = record {
    inside = lt;
    entry = link_tables-current_fd fd fd o i k' ∙ rw (eq_refl fd);
    inode = rw (eq_refl o);
  };
  number = rw (eq_refl i) a.number;
  was_free = ap (λ (t : ℕ → Ofile). (t o).inptr) (sym a.oft) ∙ free;
  fds = λ f ne.
      link_tables-current_fd fd f o i k'
      ∙ rw (ne→== fd f (λ e. ne (sym e))) (ap (λ (p : Procs). (p.pcb p.current).fd f) a.procs);
  entries = λ e ne. ground (arith, ne, a.oft);
}

-- open returns -1, or the lowest descriptor that was free: it then leads through an entry of the
-- open file table that was free to the inode with the number that the path gave, and no other
-- descriptor or entry changes.
pub open_file-Opens : (path : Kernel → ℕ × Kernel) (k : Kernel) → Opens k path (open_file path k)
unfolding open_file
open_file-Opens path k = by_fd (get_fd k) (get_fd-First k)
  where
    by_entry :
        (fd i : ℕ) (k' : Kernel) (o : Option ℕ)
        → fd < fdt_limit
        → current_fd k fd ≡ none
        → ((f : ℕ) → f < fd → current_fd k f ≢ none)
        → Active (path k).0 i (path k).1 k'
        → First (λ i. is_none (k'.oft i).inptr) 0 oft_limit o
        → Opens k path (open_entry fd i o k')
    by_entry fd i k' none lt free taken a f = failed refl
    by_entry fd i k' (some o) lt free taken a f = done o i free taken (
        link_tables-Linked (path k).0 fd o i (path k).1 k' lt a (is_none-none (k'.oft o).inptr f.2))

    by_inode :
        (fd : ℕ) (r : Option (ℕ × Kernel))
        → fd < fdt_limit
        → current_fd k fd ≡ none
        → ((f : ℕ) → f < fd → current_fd k f ≢ none)
        → Gets (path k).0 (path k).1 r
        → Opens k path (open_inode fd r (path k).1)
    by_inode fd r lt free taken (full e) = rw e (failed refl)
    by_inode fd r lt free taken (got i k' e a) =
        rw e (by_entry fd i k' (get_oft k') lt free taken a (get_oft-First k'))

    by_fd :
        (o : Option ℕ)
        → First (λ fd. is_none (current_fd k fd)) 0 fdt_limit o
        → Opens k path (open_at o path k)
    by_fd none f = failed refl
    by_fd (some fd) f = elim (Bool-cases (nonneg (path k).0)) [
      | inl e ↦ rw e (
          by_inode fd (get_ait (path k).0 (path k).1) f.1 (is_none-none (current_fd k fd) f.2)
            (λ f' lt e. ground (arith, f.3 f' (omega arith) lt, ap is_none e))
            (get_ait-Gets (path k).0 (path k).1))
      | inr e ↦ rw e (failed refl)
    ]

-- Behind an open that took a free descriptor and a free entry, close does not fault, and every
-- descriptor of the process and every entry of the open file table is then taken or free as it was
-- before the open.
pub close_file-open_file :
    (fd o i ino : ℕ) (k k' : Kernel)
    → current_fd k fd ≡ none
    → Linked ino fd o i k k'
    → (k'' : Kernel) × (close_file fd k' ≡ ok (0, k''))
      × ((f : ℕ) → current_fd k'' f ≡ current_fd k f)
      × ((e : ℕ) → (k''.oft e).inptr ≡ (k.oft e).inptr)
unfolding close_file close_entry
close_file-open_file fd o i ino k k' free l = (
  close_entry fd o i k',
  rw (lt→ltb fd fdt_limit l.opened.inside, l.opened.entry) (rw l.opened.inode refl),
  λ f. elim (Bool-cases (fd == f)) [
    | inl e ↦
        close_entry-current_fd fd f o i k' ∙ rw e (sym free ∙ ap (current_fd k) (==→eq fd f e))
    | inr e ↦ close_entry-current_fd fd f o i k' ∙ rw e (l.fds f (λ same. ==→ne fd f e (sym same)))
  ],
  λ e. ground (arith, l.was_free, l.entries e),
)
