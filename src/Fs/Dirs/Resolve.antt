-- ===== src/Fs/Dirs/Resolve.antt =====
-- path_to_ino of kernel/kernel.c against a relation between directories: each name leads to the inode
-- of the first entry that has it.
use mathlib.Core.List.{append-nil}
use arm_kernel.Base.{
  ℕ, ◌≡◌, ◌≢◌, ◌∙◌, ap, sym, refl, List, [], ◌∷◌, ◌++◌, ◌==◌, inl, inr, Bool-cases, Option, none,
  some, All, First, ==→eq, ==→ne, ne→==,
}
use arm_kernel.Base.Words.{neg1}
use arm_kernel.Fs.Alloc.{Store}
use arm_kernel.Fs.Inode.{Inode, read_inode}
use arm_kernel.Fs.Dirs.{
  blank_inode, end_name, snoc, dirs, tokens_from, walk, path_to_ino, name_to_ino,
}
use arm_kernel.Fs.Dirs.Lookup.{entry, named, visible, ino_of, name_to_ino-First}

-- The directory with a number, as it is on the disk.
abbrev pub dir_inode : ℕ → Store → Inode
dir_inode ino s = read_inode blank_inode ino s

-- The first entry of directory `dir` with a name, or none.
abbrev pub FirstEntry : List ℕ → (dir : ℕ) → Store → Option ℕ → Type 0
FirstEntry name dir s o =
    First (named name (dir_inode dir s) s) 0 (visible (dirs (dir_inode dir s))) o

-- Names lead from one inode to another, or to -1 where one of them is missing. A directory that is
-- numbered -1 is none.
pub data Leads (s : Store) : List (List ℕ) → (start end : ℕ) → Type 0 where
  arrived : (ino : ℕ) → Leads s [] ino ino
  lost : (names : List (List ℕ)) → Leads s names neg1 neg1
  missing :
      (name : List ℕ) (names : List (List ℕ)) (dir : ℕ)
      → dir ≢ neg1
      → FirstEntry name dir s none
      → Leads s (name ∷ names) dir neg1
  enter :
      (name : List ℕ) (names : List (List ℕ)) (dir k end : ℕ)
      → dir ≢ neg1
      → FirstEntry name dir s (some k)
      → Leads s names (entry (dir_inode dir s) k s).ino end
      → Leads s (name ∷ names) dir end

walk_lost : (names : List (List ℕ)) (s : Store) → walk names neg1 s ≡ neg1
unfolding walk
walk_lost [] s = refl
walk_lost (name ∷ names) s = refl

walk-Leads : (names : List (List ℕ)) (dir : ℕ) (s : Store) → Leads s names dir (walk names dir s)
unfolding walk
walk-Leads [] dir s = arrived dir
walk-Leads (name ∷ names) dir s = elim (Bool-cases (dir == neg1)) [
  | inl e ↦ let gone = ==→eq dir neg1 e in rw gone (lost (name ∷ names))
  | inr here ↦
      let (o, first, found) = name_to_ino-First name (dir_inode dir s) s in
      rw here (behind (==→ne dir neg1 here) o first found (λ ino. walk-Leads names ino s))
]
  where
    behind :
        dir ≢ neg1
        → (o : Option ℕ) → FirstEntry name dir s o
        → name_to_ino name (dir_inode dir s) s ≡ ino_of (dir_inode dir s) s o
        → ((ino : ℕ) → Leads s names ino (walk names ino s))
        → Leads s (name ∷ names) dir (walk names (name_to_ino name (dir_inode dir s) s) s)
    behind ne none first found rest =
        rw (found, walk_lost names s) (missing name names dir ne first)
    behind ne (some k) first found rest = rw found (
        enter name names dir k (walk names (entry (dir_inode dir s) k s).ino s) ne first
          (rest (entry (dir_inode dir s) k s).ino))

-- A name of a path: not empty, and without a slash.
pub record IsName (name : List ℕ) : Type 0 where
  pub some_letter : name ≢ []
  pub no_slash : All (λ c. c ≢ 47) name

-- Names with a slash in front of each.
abbrev pub slashed : List (List ℕ) → List ℕ
slashed [] = []
slashed (name ∷ names) = 47 ∷ name ++ slashed names

snoc-append : (cur cs : List ℕ) (c : ℕ) → snoc cur c ++ cs ≡ cur ++ c ∷ cs
snoc-append [] cs c = refl
snoc-append (x ∷ cur) cs c = ap (λ t. x ∷ t) (snoc-append cur cs c)

-- strtok reads a name up to the next slash.
tokens_from-name :
    (cur name rest : List ℕ)
    → All (λ c. c ≢ 47) name
    → tokens_from cur (name ++ rest) ≡ tokens_from (cur ++ name) rest
unfolding tokens_from
tokens_from-name cur [] rest h = ap (λ t. tokens_from t rest) (sym (append-nil cur))
tokens_from-name cur (c ∷ name) rest h = rw (ne→== c 47 h.0) (
    tokens_from-name (snoc cur c) name rest h.1
    ∙ ap (λ t. tokens_from t rest) (snoc-append cur name c))

end_name_some :
    (name : List ℕ) (names : List (List ℕ)) → name ≢ [] → end_name name names ≡ name ∷ names
end_name_some [] names ne = absurd (ne refl)
end_name_some (c ∷ cs) names ne = refl

tokens_from-slashed :
    (name : List ℕ) (names : List (List ℕ))
    → IsName name
    → All IsName names
    → tokens_from [] (name ++ slashed names) ≡ name ∷ names
unfolding tokens_from
tokens_from-slashed name [] n h =
    tokens_from-name [] name [] n.no_slash ∙ end_name_some name [] n.some_letter
tokens_from-slashed name (next ∷ names) n h =
    tokens_from-name [] name (slashed (next ∷ names)) n.no_slash
    ∙ ap (end_name name) (tokens_from-slashed next names h.0 h.1)
    ∙ end_name_some name (next ∷ names) n.some_letter

-- path_to_ino of a path of names with a slash between two of them gives the inode that the names
-- lead to, one directory behind the other, each by the first entry with the name that name_to_ino
-- looks at; it gives -1 where a name is missing.
pub path_to_ino-Leads :
    (name : List ℕ) (names : List (List ℕ)) (dir : ℕ) (s : Store)
    → IsName name
    → All IsName names
    → Leads s (name ∷ names) dir (path_to_ino (name ++ slashed names) dir s)
unfolding path_to_ino
path_to_ino-Leads name names dir s n h =
    rw (tokens_from-slashed name names n h) (walk-Leads (name ∷ names) dir s)
