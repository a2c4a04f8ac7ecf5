-- ===== src/Fs/Alloc/FreeList.antt =====
-- balloc and bfree of kernel/kernel.c as a stack of free block addresses, kept in the superblock
-- and in a chain of blocks that are themselves free.
use arm_kernel.Base.{
  ℕ, zero, suc, ◌-◌, ◌≤◌, ◌<◌, ◌≡◌, ◌≢◌, ◌∙◌, ap, sym, refl, inl, inr, true, false, arith, ltb,
  memcpy, ok, List, [], ◌∷◌, has, Distinct, has_later, not-has_tail, ltb→le, ltb→lt, Bool-cases,
  lt→ltb, le→ltb, ne→==,
}
use arm_kernel.Base.Words.{neg1}
use arm_kernel.Fs.Disk.{block_size, Disk, disk_wr, disk_rd, word, word-disk_rd}
use arm_kernel.Fs.Alloc.{Superblock, Store, update_sb, take_back, take_front, balloc}

-- The addresses that balloc will give, in that order, from a list in memory with its back at
-- `head`. The front of a list is 1 at the end of the chain, and otherwise the block that holds the
-- next list, which is given before that list.
abbrev pub Chain : Disk → (ℕ → ℕ) → ℕ → List ℕ → Type 0
Chain d fdb zero [] = fdb 0 ≡ 1
Chain d fdb zero (x ∷ xs) = (fdb 0 ≢ 1) × (fdb 0 ≡ x) × Chain d (word (d x)) 63 xs
Chain d fdb (suc h) [] = ⊥
Chain d fdb (suc h) (x ∷ xs) = (fdb (suc h) ≡ x) × Chain d fdb h xs

-- `xs` are the free blocks, each once, the superblock not among them.
pub record FreeList (s : Store) (xs : List ℕ) : Type 0 where
  pub chain : Chain s.disk s.fs.fdb s.fs.fdbhead xs
  pub head : s.fs.fdbhead < 64
  pub super : s.fs.sblkno ≡ 1
  pub apart : has 1 xs ≡ false
  pub distinct : Distinct xs
  pub small : (x : ℕ) → has x xs ≡ true → x < neg1

-- The chain rests on the blocks that it passes, and on the list up to its back.
pub Chain-agree :
    (d d' : Disk) (xs : List ℕ) (fdb fdb' : ℕ → ℕ) (h : ℕ)
    → ((x : ℕ) → has x xs ≡ true → d' x ≡ d x)
    → ((j : ℕ) → j ≤ h → fdb' j ≡ fdb j)
    → Chain d fdb h xs
    → Chain d' fdb' h xs
Chain-agree d d' [] fdb fdb' zero blocks places c = places 0 (omega arith) ∙ c
Chain-agree d d' [] fdb fdb' (suc h) blocks places c = c
Chain-agree d d' (x ∷ xs) fdb fdb' zero blocks places c =
    let front = places 0 (omega arith) in
    (
      λ e. c.0 (sym front ∙ e),
      front ∙ c.1,
      Chain-agree d d' xs (word (d x)) (word (d' x)) 63 (λ y m. blocks y (ground arith))
          (λ j le. ap (λ b. word b j) (blocks x (ground arith))) c.2,
    )
Chain-agree d d' (x ∷ xs) fdb fdb' (suc h) blocks places c = (
  places (suc h) (omega arith) ∙ c.0,
  Chain-agree d d' xs fdb fdb' h (λ y m. blocks y (ground arith)) (λ j le. places j (omega arith))
      c.1,
)

-- The superblock's write spares every other block.
pub update_sb-disk : (s : Store) (b : ℕ) → b ≢ s.fs.sblkno → (update_sb s).disk b ≡ s.disk b
unfolding update_sb disk_wr
update_sb-disk s b ne = ground arith

update_sb-fs : (s : Store) → (update_sb s).fs ≡ s.fs
unfolding update_sb
update_sb-fs s = refl

pub ne_of_has : (x y : ℕ) (xs : List ℕ) → has x xs ≡ true → has y xs ≡ false → x ≢ y
ne_of_has x y xs m out e = ground (arith, rw e at m)

-- What a block operation spares.
abbrev pub SameBlocks : List ℕ → Store → Store → Type 0
SameBlocks touched s s' = (b : ℕ) → has b touched ≡ false → s'.disk b ≡ s.disk b

-- The list after a write of the superblock.
pub after_update :
    (s : Store) (xs : List ℕ)
    → s.fs.sblkno ≡ 1
    → has 1 xs ≡ false
    → Chain s.disk s.fs.fdb s.fs.fdbhead xs
    → Chain (update_sb s).disk s.fs.fdb s.fs.fdbhead xs
after_update s xs super out c =
    Chain-agree s.disk (update_sb s).disk xs s.fs.fdb s.fs.fdb s.fs.fdbhead
      (λ x m. update_sb-disk s x (rw super (ne_of_has x 1 xs m out))) (λ j le. refl) c

pub update_sb-same : (s : Store) → s.fs.sblkno ≡ 1 → SameBlocks (1 ∷ []) s (update_sb s)
update_sb-same s super b out = update_sb-disk s b (rw super (λ e. ground arith))

-- The two ways to take a block.
Chain-back :
    (d : Disk) (fdb : ℕ → ℕ) (h x : ℕ) (xs : List ℕ)
    → 0 < h
    → Chain d fdb h (x ∷ xs)
    → (fdb h ≡ x) × Chain d fdb (h - 1) xs
Chain-back d fdb zero x xs lt c = elim lt [ ]
Chain-back d fdb (suc h) x xs lt c = let e : suc h - 1 ≡ h = omega arith in (c.0, rw e c.1)

Chain-front :
    (d : Disk) (fdb : ℕ → ℕ) (h x : ℕ) (xs : List ℕ)
    → h ≡ 0
    → Chain d fdb h (x ∷ xs)
    → (fdb 0 ≢ 1) × (fdb 0 ≡ x) × Chain d (word (d x)) 63 xs
Chain-front d fdb zero x xs e c = c
Chain-front d fdb (suc h) x xs e c = absurd (omega arith)

Chain-end : (d : Disk) (fdb : ℕ → ℕ) (h : ℕ) → Chain d fdb h [] → (h ≡ 0) × (fdb 0 ≡ 1)
Chain-end d fdb zero c = (refl, c)
Chain-end d fdb (suc h) c = absurd c

-- What is left of a list of free blocks when the first is taken.
taken-FreeList :
    (s : Store) (x : ℕ) (xs : List ℕ) (t : Store)
    → FreeList s (x ∷ xs)
    → t.fs.sblkno ≡ 1
    → t.fs.fdbhead < 64
    → Chain t.disk t.fs.fdb t.fs.fdbhead xs
    → FreeList (update_sb t) xs
unfolding update_sb
taken-FreeList s x xs t f super head c = record {
  chain = after_update t xs super out c;
  head = head;
  super = super;
  apart = out;
  distinct = f.distinct.1;
  small = λ y m. f.small y (has_later y x xs m);
}
  where
    out : has 1 xs ≡ false
    out = not-has_tail 1 x xs f.apart

balloc_back :
    (s : Store) (x : ℕ)
    → 0 < s.fs.fdbhead
    → s.fs.fdbhead < 64
    → s.fs.fdb s.fs.fdbhead ≡ x
    → balloc s ≡ ok (x, update_sb (record s { fs = record (s.fs) { fdbhead = s.fs.fdbhead - 1 } }))
unfolding balloc take_back
balloc_back s x lo hi e =
    rw (lt→ltb 0 s.fs.fdbhead lo, lt→ltb s.fs.fdbhead 64 hi)
      (ap (λ y. ok (y, update_sb (record s { fs = record (s.fs) { fdbhead = s.fs.fdbhead - 1 } })))
        e)

-- The store with its list turned over: the block's words are the new list.
refilled : Store → Store
refilled s = record s {
  fs = record (s.fs) {
    fdb = memcpy s.fs.fdb (word (disk_rd (s.fs.fdb 0) (λ _. 0) block_size s.disk)) 64;
    fdbhead = 63;
  };
}

balloc_front :
    (s : Store) (x : ℕ)
    → s.fs.fdbhead ≡ 0
    → s.fs.fdb 0 ≢ 1
    → s.fs.fdb 0 ≡ x
    → balloc s ≡ ok (x, update_sb (refilled s))
unfolding balloc take_front refilled
balloc_front s x e ne eq =
    rw (le→ltb 0 s.fs.fdbhead (omega arith), ne→== (s.fs.fdb 0) 1 ne)
      (ap (λ y. ok (y, update_sb (refilled s))) eq)

refilled-Chain :
    (s : Store) (x : ℕ) (xs : List ℕ)
    → s.fs.fdb 0 ≡ x
    → Chain s.disk (word (s.disk x)) 63 xs
    → Chain s.disk (refilled s).fs.fdb 63 xs
unfolding refilled
refilled-Chain s x xs e c =
    Chain-agree s.disk s.disk xs (word (s.disk x)) (refilled s).fs.fdb 63 (λ y m. refl)
      (λ j le. place j le) c
  where
    place : (j : ℕ) → j ≤ 63 → (refilled s).fs.fdb j ≡ word (s.disk x) j
    place j le =
        rw (lt→ltb j 64 (omega arith)) (
          word-disk_rd (s.fs.fdb 0) j (λ _. 0) s.disk (omega arith) ∙ ap (λ a. word (s.disk a) j) e)

-- balloc gives the first free block, leaves the others free, and writes the superblock alone.
pub balloc_some :
    (s : Store) (x : ℕ) (xs : List ℕ)
    → FreeList s (x ∷ xs)
    → (s' : Store) × (balloc s ≡ ok (x, s'))
      × FreeList s' xs
      × SameBlocks (1 ∷ []) s s'
      × (s'.fs.iblkno ≡ s.fs.iblkno)
balloc_some s x xs f = elim (Bool-cases (ltb 0 s.fs.fdbhead)) [
  | inl some_left ↦
      let lo : 0 < s.fs.fdbhead = ltb→lt 0 s.fs.fdbhead some_left in
      let (top, rest) = Chain-back s.disk s.fs.fdb s.fs.fdbhead x xs lo f.chain in
      let t : Store = record s { fs = record (s.fs) { fdbhead = s.fs.fdbhead - 1 } } in
      (
        update_sb t,
        balloc_back s x lo f.head top,
        taken-FreeList s x xs t f f.super (omega (arith, f.head)) rest,
        update_sb-same t f.super,
        ap (λ (fs : Superblock). fs.iblkno) (update_sb-fs t),
      )
  | inr empty ↦
      let none_left : s.fs.fdbhead ≡ 0 = omega (arith, ltb→le 0 s.fs.fdbhead empty) in
      let (ne, e, rest) = Chain-front s.disk s.fs.fdb s.fs.fdbhead x xs none_left f.chain in
      (
        update_sb (refilled s),
        balloc_front s x none_left ne e,
        unfold refilled in
            taken-FreeList s x xs (refilled s) f f.super (omega arith)
              (refilled-Chain s x xs e rest),
        unfold refilled in update_sb-same (refilled s) f.super,
        unfold refilled in ap (λ (fs : Superblock). fs.iblkno) (update_sb-fs (refilled s)),
      )
]

-- With no free block balloc returns -1 and changes nothing.
pub balloc_none : (s : Store) → FreeList s [] → balloc s ≡ ok (neg1, s)
unfolding balloc
balloc_none s f =
    let (e, last) = Chain-end s.disk s.fs.fdb s.fs.fdbhead f.chain in
    rw (le→ltb 0 s.fs.fdbhead (omega arith), last)

-- A change of blocks that are not free keeps the free blocks.
pub FreeList-disk :
    (s : Store) (d : Disk) (xs : List ℕ)
    → ((x : ℕ) → has x xs ≡ true → d x ≡ s.disk x)
    → FreeList s xs
    → FreeList (record s { disk = d }) xs
FreeList-disk s d xs same f = record {
  chain = Chain-agree s.disk d xs s.fs.fdb s.fs.fdb s.fs.fdbhead same (λ j le. refl) f.chain;
  head = f.head;
  super = f.super;
  apart = f.apart;
  distinct = f.distinct;
  small = f.small;
}
