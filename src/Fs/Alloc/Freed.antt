-- ===== src/Fs/Alloc/Freed.antt =====
-- bfree of kernel/kernel.c puts a block in front of the free blocks.
use arm_kernel.Base.{
  ℕ, zero, suc, ◌+◌, ◌*◌, ◌^◌, ◌≤◌, ◌<◌, ◌≡◌, ◌≢◌, ◌∙◌, ap, sym, refl, subst, ◌⊎◌, inl, inr, true,
  false, arith, ltb, ◌==◌, update, List, [], ◌∷◌, has, has_later, not-has_tail, not-has_head,
  not-has-cons, has_of_eq, has-cons_cases, ltb→lt, ltb→le, Bool-cases, lt→ltb, le→ltb,
}
use arm_kernel.Base.Words.{neg1}
use arm_kernel.Fs.Disk.{
  Disk, disk_wr, word, words_bytes, word-words_bytes, word-agree, disk_wr_self, disk_wr-other,
}
use arm_kernel.Fs.Alloc.{Store, update_sb, bfree}
use arm_kernel.Fs.Alloc.FreeList.{
  Chain, FreeList, SameBlocks, Chain-agree, after_update, update_sb-same, ne_of_has,
}

-- A list in memory is made of free blocks, but for the mark at its front.
Chain-place :
    (d : Disk) (fdb : ℕ → ℕ) (h j : ℕ) (xs : List ℕ)
    → Chain d fdb h xs
    → j ≤ h
    → (fdb j ≡ 1) ⊎ (has (fdb j) xs ≡ true)
Chain-place d fdb zero j [] c le = let e : j ≡ 0 = omega arith in inl (rw e c)
Chain-place d fdb (suc h) j [] c le = absurd c
Chain-place d fdb zero j (x ∷ xs) c le =
    let e : j ≡ 0 = omega arith in inr (has_of_eq (fdb j) x xs (ap fdb e ∙ c.1))
Chain-place d fdb (suc h) j (x ∷ xs) c le = elim (Bool-cases (j == suc h)) [
  | inl e ↦ let e' : j ≡ suc h = ground arith in inr (has_of_eq (fdb j) x xs (ap fdb e' ∙ c.0))
  | inr e ↦ elim (Chain-place d fdb h j xs c.1 (ground arith)) [
    | inl one ↦ inl one
    | inr m ↦ inr (has_later (fdb j) x xs m)
  ]
]

-- The freed block is added at the back of the list in memory.
abbrev pub added : ℕ → Store → Store
added a s = record s {
  fs = record (s.fs) { fdb = update s.fs.fdb (s.fs.fdbhead + 1) a; fdbhead = s.fs.fdbhead + 1 };
}

pub bfree_back : (a : ℕ) (s : Store) → s.fs.fdbhead < 63 → bfree a s ≡ (0, update_sb (added a s))
unfolding bfree
bfree_back a s lt = rw (lt→ltb s.fs.fdbhead 63 lt)

-- The store with its full list moved into the freed block.
unfoldable pub spilled : ℕ → Store → Store
spilled a s = record {
  disk = disk_wr a (words_bytes s.fs.fdb) (64 * 4) s.disk;
  fs = record (s.fs) { fdb = update s.fs.fdb 0 a; fdbhead = 0 };
}

pub bfree_front : (a : ℕ) (s : Store) → 63 ≤ s.fs.fdbhead → bfree a s ≡ (1, update_sb (spilled a s))
unfolding bfree spilled
bfree_front a s le = rw (le→ltb s.fs.fdbhead 63 le)

-- A chain with one more place behind its back.
Chain-more :
    (d : Disk) (fdb : ℕ → ℕ) (h a : ℕ) (xs : List ℕ)
    → Chain d fdb h xs
    → Chain d (update fdb (h + 1) a) (h + 1) (a ∷ xs)
Chain-more d fdb h a xs c =
    let e : h + 1 ≡ suc h = omega arith in
    rw e (
      ground arith,
      Chain-agree d d xs fdb (update fdb (suc h) a) h (λ x m. refl) (λ j le. ground arith) c,
    )

-- A free block's address is no more than a word.
pub place_small :
    (s : Store) (xs : List ℕ) (j : ℕ) → FreeList s xs → j ≤ s.fs.fdbhead → s.fs.fdb j < 2 ^ 32
place_small s xs j f le = elim (Chain-place s.disk s.fs.fdb s.fs.fdbhead j xs f.chain le) [
  | inl one ↦ omega arith
  | inr m ↦ omega (arith, f.small (s.fs.fdb j) m)
]

spilled-Chain :
    (s : Store) (a : ℕ) (xs : List ℕ)
    → FreeList s xs
    → 63 ≤ s.fs.fdbhead
    → a ≢ 1
    → has a xs ≡ false
    → Chain (spilled a s).disk (spilled a s).fs.fdb 0 (a ∷ xs)
unfolding spilled
spilled-Chain s a xs f full ne out = (
  ne,
  refl,
  Chain-agree s.disk (spilled a s).disk xs s.fs.fdb (word ((spilled a s).disk a)) 63
      (λ x m. disk_wr-other a x 256 (words_bytes s.fs.fdb) s.disk (ne_of_has x a xs m out)) place
      (subst (λ h. Chain s.disk s.fs.fdb h xs) at_end f.chain),
)
  where
    at_end : s.fs.fdbhead ≡ 63
    at_end = omega (arith, f.head)

    place : (j : ℕ) → j ≤ 63 → word ((spilled a s).disk a) j ≡ s.fs.fdb j
    place j le =
        word-agree ((spilled a s).disk a) (words_bytes s.fs.fdb) j
          (λ k lt. disk_wr_self a (4 * j + k) 256 (words_bytes s.fs.fdb) s.disk (omega arith))
        ∙ word-words_bytes s.fs.fdb j (place_small s xs j f (omega arith))

freed-FreeList :
    (s t : Store) (a : ℕ) (xs : List ℕ)
    → FreeList s xs
    → t.fs.sblkno ≡ 1
    → t.fs.fdbhead < 64
    → Chain t.disk t.fs.fdb t.fs.fdbhead (a ∷ xs)
    → a ≢ 1
    → has a xs ≡ false
    → a < neg1
    → FreeList (update_sb t) (a ∷ xs)
unfolding update_sb
freed-FreeList s t a xs f super head c ne out lt = record {
  chain = after_update t (a ∷ xs) super apart c;
  head = head;
  super = super;
  apart = apart;
  distinct = (out, f.distinct);
  small = λ x m. elim (has-cons_cases x a xs m) [ inl e ↦ omega arith | inr m' ↦ f.small x m' ];
}
  where
    apart : has 1 (a ∷ xs) ≡ false
    apart = not-has-cons 1 a xs ne f.apart

-- bfree puts a block that is not free, nor the superblock, in front of the free blocks: the next
-- balloc gives it. It writes the superblock and at most the block itself, and does not fail.
pub bfree-FreeList :
    (s : Store) (a : ℕ) (xs : List ℕ)
    → FreeList s xs
    → a ≢ 1
    → has a xs ≡ false
    → a < neg1
    → FreeList (bfree a s).1 (a ∷ xs)
      × SameBlocks (1 ∷ a ∷ []) s (bfree a s).1
      × ((bfree a s).0 < 2)
bfree-FreeList s a xs f ne out lt = elim (Bool-cases (ltb s.fs.fdbhead 63)) [
  | inl some_room ↦
      let lo : s.fs.fdbhead < 63 = ltb→lt s.fs.fdbhead 63 some_room in
      rw (bfree_back a s lo) (
        freed-FreeList s (added a s) a xs f f.super (omega arith)
            (Chain-more s.disk s.fs.fdb s.fs.fdbhead a xs f.chain) ne out lt,
        λ b m.
            update_sb-same (added a s) f.super b
              (not-has-cons b 1 [] (not-has_head b 1 (a ∷ []) m) refl),
        omega arith,
      )
  | inr full ↦
      let hi : 63 ≤ s.fs.fdbhead = ltb→le s.fs.fdbhead 63 full in
      rw (bfree_front a s hi) (
        unfold spilled in
            freed-FreeList s (spilled a s) a xs f f.super (omega arith)
              (spilled-Chain s a xs f hi ne out) ne out lt,
        λ b m.
            unfold spilled in
            update_sb-same (spilled a s) f.super b
              (not-has-cons b 1 [] (not-has_head b 1 (a ∷ []) m) refl)
            ∙ disk_wr-other a b 256 (words_bytes s.fs.fdb) s.disk
                (λ e. not-has_head b a [] (not-has_tail b 1 (a ∷ []) m) (sym e)),
        omega arith,
      )
]
