-- ===== src/Files/Format/Wiped.antt =====
-- wipe of kernel/kernel.c makes every data block but one free, in the list that balloc reads.
use arm_kernel.Base.{
  ℕ, zero, suc, ◌+◌, ◌*◌, ◌^◌, ◌≤◌, ◌<◌, ◌≡◌, ◌≢◌, ◌↔◌, refl, ◌∙◌, ap, sym, subst, arith, List,
  ◌++◌, has, length, true, false, ◌==◌, if◌then◌else◌, Bool-cases, inl, inr, ==→ne, ==→eq,
}
use arm_kernel.Fs.Disk.{
  Disk, disk_wr, word, words_bytes, word-words_bytes, word-agree, disk_wr_self, disk_wr-other,
}
use arm_kernel.Fs.Alloc.{Store, update_sb}
use arm_kernel.Fs.Alloc.FreeList.{Chain, FreeList, update_sb-disk}
use arm_kernel.Files.Format.{chain_words, write_chain, new_fs, new_fdb, wipe_blocks}
use arm_kernel.Files.Format.Fresh.{
  run, chain_list, fresh, has-fresh_bounds, has-fresh, Distinct-fresh, length-fresh, not_has,
}

chain_words-lt : (i j : ℕ) → i < 30 → j < 64 → chain_words i j < 2 ^ 32
unfolding chain_words
chain_words-lt i j li lj = elim (Bool-cases (j == 0)) [
  | inl e ↦
      rw e (elim (Bool-cases (i == 29)) [ inl f ↦ rw f (omega arith) | inr f ↦ rw f (omega arith) ])
  | inr e ↦ rw e (omega arith)
]

write_chain-other :
    (rounds i b : ℕ) (d : Disk)
    → ((m : ℕ) → i ≤ m → m < i + rounds → b ≢ m + 66)
    → write_chain rounds i d b ≡ d b
unfolding write_chain
write_chain-other zero i b d apart = refl
write_chain-other (suc rounds) i b d apart =
    write_chain-other rounds (i + 1) b _ (λ m lo hi. apart m (omega arith) (omega arith))
    ∙ disk_wr-other (i + 66) b (64 * 4) (words_bytes (chain_words i)) d
        (apart i (omega arith) (omega arith))

written_word :
    (i j : ℕ) (d : Disk)
    → i < 30
    → j < 64
    → word (disk_wr (i + 66) (words_bytes (chain_words i)) (64 * 4) d (i + 66)) j ≡ chain_words i j
written_word i j d li lj =
    word-agree (disk_wr (i + 66) (words_bytes (chain_words i)) (64 * 4) d (i + 66))
      (words_bytes (chain_words i)) j
      (λ k lt.
        disk_wr_self (i + 66) (4 * j + k) (64 * 4) (words_bytes (chain_words i)) d (omega arith))
    ∙ word-words_bytes (chain_words i) j (chain_words-lt i j li lj)

-- The list that the loop writes to block `k` of the chain.
write_chain-word :
    (rounds i k j : ℕ) (d : Disk)
    → i + rounds ≤ 30
    → i ≤ k
    → k < i + rounds
    → j < 64
    → word (write_chain rounds i d (k + 66)) j ≡ chain_words k j
unfolding write_chain
write_chain-word zero i k j d le lo hi lj = absurd (omega arith)
write_chain-word (suc rounds) i k j d le lo hi lj = elim (Bool-cases (i == k)) [
  | inl e ↦
      let eq : i ≡ k = ==→eq i k e in
      let kept =
        write_chain-other rounds (i + 1) (i + 66)
          (disk_wr (i + 66) (words_bytes (chain_words i)) (64 * 4) d)
          (λ m lo' hi' f. absurd (omega arith)) in
      rw (← eq) (ap (λ b. word b j) kept ∙ written_word i j d (omega arith) lj)
  | inr ne ↦
      let other = ==→ne i k ne in
      write_chain-word rounds (i + 1) k j _ (omega arith) (omega arith) (omega arith) lj
]

-- A list that holds a run, above what stands at its front.
Chain-run :
    (d : Disk) (fdb : ℕ → ℕ) (b h : ℕ) (rest : List ℕ)
    → ((j : ℕ) → 0 < j → j ≤ h → fdb j ≡ b + j)
    → Chain d fdb zero rest
    → Chain d fdb h (run b h ++ rest)
Chain-run d fdb b zero rest f c = c
Chain-run d fdb b (suc h) rest f c = (
  f (suc h) (omega arith) (omega arith),
  Chain-run d fdb b h rest (λ j pos le. f j pos (omega arith)) c,
)

-- The chain from block `i` on, behind a list with that block in front.
Chain-chain_list :
    (rounds i : ℕ) (d : Disk) (fdb : ℕ → ℕ)
    → i + rounds ≡ 30
    → fdb 0 ≡ (if i == 30 then 1 else 66 + i)
    → ((k j : ℕ) → i ≤ k → k < 30 → j < 64 → word (d (66 + k)) j ≡ chain_words k j)
    → Chain d fdb zero (chain_list rounds i)
unfolding chain_words
Chain-chain_list zero i d fdb e front words = front ∙ ground arith
Chain-chain_list (suc rounds) i d fdb e front words = (
  λ one. let lt : i < 30 = omega arith in absurd (ground (arith, front, one)),
  front ∙ (let lt : i < 30 = omega arith in ground arith),
  Chain-run d (word (d (66 + i))) (63 * i + 95) 63 (chain_list rounds (i + 1))
      (λ j pos le.
        words i j (omega arith) (omega arith) (omega arith)
        ∙ (let some_place : (j == 0) ≡ false = ground arith in rw some_place (omega arith)))
      (Chain-chain_list rounds (i + 1) d (word (d (66 + i))) (omega arith)
        (words i 0 (omega arith) (omega arith) (omega arith) ∙ ground arith)
        (λ k j lo hi lj. words k j (omega arith) hi lj)),
)

Chain-fresh :
    (d : Disk) (fdb : ℕ → ℕ)
    → ((j : ℕ) → 0 < j → j ≤ 61 → fdb j ≡ 1986 + j)
    → fdb 0 ≡ 66
    → ((k j : ℕ) → 0 ≤ k → k < 30 → j < 64 → word (d (66 + k)) j ≡ chain_words k j)
    → Chain d fdb 61 fresh
unfolding fresh
Chain-fresh d fdb f front words =
    Chain-run d fdb 1986 61 (chain_list 30 0) f (Chain-chain_list 30 0 d fdb refl front words)

new_fdb_run : (fdb : ℕ → ℕ) (j : ℕ) → 0 < j → j ≤ 61 → new_fdb fdb j ≡ 1986 + j
new_fdb_run fdb j pos le = ground arith

wiped_word :
    (s : Store) (k j : ℕ)
    → 0 ≤ k
    → k < 30
    → j < 64
    → word ((wipe_blocks s).disk (66 + k)) j ≡ chain_words k j
unfolding wipe_blocks
wiped_word s k j _ lt lj =
    let place : 66 + k ≡ k + 66 = omega arith in
    let t : Store = record {
      disk = write_chain 30 0 s.disk;
      fs = record (new_fs s.fs) { fdb = new_fdb s.fs.fdb };
    } in
    ap (λ b. word b j) (update_sb-disk t (66 + k) (λ e. absurd (omega arith)))
    ∙ ap (λ a. word (write_chain 30 0 s.disk a) j) place
    ∙ write_chain-word 30 0 k j s.disk (omega arith) (omega arith) (omega arith) lj

wiped_fs :
    (s : Store)
    → ((wipe_blocks s).fs.fdbhead ≡ 61)
      × ((wipe_blocks s).fs.sblkno ≡ 1)
      × ((wipe_blocks s).fs.fdb ≡ new_fdb s.fs.fdb)
unfolding wipe_blocks update_sb
wiped_fs s = (refl, refl, refl)

-- wipe makes a list of 1981 free blocks: every block from 66 to 2047 but 1986, each once.
pub wipe_blocks-FreeList :
    (s : Store)
    → FreeList (wipe_blocks s) fresh
      × (length fresh ≡ 1981)
      × ((x : ℕ) → (has x fresh ≡ true) ↔ ((66 ≤ x) × (x < 2048) × (x ≢ 1986)))
wipe_blocks-FreeList s =
    let (head, super, fdb) = wiped_fs s in
    (
      record {
        chain =
            subst (λ h. Chain (wipe_blocks s).disk (wipe_blocks s).fs.fdb h fresh) (sym head)
              (subst (λ f. Chain (wipe_blocks s).disk f 61 fresh) (sym fdb)
                (Chain-fresh (wipe_blocks s).disk (new_fdb s.fs.fdb) (new_fdb_run s.fs.fdb) refl
                  (wiped_word s)));
        head = omega (arith, head);
        super = super;
        apart = not_has 1 fresh (λ m. let (lo, hi, ne) = has-fresh_bounds 1 m in omega arith);
        distinct = Distinct-fresh;
        small = λ x m. let (lo, hi, ne) = has-fresh_bounds x m in omega arith;
      },
      length-fresh,
      λ x. (has-fresh_bounds x, λ m. has-fresh x m.0 m.1 m.2),
    )
