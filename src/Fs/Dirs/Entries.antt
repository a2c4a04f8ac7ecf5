-- ===== src/Fs/Dirs/Entries.antt =====
-- The entry that addInodeToDirectory of kernel/kernel.c writes, and the test of its name.
use arm_kernel.Base.{
  ℕ, zero, suc, ◌+◌, ◌-◌, ◌*◌, ◌/◌, ◌^◌, ◌≤◌, ◌<◌, ◌≡◌, ◌≢◌, ◌∙◌, ap, sym, refl, true, List, [],
  ◌∷◌, ◌++◌, ltb, leb, ◌==◌, if◌then◌else◌, length, length-append, inl, inr, Bool-cases, arith,
  eq_refl, lt→ltb,
}
use arm_kernel.Fs.Disk.{Block, set_word, word-agree, word-set_word}
use arm_kernel.Fs.Dirs.{Dirent, dirent_of, cstr, strncmp_eq, matches, put_dirent}

strncmp_eq-agree : (n : ℕ) (a b : ℕ → ℕ) → ((i : ℕ) → i < n → a i ≡ b i) → strncmp_eq n a b ≡ true
unfolding strncmp_eq
strncmp_eq-agree zero a b same = refl
strncmp_eq-agree (suc n) a b same =
    let first : (a 0 == b 0) ≡ true = ground (arith, same 0 (omega arith)) in
    let rest =
      strncmp_eq-agree n (λ i. a (i + 1)) (λ i. b (i + 1)) (λ i lt. same (i + 1) (omega arith)) in
    rw (first, rest) (ground arith)

-- A name that an entry holds matches, where it is no shorter than the length in the entry.
matches-agree :
    (name : List ℕ) (d : Dirent)
    → d.namlen ≤ length name
    → ((i : ℕ) → i < length name → d.name i ≡ cstr name i)
    → matches name d ≡ true
unfolding matches
matches-agree name d le same =
    let longer : (if leb (length name) d.namlen then d.namlen else length name) ≡ length name =
      ground arith in
    rw longer (strncmp_eq-agree (length name) (cstr name) d.name (λ i lt. sym (same i lt)))

strncmp_eq-same :
    (n : ℕ) (a b c : ℕ → ℕ) → ((i : ℕ) → i < n → b i ≡ c i) → strncmp_eq n a b ≡ strncmp_eq n a c
unfolding strncmp_eq
strncmp_eq-same zero a b c same = refl
strncmp_eq-same (suc n) a b c same =
    let first : b 0 ≡ c 0 = same 0 (omega arith) in
    let rest =
      strncmp_eq-same n (λ i. a (i + 1)) (λ i. b (i + 1)) (λ i. c (i + 1))
        (λ i lt. same (i + 1) (omega arith)) in
    rw (first, rest)

-- The test reads no more of a name than its 26 characters, where neither length is above that.
pub matches-same :
    (name : List ℕ) (d e : Dirent)
    → length name ≤ 26
    → d.namlen ≤ 26
    → d.namlen ≡ e.namlen
    → ((i : ℕ) → i < 26 → d.name i ≡ e.name i)
    → matches name d ≡ matches name e
unfolding matches
matches-same name d e short inside len same = rw (← len) (
    strncmp_eq-same (if leb (length name) d.namlen then d.namlen else length name) (cstr name)
      d.name e.name (λ i lt. same i (ground arith)))

put_dirent-name :
    (b : Block) (r ino i : ℕ) (name : List ℕ)
    → (dirent_of (put_dirent b r ino name) r).name i
      ≡ (if ltb i (length name) then cstr name i else (dirent_of b r).name i)
unfolding put_dirent dirent_of
put_dirent-name b r ino i name =
    let at : 32 * r + 6 + i - (32 * r + 6) ≡ i = omega arith in ground (arith, ap (cstr name) at)

put_dirent-namlen :
    (b : Block) (r ino : ℕ) (name : List ℕ)
    → length name < 65536
    → (dirent_of (put_dirent b r ino name) r).namlen ≡ length name
unfolding put_dirent dirent_of
put_dirent-namlen b r ino name lt = ground arith

put_dirent-ino :
    (b : Block) (r ino : ℕ) (name : List ℕ)
    → ino < 2 ^ 32
    → (dirent_of (put_dirent b r ino name) r).ino ≡ ino
unfolding put_dirent dirent_of
put_dirent-ino b r ino name lt =
    word-agree (put_dirent b r ino name) (set_word b (8 * r) ino) (8 * r) (λ k klt.
      let at : (4 * (8 * r) + k) / 4 ≡ 8 * r = omega arith in
      unfold set_word in rw (at, eq_refl (8 * r)))
    ∙ word-set_word b (8 * r) (8 * r) ino lt
    ∙ rw (eq_refl (8 * r))

-- The entry written for a name of at most 26 characters has the inode number and matches the name,
-- and every byte of the other entries is as it was.
pub record Entered (b : Block) (r n : ℕ) (chars : List ℕ) : Type 0 where
  pub ino : (dirent_of (put_dirent b r n chars) r).ino ≡ n
  pub name : matches chars (dirent_of (put_dirent b r n chars) r) ≡ true
  pub others : (i : ℕ) → i / 32 ≢ r → put_dirent b r n chars i ≡ b i

pub put_dirent-Entered :
    (b : Block) (r ino : ℕ) (name : List ℕ) → ino < 2 ^ 32 → length name ≤ 26 → Entered b r ino name
put_dirent-Entered b r ino name small short = record {
  ino = put_dirent-ino b r ino name small;
  name =
      matches-agree name _ (omega (arith, put_dirent-namlen b r ino name (omega arith)))
        (λ i lt. put_dirent-name b r ino i name ∙ rw (lt→ltb i (length name) lt));
  others = λ i ne. unfold put_dirent in ground arith;
}

-- The name is copied without a null character behind it, so where the slot held a longer name that
-- begins with the new one, the entry of the new file still matches the longer name.
pub matches-put_dirent :
    (b : Block) (r ino : ℕ) (name more : List ℕ)
    → length name < 65536
    → ((i : ℕ) → i < length (name ++ more) → (dirent_of b r).name i ≡ cstr (name ++ more) i)
    → matches (name ++ more) (dirent_of (put_dirent b r ino name) r) ≡ true
matches-put_dirent b r ino name more lt old =
    matches-agree (name ++ more) _
      (omega (arith, put_dirent-namlen b r ino name lt, length-append name more))
      (λ i ilt. put_dirent-name b r ino i name ∙ stays i ilt)
  where
    cstr-append : (xs ys : List ℕ) (i : ℕ) → i < length xs → cstr xs i ≡ cstr (xs ++ ys) i
    cstr-append [] ys i ilt = absurd (omega arith)
    cstr-append (x ∷ xs) ys i ilt = elim (Bool-cases (i == 0)) [
      | inl e ↦ rw e
      | inr e ↦ rw e (cstr-append xs ys (i - 1) (ground arith))
    ]

    stays :
        (i : ℕ)
        → i < length (name ++ more)
        → (if ltb i (length name) then cstr name i else (dirent_of b r).name i)
          ≡ cstr (name ++ more) i
    stays i ilt = elim (Bool-cases (ltb i (length name))) [
      | inl e ↦ rw e (cstr-append name more i (ground arith))
      | inr e ↦ rw e (old i ilt)
    ]
