-- ===== src/Fs/Dirs/Paths.antt =====
-- path_to_ino and path_to_ino2 of kernel/kernel.c, component by component.
use arm_kernel.Base.{
  ℕ, ◌≡◌, ◌≢◌, ◌∙◌, ap, sym, refl, List, [], ◌∷◌, ◌++◌, ◌==◌, inl, inr, Bool-cases, ok, ◌/◌, ◌%◌,
  ne→==, ==→eq,
}
use arm_kernel.Base.Words.{neg1}
use arm_kernel.Fs.Alloc.{Store}
use arm_kernel.Fs.Inode.{Inode, read_inode, ic_of, inode_block}
use arm_kernel.Fs.Dirs.{
  blank_inode, end_name, snoc, tokens_from, walk, path_to_ino, name_to_ino, Walked, walk_start,
  walk_step, walk2, path_to_ino2,
}

walk-neg1 : (toks : List (List ℕ)) (s : Store) → walk toks neg1 s ≡ neg1
unfolding walk
walk-neg1 [] s = refl
walk-neg1 (tok ∷ toks) s = refl

walk-append :
    (a b : List (List ℕ)) (ino : ℕ) (s : Store) → walk (a ++ b) ino s ≡ walk b (walk a ino s) s
unfolding walk
walk-append [] b ino s = refl
walk-append (tok ∷ a) b ino s = elim (Bool-cases (ino == neg1)) [
  | inl e ↦ let e' = ==→eq ino neg1 e in rw (e, e') (sym (walk-neg1 b s))
  | inr e ↦ rw e (walk-append a b (name_to_ino tok (read_inode blank_inode ino s) s) s)
]

end_name-append :
    (cur : List ℕ) (ts us : List (List ℕ)) → end_name cur (ts ++ us) ≡ end_name cur ts ++ us
end_name-append [] ts us = refl
end_name-append (c ∷ cs) ts us = refl

tokens_from-append :
    (cur p q : List ℕ) → tokens_from cur (p ++ 47 ∷ q) ≡ tokens_from cur p ++ tokens_from [] q
unfolding tokens_from
tokens_from-append cur [] q = end_name-append cur [] (tokens_from [] q)
tokens_from-append cur (c ∷ p) q = elim (Bool-cases (c == 47)) [
  | inl e ↦ rw e (
      ap (end_name cur) (tokens_from-append [] p q)
      ∙ end_name-append cur (tokens_from [] p) (tokens_from [] q))
  | inr e ↦ rw e (tokens_from-append (snoc cur c) p q)
]

-- The path `p/q` from a directory leads where `q` leads from where `p` leads, whatever further
-- slashes the two have.
pub path_to_ino-append :
    (p q : List ℕ) (dir : ℕ) (s : Store)
    → path_to_ino (p ++ 47 ∷ q) dir s ≡ path_to_ino q (path_to_ino p dir s) s
unfolding path_to_ino
path_to_ino-append p q dir s =
    ap (λ ts. walk ts dir s) (tokens_from-append [] p q)
    ∙ walk-append (tokens_from [] p) (tokens_from [] q) dir s

-- Which local the inode is read into shows in nothing but the links.
read_inode-links :
    (a b : Inode) (ino : ℕ) (s : Store)
    → a.links ≡ b.links
    → read_inode a ino s ≡ read_inode b ino s
unfolding read_inode
read_inode-links a b ino s e = ap read e
  where
    read : ℕ → Inode
    read l = record { number = ino; links = l; ic = ic_of (inode_block s (ino / 8)) (ino % 8) }

walk2-walk :
    (toks : List (List ℕ)) (w : Walked) (s : Store)
    → w.inode.links ≡ 0
    → (walk2 toks w s).ino ≡ walk toks w.ino s
unfolding walk2 walk
walk2-walk [] w s e = refl
walk2-walk (tok ∷ toks) w s e = elim (Bool-cases (w.ino == neg1)) [
  | inl gone ↦ rw gone
  | inr here ↦ rw here (
      walk2-walk toks (walk_step tok toks w s) s (unfold read_inode in e)
      ∙ ap (λ i. walk toks (name_to_ino tok i s) s)
          (read_inode-links w.inode blank_inode w.ino s e))
]

-- Where a path leads to a file, path_to_ino2 gives the inode number that path_to_ino gives, and
-- changes nothing.
pub path_to_ino2-path_to_ino :
    (path : List ℕ) (dir : ℕ) (s : Store)
    → path_to_ino path dir s ≢ neg1
    → path_to_ino2 path dir s ≡ ok (path_to_ino path dir s, s)
unfolding path_to_ino2 path_to_ino
path_to_ino2-path_to_ino path dir s there =
    let e = walk2-walk (tokens_from [] path) (walk_start dir) s refl in
    rw (e, ne→== (walk (tokens_from [] path) dir s) neg1 there)

-- A walk that meets a missing directory leaves names behind it.
walk2-left :
    (a : List (List ℕ)) (tok : List ℕ) (b : List (List ℕ)) (w : Walked) (s : Store)
    → w.inode.links ≡ 0
    → walk a w.ino s ≡ neg1
    → (t : List ℕ) × (ts : List (List ℕ)) × ((walk2 (a ++ tok ∷ b) w s).left ≡ t ∷ ts)
unfolding walk2 walk
walk2-left [] tok b w s e gone = (tok, b, rw gone)
walk2-left (t ∷ a) tok b w s e gone = elim (Bool-cases (w.ino == neg1)) [
  | inl out ↦ (t, a ++ tok ∷ b, rw out)
  | inr here ↦ rw here (
      walk2-left a tok b (walk_step t (a ++ tok ∷ b) w s) s (unfold read_inode in e) (
        ap (λ i. walk a (name_to_ino t i s) s) (read_inode-links w.inode blank_inode w.ino s e)
        ∙ rw here at gone))
]

-- Where a directory of the path is missing, path_to_ino2 returns -1 and changes nothing.
pub path_to_ino2_missing :
    (p q : List ℕ) (dir : ℕ) (s : Store)
    → path_to_ino p dir s ≡ neg1
    → tokens_from [] q ≢ []
    → path_to_ino2 (p ++ 47 ∷ q) dir s ≡ ok (neg1, s)
unfolding path_to_ino2 path_to_ino
path_to_ino2_missing p q dir s gone more =
    by_names (tokens_from [] q) (tokens_from-append [] p q) more
  where
    by_names :
        (names : List (List ℕ))
        → tokens_from [] (p ++ 47 ∷ q) ≡ tokens_from [] p ++ names
        → names ≢ []
        → path_to_ino2 (p ++ 47 ∷ q) dir s ≡ ok (neg1, s)
    by_names [] e none_left = absurd (none_left refl)
    by_names (tok ∷ names) e none_left =
        let (t, ts, left) = walk2-left (tokens_from [] p) tok names (walk_start dir) s refl gone in
        let out =
          walk2-walk (tokens_from [] p ++ tok ∷ names) (walk_start dir) s refl
          ∙ walk-append (tokens_from [] p) (tok ∷ names) dir s
          ∙ ap (λ i. walk (tok ∷ names) i s) gone
          ∙ walk-neg1 (tok ∷ names) s in
        rw (e, out, left)
