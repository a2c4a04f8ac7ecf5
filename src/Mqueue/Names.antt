-- ===== src/Mqueue/Names.antt =====
-- mq_open of kernel/kernel.c: names and descriptors.
use arm_kernel.Base.{
  ℕ, zero, suc, ◌+◌, ◌≤◌, ◌<◌, ◌≡◌, ◌≢◌, ◌∙◌, ap, sym, refl, ◌⊎◌, inl, inr, Option, none, some,
  arith, ◌==◌, update, Bool-cases,
}
use arm_kernel.Base.Words.{neg1}
use arm_kernel.Mqueue.{
  Channel, Channels, msgchan_limit, find_name, opened, open_found, open_new, mq_open,
}

-- A search ends at the first channel of the name, or there is none.
abbrev pub Found : ℕ → ℕ → ℕ → Channels → Option ℕ → Type 0
Found i n name mq (some k) =
    (i ≤ k) × (k < i + n) × ((mq k).qname ≡ name) × ((j : ℕ) → i ≤ j → j < k → (mq j).qname ≢ name)
Found i n name mq none = (j : ℕ) → i ≤ j → j < i + n → (mq j).qname ≢ name

find_name-Found : (n i name : ℕ) (mq : Channels) → Found i n name mq (find_name n i name mq)
unfolding find_name
find_name-Found zero i name mq = λ j a b. absurd (omega arith)
find_name-Found (suc n) i name mq = elim (Bool-cases ((mq i).qname == name)) [
  | inl e ↦ rw e (omega arith, omega arith, ground arith, λ j a b. absurd (omega arith))
  | inr e ↦
      rw e (later (find_name n (i + 1) name mq) (find_name-Found n (i + 1) name mq) (ground arith))
]
  where
    first :
        (j : ℕ)
        → (mq i).qname ≢ name
        → ((i + 1 ≤ j) → (mq j).qname ≢ name)
        → i ≤ j
        → (mq j).qname ≢ name
    first j ne next le = elim (Bool-cases (i == j)) [
      | inl e ↦ ground arith
      | inr e ↦ next (ground arith)
    ]

    later :
        (o : Option ℕ) → Found (i + 1) n name mq o → (mq i).qname ≢ name → Found i (suc n) name mq o
    later none f ne = λ j a b. first j ne (λ c. f j c (omega arith)) a
    later (some k) f ne = (omega arith, omega arith, f.2, λ j a b. first j ne (λ c. f.3 j c b) a)

Found-unique :
    (i n name : ℕ) (mq : Channels) (o o' : Option ℕ)
    → Found i n name mq o
    → Found i n name mq o'
    → o ≡ o'
Found-unique i n name mq none none f g = refl
Found-unique i n name mq none (some k) f g = absurd (f k g.0 g.1 g.2)
Found-unique i n name mq (some k) none f g = absurd (g k f.0 f.1 f.2)
Found-unique i n name mq (some k) (some j) f g = elim (order k j) [
  | inl e ↦ ground arith
  | inr (inl lt) ↦ absurd (g.3 k f.0 lt f.2)
  | inr (inr lt) ↦ absurd (f.3 j g.0 lt g.2)
]
  where
    order : (a b : ℕ) → (a ≡ b) ⊎ ((a < b) ⊎ (b < a))
    order a b = ground arith

-- A channel that mq_open has taken for a name: nothing is held, nobody waits, and no pid is noted.
pub record IsOpened (name : ℕ) (before c : Channel) : Type 0 where
  pub qname : c.qname ≡ name
  pub qnum : c.qnum ≡ 0
  pub qrec : c.qrec ≡ 0
  pub lspid : c.lspid ≡ 0
  pub lrpid : c.lrpid ≡ 0
  pub qbuf : c.qbuf ≡ before.qbuf

-- What mq_open does, on its three branches: the first channel that has the name already, or else
-- the first that is free, cleared and named, or else -1.
pub data Opens (name : ℕ) (mq : Channels) (r : ℕ × Channels) : Type 0 where
  old : (k : ℕ) → Found 0 msgchan_limit name mq (some k) → r ≡ (k, mq) → Opens name mq r
  new :
      (k : ℕ) (c : Channel)
      → Found 0 msgchan_limit name mq none
      → Found 0 msgchan_limit 0 mq (some k)
      → IsOpened name (mq k) c
      → r ≡ (k, update mq k c)
      → Opens name mq r
  full :
      Found 0 msgchan_limit name mq none
      → Found 0 msgchan_limit 0 mq none
      → r ≡ (neg1, mq)
      → Opens name mq r

-- mq_open gives the first channel that has the name and changes nothing; without one it gives the
-- first channel whose name is 0, with the name and its numbers cleared; without either it returns
-- -1 and changes nothing.
pub mq_open-Opens : (name : ℕ) (mq : Channels) → Opens name mq (mq_open name mq)
unfolding mq_open
mq_open-Opens name mq =
    by_name (find_name msgchan_limit 0 name mq) (find_name-Found msgchan_limit 0 name mq)
  where
    by_free :
        (o : Option ℕ)
        → Found 0 msgchan_limit name mq none
        → Found 0 msgchan_limit 0 mq o
        → Opens name mq (open_new o name mq)
    by_free none f g = full f g refl
    by_free (some k) f g =
        new k (opened name (mq k)) f g
          (record {
            qname = refl;
            qnum = refl;
            qrec = refl;
            lspid = refl;
            lrpid = refl;
            qbuf = refl;
          })
          refl

    by_name :
        (o : Option ℕ) → Found 0 msgchan_limit name mq o → Opens name mq (open_found o name mq)
    by_name none f =
        by_free (find_name msgchan_limit 0 0 mq) f (find_name-Found msgchan_limit 0 0 mq)
    by_name (some k) f = old k f refl

open_old :
    (name k : ℕ) (mq : Channels)
    → Found 0 msgchan_limit name mq (some k)
    → mq_open name mq ≡ (k, mq)
unfolding mq_open
open_old name k mq f =
    rw (Found-unique 0 msgchan_limit name mq _ (some k) (find_name-Found msgchan_limit 0 name mq) f)

-- Opening a name again gives the same descriptor, or -1 again, and changes no channel.
pub mq_open-mq_open :
    (name : ℕ) (mq : Channels) → mq_open name (mq_open name mq).1 ≡ mq_open name mq
mq_open-mq_open name mq = again (mq_open-Opens name mq)
  where
    again : Opens name mq (mq_open name mq) → mq_open name (mq_open name mq).1 ≡ mq_open name mq
    again (old k f e) = ap (λ r. mq_open name r.1) e
    again (full f g e) = ap (λ r. mq_open name r.1) e
    again (new k c f g o e) =
        ap (λ r. mq_open name r.1) e
        ∙ open_old name k (update mq k c) (
          g.0,
          g.1,
          ground (arith, o.qname),
          λ j a b. let ne : j ≢ k = omega arith in ground (arith, f j a (omega arith)),
        )
        ∙ sym e

-- Where mq_open gives a descriptor, the channel there has the name.
pub mq_open-qname :
    (name : ℕ) (mq : Channels)
    → (mq_open name mq).0 < msgchan_limit
    → ((mq_open name mq).1 (mq_open name mq).0).qname ≡ name
mq_open-qname name mq = of_opens (mq_open-Opens name mq)
  where
    of_opens : {r : ℕ × Channels} → Opens name mq r → r.0 < msgchan_limit → (r.1 r.0).qname ≡ name
    of_opens (old k f e) lt = rw e f.2
    of_opens (new k c f g o e) lt = rw e (ground (arith, o.qname))
    of_opens (full f g e) lt = absurd (impossible e lt)
      where
        impossible : {r : ℕ × Channels} → r ≡ (neg1, mq) → r.0 < msgchan_limit → ⊥
        impossible e lt = omega (arith, ap (λ p. p.0) e)

-- Two names, the first of them not 0, never share a channel.
pub mq_open-separate :
    (a b : ℕ) (mq : Channels)
    → a ≢ b
    → a ≢ 0
    → (mq_open a mq).0 < msgchan_limit
    → (mq_open b (mq_open a mq).1).0 ≢ (mq_open a mq).0
mq_open-separate a b mq ne nz lt =
    apart (mq_open a mq).1 (mq_open a mq).0 lt (mq_open-qname a mq lt)
  where
    apart : (m : Channels) (d : ℕ) → d < msgchan_limit → (m d).qname ≡ a → (mq_open b m).0 ≢ d
    apart m d lt e = of_opens (mq_open-Opens b m)
      where
        of_opens : {r : ℕ × Channels} → Opens b m r → r.0 ≢ d
        of_opens (old k f eq) = λ s. ground (arith, f.2)
        of_opens (new k c f g o eq) = λ s. ground (arith, g.2)
        of_opens (full f g eq) = λ s. ground arith
