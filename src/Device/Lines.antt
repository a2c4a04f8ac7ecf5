-- ===== src/Device/Lines.antt =====
-- str.strip and str.split on the lines that disk.c sends.
use arm_kernel.Base.{ℕ, ◌≡◌, refl, ap, arith, false, ◌==◌, List, [], ◌∷◌, ◌++◌, All}
use arm_kernel.Device.{space}
use arm_kernel.Device.Peer.{is_white, lstrip, rstrip, push_back, split_words}
use arm_kernel.Device.Hex.{IsPlain}

plain_black : (c : ℕ) → IsPlain c → is_white c ≡ false
plain_black c h = ground arith

plain_whole : (c : ℕ) → IsPlain c → (c == space) ≡ false
plain_whole c h = ground arith

-- A plain character at the front stays there.
pub lstrip-plain : (c : ℕ) (s : List ℕ) → IsPlain c → lstrip (c ∷ s) ≡ c ∷ s
unfolding lstrip
lstrip-plain c s h = rw (plain_black c h) refl

-- A text that rstrip keeps is kept behind any other text, if it is not empty.
pub rstrip-append :
    (xs : List ℕ) (d : ℕ) (ys : List ℕ)
    → rstrip (d ∷ ys) ≡ d ∷ ys
    → rstrip (xs ++ (d ∷ ys)) ≡ xs ++ (d ∷ ys)
unfolding rstrip
rstrip-append [] d ys h = h
rstrip-append (x ∷ []) d ys h = ap (push_back x) h
rstrip-append (x ∷ y ∷ xs) d ys h = ap (push_back x) (rstrip-append (y ∷ xs) d ys h)

pub rstrip-plain : (xs : List ℕ) → All IsPlain xs → rstrip xs ≡ xs
unfolding rstrip
rstrip-plain [] h = refl
rstrip-plain (x ∷ []) h = rw (plain_black x h.0) refl
rstrip-plain (x ∷ y ∷ xs) h = ap (push_back x) (rstrip-plain (y ∷ xs) h.1)

-- A word of plain characters at the end of a line, and one before a space.
pub split_words-plain : (xs : List ℕ) → All IsPlain xs → split_words xs ≡ xs ∷ []
unfolding split_words
split_words-plain [] h = refl
split_words-plain (x ∷ xs) h = rw (plain_whole x h.0, split_words-plain xs h.1) refl

pub split_words-append :
    (xs s : List ℕ) → All IsPlain xs → split_words (xs ++ (space ∷ s)) ≡ xs ∷ split_words s
unfolding split_words
split_words-append [] s h = refl
split_words-append (x ∷ xs) s h = rw (plain_whole x h.0, split_words-append xs s h.1) refl
