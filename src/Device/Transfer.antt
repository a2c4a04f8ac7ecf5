-- ===== src/Device/Transfer.antt =====
-- What the loops of device/PL011.c and device/disk.c do to the line: they send upper-case digits,
-- and they read the digits that hexlify writes.
use mathlib.Core.List.{append_assoc, append-nil}
use arm_kernel.Base.{
  ℕ, zero, suc, ◌+◌, ◌-◌, ◌/◌, ◌%◌, ◌<◌, ◌≡◌, refl, ◌∙◌, ap, sym, arith, true, ◌==◌, ◌&&◌, List, [],
  ◌∷◌, ◌++◌, All, if◌then◌else◌, ok, ltb, leb, update, ne→==, ==→eq, ==→ne, Bool-cases, inl, inr,
  ◌>>=◌,
}
use arm_kernel.Base.Masks.{bit_and_byte}
use arm_kernel.Fs.Disk.{Block}
use arm_kernel.Device.{hexlify, lower_digit}
use arm_kernel.Device.Peer.{Image, Peer, slice, nth, pack}
use arm_kernel.Device.Uart.{putc, puth, geth}
use arm_kernel.Device.Hex.{high, low, upper_text, upper-IsPlain, joined_lower, IsByte, IsPlain}
use arm_kernel.Device.Protocol.{addr_puth, data_puth_from, data_geth_from}

-- A process that runs.
abbrev pub talking : Image → List ℕ → List ℕ → Peer
talking f s o = record { image = f; line = s; out = o; up = true }

pub putc-talking :
    (c : ℕ) (f : Image) (s o : List ℕ)
    → IsPlain c
    → putc c (talking f s o) ≡ talking f (s ++ (c ∷ [])) o
unfolding putc
putc-talking c f s o h = rw (ne→== c 10 (ground arith)) refl

pub puth-talking :
    (x : ℕ) (f : Image) (s o : List ℕ)
    → IsByte x
    → puth x (talking f s o) ≡ talking f (s ++ (high x ∷ low x ∷ [])) o
unfolding puth
puth-talking x f s o lt =
    let (a, b) = upper-IsPlain x lt in
    ap (putc (low x)) (putc-talking (high x) f s o a)
    ∙ putc-talking (low x) f (s ++ (high x ∷ [])) o b
    ∙ ap (λ t. talking f t o) (append_assoc s (high x ∷ []) (low x ∷ []))

pub data_puth-talking :
    (n i : ℕ) (x : Block) (f : Image) (s o : List ℕ)
    → All IsByte (slice x i n)
    → data_puth_from n i x (talking f s o) ≡ talking f (s ++ upper_text (slice x i n)) o
unfolding data_puth_from slice
data_puth-talking zero i x f s o h = ap (λ t. talking f t o) (sym (append-nil s))
data_puth-talking (suc n) i x f s o h =
    ap (data_puth_from n (i + 1) x) (puth-talking (x i) f s o h.0)
    ∙ data_puth-talking n (i + 1) x f (s ++ (high (x i) ∷ low (x i) ∷ [])) o h.1
    ∙ ap (λ t. talking f t o)
        (append_assoc s (high (x i) ∷ low (x i) ∷ []) (upper_text (slice x (i + 1) n)))

pub addr_puth-talking :
    (x : ℕ) (f : Image) (s o : List ℕ)
    → addr_puth x (talking f s o) ≡ talking f (s ++ upper_text (pack x)) o
unfolding addr_puth data_puth_from slice nth
addr_puth-talking x f s o =
    rw
      (
        bit_and_byte x,
        bit_and_byte (x / 256),
        bit_and_byte (x / 65536),
        bit_and_byte (x / 16777216),
      )
      (data_puth-talking 4 0 (nth (pack x)) f s o
        (omega arith, (omega arith, (omega arith, (omega arith, tt)))))

pub geth-talking :
    (x : ℕ) (f : Image) (s o : List ℕ)
    → IsByte x
    → geth (talking f s (lower_digit (x / 16) ∷ lower_digit (x % 16) ∷ o)) ≡ ok (x, talking f s o)
unfolding geth
geth-talking x f s o lt = rw (joined_lower x lt) refl

-- The bytes that were written stand in the buffer, and the rest of it is as before.
abbrev pub filled : Block → Block → (i j n k : ℕ) → ℕ
filled g x i j n k = if leb i k && ltb k (i + n) then g (j + (k - i)) else x k

filled-suc :
    (g x : Block) (i j n k : ℕ)
    → filled g (update x i (g j)) (i + 1) (j + 1) n k ≡ filled g x i j (suc n) k
filled-suc g x i j n k = elim (Bool-cases (i == k)) [
  | inl same ↦
      let eq : i ≡ k = ==→eq i k same in
      let here : j + (k - i) ≡ j = omega arith in rw here (ground arith)
  | inr other ↦ elim (Bool-cases (leb i k)) [
    | inl le ↦
        let ne = ==→ne i k other in
        let lt : i < k = ground arith in
        let next : j + 1 + (k - (i + 1)) ≡ j + (k - i) = omega arith in
        rw (next, other) (ground arith)
    | inr gt ↦ rw (other, gt) (ground arith)
  ]
]

pub data_geth-talking :
    (n i j : ℕ) (g x : Block) (f : Image) (s o : List ℕ)
    → All IsByte (slice g j n)
    → (x' : Block) × (data_geth_from n i x (talking f s (hexlify (slice g j n) ++ o))
        ≡ ok (x', talking f s o))
      × ((k : ℕ) → x' k ≡ filled g x i j n k)
unfolding data_geth_from slice hexlify
data_geth-talking zero i j g x f s o h = (x, refl, λ k. ground arith)
data_geth-talking (suc n) i j g x f s o h =
    let (x', e, c) = data_geth-talking n (i + 1) (j + 1) g (update x i (g j)) f s o h.1 in
    (
      x',
      ap (λ r. r >>= λ q. data_geth_from n (i + 1) (update x i q.0) q.1)
            (geth-talking (g j) f s (hexlify (slice g (j + 1) n) ++ o) h.0)
          ∙ e,
      λ k. c k ∙ filled-suc g x i j n k,
    )
