-- ===== src/Device/Requests.antt =====
-- The lines that disk_wr and disk_rd of device/disk.c send, and how device/disk.py reads them.
use arm_kernel.Base.{
  ℕ, zero, suc, ◌/◌, ◌%◌, ◌^◌, ◌<◌, ◌≡◌, refl, ◌∙◌, ap, arith, List, [], ◌∷◌, ◌++◌, All, some,
}
use arm_kernel.Fs.Disk.{Block}
use arm_kernel.Device.{codes, space, unhexlify}
use arm_kernel.Device.Peer.{
  Image, slice, pack, unpack, lstrip, rstrip, split_words, wr, wr_at, rd, rd_at, handle, answer,
  respond,
}
use arm_kernel.Device.Uart.{putc, puth}
use arm_kernel.Device.Hex.{
  high, low, upper_text, upper_text-IsPlain, unhexlify-upper_text, IsByte, IsPlain,
}
use arm_kernel.Device.Lines.{
  lstrip-plain, rstrip-append, rstrip-plain, split_words-plain, split_words-append,
}
use arm_kernel.Device.Transfer.{talking, addr_puth-talking, data_puth-talking}
use arm_kernel.Device.Protocol.{wr_request, rd_request, data_puth}

unpack-pack : (a : ℕ) → a < 2 ^ 32 → unpack (pack a) ≡ some a
unfolding unpack
unpack-pack a lt = ap some (omega arith)

pack-IsByte : (a : ℕ) → All IsByte (pack a)
pack-IsByte a = (omega arith, (omega arith, (omega arith, (omega arith, tt))))

abbrev addr_text : ℕ → List ℕ
addr_text a = upper_text (pack a)

abbrev pub wr_line : ℕ → List ℕ → List ℕ
wr_line a xs = codes "01 " ++ (addr_text a ++ (space ∷ upper_text xs))

abbrev pub rd_line : ℕ → List ℕ
rd_line a = codes "02 " ++ addr_text a

wr_request-sent :
    (a n : ℕ) (x : Block) (f : Image) (o : List ℕ)
    → All IsByte (slice x 0 n)
    → wr_request a x n (talking f [] o) ≡ respond (talking f (wr_line a (slice x 0 n)) o)
unfolding wr_request data_puth putc puth
wr_request-sent a n x f o h =
    ap (λ p. putc 10 (data_puth x n (putc space p))) (addr_puth-talking a f (codes "01 ") o)
    ∙ ap (putc 10) (data_puth-talking n 0 x f (codes "01 " ++ (addr_text a ++ (space ∷ []))) o h)

rd_request-sent :
    (a : ℕ) (f : Image) (o : List ℕ)
    → rd_request a (talking f [] o) ≡ respond (talking f (rd_line a) o)
unfolding rd_request putc puth
rd_request-sent a f o = ap (putc 10) (addr_puth-talking a f (codes "02 ") o)

wr_line-words :
    (a y : ℕ) (ys : List ℕ)
    → All IsByte (y ∷ ys)
    → split_words (lstrip (rstrip (wr_line a (y ∷ ys))))
      ≡ codes "01" ∷ addr_text a ∷ upper_text (y ∷ ys) ∷ []
wr_line-words a y ys h =
    ap (λ s. split_words (lstrip s))
      (rstrip-append (codes "01 " ++ (addr_text a ++ (space ∷ []))) (high y) (low y ∷ upper_text ys)
        (rstrip-plain (upper_text (y ∷ ys)) plain))
    ∙ ap split_words
        (lstrip-plain b'0' (b'1' ∷ space ∷ (addr_text a ++ (space ∷ upper_text (y ∷ ys)))) refl)
    ∙ split_words-append (codes "01") (addr_text a ++ (space ∷ upper_text (y ∷ ys)))
        (refl, (refl, tt))
    ∙ ap (λ ws. codes "01" ∷ ws)
        (split_words-append (addr_text a) (upper_text (y ∷ ys))
            (upper_text-IsPlain (pack a) (pack-IsByte a))
          ∙ ap (λ ws. addr_text a ∷ ws) (split_words-plain (upper_text (y ∷ ys)) plain))
  where
    plain : All IsPlain (upper_text (y ∷ ys))
    plain = upper_text-IsPlain (y ∷ ys) h

rd_line-words : (a : ℕ) → split_words (lstrip (rstrip (rd_line a))) ≡ codes "02" ∷ addr_text a ∷ []
rd_line-words a =
    ap (λ s. split_words (lstrip s))
      (rstrip-append (codes "02 ") (high (a % 256))
        (low (a % 256) ∷ upper_text (a / 256 % 256 ∷ a / 65536 % 256 ∷ a / 16777216 % 256 ∷ []))
        (rstrip-plain (addr_text a) plain))
    ∙ ap split_words (lstrip-plain b'0' (b'2' ∷ space ∷ addr_text a) refl)
    ∙ split_words-append (codes "02") (addr_text a) (refl, (refl, tt))
    ∙ ap (λ ws. codes "02" ∷ ws) (split_words-plain (addr_text a) plain)
  where
    plain : All IsPlain (addr_text a)
    plain = upper_text-IsPlain (pack a) (pack-IsByte a)

respond-talking :
    (ws : List (List ℕ)) (f : Image) (s o : List ℕ)
    → split_words (lstrip (rstrip s)) ≡ ws
    → respond (talking f s o) ≡ answer (handle ws f) (talking f s o)
unfolding respond
respond-talking ws f s o e = ap (λ v. answer (handle v f) (talking f s o)) e

handle-wr :
    (text word raw xs : List ℕ) (a : ℕ) (f : Image)
    → unhexlify text ≡ some raw
    → unpack raw ≡ some a
    → unhexlify word ≡ some xs
    → handle (codes "01" ∷ text ∷ word ∷ []) f ≡ wr_at a xs f
unfolding handle wr
handle-wr text word raw xs a f e u v = rw e (rw (u, v) refl)

handle-rd :
    (text raw : List ℕ) (a : ℕ) (f : Image)
    → unhexlify text ≡ some raw
    → unpack raw ≡ some a
    → handle (codes "02" ∷ text ∷ []) f ≡ rd_at a f
unfolding handle rd
handle-rd text raw a f e u = rw e (rw u refl)

-- A write reaches the handler with its address and its bytes.
pub wr_request-handled :
    (a n : ℕ) (x : Block) (f : Image) (o : List ℕ)
    → a < 2 ^ 32
    → 0 < n
    → All IsByte (slice x 0 n)
    → wr_request a x n (talking f [] o)
      ≡ answer (wr_at a (slice x 0 n) f) (talking f (wr_line a (slice x 0 n)) o)
unfolding slice
wr_request-handled a zero x f o la ln h = absurd (omega arith)
wr_request-handled a (suc n) x f o la ln h =
    wr_request-sent a (suc n) x f o h
    ∙ respond-talking _ f (wr_line a (slice x 0 (suc n))) o (wr_line-words a (x 0) (slice x 1 n) h)
    ∙ ap (λ r. answer r (talking f (wr_line a (slice x 0 (suc n))) o))
        (handle-wr (addr_text a) (upper_text (slice x 0 (suc n))) (pack a) (slice x 0 (suc n)) a f
          (unhexlify-upper_text (pack a) (pack-IsByte a)) (unpack-pack a la)
          (unhexlify-upper_text (slice x 0 (suc n)) h))

pub rd_request-handled :
    (a : ℕ) (f : Image) (o : List ℕ)
    → a < 2 ^ 32
    → rd_request a (talking f [] o) ≡ answer (rd_at a f) (talking f (rd_line a) o)
rd_request-handled a f o la =
    rd_request-sent a f o
    ∙ respond-talking _ f (rd_line a) o (rd_line-words a)
    ∙ ap (λ r. answer r (talking f (rd_line a) o))
        (handle-rd (addr_text a) (pack a) a f (unhexlify-upper_text (pack a) (pack-IsByte a))
          (unpack-pack a la))
