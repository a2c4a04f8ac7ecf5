-- ===== src/Device/Uart.antt =====
-- device/PL011.c over the line: a character that is sent reaches the process at its end, and a
-- character that is read is the next one that the process sent. The loops that wait for room in a
-- FIFO end at once; the loop that waits for a character has no end when none comes.
use Prim.Native.Nat.{bit_and, bit_or}
use arm_kernel.Base.{
  ℕ, ◌*◌, ◌/◌, ◌%◌, ◌==◌, if◌then◌else◌, [], ◌∷◌, ◌++◌, Run, ok, out_of_fuel, ◌>>=◌,
}
use arm_kernel.Device.{newline, xtoi, itox}
use arm_kernel.Device.Peer.{Peer, respond}

unfoldable pub putc : ℕ → Peer → Peer
unfolding respond
putc x p =
    if p.up then if x == newline then respond p else record p { line = p.line ++ (x ∷ []) } else p

unfoldable pub getc : Peer → Run (ℕ × Peer)
getc p = elim p.out [ [] ↦ out_of_fuel | x ∷ xs ↦ ok (x, record p { out = xs }) ]

unfoldable pub puth : ℕ → Peer → Peer
unfolding itox putc
puth x p = putc (itox (bit_and x 0xF)) (putc (itox (bit_and (x / 16) 0xF)) p)

-- The value that two characters give, as a `uint8_t`.
unfoldable pub joined : ℕ → ℕ → ℕ
unfolding xtoi
joined h l = bit_or (xtoi h * 16 % 256) (xtoi l) % 256

unfoldable pub geth : Peer → Run (ℕ × Peer)
unfolding joined getc
geth p = do (h, p1) ← getc p; (l, p2) ← getc p1; ok (joined h l, p2)
