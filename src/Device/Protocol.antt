-- ===== src/Device/Protocol.antt =====
-- device/disk.c: requests to the disk, and their acknowledgements.
use Prim.Native.Nat.{bit_and, bit_or}
use arm_kernel.Base.{ℕ, zero, suc, ◌+◌, ◌*◌, ◌/◌, ◌==◌, if◌then◌else◌, update, Run, ok, ◌>>=◌}
use arm_kernel.Base.Words.{neg1}
use arm_kernel.Fs.Disk.{Block}
use arm_kernel.Device.{newline, space}
use arm_kernel.Device.Peer.{Peer}
use arm_kernel.Device.Uart.{putc, getc, puth, geth}

-- RETRY.
abbrev pub retry : ℕ
retry = 3

unfoldable pub addr_puth : ℕ → Peer → Peer
unfolding puth
addr_puth x p =
    puth (bit_and (x / 16777216) 0xFF)
      (puth (bit_and (x / 65536) 0xFF) (puth (bit_and (x / 256) 0xFF) (puth (bit_and x 0xFF) p)))

-- The loop, from byte `i` on.
unfoldable pub data_puth_from : (rounds i : ℕ) → Block → Peer → Peer
unfolding puth
data_puth_from zero i x p = p
data_puth_from (suc rounds) i x p = data_puth_from rounds (i + 1) x (puth (x i) p)

unfoldable pub data_puth : Block → ℕ → Peer → Peer
unfolding data_puth_from
data_puth x n p = data_puth_from n 0 x p

unfoldable pub data_geth_from : (rounds i : ℕ) → Block → Peer → Run (Block × Peer)
unfolding geth
data_geth_from zero i x p = ok (x, p)
data_geth_from (suc rounds) i x p = do
  (v, p1) ← geth p
  data_geth_from rounds (i + 1) (update x i v) p1

unfoldable pub data_geth : Block → ℕ → Peer → Run (Block × Peer)
unfolding data_geth_from
data_geth x n p = data_geth_from n 0 x p

-- What disk_wr sends in each of its tries.
unfoldable pub wr_request : ℕ → Block → ℕ → Peer → Peer
unfolding puth putc addr_puth data_puth
wr_request a x n p =
    putc newline (data_puth x n (putc space (addr_puth a (putc space (puth 0x01 p)))))

unfoldable pub wr_tries : (tries : ℕ) → ℕ → Block → ℕ → Peer → Run Peer
unfolding wr_request geth getc
wr_tries zero a x n p = ok p
wr_tries (suc tries) a x n p = do
  (status, p1) ← geth (wr_request a x n p)
  (eol, p2) ← getc p1
  let rest = wr_tries tries a x n p2
  if status == 0 then ok p2 else rest

unfoldable pub disk_wr : ℕ → Block → ℕ → Peer → Run Peer
unfolding wr_tries
disk_wr a x n p = wr_tries retry a x n p

unfoldable pub rd_request : ℕ → Peer → Peer
unfolding puth putc addr_puth
rd_request a p = putc newline (addr_puth a (putc space (puth 0x02 p)))

-- The data of an acknowledgement and the end of its line.
unfoldable pub read_data : Block → ℕ → Peer → Run (Block × Peer)
unfolding data_geth getc
read_data x n p = do (x', p1) ← data_geth x n p; (eol, p2) ← getc p1; ok (x', p2)

unfoldable pub rd_tries : (tries : ℕ) → ℕ → Block → ℕ → Peer → Run (Block × Peer)
unfolding rd_request geth getc read_data
rd_tries zero a x n p = ok (x, p)
rd_tries (suc tries) a x n p = do
  (status, p1) ← geth (rd_request a p)
  (next, p2) ← getc p1
  let rest = rd_tries tries a x n p2
  if status == 0 then read_data x n p2 else rest

unfoldable pub disk_rd : ℕ → Block → ℕ → Peer → Run (Block × Peer)
unfolding rd_tries
disk_rd a x n p = rd_tries retry a x n p

-- The eight bytes of the answer to a query, and the word in four of them from place `at` on.
unfoldable pub conf_request : Peer → Peer
unfolding puth putc
conf_request p = putc newline (puth 0x00 p)

abbrev pub word_at : ℕ → Block → ℕ
word_at at x =
    bit_or (bit_or (bit_or (x at) (x (at + 1) * 256)) (x (at + 2) * 65536)) (x (at + 3) * 16777216)

unfoldable pub read_conf : ℕ → Block → Peer → Run (ℕ × Peer)
unfolding read_data
read_conf at x p = do (x', p') ← read_data x 8 p; ok (word_at at x', p')

unfoldable pub conf_tries : (tries at : ℕ) → Block → Peer → Run (ℕ × Peer)
unfolding conf_request geth getc read_conf
conf_tries zero at x p = ok (neg1, p)
conf_tries (suc tries) at x p = do
  (status, p1) ← geth (conf_request p)
  (next, p2) ← getc p1
  let rest = conf_tries tries at x p2
  if status == 0 then read_conf at x p2 else rest

-- The buffer starts with bytes `x` that the code does not set.
unfoldable pub disk_get_block_num : Block → Peer → Run (ℕ × Peer)
unfolding conf_tries
disk_get_block_num x p = conf_tries retry 0 x p

unfoldable pub disk_get_block_len : Block → Peer → Run (ℕ × Peer)
unfolding conf_tries
disk_get_block_len x p = conf_tries retry 4 x p
