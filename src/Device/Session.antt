-- ===== src/Device/Session.antt =====
-- Sequences of requests over the line of device/disk.c, against the store of blocks.
use arm_kernel.Base.{ℕ, ◌<◌, ◌≤◌, ◌≡◌, refl, ap, ◌∙◌, List, [], ◌∷◌, All, Run, ok, ◌>>=◌}
use arm_kernel.Fs.Disk
use arm_kernel.Fs.Disk.{Block, Disk}
use arm_kernel.Device.Peer.{Image, Peer, block_num, block_len}
use arm_kernel.Device.Protocol.{disk_wr, disk_rd, disk_get_block_num, disk_get_block_len}
use arm_kernel.Device.Refine.{idle, IsImage, disk_wr-disk_wr, disk_rd-disk_rd}

-- A write of `n` bytes, or a read of a block into a buffer.
pub data Request : Type 0 where
  write : (a : ℕ) → (x : Block) → (n : ℕ) → Request
  read : (a : ℕ) → (x : Block) → Request

-- Of a block on the disk, at most one block, of bytes.
abbrev pub IsRequest : Request → Type 0
IsRequest (write a x n) =
    (a < block_num) × (0 < n) × (n ≤ block_len) × ((j : ℕ) → j < n → x j < 256)
IsRequest (read a x) = a < block_num

-- The buffers that the reads fill, in order, and the state at the end.
unfoldable pub on_line : List Request → Peer → Run (List Block × Peer)
on_line [] p = ok ([], p)
on_line (write a x n ∷ rs) p = do p1 ← disk_wr a x n p; on_line rs p1
on_line (read a x ∷ rs) p = do
  (x', p1) ← disk_rd a x block_len p
  (bs, p2) ← on_line rs p1
  ok (x' ∷ bs, p2)

unfoldable pub on_store : List Request → Disk → List Block × Disk
on_store [] d = ([], d)
on_store (write a x n ∷ rs) d = on_store rs (Disk.disk_wr a x n d)
on_store (read a x ∷ rs) d = let (bs, d') = on_store rs d in (Disk.disk_rd a x block_len d ∷ bs, d')

-- Every sequence of requests ends; its reads give what they give on the store, and the file is one
-- of the store at the end.
pub on_line-on_store :
    (rs : List Request) (f : Image) (d : Disk)
    → IsImage f d
    → All IsRequest rs
    → (f' : Image) × (on_line rs (idle f) ≡ ok ((on_store rs d).0, idle f'))
      × IsImage f' (on_store rs d).1
unfolding on_line on_store
on_line-on_store [] f d i h = (f, refl, i)
on_line-on_store (write a x n ∷ rs) f d i h =
    let ((la, pos, ln, bytes), more) = h in
    let (f1, wrote, i1) = disk_wr-disk_wr a n x f d i la pos ln bytes in
    let (f', e, i') = on_line-on_store rs f1 (Disk.disk_wr a x n d) i1 more in
    (f', ap (λ r. r >>= on_line rs) wrote ∙ e, i')
on_line-on_store (read a x ∷ rs) f d i h =
    let (f', e, i') = on_line-on_store rs f d i h.1 in
    (f', rw (disk_rd-disk_rd a x f d i h.0) (rw e refl), i')

-- The queries give the number and the length of blocks that disk.py was started with.
pub disk_get_block_num-block_len :
    (x : Block) (f : Image)
    → (disk_get_block_num x (idle f) ≡ ok (block_num, idle f))
      × (disk_get_block_len x (idle f) ≡ ok (block_len, idle f))
unfolding disk_get_block_num disk_get_block_len
disk_get_block_num-block_len x f = (refl, refl)
