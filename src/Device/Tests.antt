-- ===== src/Device/Tests.antt =====
-- The line to the disk at concrete inputs: a disk of bytes 7, and block 5.
use arm_kernel.Base.{◌≡◌, refl, ◌*◌, ◌^◌, List, [], ◌∷◌, true, ok, out_of_fuel, arith}
use arm_kernel.Fs.Disk.{Block, Disk}
use arm_kernel.Device.Peer.{Image, respond}
use arm_kernel.Device.Protocol.{disk_wr, disk_rd}
use arm_kernel.Device.Refine.{idle, IsImage, disk_wr_outside, disk_negative}
use arm_kernel.Device.Session.{Request, write, read, on_line, on_store, on_line-on_store}

abbrev image : Image
image = record { size = 2048 * 512; bytes = λ j. 7 }

abbrev sevens : Disk
sevens a j = 7

image-IsImage : IsImage image sevens
image-IsImage = record {
  sized = refl;
  content = λ a j la lj. refl;
  in_bytes = λ a j lj. omega arith;
}

abbrev ones : Block
ones j = 1

unknown_command :
    respond (record { image = image; line = b'9' ∷ []; out = []; up = true })
    ≡ record { image = image; line = []; out = b'0' ∷ b'1' ∷ 10 ∷ []; up = true }
unfolding respond
unknown_command = refl

disk_wr_outside_example : disk_wr 3000 ones 4 (idle image) ≡ ok (idle image)
disk_wr_outside_example =
    disk_wr_outside 3000 4 ones image (omega arith) (omega arith) (omega arith)
      (λ j lt. omega arith)

disk_negative_example :
    (disk_wr (2 ^ 31) ones 4 (idle image) ≡ out_of_fuel)
    × (disk_rd (2 ^ 31) ones 4 (idle image) ≡ out_of_fuel)
disk_negative_example =
    disk_negative (2 ^ 31) 4 ones image (omega arith) (omega arith) (omega arith)
      (λ j lt. omega arith)

abbrev requests : List Request
requests = read 5 ones ∷ write 5 ones 4 ∷ read 5 (λ j. 0) ∷ []

on_line-on_store_example :
    (f' : Image) × (on_line requests (idle image) ≡ ok ((on_store requests sevens).0, idle f'))
    × IsImage f' (on_store requests sevens).1
on_line-on_store_example =
    on_line-on_store requests image sevens image-IsImage (
      omega arith,
      ((omega arith, omega arith, omega arith, λ j lt. omega arith), (omega arith, tt)),
    )
