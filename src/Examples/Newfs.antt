-- ===== src/Examples/Newfs.antt =====
-- An example of newfs and mount.
use cs.Prelude.{ℕ, ◌*◌, ◌^◌, ◌≡◌, refl, true, some, arith, ltb}
use cs.Prelude.Run.{ok}
use cs.Device.{File, BlockDevice, missing, regular, open_create}
use cs.BitSet.{BitSet, get_blocks_in_block_map}
use cs.BitSet.Bits.{bit}
use cs.Volume.{newfs, mount, prealloc_blocks}
use cs.Volume.Mounting.{mounted}
use cs.Volume.Making.{composed, device_of, mount-newfs}

abbrev created : File
created = record { size = 0; byte = λ j. 0; limit = 2 ^ 20; closes = true }

creates : open_create (missing (2 ^ 20)) ≡ some created
unfolding open_create
creates = refl

-- Sixteen inodes on 64 blocks of 128 bytes.
mount-newfs_example :
    (bd : BlockDevice) × (map : BitSet) × (newfs (missing (2 ^ 20)) 128 64 16
      ≡ ok (true, regular bd.device_handle))
    × (bd.block_count ≡ 64)
    × (bd.bytes_per_block ≡ 128)
    × (bd.device_handle.size ≡ 64 * 128)
    × (mount (regular bd.device_handle)
        ≡ ok (mounted (composed (device_of created 128 64) 14 map) bd))
    × ((j : ℕ) → bit map j ≡ ltb j (prealloc_blocks (device_of created 128 64) 16))
unfolding prealloc_blocks get_blocks_in_block_map
mount-newfs_example =
    mount-newfs (missing (2 ^ 20)) created 128 64 14 creates (omega arith) (omega arith)
      (omega arith) (omega arith) (omega arith) refl (omega arith)
