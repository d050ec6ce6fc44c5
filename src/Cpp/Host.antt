-- ===== src/Cpp/Host.antt =====
-- my_Blocks_c++/block_device.cc: the constructor of BlockDevice, on a file of the host. A handle that
-- is not open is a file that holds nothing and takes nothing: reads and writes through it fail, and
-- the source goes on.
pub mod Constructed
use cs.Prelude.{ℕ, Option, none, some, false, pos, mul_int}
use cs.Device.{File, Entry, missing, regular, denied, BlockDevice, open_create, ftruncate}

-- What -1 stands for, as a handle.
abbrev pub no_file : File
no_file = record { size = 0; byte = λ j. 0; limit = 0; closes = false }

abbrev pub device_on : File → ℕ → ℕ → BlockDevice
device_on f block_size block_count = record {
  device_handle = f;
  block_count = block_count;
  bytes_per_block = block_size;
}

-- `BlockDevice::BlockDevice`: the device, and what the host has under the name then.
unfoldable pub construct_device : Entry → ℕ → ℕ → BlockDevice × Entry
unfolding open_create ftruncate
construct_device e block_size block_count = elim (open_create e) [
  | none ↦ (device_on no_file block_size block_count, e)
  | some f ↦ elim (ftruncate f (mul_int (pos block_size) block_count)) [
    | none ↦ (device_on f block_size block_count, regular f)
    | some g ↦ (device_on g block_size block_count, regular g)
  ]
]

-- `remove`, which leaves the room of the file to a new one.
unfoldable pub remove : Entry → Entry
remove (missing room) = missing room
remove (regular f) = missing f.limit
remove denied = denied

-- What the host has under the name of a device that has been written and closed.
unfoldable pub closed : Entry → BlockDevice → Entry
closed (missing room) bd = missing room
closed (regular f) bd = regular bd.device_handle
closed denied bd = denied
