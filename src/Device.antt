-- ===== src/Device.antt =====
-- block_device.c: a block device over a host file. The functions of unistd.h and fcntl.h that it
-- calls are modelled as POSIX describes them for a regular file. Every read and write of the source
-- seeks first, so a read or a write takes its offset and the file keeps none. An offset of exactly
-- -1 counts as a failed seek. Sizes and counts are the `int`s that are not negative.
pub mod Transfer
pub mod Blocks
use cs.Prelude.{
  ℕ, zero, suc, ◌+◌, ◌-◌, ◌*◌, ◌≤◌, ◌<◌, ◌^◌, min, max, ◌≡◌, Bool, true, false, ◌&&◌, Option, none,
  some, List, [], ◌∷◌, ltb, leb, ◌==◌, if◌then◌else◌, get_or, take, length, ℤ, pos, negsuc, mul_int,
}

-- A regular file of the host. It cannot grow beyond `limit` bytes (a full disk), and `closes` says
-- whether the host reports success when it is closed.
pub record File : Type 0 where
  pub size : ℕ
  pub byte : ℕ → ℕ
  pub limit : ℕ
  pub closes : Bool

-- What the host has under a name: nothing, with room for a new file of so many bytes, a regular
-- file, or something that may not be opened.
pub data Entry : Type 0 where
  missing : ℕ → Entry
  regular : File → Entry
  denied : Entry

-- The bytes `f o, f (o + 1), …`, `n` of them.
abbrev pub window : (ℕ → ℕ) → ℕ → ℕ → List ℕ
window f o zero = []
window f o (suc n) = f o ∷ window f (o + 1) n

-- `read` at an offset: as many bytes as the file has there.
unfoldable pub read_at : File → ℕ → ℕ → List ℕ
read_at f off n = window f.byte off (min n (f.size - off))

-- How many of `n` bytes `write` takes at an offset.
unfoldable pub write_count : File → ℕ → ℕ → ℕ
write_count f off n = min n (f.limit - off)

-- The bytes of a file after a write of the first `n` of `buff` at `off`.
unfoldable pub overwrite : (ℕ → ℕ) → ℕ → ℕ → List ℕ → ℕ → ℕ
overwrite f off n buff j = if leb off j && ltb j (off + n) then get_or buff (j - off) 0 else f j

-- The file after `write`. A write past the end leaves zero bytes between.
unfoldable pub write_at : File → ℕ → ℕ → List ℕ → File
unfolding write_count overwrite
write_at f off n buff =
    let k = write_count f off n in
    record f {
      size = if k == 0 then f.size else max f.size (off + k);
      byte = overwrite (λ j. if ltb j f.size then f.byte j else 0) off k buff;
    }

-- `ftruncate`, which cuts the file off or extends it by zero bytes; `none` is its failure.
unfoldable pub ftruncate : File → ℤ → Option File
ftruncate f (pos n) =
    if leb n f.limit
    then some (record f { size = n; byte = λ j. if ltb j (min n f.size) then f.byte j else 0 })
    else none
ftruncate f (negsuc n) = none

-- `open` with O_CREAT.
unfoldable pub open_create : Entry → Option File
open_create (missing room) = some (record { size = 0; byte = λ j. 0; limit = room; closes = true })
open_create (regular f) = some f
open_create denied = none

-- `open` without O_CREAT.
unfoldable pub open_existing : Entry → Option File
open_existing (missing room) = none
open_existing (regular f) = some f
open_existing denied = none

-- `BlockDevice`; the handle is the open file.
pub record BlockDevice : Type 0 where
  pub device_handle : File
  pub block_count : ℕ
  pub bytes_per_block : ℕ

-- `createBlockDevice`: the device, or none for NULL, and what the host has under the name then.
unfoldable pub create_block_device : Entry → ℕ → ℕ → Option BlockDevice × Entry
unfolding open_create ftruncate
create_block_device e block_size block_count = elim (open_create e) [
  | none ↦ (none, e)
  | some f ↦ elim (ftruncate f (mul_int (pos block_size) block_count)) [
    | none ↦ (none, regular f)
    | some g ↦ (
      some (record { device_handle = g; block_count = block_count; bytes_per_block = block_size }),
      regular g,
    )
  ]
]

-- `openBlockDevice`: the device is not set up yet.
unfoldable pub open_block_device : Entry → Option BlockDevice
unfolding open_existing
open_block_device e = elim (open_existing e) [
  | none ↦ none
  | some f ↦ some (record { device_handle = f; block_count = 0; bytes_per_block = 0 })
]

-- `setupBlockDevice`
unfoldable pub setup_block_device : BlockDevice → ℕ → ℕ → BlockDevice
setup_block_device bd count bytes = record bd { block_count = count; bytes_per_block = bytes }

-- `closeBlockDevice`: whether it returns 0, and what the host has then.
unfoldable pub close_block_device : BlockDevice → Bool × Entry
close_block_device bd = (bd.device_handle.closes, regular bd.device_handle)

-- `readBlock`: whether it returns 0, and the bytes that it puts in front of the buffer.
unfoldable pub read_block : BlockDevice → ℤ → Bool × List ℕ
unfolding read_at
read_block bd n = elim (mul_int n bd.bytes_per_block) [
  | negsuc m ↦ (false, [])
  | pos off ↦
      let got = read_at bd.device_handle off bd.bytes_per_block in
      (length got == bd.bytes_per_block, got)
]

-- `readFirstBytes`
unfoldable pub read_first_bytes : BlockDevice → ℕ → List ℕ
unfolding read_at
read_first_bytes bd n = read_at bd.device_handle 0 n

-- `writeBlock`: whether it returns 0, and the device after it. The buffer holds a block at least.
unfoldable pub write_block : BlockDevice → ℤ → List ℕ → Bool × BlockDevice
unfolding write_count write_at
write_block bd n buff = elim (mul_int n bd.bytes_per_block) [
  | negsuc m ↦ (false, bd)
  | pos off ↦ (
    write_count bd.device_handle off bd.bytes_per_block == bd.bytes_per_block,
    record bd { device_handle = write_at bd.device_handle off bd.bytes_per_block buff },
  )
]

-- A device whose file has exactly its blocks, with byte offsets that an `int` holds.
pub record IsValid (bd : BlockDevice) : Type 0 where
  pub whole : bd.device_handle.size ≡ bd.block_count * bd.bytes_per_block
  pub room : bd.device_handle.size ≤ bd.device_handle.limit
  pub fits : bd.block_count * bd.bytes_per_block < 2 ^ 31
  pub some_bytes : 0 < bd.bytes_per_block
