-- ===== src/Volume/Making.antt =====
-- filesystem.c: newfs, and mount of what it made.
use cs.Prelude.{
  ℕ, suc, ◌+◌, ◌-◌, ◌*◌, ◌%◌, ◌≤◌, ◌<◌, ◌^◌, ◌≡◌, IsInt, refl, ap, ap₂, sym, ◌∙◌, subst, true,
  false, some, ◌∷◌, arith, length, pos, mul_int_small, min, ltb, leb, if◌then◌else◌,
}
use cs.Prelude.Bytes.{length-zeros}
use cs.Prelude.Run.{ok}
use cs.Device
use cs.Device.{Entry, File, BlockDevice, regular, create_block_device, open_create, ftruncate}
use cs.MasterBlock.{my_magic, sizeof_master_block, alloc_master_block}
use cs.BitSet.{BitSet, ceil_div, alloc_bit_set, get_blocks_in_block_map, bitset_magic_number}
use cs.BitSet.Bits.{bit}
use cs.INode.{
  INode, directory_type, sizeof_inode, fresh_inode, fresh_from, allocate_inode_map,
  blocks_in_inode_map,
}
use cs.INode.Map.{AllFit-fresh_from, length-fresh_from}
use cs.FileSystem.{
  FileSystem, null, inode_at, put_inode, get_inode, allocate_inode, allocate_inode_from,
}
use cs.FileSystem.Inodes.{taken_inode}
use cs.Directory.{add_root}
use cs.Volume.{reserve, prealloc_blocks, make_root, write_out, format, newfs, mount}
use cs.Volume.Mounting.{IsMountable, mounted, write_out-mounts}
use cs.Volume.Fresh.{blocks_mono, some_block, reserved}

-- The root directory of a fresh inode map.
abbrev pub root_inode : INode
root_inode = record (taken_inode (fresh_inode 0)) { type = directory_type }

-- What newfs has put together before it writes, for n + 2 inodes and a map of reserved blocks.
abbrev pub composed : BlockDevice → ℕ → BitSet → FileSystem
composed bd n map = record {
  block_device = bd;
  master_block = record {
    magic_number = my_magic;
    bytes_per_block = bd.bytes_per_block;
    block_count = bd.block_count;
    inode_count = suc (suc n);
    block_map_address = 1;
    inode_map_address = get_blocks_in_block_map bd + 1;
    root_dir_inode = 0;
  };
  block_map = map;
  inode_map = root_inode ∷ fresh_from (suc n) 1;
  root_dir = null;
}

-- The same before the root is made.
abbrev unrooted : BlockDevice → ℕ → BitSet → FileSystem
unrooted bd n map = record (composed bd n map) { inode_map = fresh_from (suc (suc n)) 0 }

make_root-runs :
    (bd : BlockDevice) (n : ℕ) (map : BitSet)
    → make_root (unrooted bd n map) ≡ ok (add_root (composed bd n map) 0)
unfolding make_root allocate_inode allocate_inode_from inode_at put_inode get_inode add_root
make_root-runs bd n map =
    let some_inodes : ltb 0 (suc (suc n)) ≡ true = ground arith in rw some_inodes refl

-- A device that createBlockDevice has made.
abbrev pub device_of : File → ℕ → ℕ → BlockDevice
device_of g s c = record { device_handle = g; block_count = c; bytes_per_block = s }

create_block_device-IsValid :
    (host : Entry) (f : File) (s c : ℕ)
    → open_create host ≡ some f
    → 0 < s
    → c * s < 2 ^ 31
    → c * s ≤ f.limit
    → (g : File) × (create_block_device host s c ≡ (some (device_of g s c), regular g))
      × Device.IsValid (device_of g s c)
unfolding create_block_device ftruncate
create_block_device-IsValid host f s c opens some_bytes small room =
    let turned : s * c ≡ c * s = omega arith in
    let product = mul_int_small s c (omega arith) in
    let fits : leb (s * c) f.limit ≡ true = ground arith in
    (
      record f { size = s * c; byte = λ j. if ltb j (min (s * c) f.size) then f.byte j else 0 },
      rw (create_block_device, opens, product, fits) refl,
      record { whole = omega arith; room = omega arith; fits = small; some_bytes = some_bytes },
    )

format-writes :
    (bd : BlockDevice) (n : ℕ) (map : BitSet)
    → sizeof_master_block ≤ bd.bytes_per_block
    → sizeof_inode ≤ bd.bytes_per_block
    → prealloc_blocks bd (suc (suc n)) < bd.block_count
    → reserve (prealloc_blocks bd (suc (suc n))) (alloc_bit_set bd.block_count bd.bytes_per_block)
      ≡ ok map
    → format bd (suc (suc n)) ≡ write_out (add_root (composed bd n map) 0) (suc (suc n))
unfolding format alloc_master_block allocate_inode_map
format-writes bd n map master inode room reserves =
    let a : ltb bd.bytes_per_block sizeof_master_block ≡ false = ground arith in
    let b : ltb bd.bytes_per_block sizeof_inode ≡ false = ground arith in
    let c : leb bd.block_count (prealloc_blocks bd (suc (suc n))) ≡ false = ground arith in
    let d : ltb 0 bd.bytes_per_block ≡ true = ground arith in
    let several : ltb 1 (suc (suc n)) ≡ true = ground arith in
    rw (a, b, d, several, c, reserves, make_root-runs bd n map) refl

composed-IsMountable :
    (bd : BlockDevice) (n : ℕ) (map : BitSet)
    → Device.IsValid bd
    → sizeof_master_block ≤ bd.bytes_per_block
    → suc (suc n) < 2 ^ 31
    → (suc (suc n) * sizeof_inode) % bd.bytes_per_block ≡ 0
    → prealloc_blocks bd (suc (suc n)) < bd.block_count
    → map.bitset_magic ≡ bitset_magic_number
    → map.count ≡ pos bd.block_count
    → length map.bytes ≡ length (alloc_bit_set bd.block_count bd.bytes_per_block).bytes
    → IsMountable (composed bd n map)
unfolding prealloc_blocks get_blocks_in_block_map alloc_bit_set
composed-IsMountable bd n map v big small whole room magic count size =
    let some_bytes = v.some_bytes in
    let fits = v.fits in
    let len = length-fresh_from (suc n) 1 in
    let x = ceil_div bd.block_count 8 in
    let s = bd.bytes_per_block in
    let low = some_block x s (omega arith) some_bytes in
    let high = blocks_mono x (12 + x) s some_bytes (omega arith) in
    let zs = length-zeros (ceil_div (12 + x) s * s - 8) in
    let count_int : bd.block_count < 2 ^ 31 = grind arith in
    let bytes_int : s < 2 ^ 31 = grind arith in
    record {
      device = v;
      master = record {
        magic_u64 = omega arith;
        bytes_int = bytes_int;
        blocks_int = count_int;
        inodes_int = small;
        block_map_int = omega arith;
        inode_map_int = omega arith;
        root_int = omega arith;
      };
      magic = refl;
      count = refl;
      bytes = refl;
      big = big;
      map_magic = magic;
      map_int = subst IsInt (sym count) count_int;
      map_low = omega arith;
      map_high = omega arith;
      inodes = ((ground arith, ground arith), AllFit-fresh_from (suc n) 1 (omega arith));
      some_inodes = omega arith;
      inode_count = omega arith;
      whole = ap (λ t. (t * sizeof_inode) % s) (omega arith) ∙ whole;
      address = omega arith;
      room =
          subst (λ t. 1 + get_blocks_in_block_map bd + blocks_in_inode_map t s ≤ bd.block_count)
            (let all : suc (suc n) ≡ length (composed bd n map).inode_map = omega arith in all)
            (omega arith);
      root = omega arith;
    }

newfs-format :
    (host host' : Entry) (bd : BlockDevice) (s c k : ℕ)
    → create_block_device host s c ≡ (some bd, host')
    → newfs host s c k ≡ format bd k
unfolding newfs
newfs-format host host' bd s c k creates = rw (newfs, creates) refl

-- Newfs of c blocks of s bytes, with at least two inodes, on a host file that opens and has room,
-- where the size is below 2 ^ 31, a block holds a master block and an inode, the block size
-- divides the size of the inode map, and more blocks are asked for than newfs reserves, succeeds
-- and leaves a file of c * s bytes; mount of it gives a device of c blocks of s bytes, the master
-- block that says so, the inodes of newfs with the root directory as the first, and a block map
-- in which exactly the reserved blocks are taken, cut off at its own blocks.
pub mount-newfs :
    (host : Entry) (f : File) (s c n : ℕ)
    → open_create host ≡ some f
    → c * s < 2 ^ 31
    → c * s ≤ f.limit
    → sizeof_master_block ≤ s
    → sizeof_inode ≤ s
    → suc (suc n) < 2 ^ 31
    → (suc (suc n) * sizeof_inode) % s ≡ 0
    → prealloc_blocks (device_of f s c) (suc (suc n)) < c
    → (bd : BlockDevice) × (map : BitSet) × (newfs host s c (suc (suc n))
        ≡ ok (true, regular bd.device_handle))
      × (bd.block_count ≡ c)
      × (bd.bytes_per_block ≡ s)
      × (bd.device_handle.size ≡ c * s)
      × (mount (regular bd.device_handle) ≡ ok (mounted (composed (device_of f s c) n map) bd))
      × ((j : ℕ) → bit map j ≡ ltb j (prealloc_blocks (device_of f s c) (suc (suc n))))
unfolding prealloc_blocks get_blocks_in_block_map
mount-newfs host f s c n opens small fits master inode inodes_int whole room =
    let (g, creates, valid) =
      create_block_device-IsValid host f s c opens (omega arith) small fits in
    let made = device_of g s c in
    let (map, reserves, first, magic, count, size) =
      reserved made (prealloc_blocks made (suc (suc n))) (grind arith) (omega arith)
        (omega arith) in
    let (bd, writes, mounts, laid, blocks, bytes) =
      write_out-mounts (composed made n map) 0
        (composed-IsMountable made n map valid master inodes_int whole room magic count size) in
    let all : length (composed made n map).inode_map ≡ suc (suc n) =
      omega (arith, length-fresh_from (suc n) 1) in
    (
      bd,
      map,
      newfs-format host (regular g) made s c (suc (suc n)) creates
          ∙ format-writes made n map master inode room reserves
          ∙ subst
              (λ t.
                write_out (add_root (composed made n map) 0) t
                ≡ ok (true, regular bd.device_handle))
              all writes,
      blocks,
      bytes,
      laid.whole ∙ ap₂ (λ k b. k * b) blocks bytes,
      mounts,
      first,
    )
