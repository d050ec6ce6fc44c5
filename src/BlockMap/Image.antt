-- ===== src/BlockMap/Image.antt =====
-- my_Blocks_c++/blockMap.cc: writeBlockMap and readBlockMap.
use cs.Prelude.{
  ℕ, zero, suc, ◌+◌, ◌*◌, ◌<◌, ◌≤◌, max, ◌≡◌, refl, sym, ap, ◌∙◌, subst, Bool, true, false, List,
  ◌++◌, append-nil, length, get_or, set, length-set, arith, ltb, ◌==◌, if◌then◌else◌, pos,
}
use native.Mathlib.Decide.{ℕ_discrete}
use cs.Prelude.Bytes.{AllBytes}
use cs.Prelude.Run.{Run, ok}
use cs.Device
use cs.Device.{BlockDevice, read_block, write_block, read_at, write_at}
use cs.Device.Transfer.{Written, write_block-Written}
use cs.BlockMap.Bools.{bools_ext, get_or-set_if, drop-length}
use cs.BitSet.Bits.{bit}
use cs.BlockMap.{BlockMap, read_buffer, load_bits, read_block_map, store_bits, write_block_map}
use cs.BlockMap.Buffer.{
  read_buffer_of, write_buffer_of, as_set, buffer_bit-ok, put_bit-ok, value, value-ok,
}

-- A bit up to the one that was written.
now_below :
    (m : BlockMap) (i j : ℕ) (f : ℕ → Bool)
    → j < i + 1
    → (j < i → f j ≡ value m j)
    → (if i == j then value m i else f j) ≡ value m j
now_below m i j f lt h = elim (ℕ_discrete i j) [
  | yes e ↦ ground (arith, ap (value m) e)
  | no ne ↦ ground (arith, h (omega arith))
]

-- The buffer that the loop of writeBlockMap leaves: its bits from `i` on are the map's.
store_bits-ok :
    (n : ℕ) (m : BlockMap) (i : ℕ) (cs : List ℕ)
    → length m.bools ≡ m.sz
    → AllBytes cs
    → i + n ≤ 8 * length cs
    → ((j : ℕ) → j < i → bit (as_set cs) j ≡ value m j)
    → (cs' : List ℕ) × (store_bits n m i cs ≡ ok cs')
      × (length cs' ≡ length cs)
      × ((j : ℕ) → j < i + n → bit (as_set cs') j ≡ value m j)
      × ((j : ℕ) → i + n ≤ j → bit (as_set cs') j ≡ bit (as_set cs) j)
unfolding store_bits
store_bits-ok zero m i cs len b fits below =
    (cs, refl, refl, (λ j lt. below j (omega arith)), λ j le. refl)
store_bits-ok (suc n) m i cs len b fits below =
    let (cs1, put, b1, len1, bits1) = put_bit-ok cs i (omega arith) (value m i) b in
    let (cs', rest, len', bits', beyond) =
      store_bits-ok n m (i + 1) cs1 len b1 (omega arith)
        (λ j lt. bits1 j ∙ now_below m i j (bit (as_set cs)) lt (below j)) in
    (
      cs',
      rw (store_bits, value-ok m i len, put) rest,
      len' ∙ len1,
      (λ j lt. bits' j (omega arith)),
      λ j le.
          beyond j (omega arith)
          ∙ (bits1 j ∙ (let apart : (i == j) ≡ false = ground arith in rw apart refl)),
    )

-- The loop of readBlockMap over a buffer with the bits of a map.
load_bits-ok :
    (n : ℕ) (m : BlockMap) (cs : List ℕ) (i : ℕ) (bs : List Bool)
    → length m.bools ≡ m.sz
    → length bs ≡ m.sz
    → i + n ≡ m.sz
    → m.sz ≤ 8 * length cs
    → ((j : ℕ) → j < m.sz → bit (as_set cs) j ≡ value m j)
    → ((j : ℕ) → j < i → get_or bs j false ≡ value m j)
    → load_bits n cs i bs ≡ ok m.bools
unfolding load_bits
load_bits-ok zero m cs i bs len len' e fits bits below =
    ap ok (bools_ext bs m.bools (len' ∙ sym len) (λ j lt. below j (omega arith)))
load_bits-ok (suc n) m cs i bs len len' e fits bits below =
    let lt : ltb i (length bs) ≡ true = ground arith in
    rw (load_bits, buffer_bit-ok cs i (omega arith), bits i (omega arith), lt)
      (load_bits-ok n m cs (i + 1) (set bs i (value m i)) len (length-set bs i (value m i) ∙ len')
        (omega arith) fits bits
        (λ j below_j.
          get_or-set_if bs i j (value m i) (omega arith)
          ∙ now_below m i j (λ k. get_or bs k false) below_j (below j)))

-- readBlockMap, when the block is a buffer that was read and loaded.
read_block_map-loads :
    (bd : BlockDevice) (m old : BlockMap) (disk_loc : ℕ) (junk cs : List ℕ)
    → read_buffer bd (pos disk_loc) junk ≡ ok cs
    → load_bits m.sz cs 0 old.bools ≡ ok m.bools
    → old.sz ≡ m.sz
    → read_block_map bd old disk_loc junk ≡ ok m
unfolding read_block_map
read_block_map-loads bd m old disk_loc junk cs got loads sz =
    let same : (n : ℕ) → Run BlockMap = λ n. ok (record { sz = n; bools = m.bools }) in
    rw (got, subst (λ n. load_bits n cs 0 old.bools ≡ ok m.bools) (sym sz) loads) (ap same sz)

-- What a write of a block map has done, with the bytes of its block: whatever device has these bytes
-- there, readBlockMap into a map of the same size gives the map back.
pub block_map_stored :
    (bd : BlockDevice) (m : BlockMap) (disk_loc : ℕ) (junk : List ℕ)
    → Device.IsValid bd
    → disk_loc < bd.block_count
    → length m.bools ≡ m.sz
    → m.sz ≤ 8 * bd.bytes_per_block
    → length junk ≡ bd.bytes_per_block
    → AllBytes junk
    → (cs : List ℕ) × (bd' : BlockDevice) × (write_block_map bd m disk_loc junk ≡ ok bd')
      × Written bd disk_loc cs bd'
      × (length cs ≡ bd.bytes_per_block)
      × ((j : ℕ) → j < m.sz → bit (as_set cs) j ≡ value m j)
      × ((j : ℕ) → max bd.bytes_per_block m.sz ≤ j → bit (as_set cs) j ≡ bit (as_set junk) j)
unfolding write_block_map
block_map_stored bd m disk_loc junk v inside len fits len_junk bytes =
    let (cs, stores, len_cs, bits, beyond) =
      store_bits-ok (max bd.bytes_per_block m.sz) m 0 junk len bytes (omega arith)
        (λ j lt. absurd (omega arith)) in
    let (done, w) = write_block-Written bd disk_loc cs v inside (len_cs ∙ len_junk) in
    (
      cs,
      (write_block bd (pos disk_loc) cs).1,
      rw (stores, write_buffer_of bd (pos disk_loc) cs done) refl,
      w,
      len_cs ∙ len_junk,
      (λ j lt. bits j (omega arith)),
      λ j le. beyond j (omega arith),
    )

-- readBlockMap of a block with the bits of a map.
pub block_map_loaded :
    (bd : BlockDevice) (m old : BlockMap) (disk_loc : ℕ) (cs junk : List ℕ)
    → read_block bd (pos disk_loc) ≡ (true, cs)
    → length m.bools ≡ m.sz
    → m.sz ≤ 8 * length cs
    → ((j : ℕ) → j < m.sz → bit (as_set cs) j ≡ value m j)
    → old.sz ≡ m.sz
    → length old.bools ≡ m.sz
    → length junk ≡ length cs
    → read_block_map bd old disk_loc junk ≡ ok m
block_map_loaded bd m old disk_loc cs junk reads len fits bits sz len_old len_junk =
    let got : read_buffer bd (pos disk_loc) junk ≡ ok cs =
      read_buffer_of bd (pos disk_loc) junk cs reads
      ∙ ap (λ t. ok (cs ++ t)) (drop-length (length cs) junk len_junk)
      ∙ ap ok (append-nil cs) in
    read_block_map-loads bd m old disk_loc junk cs got
      (load_bits-ok m.sz m cs 0 old.bools len len_old (omega arith) fits bits
        (λ j lt. absurd (omega arith)))
      sz

-- On a valid device, for a block map of the C++ version whose bits fit in a block, writeBlockMap
-- succeeds whatever stands in its buffer, readBlockMap into a map of the same size gives the map
-- back, and the bits of the block behind the map and behind as many bits as a block has bytes are
-- those that stood in the buffer.
pub block_map_round_trip :
    (bd : BlockDevice) (m old : BlockMap) (disk_loc : ℕ) (junk junk' : List ℕ)
    → Device.IsValid bd
    → disk_loc < bd.block_count
    → length m.bools ≡ m.sz
    → m.sz ≤ 8 * bd.bytes_per_block
    → old.sz ≡ m.sz
    → length old.bools ≡ m.sz
    → length junk ≡ bd.bytes_per_block
    → AllBytes junk
    → length junk' ≡ bd.bytes_per_block
    → (bd' : BlockDevice) × (cs : List ℕ) × (write_block_map bd m disk_loc junk ≡ ok bd')
      × (read_block_map bd' old disk_loc junk' ≡ ok m)
      × (read_block bd' (pos disk_loc) ≡ (true, cs))
      × ((j : ℕ) → max bd.bytes_per_block m.sz ≤ j → bit (as_set cs) j ≡ bit (as_set junk) j)
block_map_round_trip bd m old disk_loc junk junk' v inside len fits sz len_old len_junk bytes
      len_junk' =
    let (cs, bd', wrote, w, len_cs, bits, beyond) =
      block_map_stored bd m disk_loc junk v inside len fits len_junk bytes in
    (
      bd',
      cs,
      wrote,
      block_map_loaded bd' m old disk_loc cs junk' w.reads_back len (omega arith) bits sz len_old
          (len_junk' ∙ sym len_cs),
      w.reads_back,
      beyond,
    )
