-- ===== src/Volume/Bootstrap.antt =====
-- master_block.c and dylan_bit_set.c: what mount reads of a device that holds a master block.
use cs.Prelude.{
  ℕ, zero, suc, ◌+◌, ◌-◌, ◌*◌, ◌≤◌, ◌<◌, ◌≡◌, refl, ap, ap₂, sym, ◌∙◌, true, Bool, Option, some,
  none, List, [], ◌∷◌, ◌++◌, arith, take, min, pos, ltb, ◌==◌, if◌then◌else◌,
}
use cs.Prelude.Bytes.{zeros}
use cs.Prelude.Run.{Run, ok, fault, ◌>>=◌}
use cs.Device
use cs.Device.{
  Entry, File, BlockDevice, regular, window, read_block, read_at, read_first_bytes,
  setup_block_device, open_block_device, open_existing, close_block_device,
}
use cs.Device.Transfer.{block_bytes, read_block-inside}
use cs.Device.Blocks.{read_blocks}
use cs.MasterBlock
use cs.MasterBlock.{
  MasterBlock, my_magic, sizeof_master_block, master_memory, master_of, nonnegative,
  bootstrap_device, read_master_block, write_master_block,
}
use cs.MasterBlock.Image.{master_of-master_memory, Fits-nonnegative}
use cs.BitSet.{BitSet, header_bytes, get_blocks_in_block_map, read_block_map, bit_set_of}

-- The first bytes of a window.
take-window : (f : ℕ → ℕ) (o m n : ℕ) → m ≤ n → take m (window f o n) ≡ window f o m
take-window f o zero n h = refl
take-window f o (suc m) zero h = absurd (omega arith)
take-window f o (suc m) (suc n) h = ap (λ t. f o ∷ t) (take-window f (o + 1) m n (omega arith))

-- What `readFirstBytes` reads of a device, before it is set up.
pub read_first_bytes-block :
    (bd : BlockDevice) {got : List ℕ}
    → Device.IsValid bd
    → 0 < bd.block_count
    → sizeof_master_block ≤ bd.bytes_per_block
    → read_block bd (pos 0) ≡ (true, got)
    → read_first_bytes (record bd { block_count = 0; bytes_per_block = 0 }) sizeof_master_block
      ≡ take sizeof_master_block got
unfolding read_first_bytes read_at
read_first_bytes-block bd {got} v some_block big read =
    let b = bd.bytes_per_block in
    let same : block_bytes bd 0 ≡ got =
      ap (λ (r : Bool × List ℕ). r.1) (sym (read_block-inside 0 v some_block) ∙ read) in
    let whole : min sizeof_master_block (bd.device_handle.size - 0) ≡ sizeof_master_block =
      (let inside : b ≤ bd.block_count * b = grind arith in omega (arith, v.whole)) in
    ap (window bd.device_handle.byte 0) whole
    ∙ sym (take-window bd.device_handle.byte 0 sizeof_master_block b big)
    ∙ ap (λ t. take sizeof_master_block t)
        (ap (λ o. window bd.device_handle.byte o b) (omega arith) ∙ same)

pub bootstrap_device-ok :
    (bd : BlockDevice) (mb : MasterBlock) (n : ℕ)
    → Device.IsValid bd
    → 0 < bd.block_count
    → sizeof_master_block ≤ bd.bytes_per_block
    → MasterBlock.Fits mb
    → mb.magic_number ≡ my_magic
    → mb.block_count ≡ bd.block_count
    → mb.bytes_per_block ≡ bd.bytes_per_block
    → read_block bd (pos 0) ≡ (true, master_memory mb ++ zeros n)
    → bootstrap_device (regular bd.device_handle) ≡ ok (some bd)
unfolding bootstrap_device open_block_device open_existing setup_block_device master_memory
bootstrap_device-ok bd mb n v some_block big f magic count bytes read =
    let first = read_first_bytes-block bd v some_block big read in
    let same = master_of-master_memory mb [] f in
    let m : (mb.magic_number == my_magic) ≡ true = ground arith in
    rw (bootstrap_device, first, same, m, Fits-nonnegative mb f)
      (λ i. ok (
        some (record {
          device_handle = bd.device_handle;
          block_count = count i;
          bytes_per_block = bytes i;
        })))

-- Blocks that read the same are read the same by the loop.
pub read_blocks-same :
    (n : ℕ) (c d : BlockDevice) (addr room : ℕ)
    → c.bytes_per_block ≡ d.bytes_per_block
    → ((m : ℕ) → addr ≤ m → m < addr + n → read_block c (pos m) ≡ read_block d (pos m))
    → read_blocks n c addr room ≡ read_blocks n d addr room
unfolding read_blocks
read_blocks-same zero c d addr room e same = refl
read_blocks-same (suc n) c d addr room e same =
    let round : ℕ → Bool × List ℕ → Run (Option (List ℕ)) → Run (Option (List ℕ)) = λ b r rest.
      if ltb room b
      then fault
      else (if r.0
          then (rest >>= λ more. ok (elim more [ none ↦ none | some bytes ↦ some (r.1 ++ bytes) ]))
          else ok none) in
    ap (λ b. round b (read_block c (pos addr)) (read_blocks n c (addr + 1) (room - b))) e
    ∙ ap₂ (round d.bytes_per_block) (same addr (omega arith) (omega arith)) (
        read_blocks-same n c d (addr + 1) (room - d.bytes_per_block) e
          (λ m lo hi. same m (omega arith) (omega arith)))

pub read_block_map-same :
    (c d : BlockDevice) (addr n : ℕ)
    → get_blocks_in_block_map c ≡ n
    → get_blocks_in_block_map d ≡ n
    → c.bytes_per_block ≡ d.bytes_per_block
    → ((m : ℕ) → addr ≤ m → m < addr + n → read_block c (pos m) ≡ read_block d (pos m))
    → read_block_map c addr ≡ read_block_map d addr
unfolding read_block_map
read_block_map-same c d addr n p q e same =
    let finish : ℕ → Run (Option (List ℕ)) → Run (Option BitSet) = λ size r. r >>= λ got. elim got [
      | none ↦ ok none
      | some memory ↦ if ltb size header_bytes then fault else ok (some (bit_set_of memory))
    ] in
    let whole : ℕ → BlockDevice → Run (Option BitSet) =
      λ k bd. finish (k * bd.bytes_per_block) (read_blocks k bd addr (k * bd.bytes_per_block)) in
    ap (λ k. whole k c) p
    ∙ ap (λ b. finish (n * b) (read_blocks n c addr (n * b))) e
    ∙ ap (finish (n * d.bytes_per_block))
        (read_blocks-same n c d addr (n * d.bytes_per_block) e same)
    ∙ sym (ap (λ k. whole k d) q)

pub read_master_block-same :
    (c d : BlockDevice) (loc : ℕ)
    → read_block c (pos loc) ≡ read_block d (pos loc)
    → read_master_block c loc ≡ read_master_block d loc
unfolding read_master_block
read_master_block-same c d loc same = rw (read_master_block, same)
