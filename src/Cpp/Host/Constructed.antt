-- ===== src/Cpp/Host/Constructed.antt =====
-- my_Blocks_c++/block_device.cc: devices that the constructor makes.
use cs.Prelude.{
  ℕ, ◌+◌, ◌*◌, ◌≤◌, ◌<◌, ◌^◌, ◌≡◌, refl, ap, ◌∙◌, sym, true, some, List, arith, ltb, leb, min, pos,
  mul_int_small, if◌then◌else◌,
}
use cs.Device
use cs.Device.{File, Entry, regular, BlockDevice, open_create, ftruncate, read_block}
use cs.Device.Transfer.{window_ext, read_block-inside}
use cs.Device.Blocks.Laws.{Stored}
use cs.Volume.Bootstrap.{read_blocks-same}
use cs.Cpp.Host.{construct_device, device_on}

-- The constructor on a file that opens and has room makes a valid device.
pub construct_device-IsValid :
    (e : Entry) (f : File) (s c : ℕ)
    → open_create e ≡ some f
    → 0 < s
    → c * s < 2 ^ 31
    → c * s ≤ f.limit
    → (g : File) × (construct_device e s c ≡ (device_on g s c, regular g))
      × Device.IsValid (device_on g s c)
      × (g.byte ≡ (λ j. if ltb j (min (s * c) f.size) then f.byte j else 0))
      × (g.limit ≡ f.limit)
unfolding construct_device ftruncate
construct_device-IsValid e f s c opens some_bytes small room =
    let turned : s * c ≡ c * s = omega arith in
    let product = mul_int_small s c (omega arith) in
    let fits : leb (s * c) f.limit ≡ true = ground arith in
    (
      record f { size = s * c; byte = λ j. if ltb j (min (s * c) f.size) then f.byte j else 0 },
      rw (construct_device, opens, product, fits) refl,
      record { whole = omega arith; room = omega arith; fits = small; some_bytes = some_bytes },
      refl,
      refl,
    )

-- Two devices of one shape whose blocks read the same.
pub record Alike (bd c : BlockDevice) : Type 0 where
  pub valid : Device.IsValid c
  pub same_count : c.block_count ≡ bd.block_count
  pub same_bytes : c.bytes_per_block ≡ bd.bytes_per_block
  pub reads : (m : ℕ) → m < bd.block_count → read_block c (pos m) ≡ read_block bd (pos m)

block_below : (m n s : ℕ) → m < n → m * s + s ≤ n * s
block_below m n s h = grind arith

-- The constructor on the file of a valid device, with its sizes, gives a device like it.
pub construct_device-Alike :
    (bd : BlockDevice)
    → Device.IsValid bd
    → (c : BlockDevice) × (construct_device
          (regular bd.device_handle)
          bd.bytes_per_block
          bd.block_count
        ≡ (c, regular c.device_handle))
      × Alike bd c
unfolding open_create
construct_device-Alike bd v =
    let s = bd.bytes_per_block in
    let n = bd.block_count in
    let (g, made, valid, bytes, limit) =
      construct_device-IsValid (regular bd.device_handle) bd.device_handle s n refl v.some_bytes
        v.fits (omega (arith, v.whole, v.room)) in
    (
      device_on g s n,
      made,
      record {
        valid = valid;
        same_count = refl;
        same_bytes = refl;
        reads = λ m lt.
            read_block-inside m valid lt
            ∙ ap (λ t. (true, t))
                (window_ext g.byte bd.device_handle.byte (m * s) s
                  (λ j lo hi. ap (λ (f : ℕ → ℕ). f j) bytes ∙ inside j m lt lo hi))
            ∙ sym (read_block-inside m v lt);
      },
    )
  where
    inside :
        (j m : ℕ)
        → m < bd.block_count
        → m * bd.bytes_per_block ≤ j
        → j < m * bd.bytes_per_block + bd.bytes_per_block
        → (if ltb j (min (bd.bytes_per_block * bd.block_count) bd.device_handle.size)
            then bd.device_handle.byte j
            else 0)
          ≡ bd.device_handle.byte j
    inside j m lt lo hi =
        let s = bd.bytes_per_block in
        let below : m * s + s ≤ bd.block_count * s = block_below m bd.block_count s lt in
        let turned : s * bd.block_count ≡ bd.block_count * s = omega arith in
        let whole = v.whole in
        let test : ltb j (min (s * bd.block_count) bd.device_handle.size) ≡ true = ground arith in
        rw test refl

-- Blocks stored on a device are stored on one like it.
pub Stored-Alike :
    {bd bd' c : BlockDevice} (n addr : ℕ) (memory : List ℕ)
    → addr + n ≤ bd.block_count
    → Stored bd n addr memory bd'
    → Alike bd' c
    → Stored bd n addr memory c
Stored-Alike n addr memory inside st a = record {
  valid = a.valid;
  same_count = a.same_count ∙ st.same_count;
  same_bytes = a.same_bytes ∙ st.same_bytes;
  others = λ m lt apart. a.reads m (omega (arith, st.same_count)) ∙ st.others m lt apart;
  reads_back = λ room enough.
      read_blocks-same n _ _ addr room a.same_bytes
        (λ m lo hi. a.reads m (omega (arith, st.same_count)))
      ∙ st.reads_back room enough;
}
