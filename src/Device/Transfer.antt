-- ===== src/Device/Transfer.antt =====
-- block_device.c: what one readBlock and one writeBlock do.
use cs.Prelude.{
  ℕ, zero, suc, ◌+◌, ◌-◌, ◌*◌, ◌≤◌, ◌<◌, ◌^◌, ◌≡◌, ◌≢◌, refl, sym, subst, ap, ap₂, ◌∙◌, true, false,
  List, [], ◌∷◌, arith, get_or, length, pos, mul_int_small, ltb, leb, ◌&&◌, false,
}
use native.Mathlib.Decide.{dec_lt}
use cs.Device.{
  BlockDevice, IsValid, window, overwrite, write_count, write_at, read_block, write_block,
}

pub length-window : (f : ℕ → ℕ) (o n : ℕ) → length (window f o n) ≡ n
length-window f o zero = refl
length-window f o (suc n) = ap suc (length-window f (o + 1) n)

-- Windows agree where the bytes do.
pub window_ext :
    (f g : ℕ → ℕ) (o n : ℕ)
    → ((j : ℕ) → o ≤ j → j < o + n → f j ≡ g j)
    → window f o n ≡ window g o n
window_ext f g o zero h = refl
window_ext f g o (suc n) h =
    ap₂ ◌∷◌ (h o (omega arith) (omega arith))
      (window_ext f g (o + 1) n (λ j p q. h j (omega arith) (omega arith)))

-- A window over the bytes of a list is the list.
pub window_of_list :
    (xs : List ℕ) (f : ℕ → ℕ) (o : ℕ)
    → ((j : ℕ) → j < length xs → f (o + j) ≡ get_or xs j 0)
    → window f o (length xs) ≡ xs
window_of_list [] f o h = refl
window_of_list (x ∷ xs) f o h =
    ap₂ ◌∷◌ (ap f (omega arith) ∙ h 0 (omega arith))
      (window_of_list xs f (o + 1) (λ j p. ap f (omega arith) ∙ h (suc j) (omega arith)))

-- The bytes of block `n`.
abbrev pub block_bytes : BlockDevice → ℕ → List ℕ
block_bytes bd n = window bd.device_handle.byte (n * bd.bytes_per_block) bd.bytes_per_block

-- The last byte of a block of the device lies inside the file, and its offset in an `int`.
block_inside :
    {bd : BlockDevice} (n : ℕ)
    → IsValid bd
    → n < bd.block_count
    → (n * bd.bytes_per_block + bd.bytes_per_block ≤ bd.device_handle.size)
      × (n * bd.bytes_per_block < 2 ^ 31)
block_inside n v h = grind arith

-- Two blocks do not overlap.
apart :
    (m n b j : ℕ) → m ≢ n → m * b ≤ j → j < m * b + b → (leb (n * b) j && ltb j (n * b + b)) ≡ false
apart m n b j ne lo hi = elim (dec_lt m n) [
  | yes p ↦ ground (arith, step m n b p)
  | no p ↦ ground (arith, step n m b (omega arith))
]
  where
    step : (m n b : ℕ) → m < n → m * b + b ≤ n * b
    step m n b p = grind arith

-- A window over the bytes of a list of known length is the list.
window_of_buff :
    (xs : List ℕ) (f : ℕ → ℕ) (o k : ℕ)
    → length xs ≡ k
    → ((j : ℕ) → j < length xs → f (o + j) ≡ get_or xs j 0)
    → window f o k ≡ xs
window_of_buff xs f o k e h = subst (λ k. window f o k ≡ xs) e (window_of_list xs f o h)

-- A block of the device can be read, and gives the bytes of the file there.
pub read_block-inside :
    {bd : BlockDevice} (n : ℕ)
    → IsValid bd
    → n < bd.block_count
    → read_block bd (pos n) ≡ (true, block_bytes bd n)
unfolding read_block
read_block-inside {bd} n v h =
    let (inside, small) = block_inside n v h in
    rw (read_block, mul_int_small n bd.bytes_per_block small)
      (ground
        (arith, length-window bd.device_handle.byte (n * bd.bytes_per_block) bd.bytes_per_block))

-- What a successful write of `buff` to block `n` has done: the block reads back, every other block
-- of the device reads as before, and the device keeps its shape.
pub record Written (bd : BlockDevice) (n : ℕ) (buff : List ℕ) (bd' : BlockDevice) : Type 0 where
  pub valid : IsValid bd'
  pub same_count : bd'.block_count ≡ bd.block_count
  pub same_bytes : bd'.bytes_per_block ≡ bd.bytes_per_block
  pub reads_back : read_block bd' (pos n) ≡ (true, buff)
  pub others : (m : ℕ) → m < bd.block_count → m ≢ n → read_block bd' (pos m) ≡ read_block bd (pos m)

-- The device after a write inside it.
abbrev stored : BlockDevice → ℕ → List ℕ → BlockDevice
stored bd n buff = record bd {
  device_handle = write_at bd.device_handle (n * bd.bytes_per_block) bd.bytes_per_block buff;
}

module _ {bd : BlockDevice} (n : ℕ) (buff : List ℕ) (v : IsValid bd) (h : n < bd.block_count) where
  write_block-stored : write_block bd (pos n) buff ≡ (true, stored bd n buff)
  unfolding write_block write_count
  write_block-stored =
      let (inside, small) = block_inside n v h in
      let room = v.room in rw (write_block, mul_int_small n bd.bytes_per_block small) (ground arith)

  stored-IsValid : IsValid (stored bd n buff)
  unfolding write_at write_count
  stored-IsValid = let (inside, small) = block_inside n v h in ground arith

  stored_at :
      (j : ℕ)
      → j < bd.bytes_per_block
      → (stored bd n buff).device_handle.byte (n * bd.bytes_per_block + j) ≡ get_or buff j 0
  unfolding write_at overwrite write_count
  stored_at j lt =
      let (inside, small) = block_inside n v h in
      let room = v.room in
      let e : n * bd.bytes_per_block + j - n * bd.bytes_per_block ≡ j = omega arith in ground arith

  stored_elsewhere :
      (m j : ℕ)
      → m < bd.block_count
      → m ≢ n
      → m * bd.bytes_per_block ≤ j
      → j < m * bd.bytes_per_block + bd.bytes_per_block
      → (stored bd n buff).device_handle.byte j ≡ bd.device_handle.byte j
  unfolding write_at overwrite write_count
  stored_elsewhere m j inside_m ne lo hi =
      let (inside, small) = block_inside m v inside_m in
      let (inside', small') = block_inside n v h in
      let room = v.room in ground (arith, apart m n bd.bytes_per_block j ne lo hi)

  stored-Written : length buff ≡ bd.bytes_per_block → Written bd n buff (stored bd n buff)
  stored-Written len = record {
    valid = stored-IsValid;
    same_count = refl;
    same_bytes = refl;
    reads_back =
        read_block-inside n stored-IsValid h
        ∙ ap (λ w. (true, w)) (window_of_buff buff _ _ _ len (λ j lt. stored_at j (omega arith)));
    others = λ m inside_m ne.
        read_block-inside m stored-IsValid inside_m
        ∙ ap (λ w. (true, w))
            (window_ext _ _ _ _ (λ j lo hi. stored_elsewhere m j inside_m ne lo hi))
        ∙ sym (read_block-inside m v inside_m);
  }

-- `writeBlock` of a whole block inside a valid device succeeds; the block reads back as written,
-- every other block reads as before, and the device stays valid with its shape.
pub write_block-Written :
    (bd : BlockDevice) (n : ℕ) (buff : List ℕ)
    → IsValid bd
    → n < bd.block_count
    → length buff ≡ bd.bytes_per_block
    → ((write_block bd (pos n) buff).0 ≡ true) × Written bd n buff (write_block bd (pos n) buff).1
write_block-Written bd n buff v h len =
    rw (write_block-stored n buff v h) (refl, stored-Written n buff v h len)
