-- ===== src/BlockMap/Buffer.antt =====
-- my_Blocks_c++/blockMap.cc: the bits of a buffer, and whole blocks through a buffer.
use cs.Prelude.{
  ℕ, ◌*◌, ◌/◌, ◌<◌, ◌≡◌, refl, ◌∙◌, Bool, true, false, List, ◌++◌, length, drop, get_or, arith, ltb,
  ◌==◌, if◌then◌else◌, ℤ, pos,
}
use native.Mathlib.Decide.{dec_lt}
use cs.Prelude.Bytes.{AllBytes}
use cs.Prelude.Run.{ok}
use cs.Device.{BlockDevice, read_block, write_block}
use cs.BlockMap.Bools.{get_elem?-get_or, get_or_outside}
use cs.BitSet.{BitSet, IsValid}
use cs.BitSet.Bits.{
  bit, get_elem?-eq-get_or, marked, unmarked, bit-marked, bit-unmarked, marked-IsValid,
  unmarked-IsValid, length-marked, length-unmarked,
}
use cs.BlockMap.{BlockMap, get_bit, read_buffer, write_buffer, buffer_bit, put_bit}

pub read_buffer_of :
    (bd : BlockDevice) (n : ℤ) (buff got : List ℕ)
    → read_block bd n ≡ (true, got)
    → read_buffer bd n buff ≡ ok (got ++ drop (length got) buff)
unfolding read_block read_buffer
read_buffer_of bd n buff got e = grind arith

pub write_buffer_of :
    (bd : BlockDevice) (n : ℤ) (buff : List ℕ)
    → (write_block bd n buff).0 ≡ true
    → write_buffer bd n buff ≡ ok (write_block bd n buff).1
unfolding write_block write_buffer
write_buffer_of bd n buff e = grind arith

-- A buffer as the memory of a bit set, for its bits.
abbrev pub as_set : List ℕ → BitSet
as_set cs = record { bitset_magic = 0; count = pos 0; bytes = cs }

as_set-IsValid : (cs : List ℕ) → AllBytes cs → IsValid (as_set cs)
as_set-IsValid cs h = record { in_memory = omega arith; count_int = omega arith; are_bytes = h }

module _ (cs : List ℕ) (i : ℕ) (h : i < 8 * length cs) where
  pub buffer_bit-ok : buffer_bit cs i ≡ ok (bit (as_set cs) i)
  unfolding buffer_bit bit
  buffer_bit-ok = rw (buffer_bit, get_elem?-eq-get_or cs (i / 8) (omega arith)) refl

  -- A bit of the buffer that is written.
  pub put_bit-ok :
      (v : Bool)
      → AllBytes cs
      → (cs' : List ℕ) × (put_bit cs i v ≡ ok cs')
        × AllBytes cs'
        × (length cs' ≡ length cs)
        × ((j : ℕ) → bit (as_set cs') j ≡ (if i == j then v else bit (as_set cs) j))
  unfolding put_bit marked unmarked
  put_bit-ok true b = (
    (marked (as_set cs) i).bytes,
    rw (put_bit, get_elem?-eq-get_or cs (i / 8) (omega arith)) refl,
    (marked-IsValid (as_set cs) i h (as_set-IsValid cs b)).are_bytes,
    length-marked (as_set cs) i h,
    λ j. bit-marked (as_set cs) i h j b ∙ grind arith,
  )
  put_bit-ok false b = (
    (unmarked (as_set cs) i).bytes,
    rw (put_bit, get_elem?-eq-get_or cs (i / 8) (omega arith)) refl,
    (unmarked-IsValid (as_set cs) i h (as_set-IsValid cs b)).are_bytes,
    length-unmarked (as_set cs) i h,
    λ j. bit-unmarked (as_set cs) i h j b ∙ grind arith,
  )

-- The bits of a map, false behind its end.
abbrev pub value : BlockMap → ℕ → Bool
value m i = get_or m.bools i false

pub value-ok :
    (m : BlockMap) (i : ℕ)
    → length m.bools ≡ m.sz
    → (if ltb i m.sz then get_bit m i else ok false) ≡ ok (value m i)
unfolding get_bit
value-ok m i len = elim (dec_lt i m.sz) [
  | yes p ↦ ground (arith, get_elem?-get_or m.bools i (omega arith))
  | no p ↦ ground (arith, get_or_outside m.bools i (omega arith))
]
