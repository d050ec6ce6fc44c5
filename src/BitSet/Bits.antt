-- ===== src/BitSet/Bits.antt =====
-- dylan_bit_set.c: single bits.
use cs.Prelude.{
  ℕ, zero, suc, ◌*◌, ◌/◌, ◌%◌, ◌<◌, ◌≡◌, refl, ap, Bool, false, not, ◌&&◌, ◌||◌, some, List, [],
  ◌∷◌, arith, ◌==◌, if◌then◌else◌, get_elem?, get_or, set, length, length-set, set-set_back,
}
use cs.Prelude.Bits.{bit_on, bit_off, bit_at, byte_laws}
use cs.Prelude.Bytes.{AllBytes}
use cs.Prelude.Run.{ok}
use cs.BitSet.{BitSet, IsValid, set_bit, clear_bit, get_bit}

-- The abstract view: the value of bit `i`, false beyond the memory.
unfoldable pub bit : BitSet → ℕ → Bool
bit b i = bit_at (get_or b.bytes (i / 8) 0) (i % 8)

-- The set with bit `i` set, and with bit `i` cleared.
unfoldable pub marked : BitSet → ℕ → BitSet
marked b i = record b { bytes = set b.bytes (i / 8) (bit_on (get_or b.bytes (i / 8) 0) (i % 8)) }

unfoldable pub unmarked : BitSet → ℕ → BitSet
unmarked b i = record b { bytes = set b.bytes (i / 8) (bit_off (get_or b.bytes (i / 8) 0) (i % 8)) }

pub get_elem?-eq-get_or :
    (xs : List ℕ) (i : ℕ) → i < length xs → get_elem? xs i ≡ some (get_or xs i 0)
get_elem?-eq-get_or [] i h = elim h [ ]
get_elem?-eq-get_or (x ∷ xs) zero h = refl
get_elem?-eq-get_or (x ∷ xs) (suc i) h = get_elem?-eq-get_or xs i (omega arith)

get_or-set :
    (xs : List ℕ) (i j v : ℕ)
    → i < length xs
    → get_or (set xs i v) j 0 ≡ (if i == j then v else get_or xs j 0)
get_or-set [] i j v h = elim h [ ]
get_or-set (x ∷ xs) zero zero v h = refl
get_or-set (x ∷ xs) zero (suc j) v h = ground arith
get_or-set (x ∷ xs) (suc i) zero v h = ground arith
get_or-set (x ∷ xs) (suc i) (suc j) v h = ground (arith, get_or-set xs i j v)

get_or-lt : (xs : List ℕ) (i : ℕ) → AllBytes xs → get_or xs i 0 < 256
get_or-lt [] i h = omega arith
get_or-lt (x ∷ xs) zero h = h.0
get_or-lt (x ∷ xs) (suc i) h = get_or-lt xs i h.1

AllBytes-set : (xs : List ℕ) (i v : ℕ) → AllBytes xs → v < 256 → AllBytes (set xs i v)
AllBytes-set [] i v h lt = tt
AllBytes-set (x ∷ xs) zero v h lt = (lt, h.1)
AllBytes-set (x ∷ xs) (suc i) v h lt = (h.0, AllBytes-set xs i v h.1 lt)

module _ (b : BitSet) (i : ℕ) (h : i < 8 * length b.bytes) where
  pub get_bit-ok : get_bit b i ≡ ok (bit b i)
  unfolding get_bit bit
  get_bit-ok = rw (get_bit, get_elem?-eq-get_or b.bytes (i / 8) (omega arith))

  pub set_bit-ok : set_bit b i ≡ ok (marked b i)
  unfolding set_bit marked
  set_bit-ok = rw (set_bit, get_elem?-eq-get_or b.bytes (i / 8) (omega arith))

  pub clear_bit-ok : clear_bit b i ≡ ok (unmarked b i)
  unfolding clear_bit unmarked
  clear_bit-ok = rw (clear_bit, get_elem?-eq-get_or b.bytes (i / 8) (omega arith))

  pub bit-marked : (j : ℕ) → AllBytes b.bytes → bit (marked b i) j ≡ ((i == j) || bit b j)
  unfolding bit marked
  bit-marked j v =
      let laws =
        byte_laws (get_or b.bytes (i / 8) 0) (i % 8) (j % 8) (get_or-lt b.bytes (i / 8) v)
          (omega arith) (omega arith) in
      rw
        (get_or-set b.bytes (i / 8) (j / 8) (bit_on (get_or b.bytes (i / 8) 0) (i % 8))
          (omega arith))
        (ground (arith, laws.at_on))

  pub bit-unmarked : (j : ℕ) → AllBytes b.bytes → bit (unmarked b i) j ≡ (not (i == j) && bit b j)
  unfolding bit unmarked
  bit-unmarked j v =
      let laws =
        byte_laws (get_or b.bytes (i / 8) 0) (i % 8) (j % 8) (get_or-lt b.bytes (i / 8) v)
          (omega arith) (omega arith) in
      rw
        (get_or-set b.bytes (i / 8) (j / 8) (bit_off (get_or b.bytes (i / 8) 0) (i % 8))
          (omega arith))
        (ground (arith, laws.at_off))

  pub marked-IsValid : IsValid b → IsValid (marked b i)
  unfolding marked
  marked-IsValid v =
      let laws =
        byte_laws (get_or b.bytes (i / 8) 0) (i % 8) 0 (get_or-lt b.bytes (i / 8) v.are_bytes)
          (omega arith) (omega arith) in
      record {
        in_memory = omega (
          arith,
          v.in_memory,
          length-set b.bytes (i / 8) (bit_on (get_or b.bytes (i / 8) 0) (i % 8)),
        );
        count_int = v.count_int;
        are_bytes = AllBytes-set b.bytes (i / 8) _ v.are_bytes laws.on_lt;
      }

  pub unmarked-IsValid : IsValid b → IsValid (unmarked b i)
  unfolding unmarked
  unmarked-IsValid v =
      let laws =
        byte_laws (get_or b.bytes (i / 8) 0) (i % 8) 0 (get_or-lt b.bytes (i / 8) v.are_bytes)
          (omega arith) (omega arith) in
      record {
        in_memory = omega (
          arith,
          v.in_memory,
          length-set b.bytes (i / 8) (bit_off (get_or b.bytes (i / 8) 0) (i % 8)),
        );
        count_int = v.count_int;
        are_bytes = AllBytes-set b.bytes (i / 8) _ v.are_bytes laws.off_lt;
      }

  -- Marking a clear bit and unmarking it gives the same memory.
  pub unmarked-marked : AllBytes b.bytes → bit b i ≡ false → unmarked (marked b i) i ≡ b
  unfolding unmarked marked bit
  unmarked-marked v clear =
      let laws =
        byte_laws (get_or b.bytes (i / 8) 0) (i % 8) 0 (get_or-lt b.bytes (i / 8) v) (omega arith)
          (omega arith) in
      let old = get_or b.bytes (i / 8) 0 in
      let back : bit_off (get_or (set b.bytes (i / 8) (bit_on old (i % 8))) (i / 8) 0) (i % 8)
          ≡ old =
        rw (get_or-set b.bytes (i / 8) (i / 8) (bit_on old (i % 8)) (omega arith))
          (ground (arith, laws.off_on)) in
      ap (λ bs. record b { bytes = bs })
        (rw back (
          set-set_back b.bytes (i / 8) (bit_on old (i % 8)) old
            (get_elem?-eq-get_or b.bytes (i / 8) (omega arith))))

  pub length-marked : length (marked b i).bytes ≡ length b.bytes
  unfolding marked
  length-marked = length-set b.bytes (i / 8) _

  pub length-unmarked : length (unmarked b i).bytes ≡ length b.bytes
  unfolding unmarked
  length-unmarked = length-set b.bytes (i / 8) _
