-- ===== src/Prelude/Bits.antt =====
-- The bits of one byte: the effect of `|=`, `&= ~` and `&` with `1 << k`, by a table over all
-- bytes and bit positions.
use Prim.Native.Nat.{ℕ, zero, suc, ◌-◌, ◌^◌, ◌<◌, bit_and, bit_or, bit_and-bitwise}
use mathlib.Core.Path.{◌≡◌, refl}
use mathlib.Core.Bool.{Bool, true, false, not, ◌&&◌, ◌||◌}
use native.Mathlib.Omega.{arith}
use native.Mathlib.Decide.{ℕ_discrete}
use cs.Prelude.Tests.{if◌then◌else◌, ltb, ◌==◌}

-- `b | (1 << k)` in a byte.
unfoldable pub bit_on : ℕ → ℕ → ℕ
bit_on b k = bit_or b (2 ^ k)

-- `b & ~(1 << k)` in a byte.
unfoldable pub bit_off : ℕ → ℕ → ℕ
bit_off b k = bit_and b (255 - 2 ^ k)

-- `(b & (1 << k)) != 0`.
unfoldable pub bit_at : ℕ → ℕ → Bool
bit_at b k = not (bit_and b (2 ^ k) == 0)

-- Whether a test holds of the numbers under a bound, and what that says of one of them.
every : (ℕ → Bool) → ℕ → Bool
every test zero = true
every test (suc bound) = if test bound then every test bound else false

every_sound :
    (test : ℕ → Bool) (bound : ℕ) → every test bound ≡ true → (k : ℕ) → k < bound → test k ≡ true
unfolding every
every_sound test zero all k h = absurd (omega arith)
every_sound test (suc bound) all k h = elim (ℕ_discrete k bound) [
  | yes e ↦ rw e (ground arith)
  | no ne ↦ every_sound test bound (ground arith) k (omega arith)
]

bool_eq : Bool → Bool → Bool
bool_eq true b = b
bool_eq false b = not b

-- What is checked of byte `b` at the positions `k` and `j`.
lawful : ℕ → ℕ → ℕ → Bool
unfolding bit_on bit_off bit_at bool_eq
lawful b k j =
    ltb (bit_on b k) 256
    && ltb (bit_off b k) 256
    && bool_eq (bit_at (bit_on b k) j) ((k == j) || bit_at b j)
    && bool_eq (bit_at (bit_off b k) j) (not (k == j) && bit_at b j)
    && ((bit_off (bit_on b k) k == b) || bit_at b k)
    && ((bit_on (bit_off b k) k == b) || not (bit_at b k))

lawful_from : ℕ → ℕ → Bool
unfolding every
lawful_from b k = every (lawful b k) 8

lawful_of_byte : ℕ → Bool
unfolding every
lawful_of_byte b = every (lawful_from b) 8

lawful_table : every lawful_of_byte 256 ≡ true
unfolding every lawful lawful_from lawful_of_byte
lawful_table = refl

lawful_all : (b k j : ℕ) → b < 256 → k < 8 → j < 8 → lawful b k j ≡ true
unfolding lawful_from lawful_of_byte
lawful_all b k j hb hk hj =
    let of_byte = every_sound lawful_of_byte 256 lawful_table b hb in
    every_sound (lawful b k) 8 (every_sound (lawful_from b) 8 of_byte k hk) j hj

-- The laws of one byte.
pub record ByteLaws (b k j : ℕ) : Type 0 where
  pub on_lt : bit_on b k < 256
  pub off_lt : bit_off b k < 256
  pub at_on : bit_at (bit_on b k) j ≡ ((k == j) || bit_at b j)
  pub at_off : bit_at (bit_off b k) j ≡ (not (k == j) && bit_at b j)
  pub off_on : bit_at b k ≡ false → bit_off (bit_on b k) k ≡ b
  pub on_off : bit_at b k ≡ true → bit_on (bit_off b k) k ≡ b

lawful-ByteLaws : (b k j : ℕ) → lawful b k j ≡ true → ByteLaws b k j
unfolding lawful bool_eq
lawful-ByteLaws b k j h = record {
  on_lt = ground arith;
  off_lt = ground arith;
  at_on = ground arith;
  at_off = ground arith;
  off_on = ground arith;
  on_off = ground arith;
}

pub byte_laws : (b k j : ℕ) → b < 256 → k < 8 → j < 8 → ByteLaws b k j
byte_laws b k j hb hk hj = lawful-ByteLaws b k j (lawful_all b k j hb hk hj)

-- A zero byte has no bit set.
pub bit_at-zero : (k : ℕ) → bit_at 0 k ≡ false
unfolding bit_at
bit_at-zero k = rw (bit_and-bitwise 0 (2 ^ k))
