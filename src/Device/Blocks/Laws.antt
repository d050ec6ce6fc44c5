-- ===== src/Device/Blocks/Laws.antt =====
-- What the transfers of several blocks do, and that they agree with each other.
use cs.Prelude.{
  ℕ, zero, suc, ◌+◌, ◌*◌, ◌-◌, ◌≤◌, ◌<◌, ◌≡◌, ◌⊎◌, refl, ap, ◌∙◌, true, false, some, List, ◌++◌,
  arith, length, take, drop, length-take, length-drop, take-add, inl, inr, pos, ltb, Bool-cases,
}
use cs.Prelude.Run.{ok, fault}
use cs.Device.{BlockDevice, IsValid, read_block, write_block}
use cs.Device.Transfer.{Written, write_block-Written, read_block-inside}
use cs.Device.Blocks.{write_blocks, read_blocks}

-- What a successful write of `n` blocks of `memory` from `addr` on has done: they read back, every
-- other block of the device reads as before, and the device keeps its shape.
pub record Stored (bd : BlockDevice) (n addr : ℕ) (memory : List ℕ) (bd' : BlockDevice)
    : Type 0 where
  pub valid : IsValid bd'
  pub same_count : bd'.block_count ≡ bd.block_count
  pub same_bytes : bd'.bytes_per_block ≡ bd.bytes_per_block
  pub others :
      (m : ℕ)
      → m < bd.block_count
      → (m < addr) ⊎ (addr + n ≤ m)
      → read_block bd' (pos m) ≡ read_block bd (pos m)
  pub reads_back :
      (room : ℕ)
      → n * bd.bytes_per_block ≤ room
      → read_blocks n bd' addr room ≡ ok (some (take (n * bd.bytes_per_block) memory))

pub read_blocks-suc :
    (n : ℕ) (bd : BlockDevice) (addr room : ℕ) {got more : List ℕ}
    → bd.bytes_per_block ≤ room
    → read_block bd (pos addr) ≡ (true, got)
    → read_blocks n bd (addr + 1) (room - bd.bytes_per_block) ≡ ok (some more)
    → read_blocks (suc n) bd addr room ≡ ok (some (got ++ more))
unfolding read_blocks
read_blocks-suc n bd addr room {got} {more} fits first rest =
    let enough : ltb room bd.bytes_per_block ≡ false = ground arith in
    rw (read_blocks, enough, first, rest) (ap (λ p. ok (some (p.1 ++ more))) first)

-- One block written, then the rest behind it.
module _ {bd w bd' : BlockDevice} (n addr : ℕ) (memory : List ℕ) (h : addr + suc n ≤ bd.block_count)
    (one : Written bd addr (take bd.bytes_per_block memory) w)
    (rest : Stored w n (addr + 1) (drop bd.bytes_per_block memory) bd') where
  reads_both :
      (room : ℕ)
      → suc n * bd.bytes_per_block ≤ room
      → read_blocks (suc n) bd' addr room ≡ ok (some (take (suc n * bd.bytes_per_block) memory))
  reads_both room a =
      let b = bd.bytes_per_block in
      let split : suc n * b ≡ b + n * b = omega arith in
      read_blocks-suc n bd' addr room (omega (arith, rest.same_bytes, one.same_bytes))
        (rest.others addr (omega (arith, one.same_count)) (inl (omega arith)) ∙ one.reads_back)
        (rest.reads_back (room - bd'.bytes_per_block)
          (omega (arith, rest.same_bytes, one.same_bytes, ap (λ t. n * t) one.same_bytes)))
      ∙ rw (one.same_bytes, split, take-add b)

  pub Stored-suc : Stored bd (suc n) addr memory bd'
  Stored-suc = record {
    valid = rest.valid;
    same_count = rest.same_count ∙ one.same_count;
    same_bytes = rest.same_bytes ∙ one.same_bytes;
    others = λ m a b.
        rest.others m (omega (arith, one.same_count)) (omega arith) ∙ one.others m a (omega arith);
    reads_back = reads_both;
  }

write_blocks-suc :
    (n : ℕ) (bd : BlockDevice) (addr : ℕ) (memory : List ℕ) {bd' : BlockDevice}
    → bd.bytes_per_block ≤ length memory
    → (write_block bd (pos addr) (take bd.bytes_per_block memory)).0 ≡ true
    → write_blocks n
        (write_block bd (pos addr) (take bd.bytes_per_block memory)).1
        (addr + 1)
        (drop bd.bytes_per_block memory)
      ≡ ok (true, bd')
    → write_blocks (suc n) bd addr memory ≡ ok (true, bd')
unfolding write_blocks
write_blocks-suc n bd addr memory len done rest =
    let enough : ltb (length memory) bd.bytes_per_block ≡ false = ground arith in
    rw (write_blocks, enough, done) rest

-- The loop that writes n blocks inside a valid device from a memory that holds them succeeds; the
-- blocks read back by the reading loop, the others are as before, and the device stays valid.
pub write_blocks-Stored :
    (n : ℕ) (bd : BlockDevice) (addr : ℕ) (memory : List ℕ)
    → IsValid bd
    → addr + n ≤ bd.block_count
    → n * bd.bytes_per_block ≤ length memory
    → (bd' : BlockDevice) × (write_blocks n bd addr memory ≡ ok (true, bd'))
      × Stored bd n addr memory bd'
unfolding write_blocks read_blocks
write_blocks-Stored zero bd addr memory v h len = (
  bd,
  refl,
  record {
    valid = v;
    same_count = refl;
    same_bytes = refl;
    others = λ m a b. refl;
    reads_back = λ room a. let e : 0 * bd.bytes_per_block ≡ 0 = omega arith in rw e;
  },
)
write_blocks-Stored (suc n) bd addr memory v h len =
    let b = bd.bytes_per_block in
    let (done, one) =
      write_block-Written bd addr (take b memory) v (omega arith)
        (omega (arith, length-take b memory)) in
    let (bd', runs, rest) =
      write_blocks-Stored n (write_block bd (pos addr) (take b memory)).1 (addr + 1) (drop b memory)
        one.valid (omega (arith, one.same_count))
        (omega (arith, ap (λ t. n * t) one.same_bytes, length-drop b memory)) in
    (
      bd',
      write_blocks-suc n bd addr memory (omega arith) done runs,
      Stored-suc n addr memory h one rest,
    )

-- Where the memory ends before the blocks do, the loop runs past its end: a fault.
pub write_blocks-short :
    (n : ℕ) (bd : BlockDevice) (addr : ℕ) (memory : List ℕ)
    → IsValid bd
    → addr + n ≤ bd.block_count
    → length memory < n * bd.bytes_per_block
    → write_blocks n bd addr memory ≡ fault
unfolding write_blocks
write_blocks-short zero bd addr memory v h short = absurd (omega arith)
write_blocks-short (suc n) bd addr memory v h short =
    elim (Bool-cases (ltb (length memory) bd.bytes_per_block)) [
      | inl ends ↦ rw (write_blocks, ends)
      | inr enough ↦
          let b = bd.bytes_per_block in
          let len : b ≤ length memory = ground arith in
          let (done, one) =
            write_block-Written bd addr (take b memory) v (omega arith)
              (omega (arith, length-take b memory)) in
          rw (write_blocks, enough, done)
            (write_blocks-short n (write_block bd (pos addr) (take b memory)).1 (addr + 1)
              (drop b memory) one.valid (omega (arith, one.same_count))
              (omega (arith, ap (λ t. n * t) one.same_bytes, length-drop b memory)))
    ]

-- Where the room ends before the blocks do, the loop writes past its end: a fault.
pub read_blocks-short :
    (n : ℕ) (bd : BlockDevice) (addr room : ℕ)
    → IsValid bd
    → addr + n ≤ bd.block_count
    → room < n * bd.bytes_per_block
    → read_blocks n bd addr room ≡ fault
unfolding read_blocks
read_blocks-short zero bd addr room v h short = absurd (omega arith)
read_blocks-short (suc n) bd addr room v h short = elim (Bool-cases (ltb room bd.bytes_per_block)) [
  | inl ends ↦ rw (read_blocks, ends)
  | inr enough ↦
      let rest =
        read_blocks-short n bd (addr + 1) (room - bd.bytes_per_block) v (omega arith)
          (ground arith) in
      rw (read_blocks, enough, read_block-inside addr v (omega arith), rest)
]
