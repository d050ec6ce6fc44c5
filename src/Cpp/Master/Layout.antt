-- ===== src/Cpp/Master/Layout.antt =====
-- my_Blocks_c++/header_files/master_block.hh: where the constructor puts the inode map.
use cs.Prelude.{
  ℕ, zero, suc, ◌+◌, ◌-◌, ◌*◌, ◌/◌, ◌%◌, ◌<◌, ◌≤◌, ◌≡◌, refl, ap, ◌∙◌, true, false, arith, ltb,
  ◌==◌, if◌then◌else◌,
}
use native.Mathlib.Decide.{dec_lt}
use cs.Prelude.Run.{ok, fault}
use cs.BitSet.{ceil_div}
use cs.Cpp.Master.{MasterBlock, count_protect, node_count, alloc_master_block, sizeof_master_block}
use cs.Cpp.Nodes.{nodes_per_block, blocks_for}

ceil_div_zero : (d : ℕ) → 0 < d → ceil_div 0 d ≡ 0
ceil_div_zero d h = grind arith

ceil_div_step : (n d : ℕ) → 0 < d → 0 < n → ceil_div n d ≡ suc (ceil_div (n - d) d)
ceil_div_step n d h pos_n = grind arith

pub ceil_div_upper : (n d : ℕ) → 0 < d → n ≤ ceil_div n d * d
ceil_div_upper n d h = grind arith

ceil_div_lower : (n d : ℕ) → 0 < d → ceil_div n d * d < n + d
ceil_div_lower n d h = grind arith

count_protect-ceil :
    (n left bytes p : ℕ)
    → 0 < bytes
    → left ≤ n
    → count_protect n left bytes p ≡ ok (p + ceil_div left bytes)
unfolding count_protect
count_protect-ceil zero left bytes p h le =
    let none_left : ltb 0 left ≡ false = ground arith in
    let e : left ≡ 0 = omega arith in
    rw (count_protect, none_left, e, ceil_div_zero bytes h) (ap ok (omega arith))
count_protect-ceil (suc n) left bytes p h le = elim (dec_lt 0 left) [
  | yes more ↦
      let again : ltb 0 left ≡ true = ground arith in
      rw (count_protect, again)
        (count_protect-ceil n (left - bytes) bytes (p + 1) h (omega arith)
          ∙ ap ok (omega (arith, ceil_div_step left bytes h more)))
  | no stop ↦
      let none_left : ltb 0 left ≡ false = ground arith in
      let e : left ≡ 0 = omega arith in
      rw (count_protect, none_left, e, ceil_div_zero bytes h) (ap ok (omega arith))
]

count_protect-endless : (n left p : ℕ) → 0 < left → count_protect n left 0 p ≡ fault
unfolding count_protect
count_protect-endless zero left p h =
    let more : ltb 0 left ≡ true = ground arith in rw (count_protect, more)
count_protect-endless (suc n) left p h =
    let more : ltb 0 left ≡ true = ground arith in
    let same : left - 0 ≡ left = omega arith in
    rw (count_protect, more, same) (count_protect-endless n left (p + 1) h)

count_protect_stops : (n : ℕ) → count_protect n 0 0 0 ≡ ok 0
unfolding count_protect
count_protect_stops zero = refl
count_protect_stops (suc n) = refl

-- With `n` rounds, at least as many as there are blocks, the loop of MasterBlock's constructor ends
-- with the blocks for the bits of the block map, rounded up, when a block holds some bits; when it
-- holds none, it ends for a count of 0 only.
pub count_protect-ends :
    (n bytes count : ℕ)
    → count ≤ n
    → count_protect n count bytes 0
      ≡ (if bytes == 0 then (if count == 0 then ok 0 else fault) else ok (ceil_div count bytes))
count_protect-ends n bytes count le = elim (dec_lt 0 bytes) [
  | yes some_bytes ↦
      let e : (bytes == 0) ≡ false = ground arith in
      rw e (count_protect-ceil n count bytes 0 some_bytes le ∙ ap ok (omega arith))
  | no none ↦
      let e : bytes ≡ 0 = omega arith in
      elim (dec_lt 0 count) [
        | yes more ↦
            let f : (count == 0) ≡ false = ground arith in
            rw (e, f) (count_protect-endless n count 0 more)
        | no empty ↦ let f : count ≡ 0 = omega arith in rw (e, f) (count_protect_stops n)
      ]
]

-- The structure that the constructor makes.
abbrev pub laid_out : ℕ → ℕ → ℕ → MasterBlock
laid_out bytes count addr = record {
  bytes_per_block = bytes;
  block_count = count;
  inode_cnt = node_count bytes count (ceil_div count bytes);
  protect = ceil_div count bytes;
  disk_address = addr;
  disk_address_inode_map = addr + ceil_div count bytes;
}

pub alloc_master_block-laid_out :
    (bytes count addr : ℕ)
    → 31 ≤ bytes
    → alloc_master_block bytes count addr ≡ ok (laid_out bytes count addr)
unfolding alloc_master_block
alloc_master_block-laid_out bytes count addr h =
    let room : ltb (bytes + 1) sizeof_master_block ≡ false = ground arith in
    let ends = count_protect-ceil count count bytes 0 (omega arith) (omega arith) in
    let shift : 0 + ceil_div count bytes ≡ ceil_div count bytes = omega arith in
    rw (alloc_master_block, room, ends, shift)

times_mono : (a b c : ℕ) → a ≤ b → a * c ≤ b * c
times_mono a b c h = grind arith

-- Nodes that fit in q blocks take no more than q blocks.
pub blocks_for-le : (x q ipb : ℕ) → 0 < ipb → x ≤ q * ipb → blocks_for x ipb ≤ q
blocks_for-le x q ipb h le =
    let k = x / ipb in
    let r = x % ipb in
    let whole : x ≡ k * ipb + r = grind arith in
    elim (dec_lt k q) [
      | yes p ↦ ground arith
      | no p ↦
          let over : q * ipb ≤ k * ipb = times_mono q k ipb (omega arith) in
          let none_left : r ≡ 0 = omega arith in
          let same : k * ipb ≤ q * ipb = omega arith in
          elim (dec_lt q k) [
            | yes more ↦
                let far : suc q * ipb ≤ k * ipb = times_mono (suc q) k ipb (omega arith) in
                absurd (omega arith)
            | no less ↦ let e : (x % ipb == 0) ≡ true = ground arith in rw e (omega arith)
          ]
    ]

pub node_count-le : (bytes count p : ℕ) → node_count bytes count p ≤ 128
unfolding node_count
node_count-le bytes count p = ground arith

pub node_count-quarter :
    (bytes count p : ℕ) → node_count bytes count p ≤ (count - (p + 1)) / 4 * (bytes / 128)
unfolding node_count
node_count-quarter bytes count p = ground arith

-- For blocks of at least 128 bytes the constructor of the C++ master block ends; it reserves just
-- the blocks that a map of one byte a block fills, puts the inode map behind them, and plans for
-- at most 128 inodes, whose blocks are at most a quarter of those behind the first block and the
-- reserved ones.
pub alloc_master_block-bounds :
    (bytes count addr : ℕ)
    → 128 ≤ bytes
    → (mb : MasterBlock) × (alloc_master_block bytes count addr ≡ ok mb)
      × (mb.disk_address_inode_map ≡ addr + mb.protect)
      × (count ≤ mb.protect * bytes)
      × (mb.protect * bytes < count + bytes)
      × (mb.inode_cnt ≤ 128)
      × (4 * blocks_for mb.inode_cnt (nodes_per_block bytes) ≤ count - (mb.protect + 1))
alloc_master_block-bounds bytes count addr h =
    let p = ceil_div count bytes in
    let ipb : 0 < nodes_per_block bytes = omega arith in
    let blocks =
      blocks_for-le (node_count bytes count p) ((count - (p + 1)) / 4) (nodes_per_block bytes) ipb
        (node_count-quarter bytes count p) in
    (
      laid_out bytes count addr,
      alloc_master_block-laid_out bytes count addr (omega arith),
      refl,
      ceil_div_upper count bytes (omega arith),
      ceil_div_lower count bytes (omega arith),
      node_count-le bytes count p,
      omega arith,
    )
