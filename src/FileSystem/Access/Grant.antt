-- ===== src/FileSystem/Access/Grant.antt =====
-- inode.c: getDiskAddressOfBlock with leave to allocate, on a file system in order.
use cs.Prelude.{
  ℕ, zero, suc, ◌+◌, ◌<◌, ◌≤◌, ◌≡◌, ◌≢◌, ◌⊎◌, inl, inr, refl, ap, sym, ◌∙◌, subst, true, false,
  some, arith, length, get_elem?, set, length-set, get_elem?-set_self, get_elem?-set_ne,
  get_elem?_of_lt, ℤ, pos, negsuc,
}
use native.Mathlib.Decide.{ℕ_discrete}
use cs.Prelude.Run.{ok}
use cs.BitSet.{BitSet, rounds, allocate_block}
use cs.BitSet.Bits.{bit}
use cs.BitSet.Allocate.{
  Allocated, found, full, Marks, allocate_block-Allocated, allocate_block-Marks,
}
use cs.BitSet.Count.{free_below-allocate_block, allocate_block-fails_iff}
use cs.INode.{INode, block_ptrs_per_inode}
use cs.FileSystem.{FileSystem, inode_at, put_inode}
use cs.FileSystem.Inodes.{inode_at-inside, inode_at-put_self}
use cs.FileSystem.Access.{is_positive, allocate_ptr, get_disk_address_of_block}
use cs.FileSystem.Access.Address.{Ready, StandsAt, free_blocks, lookup_flat, address-StandsAt}

-- The inode and the file system after block `b` was given the address `a`.
abbrev pub with_ptr : INode → ℕ → ℕ → INode
with_ptr x b a = record x { block_ptrs = set x.block_ptrs b (pos a) }

abbrev pub granted : FileSystem → ℕ → INode → ℕ → ℕ → BitSet → FileSystem
granted fs k x b a map = put_inode (record fs { block_map = map }) k (with_ptr x b a)

-- Where a block is free, `allocateBlock` returns a block that is not the master block.
some_block :
    (fs : FileSystem) (k : ℕ) (x : INode)
    → Ready fs k x
    → 0 < free_blocks fs
    → (a : ℕ) × (map : BitSet) × (allocate_block fs.block_map ≡ ok (pos a, map))
      × Marks fs.block_map a map
      × (0 < a)
some_block fs k x r room = outcome (allocate_block-Allocated fs.block_map r.map)
  where
    positive : (a : ℕ) → bit fs.block_map a ≡ false → 0 < a
    positive zero clear = let clash : true ≡ false = sym r.master ∙ clear in absurd (cc)
    positive (suc a) clear = omega arith

    outcome :
        (z : ℤ) × (map : BitSet) × (allocate_block fs.block_map ≡ ok (z, map))
          × Allocated fs.block_map z map
        → (a : ℕ) × (map : BitSet) × (allocate_block fs.block_map ≡ ok (pos a, map))
          × Marks fs.block_map a map
          × (0 < a)
    outcome (z, map, runs, found a lt clear below) =
        (a, map, runs, allocate_block-Marks fs.block_map a r.map runs, positive a clear)
    outcome (z, map, runs, full all) =
        absurd (omega (arith, (allocate_block-fails_iff fs.block_map r.map).0 runs))

-- The pointers after the grant: block `b` has the new address, the others have theirs.
StandsAt-granted :
    (x : INode) (b a : ℕ) → b < length x.block_ptrs → 0 < a → StandsAt (with_ptr x b a) b a
StandsAt-granted x b a lt h = record {
  pointer = get_elem?-set_self x.block_ptrs b (pos a) lt;
  positive = h;
}

StandsAt-kept : (x : INode) (b a c d : ℕ) → b ≢ c → StandsAt x c d → StandsAt (with_ptr x b a) c d
StandsAt-kept x b a c d ne s = record {
  pointer = get_elem?-set_ne x.block_ptrs (pos a) ne ∙ s.pointer;
  positive = s.positive;
}

StandsAt-old :
    (x : INode) (b a c d : ℕ)
    → b < length x.block_ptrs
    → StandsAt (with_ptr x b a) c d
    → ((b ≡ c) × (a ≡ d)) ⊎ ((b ≢ c) × StandsAt x c d)
StandsAt-old x b a c d lt s = elim (ℕ_discrete b c) [
  | yes e ↦
      let new : get_elem? (set x.block_ptrs b (pos a)) b ≡ some (pos a) =
        get_elem?-set_self x.block_ptrs b (pos a) lt in
      let old : get_elem? (set x.block_ptrs b (pos a)) b ≡ some (pos d) =
        subst (λ t. get_elem? (set x.block_ptrs b (pos a)) t ≡ some (pos d)) (sym e) s.pointer in
      inl (e, cc)
  | no ne ↦ inr (
    ne,
    record {
      pointer = sym (get_elem?-set_ne x.block_ptrs (pos a) ne) ∙ s.pointer;
      positive = s.positive;
    },
  )
]

-- A grant of a free block keeps the file system in order.
Ready-granted :
    (fs : FileSystem) (k b a : ℕ) (x : INode) (map : BitSet)
    → Ready fs k x
    → b < block_ptrs_per_inode
    → Marks fs.block_map a map
    → 0 < a
    → Ready (granted fs k x b a map) k (with_ptr x b a)
unfolding put_inode
Ready-granted fs k b a x map r lt m h = record {
  device = r.device;
  map = m.valid;
  covers = ap rounds m.same_count ∙ r.covers;
  master = elim (ℕ_discrete 0 a) [
    | yes e ↦ absurd (omega arith)
    | no ne ↦ m.others 0 ne ∙ r.master
  ];
  here = put_same;
  flat = r.flat;
  ptrs = length-set x.block_ptrs b (pos a) ∙ r.ptrs;
  inside = λ c d s. elim (StandsAt-old x b a c d in_ptrs s) [
    | inl (p, q) ↦ rw (← q) (omega (arith, m.in_range, r.covers), m.now_set)
    | inr (ne, old) ↦
        let (lt_d, set_d) = r.inside c d old in (lt_d, m.others d (not_new d set_d) ∙ set_d)
  ];
  apart = λ c d e s t. elim (StandsAt-old x b a c e in_ptrs s) [
    | inl (p, q) ↦ elim (StandsAt-old x b a d e in_ptrs t) [
      | inl (p', q') ↦ sym p ∙ p'
      | inr (ne', old') ↦ absurd (not_new e (r.inside d e old').1 (sym q))
    ]
    | inr (ne, old) ↦ elim (StandsAt-old x b a d e in_ptrs t) [
      | inl (p', q') ↦ absurd (not_new e (r.inside c e old).1 (sym q'))
      | inr (ne', old') ↦ r.apart c d e old old'
    ]
  ];
}
  where
    in_ptrs : b < length x.block_ptrs
    in_ptrs = omega (arith, r.ptrs)

    put_same :
        inode_at (put_inode (record fs { block_map = map }) k (with_ptr x b a)) k
        ≡ ok (with_ptr x b a)
    put_same =
        inode_at-put_self (record fs { block_map = map }) k (with_ptr x b a)
          (inode_at-inside fs k r.here)

    not_new : (d : ℕ) → bit fs.block_map d ≡ true → d ≢ a
    not_new d taken e =
        let clash : true ≡ false = sym taken ∙ ap (bit fs.block_map) e ∙ m.was_free in cc

-- What the lookup of block `b` for a write gives.
pub record Addressed (fs : FileSystem) (k b a : ℕ) (x : INode) (fs' : FileSystem) (x' : INode)
    : Type 0 where
  pub runs : get_disk_address_of_block fs k b true ≡ ok (pos a, fs')
  pub ready : Ready fs' k x'
  pub stands : StandsAt x' b a
  pub same_device : fs'.block_device ≡ fs.block_device
  pub kept : (c d : ℕ) → c ≢ b → StandsAt x c d → StandsAt x' c d
  pub taken : free_blocks fs ≤ free_blocks fs' + 1
  pub same_bytes : x'.num_bytes ≡ x.num_bytes
  pub same_master : fs'.master_block ≡ fs.master_block

lookup_absent :
    (fs : FileSystem) (k b a : ℕ) (x : INode) {p : ℤ} {map : BitSet}
    → Ready fs k x
    → b < block_ptrs_per_inode
    → get_elem? x.block_ptrs b ≡ some p
    → is_positive p ≡ false
    → allocate_block fs.block_map ≡ ok (pos a, map)
    → get_disk_address_of_block fs k b true ≡ ok (pos a, granted fs k x b a map)
unfolding allocate_ptr
lookup_absent fs k b a x {p} r lt e none_yet runs =
    lookup_flat fs k b true x r.here r.flat lt e ∙ rw (none_yet, allocate_ptr, runs)

granted-Addressed :
    (fs : FileSystem) (k b a : ℕ) (x : INode) (map : BitSet)
    → Ready fs k x
    → b < block_ptrs_per_inode
    → Marks fs.block_map a map
    → 0 < a
    → get_disk_address_of_block fs k b true ≡ ok (pos a, granted fs k x b a map)
    → allocate_block fs.block_map ≡ ok (pos a, map)
    → Addressed fs k b a x (granted fs k x b a map) (with_ptr x b a)
unfolding put_inode
granted-Addressed fs k b a x map r lt m h runs allocated = record {
  runs = runs;
  ready = Ready-granted fs k b a x map r lt m h;
  stands = StandsAt-granted x b a (omega (arith, r.ptrs)) h;
  same_device = refl;
  kept = λ c d ne s. StandsAt-kept x b a c d (λ q. ne (sym q)) s;
  taken = omega (arith, free_below-allocate_block fs.block_map a r.map allocated);
  same_bytes = refl;
  same_master = refl;
}

-- On a file system in order with a free block, getDiskAddressOfBlock with leave to allocate gives
-- an address for each of the sixteen blocks, keeps the other blocks and the length of the inode,
-- takes at most one free block, and leaves the file system in order.
pub address-Addressed :
    (fs : FileSystem) (k b : ℕ) (x : INode)
    → Ready fs k x
    → b < block_ptrs_per_inode
    → 0 < free_blocks fs
    → (a : ℕ) × (fs' : FileSystem) × (x' : INode) × Addressed fs k b a x fs' x'
address-Addressed fs k b x r lt room =
    let (p, e) = get_elem?_of_lt x.block_ptrs b (omega (arith, r.ptrs)) in by_pointer p e
  where
    absent :
        (p : ℤ)
        → get_elem? x.block_ptrs b ≡ some p
        → is_positive p ≡ false
        → (a : ℕ) × (fs' : FileSystem) × (x' : INode) × Addressed fs k b a x fs' x'
    absent p e none_yet =
        let (a, map, runs, m, h) = some_block fs k x r room in
        (
          a,
          granted fs k x b a map,
          with_ptr x b a,
          granted-Addressed fs k b a x map r lt m h (lookup_absent fs k b a x r lt e none_yet runs)
              runs,
        )

    by_pointer :
        (p : ℤ)
        → get_elem? x.block_ptrs b ≡ some p
        → (a : ℕ) × (fs' : FileSystem) × (x' : INode) × Addressed fs k b a x fs' x'
    by_pointer (pos zero) e = absent (pos zero) e refl
    by_pointer (negsuc n) e = absent (negsuc n) e refl
    by_pointer (pos (suc a)) e = (
      suc a,
      fs,
      x,
      record {
        runs = address-StandsAt fs k b (suc a) true x r lt stands;
        ready = r;
        stands = stands;
        same_device = refl;
        kept = λ c d ne s. s;
        taken = omega arith;
        same_bytes = refl;
        same_master = refl;
      },
    )
      where
        stands : StandsAt x b (suc a)
        stands = record { pointer = e; positive = omega arith }
