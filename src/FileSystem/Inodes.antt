-- ===== src/FileSystem/Inodes.antt =====
-- inode.c: allocateINode and freeINode.
use cs.Prelude.{
  ℕ, zero, suc, ◌+◌, ◌<◌, ◌≡◌, ◌≢◌, refl, ap, ◌∙◌, sym, true, false, arith, Bool-cases, inl, inr,
  length, get_elem?_of_lt, get_elem?_inside, get_elem?-set_self, get_elem?-set_ne, ◌==◌,
}
use native.Mathlib.Decide.{ℕ_discrete}
use cs.Prelude.Run.{ok, fault}
use cs.INode.{INode, is_free, allocated_status, free_status}
use cs.FileSystem.{
  FileSystem, HasInodes, inode_at, put_inode, allocate_inode, allocate_inode_from, free_inode,
}

-- The state of inode `i` in the map: whether it is there and free.
abbrev pub IsFreeAt : FileSystem → ℕ → Type 0
IsFreeAt fs i = (x : INode) × (inode_at fs i ≡ ok x) × (is_free x.status ≡ true)

abbrev pub IsTakenAt : FileSystem → ℕ → Type 0
IsTakenAt fs i = (x : INode) × (inode_at fs i ≡ ok x) × (is_free x.status ≡ false)

abbrev pub taken_inode : INode → INode
taken_inode x = record x { status = allocated_status; owner_uid = 0xcafef00d }

pub inode_at-ok :
    (fs : FileSystem) (i : ℕ) → i < length fs.inode_map → (x : INode) × (inode_at fs i ≡ ok x)
unfolding inode_at
inode_at-ok fs i h = let (x, e) = get_elem?_of_lt fs.inode_map i h in (x, rw (inode_at, e))

pub inode_at-inside :
    (fs : FileSystem) (i : ℕ) {x : INode} → inode_at fs i ≡ ok x → i < length fs.inode_map
unfolding inode_at
inode_at-inside fs i e = grind (arith, get_elem?_inside fs.inode_map i)

pub inode_at-put_self :
    (fs : FileSystem) (i : ℕ) (y : INode)
    → i < length fs.inode_map
    → inode_at (put_inode fs i y) i ≡ ok y
unfolding inode_at put_inode
inode_at-put_self fs i y h = rw (inode_at, get_elem?-set_self fs.inode_map i y h)

pub inode_at-put_ne :
    (fs : FileSystem) (i j : ℕ) (y : INode) → i ≢ j → inode_at (put_inode fs i y) j ≡ inode_at fs j
unfolding inode_at put_inode
inode_at-put_ne fs i j y ne = rw (inode_at, get_elem?-set_ne fs.inode_map y ne)

-- What `allocateINode` may return and leave behind.
pub data AllocatedINode (fs : FileSystem) : ℕ → FileSystem → Type 0 where
  found :
      (i : ℕ) (x : INode)
      → i < fs.master_block.inode_count
      → inode_at fs i ≡ ok x
      → is_free x.status ≡ true
      → ((j : ℕ) → j < i → IsTakenAt fs j)
      → AllocatedINode fs i (put_inode fs i (taken_inode x))
  exhausted : ((j : ℕ) → j < fs.master_block.inode_count → IsTakenAt fs j) → AllocatedINode fs 0 fs

allocate_inode_from-AllocatedINode :
    (n : ℕ) (fs : FileSystem) (i : ℕ)
    → HasInodes fs
    → i + n ≡ fs.master_block.inode_count
    → ((j : ℕ) → j < i → IsTakenAt fs j)
    → (z : ℕ) × (fs' : FileSystem) × (allocate_inode_from n fs i ≡ ok (z, fs'))
      × AllocatedINode fs z fs'
unfolding allocate_inode_from
allocate_inode_from-AllocatedINode zero fs i has e below =
    (0, fs, refl, exhausted (λ j lt. below j (omega arith)))
allocate_inode_from-AllocatedINode (suc n) fs i has e below =
    let (x, at) = inode_at-ok fs i (omega (arith, has.all_there)) in
    elim (Bool-cases (is_free x.status)) [
      | inl free ↦ (
        i,
        put_inode fs i (taken_inode x),
        rw (allocate_inode_from, at, free),
        found i x (omega arith) at free below,
      )
      | inr taken ↦
          let (z, fs', runs, a) =
            allocate_inode_from-AllocatedINode n fs (i + 1) has (omega arith) (λ j lt.
              elim (ℕ_discrete j i) [
                | yes p ↦ (x, rw p at, taken)
                | no ne ↦ below j (omega arith)
              ]) in
          (z, fs', rw (allocate_inode_from, at, taken) runs, a)
    ]

-- On a whole inode map allocateINode does not fault; it returns the lowest free inode, which is
-- now allocated, or, when every inode is taken, 0 with nothing changed.
pub allocate_inode-AllocatedINode :
    (fs : FileSystem)
    → HasInodes fs
    → (z : ℕ) × (fs' : FileSystem) × (allocate_inode fs ≡ ok (z, fs')) × AllocatedINode fs z fs'
unfolding allocate_inode
allocate_inode-AllocatedINode fs has =
    allocate_inode_from-AllocatedINode fs.master_block.inode_count fs 0 has (omega arith)
      (λ j lt. absurd (omega arith))

-- When every inode of a whole map is taken, allocateINode returns 0, which is also the index of
-- the first inode.
pub allocate_inode-exhausted :
    (fs : FileSystem)
    → HasInodes fs
    → ((j : ℕ) → j < fs.master_block.inode_count → IsTakenAt fs j)
    → allocate_inode fs ≡ ok (0, fs)
allocate_inode-exhausted fs has all = outcome (allocate_inode-AllocatedINode fs has)
  where
    outcome :
        (z : ℕ) × (fs' : FileSystem) × (allocate_inode fs ≡ ok (z, fs')) × AllocatedINode fs z fs'
        → allocate_inode fs ≡ ok (0, fs)
    outcome (z, fs', runs, exhausted h) = runs
    outcome (z, fs', runs, found i x lt at free below) =
        let (y, at', taken) = all i lt in
        let same : ok x ≡ ok y = sym at ∙ at' in
        let e : x ≡ y = cc in
        let clash : true ≡ false = sym free ∙ ap (λ (t : INode). is_free t.status) e ∙ taken in cc

-- `freeINode` of an inode in use without links succeeds, frees it with its other fields as they
-- were, leaves every other inode as it was, and a second freeINode of it fails its assertion.
pub free_inode-taken :
    (fs : FileSystem) (i : ℕ) (x : INode)
    → inode_at fs i ≡ ok x
    → is_free x.status ≡ false
    → x.link_count ≡ 0
    → (fs' : FileSystem) × (free_inode fs i ≡ ok fs')
      × (inode_at fs' i ≡ ok (record x { owner_uid = 0xfeedfeed; status = free_status }))
      × ((j : ℕ) → j ≢ i → inode_at fs' j ≡ inode_at fs j)
      × (free_inode fs' i ≡ fault)
unfolding free_inode
free_inode-taken fs i x at taken links =
    let y = record x { owner_uid = 0xfeedfeed; status = free_status } in
    let unlinked : (x.link_count == 0) ≡ true = ground arith in
    let self = inode_at-put_self fs i y (inode_at-inside fs i at) in
    (
      put_inode fs i y,
      rw (free_inode, at, taken, unlinked),
      self,
      λ j ne. inode_at-put_ne fs i j y (λ e. ne (sym e)),
      rw (free_inode, self),
    )
