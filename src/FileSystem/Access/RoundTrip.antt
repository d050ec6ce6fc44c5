-- ===== src/FileSystem/Access/RoundTrip.antt =====
-- inode.c: iNodeWrite and then iNodeRead of the same range.
use cs.Prelude.{
  ℕ, ◌+◌, ◌-◌, ◌*◌, ◌/◌, ◌<◌, ◌≤◌, ◌≡◌, refl, ap, sym, ◌∙◌, subst, true, List, [], arith, length,
  max, take, take-length, ltb, Bool-cases, inl, inr,
}
use native.Mathlib.Nat.{div-eq_of_lt, lt-div-mul-add}
use cs.Prelude.Run.{ok}
use cs.Device.{BlockDevice}
use cs.INode.{INode, block_ptrs_per_inode}
use cs.FileSystem.{FileSystem, put_inode}
use cs.FileSystem.Inodes.{inode_at-inside, inode_at-put_self}
use cs.FileSystem.Access.{read_loop, write_loop, num_blocks, inode_read, inode_write, extend}
use cs.FileSystem.Access.Address.{Ready, free_blocks}
use cs.FileSystem.Access.File.{span_all, Filled, read_loop-Filled, write_loop-Stored}

-- What the update of the length has done.
record Extended (fs : FileSystem) (k e : ℕ) (x : INode) (fs' : FileSystem) (x' : INode)
    : Type 0 where
  pub runs : extend fs k e ≡ ok fs'
  pub ready : Ready fs' k x'
  pub same_device : fs'.block_device ≡ fs.block_device
  pub same_ptrs : x'.block_ptrs ≡ x.block_ptrs
  pub bytes : x'.num_bytes ≡ max x.num_bytes e
  pub same_master : fs'.master_block ≡ fs.master_block

extend-longer :
    (fs : FileSystem) (k e : ℕ) (x : INode)
    → Ready fs k x
    → ltb x.num_bytes e ≡ true
    → Extended fs k e x (put_inode fs k (record x { num_bytes = e })) (record x { num_bytes = e })
unfolding put_inode extend
extend-longer fs k e x r lt = record {
  runs = rw (extend, r.here, lt);
  ready = record {
    device = r.device;
    map = r.map;
    covers = r.covers;
    master = r.master;
    here = inode_at-put_self fs k (record x { num_bytes = e }) (inode_at-inside fs k r.here);
    flat = r.flat;
    ptrs = r.ptrs;
    inside = λ b a s. r.inside b a (record { pointer = s.pointer; positive = s.positive });
    apart = λ b c a s t.
        r.apart b c a (record { pointer = s.pointer; positive = s.positive })
          (record { pointer = t.pointer; positive = t.positive });
  };
  same_device = refl;
  same_ptrs = refl;
  bytes = ground arith;
  same_master = refl;
}

extend-Extended :
    (fs : FileSystem) (k e : ℕ) (x : INode)
    → Ready fs k x
    → (fs' : FileSystem) × (x' : INode) × Extended fs k e x fs' x'
unfolding extend
extend-Extended fs k e x r = elim (Bool-cases (ltb x.num_bytes e)) [
  | inl lt ↦ (
    put_inode fs k (record x { num_bytes = e }),
    record x { num_bytes = e },
    extend-longer fs k e x r lt,
  )
  | inr ge ↦ (
    fs,
    x,
    record {
      runs = rw (extend, r.here, ge);
      ready = r;
      same_device = refl;
      same_ptrs = refl;
      bytes = ground arith;
      same_master = refl;
    },
  )
]

-- A range that starts in the first block is met by the rounds of the loop.
rounds_cover :
    (start num b : ℕ) → start < b → (start / b ≡ 0) × (num + start ≤ num_blocks start num b * b)
rounds_cover start num b lt =
    let first : start / b ≡ 0 = div-eq_of_lt lt in
    let last = lt-div-mul-add {a = start + num} {b = b} (omega arith) in
    (
      first,
      subst (λ q. num + start ≤ ((start + num) / b - q + 1) * b) (sym first) (grind (arith, last)),
    )

-- iNodeWrite stores its buffer for iNodeRead.
inode_write-runs :
    (fs fs1 fs2 : FileSystem) (k start num c : ℕ) (buffer : List ℕ)
    → start < fs.block_device.bytes_per_block
    → write_loop fs k num buffer (num_blocks start num fs.block_device.bytes_per_block) 0 start 0
      ≡ ok (true, c, fs1)
    → extend fs1 k (start + c) ≡ ok fs2
    → inode_write fs k start num buffer ≡ ok (c, fs2)
unfolding inode_write
inode_write-runs fs fs1 fs2 k start num c buffer lt loop ext =
    let b = fs.block_device.bytes_per_block in
    let positive : ltb 0 b ≡ true = ground arith in
    let first : start - start / b * b ≡ start =
      rw ((rounds_cover start num b lt).0) (omega arith) in
    rw (inode_write, positive, first, loop, ext)

inode_read-runs :
    (fs : FileSystem) (k start num c : ℕ) (buffer : List ℕ)
    → start < fs.block_device.bytes_per_block
    → read_loop fs k num (num_blocks start num fs.block_device.bytes_per_block) 0 start 0 []
      ≡ ok (c, buffer)
    → inode_read fs k start num ≡ ok (c, buffer)
unfolding inode_read
inode_read-runs fs k start num c buffer lt loop =
    let b = fs.block_device.bytes_per_block in
    let positive : ltb 0 b ≡ true = ground arith in
    let first : start - start / b * b ≡ start =
      rw ((rounds_cover start num b lt).0) (omega arith) in
    rw (inode_read, positive, first, loop)

-- On a file system in order, for a range that starts in the first block of an inode and stays
-- inside its sixteen blocks, with enough free blocks, iNodeWrite writes the whole buffer,
-- iNodeRead of the range then returns the buffer, the file system stays in order, the length
-- becomes the larger of the old length and the end of the range, and the master block is as it
-- was.
pub inode_read-inode_write :
    (fs : FileSystem) (k : ℕ) (x : INode) (start num : ℕ) (buffer : List ℕ)
    → Ready fs k x
    → start < fs.block_device.bytes_per_block
    → num ≡ length buffer
    → num_blocks start num fs.block_device.bytes_per_block ≤ block_ptrs_per_inode
    → num_blocks start num fs.block_device.bytes_per_block ≤ free_blocks fs
    → (fs' : FileSystem) × (x' : INode) × (inode_write fs k start num buffer ≡ ok (num, fs'))
      × (inode_read fs' k start num ≡ ok (num, buffer))
      × Ready fs' k x'
      × (x'.num_bytes ≡ max x.num_bytes (start + num))
      × (fs'.master_block ≡ fs.master_block)
inode_read-inode_write fs k x start num buffer r lt len fits room =
    let b = fs.block_device.bytes_per_block in
    let n = num_blocks start num b in
    let (fs1, x1, st) =
      write_loop-Stored n fs k x num buffer 0 start 0 r (omega arith) room (omega arith)
        (omega arith) len in
    let (fs2, x2, ex) = extend-Extended fs1 k (start + num) x1 st.ready in
    let all =
      span_all b num n start 0 (omega arith) (omega arith)
        (omega (arith, (rounds_cover start num b lt).1)) in
    let same : fs2.block_device.bytes_per_block ≡ b =
      ap (λ (d : BlockDevice). d.bytes_per_block) ex.same_device ∙ st.same_block in
    let filled : Filled fs2.block_device.bytes_per_block fs2.block_device x2.block_ptrs num buffer n
        0 start 0 =
      subst (λ c. Filled c fs2.block_device x2.block_ptrs num buffer n 0 start 0) (sym same)
        (subst (λ d. Filled b d x2.block_ptrs num buffer n 0 start 0) (sym ex.same_device)
          (subst (λ p. Filled b fs1.block_device p num buffer n 0 start 0) (sym ex.same_ptrs)
            st.filled)) in
    let all_bytes : take num buffer ≡ buffer =
      subst (λ c. take c buffer ≡ buffer) (sym len) (take-length buffer) in
    let loop : read_loop fs2 k num n 0 start 0 [] ≡ ok (num, buffer) =
      read_loop-Filled n fs2 k x2 num buffer 0 start 0 ex.ready (omega arith) filled
      ∙ rw (same, all, all_bytes) in
    (
      fs2,
      x2,
      inode_write-runs fs fs1 fs2 k start num num buffer lt (st.runs ∙ rw all) ex.runs,
      inode_read-runs fs2 k start num num buffer (omega arith) (rw same loop),
      ex.ready,
      rw (ex.bytes, st.same_bytes),
      ex.same_master ∙ st.same_master,
    )
