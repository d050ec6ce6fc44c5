-- ===== src/FileSystem/Access/Bounds.antt =====
-- inode.c: how much iNodeRead and iNodeWrite move at most, and what iNodeWrite leaves alone, on every
-- file system.
use cs.Prelude.{
  ℕ, zero, suc, ◌+◌, ◌-◌, ◌*◌, ◌/◌, ◌≤◌, ◌≡◌, ◌∙◌, subst, refl, min, Bool, true, false, List, [],
  ◌++◌, arith, length-append, length-take, ltb, if◌then◌else◌, length, take, drop, ℤ, inl, inr,
  Bool-cases,
}
use cs.Prelude.Run.{Run, ok, fault, assert-ok, ◌>>=◌}
use cs.FileSystem.{FileSystem, inode_at, put_inode}
use cs.INode.{INode}
use cs.FileSystem.Access.{
  Round, again, stopped, num_blocks, get_disk_address_of_block, disk_address_at_level, allocate_ptr,
  read_loop, inode_read, write_round, write_loop, extend, inode_write,
}

-- The parts of a file system that a write has no business with.
pub record Keeps (fs fs' : FileSystem) : Type 0 where
  pub root : fs'.root_dir ≡ fs.root_dir
  pub master : fs'.master_block ≡ fs.master_block

disk_address_at_level-Keeps :
    (fs : FileSystem) (k b : ℕ) (alloc : Bool) (level : ℕ) {r : ℤ × FileSystem}
    → disk_address_at_level fs k b alloc level ≡ ok r
    → Keeps fs r.1
unfolding disk_address_at_level allocate_ptr put_inode
disk_address_at_level-Keeps fs k b alloc zero e = record {
  root = grind arith;
  master = grind arith;
}
disk_address_at_level-Keeps fs k b alloc (suc level) e = record {
  root = grind arith;
  master = grind arith;
}

address-Keeps :
    (fs : FileSystem) (k b : ℕ) (alloc : Bool) {r : ℤ × FileSystem}
    → get_disk_address_of_block fs k b alloc ≡ ok r
    → Keeps fs r.1
unfolding get_disk_address_of_block
address-Keeps fs k b alloc e = after (inode_at fs k) e
  where
    after :
        (m : Run INode) {r : ℤ × FileSystem}
        → (m >>= λ x. disk_address_at_level fs k b alloc x.level) ≡ ok r
        → Keeps fs r.1
    after fault e = absurd (cc)
    after (ok x) e = disk_address_at_level-Keeps fs k b alloc x.level e

-- The file system at the end of a round.
abbrev at_end : Round → FileSystem
at_end (again fs) = fs
at_end (stopped fs) = fs

write_round-Keeps :
    (fs : FileSystem) (k i off : ℕ) (bytes : List ℕ) {r : Round}
    → write_round fs k i off bytes ≡ ok r
    → Keeps fs (at_end r)
unfolding write_round
write_round-Keeps fs k i off bytes {r} e = record {
  root = grind (arith, kept);
  master = grind (arith, kept);
}
  where
    kept :
        (q : ℤ × FileSystem)
        → get_disk_address_of_block fs k i true ≡ ok q
        → (q.1.root_dir ≡ fs.root_dir) × (q.1.master_block ≡ fs.master_block)
    kept q e' = ((address-Keeps fs k i true e').root, (address-Keeps fs k i true e').master)

-- What a loop may have done when it ends: no more bytes than asked for, and the rest as it was.
pub record Bounded (fs : FileSystem) (num_bytes written : ℕ) (fs' : FileSystem) : Type 0 where
  pub at_most : written ≤ num_bytes
  pub keeps : Keeps fs fs'

pub Keeps-trans : {fs fs' fs'' : FileSystem} → Keeps fs fs' → Keeps fs' fs'' → Keeps fs fs''
Keeps-trans p q = record { root = q.root ∙ p.root; master = q.master ∙ p.master }

after_round :
    (fs : FileSystem) (num_bytes done : ℕ) (next : FileSystem → Run (Bool × ℕ × FileSystem))
    (m : Run Round) {r : Bool × ℕ × FileSystem}
    → done ≤ num_bytes
    → ((q : Round) → m ≡ ok q → Keeps fs (at_end q))
    → ((fs' : FileSystem) (r : Bool × ℕ × FileSystem)
        → next fs' ≡ ok r
        → Bounded fs' num_bytes r.1 r.2)
    → (m >>= λ q. elim q [ stopped fs' ↦ ok (false, done, fs') | again fs' ↦ next fs' ]) ≡ ok r
    → Bounded fs num_bytes r.1 r.2
after_round fs num_bytes done next fault le f g e = absurd (cc)
after_round fs num_bytes done next (ok (stopped fs')) {r} le f g e =
    let kept = f (stopped fs') refl in
    let root = kept.root in
    let master = kept.master in
    record { at_most = grind arith; keeps = record { root = grind arith; master = grind arith } }
after_round fs num_bytes done next (ok (again fs')) {r} le f g e =
    let later = g fs' r e in
    record { at_most = later.at_most; keeps = Keeps-trans (f (again fs') refl) later.keeps }

write_loop-Bounded :
    (fs : FileSystem) (k num_bytes : ℕ) (buffer : List ℕ) (n i off done : ℕ)
    {r : Bool × ℕ × FileSystem}
    → done ≤ num_bytes
    → write_loop fs k num_bytes buffer n i off done ≡ ok r
    → Bounded fs num_bytes r.1 r.2
unfolding write_loop
write_loop-Bounded fs k num_bytes buffer zero i off done {r} le e = record {
  at_most = grind arith;
  keeps = record { root = grind arith; master = grind arith };
}
write_loop-Bounded fs k num_bytes buffer (suc n) i off done {r} le e =
    let byte_count = min (fs.block_device.bytes_per_block - off) (num_bytes - done) in
    let next : FileSystem → Run (Bool × ℕ × FileSystem) =
      λ fs'. write_loop fs' k num_bytes buffer n (i + 1) 0 (done + byte_count) in
    elim (Bool-cases (ltb (length buffer) (done + byte_count))) [
      | inl short ↦ absurd (grind arith)
      | inr fits ↦
          after_round fs num_bytes done next
            (write_round fs k i off (take byte_count (drop done buffer))) le
            (λ q e'. write_round-Keeps fs k i off (take byte_count (drop done buffer)) e')
            (λ fs' q e'.
              write_loop-Bounded fs' k num_bytes buffer n (i + 1) 0 (done + byte_count)
                (omega arith) e')
            (subst
              (λ t.
                (if t
                  then fault
                  else (write_round fs k i off (take byte_count (drop done buffer)) >>= λ q.
                      elim q [ stopped fs' ↦ ok (false, done, fs') | again fs' ↦ next fs' ]))
                ≡ ok r)
              fits e)
    ]

extend-Keeps :
    (fs : FileSystem) (k end_offset : ℕ) {fs' : FileSystem}
    → extend fs k end_offset ≡ ok fs'
    → Keeps fs fs'
unfolding extend put_inode
extend-Keeps fs k end_offset e = record { root = grind arith; master = grind arith }

after_loop :
    (fs : FileSystem) (k start num_bytes : ℕ) (m : Run (Bool × ℕ × FileSystem)) {r : ℕ × FileSystem}
    → ((q : Bool × ℕ × FileSystem) → m ≡ ok q → Bounded fs num_bytes q.1 q.2)
    → (m >>= λ q.
        if q.0 then (extend q.2 k (start + q.1) >>= λ fs'. ok (q.1, fs')) else ok (q.1, q.2))
      ≡ ok r
    → Bounded fs num_bytes r.0 r.1
after_loop fs k start num_bytes fault f e = absurd (cc)
after_loop fs k start num_bytes (ok (false, n, fs')) {r} f e =
    subst (λ (t : ℕ × FileSystem). Bounded fs num_bytes t.0 t.1)
      (let same : (n, fs') ≡ r = cc in same) (f (false, n, fs') refl)
after_loop fs k start num_bytes (ok (true, n, fs')) {r} f e =
    let b = f (true, n, fs') refl in
    let longer : (q : FileSystem)
        → extend fs' k (start + n) ≡ ok q
        → (q.root_dir ≡ fs'.root_dir) × (q.master_block ≡ fs'.master_block) =
      λ q e'.
        ((extend-Keeps fs' k (start + n) e').root, (extend-Keeps fs' k (start + n) e').master) in
    let most = b.at_most in
    let root = b.keeps.root in
    let master = b.keeps.master in
    record {
      at_most = grind arith;
      keeps = record { root = grind (arith, longer); master = grind (arith, longer) };
    }

pub inode_write-Bounded :
    (fs : FileSystem) (k start num_bytes : ℕ) (buffer : List ℕ) {r : ℕ × FileSystem}
    → inode_write fs k start num_bytes buffer ≡ ok r
    → Bounded fs num_bytes r.0 r.1
unfolding inode_write
inode_write-Bounded fs k start num_bytes buffer {r} e =
    let b = fs.block_device.bytes_per_block in
    let loop =
      write_loop fs k num_bytes buffer (num_blocks start num_bytes b) 0 (start - start / b * b) 0 in
    let all : Run (ℕ × FileSystem) = loop >>= λ q.
    if q.0 then (extend q.2 k (start + q.1) >>= λ fs'. ok (q.1, fs')) else ok (q.1, q.2) in
    after_loop fs k start num_bytes loop
      (λ q e'.
        write_loop-Bounded fs k num_bytes buffer (num_blocks start num_bytes b) 0
          (start - start / b * b) 0 (omega arith) e')
      (assert-ok (ltb 0 b) all e)

read_loop_bound :
    (fs : FileSystem) (k num_bytes n i off done : ℕ) (buffer : List ℕ) {r : ℕ × List ℕ}
    → done ≤ num_bytes
    → length buffer ≤ done
    → read_loop fs k num_bytes n i off done buffer ≡ ok r
    → (r.0 ≤ num_bytes) × (length r.1 ≤ r.0)
unfolding read_loop
read_loop_bound fs k num_bytes zero i off done buffer le len e = (grind arith, grind arith)
read_loop_bound fs k num_bytes (suc n) i off done buffer {r} le len e =
    let byte_count = min (fs.block_device.bytes_per_block - off) (num_bytes - done) in
    let longer : (t : List ℕ)
        → length (buffer ++ take byte_count (drop off t)) ≤ done + byte_count =
      λ t. omega (
        arith,
        length-append buffer (take byte_count (drop off t)),
        length-take byte_count (drop off t),
      ) in
    let rest : (t : List ℕ)
        → read_loop fs k num_bytes n (i + 1) 0 (done + byte_count)
            (buffer ++ take byte_count (drop off t))
          ≡ ok r
        → (r.0 ≤ num_bytes) × (length r.1 ≤ r.0) =
      λ t e'.
        read_loop_bound fs k num_bytes n (i + 1) 0 (done + byte_count)
          (buffer ++ take byte_count (drop off t)) (omega arith) (longer t) e' in
    (grind (arith, rest), grind (arith, rest))

-- On every file system, an iNodeRead that returns reports at most the bytes that it was asked
-- for, and has put no more bytes than it reports in front of the buffer.
pub inode_read_bound :
    (fs : FileSystem) (k start num_bytes : ℕ) {r : ℕ × List ℕ}
    → inode_read fs k start num_bytes ≡ ok r
    → (r.0 ≤ num_bytes) × (length r.1 ≤ r.0)
unfolding inode_read
inode_read_bound fs k start num_bytes {r} e =
    let b = fs.block_device.bytes_per_block in
    let looped : read_loop fs k num_bytes (num_blocks start num_bytes b) 0 (start - start / b * b) 0
            []
          ≡ ok r
        → (r.0 ≤ num_bytes) × (length r.1 ≤ r.0) =
      λ e'.
        read_loop_bound fs k num_bytes (num_blocks start num_bytes b) 0 (start - start / b * b) 0 []
          (omega arith) (omega arith) e' in
    (grind (arith, looped), grind (arith, looped))
