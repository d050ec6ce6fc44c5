-- ===== src/FileSystem/Access/Step.antt =====
-- inode.c: one round of the loop of iNodeWrite.
use cs.Prelude.{ℕ, ◌+◌, ◌<◌, ◌≤◌, ◌≡◌, ◌≢◌, ap, sym, ◌∙◌, subst, true, List, arith, length, pos}
use cs.Prelude.Run.{ok}
use cs.Device
use cs.Device.{BlockDevice, read_block, write_block}
use cs.Device.Transfer.{block_bytes, read_block-inside, write_block-Written, length-window}
use cs.INode.{INode, block_ptrs_per_inode}
use cs.FileSystem.{FileSystem, inode_at}
use cs.FileSystem.Access.{get_disk_address_of_block, patch, again, write_round}
use cs.FileSystem.Access.Address.{Ready, StandsAt, free_blocks}
use cs.FileSystem.Access.Grant.{address-Addressed}
use cs.FileSystem.Access.Copy.{length-patch}

-- What a round that writes `bytes` at `off` into block `i` has done: the block stands at `a`, and is
-- what it was there, `t`, with the bytes copied over; every other block of the inode is as it was.
pub record Wrote (fs : FileSystem) (k i off : ℕ) (bytes : List ℕ) (x : INode) (fs' : FileSystem)
    (x' : INode) (a : ℕ) (t : List ℕ) : Type 0 where
  pub runs : write_round fs k i off bytes ≡ ok (again fs')
  pub ready : Ready fs' k x'
  pub stands : StandsAt x' i a
  pub block : read_block fs'.block_device (pos a) ≡ (true, patch t off bytes)
  pub size : length t ≡ fs.block_device.bytes_per_block
  pub same_block : fs'.block_device.bytes_per_block ≡ fs.block_device.bytes_per_block
  pub kept :
      (c d : ℕ)
      → c ≢ i
      → StandsAt x c d
      → StandsAt x' c d × (read_block fs'.block_device (pos d) ≡ read_block fs.block_device (pos d))
  pub taken : free_blocks fs ≤ free_blocks fs' + 1
  pub same_bytes : x'.num_bytes ≡ x.num_bytes
  pub same_master : fs'.master_block ≡ fs.master_block

-- Another device of the same shape in the place of the device.
Ready-device :
    (fs : FileSystem) (k : ℕ) (x : INode) (bd : BlockDevice)
    → Ready fs k x
    → Device.IsValid bd
    → bd.block_count ≡ fs.block_device.block_count
    → Ready (record fs { block_device = bd }) k x
unfolding inode_at
Ready-device fs k x bd r v e = record {
  device = v;
  map = r.map;
  covers = r.covers ∙ sym e;
  master = r.master;
  here = r.here;
  flat = r.flat;
  ptrs = r.ptrs;
  inside = λ b a s. (omega (arith, (r.inside b a s).0), (r.inside b a s).1);
  apart = r.apart;
}

write_round-again :
    (fs fs' : FileSystem) (k i off a : ℕ) (bytes : List ℕ) {t : List ℕ}
    → get_disk_address_of_block fs k i true ≡ ok (pos a, fs')
    → read_block fs'.block_device (pos a) ≡ (true, t)
    → (write_block fs'.block_device (pos a) (patch t off bytes)).0 ≡ true
    → write_round fs k i off bytes
      ≡ ok (
          again (record fs' {
            block_device = (write_block fs'.block_device (pos a) (patch t off bytes)).1;
          }))
unfolding write_round
write_round-again fs fs' k i off a bytes found read wrote = rw (write_round, found, read, wrote)

-- On a file system in order with a free block, a round of iNodeWrite that stays inside its block
-- succeeds, copies its bytes over that block, leaves every other block of the inode as it was,
-- and keeps the file system in order.
pub write_round-Wrote :
    (fs : FileSystem) (k i off : ℕ) (bytes : List ℕ) (x : INode)
    → Ready fs k x
    → i < block_ptrs_per_inode
    → 0 < free_blocks fs
    → off + length bytes ≤ fs.block_device.bytes_per_block
    → (fs' : FileSystem) × (x' : INode) × (a : ℕ) × (t : List ℕ) × Wrote fs k i off bytes x fs' x' a
        t
write_round-Wrote fs k i off bytes x r lt room fits =
    let (a, fs1, x1, at) = address-Addressed fs k i x r lt room in
    let bd = fs1.block_device in
    let shape = ap (λ (d : BlockDevice). d.bytes_per_block) at.same_device in
    let t = block_bytes bd a in
    let inside = (at.ready.inside i a at.stands).0 in
    let size : length t ≡ bd.bytes_per_block = length-window _ _ _ in
    let read = read_block-inside a at.ready.device inside in
    let new = patch t off bytes in
    let (done, w) =
      write_block-Written bd a new at.ready.device inside
        (length-patch t off bytes (omega arith) ∙ size) in
    (
      record fs1 { block_device = (write_block bd (pos a) new).1 },
      x1,
      a,
      t,
      record {
        runs = write_round-again fs fs1 k i off a bytes at.runs read done;
        ready = Ready-device fs1 k x1 _ at.ready w.valid w.same_count;
        stands = at.stands;
        block = w.reads_back;
        size = size ∙ shape;
        same_block = w.same_bytes ∙ shape;
        kept = λ c d ne s.
            let s1 = at.kept c d ne s in
            (
              s1,
              w.others d (at.ready.inside c d s1).0
                    (λ e. ne (at.ready.apart c i d s1 (subst (StandsAt x1 i) (sym e) at.stands)))
                  ∙ ap (λ v. read_block v (pos d)) at.same_device,
            );
        taken = at.taken;
        same_bytes = at.same_bytes;
        same_master = at.same_master;
      },
    )
