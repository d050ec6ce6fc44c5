-- ===== src/INode/Image.antt =====
-- inode.h: the image of an inode in memory.
use cs.Prelude.{
  ℕ, ◌*◌, ◌≡◌, refl, ap, ap₂, subst, ◌∙◌, List, [], ◌∷◌, arith, length, ℤ, IsInt, int_of_bits,
  bits_of_int, bits_of_int-lt, int_of_bits-bits_of_int,
}
use cs.Prelude.Bytes.{
  le_bytes, le_value, le_value-le_bytes_16, le_value-le_bytes_32, le_value-le_bytes_64,
}
use cs.INode.{
  INode, Fits, type_of, status_of, type_value, status_value, ptrs_memory, ptrs_of, inode_memory,
  inode_of, sizeof_inode,
}

abbrev pub AllInts : List ℤ → Type 0
AllInts [] = Unit
AllInts (p ∷ ps) = IsInt p × AllInts ps

int_at : (z : ℤ) → IsInt z → int_of_bits (le_value (le_bytes 4 (bits_of_int z))) ≡ z
int_at z h =
    ap int_of_bits (le_value-le_bytes_32 (bits_of_int z) (bits_of_int-lt z))
    ∙ int_of_bits-bits_of_int z h

length-ptrs_memory : (ps : List ℤ) → length (ptrs_memory ps) ≡ 4 * length ps
unfolding ptrs_memory
length-ptrs_memory [] = refl
length-ptrs_memory (p ∷ ps) = omega (arith, length-ptrs_memory ps)

ptrs_of-ptrs_memory : (ps : List ℤ) → AllInts ps → ptrs_of (length ps) (ptrs_memory ps) ≡ ps
unfolding ptrs_memory ptrs_of
ptrs_of-ptrs_memory [] h = refl
ptrs_of-ptrs_memory (p ∷ ps) h = ap₂ ◌∷◌ (int_at p h.0) (ptrs_of-ptrs_memory ps h.1)

ptrs_of-length :
    (ps : List ℤ) (n : ℕ) → length ps ≡ n → AllInts ps → ptrs_of n (ptrs_memory ps) ≡ ps
ptrs_of-length ps n e ints =
    subst (λ n. ptrs_of n (ptrs_memory ps) ≡ ps) e (ptrs_of-ptrs_memory ps ints)

-- An inode whose fields fit takes `sizeof(INode)` bytes.
pub length-inode_memory : (x : INode) → Fits x → length (inode_memory x) ≡ sizeof_inode
unfolding inode_memory
length-inode_memory x f = omega (arith, f.ptrs, length-ptrs_memory x.block_ptrs)

-- The 128 bytes of an inode whose fields fit their C types read back as the inode.
pub inode_of-inode_memory :
    (x : INode) → Fits x → AllInts x.block_ptrs → inode_of (inode_memory x) ≡ x
unfolding inode_of inode_memory
inode_of-inode_memory x f ints = λ i. record {
  inode_num = int_at x.inode_num f.num_int i;
  owner_uid = le_value-le_bytes_32 x.owner_uid f.owner_u32 i;
  gid = le_value-le_bytes_32 x.gid f.gid_u32 i;
  type = (ap type_of (le_value-le_bytes_32 (type_value x.type) f.type_u32) ∙ f.type_named) i;
  perms = le_value-le_bytes_16 x.perms f.perms_u16 i;
  status =
      (ap status_of (le_value-le_bytes_32 (status_value x.status) f.status_u32) ∙ f.status_named) i;
  link_count = le_value-le_bytes_16 x.link_count f.links_u16 i;
  cdate = le_value-le_bytes_64 x.cdate f.cdate_u64 i;
  mdate = le_value-le_bytes_64 x.mdate f.mdate_u64 i;
  level = le_value-le_bytes_16 x.level f.level_u16 i;
  num_bytes = le_value-le_bytes_64 x.num_bytes f.bytes_u64 i;
  block_ptrs = ptrs_of-length x.block_ptrs 16 f.ptrs ints i;
}
