-- ===== src/Cpp/Nodes/Image.antt =====
-- my_Blocks_c++/header_files/inode.hh: the image of the inodes in memory.
use cs.Prelude.{
  ℕ, ◌*◌, ◌≡◌, refl, ap, ap₂, subst, ◌∙◌, List, [], ◌∷◌, ◌++◌, arith, length, take, drop,
  length-append, take-append, drop-append, ℤ, pos, negsuc,
}
use cs.Prelude.Bytes.{
  le_bytes, le_value, le_value-le_bytes_16, le_value-le_bytes_32, le_value-le_bytes_64,
}
use cs.Cpp.Nodes.{
  INode, short_of_bits, bits_of_short, node_type_of, node_type_value, pointers_memory, pointers_of,
  node_memory, node_of, nodes_memory, nodes_of, sizeof_node,
}
use cs.Prelude.{◌<◌, ◌^◌}
use cs.Cpp.Nodes.{block_pointers, padding_per_inode}

-- The fields fit in their C types, and the arrays have their sizes.
abbrev pub IsShort : ℤ → Type 0
IsShort (pos n) = n < 2 ^ 15
IsShort (negsuc n) = n < 2 ^ 15

abbrev pub AllShorts : List ℤ → Type 0
AllShorts [] = Unit
AllShorts (p ∷ ps) = IsShort p × AllShorts ps

pub record Fits (x : INode) : Type 0 where
  pub num_short : IsShort x.inode_num
  pub owner_u32 : x.owner_uid < 2 ^ 32
  pub gid_u32 : x.gid < 2 ^ 32
  pub type_named : node_type_of (node_type_value x.type) ≡ x.type
  pub type_u32 : node_type_value x.type < 2 ^ 32
  pub perms_u16 : x.perms < 2 ^ 16
  pub status_u16 : x.status < 2 ^ 16
  pub links_u16 : x.link_count < 2 ^ 16
  pub cdate_u64 : x.cdate < 2 ^ 64
  pub mdate_u64 : x.mdate < 2 ^ 64
  pub level_u16 : x.level < 2 ^ 16
  pub bytes_u64 : x.num_bytes < 2 ^ 64
  pub pointers : length x.block_ptrs ≡ block_pointers
  pub pointers_short : AllShorts x.block_ptrs
  pub padding_bytes : length x.padding ≡ padding_per_inode

short_at : (z : ℤ) → IsShort z → short_of_bits (le_value (le_bytes 2 (bits_of_short z))) ≡ z
short_at (pos n) h = ground arith
short_at (negsuc n) h = ground arith

length-pointers_memory : (ps : List ℤ) → length (pointers_memory ps) ≡ 2 * length ps
unfolding pointers_memory
length-pointers_memory [] = refl
length-pointers_memory (p ∷ ps) = omega (arith, length-pointers_memory ps)

pointers_of-pointers_memory :
    (ps : List ℤ) (rest : List ℕ)
    → AllShorts ps
    → pointers_of (length ps) (pointers_memory ps ++ rest) ≡ ps
unfolding pointers_memory pointers_of
pointers_of-pointers_memory [] rest h = refl
pointers_of-pointers_memory (p ∷ ps) rest h =
    ap₂ ◌∷◌ (short_at p h.0) (pointers_of-pointers_memory ps rest h.1)

-- An inode whose fields fit takes `sizeof(iNode)` bytes.
pub length-node_memory : (x : INode) → Fits x → length (node_memory x) ≡ sizeof_node
unfolding node_memory
length-node_memory x f = omega (
  arith,
  f.pointers,
  f.padding_bytes,
  length-pointers_memory x.block_ptrs,
  length-append (pointers_memory x.block_ptrs) x.padding,
)

-- The bytes of an inode whose fields fit read back as the inode.
pub node_of-node_memory : (x : INode) → Fits x → node_of (node_memory x) ≡ x
unfolding node_of node_memory
node_of-node_memory x f = λ i. record {
  inode_num = short_at x.inode_num f.num_short i;
  owner_uid = le_value-le_bytes_32 x.owner_uid f.owner_u32 i;
  gid = le_value-le_bytes_32 x.gid f.gid_u32 i;
  type =
      (ap node_type_of (le_value-le_bytes_32 (node_type_value x.type) f.type_u32) ∙ f.type_named) i;
  perms = le_value-le_bytes_16 x.perms f.perms_u16 i;
  status = le_value-le_bytes_16 x.status f.status_u16 i;
  link_count = le_value-le_bytes_16 x.link_count f.links_u16 i;
  cdate = le_value-le_bytes_64 x.cdate f.cdate_u64 i;
  mdate = le_value-le_bytes_64 x.mdate f.mdate_u64 i;
  level = le_value-le_bytes_16 x.level f.level_u16 i;
  num_bytes = le_value-le_bytes_64 x.num_bytes f.bytes_u64 i;
  block_ptrs = pointers_back 16 f.pointers i;
  padding = padding_back 32 (length-pointers_memory x.block_ptrs ∙ omega (arith, f.pointers)) i;
}
  where
    pointers_back :
        (n : ℕ)
        → length x.block_ptrs ≡ n
        → pointers_of n (pointers_memory x.block_ptrs ++ x.padding) ≡ x.block_ptrs
    pointers_back n e =
        subst (λ n. pointers_of n (pointers_memory x.block_ptrs ++ x.padding) ≡ x.block_ptrs) e
          (pointers_of-pointers_memory x.block_ptrs x.padding f.pointers_short)

    padding_back :
        (n : ℕ)
        → length (pointers_memory x.block_ptrs) ≡ n
        → drop n (pointers_memory x.block_ptrs ++ x.padding) ≡ x.padding
    padding_back n e =
        subst (λ n. drop n (pointers_memory x.block_ptrs ++ x.padding) ≡ x.padding) e
          (drop-append (pointers_memory x.block_ptrs) x.padding)

-- Every inode of the array fits its C types.
abbrev pub AllFit : List INode → Type 0
AllFit [] = Unit
AllFit (x ∷ xs) = Fits x × AllFit xs

pub length-nodes_memory :
    (xs : List INode) → AllFit xs → length (nodes_memory xs) ≡ length xs * sizeof_node
unfolding nodes_memory
length-nodes_memory [] h = refl
length-nodes_memory (x ∷ xs) h = omega (
  arith,
  length-append (node_memory x) (nodes_memory xs),
  length-node_memory x h.0,
  length-nodes_memory xs h.1,
)

take_front : (n : ℕ) (xs ys : List ℕ) → length xs ≡ n → take n (xs ++ ys) ≡ xs
take_front n xs ys e = subst (λ n. take n (xs ++ ys) ≡ xs) e (take-append xs ys)

drop_front : (n : ℕ) (xs ys : List ℕ) → length xs ≡ n → drop n (xs ++ ys) ≡ ys
drop_front n xs ys e = subst (λ n. drop n (xs ++ ys) ≡ ys) e (drop-append xs ys)

-- The memory of an array whose inodes fit reads back as the array.
pub nodes_of-nodes_memory :
    (xs : List INode) → AllFit xs → nodes_of (length xs) (nodes_memory xs) ≡ xs
unfolding nodes_of nodes_memory
nodes_of-nodes_memory [] h = refl
nodes_of-nodes_memory (x ∷ xs) h =
    let size = length-node_memory x h.0 in
    ap₂ ◌∷◌
      (ap node_of (take_front sizeof_node (node_memory x) (nodes_memory xs) size)
        ∙ node_of-node_memory x h.0)
      (ap (nodes_of (length xs)) (drop_front sizeof_node (node_memory x) (nodes_memory xs) size)
        ∙ nodes_of-nodes_memory xs h.1)
