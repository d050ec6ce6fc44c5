-- ===== src/INode/Map.antt =====
-- inode.c: the memory of a whole inode map.
use cs.Prelude.{
  ℕ, zero, suc, ◌+◌, ◌*◌, ◌<◌, ◌≡◌, refl, ap, ap₂, ◌∙◌, subst, true, List, [], ◌∷◌, ◌++◌, arith,
  length, length-append, take, drop, take-append, drop-append, ltb, ◌^◌,
}
use cs.Prelude.Run.{ok}
use cs.INode.{
  INode, Fits, inode_memory, inode_of, map_memory, map_of, sizeof_inode, allocate_inode_map,
  fresh_from,
}
use cs.INode.Image.{AllInts, length-inode_memory, inode_of-inode_memory}

-- Every inode of the map fits its C types.
abbrev pub AllFit : List INode → Type 0
AllFit [] = Unit
AllFit (x ∷ xs) = (Fits x × AllInts x.block_ptrs) × AllFit xs

pub length-map_memory :
    (xs : List INode) → AllFit xs → length (map_memory xs) ≡ length xs * sizeof_inode
unfolding map_memory
length-map_memory [] h = refl
length-map_memory (x ∷ xs) h = omega (
  arith,
  length-append (inode_memory x) (map_memory xs),
  length-inode_memory x h.0.0,
  length-map_memory xs h.1,
)

-- The memory of an array of inodes whose fields fit their C types reads back as the array.
pub map_of-map_memory : (xs : List INode) → AllFit xs → map_of (length xs) (map_memory xs) ≡ xs
unfolding map_of map_memory
map_of-map_memory [] h = refl
map_of-map_memory (x ∷ xs) h =
    ap₂ ◌∷◌
      (ap inode_of (front sizeof_inode (length-inode_memory x h.0.0))
        ∙ inode_of-inode_memory x h.0.0 h.0.1)
      (ap (map_of (length xs)) (back sizeof_inode (length-inode_memory x h.0.0))
        ∙ map_of-map_memory xs h.1)
  where
    front :
        (n : ℕ)
        → length (inode_memory x) ≡ n
        → take n (inode_memory x ++ map_memory xs) ≡ inode_memory x
    front n e =
        subst (λ n. take n (inode_memory x ++ map_memory xs) ≡ inode_memory x) e
          (take-append (inode_memory x) (map_memory xs))

    back :
        (n : ℕ)
        → length (inode_memory x) ≡ n
        → drop n (inode_memory x ++ map_memory xs) ≡ map_memory xs
    back n e =
        subst (λ n. drop n (inode_memory x ++ map_memory xs) ≡ map_memory xs) e
          (drop-append (inode_memory x) (map_memory xs))

pub length-fresh_from : (n i : ℕ) → length (fresh_from n i) ≡ n
length-fresh_from zero i = refl
length-fresh_from (suc n) i = ap suc (length-fresh_from n (i + 1))

pub AllFit-fresh_from : (n i : ℕ) → i + n < 2 ^ 31 → AllFit (fresh_from n i)
AllFit-fresh_from zero i h = tt
AllFit-fresh_from (suc n) i h =
    ((ground arith, ground arith), AllFit-fresh_from n (i + 1) (omega arith))

-- `allocateINodeMap` of more than one and fewer than 2 ^ 31 inodes, with init, makes a map of
-- that length whose inodes all fit their C types.
pub allocate_inode_map-AllFit :
    (n : ℕ)
    → 1 < n
    → n < 2 ^ 31
    → (xs : List INode) × (allocate_inode_map n true ≡ ok xs) × (length xs ≡ n) × AllFit xs
unfolding allocate_inode_map
allocate_inode_map-AllFit n h small = (
  fresh_from n 0,
  (let e : ltb 1 n ≡ true = ground arith in rw (allocate_inode_map, e)),
  length-fresh_from n 0,
  AllFit-fresh_from n 0 (omega arith),
)
