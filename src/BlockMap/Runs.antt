-- ===== src/BlockMap/Runs.antt =====
-- my_Blocks_c++/blockMap.cc and dylblock/dylan_bit_set.c: the two allocators over a run of calls.
use cs.Prelude.{
  ℕ, zero, suc, ◌<◌, ◌^◌, ◌≡◌, refl, sym, ap, ◌∙◌, subst, Bool, false, some, List, [], ◌∷◌,
  get_elem?, replicate, length-replicate, arith, ℤ,
}
use cs.Prelude.Run.{Run, ok, ◌>>=◌}
use cs.BitSet
use cs.BitSet.{BitSet, alloc_bit_set, allocate_block}
use cs.BitSet.Persist.{alloc_bit_set-IsValid}
use cs.BlockMap.{BlockMap, alloc_block_map, alloc_block, free_block}
use cs.BlockMap.Agreement.{Holds, alloc_block-Holds, free_block-Holds}

-- A call of the allocator, or of free with an index.
pub data Call : Type 0 where
  allocate : Call
  release : ℕ → Call

-- The indices to free are below a bound.
abbrev pub AllBelow : ℕ → List Call → Type 0
AllBelow n [] = Unit
AllBelow n (allocate ∷ calls) = AllBelow n calls
AllBelow n (release i ∷ calls) = (i < n) × AllBelow n calls

-- The calls one behind the other: what the allocations return, and what is left.
abbrev pub run_set : List Call → BitSet → Run (List ℤ × BitSet)
run_set [] b = ok ([], b)
run_set (allocate ∷ calls) b =
    allocate_block b >>= λ r. run_set calls r.1 >>= λ rest. ok (r.0 ∷ rest.0, rest.1)
run_set (release i ∷ calls) b = BitSet.free_block b i >>= λ r. run_set calls r.1

abbrev pub run_map : List Call → BlockMap → Run (List ℤ × BlockMap)
run_map [] m = ok ([], m)
run_map (allocate ∷ calls) m =
    alloc_block m >>= λ r. run_map calls r.1 >>= λ rest. ok (r.0 ∷ rest.0, rest.1)
run_map (release i ∷ calls) m = free_block m i >>= λ m'. run_map calls m'

run-Holds :
    (calls : List Call) (b : BitSet) (m : BlockMap) (n : ℕ)
    → Holds b m
    → m.sz ≡ n
    → AllBelow n calls
    → (zs : List ℤ) × (b' : BitSet) × (m' : BlockMap) × (run_set calls b ≡ ok (zs, b'))
      × (run_map calls m ≡ ok (zs, m'))
      × Holds b' m'
run-Holds [] b m n h e all = ([], b, m, refl, refl, h)
run-Holds (allocate ∷ calls) b m n h e all =
    let (z, b1, m1, runs, runs', sz, h1) = alloc_block-Holds b m h in
    let (zs, b', m', rest, rest', h') = run-Holds calls b1 m1 n h1 (sz ∙ e) all in
    (z ∷ zs, b', m', rw (runs, rest) refl, rw (runs', rest') refl, h')
run-Holds (release i ∷ calls) b m n h e (lt, all) =
    let (z, b1, m1, runs, runs', sz, h1) =
      free_block-Holds b m i h (subst (λ t. i < t) (sym e) lt) in
    let (zs, b', m', rest, rest', h') = run-Holds calls b1 m1 n h1 (sz ∙ e) all in
    (zs, b', m', rw (runs, rest) refl, rw (runs', rest') refl, h')

get_elem?-replicate : (n : ℕ) (v : Bool) (j : ℕ) → j < n → get_elem? (replicate n v) j ≡ some v
get_elem?-replicate zero v j h = absurd (omega arith)
get_elem?-replicate (suc n) v zero h = refl
get_elem?-replicate (suc n) v (suc j) h = get_elem?-replicate n v j (omega arith)

fresh-Holds : (n s : ℕ) → n < 2 ^ 31 → 0 < s → Holds (alloc_bit_set n s) (alloc_block_map n)
unfolding alloc_bit_set alloc_block_map
fresh-Holds n s small h =
    let (valid, clear) = alloc_bit_set-IsValid n s small h in
    record {
      valid = valid;
      size = refl;
      all_there = length-replicate n false;
      same = λ j below. get_elem?-replicate n false j below ∙ ap some (sym (clear j));
    }

alloc_block_map-sz : (n : ℕ) → (alloc_block_map n).sz ≡ n
unfolding alloc_block_map
alloc_block_map-sz n = refl

-- On fresh maps for n blocks, fewer than 2 ^ 31, with bytes in a block, every run of allocations
-- and of frees of indices below n gives the same numbers with the bit set of dylan_bit_set.c as
-- with the vector of Booleans of blockMap.cc, faults in neither, and leaves sets that hold the
-- same bits.
pub allocators-Holds :
    (n s : ℕ) (calls : List Call)
    → n < 2 ^ 31
    → 0 < s
    → AllBelow n calls
    → (zs : List ℤ) × (b : BitSet) × (m : BlockMap) × (run_set calls (alloc_bit_set n s)
        ≡ ok (zs, b))
      × (run_map calls (alloc_block_map n) ≡ ok (zs, m))
      × Holds b m
allocators-Holds n s calls small h all =
    run-Holds calls (alloc_bit_set n s) (alloc_block_map n) n (fresh-Holds n s small h)
      (alloc_block_map-sz n) all
