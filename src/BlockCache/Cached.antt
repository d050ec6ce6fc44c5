-- ===== src/BlockCache/Cached.antt =====
-- block_cache.c: what getCachedBlock finds behind doCacheBlock, in a cache whose entries have memory.
use cs.Prelude.{
  ℕ, ◌+◌, ◌<◌, ◌≡◌, refl, false, some, none, Option, List, arith, ℤ, ap, ◌∙◌, ◌++◌, length, drop,
  set, length-set,
}
use native.Mathlib.Nat.{mod-lt}
use cs.Prelude.Bytes.{zeros}
use cs.Prelude.Run.{Run, ok}
use cs.Device.{read_block, write_block, BlockDevice}
use cs.BlockCache.{
  BlockCacheEntry, BlockCache, IsValid, entry_at, find_entry, get_cache_entry, get_cached_block,
  reassign, evict, alloc_cache_block, do_cache_block,
}
use cs.BlockCache.Reclaim.{Reclaimed, clean, evicted, ahead, hand_at, alloc_cache_block-Reclaimed}
use cs.BlockCache.Search.{same_block_self, entry_at-set_self, entry_at-set_ne, find_entry-set}

-- What allocCacheBlock leaves of a valid cache: an entry within it that is of the block, with a zeroed
-- buffer, and the other entries as they were.
record Given (bc : BlockCache) (block_num : ℤ) (r : ℕ × BlockCache) : Type 0 where
  inside : r.0 < bc.count
  same_count : r.1.count ≡ bc.count
  same_size : r.1.block_device.bytes_per_block ≡ bc.block_device.bytes_per_block
  entry : BlockCacheEntry
  array :
      r.1.cache_array
      ≡ set bc.cache_array r.0 (
          some (record entry {
            block_num = block_num;
            buffer = zeros bc.block_device.bytes_per_block;
          }))

write_block-bytes_per_block :
    (bd : BlockDevice) (n : ℤ) (buff : List ℕ)
    → (write_block bd n buff).1.bytes_per_block ≡ bd.bytes_per_block
unfolding write_block
write_block-bytes_per_block bd n buff = grind arith

alloc_cache_block-Given :
    (bc : BlockCache) (block_num : ℤ)
    → IsValid bc
    → (r : ℕ × BlockCache) × (alloc_cache_block bc block_num ≡ ok r) × Given bc block_num r
unfolding reassign evict write_block
alloc_cache_block-Given bc block_num v = outcome (alloc_cache_block-Reclaimed bc block_num v) refl
  where
    outcome :
        {m : Run (ℕ × BlockCache)}
        → Reclaimed bc block_num m
        → alloc_cache_block bc block_num ≡ m
        → (r : ℕ × BlockCache) × (alloc_cache_block bc block_num ≡ ok r) × Given bc block_num r
    outcome (clean m e lo hi at c before) runs = (
      (ahead bc m, reassign (hand_at bc (ahead bc m)) (ahead bc m) e block_num),
      runs,
      record {
        inside = mod-lt (bc.round_robin_next + m) v.some_entry;
        same_count = refl;
        same_size = refl;
        entry = e;
        array = refl;
      },
    )
    outcome (evicted every) runs =
        let hand = ahead bc bc.count in
        let inside = mod-lt (bc.round_robin_next + bc.count) v.some_entry in
        let (e, at) = v.no_null hand inside in
        let bd = (write_block bc.block_device e.block_num e.buffer).1 in
        let left = reassign (record (hand_at bc hand) { block_device = bd }) hand e block_num in
        let same = write_block-bytes_per_block bc.block_device e.block_num e.buffer in
        (
          (hand, left),
          runs ∙ rw (evict, at) refl,
          record {
            inside = inside;
            same_count = refl;
            same_size = same;
            entry = e;
            array =
                ap
                  (λ t.
                    set bc.cache_array hand
                      (some (record e { block_num = block_num; buffer = zeros t })))
                  same;
          },
        )

-- On a valid cache where getCachedBlock of a block gives NULL, doCacheBlock of it succeeds,
-- whether it finds a clean entry or has to write one out; getCachedBlock then gives the block as
-- the device holds it then, and zeros where a read stops short.
pub get_cached_block-do_cache_block :
    (bc : BlockCache) (addr : ℤ)
    → IsValid bc
    → get_cached_block bc addr ≡ ok none
    → (r : ℕ × BlockCache) × (do_cache_block bc addr ≡ ok r)
      × (get_cached_block r.1 addr
          ≡ ok (
              some (
                let got = (read_block r.1.block_device addr).1 in
                got ++ drop (length got) (zeros bc.block_device.bytes_per_block))))
unfolding do_cache_block get_cached_block get_cache_entry
get_cached_block-do_cache_block bc addr v absent =
    let (r, runs, g) = alloc_cache_block-Given bc addr v in
    let i = r.0 in
    let size = bc.block_device.bytes_per_block in
    let given : BlockCacheEntry = record g.entry { block_num = addr; buffer = zeros size } in
    let inside : i < length bc.cache_array = omega (arith, g.inside, v.whole) in
    let at : entry_at r.1.cache_array i ≡ ok given =
      ap (λ t. entry_at t i) g.array ∙ entry_at-set_self bc.cache_array i given inside in
    let got = (read_block r.1.block_device addr).1 in
    let x : BlockCacheEntry = record {
      block_num = addr;
      is_dirty = false;
      buffer = got ++ drop (length got) (zeros size);
    } in
    let after = set r.1.cache_array i (some x) in
    let len : length r.1.cache_array ≡ length bc.cache_array =
      ap (λ (t : List (Option BlockCacheEntry)). length t) g.array
      ∙ length-set bc.cache_array i (some given) in
    let at' : entry_at after i ≡ ok x =
      entry_at-set_self r.1.cache_array i x (omega (arith, inside, len)) in
    let found : find_entry r.1.count after addr 0 ≡ ok (some i) =
      ap (λ t. find_entry t after addr 0) g.same_count
      ∙ find_entry-set bc addr r.1.cache_array i x v absent g.inside (same_block_self addr)
          (λ j ne. ap (λ t. entry_at t j) g.array ∙ entry_at-set_ne bc.cache_array i j given ne)
          at' in
    (
      (i, record r.1 { cache_array = after }),
      rw (do_cache_block, runs, at) refl,
      rw (get_cached_block, get_cache_entry, found, at') refl,
    )
