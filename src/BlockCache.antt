-- ===== src/BlockCache.antt =====
-- block_cache.h and block_cache.c. The array holds pointers to entries, of which `none` is NULL; a
-- pointer to an entry is its index in the array.
pub mod Reclaim
pub mod Search
pub mod Cached
use cs.Prelude.{
  ℕ, zero, suc, ◌+◌, ◌%◌, ◌<◌, ◌≡◌, Bool, true, false, not, Option, none, some, List, ◌++◌, [], ◌∷◌,
  ltb, ◌==◌, if◌then◌else◌, get_elem?, set, length, drop, ℤ, pos, negsuc, replicate,
}
use cs.Prelude.Bytes.{zeros}
use cs.Prelude.Run.{Run, ok, fault, ◌>>=◌}
use cs.Device.{BlockDevice, read_block, write_block}

-- BlockCacheEntry
pub record BlockCacheEntry : Type 0 where
  pub block_num : ℤ
  pub is_dirty : Bool
  pub buffer : List ℕ

-- BlockCache
pub record BlockCache : Type 0 where
  pub block_device : BlockDevice
  pub count : ℕ
  pub round_robin_next : ℕ
  pub cache_array : List (Option BlockCacheEntry)

-- `*bc->cacheArray[i]`
unfoldable pub entry_at : List (Option BlockCacheEntry) → ℕ → Run BlockCacheEntry
entry_at entries i = elim (get_elem? entries i) [
  | none ↦ fault
  | some p ↦ elim p [ none ↦ fault | some e ↦ ok e ]
]

-- The loop of `allocateBlockCache` from index `i` on.
unfoldable pub give_buffers :
    ℕ → ℕ → List (Option BlockCacheEntry) → ℕ → Run (List (Option BlockCacheEntry))
unfolding entry_at
give_buffers bytes zero entries i = ok entries
give_buffers bytes (suc n) entries i = entry_at entries i >>= λ e.
    give_buffers bytes n (set entries i (some (record e { buffer = zeros bytes }))) (i + 1)

-- `allocateBlockCache`: `calloc` leaves NULL in every slot of the array.
unfoldable pub allocate_block_cache : BlockDevice → ℕ → Run BlockCache
unfolding give_buffers
allocate_block_cache bd n = give_buffers bd.bytes_per_block n (replicate n none) 0 >>= λ entries.
    ok (record { block_device = bd; count = n; round_robin_next = 0; cache_array = entries })

-- Whether two block numbers are equal.
abbrev pub same_block : ℤ → ℤ → Bool
same_block (pos a) (pos b) = a == b
same_block (negsuc a) (negsuc b) = a == b
same_block _ _ = false

-- The loop of `getCacheEntry` from index `i` on; `none` is NULL.
unfoldable pub find_entry : ℕ → List (Option BlockCacheEntry) → ℤ → ℕ → Run (Option ℕ)
find_entry zero entries addr i = ok none
find_entry (suc n) entries addr i =
    let rest = find_entry n entries addr (i + 1) in
    entry_at entries i >>= λ e. if same_block e.block_num addr then ok (some i) else rest

-- `getCacheEntry`
unfoldable pub get_cache_entry : BlockCache → ℤ → Run (Option ℕ)
get_cache_entry bc addr = find_entry bc.count bc.cache_array addr 0

-- `getCachedBlock`
unfoldable pub get_cached_block : BlockCache → ℤ → Run (Option (List ℕ))
get_cached_block bc addr = get_cache_entry bc addr >>= λ found. elim found [
  | none ↦ ok none
  | some i ↦ entry_at bc.cache_array i >>= λ e. ok (some e.buffer)
]

-- The cache with entry `i` given over to block `block_num`, its buffer zeroed.
unfoldable pub reassign : BlockCache → ℕ → BlockCacheEntry → ℤ → BlockCache
reassign bc i e block_num = record bc {
  cache_array =
      set bc.cache_array i
        (some (record e { block_num = block_num; buffer = zeros bc.block_device.bytes_per_block }));
}

-- The code of `allocCacheBlock` behind its loop: the entry at the hand is written out and given over.
unfoldable pub evict : BlockCache → ℤ → Run (ℕ × BlockCache)
evict bc block_num = entry_at bc.cache_array bc.round_robin_next >>= λ e.
    let (wrote, bd) = write_block bc.block_device e.block_num e.buffer in
    ok (
      bc.round_robin_next,
      reassign (record bc { block_device = bd }) bc.round_robin_next e block_num,
    )

-- The loop of `allocCacheBlock`, with the number of rounds left.
unfoldable pub reclaim : ℕ → BlockCache → ℤ → Run (ℕ × BlockCache)
reclaim zero bc block_num = evict bc block_num
reclaim (suc n) bc block_num =
    let hand = (bc.round_robin_next + 1) % bc.count in
    let moved = record bc { round_robin_next = hand } in
    let rest = reclaim n moved block_num in
    entry_at bc.cache_array hand >>= λ e.
    if e.is_dirty then rest else ok (hand, reassign moved hand e block_num)

-- `allocCacheBlock`: the index of the entry, and the cache after it.
unfoldable pub alloc_cache_block : BlockCache → ℤ → Run (ℕ × BlockCache)
unfolding reclaim
alloc_cache_block bc block_num = reclaim bc.count bc block_num

-- `doCacheBlock`: the read's return value is ignored, and what it read lies in front of the buffer.
unfoldable pub do_cache_block : BlockCache → ℤ → Run (ℕ × BlockCache)
do_cache_block bc block_num = alloc_cache_block bc block_num >>= λ r.
    entry_at r.1.cache_array r.0 >>= λ e.
    let (done, got) = read_block r.1.block_device block_num in
    ok (
      r.0,
      record r.1 {
        cache_array = set r.1.cache_array r.0 (
            some (record {
              block_num = block_num;
              is_dirty = false;
              buffer = got ++ drop (length got) e.buffer;
            }));
      },
    )

-- The array has `count` entries, none of them NULL, and the hand is in it.
pub record IsValid (bc : BlockCache) : Type 0 where
  pub some_entry : 0 < bc.count
  pub whole : length bc.cache_array ≡ bc.count
  pub hand_inside : bc.round_robin_next < bc.count
  pub no_null : (i : ℕ) → i < bc.count → (e : BlockCacheEntry) × (entry_at bc.cache_array i ≡ ok e)
