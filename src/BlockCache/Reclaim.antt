-- ===== src/BlockCache/Reclaim.antt =====
-- block_cache.c: which entry allocCacheBlock gives over, in a cache whose entries have memory. The
-- program does not make one: allocateBlockCache follows NULL pointers.
use cs.Prelude.{
  ℕ, zero, suc, ◌+◌, ◌-◌, ◌%◌, ◌≤◌, ◌<◌, ◌≡◌, ◌≢◌, inl, inr, refl, true, false, some, arith,
  Bool-cases, ℤ, if◌then◌else◌, ap, ◌∙◌, sym, subst, get_elem?-set_ne,
}
use native.Mathlib.Nat.{mod-add-mod, mod-lt, mod-eq_of_lt, add-mod_right, add_assoc}
use native.Mathlib.Decide.{ℕ_discrete, dec_lt}
use cs.Prelude.Bytes.{zeros}
use cs.Prelude.Run.{Run, ok, fault}
use cs.Device.{BlockDevice}
use cs.BlockCache.{
  BlockCacheEntry, BlockCache, IsValid, entry_at, allocate_block_cache, reassign, evict, reclaim,
  alloc_cache_block,
}

-- `allocateBlockCache` of at least one entry follows a NULL pointer.
pub allocate_block_cache-faults :
    (bd : BlockDevice) (n : ℕ) → 0 < n → allocate_block_cache bd n ≡ fault
unfolding allocate_block_cache
allocate_block_cache-faults bd zero h = elim h [ ]
allocate_block_cache-faults bd (suc n) h = refl

-- The entry `m` steps behind the hand.
abbrev pub ahead : BlockCache → ℕ → ℕ
ahead bc m = (bc.round_robin_next + m) % bc.count

abbrev pub IsDirtyAt : BlockCache → ℕ → Type 0
IsDirtyAt bc i = (e : BlockCacheEntry) × (entry_at bc.cache_array i ≡ ok e) × (e.is_dirty ≡ true)

abbrev pub IsCleanAt : BlockCache → ℕ → Type 0
IsCleanAt bc i = (e : BlockCacheEntry) × (entry_at bc.cache_array i ≡ ok e) × (e.is_dirty ≡ false)

-- The cache with its hand elsewhere.
abbrev pub hand_at : BlockCache → ℕ → BlockCache
hand_at bc i = record bc { round_robin_next = i }

-- What `allocCacheBlock` may do: it gives over the first clean entry ahead of the hand, or, when all
-- entries are dirty, it evicts the one at the hand.
pub data Reclaimed (bc : BlockCache) (block_num : ℤ) : Run (ℕ × BlockCache) → Type 0 where
  clean :
      (m : ℕ) (e : BlockCacheEntry)
      → 0 < m
      → m ≤ bc.count
      → entry_at bc.cache_array (ahead bc m) ≡ ok e
      → e.is_dirty ≡ false
      → ((j : ℕ) → 0 < j → j < m → IsDirtyAt bc (ahead bc j))
      → Reclaimed bc block_num
          (ok (ahead bc m, reassign (hand_at bc (ahead bc m)) (ahead bc m) e block_num))
  evicted :
      ((j : ℕ) → 0 < j → j ≤ bc.count → IsDirtyAt bc (ahead bc j))
      → Reclaimed bc block_num (evict (hand_at bc (ahead bc bc.count)) block_num)

step_ahead : (bc : BlockCache) (j : ℕ) → (ahead bc j + 1) % bc.count ≡ ahead bc (j + 1)
step_ahead bc j =
    mod-add-mod (bc.round_robin_next + j) bc.count 1
    ∙ ap (λ t. t % bc.count) (add_assoc bc.round_robin_next j 1)

-- One round of the loop, its entry and its hand given.
reclaim-suc :
    (n : ℕ) (bc : BlockCache) (block_num : ℤ) (hand : ℕ) (x : BlockCacheEntry)
    → (bc.round_robin_next + 1) % bc.count ≡ hand
    → entry_at bc.cache_array hand ≡ ok x
    → reclaim (suc n) bc block_num ≡ (
        if x.is_dirty
        then reclaim n (hand_at bc hand) block_num
        else ok (hand, reassign (hand_at bc hand) hand x block_num))
unfolding reclaim
reclaim-suc n bc block_num hand x e at = rw (reclaim, e, at)

reclaim-Reclaimed :
    (n : ℕ) (bc : BlockCache) (block_num : ℤ) (m : ℕ)
    → IsValid bc
    → m + n ≡ bc.count
    → ((j : ℕ) → 0 < j → j ≤ m → IsDirtyAt bc (ahead bc j))
    → Reclaimed bc block_num (reclaim n (hand_at bc (ahead bc m)) block_num)
unfolding reclaim
reclaim-Reclaimed zero bc block_num m v e dirty =
    let all : m ≡ bc.count = omega arith in
    subst (λ t. Reclaimed bc block_num (evict (hand_at bc (ahead bc t)) block_num)) (sym all)
      (evicted (λ j lo hi. dirty j lo (omega arith)))
reclaim-Reclaimed (suc n) bc block_num m v e dirty =
    let hand = ahead bc (m + 1) in
    let (x, at) = v.no_null hand (mod-lt (bc.round_robin_next + (m + 1)) v.some_entry) in
    let here = hand_at bc hand in
    let stop : Run (ℕ × BlockCache) = ok (hand, reassign here hand x block_num) in
    let go = reclaim n here block_num in
    subst (Reclaimed bc block_num)
      (sym (reclaim-suc n (hand_at bc (ahead bc m)) block_num hand x (step_ahead bc m) at))
      (elim (Bool-cases x.is_dirty) [
        | inl d ↦
            subst (λ t. Reclaimed bc block_num (if t then go else stop)) (sym d)
              (reclaim-Reclaimed n bc block_num (m + 1) v (omega arith) (λ j lo hi.
                elim (ℕ_discrete j (m + 1)) [
                  | yes p ↦ (x, rw p at, d)
                  | no ne ↦ dirty j lo (omega arith)
                ]))
        | inr c ↦
            subst (λ t. Reclaimed bc block_num (if t then go else stop)) (sym c)
              (clean (m + 1) x (omega arith) (omega arith) at c
                (λ j lo hi. dirty j lo (omega arith)))
      ])

-- The hand comes round to every entry within `count` steps, and after `count` steps to itself.
comes_round :
    (bc : BlockCache) (i : ℕ)
    → IsValid bc
    → i < bc.count
    → (j : ℕ) × (0 < j) × (j ≤ bc.count) × (ahead bc j ≡ i)
comes_round bc i v lt = elim (dec_lt bc.round_robin_next i) [
  | yes p ↦
      (i - bc.round_robin_next, omega arith, omega arith, around i (omega arith) ∙ mod-eq_of_lt lt)
  | no p ↦ (
    i + bc.count - bc.round_robin_next,
    omega arith,
    omega arith,
    grind (arith, around (i + bc.count) (omega arith)),
  )
]
  where
    around : (t : ℕ) → bc.round_robin_next ≤ t → ahead bc (t - bc.round_robin_next) ≡ t % bc.count
    around t h = ap (λ s. s % bc.count) (omega arith)

-- On a valid cache allocCacheBlock gives over the first clean entry ahead of the hand, or, when
-- the loop met only dirty entries, evicts the entry at the hand.
pub alloc_cache_block-Reclaimed :
    (bc : BlockCache) (block_num : ℤ)
    → IsValid bc
    → Reclaimed bc block_num (alloc_cache_block bc block_num)
unfolding alloc_cache_block
alloc_cache_block-Reclaimed bc block_num v =
    let e : ahead bc 0 ≡ bc.round_robin_next =
      ap (λ t. t % bc.count) (omega arith) ∙ mod-eq_of_lt v.hand_inside in
    subst (λ h. Reclaimed bc block_num (reclaim bc.count (hand_at bc h) block_num)) e
      (reclaim-Reclaimed bc.count bc block_num 0 v (omega arith) (λ j lo hi. absurd (omega arith)))

-- What a call that finds a clean entry returns and leaves: the entry was clean, the device is as it
-- was, and every other entry, the dirty ones among them, is as it was.
pub record TookClean (bc : BlockCache) (r : ℕ × BlockCache) : Type 0 where
  pub was_clean : IsCleanAt bc r.0
  pub same_device : r.1.block_device ≡ bc.block_device
  pub others : (j : ℕ) → j ≢ r.0 → entry_at r.1.cache_array j ≡ entry_at bc.cache_array j

entry_at-reassign_ne :
    (bc : BlockCache) (i j : ℕ) (e : BlockCacheEntry) (n : ℤ)
    → i ≢ j
    → entry_at (reassign bc i e n).cache_array j ≡ entry_at bc.cache_array j
unfolding reassign entry_at
entry_at-reassign_ne bc i j e n ne = rw (
  entry_at,
  get_elem?-set_ne bc.cache_array
      (some (record e { block_num = n; buffer = zeros bc.block_device.bytes_per_block })) ne,
)

-- On a valid cache with a clean entry, allocCacheBlock succeeds, gives over a clean entry, writes
-- nothing to the device, and keeps every other entry.
pub alloc_cache_block-TookClean :
    (bc : BlockCache) (block_num : ℤ) (i : ℕ)
    → IsValid bc
    → i < bc.count
    → IsCleanAt bc i
    → (r : ℕ × BlockCache) × (alloc_cache_block bc block_num ≡ ok r) × TookClean bc r
unfolding reassign
alloc_cache_block-TookClean bc block_num i v lt (x, at, c) =
    outcome (alloc_cache_block-Reclaimed bc block_num v) refl
  where
    outcome :
        {m : Run (ℕ × BlockCache)}
        → Reclaimed bc block_num m
        → alloc_cache_block bc block_num ≡ m
        → (r : ℕ × BlockCache) × (alloc_cache_block bc block_num ≡ ok r) × TookClean bc r
    outcome (clean m e lo hi at' c' before) runs = (
      (ahead bc m, reassign (hand_at bc (ahead bc m)) (ahead bc m) e block_num),
      runs,
      record {
        was_clean = (e, at', c');
        same_device = refl;
        others = λ j ne.
            entry_at-reassign_ne (hand_at bc (ahead bc m)) (ahead bc m) j e block_num
              (λ p. ne (sym p));
      },
    )
    outcome (evicted all) runs =
        let (j, lo, hi, e) = comes_round bc i v lt in
        let (y, at', d) = all j lo hi in
        let same : ok y ≡ ok x = sym at' ∙ ap (entry_at bc.cache_array) e ∙ at in
        let same' : y ≡ x = cc in
        let clash : true ≡ false = sym d ∙ ap (λ (t : BlockCacheEntry). t.is_dirty) same' ∙ c in
        absurd (cc)

-- On a valid cache of dirty entries, allocCacheBlock evicts the entry at the hand and the hand
-- stays where it was.
pub alloc_cache_block-evict :
    (bc : BlockCache) (block_num : ℤ)
    → IsValid bc
    → ((i : ℕ) → i < bc.count → IsDirtyAt bc i)
    → alloc_cache_block bc block_num ≡ evict bc block_num
alloc_cache_block-evict bc block_num v all =
    outcome (alloc_cache_block-Reclaimed bc block_num v) refl
  where
    home : ahead bc bc.count ≡ bc.round_robin_next
    home = add-mod_right bc.round_robin_next bc.count ∙ mod-eq_of_lt v.hand_inside

    outcome :
        {m : Run (ℕ × BlockCache)}
        → Reclaimed bc block_num m
        → alloc_cache_block bc block_num ≡ m
        → alloc_cache_block bc block_num ≡ evict bc block_num
    outcome (clean m e lo hi at c before) runs =
        let (y, at', d) = all (ahead bc m) (mod-lt (bc.round_robin_next + m) v.some_entry) in
        let same : ok y ≡ ok e = sym at' ∙ at in
        let same' : y ≡ e = cc in
        let clash : true ≡ false = sym d ∙ ap (λ (t : BlockCacheEntry). t.is_dirty) same' ∙ c in
        absurd (cc)
    outcome (evicted every) runs = runs ∙ ap (λ h. evict (hand_at bc h) block_num) home
