-- ===== src/BlockCache/Search.antt =====
-- block_cache.c: the search of getCacheEntry and getCachedBlock.
use cs.Prelude.{
  ℕ, zero, suc, ◌+◌, ◌<◌, ◌≤◌, ◌≡◌, ◌≢◌, ◌⊎◌, refl, true, false, some, none, Option, List, arith, ℤ,
  pos, negsuc, ap, ◌∙◌, sym, length, set, get_elem?-set_ne, get_elem?-set_self, inl, inr,
  Bool-cases,
}
use native.Mathlib.Decide.{ℕ_discrete}
use cs.Prelude.Run.{ok}
use cs.BlockCache.{
  BlockCacheEntry, BlockCache, IsValid, entry_at, same_block, find_entry, get_cache_entry,
  get_cached_block,
}

pub same_block_self : (a : ℤ) → same_block a a ≡ true
same_block_self (pos a) = ground arith
same_block_self (negsuc a) = ground arith

-- The entry `j` of the array, which is of another block.
abbrev IsOther : List (Option BlockCacheEntry) → ℤ → ℕ → Type 0
IsOther entries addr j =
    (e : BlockCacheEntry) × (entry_at entries j ≡ ok e) × (same_block e.block_num addr ≡ false)

find_entry-first :
    (n : ℕ) (entries : List (Option BlockCacheEntry)) (addr : ℤ) (i k : ℕ) (x : BlockCacheEntry)
    → k < n
    → ((j : ℕ) → i ≤ j → j < i + k → IsOther entries addr j)
    → entry_at entries (i + k) ≡ ok x
    → same_block x.block_num addr ≡ true
    → find_entry n entries addr i ≡ ok (some (i + k))
unfolding find_entry
find_entry-first zero entries addr i k x lt before at here = absurd (omega arith)
find_entry-first (suc n) entries addr i zero x lt before at here =
    let at' : entry_at entries i ≡ ok x = ap (entry_at entries) (omega arith) ∙ at in
    let e : i ≡ i + 0 = omega arith in rw (find_entry, at', here) (ap (λ t. ok (some t)) e)
find_entry-first (suc n) entries addr i (suc k) x lt before at here =
    let (y, at', other) = before i (omega arith) (omega arith) in
    rw (find_entry, at', other)
      (find_entry-first n entries addr (i + 1) k x (omega arith)
          (λ j lo hi. before j (omega arith) (omega arith))
          (ap (entry_at entries) (omega arith) ∙ at) here
        ∙ ap (λ t. ok (some t)) (omega arith))

-- A search that ends in NULL has met entries of other blocks alone.
find_entry-none :
    (n : ℕ) (entries : List (Option BlockCacheEntry)) (addr : ℤ) (i j : ℕ)
    → find_entry n entries addr i ≡ ok none
    → ((k : ℕ) → i ≤ k → k < i + n → (e : BlockCacheEntry) × (entry_at entries k ≡ ok e))
    → i ≤ j
    → j < i + n
    → IsOther entries addr j
unfolding find_entry
find_entry-none zero entries addr i j e there lo hi = absurd (omega arith)
find_entry-none (suc n) entries addr i j e there lo hi =
    let (y, at) = there i (omega arith) (omega arith) in
    elim (Bool-cases (same_block y.block_num addr)) [
      | inl same ↦
          let runs : find_entry (suc n) entries addr i ≡ ok (some i) =
            rw (find_entry, at, same) refl in
          absurd (cc)
      | inr other ↦
          let runs : find_entry (suc n) entries addr i ≡ find_entry n entries addr (i + 1) =
            rw (find_entry, at, other) refl in
          elim (ℕ_discrete i j) [
            | yes p ↦ (y, ap (entry_at entries) (sym p) ∙ at, other)
            | no ne ↦
                find_entry-none n entries addr (i + 1) j (sym runs ∙ e)
                  (λ k lo' hi'. there k (omega arith) (omega arith)) (omega arith) (omega arith)
          ]
    ]

-- A search over entries that are there ends in NULL, or at one of them.
find_entry-cases :
    (n : ℕ) (entries : List (Option BlockCacheEntry)) (addr : ℤ) (i : ℕ)
    → ((k : ℕ) → i ≤ k → k < i + n → (e : BlockCacheEntry) × (entry_at entries k ≡ ok e))
    → (find_entry n entries addr i ≡ ok none)
      ⊎ ((k : ℕ) × (k < i + n) × (find_entry n entries addr i ≡ ok (some k)))
unfolding find_entry
find_entry-cases zero entries addr i there = inl refl
find_entry-cases (suc n) entries addr i there =
    let (y, at) = there i (omega arith) (omega arith) in
    elim (Bool-cases (same_block y.block_num addr)) [
      | inl same ↦ inr (i, omega arith, rw (find_entry, at, same) refl)
      | inr other ↦
          let runs : find_entry (suc n) entries addr i ≡ find_entry n entries addr (i + 1) =
            rw (find_entry, at, other) refl in
          elim (find_entry-cases n entries addr (i + 1)
            (λ k lo hi. there k (omega arith) (omega arith))) [
              | inl p ↦ inl (runs ∙ p)
              | inr (k, lt, p) ↦ inr (k, omega arith, runs ∙ p)
            ]
    ]

-- getCachedBlock gives NULL where the search does.
get_cached_block-none :
    (bc : BlockCache) (addr : ℤ)
    → IsValid bc
    → get_cached_block bc addr ≡ ok none
    → find_entry bc.count bc.cache_array addr 0 ≡ ok none
unfolding get_cached_block get_cache_entry
get_cached_block-none bc addr v e =
    elim (find_entry-cases bc.count bc.cache_array addr 0 (λ k lo hi. v.no_null k (omega arith))) [
      | inl p ↦ p
      | inr (k, lt, p) ↦
          let (y, at) = v.no_null k (omega arith) in
          let runs : get_cached_block bc addr ≡ ok (some y.buffer) =
            rw (get_cached_block, get_cache_entry, p, at) refl in
          absurd (cc)
    ]

pub entry_at-set_self :
    (entries : List (Option BlockCacheEntry)) (i : ℕ) (x : BlockCacheEntry)
    → i < length entries
    → entry_at (set entries i (some x)) i ≡ ok x
unfolding entry_at
entry_at-set_self entries i x lt = rw (entry_at, get_elem?-set_self entries i (some x) lt) refl

pub entry_at-set_ne :
    (entries : List (Option BlockCacheEntry)) (i j : ℕ) (x : BlockCacheEntry)
    → i ≢ j
    → entry_at (set entries i (some x)) j ≡ entry_at entries j
unfolding entry_at
entry_at-set_ne entries i j x ne = rw (entry_at, get_elem?-set_ne entries (some x) ne) refl

-- The search for a block that a valid cache does not hold, once an entry of it is put in the array.
pub find_entry-set :
    (bc : BlockCache) (addr : ℤ) (entries : List (Option BlockCacheEntry)) (i : ℕ)
    (x : BlockCacheEntry)
    → IsValid bc
    → get_cached_block bc addr ≡ ok none
    → i < bc.count
    → same_block x.block_num addr ≡ true
    → ((j : ℕ) → i ≢ j → entry_at entries j ≡ entry_at bc.cache_array j)
    → entry_at (set entries i (some x)) i ≡ ok x
    → find_entry bc.count (set entries i (some x)) addr 0 ≡ ok (some i)
find_entry-set bc addr entries i x v absent lt here same at =
    let after = set entries i (some x) in
    let others : (j : ℕ) → 0 ≤ j → j < 0 + i → IsOther after addr j = λ j lo hi.
      let ne : i ≢ j = λ p. absurd (omega arith) in
      let (y, was, other) =
        find_entry-none bc.count bc.cache_array addr 0 j (get_cached_block-none bc addr v absent)
          (λ k lo' hi'. v.no_null k (omega arith)) lo (omega arith) in
      (y, entry_at-set_ne entries i j x ne ∙ same j ne ∙ was, other) in
    find_entry-first bc.count after addr 0 i x lt others (ap (entry_at after) (omega arith) ∙ at)
      here
    ∙ ap (λ t. ok (some t)) (omega arith)
