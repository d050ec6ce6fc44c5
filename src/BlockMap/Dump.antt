-- ===== src/BlockMap/Dump.antt =====
-- my_Blocks_c++/blockMap.cc: dumpMap and dumpMapFull. What is printed is the bits, and whether
-- dumpMap says that it has stopped early.
use cs.Prelude.{ℕ, zero, suc, ◌+◌, ◌-◌, Bool, true, false, List, [], ◌∷◌, ◌==◌, if◌then◌else◌}
use cs.Prelude.Run.{Run, ok, ◌>>=◌}
use cs.BlockMap.{BlockMap, get_bit}

-- The loop of `dumpMap` from bit `i` on, with the rounds left. `trig` is not negative in front of a
-- round; a clear bit at 0 ends the loop.
unfoldable pub dump_from : ℕ → BlockMap → ℕ → ℕ → Run (List Bool × Bool)
dump_from zero b trig i = ok ([], false)
dump_from (suc n) b trig i = get_bit b i >>= λ v.
    if v
    then (dump_from n b 8 (i + 1) >>= λ r. ok (v ∷ r.0, r.1))
    else if trig == 0
    then ok (v ∷ [], true)
    else (dump_from n b (trig - 1) (i + 1) >>= λ r. ok (v ∷ r.0, r.1))

-- `dumpMap`
unfoldable pub dump_map : BlockMap → Run (List Bool × Bool)
unfolding dump_from
dump_map b = dump_from b.sz b 8 0

-- The loop of `dumpMapFull` from bit `i` on, with the rounds left.
unfoldable pub dump_full_from : ℕ → BlockMap → ℕ → Run (List Bool)
dump_full_from zero b i = ok []
dump_full_from (suc n) b i = get_bit b i >>= λ v. dump_full_from n b (i + 1) >>= λ r. ok (v ∷ r)

-- `dumpMapFull`
unfoldable pub dump_map_full : BlockMap → Run (List Bool)
unfolding dump_full_from
dump_map_full b = dump_full_from b.sz b 0
