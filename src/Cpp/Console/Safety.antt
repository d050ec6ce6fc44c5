-- ===== src/Cpp/Console/Safety.antt =====
-- my_Blocks_c++/my_shell.cpp: the commands that cannot go astray on a whole volume.
pub mod Calls
use cs.Prelude.{
  ℕ, zero, suc, ◌+◌, ◌-◌, ◌<◌, ◌≤◌, ◌≡◌, ◌≢◌, minus_one, refl, sym, ap, ◌∙◌, Bool, true, false,
  List, [], ◌∷◌, arith, length, set, length-set, get_elem?_of_lt, leb, ◌==◌, if◌then◌else◌, pos,
}
use cs.Prelude.Run.{Run, ok, fault, ◌>>=◌}
use cs.BlockMap.{BlockMap, get_bit, set_bit, clear_bit, alloc_from, alloc_block, free_block}
use cs.BlockMap.Dump.{dump_from, dump_map, dump_full_from, dump_map_full}
use cs.Cpp.Nodes.{INode, node_at, allocate_inode, free_inode, set_inode}
use cs.Cpp.Nodes.Allocate.{allocate_inode-AllocatedNode}
use cs.Cpp.Console.{
  Console, unmounted, freed, live, Request, show_map, show_full_map, show_nodes, take_block,
  give_block, mark_block, take_node, give_node, mark_node, on_volume, carry_out, console_loop,
}
use cs.Cpp.Console.Commands.{
  Reply, need_to_mount, run_show_map, run_show_full_map, run_show_nodes, run_take_block,
  run_give_block, run_mark_block, run_take_node, run_give_node, run_mark_node, touch, dump_nodes,
}
use cs.Cpp.Console.Words.{number}
use cs.Cpp.Console.Volume.{World, Mounted}
use cs.Cpp.Console.Invariant.{IsWhole}
use cs.Cpp.Console.Reach.{console_loop-AllWhole}
use cs.Cpp.Console.Invariant.{AllWhole}
use cs.Cpp.Console.Safety.Calls.{
  Ends, >>=-Ends, ok_inj, if-Ends, set_bit-Ends, free_block-Ends, dump_from-Ends,
  dump_full_from-Ends, alloc_from-Ends, free_inode-Ends, set_inode-Ends, touch-Ends,
  dump_nodes-Ends,
}

-- The commands that cannot go astray, with their number where they have one.
pub data Harmless : Request → List ℕ → Type 0 where
  shows_map : (rest : List ℕ) → Harmless show_map rest
  shows_full_map : (rest : List ℕ) → Harmless show_full_map rest
  shows_nodes : (rest : List ℕ) → Harmless show_nodes rest
  takes_block : (rest : List ℕ) → Harmless take_block rest
  takes_node : (rest : List ℕ) → Harmless take_node rest
  gives_block : (rest : List ℕ) (i : ℕ) → number rest 0 ≡ ok i → Harmless give_block rest
  marks_block : (rest : List ℕ) (i : ℕ) → number rest 0 ≡ ok i → Harmless mark_block rest
  gives_node : (rest : List ℕ) (i : ℕ) → number rest 0 ≡ ok i → Harmless give_node rest
  marks_node : (rest : List ℕ) (i : ℕ) → number rest 0 ≡ ok i → Harmless mark_node rest

module _ (s : Mounted) (h : IsWhole s) where
  run_show_map-Ends : Ends (run_show_map s)
  unfolding run_show_map dump_map
  run_show_map-Ends =
      >>=-Ends (dump_from s.bmp.sz s.bmp 8 0) _
        (dump_from-Ends s.bmp.sz s.bmp 8 0 (omega (arith, h.bits))) (λ r e. (_, refl))

  run_show_full_map-Ends : Ends (run_show_full_map s)
  unfolding run_show_full_map dump_map_full
  run_show_full_map-Ends =
      >>=-Ends (dump_full_from s.bmp.sz s.bmp 0) _
        (dump_full_from-Ends s.bmp.sz s.bmp 0 (omega (arith, h.bits))) (λ r e. (_, refl))

  run_show_nodes-Ends : Ends (run_show_nodes s)
  unfolding run_show_nodes
  run_show_nodes-Ends =
      >>=-Ends (dump_nodes s.mbl.inode_cnt s.imp 0) _
        (dump_nodes-Ends s.mbl.inode_cnt s.imp 0 (omega (arith, h.nodes))) (λ r e. (_, refl))

  run_take_block-Ends : Ends (run_take_block s)
  unfolding run_take_block alloc_block
  run_take_block-Ends =
      >>=-Ends (alloc_from s.bmp.sz s.bmp 0) _
        (alloc_from-Ends s.bmp.sz s.bmp 0 (omega (arith, h.bits))) (λ r e. (_, refl))

  run_take_node-Ends : (w : World) → Ends (run_take_node w s)
  unfolding run_take_node
  run_take_node-Ends w =
      let (z, m', runs, done) =
        allocate_inode-AllocatedNode s.imp s.mbl.inode_cnt w.now (omega (arith, h.nodes)) in
      >>=-Ends (allocate_inode s.imp s.mbl.inode_cnt w.now) _ ((z, m'), runs) (λ r e. (_, refl))

  module _ (rest : List ℕ) (i : ℕ) (names : number rest 0 ≡ ok i) where
    run_give_block-Ends : Ends (run_give_block rest s)
    unfolding run_give_block
    run_give_block-Ends = rw names (
        if-Ends (leb s.bmp.sz i) _ _ (λ out. (_, refl))
          (λ in_range.
            >>=-Ends (free_block s.bmp i) _ (free_block-Ends s.bmp i (ground (arith, h.bits)))
              (λ r e. (_, refl))))

    run_mark_block-Ends : Ends (run_mark_block rest s)
    unfolding run_mark_block
    run_mark_block-Ends = rw names (
        if-Ends (leb s.bmp.sz i) _ _ (λ out. (_, refl))
          (λ in_range.
            >>=-Ends (set_bit s.bmp i) _ (set_bit-Ends s.bmp i (ground (arith, h.bits)))
              (λ r e. (_, refl))))

    run_give_node-Ends : (w : World) → Ends (run_give_node w rest s)
    unfolding run_give_node
    run_give_node-Ends w = rw names (
        if-Ends (leb s.mbl.inode_cnt i) _ _ (λ out. (_, refl))
          (λ in_range.
            let lt : i < length s.imp = ground (arith, h.nodes) in
            let (m, runs, len) = free_inode-Ends s.imp i lt in
            >>=-Ends (free_inode s.imp i) _ (m, runs)
              (λ r e.
                let same : m ≡ r = ok_inj (sym runs ∙ e) in
                >>=-Ends (touch w.now r i) _
                  (touch-Ends r i (omega (arith, len, ap length same)) w.now)
                  (λ r' e'. (_, refl)))))

    run_mark_node-Ends : (w : World) → Ends (run_mark_node w rest s)
    unfolding run_mark_node
    run_mark_node-Ends w = rw names (
        if-Ends (leb s.mbl.inode_cnt i) _ _ (λ out. (_, refl))
          (λ in_range.
            let lt : i < length s.imp = ground (arith, h.nodes) in
            let (m, runs, len) = set_inode-Ends s.imp i lt in
            >>=-Ends (set_inode s.imp i) _ (m, runs)
              (λ r e.
                let same : m ≡ r = ok_inj (sym runs ∙ e) in
                >>=-Ends (touch w.now r i) _
                  (touch-Ends r i (omega (arith, len, ap length same)) w.now)
                  (λ r' e'. (_, refl)))))

on_volume-Ends :
    (c : Console) (f : Mounted → Run (List Reply × Mounted))
    → ((s : Mounted) → IsWhole s → Ends (f s))
    → AllWhole c.pointers
    → c.pointers ≢ freed
    → Ends (on_volume c f)
on_volume-Ends c f ends =
    elim c.pointers
      as (λ p.
        AllWhole p
        → p ≢ freed
        → Ends {V = List Reply × Console} (elim p [
          | unmounted ↦ ok (need_to_mount ∷ [], c)
          | freed ↦ fault
          | live name s ↦ f s >>= λ r. ok (r.0, record c { pointers = live name r.1 })
        ])) [
          | unmounted ↦ λ g ne. (_, refl)
          | freed ↦ λ g ne. absurd (ne refl)
          | live name s ↦ λ g ne. >>=-Ends (f s) _ (ends s g) (λ r e. (_, refl))
        ]

carry_out-Ends :
    (w : World) (c : Console) (req : Request) (rest : List ℕ)
    → AllWhole c.pointers
    → c.pointers ≢ freed
    → Harmless req rest
    → Ends (carry_out w c req rest)
unfolding carry_out
carry_out-Ends w c _ _ g ne (shows_map rest) = on_volume-Ends c run_show_map run_show_map-Ends g ne
carry_out-Ends w c _ _ g ne (shows_full_map rest) =
    on_volume-Ends c run_show_full_map run_show_full_map-Ends g ne
carry_out-Ends w c _ _ g ne (shows_nodes rest) =
    on_volume-Ends c run_show_nodes run_show_nodes-Ends g ne
carry_out-Ends w c _ _ g ne (takes_block rest) =
    on_volume-Ends c run_take_block run_take_block-Ends g ne
carry_out-Ends w c _ _ g ne (takes_node rest) =
    on_volume-Ends c (run_take_node w) (λ s h. run_take_node-Ends s h w) g ne
carry_out-Ends w c _ _ g ne (gives_block rest i e) =
    on_volume-Ends c (run_give_block rest) (λ s h. run_give_block-Ends s h rest i e) g ne
carry_out-Ends w c _ _ g ne (marks_block rest i e) =
    on_volume-Ends c (run_mark_block rest) (λ s h. run_mark_block-Ends s h rest i e) g ne
carry_out-Ends w c _ _ g ne (gives_node rest i e) =
    on_volume-Ends c (run_give_node w rest) (λ s h. run_give_node-Ends s h rest i e w) g ne
carry_out-Ends w c _ _ g ne (marks_node rest i e) =
    on_volume-Ends c (run_mark_node w rest) (λ s h. run_mark_node-Ends s h rest i e w) g ne

-- Behind whatever lines the C++ shell has taken from a state with whole maps, unless newfs has
-- freed the volume, the commands blockMap, blockMapFull, iNodeMapFull, allocBlock and allociNode,
-- and freeBlock, setBlock, freeiNode and setiNode with a number, never fault.
pub carry_out_ends :
    (c c' : Console) (lines : List (World × List ℕ)) (out : List Reply) (w : World) (req : Request)
    (rest : List ℕ)
    → AllWhole c.pointers
    → console_loop c lines ≡ ok (out, c')
    → c'.pointers ≢ freed
    → Harmless req rest
    → (r : List Reply × Console) × (carry_out w c' req rest ≡ ok r)
carry_out_ends c c' lines out w req rest g runs ne harmless =
    carry_out-Ends w c' req rest (console_loop-AllWhole c c' lines out g runs) ne harmless
