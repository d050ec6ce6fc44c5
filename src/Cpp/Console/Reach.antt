-- ===== src/Cpp/Console/Reach.antt =====
-- my_Blocks_c++/my_shell.cpp: the runs of the shell.
use cs.Prelude.{ℕ, ◌≡◌, Bool, true, false, List, [], ◌∷◌, ◌++◌, if◌then◌else◌}
use cs.Prelude.Run.{Run, ok, fault, ◌>>=◌}
use cs.Prelude.Always.{ok-Always, >>=-Always, branch-Always, fault-Always, option-Always}
use cs.Device.{Entry}
use cs.Shell.{with_file}
use cs.Cpp.Console.{
  Console, unmounted, freed, live, Request, show_map, show_full_map, show_nodes, make, take_block,
  give_block, mark_block, take_node, give_node, mark_node, block_address, node_dates, mount_it,
  unmount_it, help, quit, other, on_volume, is_mounted, run_make, run_mount_it, run_unmount_it,
  request_of, carry_out, console_step, console_loop,
}
use cs.Cpp.Console.Commands.{
  Reply, need_to_mount, valid_commands, unknown_command, run_show_map, run_show_full_map,
  run_show_nodes, run_take_block, run_give_block, run_mark_block, run_take_node, run_give_node,
  run_mark_node, run_block_address, run_node_dates,
}
use cs.Cpp.Console.Words.{number, argument, first_word, first_delimiters}
use cs.Cpp.Console.Volume.{World, Mounted, make_volume, mount_volume, unmount_volume}
use cs.Cpp.Console.Invariant.{AllWhole, Kept, mount_volume-IsWhole}
use cs.Cpp.Console.Invariant.Commands.{
  on_volume-Kept, run_show_map-Keeps, run_show_full_map-Keeps, run_show_nodes-Keeps,
  run_take_block-Keeps, run_give_block-Keeps, run_mark_block-Keeps, run_take_node-Keeps,
  run_give_node-Keeps, run_mark_node-Keeps, run_node_dates-Keeps, run_block_address-Keeps,
}

>>=-Kept :
    {V : Type 0} (m : Run V) (k : V → Run (List Reply × Console))
    → ((q : V) → Kept (k q))
    → Kept (m >>= k)
>>=-Kept m k keeps =
    >>=-Always (λ (r : List Reply × Console). AllWhole r.1.pointers) m k (λ q e. keeps q)

nothing_left : (b : Bool) → AllWhole (if b then freed else unmounted)
nothing_left true = tt
nothing_left false = tt

run_make-Kept : (w : World) (c : Console) (rest : List ℕ) → Kept (run_make w c rest)
unfolding run_make
run_make-Kept w c rest = >>=-Kept (argument rest 0) _ (λ name. >>=-Kept (number rest 1) _ (λ bpb.
    >>=-Kept (number rest 2) _ (λ bcnt. >>=-Kept (make_volume w (c.files name) bpb bcnt) _ (λ made.
      ok-Always (λ (r : List Reply × Console). AllWhole r.1.pointers) _
        (nothing_left (is_mounted c.pointers))))))

run_mount_it-Kept : (w : World) (c : Console) (rest : List ℕ) → Kept (run_mount_it w c rest)
unfolding run_mount_it
run_mount_it-Kept w c rest =
    let P : List Reply × Console → Type 0 = λ r. AllWhole r.1.pointers in
    let mounts : List ℕ → Run (List Reply × Console) = λ name.
      mount_volume w (c.files name) >>= λ q.
      ok ([], record c { files = with_file c.files name q.1; pointers = live name q.0 }) in
    >>=-Always P (argument rest 0) mounts (λ name e0.
      >>=-Always P (mount_volume w (c.files name))
        (λ (q : Mounted × Entry).
          ok ([], record c { files = with_file c.files name q.1; pointers = live name q.0 }))
        (λ q e1.
          ok-Always P
            ([], record c { files = with_file c.files name q.1; pointers = live name q.0 })
            (mount_volume-IsWhole w (c.files name) q e1)))

run_unmount_it-Kept : (w : World) (c : Console) → AllWhole c.pointers → Kept (run_unmount_it w c)
unfolding run_unmount_it
run_unmount_it-Kept w c g =
    let P : List Reply × Console → Type 0 = λ r. AllWhole r.1.pointers in
    elim c.pointers
      as (λ p. Kept (elim p [
        | unmounted ↦ ok (need_to_mount ∷ [], c)
        | freed ↦ fault
        | live name s ↦ unmount_volume w (c.files name) s >>= λ e.
            ok ([], record c { files = with_file c.files name e; pointers = unmounted })
      ])) [
        | unmounted ↦ ok-Always P (need_to_mount ∷ [], c) g
        | freed ↦ fault-Always P
        | live name s ↦
            >>=-Kept (unmount_volume w (c.files name) s)
              (λ (e : Entry).
                ok ([], record c { files = with_file c.files name e; pointers = unmounted }))
              (λ e.
                ok-Always P
                  ([], record c { files = with_file c.files name e; pointers = unmounted }) tt)
      ]

-- Every command keeps what is mounted whole.
pub carry_out-Kept :
    (w : World) (c : Console) (req : Request) (rest : List ℕ)
    → AllWhole c.pointers
    → Kept (carry_out w c req rest)
unfolding carry_out
carry_out-Kept w c show_map rest g = on_volume-Kept c run_show_map run_show_map-Keeps g
carry_out-Kept w c show_full_map rest g =
    on_volume-Kept c run_show_full_map run_show_full_map-Keeps g
carry_out-Kept w c show_nodes rest g = on_volume-Kept c run_show_nodes run_show_nodes-Keeps g
carry_out-Kept w c make rest g = run_make-Kept w c rest
carry_out-Kept w c take_block rest g = on_volume-Kept c run_take_block run_take_block-Keeps g
carry_out-Kept w c give_block rest g =
    on_volume-Kept c (run_give_block rest) (run_give_block-Keeps rest) g
carry_out-Kept w c mark_block rest g =
    on_volume-Kept c (run_mark_block rest) (run_mark_block-Keeps rest) g
carry_out-Kept w c take_node rest g = on_volume-Kept c (run_take_node w) (run_take_node-Keeps w) g
carry_out-Kept w c give_node rest g =
    on_volume-Kept c (run_give_node w rest) (run_give_node-Keeps w rest) g
carry_out-Kept w c mark_node rest g =
    on_volume-Kept c (run_mark_node w rest) (run_mark_node-Keeps w rest) g
carry_out-Kept w c block_address rest g =
    on_volume-Kept c (run_block_address rest) (run_block_address-Keeps rest) g
carry_out-Kept w c node_dates rest g =
    let P : List Reply × Console → Type 0 = λ r. AllWhole r.1.pointers in
    elim c.pointers
      as (λ p. Kept (elim p [
        | unmounted ↦ ok ([], c)
        | freed ↦ fault
        | live name s ↦ on_volume c (run_node_dates rest)
      ])) [
        | unmounted ↦ ok-Always P ([], c) g
        | freed ↦ fault-Always P
        | live name s ↦ on_volume-Kept c (run_node_dates rest) (run_node_dates-Keeps rest) g
      ]
carry_out-Kept w c mount_it rest g = run_mount_it-Kept w c rest
carry_out-Kept w c unmount_it rest g = run_unmount_it-Kept w c g
carry_out-Kept w c help rest g =
    ok-Always (λ (r : List Reply × Console). AllWhole r.1.pointers) (valid_commands ∷ [], c) g
carry_out-Kept w c quit rest g = ok-Always (λ (r : List Reply × Console). AllWhole r.1.pointers) _ g
carry_out-Kept w c other rest g =
    ok-Always (λ (r : List Reply × Console). AllWhole r.1.pointers) (unknown_command ∷ [], c) g

console_step-Kept :
    (w : World) (c : Console) (line : List ℕ) → AllWhole c.pointers → Kept (console_step w c line)
unfolding console_step
console_step-Kept w c line g =
    option-Always (λ (r : List Reply × Console). AllWhole r.1.pointers)
      (first_word first_delimiters [] line) fault
      (λ (q : List ℕ × List ℕ). carry_out w c (request_of q.0) q.1)
      (fault-Always (λ (r : List Reply × Console). AllWhole r.1.pointers))
      (λ q e. carry_out-Kept w c (request_of q.0) q.1 g)

console_loop-Kept :
    (c : Console) (lines : List (World × List ℕ))
    → AllWhole c.pointers
    → Kept (console_loop c lines)
unfolding console_loop
console_loop-Kept c [] g = ok-Always (λ (r : List Reply × Console). AllWhole r.1.pointers) ([], c) g
console_loop-Kept c ((w, line) ∷ lines) g =
    let P : List Reply × Console → Type 0 = λ r. AllWhole r.1.pointers in
    let again : List Reply × Console → Run (List Reply × Console) =
      λ r. console_loop r.1 lines >>= λ rest. ok (r.0 ++ rest.0, rest.1) in
    branch-Always P c.is_done (ok ([], c)) (console_step w c line >>= again)
      (λ stop. ok-Always P ([], c) g)
      (λ on. >>=-Always P (console_step w c line) again (λ r e.
        >>=-Always P (console_loop r.1 lines)
          (λ (rest : List Reply × Console). ok (r.0 ++ rest.0, rest.1))
          (λ rest e'.
            ok-Always P (r.0 ++ rest.0, rest.1)
              (console_loop-Kept r.1 lines (console_step-Kept w c line g r e) rest e'))))

-- Whatever files the C++ shell finds and whatever lines it takes from a state where it holds,
-- when its loop ends the block map of a mounted volume has as many bits as it says, and the array
-- of inodes as many inodes as the master block says.
pub console_loop-AllWhole :
    (c c' : Console) (lines : List (World × List ℕ)) (out : List Reply)
    → AllWhole c.pointers
    → console_loop c lines ≡ ok (out, c')
    → AllWhole c'.pointers
console_loop-AllWhole c c' lines out g e = console_loop-Kept c lines g (out, c') e
