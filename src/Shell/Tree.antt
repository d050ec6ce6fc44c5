-- ===== src/Shell/Tree.antt =====
-- show_tree.c: the names in the root directory of a device.
use cs.Prelude.{ℕ, List}
use cs.Prelude.Run.{Run, ok, ◌>>=◌}
use cs.Device.{Entry}
use cs.Directory.{children_of, get_children}
use cs.Volume.{mount, unmount}
use cs.Shell.Directories.{sibling_names}

-- `main`, with its device file: the names that are printed, and what the host has then.
unfoldable pub show_tree : Entry → Run (List (List ℕ) × Entry)
show_tree host = mount host >>= λ fs2. get_children fs2 fs2.root_dir >>= λ d.
    unmount (record d.1 { root_dir = d.0 }) >>= λ r. ok (sibling_names (children_of d.0), r.1)
