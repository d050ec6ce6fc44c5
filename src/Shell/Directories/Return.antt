-- ===== src/Shell/Directories/Return.antt =====
-- my_shell.c: cd to a child, and cd .. back.
use cs.Prelude.{ℕ, ◌≡◌, Option, none, some, List, ◌++◌}
use cs.Prelude.Always.{Always}
use cs.INode.{INode}
use cs.FileSystem.{FileSystem}
use cs.Directory.Place.{Place, overs}
use cs.Shell.{Reply}

-- The place of an entry or of a sibling further on, if there is one.
abbrev Along : Place → List Reply × Option Place → Type 0
Along here (said, none) = Unit
Along here (said, some q) = (k : ℕ) × (q ≡ here ++ overs k)
