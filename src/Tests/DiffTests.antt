-- ===== src/Tests/DiffTests.antt =====
-- The theorem on diffs at two concrete trees.
use ghostsnap.Prelude.{String, ℕ, ◌≡◌, true, Option, none, List, [], ◌∷◌}
use ghostsnap.Types.{ChunkRef}
use ghostsnap.Snapshot.{TreeNode, Tree, file}
use ghostsnap.Diff.{ChangeType, changes}
use ghostsnap.Diff.Comparing.{Says}
use ghostsnap.Diff.Changes.{of_name, last_named, listed, of_name-changes}

abbrev node : String → ℕ → List ChunkRef → TreeNode
node name size chunks = record {
  name = name;
  node_type = file;
  mode = 420;
  uid = 0;
  gid = 0;
  size = size;
  mtime = 0;
  link_target = none;
  subtree_id = none;
  chunks = chunks;
  xattr = none;
  sparse_holes = none;
  inode = none;
  nlink = none;
  hardlink_target = none;
}

abbrev before : Tree
before = record { nodes = node "a" 1 [] ∷ node "b" 2 [] ∷ [] }

abbrev after : Tree
after = record {
  nodes = node "c" 1 [] ∷ node "b" 3 ((record { id = 1 ∷ []; offset = 0; length = 3 }) ∷ []) ∷ [];
}

of_name-changes_example :
    (c : Option ChangeType) × (of_name "b" (changes true before after) ≡ listed c)
    × Says true (last_named "b" before.nodes) (last_named "b" after.nodes) c
of_name-changes_example = of_name-changes true before after "b"
