-- ===== src/Snapshot.antt =====
-- core/src/snapshot.rs: snapshots, trees, and the in-memory `SnapshotManager`. The constructors, which
-- draw a random id and ask for the clock, the host and the user, are not modelled: a snapshot is given
-- whole. An mtime is its 64-bit pattern.
pub mod Manager
pub mod Encoding
use ghostsnap.Prelude.{
  ℕ, zero, suc, ◌+◌, ◌%◌, ◌^◌, String, Bool, true, false, ◌==◌, string_eq, Option, none, some, List,
  [], ◌∷◌, ◌++◌, retain, length, if◌then◌else◌,
}
use ghostsnap.Types.{ChunkId, ChunkRef, SnapshotId}

-- core/src/types.rs
pub data NodeType : Type 0 where
  file directory symlink : NodeType

pub record TreeNode : Type 0 where
  pub name : String
  pub node_type : NodeType
  pub mode : ℕ
  pub uid : ℕ
  pub gid : ℕ
  pub size : ℕ
  pub mtime : ℕ
  pub link_target : Option String
  pub subtree_id : Option ChunkId
  pub chunks : List ChunkRef
  pub xattr : Option (List (String × List ℕ))
  pub sparse_holes : Option (List (ℕ × ℕ))
  pub inode : Option ℕ
  pub nlink : Option ℕ
  pub hardlink_target : Option String

unfoldable pub is_file : TreeNode → Bool
is_file n = elim n.node_type [ file ↦ true | _ ↦ false ]

unfoldable pub is_dir : TreeNode → Bool
is_dir n = elim n.node_type [ directory ↦ true | _ ↦ false ]

unfoldable pub is_symlink : TreeNode → Bool
is_symlink n = elim n.node_type [ symlink ↦ true | _ ↦ false ]

pub record Snapshot : Type 0 where
  pub id : SnapshotId
  pub parent : Option SnapshotId
  pub tree : ChunkId
  pub paths : List String
  pub hostname : String
  pub username : String
  pub time : ℕ
  pub tags : List String
  pub excludes : List String

pub record Tree : Type 0 where
  pub nodes : List TreeNode

unfoldable pub add_node : TreeNode → Tree → Tree
add_node node t = record { nodes = t.nodes ++ node ∷ [] }

find_in : String → List TreeNode → Option TreeNode
find_in path [] = none
find_in path (n ∷ rest) = if n.name == path then some n else find_in path rest

unfoldable pub find_node : String → Tree → Option TreeNode
unfolding find_in
find_node path t = find_in path t.nodes

unfoldable pub file_count : Tree → ℕ
unfolding is_file
file_count t = length (retain is_file t.nodes)

unfoldable pub dir_count : Tree → ℕ
unfolding is_dir
dir_count t = length (retain is_dir t.nodes)
