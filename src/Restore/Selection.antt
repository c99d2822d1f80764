-- ===== src/Restore/Selection.antt =====
-- cli/src/commands/restore.rs: which snapshot is restored, which nodes, and in which order.
use Prim.Native.String.{◌++◌ as append, compare, len}
use text.Mathlib.Text.{is_lt, starts_with}
use ghostsnap.Prelude.{
  String, Bool, true, false, ◌||◌, List, [], ◌∷◌, Map, insert, any, retain, ◌==◌, string_eq, leb,
  trim_end_code, if◌then◌else◌,
}
use ghostsnap.Errors.{Error, Result, ok, err}
use ghostsnap.Action.{Action, ◌>>=◌, pure, lift}
use ghostsnap.Types.{SnapshotId}
use ghostsnap.Snapshot.{TreeNode, is_dir}
use ghostsnap.Repository.{Crates, Repository}
use ghostsnap.Repository.Objects.{list_snapshots}

-- `self.paths`: a node of that name, or below it.
abbrev pub selects : TreeNode → String → Bool
selects node path =
    let p = trim_end_code b'/' path in node.name == p || starts_with node.name (append p "/")

unfoldable pub select : List String → List TreeNode → List TreeNode
select [] nodes = nodes
select (p ∷ ps) nodes = retain (λ node. any (selects node) (p ∷ ps)) nodes

-- Directories first, then by name.
abbrev pub comes_before : Bool → Bool → TreeNode → TreeNode → Bool
comes_before true false a b = true
comes_before false true a b = false
comes_before true true a b = is_lt (compare a.name b.name)
comes_before false false a b = is_lt (compare a.name b.name)

unfoldable pub place : TreeNode → List TreeNode → List TreeNode
unfolding is_dir
place a [] = a ∷ []
place a (b ∷ bs) =
    let rest = place a bs in if comes_before (is_dir b) (is_dir a) b a then b ∷ rest else a ∷ b ∷ bs

unfoldable pub sort_nodes : List TreeNode → List TreeNode
unfolding place
sort_nodes [] = []
sort_nodes (node ∷ nodes) = place node (sort_nodes nodes)

-- `node_by_name`, where the last node of a name stands.
unfoldable pub by_name : List TreeNode → Map String TreeNode → Map String TreeNode
by_name [] m = m
by_name (n ∷ ns) m = by_name ns (insert n.name n m)

-- `match matches.len()`
abbrev pub choose_match : List SnapshotId → Result SnapshotId
choose_match [] = err (Error.other "No snapshot found")
choose_match (id ∷ []) = ok id
choose_match (id ∷ id' ∷ ids) = err (Error.other "Ambiguous snapshot ID")

module _ {S C F : Type 0} (crates : Crates S C) (sort : List String → List String) where
  unfoldable pub resolve_snapshot_id : String → Action (Repository S C F) SnapshotId
  unfolding list_snapshots
  resolve_snapshot_id snapshot_id = if leb 36 (len snapshot_id) then pure snapshot_id else (do
    all_snapshots ← list_snapshots crates sort
    lift (choose_match (retain (λ id. starts_with id snapshot_id) all_snapshots)))
