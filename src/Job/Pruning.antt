-- ===== src/Job/Pruning.antt =====
-- cli/src/commands/job.rs, `run_prune`: packs in which the index places no chunk of a snapshot are deleted.
pub mod Collecting
pub mod Searching
pub mod Safety
use ghostsnap.Prelude.{
  ℕ, ◌+◌, ◌%◌, ◌^◌, Bool, true, false, ◌&&◌, ◌||◌, ◌==◌, string_eq, list_eq, Option, none, some,
  List, [], ◌∷◌, ◌++◌, if◌then◌else◌, length, contains, set_insert, Map, String,
}
use ghostsnap.Errors.{ok}
use ghostsnap.Action.{Action, ◌>>=◌, pure, ask, attempt}
use ghostsnap.Foreign.{Bytes}
use ghostsnap.Types.{ChunkId, ChunkRef, PackId, SnapshotId}
use ghostsnap.Index.{ChunkLocation}
use ghostsnap.Snapshot.{Snapshot, TreeNode}
use ghostsnap.Snapshot.Encoding.{Json, JsonTree}
use ghostsnap.Repository.{Crates, Repository, delete_pack, save_index}
use ghostsnap.Repository.Objects.{list_packs, pack_size, list_snapshots, load_snapshot, load_tree}

-- `for chunk_ref in &node.chunks { referenced_chunks.insert(chunk_ref.id); }`, and over the nodes.
unfoldable pub reference_chunks : List ChunkRef → List ChunkId → List ChunkId
reference_chunks [] referenced = referenced
reference_chunks (c ∷ cs) referenced = reference_chunks cs (set_insert c.id referenced)

unfoldable pub reference_nodes : List TreeNode → List ChunkId → List ChunkId
unfolding reference_chunks
reference_nodes [] referenced = referenced
reference_nodes (n ∷ ns) referenced = reference_nodes ns (reference_chunks n.chunks referenced)

module _ {S C F : Type 0} (crates : Crates S C) (snapshots : Json Snapshot) (trees : JsonTree) where
  -- The loop over the snapshots.
  unfoldable pub collect_referenced :
      List SnapshotId → List ChunkId → Action (Repository S C F) (List ChunkId)
  unfolding load_snapshot load_tree reference_nodes
  collect_referenced [] referenced = pure referenced
  collect_referenced (id ∷ ids) referenced = do
    snapshot ← load_snapshot crates snapshots id
    tree ← load_tree crates trees snapshot.tree
    collect_referenced ids (reference_nodes tree.nodes referenced)

-- The loop over the entries of the index, up to the first that is referenced.
unfoldable pub has_referenced : PackId → List ChunkId → Map ChunkId ChunkLocation → Bool
has_referenced pack_id referenced [] = false
has_referenced pack_id referenced ((chunk_id, location) ∷ rest) =
    let others = has_referenced pack_id referenced rest in
    (location.pack_id == pack_id && contains chunk_id referenced) || others

-- `bytes_freed += size`, if the size could be read. The sum wraps, as in a release build.
abbrev pub freed_with : Option ℕ → ℕ → ℕ
freed_with none bytes_freed = bytes_freed
freed_with (some size) bytes_freed = (bytes_freed + size) % 2 ^ 64

-- What a pack adds to `packs_to_delete` and to `bytes_freed`.
module _ {S C F : Type 0} (crates : Crates S C) where
  unfoldable pub find_prunable :
      List ChunkId → List PackId → List PackId × ℕ → Action (Repository S C F) (List PackId × ℕ)
  unfolding has_referenced pack_size
  find_prunable referenced [] found = pure found
  find_prunable referenced (pack_id ∷ pack_ids) found = do
    keep ← ask (λ r. ok (has_referenced pack_id referenced r.index.chunks))
    if keep then find_prunable referenced pack_ids found else (do
      size ← attempt (pack_size crates pack_id)
      find_prunable referenced pack_ids (found.0 ++ pack_id ∷ [], freed_with size found.1))

  unfoldable pub delete_all : List PackId → Action (Repository S C F) Unit
  unfolding delete_pack
  delete_all [] = pure tt
  delete_all (id ∷ ids) = do deleted ← delete_pack crates id; delete_all ids

  -- From the deletions to the end.
  unfoldable pub finish_prune : Bytes → List PackId × ℕ → Action (Repository S C F) (ℕ × ℕ)
  unfolding delete_all save_index
  finish_prune nonce found = do
    deleted ← delete_all found.0
    saved ← save_index crates nonce
    pure (length found.0, found.1)

module _ {S C F : Type 0} (crates : Crates S C) (snapshots : Json Snapshot) (trees : JsonTree)
    (sort : List String → List String) where
  unfoldable pub run_prune : Bytes → Action (Repository S C F) (ℕ × ℕ)
  unfolding list_snapshots collect_referenced list_packs find_prunable finish_prune
  run_prune nonce = do
    snapshot_ids ← list_snapshots crates sort
    referenced ← collect_referenced crates snapshots trees snapshot_ids []
    all_packs ← list_packs crates
    found ← find_prunable crates referenced all_packs ([], 0)
    finish_prune crates nonce found
