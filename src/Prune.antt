-- ===== src/Prune.antt =====
-- cli/src/commands/prune.rs: the packs whose chunks are all orphans are deleted, and the orphans leave the
-- index. The lock, the sizes and the packs that deserve a repacking, which are only printed, are left out.
pub mod Orphans
pub mod Safety
use ghostsnap.Prelude.{
  ℕ, ◌+◌, String, Bool, Option, none, some, List, [], ◌∷◌, leb, nat_beq, not, contains, Map, lookup,
  insert, length, list_eq, string_eq, if◌then◌else◌, ◌&&◌, ◌||◌,
}
use ghostsnap.Errors.{ok}
use ghostsnap.Action.{Action, ◌>>=◌, pure, ask, modify, attempt}
use ghostsnap.Foreign.{Bytes}
use ghostsnap.Types.{ChunkId, PackId, SnapshotId}
use ghostsnap.Index
use ghostsnap.Index.{Index, ChunkLocation}
use ghostsnap.Snapshot.{Snapshot, Tree}
use ghostsnap.Snapshot.Encoding.{Json, JsonTree}
use ghostsnap.Repository.{Crates, Repository, save_index}
use ghostsnap.Repository.Objects.{load_snapshot, load_tree, list_snapshots}
use ghostsnap.Repository.Garbage.{insert_nodes}
use ghostsnap.Job.Pruning.{delete_all}

-- `(total_chunks, orphaned_chunks)` of a pack.
abbrev pub PackStats : Type 0
PackStats = ℕ × ℕ

-- `all_chunks.difference(&referenced_chunks)`
unfoldable pub orphaned_among : List ChunkId → Map ChunkId ChunkLocation → List ChunkId
orphaned_among referenced [] = []
orphaned_among referenced ((id, location) ∷ chunks) =
    let rest = orphaned_among referenced chunks in
    if contains id referenced then rest else id ∷ rest

-- `.or_insert((0, 0, 0))`
abbrev pub entry_of : Option PackStats → PackStats
entry_of none = (0, 0)
entry_of (some stats) = stats

-- One entry of the index is counted in its pack.
unfoldable pub count_chunk : PackId → Bool → Map PackId PackStats → Map PackId PackStats
count_chunk pack_id is_orphaned stats =
    let entry = entry_of (lookup pack_id stats) in
    insert pack_id (entry.0 + 1, if is_orphaned then entry.1 + 1 else entry.1) stats

unfoldable pub count_chunks :
    List ChunkId → Map ChunkId ChunkLocation → Map PackId PackStats → Map PackId PackStats
unfolding count_chunk
count_chunks orphaned [] stats = stats
count_chunks orphaned ((id, location) ∷ chunks) stats =
    count_chunks orphaned chunks (count_chunk location.pack_id (contains id orphaned) stats)

-- `orphan_ratio >= 1.0`, on counts that a float holds exactly.
unfoldable pub packs_to_delete : Map PackId PackStats → List PackId
packs_to_delete [] = []
packs_to_delete ((pack_id, (total, orphaned)) ∷ stats) =
    let rest = packs_to_delete stats in
    if not (nat_beq orphaned 0) && leb total orphaned then pack_id ∷ rest else rest

unfoldable pub remove_all : {F : Type 0} → List ChunkId → Index F → Index F
unfolding Index.remove_chunk
remove_all [] i = i
remove_all (id ∷ ids) i = remove_all ids (Index.remove_chunk id i).0

module _ {S C F : Type 0} (crates : Crates S C) where
  -- From the deletions to the end.
  unfoldable pub prune_orphaned :
      Bytes → List PackId → List ChunkId → Action (Repository S C F) Unit
  unfolding delete_all remove_all save_index
  prune_orphaned nonce pack_ids orphaned = do
    deleted ← delete_all crates pack_ids
    removed ← modify (λ r. record r { index = remove_all orphaned r.index })
    save_index crates nonce

  -- From the set of the referenced chunks to the end.
  unfoldable pub prune_unreferenced : Bool → Bytes → List ChunkId → Action (Repository S C F) Unit
  unfolding orphaned_among count_chunks packs_to_delete prune_orphaned
  prune_unreferenced dry_run nonce referenced = do
    chunks ← ask (λ r. ok r.index.chunks)
    let orphaned = orphaned_among referenced chunks
    let found = packs_to_delete (count_chunks orphaned chunks [])
    if nat_beq (length orphaned) 0 || dry_run
        then pure tt
        else (prune_orphaned nonce found orphaned)

-- `insert` for the chunks of a tree that could be loaded.
unfoldable pub insert_tree : Option Tree → List ChunkId → List ChunkId
unfolding insert_nodes
insert_tree none referenced = referenced
insert_tree (some tree) referenced = insert_nodes tree.nodes referenced

module _ {S C F : Type 0} (crates : Crates S C) (snapshots : Json Snapshot) (trees : JsonTree) where
  -- The tree of a snapshot.
  unfoldable pub load_tree_of : SnapshotId → Action (Repository S C F) Tree
  unfolding load_snapshot load_tree
  load_tree_of id = do
    snapshot ← load_snapshot crates snapshots id
    load_tree crates trees snapshot.tree

  -- A snapshot that cannot be loaded, or whose tree cannot, is passed over.
  unfoldable pub scan_snapshots :
      List SnapshotId → List ChunkId → Action (Repository S C F) (List ChunkId)
  unfolding load_tree_of insert_tree
  scan_snapshots [] referenced = pure referenced
  scan_snapshots (id ∷ ids) referenced = do
    tree ← attempt (load_tree_of id)
    scan_snapshots ids (insert_tree tree referenced)

module _ {S C F : Type 0} (crates : Crates S C) (snapshots : Json Snapshot) (trees : JsonTree)
    (sort : List String → List String) where
  unfoldable pub run : Bool → Bytes → Action (Repository S C F) Unit
  unfolding list_snapshots scan_snapshots prune_unreferenced
  run dry_run nonce = do
    ids ← list_snapshots crates sort
    referenced ← scan_snapshots crates snapshots trees ids []
    prune_unreferenced crates dry_run nonce referenced
