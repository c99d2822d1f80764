-- ===== src/Repository/Garbage.antt =====
-- core/src/repository.rs: the chunks that the snapshots use, and what is pruned for want of a use.
use ghostsnap.Prelude.{
  ℕ, ◌+◌, ◌%◌, ◌^◌, ◌≡◌, refl, true, false, arith, string_eq, Map, lookup, String, not, Option,
  none, some, List, [], ◌∷◌, contains, set_insert, any, length, list_eq, if◌then◌else◌,
}
use ghostsnap.Errors.{ok}
use ghostsnap.Action.{Action, ◌>>=◌, pure, ask}
use ghostsnap.Types.{ChunkId, ChunkRef, PackId, SnapshotId}
use ghostsnap.Index
use ghostsnap.Index.{Index, Bloom, PackInfo, ChunkLocation}
use ghostsnap.Snapshot.{Snapshot, TreeNode}
use ghostsnap.Snapshot.Encoding.{Json, JsonTree}
use ghostsnap.Repository.{Crates, Repository, delete_pack}
use ghostsnap.Repository.Objects.{load_snapshot, load_tree, list_snapshots}

pub record CompactStats : Type 0 where
  pub chunks_removed : ℕ
  pub packs_removed : ℕ
  pub bytes_freed : ℕ

-- `for chunk_ref in &node.chunks { used_chunks.insert(chunk_ref.id); }`, and over the nodes.
unfoldable pub insert_refs : List ChunkRef → List ChunkId → List ChunkId
insert_refs [] used = used
insert_refs (r ∷ rs) used = insert_refs rs (set_insert r.id used)

unfoldable pub insert_nodes : List TreeNode → List ChunkId → List ChunkId
unfolding insert_refs
insert_nodes [] used = used
insert_nodes (n ∷ ns) used = insert_nodes ns (insert_refs n.chunks used)

-- The loop of `find_unused_packs`.
unfoldable pub unused_among : {F : Type 0} → List ChunkId → Index F → List PackId → List PackId
unused_among used i [] = []
unused_among used i (id ∷ ids) =
    let rest = unused_among used i ids in
    let has_used_chunks = any (λ k. contains k used) (Index.chunks_in_pack id i) in
    if not has_used_chunks then id ∷ rest else rest

-- The sum of the sizes wraps, as in a release build.
abbrev freed : ℕ → Option PackInfo → ℕ
freed bytes none = bytes
freed bytes (some info) = (bytes + info.size) % 2 ^ 64

-- `sort` on the ids is the argument `sort`.
module _ {S C F : Type 0} (crates : Crates S C) (snapshots : Json Snapshot) (trees : JsonTree)
    (sort : List String → List String) where
  unfoldable pub collect_from :
      List SnapshotId → List ChunkId → Action (Repository S C F) (List ChunkId)
  unfolding load_snapshot load_tree insert_nodes
  collect_from [] used = pure used
  collect_from (id ∷ ids) used = do
    snapshot ← load_snapshot crates snapshots id
    tree ← load_tree crates trees snapshot.tree
    collect_from ids (insert_nodes tree.nodes used)

  unfoldable pub collect_used_chunks : Action (Repository S C F) (List ChunkId)
  unfolding list_snapshots collect_from
  collect_used_chunks = do ids ← list_snapshots crates sort; collect_from ids []

module _ {S C F : Type 0} ⦃b : Bloom F⦄ (crates : Crates S C) (snapshots : Json Snapshot)
    (trees : JsonTree) (sort : List String → List String) where
  unfoldable pub compact_index : Action (Repository S C F) ℕ
  unfolding collect_used_chunks
  compact_index = do
    used ← collect_used_chunks crates snapshots trees sort
    (λ r. (ok (Index.compact used r.index).1, record r { index = (Index.compact used r.index).0 }))

  unfoldable pub find_unused_packs : Action (Repository S C F) (List PackId)
  unfolding collect_used_chunks unused_among
  find_unused_packs = do
    used ← collect_used_chunks crates snapshots trees sort
    ask (λ r. ok (unused_among used r.index (Index.all_pack_ids r.index)))

  unfoldable pub delete_packs : List PackId → ℕ → Action (Repository S C F) ℕ
  unfolding delete_pack
  delete_packs [] bytes = pure bytes
  delete_packs (id ∷ ids) bytes = do
    info ← ask (λ r. ok (Index.get_pack id r.index))
    deleted ← delete_pack crates id
    delete_packs ids (freed bytes info)

  unfoldable pub prune_packs : Action (Repository S C F) CompactStats
  unfolding find_unused_packs delete_packs compact_index
  prune_packs = do
    unused_packs ← find_unused_packs
    bytes_freed ← delete_packs unused_packs 0
    chunks_removed ← compact_index
    pure (record {
      chunks_removed = chunks_removed;
      packs_removed = length unused_packs;
      bytes_freed = bytes_freed;
    })

contains-chunks_in_pack :
    (k : ChunkId) (chunks : Map ChunkId ChunkLocation) (loc : ChunkLocation)
    → lookup k chunks ≡ some loc
    → contains k (Index.ids_in loc.pack_id chunks) ≡ true
unfolding Index.ids_in
contains-chunks_in_pack k [] loc h = cc
contains-chunks_in_pack k ((j, l) ∷ chunks) loc h = ground (
  arith,
  contains-chunks_in_pack k chunks loc,
  list_eq.beq_iff j k,
  string_eq.beq_iff l.pack_id loc.pack_id,
)

any-contains :
    (k : ChunkId) (ids used : List ChunkId)
    → contains k ids ≡ true
    → contains k used ≡ true
    → any (λ j. contains j used) ids ≡ true
any-contains k [] used h u = cc
any-contains k (j ∷ ids) used h u = ground (arith, any-contains k ids used, list_eq.beq_iff j k)

-- A pack in which the index places a used chunk is never among the unused packs.
pub contains-unused_among :
    {F : Type 0} (used : List ChunkId) (i : Index F) (ids : List PackId) (k : ChunkId)
    (loc : ChunkLocation)
    → contains k used ≡ true
    → lookup k i.chunks ≡ some loc
    → contains loc.pack_id (unused_among used i ids) ≡ false
unfolding unused_among Index.chunks_in_pack
contains-unused_among used i [] k loc u h = refl
contains-unused_among used i (id ∷ ids) k loc u h = ground (
  arith,
  contains-unused_among used i ids k loc u h,
  string_eq.beq_iff id loc.pack_id,
  any-contains k (Index.ids_in loc.pack_id i.chunks) used (contains-chunks_in_pack k i.chunks loc h)
      u,
)
