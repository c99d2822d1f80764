-- ===== src/Tests/ObjectsTests.antt =====
-- Snapshots and trees as objects, and the prune of a job, at a concrete repository.
use ghostsnap.Prelude.{
  String, ◌≡◌, refl, true, false, set_insert, list_eq, ◌++◌ as append, ◌==◌, string_eq, none, some,
  List, [], ◌∷◌, Map, SameMap-refl, if◌then◌else◌, replicate,
}
use native.Mathlib.Decide.{ℕ_discrete}
use ghostsnap.Errors.{ok}
use ghostsnap.Foreign.{Bytes}
use ghostsnap.Types.{ChunkId, from_data, to_hex}
use ghostsnap.Crypto.{encrypt, decrypt}
use ghostsnap.Index
use ghostsnap.Index.{Index, new, add_chunk, add_pack, mark_clean}
use ghostsnap.Index.Encoding.{IndexData, IndexCodec, IsWell, IsSame, index_data, to_encrypted_bytes}
use ghostsnap.Snapshot.{Snapshot, Tree, TreeNode, file}
use ghostsnap.Snapshot.Encoding.{
  Json, JsonTree, WellTree, SameTree, serialize_tree, serialize_snapshot, deserialize_tree,
  deserialize_snapshot,
}
use ghostsnap.Storage.{RepositoryStorage, pack_path}
use ghostsnap.Repository.{
  Crates, Repository, encryptor_of, write_object, load_chunk, delete_pack, save_index, write_index,
  invalidate, delete_object, unindex_pack,
}
use ghostsnap.Repository.Objects.{
  list_snapshots, tree_path, snapshot_path, save_tree, save_snapshot, load_tree, load_snapshot,
  load-save_snapshot, list_packs, object_size,
}
use ghostsnap.Repository.Coherence.{IsCoherent}
use ghostsnap.Job.Pruning.{
  find_prunable, run_prune, finish_prune, collect_referenced, reference_chunks,
}
use ghostsnap.Job.Pruning.Safety.{load_chunk-run_prune, get_chunk-finish_prune}
use ghostsnap.Tests.Stores.{map_storage, Slot, slot_cache}
use ghostsnap.Tests.Crates.{
  plain_cipher, length_hasher, unary_hex, exact_bloom, string_discrete, index_data_discrete,
  sample_codec, sample_bytes_self, sample_value, print,
}
use ghostsnap.Tests.Packs.{plain_zlib, id_a, id_b, header_codec, table_codec, key, saved_bytes}

instance abbrev pub bloom : Index.Bloom (List ChunkId)
bloom = exact_bloom

abbrev pub nonce : Bytes
nonce = replicate 12 0

abbrev node : TreeNode
node = record {
  name = "a";
  node_type = file;
  mode = 420;
  uid = 0;
  gid = 0;
  size = 1;
  mtime = 0;
  link_target = none;
  subtree_id = none;
  chunks = (record { id = id_a; offset = 0; length = 1 }) ∷ [];
  xattr = some (("user.a", 1 ∷ []) ∷ []);
  sparse_holes = none;
  inode = none;
  nlink = none;
  hardlink_target = none;
}

abbrev tree : Tree
tree = record { nodes = node ∷ [] }

abbrev pub tree_id : ChunkId
tree_id = replicate 32 13

abbrev snapshot : Snapshot
snapshot = record {
  id = "s";
  parent = none;
  tree = tree_id;
  paths = "/a" ∷ [];
  hostname = "h";
  username = "u";
  time = 5;
  tags = [];
  excludes = [];
}

pub snapshot_discrete : Discrete Snapshot
snapshot_discrete = hlevel (ℕ_discrete, string_discrete)

pub tree_discrete : Discrete Tree
tree_discrete = hlevel (ℕ_discrete, string_discrete)

abbrev pub snapshots : Json Snapshot
snapshots = sample_codec (λ s. Unit) (λ s t. s ≡ t) snapshot_discrete snapshot tt refl

abbrev pub trees : JsonTree
trees =
    sample_codec WellTree SameTree tree_discrete tree ((refl, tt), tt)
      ((refl, SameMap-refl (("user.a", 1 ∷ []) ∷ [])), tt)

-- Two snapshots of names, and the objects of `data`.
abbrev listing : String → List String
listing prefix = if prefix == "data" then "p.pack" ∷ "q.pack" ∷ [] else "s" ∷ []

abbrev store : RepositoryStorage (Map String Bytes)
store = record map_storage { list = λ prefix s. ok (listing prefix) }

-- The index after the prune below: the pack `q` is gone, its chunk is not.
abbrev pub located : Index (List ChunkId)
located = record {
  bloom = id_b ∷ id_a ∷ [];
  chunks =
      (id_a, record { pack_id = "p"; offset = 3; length = 1 })
      ∷ (id_b, record { pack_id = "q"; offset = 0; length = 1 })
      ∷ [];
  packs = ("q", record { id = "q"; size = 1; chunk_count = 1 }) ∷ [];
  dirty = false;
}

abbrev left : Index (List ChunkId)
left = record located { packs = []; dirty = true }

abbrev sample : IndexData
sample = index_data left

pub sample-IsWell : IsWell sample
sample-IsWell = record { chunks = (refl, (refl, tt)); packs = tt }

pub sample-IsSame : IsSame sample sample
sample-IsSame = record {
  header = refl;
  chunks = SameMap-refl sample.chunks;
  packs = SameMap-refl sample.packs;
}

abbrev codec : IndexCodec
codec = sample_codec IsWell IsSame index_data_discrete sample sample-IsWell sample-IsSame

abbrev pub crates : Crates (Map String Bytes) Slot
crates = record {
  cipher = plain_cipher;
  hasher = length_hasher;
  hex = unary_hex;
  zlib = plain_zlib;
  headers = header_codec;
  tables = table_codec;
  indexes = codec;
  store = store;
  lru = slot_cache;
}

abbrev pub empty : Repository (Map String Bytes) Slot (List ChunkId)
empty = record {
  storage = [];
  encryptor = some key;
  index = new;
  pack_cache = none;
  pack_cache_size = 0;
  max_cache_size = 100;
}

abbrev after_tree : Repository (Map String Bytes) Slot (List ChunkId)
after_tree = record empty { storage = (tree_path unary_hex tree_id, append nonce (1 ∷ [])) ∷ [] }

abbrev after_snapshot : Repository (Map String Bytes) Slot (List ChunkId)
after_snapshot = record empty {
  storage =
      (tree_path unary_hex tree_id, append nonce (1 ∷ []))
      ∷ (snapshot_path "s", append nonce (1 ∷ []))
      ∷ [];
}

tree_saved : save_tree crates trees nonce tree empty ≡ (ok tree_id, after_tree)
unfolding save_tree serialize_tree encrypt encryptor_of write_object from_data
tree_saved = rw (sample_bytes_self tree (tree_discrete tree tree)) refl

snapshot_saved : save_snapshot crates snapshots nonce snapshot after_tree ≡ (ok tt, after_snapshot)
unfolding print save_snapshot serialize_snapshot encrypt encryptor_of write_object to_hex
snapshot_saved = rw (sample_bytes_self snapshot (snapshot_discrete snapshot snapshot)) refl

load-save_snapshot_example :
    (load_snapshot crates snapshots "s" after_snapshot ≡ (ok snapshot, after_snapshot))
    × (copy : Tree) × (load_tree crates trees tree_id after_snapshot ≡ (ok copy, after_snapshot))
    × SameTree copy tree
load-save_snapshot_example =
    load-save_snapshot crates snapshots trees nonce nonce tree snapshot empty after_tree
      after_snapshot refl refl tree_saved snapshot_saved

-- A repository with two packs, of which the snapshot uses one.
abbrev pub start : Repository (Map String Bytes) Slot (List ChunkId)
start = record empty {
  index = located;
  storage =
      (tree_path unary_hex tree_id, append nonce (1 ∷ []))
      ∷ (snapshot_path "s", append nonce (1 ∷ []))
      ∷ (pack_path "p", saved_bytes)
      ∷ (pack_path "q", 1 ∷ [])
      ∷ [];
}

abbrev pruned : Repository (Map String Bytes) Slot (List ChunkId)
pruned = record empty {
  index = record left { dirty = false };
  storage =
      (tree_path unary_hex tree_id, append nonce (1 ∷ []))
      ∷ (snapshot_path "s", append nonce (1 ∷ []))
      ∷ (pack_path "p", saved_bytes)
      ∷ ("index/main.idx", append nonce (1 ∷ []))
      ∷ [];
}

start-IsCoherent : IsCoherent crates start
start-IsCoherent = record { cached = λ id p h. cc }

snapshot_read : (load_snapshot crates snapshots "s" start).0 ≡ ok snapshot
unfolding load_snapshot deserialize_snapshot decrypt sample_value encryptor_of to_hex pack_path
    print
snapshot_read = refl

tree_read : (load_tree crates trees tree_id start).0 ≡ ok tree
unfolding load_tree deserialize_tree decrypt sample_value encryptor_of to_hex pack_path print
tree_read = refl

names_listed : (list_snapshots crates (λ ids. ids) start).0 ≡ ok ("s" ∷ [])
unfolding list_snapshots
names_listed = refl

finished : finish_prune crates nonce ("q" ∷ [], 1) start ≡ (ok (1, 1), pruned)
unfolding finish_prune delete_pack save_index write_index invalidate delete_object unindex_pack
    write_object encryptor_of to_encrypted_bytes encrypt pack_path print to_hex Index.remove_pack
    Index.is_dirty Index.mark_clean
finished = rw (sample_bytes_self sample (index_data_discrete sample sample)) refl

ran : run_prune crates snapshots trees (λ ids. ids) nonce start ≡ (ok (1, 1), pruned)
unfolding run_prune list_snapshots collect_referenced reference_chunks load_snapshot load_tree
    deserialize_snapshot deserialize_tree decrypt sample_value to_hex pack_path print encryptor_of
    list_packs find_prunable object_size set_insert
ran = finished

pub located_a :
    Index.get_chunk id_a located ≡ some (record { pack_id = "p"; offset = 3; length = 1 })
unfolding Index.get_chunk
located_a = refl

load_chunk-run_prune_example : (load_chunk crates id_a pruned).0 ≡ (load_chunk crates id_a start).0
load_chunk-run_prune_example =
    load_chunk-run_prune crates snapshots trees (λ ids. ids) nonce ("s" ∷ []) "s" snapshot tree id_a
      (record { pack_id = "p"; offset = 3; length = 1 }) (1, 1) start pruned start-IsCoherent
      names_listed refl snapshot_read tree_read refl located_a ran

-- The chunk of the deleted pack is still in the index.
get_chunk-finish_prune_example : Index.get_chunk id_b pruned.index ≡ Index.get_chunk id_b located
get_chunk-finish_prune_example =
    get_chunk-finish_prune crates id_b nonce ("q" ∷ [], 1) (1, 1) start pruned start-IsCoherent
      finished
