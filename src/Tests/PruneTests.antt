-- ===== src/Tests/PruneTests.antt =====
-- The prune command at the repository of ObjectsTests.
use ghostsnap.Prelude.{
  String, ◌≡◌, refl, true, false, set_insert, list_eq, ◌++◌ as append, string_eq, none, List, [],
  ◌∷◌, Map, SameMap-refl,
}
use ghostsnap.Errors.{ok}
use ghostsnap.Foreign.{Bytes}
use ghostsnap.Types.{ChunkId, to_hex}
use ghostsnap.Crypto.{encrypt, decrypt}
use ghostsnap.Index
use ghostsnap.Index.{Index}
use ghostsnap.Index.Encoding.{IndexData, IndexCodec, IsWell, IsSame, index_data, to_encrypted_bytes}
use ghostsnap.Snapshot.Encoding.{deserialize_tree, deserialize_snapshot}
use ghostsnap.Storage.{pack_path}
use ghostsnap.Repository.{
  Crates, Repository, encryptor_of, write_object, load_chunk, delete_pack, save_index, write_index,
  invalidate, delete_object, unindex_pack,
}
use ghostsnap.Repository.Objects.{tree_path, snapshot_path, load_tree, load_snapshot}
use ghostsnap.Repository.Garbage.{collect_used_chunks}
use ghostsnap.Repository.Coherence.{IsCoherent}
use ghostsnap.Prune.{
  run, scan_snapshots, prune_unreferenced, orphaned_among, count_chunks, count_chunk,
  packs_to_delete, prune_orphaned, remove_all,
}
use ghostsnap.Prune.Safety.{load_chunk-run}
use ghostsnap.Tests.Stores.{Slot}
use ghostsnap.Tests.Crates.{
  unary_hex, index_data_discrete, sample_codec, sample_bytes_self, sample_value, print,
}
use ghostsnap.Tests.Packs.{id_a, id_b, saved_bytes}
use ghostsnap.Tests.ObjectsTests as Objects
use ghostsnap.Tests.ObjectsTests.{
  bloom, nonce, tree_id, snapshots, trees, located, start, empty, located_a,
}

-- The orphan is gone from the map, not from the filter.
abbrev left : Index (List ChunkId)
left = record located {
  chunks = (id_a, record { pack_id = "p"; offset = 3; length = 1 }) ∷ [];
  packs = [];
  dirty = true;
}

abbrev sample : IndexData
sample = index_data left

sample-IsWell : IsWell sample
sample-IsWell = record { chunks = (refl, tt); packs = tt }

sample-IsSame : IsSame sample sample
sample-IsSame = record {
  header = refl;
  chunks = SameMap-refl sample.chunks;
  packs = SameMap-refl sample.packs;
}

abbrev codec : IndexCodec
codec = sample_codec IsWell IsSame index_data_discrete sample sample-IsWell sample-IsSame

abbrev crates : Crates (Map String Bytes) Slot
crates = record Objects.crates { indexes = codec }

abbrev pruned : Repository (Map String Bytes) Slot (List ChunkId)
pruned = record empty {
  index = record left { dirty = false };
  storage =
      (tree_path unary_hex tree_id, append nonce (1 ∷ []))
      ∷ (snapshot_path "s", append nonce (1 ∷ []))
      ∷ (pack_path "p", saved_bytes)
      ∷ ("index/main.idx", append nonce (1 ∷ []))
      ∷ [];
}

start-IsCoherent : IsCoherent crates start
start-IsCoherent = record { cached = λ id p h. cc }

used : (collect_used_chunks crates snapshots trees (λ ids. ids) start).0 ≡ ok (id_a ∷ [])
unfolding collect_used_chunks load_snapshot load_tree deserialize_snapshot deserialize_tree decrypt
    sample_value to_hex pack_path print encryptor_of set_insert
used = refl

-- The storage and the index without the key, so that nothing can be read.
abbrev locked : Repository (Map String Bytes) Slot (List ChunkId)
locked = record start { encryptor = none }

-- Where no snapshot can be read, no chunk is referenced, and no error is told of.
unreadable : scan_snapshots crates snapshots trees ("s" ∷ []) [] locked ≡ (ok [], locked)
unfolding scan_snapshots load_snapshot encryptor_of
unreadable = refl

orphaned : orphaned_among (id_a ∷ []) located.chunks ≡ id_b ∷ []
unfolding orphaned_among
orphaned = refl

doomed : packs_to_delete (count_chunks (id_b ∷ []) located.chunks []) ≡ "q" ∷ []
unfolding packs_to_delete count_chunks count_chunk
doomed = refl

finished : prune_orphaned crates nonce ("q" ∷ []) (id_b ∷ []) start ≡ (ok tt, pruned)
unfolding prune_orphaned remove_all delete_pack save_index write_index invalidate delete_object
    unindex_pack write_object encryptor_of to_encrypted_bytes encrypt pack_path print to_hex
    Index.remove_pack Index.remove_chunk Index.is_dirty Index.mark_clean
finished = rw (sample_bytes_self sample (index_data_discrete sample sample)) refl

ran : run crates snapshots trees (λ ids. ids) false nonce start ≡ (ok tt, pruned)
unfolding run scan_snapshots prune_unreferenced orphaned_among packs_to_delete count_chunks
    count_chunk load_snapshot load_tree deserialize_snapshot deserialize_tree decrypt sample_value
    to_hex pack_path print encryptor_of set_insert
ran = finished

load_chunk-run_example : (load_chunk crates id_a pruned).0 ≡ (load_chunk crates id_a start).0
load_chunk-run_example =
    load_chunk-run crates snapshots trees (λ ids. ids) false nonce id_a
      (record { pack_id = "p"; offset = 3; length = 1 }) (id_a ∷ []) start pruned start-IsCoherent
      used refl located_a ran
