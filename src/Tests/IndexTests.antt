-- ===== src/Tests/IndexTests.antt =====
-- The theorems on ids, encryption and the index at concrete inputs.
use ghostsnap.Prelude.{
  ◌≡◌, ◌≤◌, refl, false, true, some, none, arith, List, [], ◌∷◌, ◌++◌, IsMap, lookup, list_eq,
  string_eq, is_some, SameMap-refl,
}
use ghostsnap.Errors.{ok}
use ghostsnap.Foreign.{Bytes}
use ghostsnap.Crypto.{Encryptor, encrypt, decrypt}
use ghostsnap.Types.{ChunkId, PackId}
use ghostsnap.Index.{
  ChunkLocation, PackInfo, Bloom, Index, index_version, new, add_chunk, get_chunk, has_chunk,
  get_pack, is_dirty, chunk_count, compact,
}
use ghostsnap.Index.Invariant.{IsValid, new-IsValid, add_chunk-IsValid}
use ghostsnap.Index.Refinement.{
  Op, add_chunk_op, add_pack_op, remove_chunk_op, compact_op, merge_op, run, abstract_run,
  empty_view, AllMergeValid, run-refines, run-IsValid,
}
use ghostsnap.Index.Sharded as Shards
use ghostsnap.Index.Sharded.{ShardedIndex, shard_index}
use ghostsnap.Index.Sharded.Refinement as Sharded
use ghostsnap.Index.Sharded.Refinement.{
  ShardedOp, add_chunk_in, remove_chunk_in, mark_clean_in, run_sharded-refines,
}
use ghostsnap.Index.Dirty.{SameContent, run-clean}
use ghostsnap.Index.Encoding.{
  IndexData, IndexCodec, IsWell, IsSame, index_data, to_encrypted_bytes, from_encrypted_bytes,
  load-save, from_encrypted_bytes_sound,
}
use ghostsnap.Tests.Crates.{
  plain_cipher, exact_bloom, index_data_discrete, sample_codec, sample_bytes_self,
}

instance abbrev id_list_bloom : Bloom (List ChunkId)
id_list_bloom = exact_bloom

abbrev first_id : ChunkId
first_id = 1 ∷ 7 ∷ []

abbrev second_id : ChunkId
second_id = 2 ∷ 9 ∷ []

abbrev location : ChunkLocation
location = record { pack_id = "p"; offset = 0; length = 10 }

abbrev pack : PackInfo
pack = record { id = "p"; size = 10; chunk_count = 1 }

abbrev one_chunk : Index (List ChunkId)
one_chunk = add_chunk first_id location new

one_chunk-IsValid : IsValid one_chunk
one_chunk-IsValid = add_chunk-IsValid new-IsValid first_id location

abbrev history : List (Op (List ChunkId))
history =
    add_chunk_op first_id location
    ∷ add_chunk_op second_id location
    ∷ add_pack_op pack
    ∷ merge_op one_chunk
    ∷ remove_chunk_op first_id
    ∷ compact_op (second_id ∷ [])
    ∷ []

history-AllMergeValid : AllMergeValid history
history-AllMergeValid = (tt, (tt, (tt, (one_chunk-IsValid, (tt, (tt, tt))))))

run-refines_example :
    (get_chunk second_id (run history new) ≡ (abstract_run history empty_view).chunk_at second_id)
    × (has_chunk second_id (run history new)
        ≡ is_some ((abstract_run history empty_view).chunk_at second_id))
    × (get_pack "p" (run history new) ≡ (abstract_run history empty_view).pack_at "p")
run-refines_example = run-refines history history-AllMergeValid second_id "p"

run-IsValid_example : IsValid (run history new)
run-IsValid_example = run-IsValid history history-AllMergeValid new new-IsValid

-- A compaction that removes nothing leaves the index clean.
run-clean_example :
    (is_dirty (new {F = List ChunkId}) ≡ false)
    × SameContent (run (compact_op [] ∷ []) new) (new {F = List ChunkId})
run-clean_example =
    run-clean (compact_op [] ∷ []) (new {F = List ChunkId}) (refl, tt)
      (unfold new compact is_dirty in refl)

abbrev key : Encryptor
key = record { key = [] }

abbrev nonce : Bytes
nonce = 0 ∷ 1 ∷ 2 ∷ 3 ∷ 4 ∷ 5 ∷ 6 ∷ 7 ∷ 8 ∷ 9 ∷ 10 ∷ 11 ∷ []

abbrev sample : IndexData
sample = index_data one_chunk

sample-IsWell : IsWell sample
unfolding new add_chunk
sample-IsWell = record { chunks = (refl, tt); packs = tt }

sample-IsSame : IsSame sample sample
sample-IsSame = record {
  header = refl;
  chunks = SameMap-refl sample.chunks;
  packs = SameMap-refl sample.packs;
}

abbrev codec : IndexCodec
codec = sample_codec IsWell IsSame index_data_discrete sample sample-IsWell sample-IsSame

saved : to_encrypted_bytes plain_cipher codec key nonce one_chunk ≡ ok (nonce ++ 1 ∷ [])
unfolding to_encrypted_bytes encrypt
saved = rw (sample_bytes_self sample (index_data_discrete sample sample))

load-save_example :
    (j : Index (List ChunkId)) × (from_encrypted_bytes plain_cipher codec key (nonce ++ 1 ∷ [])
      ≡ ok j)
    × IsValid j
    × ((k : ChunkId) → get_chunk k j ≡ get_chunk k one_chunk)
    × ((p : PackId) → get_pack p j ≡ get_pack p one_chunk)
    × (chunk_count j ≡ chunk_count one_chunk)
    × (is_dirty j ≡ false)
load-save_example =
    load-save plain_cipher codec key nonce (nonce ++ 1 ∷ []) one_chunk refl one_chunk-IsValid saved

abbrev loaded : Index (List ChunkId)
loaded = load-save_example.0

from_encrypted_bytes_sound_example :
    (serialized : Bytes) × (d : IndexData) × (decrypt plain_cipher key (nonce ++ 1 ∷ [])
      ≡ ok serialized)
    × (codec.from_bytes serialized ≡ some d)
    × (d.header.version ≤ index_version)
    × (loaded.chunks ≡ d.chunks)
    × (loaded.packs ≡ d.packs)
    × (is_dirty loaded ≡ false)
    × ((k : ChunkId) → get_chunk k loaded ≡ lookup k loaded.chunks)
    × IsMap loaded.chunks
    × IsMap loaded.packs
from_encrypted_bytes_sound_example =
    from_encrypted_bytes_sound plain_cipher codec key (nonce ++ 1 ∷ []) loaded load-save_example.1

abbrev sharded_history : List ShardedOp
sharded_history = add_chunk_in first_id location ∷ mark_clean_in ∷ remove_chunk_in second_id ∷ []

run_sharded-refines_example :
    (s : ShardedIndex (List ChunkId)) × (Sharded.run sharded_history Shards.new ≡ ok s)
    × (Shards.get_chunk first_id s ≡ ok (some location))
    × (Shards.has_chunk first_id s ≡ ok true)
    × (Shards.get_pack "p" s ≡ none)
unfolding shard_index
run_sharded-refines_example =
    run_sharded-refines sharded_history (omega arith, (tt, (omega arith, tt))) first_id "p"
      (omega arith)
