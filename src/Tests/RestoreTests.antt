-- ===== src/Tests/RestoreTests.antt =====
-- A file of one byte that the repository has already, backed up and read back.
use ghostsnap.Prelude.{
  String, ◌≡◌, refl, true, none, some, List, [], ◌∷◌, Map, SameMap-refl, IsMap, SameMap, length,
  replicate, arith, list_eq, string_eq,
}
use ghostsnap.Errors.{ok}
use ghostsnap.Foreign.{Bytes}
use ghostsnap.Types.{ChunkId, ChunkRef}
use ghostsnap.Index
use ghostsnap.Index.{Index, new, add_chunk, has_chunk}
use ghostsnap.Pack
use ghostsnap.Pack.{PackedChunk}
use ghostsnap.Pack.Encoding.{from_encrypted_bytes, check_pack}
use ghostsnap.Pack.Frames.{read_frame, read_exact, from_le_bytes}
use ghostsnap.Crypto.{decrypt}
use ghostsnap.Pack.Manager as Manager
use ghostsnap.Pack.Manager.{PackManager}
use ghostsnap.Storage.{pack_path}
use ghostsnap.Repository.{Crates, Repository, encryptor_of}
use ghostsnap.Repository.Coherence.{IsCoherent}
use ghostsnap.Chunker
use ghostsnap.Chunker.{Chunk, Chunker, FastCdc, chunk_data, new_default}
use ghostsnap.Backup.{process_file}
use ghostsnap.Restore.RoundTrip.{Holds}
use ghostsnap.Tests.Stores.{map_storage, Slot, slot_cache}
use ghostsnap.Tests.Crates.{
  plain_cipher, length_hasher, unary_hex, exact_bloom, sample_codec, sample_value, print,
}
use ghostsnap.Tests.Packs.{plain_zlib, header_codec, table_discrete, key, nonces, saved_bytes}

instance abbrev pub bloom : Index.Bloom (List ChunkId)
bloom = exact_bloom

abbrev pub whole_file : FastCdc
whole_file = record {
  accepts = λ low avg high. true;
  cut = λ bytes low avg high. (0, length bytes) ∷ [];
  covers = λ bytes low avg high e. (refl, (omega arith), (omega arith));
}

abbrev pub content : Bytes
content = 12 ∷ []

abbrev chunk_id : ChunkId
chunk_id = replicate 32 1

abbrev table : Map ChunkId PackedChunk
table = (chunk_id, record { id = chunk_id; offset = 3; length = 1; uncompressed_length = 1 }) ∷ []

abbrev pub crates : Crates (Map String Bytes) Slot
crates = record {
  cipher = plain_cipher;
  hasher = length_hasher;
  hex = unary_hex;
  zlib = plain_zlib;
  headers = header_codec;
  tables = sample_codec IsMap SameMap table_discrete table (refl, tt) (SameMap-refl table);
  indexes = record {
    to_bytes = λ i. none;
    from_bytes = λ b. none;
    well = λ b i h. cc;
    read_back = λ i b h. cc;
  };
  store = map_storage;
  lru = slot_cache;
}

abbrev location : Index.ChunkLocation
location = record { pack_id = "p"; offset = 3; length = 1 }

abbrev pub holding : Repository (Map String Bytes) Slot (List ChunkId)
holding = record {
  storage = (pack_path "p", saved_bytes) ∷ [];
  encryptor = some key;
  index = add_chunk chunk_id location new;
  pack_cache = none;
  pack_cache_size = 0;
  max_cache_size = 100;
}

pub holding-IsCoherent : IsCoherent crates holding
holding-IsCoherent = record { cached = λ id p h. cc }

abbrev pub the_chunk : Chunk
the_chunk = record { offset = 0; length = 1; bytes = content }

pub cut : chunk_data whole_file new_default content ≡ ok (the_chunk ∷ [])
unfolding chunk_data Chunker.cut_out Pack.slice new_default
cut = refl

pub holding-Holds : Holds crates holding the_chunk
unfolding Chunker.id add_chunk new Index.get_chunk encryptor_of pack_path from_encrypted_bytes
    read_frame read_exact from_le_bytes decrypt sample_value check_pack Pack.verify_checksum
    Pack.compute_checksum print Pack.get_chunk Pack.read_entry Pack.slice
holding-Holds = record { location = location; found = refl; content = refl }

abbrev pub ref : ChunkRef
ref = record { id = chunk_id; offset = 0; length = 1 }

pub processed :
    process_file crates
      (λ id. nonces)
      (λ n. ("q", 0))
      whole_file
      new_default
      content
      (holding, Manager.new 100)
    ≡ (ok (ref ∷ [], 0, 1), (holding, Manager.new 100))
unfolding process_file Pack.slice has_chunk add_chunk Chunker.id new
processed = refl
