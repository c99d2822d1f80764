-- ===== src/Pack.antt =====
-- core/src/pack.rs, `PackFile`: a container of compressed chunks with its table of contents. zlib is
-- an interface. Counters wrap at their width, as in a release build; the clock is an argument.
pub mod Contents
pub mod Header
pub mod Frames
pub mod Encoding
pub mod Manager
pub mod Repacker
use ghostsnap.Prelude.{
  ℕ, ◌+◌, ◌-◌, ◌%◌, ◌^◌, String, Bool, true, Option, none, some, List, [], ◌∷◌, ◌++◌, ◌==◌,
  string_eq, list_eq, ltb, leb, ◌||◌, if◌then◌else◌, length, take, drop, Map, keys, lookup, insert,
}
use ghostsnap.Errors.{Error, Result, ok, err, panic, ok_or, ◌>>=◌}
use ghostsnap.Foreign.{Bytes, Zlib, Hasher, Hex}
use ghostsnap.Types.{ChunkId, PackId}

abbrev pub pack_version : ℕ
pack_version = 2

pub record PackHeader : Type 0 where
  pub version : ℕ
  pub pack_id : PackId
  pub chunk_count : ℕ
  pub uncompressed_size : ℕ
  pub compressed_size : ℕ
  pub created_at : ℕ
  pub data_checksum : Option String

pub record PackedChunk : Type 0 where
  pub id : ChunkId
  pub offset : ℕ
  pub length : ℕ
  pub uncompressed_length : ℕ

pub record PackFile : Type 0 where
  pub header : PackHeader
  pub chunks : Map ChunkId PackedChunk
  pub data_section : Bytes

unfoldable pub new : PackId → ℕ → PackFile
new pack_id now = record {
  header = record {
    version = pack_version;
    pack_id = pack_id;
    chunk_count = 0;
    uncompressed_size = 0;
    compressed_size = 0;
    created_at = now;
    data_checksum = none;
  };
  chunks = [];
  data_section = [];
}

-- `&data[start..end]`, which panics out of range.
unfoldable pub slice : ℕ → ℕ → Bytes → Result Bytes
slice start end bytes =
    if ltb end start || ltb (length bytes) end
    then panic
    else ok (take (end - start) (drop start bytes))

-- The entry of a chunk that is appended to a data section. Lengths are cast to 32 bits.
abbrev pub entry_of : ChunkId → Bytes → Bytes → Bytes → PackedChunk
entry_of id bytes compressed data_section = record {
  id = id;
  offset = length data_section;
  length = length compressed % 2 ^ 32;
  uncompressed_length = length bytes % 2 ^ 32;
}

module _ (zlib : Zlib) where
  unfoldable pub compress_data : Bytes → Result Bytes
  compress_data bytes = ok_or (zlib.compress bytes) (Error.other "zlib: compression failed")

  unfoldable pub decompress_data : Bytes → Result Bytes
  decompress_data bytes = ok_or (zlib.decompress bytes) (Error.other "zlib: corrupt stream")

  -- What `add_chunk` does with the compressed bytes.
  unfoldable pub append_chunk : ChunkId → Bytes → Bytes → PackFile → PackFile
  append_chunk id bytes compressed p = record p {
    header = record p.header {
      chunk_count = (p.header.chunk_count + 1) % 2 ^ 32;
      uncompressed_size = (p.header.uncompressed_size + length bytes) % 2 ^ 64;
      compressed_size = (p.header.compressed_size + length compressed) % 2 ^ 64;
      data_checksum = none;
    };
    chunks = insert id (entry_of id bytes compressed p.data_section) p.chunks;
    data_section = p.data_section ++ compressed;
  }

  unfoldable pub add_chunk : ChunkId → Bytes → PackFile → Result PackFile
  unfolding compress_data
  add_chunk id bytes p = do
    compressed ← compress_data bytes
    ok (append_chunk id bytes compressed p)

  -- The body of `get_chunk` once the entry is found. The end wraps at 64 bits.
  unfoldable pub read_entry : PackedChunk → Bytes → Result Bytes
  unfolding decompress_data
  read_entry chunk bytes =
      let end = (chunk.offset + chunk.length) % 2 ^ 64 in
      let compressed = slice chunk.offset end bytes in
      if ltb (length bytes) end
      then err (Error.other "Pack data corruption: chunk extends beyond pack data")
      else compressed >>= decompress_data

  unfoldable pub get_chunk : ChunkId → PackFile → Result Bytes
  get_chunk id p = do
    chunk ← ok_or (lookup id p.chunks) (Error.other "Chunk not found in pack")
    read_entry chunk p.data_section

unfoldable pub size : PackFile → ℕ
size p = length p.data_section

unfoldable pub is_full : ℕ → PackFile → Bool
is_full max_size p = leb max_size (length p.data_section)

unfoldable pub chunk_ids : PackFile → List ChunkId
chunk_ids p = keys p.chunks

module _ (hasher : Hasher) (hex : Hex) where
  unfoldable pub checksum_of : Bytes → String
  checksum_of bytes = hex.encode (hasher.hash bytes)

  unfoldable pub compute_checksum : PackFile → PackFile
  unfolding checksum_of
  compute_checksum p = record p {
    header = record p.header { data_checksum = some (checksum_of p.data_section) };
  }

  -- A pack with no checksum, of the old format, passes.
  unfoldable pub verify_checksum : PackFile → Bool
  unfolding checksum_of
  verify_checksum p = elim p.header.data_checksum [
    | some stored ↦ checksum_of p.data_section == stored
    | none ↦ true
  ]
