-- ===== src/Tests/PackTests.antt =====
-- The theorems on packs at concrete inputs.
use ghostsnap.Prelude.{
  ℕ, ◌≡◌, refl, Option, none, some, List, [], ◌∷◌, SameMap, list_eq, string_eq, arith,
}
use ghostsnap.Errors.{Error, ok, ok_or}
use ghostsnap.Foreign.{Bytes}
use ghostsnap.Types.{ChunkId, PackId}
use ghostsnap.Pack
use ghostsnap.Pack.{PackFile, PackHeader, PackedChunk, get_chunk, compute_checksum, verify_checksum}
use ghostsnap.Pack.Contents.{put_all, get_chunk-add_all, Holds, add_all-Holds, new-Holds}
use ghostsnap.Pack.Encoding.{from_encrypted_bytes, from_encrypted_bytes-to_encrypted_bytes}
use ghostsnap.Pack.Manager
use ghostsnap.Pack.Manager.{PackManager, add_chunks}
use ghostsnap.Pack.Manager.Partition.{Partition, add_chunks-Partition}
use ghostsnap.Pack.Repacker.{copy_entry, copy_chunks, extract_chunks}
use ghostsnap.Pack.Repacker.Extract.{Extracted, extract_chunks-Extracted}
use ghostsnap.Tests.Crates.{unary_hex, length_hasher, plain_cipher}
use ghostsnap.Tests.Packs.{
  plain_zlib, id_a, items, filled, sealed_header, header_codec, table_codec, key, nonces,
  saved_bytes, saved, filled-made,
}

get_chunk-add_all_example :
    get_chunk plain_zlib id_a filled
    ≡ ok_or (put_all items (λ j. none) id_a) (Error.other "Chunk not found in pack")
get_chunk-add_all_example =
    get_chunk-add_all plain_zlib items "p" 7 filled filled-made (omega arith) id_a

abbrev stamp : ℕ → PackId × ℕ
stamp n = ("p", n)

-- With a maximum of 3 bytes the third chunk begins a second pack.
add_chunks-Partition_example :
    (packs : List PackFile) × (last : PackManager) × (add_chunks plain_zlib stamp items
        (Manager.new 3)
      ≡ ok (packs, last))
    × Partition plain_zlib stamp items packs last 3
add_chunks-Partition_example = add_chunks-Partition plain_zlib stamp (λ d. (d, refl)) items 3

abbrev held : ChunkId → Option Bytes
held = put_all items (λ j. none)

filled-Holds : Holds plain_zlib held filled
filled-Holds =
    add_all-Holds plain_zlib items (λ j. none) (Pack.new "p" 7) filled filled-made (omega arith)
      (new-Holds plain_zlib "p" 7)

abbrev extracted : PackFile
extracted = record {
  header = record {
    version = 2;
    pack_id = "q";
    chunk_count = 1;
    uncompressed_size = 1;
    compressed_size = 1;
    created_at = 8;
    data_checksum = none;
  };
  chunks = (id_a, record { id = id_a; offset = 0; length = 1; uncompressed_length = 1 }) ∷ [];
  data_section = 12 ∷ [];
}

extracted-made : extract_chunks plain_zlib "q" 8 filled (id_a ∷ []) ≡ ok (some extracted)
unfolding extract_chunks copy_chunks copy_entry Pack.new Pack.add_chunk Pack.append_chunk
    Pack.compress_data Pack.decompress_data Pack.slice
extracted-made = refl

extract_chunks-Extracted_example : Extracted plain_zlib (id_a ∷ []) held (some extracted)
extract_chunks-Extracted_example =
    extract_chunks-Extracted plain_zlib held filled filled-Holds (omega arith) "q" 8 (id_a ∷ [])
      (some extracted) extracted-made

from_encrypted_bytes-to_encrypted_bytes_example :
    (q : PackFile) × (from_encrypted_bytes plain_cipher length_hasher unary_hex header_codec
        table_codec key saved_bytes
      ≡ ok q)
    × (q.header ≡ sealed_header)
    × SameMap q.chunks filled.chunks
    × (q.data_section ≡ filled.data_section)
    × ((k : ChunkId) → get_chunk plain_zlib k q ≡ get_chunk plain_zlib k filled)
from_encrypted_bytes-to_encrypted_bytes_example =
    from_encrypted_bytes-to_encrypted_bytes plain_cipher length_hasher unary_hex header_codec
      table_codec plain_zlib key nonces filled saved_bytes
      (record { header = refl; chunks = refl; content = refl }) saved (omega arith)

abbrev loaded : PackFile
loaded = from_encrypted_bytes-to_encrypted_bytes_example.0
