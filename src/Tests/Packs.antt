-- ===== src/Tests/Packs.antt =====
-- A pack with three chunks, its codecs, and the file it is saved to.
use native.Mathlib.Decide.{ℕ_discrete}
use ghostsnap.Prelude.{
  ◌≡◌, refl, none, some, List, [], ◌∷◌, ◌++◌, IsMap, Map, SameMap, SameMap-refl, list_eq, string_eq,
}
use ghostsnap.Errors.{ok}
use ghostsnap.Foreign.{Bytes, Zlib}
use ghostsnap.Crypto.{Encryptor, encrypt}
use ghostsnap.Types.{ChunkId}
use ghostsnap.Pack
use ghostsnap.Pack.{PackFile, PackHeader, PackedChunk, get_chunk, compute_checksum, verify_checksum}
use ghostsnap.Pack.Contents.{add_all}
use ghostsnap.Pack.Frames.{to_le_bytes, write_frame}
use ghostsnap.Pack.Encoding.{HeaderCodec, ChunksCodec, Nonces, to_encrypted_bytes}
use ghostsnap.Tests.Crates.{
  unary_hex, length_hasher, plain_cipher, string_discrete, sample_codec, sample_bytes_self,
}

-- A compressor that changes nothing.
abbrev pub plain_zlib : Zlib
plain_zlib = record {
  compress = λ b. some b;
  decompress = λ c. some c;
  decompress-compress = λ b c h. cc;
}

abbrev pub id_a : ChunkId
id_a = 1 ∷ []

abbrev pub id_b : ChunkId
id_b = 2 ∷ []

abbrev pub items : List (ChunkId × Bytes)
items = (id_a, 10 ∷ 11 ∷ []) ∷ (id_b, 20 ∷ []) ∷ (id_a, 12 ∷ []) ∷ []

abbrev pub filled : PackFile
filled = record {
  header = record {
    version = 2;
    pack_id = "p";
    chunk_count = 3;
    uncompressed_size = 4;
    compressed_size = 4;
    created_at = 7;
    data_checksum = none;
  };
  chunks =
      (id_a, record { id = id_a; offset = 3; length = 1; uncompressed_length = 1 })
      ∷ (id_b, record { id = id_b; offset = 2; length = 1; uncompressed_length = 1 })
      ∷ [];
  data_section = 10 ∷ 11 ∷ 20 ∷ 12 ∷ [];
}

pub filled-made : add_all plain_zlib items (Pack.new "p" 7) ≡ ok filled
unfolding Pack.new Pack.add_chunk Pack.append_chunk Pack.compress_data
filled-made = refl

unfoldable pub header_discrete : Discrete PackHeader
unfolding string_discrete
header_discrete = hlevel (ℕ_discrete, string_discrete)

unfoldable pub table_discrete : Discrete (Map ChunkId PackedChunk)
table_discrete = hlevel ℕ_discrete

abbrev pub sealed_header : PackHeader
sealed_header = (compute_checksum length_hasher unary_hex filled).header

pub filled-IsMap : IsMap filled.chunks
filled-IsMap = (refl, (refl, tt))

abbrev pub header_codec : HeaderCodec
header_codec = sample_codec (λ h. Unit) (λ h g. h ≡ g) header_discrete sealed_header tt refl

abbrev pub table_codec : ChunksCodec
table_codec =
    sample_codec IsMap SameMap table_discrete filled.chunks filled-IsMap
      (SameMap-refl filled.chunks)

abbrev pub key : Encryptor
key = record { key = [] }

abbrev pub nonce : Bytes
nonce = 0 ∷ 1 ∷ 2 ∷ 3 ∷ 4 ∷ 5 ∷ 6 ∷ 7 ∷ 8 ∷ 9 ∷ 10 ∷ 11 ∷ []

abbrev pub nonces : Nonces
nonces = record { header = nonce; chunks = nonce; content = nonce }

abbrev pub saved_bytes : Bytes
saved_bytes =
    (13 ∷ 0 ∷ 0 ∷ 0 ∷ [])
    ++ (nonce ++ 1 ∷ [])
    ++ (13 ∷ 0 ∷ 0 ∷ 0 ∷ [])
    ++ (nonce ++ 1 ∷ [])
    ++ nonce
    ++ filled.data_section

pub saved :
    to_encrypted_bytes plain_cipher length_hasher unary_hex header_codec table_codec key nonces
      filled
    ≡ ok saved_bytes
unfolding to_encrypted_bytes encrypt compute_checksum write_frame to_le_bytes
saved =
    rw
      (
        sample_bytes_self sealed_header (header_discrete sealed_header sealed_header),
        sample_bytes_self filled.chunks (table_discrete filled.chunks filled.chunks),
      )
      refl
