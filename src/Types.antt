-- ===== src/Types.antt =====
-- core/src/types.rs: chunk identities and the metadata records that the components share.
-- A `blake3::Hash` is its 32 bytes; pack and snapshot ids are strings.
use ghostsnap.Prelude.{ℕ, ◌≡◌, String, arith, length, if◌then◌else◌, nat_beq}
use ghostsnap.Errors.{Error, Result, ok, err, ok_or, ◌>>=◌}
use ghostsnap.Foreign.{Bytes, Hasher, Hex}

abbrev pub ChunkId : Type 0
ChunkId = Bytes

abbrev pub PackId : Type 0
PackId = String

abbrev pub SnapshotId : Type 0
SnapshotId = String

pub record ChunkMetadata : Type 0 where
  pub id : ChunkId
  pub pack_id : PackId
  pub offset : ℕ
  pub length : ℕ
  pub uncompressed_length : ℕ

pub record ChunkRef : Type 0 where
  pub id : ChunkId
  pub offset : ℕ
  pub length : ℕ

-- `ChunkID::from_data`, and `hash_data` of core/src/crypto.rs.
unfoldable pub from_data : Hasher → Bytes → ChunkId
from_data hasher d = hasher.hash d

unfoldable pub to_hex : Hex → ChunkId → String
to_hex hex id = hex.encode id

-- `FromStr for ChunkID`.
unfoldable pub from_str : Hex → String → Result ChunkId
from_str hex s = do
  bytes ← ok_or (hex.decode s) (Error.other "hex::FromHexError")
  if nat_beq (length bytes) 32 then ok bytes else err (Error.other "Invalid string length")

-- The hexadecimal form of the id of any data parses back to that id.
pub from_str-to_hex :
    (hasher : Hasher) (hex : Hex) (d : Bytes)
    → from_str hex (to_hex hex (from_data hasher d)) ≡ ok (from_data hasher d)
unfolding from_str to_hex from_data
from_str-to_hex hasher hex d =
    ground (arith, hex.decode-encode (hasher.hash d), hasher.length-hash d)

-- Whatever text is parsed, an accepted id has 32 bytes.
pub length-from_str :
    (hex : Hex) (s : String) (id : ChunkId) → from_str hex s ≡ ok id → length id ≡ 32
unfolding from_str
length-from_str hex s id h = ground arith
