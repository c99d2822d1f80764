-- ===== src/Repository/Opening/Legacy.antt =====
-- The index of an old repository, one file for each chunk: `load_from_legacy_dir` of core/src/index.rs, and the
-- migration in core/src/repository.rs.
use Prim.Native.String.{len}
use ghostsnap.Prelude.{
  String, Bool, ◌&&◌, not, Option, none, some, List, [], ◌∷◌, nat_beq, any, ends_with, has_code,
  if◌then◌else◌,
}
use ghostsnap.Errors.{Error, Result, ok, err, panic}
use ghostsnap.Action.{Action, ◌>>=◌, pure, ask, lift, modify, attempt}
use ghostsnap.Foreign.{Bytes, Cipher, Hex}
use ghostsnap.Crypto.{Encryptor}
use ghostsnap.Types.{ChunkId, from_str}
use ghostsnap.Index
use ghostsnap.Index.{Index, Bloom, ChunkLocation, new}
use ghostsnap.Index.Encoding.{IndexCodec, to_encrypted_bytes}
use ghostsnap.Storage.{RepositoryStorage}

-- A listing: the names up to an entry that could not be read, if there is one.
pub record Listing : Type 0 where
  pub names : List String
  pub broken : Option Error

-- The directory `index` below a path of the file system.
pub record LegacyFiles (W : Type 0) : Type 0 where
  pub read_dir : String → W → Result Listing
  pub read : String → String → W → Result Bytes
  -- `let _ = fs::remove_file(…)`
  pub remove_file : String → String → W → W

-- `serde_json::from_slice::<LegacyChunkLocation>`, whose fields are those of a location.
abbrev pub LegacyCodec : Type 0
LegacyCodec = Bytes → Option ChunkLocation

abbrev pub is_legacy_name : String → Bool
is_legacy_name name = nat_beq (len name) 64

abbrev pub id_of : Result ChunkId → Option ChunkId
id_of panic = none
id_of (err failure) = none
id_of (ok id) = some id

module _ {W : Type 0} (files : LegacyFiles W) where
  abbrev pub names_of : Option Listing → List String
  names_of none = []
  names_of (some listing) = listing.names

  unfoldable pub has_legacy : String → Action W Bool
  has_legacy dir = do
    listing ← attempt (ask (files.read_dir dir))
    pure (any is_legacy_name (names_of listing))

  -- The loop of `cleanup_legacy_index`.
  unfoldable pub remove_legacy : String → List String → W → W
  remove_legacy dir [] w = w
  remove_legacy dir (name ∷ names) w =
      remove_legacy dir names (
        if is_legacy_name name && not (has_code b'.' name) then files.remove_file dir name w else w)

  unfoldable pub cleanup_legacy_index : String → Action W Unit
  unfolding remove_legacy
  cleanup_legacy_index dir = do
    listing ← attempt (ask (files.read_dir dir))
    modify (remove_legacy dir (names_of listing))

abbrev pub location_of : LegacyCodec → Option Bytes → Option ChunkLocation
location_of locations none = none
location_of locations (some bytes) = locations bytes

abbrev pub unless_broken : {W : Type 0} → Option Error → Action W Unit
unless_broken none = pure tt
unless_broken (some failure) = lift (err failure)

module _ {W F : Type 0} ⦃b : Bloom F⦄ (hex : Hex) (files : LegacyFiles W)
    (locations : LegacyCodec) where
  abbrev pub add_location : ChunkId → Option ChunkLocation → Index F → Index F
  add_location id none index = index
  add_location id (some location) index = Index.add_chunk id location index

  -- One file: a chunk id that is read as one, with its content.
  unfoldable pub add_entry : String → String → Option ChunkId → Index F → Action W (Index F)
  add_entry dir name none index = pure index
  add_entry dir name (some id) index = do
    bytes ← attempt (ask (files.read dir name))
    pure (add_location id (location_of locations bytes) index)

  unfoldable pub add_entries : String → List String → Index F → Action W (Index F)
  unfolding add_entry from_str
  add_entries dir [] index = pure index
  add_entries dir (name ∷ names) index = do
    let id =
        if ends_with ".idx" name
        then none
        else if is_legacy_name name
        then id_of (from_str hex name)
        else none
    more ← add_entry dir name id index
    add_entries dir names more

  unfoldable pub load_from_legacy_dir : String → Action W (Index F)
  unfolding add_entries new
  load_from_legacy_dir dir = do
    listing ← ask (files.read_dir dir)
    index ← add_entries dir listing.names new
    done ← unless_broken listing.broken
    pure index

module _ {W F : Type 0} ⦃b : Bloom F⦄ (cipher : Cipher) (hex : Hex) (indexes : IndexCodec)
    (files : LegacyFiles W) (locations : LegacyCodec) where
  -- What `load_or_migrate_index` does with a legacy directory.
  unfoldable pub migrate_index :
      RepositoryStorage W → String → Encryptor → Bytes → Action W (Index F)
  unfolding load_from_legacy_dir cleanup_legacy_index
  migrate_index store dir encryptor nonce = do
    index ← load_from_legacy_dir hex files locations dir
    encrypted ← lift (to_encrypted_bytes cipher indexes encryptor nonce index)
    written ← (λ w. store.write "index/main.idx" encrypted w)
    cleaned ← cleanup_legacy_index files dir
    pure index
