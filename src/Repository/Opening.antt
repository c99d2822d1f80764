-- ===== src/Repository/Opening.antt =====
-- core/src/repository.rs: `init_at_location` and `open_at_location`, over the world `W` of all stores, and the
-- keys of core/src/crypto.rs. Salts, keys, nonces and ids that are drawn at random are arguments.
pub mod Config
pub mod Legacy
pub mod RoundTrip
use Prim.Native.String.{◌++◌, len}
use ghostsnap.Prelude.{
  ℕ, ◌*◌, ◌≡◌, String, Bool, true, false, not, Option, none, some, List, [], ◌∷◌, nat_beq,
  if◌then◌else◌,
}
use ghostsnap.Errors.{Error, Result, ok, err, panic, ok_or, ◌>>=◌ as bind}
use ghostsnap.Action.{Action, ◌>>=◌, pure, ask, lift}
use ghostsnap.Foreign.{Bytes, Cipher, Hex, Utf8, JsonText, Argon2}
use ghostsnap.Crypto.{Encryptor, new_encryptor, encrypt, decrypt}
use ghostsnap.Index.{Index, Bloom, new}
use ghostsnap.Index.Encoding.{IndexCodec, from_encrypted_bytes}
use ghostsnap.Location.{
  S3Location, AzureLocation, RcloneLocation, SftpLocation, RepositoryLocation, local, s3, azure,
  rclone, sftp, RepoTransport, or_option, or_text, transport_from_location, resolve_location,
}
use ghostsnap.Location.Uri.{display}
use ghostsnap.Storage.{RepositoryStorage}
use ghostsnap.Repository.{Repository}
use ghostsnap.Repository.Opening.Legacy.{LegacyFiles, LegacyCodec, has_legacy, migrate_index}
use ghostsnap.Repository.Opening.Config.{
  RepoConfig, KdfParams, KeyFile, Connectors, default_params, default_config, unwrap,
  derive_from_password, storage_for_location, s3_with_env, azure_with_env, sftp_with_env, or_var,
}

-- `Repository::local_path`
abbrev pub local_path : RepositoryLocation → Option String
local_path (local path) = some path
local_path (s3 l) = none
local_path (azure l) = none
local_path (rclone l) = none
local_path (sftp l) = none

-- A repository that was opened, but for its storage and its cache, which is empty.
pub record Opened (F : Type 0) : Type 0 where
  pub location : RepositoryLocation
  pub display_path : String
  pub config : RepoConfig
  pub master_key : Option Bytes
  pub encryptor : Option Encryptor
  pub index : Index F

-- With `DEFAULT_PACK_CACHE_SIZE`; `cache` is a new one of `DEFAULT_PACK_CACHE_COUNT` packs.
pub as_repository : {W C F : Type 0} → C → W → Opened F → Repository W C F
as_repository cache world o = record {
  storage = world;
  encryptor = o.encryptor;
  index = o.index;
  pack_cache = cache;
  pack_cache_size = 0;
  max_cache_size = 128 * 1024 * 1024;
}

-- What is drawn at random for a new repository.
pub record Draws : Type 0 where
  pub id : String
  pub salt : Bytes
  pub data_key : Bytes
  pub nonce : Bytes
  pub key_id : String

-- The crates and the files that are used here.
pub record Setup (W P : Type 0) : Type 0 where
  pub var : String → Option String
  pub connect : Connectors W
  pub cipher : Cipher
  pub argon2 : Argon2 P
  pub utf8 : Utf8
  pub hex : Hex
  pub configs : JsonText RepoConfig
  pub keys : JsonText KeyFile
  pub indexes : IndexCodec
  pub files : LegacyFiles W
  pub locations : LegacyCodec

abbrev pub key_path : String → String
key_path name = "keys/" ++ name

module _ {W : Type 0} (store : RepositoryStorage W) where
  abbrev pub store_init : Action W Unit
  store_init w = store.init w

  abbrev pub store_write : String → Bytes → Action W Unit
  store_write path bytes w = store.write path bytes w

  abbrev pub store_read : String → Action W Bytes
  store_read path = ask (store.read path)

module _ {W P : Type 0} (setup : Setup W P) where
  -- The loop over the key files: the first one that is read as one. Text that is no UTF-8 ends it.
  unfoldable pub find_key : RepositoryStorage W → List String → Action W (Option KeyFile)
  find_key store [] = pure none
  find_key store (name ∷ names) = do
    bytes ← store_read store (key_path name)
    text ← lift (ok_or (setup.utf8.decode bytes) (Error.other "Invalid key file encoding"))
    (elim (setup.keys.from_str text) [ some key ↦ pure (some key) | none ↦ find_key store names ])

-- The name of the error is the caller's.
abbrev pub or_invalid_password : Result Bytes → Result Bytes
or_invalid_password panic = panic
or_invalid_password (err failure) = err Error.invalid_password
or_invalid_password (ok data_key) = ok data_key

module _ {W P F : Type 0} ⦃b : Bloom F⦄ (setup : Setup W P) where
  unfoldable pub write_new :
      RepositoryStorage W → RepositoryLocation → String → Draws → Action W (Opened F)
  unfolding transport_from_location derive_from_password new_encryptor encrypt new display
  write_new store location password draws = do
    started ← store_init store
    let config = record (default_config draws.salt draws.id) {
      transport = some (transport_from_location location);
    }
    master_key ← lift (derive_from_password setup.argon2 password config.kdf_params)
    encryptor ← lift (new_encryptor draws.data_key)
    key_encryptor ← lift (new_encryptor master_key)
    encrypted_data_key ← lift (encrypt setup.cipher key_encryptor draws.nonce draws.data_key)
    let key_file : KeyFile = record {
      encrypted_key = encrypted_data_key;
      kdf_params = config.kdf_params;
    }
    config_json ←
        lift
          (ok_or (setup.configs.to_string_pretty config) (Error.serialization "serde_json::Error"))
    written ← store_write store "config" (setup.utf8.encode config_json)
    key_json ←
        lift
          (ok_or (setup.keys.to_string_pretty key_file) (Error.serialization "serde_json::Error"))
    written' ← store_write store (key_path draws.key_id) (setup.utf8.encode key_json)
    pure (record {
      location = location;
      display_path = display location;
      config = config;
      master_key = some master_key;
      encryptor = some encryptor;
      index = new;
    })

  unfoldable pub init_at_location : RepositoryLocation → String → Draws → Action W (Opened F)
  unfolding storage_for_location write_new display
  init_at_location location password draws = do
    store ← lift (storage_for_location setup.var setup.connect location)
    present ← ask (store.exists_at "config")
    if present
        then lift (err (Error.repository_exists (display location)))
        else (write_new store location password draws)

  unfoldable pub new_or_migrated :
      RepositoryStorage W → String → Encryptor → Bytes → Bool → Action W (Index F)
  unfolding migrate_index new
  new_or_migrated store dir encryptor nonce true =
      migrate_index setup.cipher setup.hex setup.indexes setup.files setup.locations store dir
        encryptor nonce
  new_or_migrated store dir encryptor nonce false = pure new

  -- The index file, if it is there; otherwise what is in a local directory.
  unfoldable pub read_index :
      RepositoryStorage W → Option String → Encryptor → Bytes → Bool → Action W (Index F)
  unfolding has_legacy new_or_migrated new
  read_index store path encryptor nonce true = do
    bytes ← store_read store "index/main.idx"
    lift (from_encrypted_bytes setup.cipher setup.indexes encryptor bytes)
  read_index store none encryptor nonce false = pure new
  read_index store (some dir) encryptor nonce false = do
    legacy ← has_legacy setup.files dir
    new_or_migrated store dir encryptor nonce legacy

  unfoldable pub load_or_migrate_index :
      RepositoryStorage W → Option String → Encryptor → Bytes → Action W (Index F)
  unfolding read_index
  load_or_migrate_index store path encryptor nonce = do
    present ← ask (store.exists_at "index/main.idx")
    read_index store path encryptor nonce present

  -- From the configuration on. `nonce` is for the index of a migration.
  unfoldable pub open_with : RepositoryLocation → RepoConfig → String → Bytes → Action W (Opened F)
  unfolding resolve_location storage_for_location find_key derive_from_password new_encryptor
      decrypt load_or_migrate_index display
  open_with location config password nonce = do
    let resolved_location = resolve_location location config.transport
    store ← lift (storage_for_location setup.var setup.connect resolved_location)
    key_names ← ask (store.list "keys")
    found ← find_key setup store key_names
    key_file ← lift (ok_or found Error.invalid_password)
    master_key ← lift (derive_from_password setup.argon2 password key_file.kdf_params)
    key_encryptor ← lift (new_encryptor master_key)
    data_key ←
        lift (or_invalid_password (decrypt setup.cipher key_encryptor key_file.encrypted_key))
    encryptor ← lift (new_encryptor data_key)
    index ← load_or_migrate_index store (local_path resolved_location) encryptor nonce
    pure (record {
      location = resolved_location;
      display_path = display resolved_location;
      config = config;
      master_key = some master_key;
      encryptor = some encryptor;
      index = index;
    })

  unfoldable pub open_at_location : RepositoryLocation → String → Bytes → Action W (Opened F)
  unfolding storage_for_location open_with display
  open_at_location location password nonce = do
    bootstrap ← lift (storage_for_location setup.var setup.connect location)
    present ← ask (bootstrap.exists_at "config")
    if not present then lift (err (Error.repository_not_found (display location))) else (do
      bytes ← store_read bootstrap "config"
      text ←
          lift (ok_or (setup.utf8.decode bytes) (Error.other "Invalid repository config encoding"))
      config ← lift (ok_or (setup.configs.from_str text) (Error.serialization "serde_json::Error"))
      if nat_beq config.version 1
          then (open_with location config password nonce)
          else lift (err (Error.invalid_format_version config.version)))
