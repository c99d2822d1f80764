-- ===== src/Repository/Opening/Config.antt =====
-- The configuration of a repository (core/src/types.rs), the key of a password (core/src/crypto.rs), and how a
-- store is reached (core/src/storage.rs).
use ghostsnap.Prelude.{ℕ, String, Option, none, some}
use ghostsnap.Errors.{Error, Result, ok, panic, ok_or, ◌>>=◌ as bind}
use ghostsnap.Foreign.{Bytes, Argon2}
use ghostsnap.Location.{
  S3Location, AzureLocation, RcloneLocation, SftpLocation, RepositoryLocation, local, s3, azure,
  rclone, sftp, RepoTransport, or_option, or_text,
}
use ghostsnap.Storage.{RepositoryStorage}

-- core/src/types.rs
pub record KdfParams : Type 0 where
  pub algorithm : String
  pub iterations : ℕ
  pub memory : ℕ
  pub parallelism : ℕ
  pub salt : Bytes

pub record RepoConfig : Type 0 where
  pub version : ℕ
  pub id : String
  pub chunker_polynomial : ℕ
  pub kdf_params : KdfParams
  pub transport : Option RepoTransport

pub record KeyFile : Type 0 where
  pub encrypted_key : Bytes
  pub kdf_params : KdfParams

-- `KdfParams::default` and `RepoConfig::default`, with the salt and the id.
abbrev pub default_params : Bytes → KdfParams
default_params salt = record {
  algorithm = "argon2id";
  iterations = 1;
  memory = 65536;
  parallelism = 4;
  salt = salt;
}

abbrev pub default_config : Bytes → String → RepoConfig
default_config salt id = record {
  version = 1;
  id = id;
  chunker_polynomial = 0x3DA3358B4DC173;
  kdf_params = default_params salt;
  transport = none;
}

-- `unwrap`
abbrev pub unwrap : {A : Type 0} → Option A → Result A
unwrap none = panic
unwrap (some a) = ok a

-- `MasterKey::derive_from_password`
unfoldable pub derive_from_password : {P : Type 0} → Argon2 P → String → KdfParams → Result Bytes
derive_from_password argon2 password params =
    bind
      (ok_or (argon2.new_params params.memory params.iterations params.parallelism)
        (Error.encryption "argon2::Error"))
      (λ new_params.
        bind (ok_or (argon2.encode_b64 params.salt) (Error.encryption "password_hash::Error"))
          (λ salt.
            bind
              (ok_or (argon2.hash_password new_params password salt)
                (Error.encryption "password_hash::Error"))
              unwrap))

-- How a store is reached: the constructors of the five kinds of storage.
pub record Connectors (W : Type 0) : Type 0 where
  pub local_storage : String → RepositoryStorage W
  pub s3_storage : S3Location → Result (RepositoryStorage W)
  pub azure_storage : AzureLocation → Result (RepositoryStorage W)
  pub rclone_storage : RcloneLocation → RepositoryStorage W
  pub sftp_storage : SftpLocation → Result (RepositoryStorage W)

-- `if x.is_empty() && let Ok(y) = var { x = y }`
abbrev pub or_var : String → Option String → String
or_var given none = given
or_var given (some value) = or_text given value

module _ (var : String → Option String) where
  abbrev pub s3_with_env : S3Location → S3Location
  s3_with_env l = record l {
    endpoint = or_option l.endpoint (var "AWS_ENDPOINT_URL");
    region = or_option l.region (or_option (var "AWS_REGION") (var "AWS_DEFAULT_REGION"));
  }

  abbrev pub azure_with_env : AzureLocation → AzureLocation
  azure_with_env l = record l { account_name = or_var l.account_name (var "AZURE_STORAGE_ACCOUNT") }

  abbrev pub sftp_with_env : SftpLocation → SftpLocation
  sftp_with_env l = record l { user = or_var l.user (or_option (var "SFTP_USER") (var "USER")) }

  unfoldable pub storage_for_location :
      {W : Type 0} → Connectors W → RepositoryLocation → Result (RepositoryStorage W)
  storage_for_location connect (local path) = ok (connect.local_storage path)
  storage_for_location connect (s3 l) = connect.s3_storage (s3_with_env l)
  storage_for_location connect (azure l) = connect.azure_storage (azure_with_env l)
  storage_for_location connect (rclone l) = ok (connect.rclone_storage l)
  storage_for_location connect (sftp l) = connect.sftp_storage (sftp_with_env l)
