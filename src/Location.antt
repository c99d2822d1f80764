-- ===== src/Location.antt =====
-- Where a repository is: the locations of core/src/storage.rs, the transports that the configuration keeps
-- (core/src/types.rs), and how `Repository` turns one into the other and fills in what an input leaves out.
pub mod Uri
use ghostsnap.Prelude.{
  ℕ, ◌≡◌, refl, String, Option, none, some, ◌==◌, string_eq, Bool-cases, inl, inr, if◌then◌else◌,
}

pub record S3RepoSse : Type 0 where
  pub mode : String
  pub kms_key_id : Option String

-- `S3Location`, and the fields of `S3RepoTransport`, which are the same.
pub record S3Location : Type 0 where
  pub bucket : String
  pub prefix : String
  pub endpoint : Option String
  pub region : Option String
  pub sse : Option S3RepoSse

-- `AzureLocation` and `AzureRepoTransport`
pub record AzureLocation : Type 0 where
  pub account_name : String
  pub container : String
  pub prefix : String

-- `RcloneLocation` and `RcloneRepoTransport`
pub record RcloneLocation : Type 0 where
  pub remote : String
  pub path : String

-- `SftpLocation` and `SftpRepoTransport`
pub record SftpLocation : Type 0 where
  pub host : String
  pub port : ℕ
  pub user : String
  pub path : String

pub data RepositoryLocation : Type 0 where
  local : String → RepositoryLocation
  s3 : S3Location → RepositoryLocation
  azure : AzureLocation → RepositoryLocation
  rclone : RcloneLocation → RepositoryLocation
  sftp : SftpLocation → RepositoryLocation

pub data RepoTransport : Type 0 where
  local : RepoTransport
  s3 : S3Location → RepoTransport
  azure : AzureLocation → RepoTransport
  rclone : RcloneLocation → RepoTransport
  sftp : SftpLocation → RepoTransport

unfoldable pub transport_from_location : RepositoryLocation → RepoTransport
transport_from_location (RepositoryLocation.local path) = RepoTransport.local
transport_from_location (RepositoryLocation.s3 l) = RepoTransport.s3 l
transport_from_location (RepositoryLocation.azure l) = RepoTransport.azure l
transport_from_location (RepositoryLocation.rclone l) = RepoTransport.rclone l
transport_from_location (RepositoryLocation.sftp l) = RepoTransport.sftp l

-- `if x.is_empty() { x = stored.clone() }`
abbrev pub or_text : String → String → String
or_text given stored = if given == "" then stored else given

-- `if x.is_none() { x = stored.clone() }`
abbrev pub or_option {ℓ} : {A : Type ℓ} → Option A → Option A → Option A
or_option none stored = stored
or_option (some a) stored = some a

unfoldable pub resolve_location : RepositoryLocation → Option RepoTransport → RepositoryLocation
resolve_location (RepositoryLocation.local path) transport = RepositoryLocation.local path
resolve_location (RepositoryLocation.s3 l) (some (RepoTransport.s3 stored)) =
    RepositoryLocation.s3 (record {
      bucket = or_text l.bucket stored.bucket;
      prefix = or_text l.prefix stored.prefix;
      endpoint = or_option l.endpoint stored.endpoint;
      region = or_option l.region stored.region;
      sse = or_option l.sse stored.sse;
    })
resolve_location (RepositoryLocation.s3 l) _ = RepositoryLocation.s3 l
resolve_location (RepositoryLocation.azure l) (some (RepoTransport.azure stored)) =
    RepositoryLocation.azure (record {
      account_name = or_text l.account_name stored.account_name;
      container = or_text l.container stored.container;
      prefix = or_text l.prefix stored.prefix;
    })
resolve_location (RepositoryLocation.azure l) _ = RepositoryLocation.azure l
resolve_location (RepositoryLocation.rclone l) (some (RepoTransport.rclone stored)) =
    RepositoryLocation.rclone
      (record { remote = or_text l.remote stored.remote; path = or_text l.path stored.path })
resolve_location (RepositoryLocation.rclone l) _ = RepositoryLocation.rclone l
resolve_location (RepositoryLocation.sftp l) (some (RepoTransport.sftp stored)) =
    RepositoryLocation.sftp (record {
      host = or_text l.host stored.host;
      port = l.port;
      user = or_text l.user stored.user;
      path = or_text l.path stored.path;
    })
resolve_location (RepositoryLocation.sftp l) _ = RepositoryLocation.sftp l

-- An input of the same kind that says nothing, but for a local path and an SFTP port.
abbrev pub blank : RepositoryLocation → RepositoryLocation
blank (RepositoryLocation.local path) = RepositoryLocation.local path
blank (RepositoryLocation.s3 l) =
    RepositoryLocation.s3
      (record { bucket = ""; prefix = ""; endpoint = none; region = none; sse = none })
blank (RepositoryLocation.azure l) =
    RepositoryLocation.azure (record { account_name = ""; container = ""; prefix = "" })
blank (RepositoryLocation.rclone l) = RepositoryLocation.rclone (record { remote = ""; path = "" })
blank (RepositoryLocation.sftp l) =
    RepositoryLocation.sftp (record { host = ""; port = l.port; user = ""; path = "" })

or_text_self : (x : String) → or_text x x ≡ x
or_text_self x = elim (Bool-cases (x == "")) [ inl e ↦ rw e refl | inr e ↦ rw e refl ]

or_option_self {ℓ} : {A : Type ℓ} (x : Option A) → or_option x x ≡ x
or_option_self none = refl
or_option_self (some a) = refl

-- From the transport that was stored for a location, `resolve_location` restores the location: given an
-- input of its kind that says nothing (but for a local path and an SFTP port), and given the location itself.
pub resolve_location-transport_from_location :
    (l : RepositoryLocation)
    → (resolve_location (blank l) (some (transport_from_location l)) ≡ l)
      × (resolve_location l (some (transport_from_location l)) ≡ l)
unfolding resolve_location transport_from_location
resolve_location-transport_from_location (RepositoryLocation.local path) = (refl, refl)
resolve_location-transport_from_location (RepositoryLocation.s3 l) = (
  refl,
  λ t. RepositoryLocation.s3 (record {
    bucket = or_text_self l.bucket t;
    prefix = or_text_self l.prefix t;
    endpoint = or_option_self l.endpoint t;
    region = or_option_self l.region t;
    sse = or_option_self l.sse t;
  }),
)
resolve_location-transport_from_location (RepositoryLocation.azure l) = (
  refl,
  λ t. RepositoryLocation.azure (record {
    account_name = or_text_self l.account_name t;
    container = or_text_self l.container t;
    prefix = or_text_self l.prefix t;
  }),
)
resolve_location-transport_from_location (RepositoryLocation.rclone l) = (
  refl,
  λ t.
      RepositoryLocation.rclone
        (record { remote = or_text_self l.remote t; path = or_text_self l.path t }),
)
resolve_location-transport_from_location (RepositoryLocation.sftp l) = (
  refl,
  λ t. RepositoryLocation.sftp (record {
    host = or_text_self l.host t;
    port = l.port;
    user = or_text_self l.user t;
    path = or_text_self l.path t;
  }),
)
