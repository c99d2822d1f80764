-- ===== src/Location/Uri.antt =====
-- core/src/storage.rs: how a location is printed and parsed, and what the environment adds to it. A `var` of
-- the environment is the argument `var`.
pub mod Parts
pub mod Schemes
pub mod Address
pub mod RoundTrip
use Prim.Native.String.{◌++◌, len}
use ghostsnap.Prelude.{
  ℕ, zero, suc, String, Option, none, some, ◌==◌, string_eq, nat_beq, if◌then◌else◌, strip_prefix,
  split_once, rsplit_once, trim_start_code, trim_end_code, parse_u16, print_decimal,
}
use ghostsnap.Errors.{Error, Result, ok, err, ok_or, ◌>>=◌}
use ghostsnap.Location.{
  S3Location, AzureLocation, RcloneLocation, SftpLocation, RepositoryLocation, local, s3, azure,
  rclone, sftp, or_option,
}

-- `trim_matches('/')`
abbrev pub trim_slashes : String → String
trim_slashes s = trim_end_code b'/' (trim_start_code b'/' s)

-- `format!("{}/{}", head, tail)`, or only the head.
abbrev pub with_path : String → String → String
with_path head tail = if tail == "" then head else (head ++ ("/" ++ tail))

-- A part of an address that may be absent, with its sign.
abbrev pub user_part : String → String
user_part user = if user == "" then "" else (user ++ "@")

abbrev pub port_part : ℕ → String
port_part port = if nat_beq port 22 then "" else (":" ++ print_decimal 5 port "")

unfoldable pub display_s3 : S3Location → String
display_s3 l = "s3:" ++ with_path l.bucket l.prefix

unfoldable pub display_azure : AzureLocation → String
display_azure l = "azure:" ++ with_path (l.account_name ++ ("/" ++ l.container)) l.prefix

unfoldable pub display_rclone : RcloneLocation → String
display_rclone l = "rclone:" ++ with_path l.remote l.path

unfoldable pub display_sftp : SftpLocation → String
unfolding print_decimal
display_sftp l = "sftp:" ++ with_path (user_part l.user ++ (l.host ++ port_part l.port)) l.path

unfoldable pub display : RepositoryLocation → String
unfolding display_s3 display_azure display_rclone display_sftp
display (local path) = path
display (s3 l) = display_s3 l
display (azure l) = display_azure l
display (rclone l) = display_rclone l
display (sftp l) = display_sftp l

-- The first part, and the rest after a slash, if there is one.
abbrev pub or_whole : String → Option (String × String) → String × String
or_whole s none = (s, "")
or_whole s (some parts) = parts

-- A bucket or a remote, and what stands below it.
unfoldable pub split_bucket_prefix : Error → String → Result (String × String)
split_bucket_prefix failure input =
    let trimmed = trim_slashes input in
    let parts = or_whole trimmed (split_once b'/' trimmed) in
    if trimmed == "" then err failure else if parts.0 == "" then err failure else ok parts

abbrev pub new_s3 : String → String → S3Location
new_s3 bucket prefix = record {
  bucket = bucket;
  prefix = prefix;
  endpoint = none;
  region = none;
  sse = none;
}

unfoldable pub parse_s3_location : String → Result RepositoryLocation
unfolding split_bucket_prefix
parse_s3_location input = do
  parts ← split_bucket_prefix (Error.other "S3 repository URI must include a bucket name") input
  ok (s3 (new_s3 parts.0 parts.1))

-- `splitn(3, '/')` with at least two parts.
abbrev pub split_container : Option (String × String) → Result RepositoryLocation
split_container none = err (Error.other "Azure repository URI must include container")
split_container (some (account_name, rest)) =
    let parts = or_whole rest (split_once b'/' rest) in
    ok (azure (record { account_name = account_name; container = parts.0; prefix = parts.1 }))

unfoldable pub parse_azure_location : String → Result RepositoryLocation
parse_azure_location input =
    let trimmed = trim_slashes input in
    if trimmed == ""
    then err (Error.other "Azure repository URI must include account name and container")
    else split_container (split_once b'/' trimmed)

unfoldable pub parse_rclone_location : String → Result RepositoryLocation
unfolding split_bucket_prefix
parse_rclone_location input = do
  parts ← split_bucket_prefix (Error.other "Rclone repository URI must include a remote name") input
  ok (rclone (record { remote = parts.0; path = parts.1 }))

-- The user, if one is given, and the rest.
abbrev pub or_no_user : String → Option (String × String) → String × String
or_no_user s none = ("", s)
or_no_user s (some parts) = parts

abbrev pub host_and_port : String → Option (String × String) → Result (String × ℕ)
host_and_port s none = ok (s, 22)
host_and_port s (some (host, port_str)) = do
  port ← ok_or (parse_u16 port_str) (Error.other "Invalid SFTP port")
  ok (host, port)

unfoldable pub parse_authority : String → String → Result RepositoryLocation
parse_authority authority path =
    let parts = or_no_user authority (split_once b'@' authority) in
    if parts.1 == "" then err (Error.other "SFTP repository URI must include a host") else (do
      place ← host_and_port parts.1 (rsplit_once b':' parts.1)
      ok (sftp (record { host = place.0; port = place.1; user = parts.0; path = path })))

unfoldable pub parse_sftp_location : String → Result RepositoryLocation
unfolding parse_authority
parse_sftp_location input =
    let trimmed = trim_start_code b'/' input in
    let parts = or_whole trimmed (split_once b'/' trimmed) in
    if trimmed == ""
    then err (Error.other "SFTP repository URI must include a host")
    else parse_authority parts.0 parts.1

-- The part of a host `s3.<region>.…`.
abbrev pub region_label : Option (String × String) → Option String
region_label none = none
region_label (some (label, rest)) =
    let region = (or_whole rest (split_once b'.' rest)).0 in
    if label == "s3" then (if region == "" then none else some region) else none

-- `trim_start_matches` with a text that is not empty, which cannot stand there more often than the text has
-- bytes.
unfoldable pub trim_prefix : ℕ → String → String → String
trim_prefix zero prefix s = s
trim_prefix (suc fuel) prefix s = elim (strip_prefix prefix s) [
  | none ↦ s
  | some rest ↦ trim_prefix fuel prefix rest
]

abbrev pub trim_start_matches : String → String → String
trim_start_matches prefix s = trim_prefix (len s) prefix s

abbrev pub or_else_none : Option String → (String → Option String) → Option String
or_else_none none f = none
or_else_none (some x) f = f x

unfoldable pub b2_region_from_endpoint : String → Option String
unfolding trim_prefix
b2_region_from_endpoint endpoint =
    let host = trim_start_matches "http://" (trim_start_matches "https://" endpoint) in
    region_label (split_once b'.' (or_whole host (split_once b'/' host)).0)

-- `if let Some(rest) = input.strip_prefix(scheme) { return parse_rest(rest) }`
unfoldable pub try_scheme :
    String
    → (String → Result RepositoryLocation)
    → String
    → Result RepositoryLocation
    → Result RepositoryLocation
try_scheme scheme parse_rest input otherwise = elim (strip_prefix scheme input) [
  | some rest ↦ parse_rest rest
  | none ↦ otherwise
]

module _ (var : String → Option String) where
  unfoldable pub parse_b2_location : String → Result RepositoryLocation
  unfolding split_bucket_prefix b2_region_from_endpoint
  parse_b2_location input = do
    parts ← split_bucket_prefix (Error.other "B2 repository URI must include a bucket name") input
    let endpoint = or_option (var "B2_S3_ENDPOINT") (var "AWS_ENDPOINT_URL")
    let region = or_option (var "AWS_REGION") (or_else_none endpoint b2_region_from_endpoint)
    ok (s3 (record (new_s3 parts.0 parts.1) { endpoint = endpoint; region = region }))

  unfoldable pub parse_minio_location : String → Result RepositoryLocation
  unfolding split_bucket_prefix
  parse_minio_location input = do
    parts ←
        split_bucket_prefix (Error.other "MinIO repository URI must include a bucket name") input
    let endpoint = or_option (var "MINIO_ENDPOINT") (var "AWS_ENDPOINT_URL")
    let region = or_option (var "AWS_REGION") (some "us-east-1")
    ok (s3 (record (new_s3 parts.0 parts.1) { endpoint = endpoint; region = region }))

  unfoldable pub parse : String → Result RepositoryLocation
  unfolding parse_s3_location parse_azure_location parse_rclone_location parse_b2_location
      parse_minio_location parse_sftp_location
  parse input = try_scheme "s3://" parse_s3_location input (
      try_scheme "s3:" parse_s3_location input (
        try_scheme "azure://" parse_azure_location input (
          try_scheme "azure:" parse_azure_location input (
            try_scheme "rclone://" parse_rclone_location input (
              try_scheme "rclone:" parse_rclone_location input (
                try_scheme "b2://" parse_b2_location input (
                  try_scheme "b2:" parse_b2_location input (
                    try_scheme "minio://" parse_minio_location input (
                      try_scheme "minio:" parse_minio_location input (
                        try_scheme "sftp://" parse_sftp_location input (
                          try_scheme "sftp:" parse_sftp_location input (ok (local input)))))))))))))
