-- ===== src/Tests/OpeningTests.antt =====
-- A new repository is opened again, in a storage of objects by path, and a location is printed and parsed.
use Prim.Native.Nat.{Ordering, compare}
use Prim.Native.Char.{Char, char, code, IsLt, IsScalar}
use mathlib.Core.Path.{subst}
use native.Mathlib.Decide.{ℕ_discrete}
use ghostsnap.Prelude.{
  ℕ, String, ◌≡◌, refl, ap, sym, list_eq, string_eq, none, some, List, [], ◌∷◌, Map, replicate,
  ◌++◌ as append, Option, arith,
}
use ghostsnap.Errors.{Error, ok, err, ok-injective}
use ghostsnap.Foreign.{Bytes, Utf8, JsonText, Argon2}
use ghostsnap.Types.{ChunkId}
use ghostsnap.Crypto.{new_encryptor, encrypt}
use ghostsnap.Index
use ghostsnap.Storage.{RepositoryStorage}
use ghostsnap.Location.{RepositoryLocation, sftp, local, transport_from_location}
use ghostsnap.Location.Uri.{display, parse}
use ghostsnap.Location.Uri.RoundTrip.{IsPlain, parse-display}
use ghostsnap.Repository.Opening.{
  Setup, Draws, Opened, init_at_location, open_at_location, write_new,
}
use ghostsnap.Repository.Opening.Config.{
  Connectors, RepoConfig, KeyFile, default_config, default_params, storage_for_location,
  derive_from_password,
}
use ghostsnap.Repository.Opening.Legacy.{LegacyFiles, has_legacy}
use ghostsnap.Repository.Opening.RoundTrip.{IsSettled, open_at_location-init_at_location}
use ghostsnap.Tests.Stores.{map_storage}
use ghostsnap.Tests.Crates.{plain_cipher, unary_hex, string_discrete, exact_bloom}
use ghostsnap.Tests.ObjectsTests as Objects

instance abbrev bloom : Index.Bloom (List ChunkId)
bloom = exact_bloom

-- The helpers of `IsScalar`, which are private there.
abbrev Both : Ordering → Ordering → Type 0
Both Ordering.lt o = IsLt o
Both Ordering.eq o = ⊥
Both Ordering.gt o = ⊥

abbrev Scalar : Ordering → Ordering → Ordering → Type 0
Scalar Ordering.lt o p = Unit
Scalar Ordering.eq o p = Both o p
Scalar Ordering.gt o p = Both o p

abbrev some_lt : (o : Ordering) → Option (IsLt o)
some_lt Ordering.lt = some tt
some_lt Ordering.eq = none
some_lt Ordering.gt = none

abbrev some_both : (o p : Ordering) → Option (Both o p)
some_both Ordering.lt p = some_lt p
some_both Ordering.eq p = none
some_both Ordering.gt p = none

abbrev some_scalar : (o p q : Ordering) → Option (Scalar o p q)
some_scalar Ordering.lt p q = some tt
some_scalar Ordering.eq p q = some_both p q
some_scalar Ordering.gt p q = some_both p q

some_lt_self : (o : Ordering) (x : IsLt o) → some_lt o ≡ some x
some_lt_self Ordering.lt x = refl
some_lt_self Ordering.eq x = absurd x
some_lt_self Ordering.gt x = absurd x

some_both_self : (o p : Ordering) (x : Both o p) → some_both o p ≡ some x
some_both_self Ordering.lt p x = some_lt_self p x
some_both_self Ordering.eq p x = absurd x
some_both_self Ordering.gt p x = absurd x

some_scalar_self : (o p q : Ordering) (x : Scalar o p q) → some_scalar o p q ≡ some x
some_scalar_self Ordering.lt p q x = refl
some_scalar_self Ordering.eq p q x = some_both_self p q x
some_scalar_self Ordering.gt p q x = some_both_self p q x

abbrev scalar_of : (n : ℕ) → Option (IsScalar n)
scalar_of n = some_scalar (compare n 55296) (compare 57343 n) (compare n 1114112)

abbrev char_of : ℕ → Option Char
char_of n = elim (scalar_of n) [ none ↦ none | some x ↦ some (char n x) ]

char_of-code : (c : Char) → char_of (code c) ≡ some c
char_of-code (char n x) =
    ap (λ o. elim o [ none ↦ none | some y ↦ some (char n y) ])
      (some_scalar_self (compare n 55296) (compare 57343 n) (compare n 1114112) x)

-- Each character as its number.
abbrev codes : String → Bytes
codes String.[] = []
codes (String.◌∷◌ c s) = code c ∷ codes s

abbrev cons_text : Option Char → Option String → Option String
cons_text none rest = none
cons_text (some c) none = none
cons_text (some c) (some s) = some (String.◌∷◌ c s)

abbrev text_of : Bytes → Option String
text_of [] = some String.[]
text_of (n ∷ ns) = cons_text (char_of n) (text_of ns)

text_of-codes : (s : String) → text_of (codes s) ≡ some s
text_of-codes String.[] = refl
text_of-codes (String.◌∷◌ c s) = rw (char_of-code c, text_of-codes s) refl

abbrev wide_codes : Utf8
wide_codes = record { encode = codes; decode = text_of; decode-encode = text_of-codes }

-- A text that stands for the one value `sample`.
module _ {A : Type 0} (sample : A) where
  abbrev sample_text : {P : Type 0} → Dec P → Option String
  sample_text (yes p) = some "sample"
  sample_text (no p) = none

  sample_text-eq-some :
      (a : A) (d : Dec (a ≡ sample)) (s : String) → sample_text d ≡ some s → some sample ≡ some a
  sample_text-eq-some a (yes p) s h = ap some (sym p)
  sample_text-eq-some a (no p) s h = absurd (cc)

  sample_text_self : (d : Dec (sample ≡ sample)) → sample_text d ≡ some "sample"
  sample_text_self (yes p) = refl
  sample_text_self (no p) = absurd (p refl)

abbrev sample_json : {A : Type 0} → Discrete A → A → JsonText A
sample_json equal sample = record {
  to_string_pretty = λ a. sample_text sample (equal a sample);
  from_str = λ s. some sample;
  from_str-to_string_pretty = λ a s h. sample_text-eq-some sample a (equal a sample) s h;
}

config_discrete : Discrete RepoConfig
config_discrete = hlevel (ℕ_discrete, string_discrete)

key_discrete : Discrete KeyFile
key_discrete = hlevel (ℕ_discrete, string_discrete)

-- A hash that is always the same key, of 32 bytes.
abbrev constant_key : Argon2 Unit
constant_key = record {
  new_params = λ memory iterations parallelism. some tt;
  encode_b64 = λ salt. some "salt";
  hash_password = λ params password salt. some (some (replicate 32 5));
}

-- All locations are one storage, in which the only key is `k`.
abbrev store : RepositoryStorage (Map String Bytes)
store = record map_storage { list = λ prefix s. ok ("k" ∷ []) }

abbrev connect : Connectors (Map String Bytes)
connect = record {
  local_storage = λ path. store;
  s3_storage = λ l. ok store;
  azure_storage = λ l. ok store;
  rclone_storage = λ l. store;
  sftp_storage = λ l. ok store;
}

abbrev no_files : LegacyFiles (Map String Bytes)
no_files = record {
  read_dir = λ dir s. err (Error.io "not found");
  read = λ dir name s. err (Error.io "not found");
  remove_file = λ dir name s. s;
}

abbrev draws : Draws
draws = record {
  id = "repo";
  salt = replicate 16 1;
  data_key = replicate 32 7;
  nonce = replicate 12 0;
  key_id = "k";
}

abbrev config : RepoConfig
config = record (default_config draws.salt draws.id) {
  transport = some (transport_from_location (local "/r"));
}

abbrev key_file : KeyFile
key_file = record {
  encrypted_key = append draws.nonce draws.data_key;
  kdf_params = default_params draws.salt;
}

abbrev setup : Setup (Map String Bytes) Unit
setup = record {
  var = λ name. none;
  connect = connect;
  cipher = plain_cipher;
  argon2 = constant_key;
  utf8 = wide_codes;
  hex = unary_hex;
  configs = sample_json config_discrete config;
  keys = sample_json key_discrete key_file;
  indexes = Objects.crates.indexes;
  files = no_files;
  locations = λ bytes. none;
}

abbrev made : Opened (List ChunkId)
made = record {
  location = local "/r";
  display_path = "/r";
  config = config;
  master_key = some (replicate 32 5);
  encryptor = some (record { key = replicate 32 7 });
  index = Index.new;
}

abbrev written : Map String Bytes
written = ("config", codes "sample") ∷ ("keys/k", codes "sample") ∷ []

initialized : init_at_location setup (local "/r") "secret" draws [] ≡ (ok made, written)
unfolding init_at_location write_new storage_for_location derive_from_password new_encryptor encrypt
    transport_from_location display
initialized =
    rw
      (
        sample_text_self config (config_discrete config config),
        sample_text_self key_file (key_discrete key_file key_file),
      )
      refl

settled :
    (s : RepositoryStorage (Map String Bytes))
    → storage_for_location setup.var setup.connect (local "/r") ≡ ok s
    → IsSettled setup (local "/r") "k" written s
unfolding storage_for_location has_legacy
settled s h =
    subst (IsSettled setup (local "/r") "k" written) (ok-injective store s h)
      (record { config = refl; keys = refl; index = refl; legacy = λ dir e. refl })

open_at_location-init_at_location_example :
    open_at_location setup (local "/r") "secret" (replicate 12 9) written ≡ (ok made, written)
open_at_location-init_at_location_example =
    open_at_location-init_at_location setup (local "/r") "secret" draws made [] written
      (replicate 12 9) refl initialized settled

abbrev server : RepositoryLocation
server = sftp (record { host = "backup.example"; port = 2222; user = "u"; path = "repo/a" })

server-IsPlain : IsPlain server
unfolding IsPlain
server-IsPlain = record {
  host_filled = refl;
  host_slash = refl;
  host_at = refl;
  host_colon = refl;
  user_slash = refl;
  user_at = refl;
  port_small = omega arith;
}

parse-display_example : parse (λ name. none) (display server) ≡ ok server
parse-display_example = parse-display (λ name. none) server server-IsPlain
