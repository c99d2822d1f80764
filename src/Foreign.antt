-- ===== src/Foreign.antt =====
-- The foreign crates that the core relies on, as interfaces: what the program calls, with the
-- documented behaviour that it depends on. Nothing here is code of the repository.
use ghostsnap.Prelude.{ℕ, String, ◌≡◌, Option, some, List, length}

-- A `Vec<u8>` or a byte slice.
abbrev pub Bytes : Type 0
Bytes = List ℕ

-- chacha20poly1305: sealing and opening under a key and a nonce.
pub record Cipher : Type 0 where
  pub seal : Bytes → Bytes → Bytes → Option Bytes
  pub unseal : Bytes → Bytes → Bytes → Option Bytes
  pub unseal-seal :
      (key nonce plain sealed : Bytes)
      → seal key nonce plain ≡ some sealed
      → unseal key nonce sealed ≡ some plain

-- blake3 and its hexadecimal form.
pub record Hasher : Type 0 where
  pub hash : Bytes → Bytes
  pub length-hash : (b : Bytes) → length (hash b) ≡ 32

-- The crate `hex`, and blake3's own printer of a hash.
pub record Hex : Type 0 where
  pub encode : Bytes → String
  pub decode : String → Option Bytes
  pub decode-encode : (b : Bytes) → decode (encode b) ≡ some b

-- flate2's zlib.
pub record Zlib : Type 0 where
  pub compress : Bytes → Option Bytes
  pub decompress : Bytes → Option Bytes
  pub decompress-compress : (b c : Bytes) → compress b ≡ some c → decompress c ≡ some b

-- postcard or serde_json at one type. What is read is `Well` formed by its type (a HashMap has a key
-- once), and a value read back agrees with the one written up to `Same`: a HashMap comes back with its
-- content, in any order.
pub record Codec (A : Type 0) (Well : A → Type 0) (Same : A → A → Type 0) : Type 0 where
  pub to_bytes : A → Option Bytes
  pub from_bytes : Bytes → Option A
  pub well : (b : Bytes) (a : A) → from_bytes b ≡ some a → Well a
  pub read_back :
      (a : A) (b : Bytes) → to_bytes a ≡ some b → (a' : A) × (from_bytes b ≡ some a') × Same a' a

-- UTF-8, as std encodes and decodes it.
pub record Utf8 : Type 0 where
  pub encode : String → Bytes
  pub decode : Bytes → Option String
  pub decode-encode : (s : String) → decode (encode s) ≡ some s

-- serde_json's text at a type whose values come back as they were.
pub record JsonText (A : Type 0) : Type 0 where
  pub to_string_pretty : A → Option String
  pub from_str : String → Option A
  pub from_str-to_string_pretty :
      (a : A) (s : String) → to_string_pretty a ≡ some s → from_str s ≡ some a

-- argon2 with its parameters `P`: the memory, the iterations and the parallelism, then the password and the
-- encoded salt. `hash_password` may leave out the hash.
pub record Argon2 (P : Type 0) : Type 0 where
  pub new_params : ℕ → ℕ → ℕ → Option P
  pub encode_b64 : Bytes → Option String
  pub hash_password : P → String → String → Option (Option Bytes)
