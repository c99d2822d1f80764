-- ===== src/Snapshot/Encoding.antt =====
-- `serialize` and `deserialize` of Snapshot and Tree in core/src/snapshot.rs: JSON, encrypted.
use ghostsnap.Prelude.{
  String, string_eq, ℕ, ◌≡◌, refl, length, Option, none, some, List, [], ◌∷◌, IsMap, SameMap,
}
use ghostsnap.Errors.{Error, Result, ok, ok_or, ok_or-eq-ok, ◌>>=◌, >>=-eq-ok}
use ghostsnap.Foreign.{Bytes, Cipher, Codec}
use ghostsnap.Crypto.{Encryptor, encrypt, decrypt, decrypt-encrypt}
use ghostsnap.Snapshot.{Snapshot, Tree, TreeNode}

-- serde_json at a type whose values come back as they were.
abbrev pub Json : Type 0 → Type 0
Json A = Codec A (λ a. Unit) (λ a b. a ≡ b)

-- Two nodes that agree, but for the order in which their extended attributes stand: a HashMap.
abbrev pub SameXattr : Option (List (String × List ℕ)) → Option (List (String × List ℕ)) → Type 0
SameXattr none none = Unit
SameXattr none (some ys) = ⊥
SameXattr (some xs) none = ⊥
SameXattr (some xs) (some ys) = SameMap xs ys

abbrev pub SameNode : TreeNode → TreeNode → Type 0
SameNode a b = (record a { xattr = none } ≡ record b { xattr = none }) × SameXattr a.xattr b.xattr

abbrev pub SameNodes : List TreeNode → List TreeNode → Type 0
SameNodes [] [] = Unit
SameNodes [] (b ∷ bs) = ⊥
SameNodes (a ∷ rest) [] = ⊥
SameNodes (a ∷ rest) (b ∷ bs) = SameNode a b × SameNodes rest bs

abbrev pub SameTree : Tree → Tree → Type 0
SameTree a b = SameNodes a.nodes b.nodes

-- A HashMap that was read has a key once.
abbrev pub WellXattr : Option (List (String × List ℕ)) → Type 0
WellXattr none = Unit
WellXattr (some xs) = IsMap xs

abbrev pub WellNodes : List TreeNode → Type 0
WellNodes [] = Unit
WellNodes (n ∷ ns) = WellXattr n.xattr × WellNodes ns

abbrev pub WellTree : Tree → Type 0
WellTree t = WellNodes t.nodes

-- serde_json at trees.
abbrev pub JsonTree : Type 0
JsonTree = Codec Tree WellTree SameTree

module _ {A : Type 0} {Well : A → Type 0} {Same : A → A → Type 0} (cipher : Cipher)
    (json : Codec A Well Same) where
  unfoldable pub serialize_as : String → Encryptor → Bytes → A → Result Bytes
  serialize_as failure encryptor nonce a = do
    json_data ← ok_or (json.to_bytes a) (Error.other failure)
    encrypt cipher encryptor nonce json_data

  unfoldable pub deserialize_as : String → Encryptor → Bytes → Result A
  deserialize_as failure encryptor bytes = do
    decrypted_data ← decrypt cipher encryptor bytes
    ok_or (json.from_bytes decrypted_data) (Error.other failure)

  -- What is serialized under a 12-byte nonce is deserialized, as far as its JSON tells it.
  pub deserialize_as-serialize_as :
      (failure failure' : String) (encryptor : Encryptor) (nonce : Bytes) (a : A) (bytes : Bytes)
      → length nonce ≡ 12
      → serialize_as failure encryptor nonce a ≡ ok bytes
      → (a' : A) × (deserialize_as failure' encryptor bytes ≡ ok a') × Same a' a
  unfolding serialize_as deserialize_as
  deserialize_as-serialize_as failure failure' encryptor nonce a bytes n h =
      let (json_data, made, sealed) = >>=-eq-ok _ _ h in
      let opened = decrypt-encrypt cipher encryptor nonce json_data bytes n sealed in
      let (a', read, same) = json.read_back a json_data (ok_or-eq-ok _ _ made) in
      (a', rw (opened, read) refl, same)

module _ (cipher : Cipher) (json : Json Snapshot) where
  unfoldable pub serialize_snapshot : Encryptor → Bytes → Snapshot → Result Bytes
  unfolding serialize_as
  serialize_snapshot = serialize_as cipher json "Failed to serialize snapshot"

  unfoldable pub deserialize_snapshot : Encryptor → Bytes → Result Snapshot
  unfolding deserialize_as
  deserialize_snapshot = deserialize_as cipher json "Failed to deserialize snapshot"

module _ (cipher : Cipher) (json : JsonTree) where
  unfoldable pub serialize_tree : Encryptor → Bytes → Tree → Result Bytes
  unfolding serialize_as
  serialize_tree = serialize_as cipher json "Failed to serialize tree"

  unfoldable pub deserialize_tree : Encryptor → Bytes → Result Tree
  unfolding deserialize_as
  deserialize_tree = deserialize_as cipher json "Failed to deserialize tree"
