-- ===== src/Repository/Objects.antt =====
-- core/src/repository.rs: snapshots and trees as objects of the storage, and the listings.
use Prim.Native.String.{◌++◌}
use ghostsnap.Prelude.{
  ℕ, ◌≡◌, ◌≢◌, refl, ap, sym, ◌∙◌, arith, String, Bool, List, [], ◌∷◌, length, trim_end_matches,
  first_code, first_code-append, ends_with, if◌then◌else◌,
}
use mathlib.Core.Path.{subst}
use ghostsnap.Crypto.{Encryptor}
use ghostsnap.Errors.{ok}
use ghostsnap.Action.{Action, ◌>>=◌, pure, lift, ask, resume-eq-ok}
use ghostsnap.Foreign.{Bytes, Hex}
use ghostsnap.Types.{ChunkId, PackId, SnapshotId, from_data, to_hex}
use ghostsnap.Snapshot.{Snapshot, Tree}
use ghostsnap.Snapshot.Encoding.{
  Json, JsonTree, SameTree, serialize_snapshot, deserialize_snapshot, serialize_tree,
  deserialize_tree, deserialize_as-serialize_as,
}
use ghostsnap.Storage.{pack_path}
use ghostsnap.Repository.{Crates, Repository, encryptor_of, write_object, delete_object}

-- `format!("snapshots/{}", snapshot_id)`
abbrev pub snapshot_path : SnapshotId → String
snapshot_path id = "snapshots/" ++ id

-- `format!("data/{}", tree_id.to_hex())`
abbrev pub tree_path : Hex → ChunkId → String
tree_path hex id = "data/" ++ to_hex hex id

-- The ids of the names that end in `.pack`. The ending is taken off as often as it stands there.
unfoldable pub pack_ids : List String → List PackId
pack_ids [] = []
pack_ids (name ∷ names) =
    let rest = pack_ids names in
    if ends_with ".pack" name then trim_end_matches ".pack" name ∷ rest else rest

module _ {S C F : Type 0} (crates : Crates S C) where
  unfoldable pub delete_snapshot : SnapshotId → Action (Repository S C F) Unit
  unfolding delete_object
  delete_snapshot id = delete_object crates (snapshot_path id)

  unfoldable pub list_packs : Action (Repository S C F) (List PackId)
  unfolding pack_ids
  list_packs = do names ← ask (λ r. crates.store.list "data" r.storage); pure (pack_ids names)

  unfoldable pub object_size : String → Action (Repository S C F) ℕ
  object_size path = ask (λ r. crates.store.metadata_size path r.storage)

  unfoldable pub pack_size : PackId → Action (Repository S C F) ℕ
  unfolding object_size
  pack_size pack_id = object_size (pack_path pack_id)

  unfoldable pub pack_exists : PackId → Action (Repository S C F) Bool
  pack_exists pack_id = ask (λ r. crates.store.exists_at (pack_path pack_id) r.storage)

-- `sort` on the ids is the argument `sort`.
module _ {S C F : Type 0} (crates : Crates S C) (sort : List String → List String) where
  unfoldable pub list_snapshots : Action (Repository S C F) (List SnapshotId)
  list_snapshots = do ids ← ask (λ r. crates.store.list "snapshots" r.storage); pure (sort ids)

module _ {S C F : Type 0} (crates : Crates S C) (json : Json Snapshot) where
  unfoldable pub save_snapshot : Bytes → Snapshot → Action (Repository S C F) Unit
  unfolding encryptor_of write_object serialize_snapshot
  save_snapshot nonce snapshot = do
    encryptor ← ask encryptor_of
    bytes ← lift (serialize_snapshot crates.cipher json encryptor nonce snapshot)
    write_object crates (snapshot_path snapshot.id) bytes

  unfoldable pub load_snapshot : SnapshotId → Action (Repository S C F) Snapshot
  unfolding encryptor_of deserialize_snapshot
  load_snapshot id = do
    encryptor ← ask encryptor_of
    bytes ← ask (λ r. crates.store.read (snapshot_path id) r.storage)
    lift (deserialize_snapshot crates.cipher json encryptor bytes)

module _ {S C F : Type 0} (crates : Crates S C) (json : JsonTree) where
  -- The id of a tree is that of its encrypted bytes.
  unfoldable pub save_tree : Bytes → Tree → Action (Repository S C F) ChunkId
  unfolding encryptor_of write_object serialize_tree
  save_tree nonce tree = do
    encryptor ← ask encryptor_of
    bytes ← lift (serialize_tree crates.cipher json encryptor nonce tree)
    let tree_id = from_data crates.hasher bytes
    written ← write_object crates (tree_path crates.hex tree_id) bytes
    pure tree_id

  unfoldable pub load_tree : ChunkId → Action (Repository S C F) Tree
  unfolding encryptor_of deserialize_tree
  load_tree id = do
    encryptor ← ask encryptor_of
    bytes ← ask (λ r. crates.store.read (tree_path crates.hex id) r.storage)
    lift (deserialize_tree crates.cipher json encryptor bytes)

-- An object of `snapshots` is none of `data`.
snapshot_path-ne-tree_path :
    (hex : Hex) (tree_id : ChunkId) (id : SnapshotId) → snapshot_path id ≢ tree_path hex tree_id
snapshot_path-ne-tree_path hex tree_id id h =
    let start = first_code-append "s" "napshots/" id in
    let start' = first_code-append "d" "ata/" (to_hex hex tree_id) in
    let codes : 115 ≡ 100 = sym start ∙ ap first_code h ∙ start' in absurd (omega (arith, codes))

-- What a write that succeeded does to the storage, and that it does nothing else.
record IsWritten {S C F : Type 0} (crates : Crates S C) (path : String) (bytes : Bytes)
    (r saved : Repository S C F) : Type 0 where
  stored : crates.store.read path saved.storage ≡ ok bytes
  others :
      (other : String)
      → path ≢ other
      → crates.store.read other saved.storage ≡ crates.store.read other r.storage
  same_encryptor : encryptor_of saved ≡ encryptor_of r

module _ {S C F : Type 0} (crates : Crates S C) where
  write-IsWritten :
      (path : String) (bytes : Bytes) (r saved : Repository S C F)
      → (crates.store.write path bytes r.storage).0 ≡ ok tt
      → record r { storage = (crates.store.write path bytes r.storage).1 } ≡ saved
      → IsWritten crates path bytes r saved
  unfolding encryptor_of
  write-IsWritten path bytes r saved written is = subst (IsWritten crates path bytes r) is (record {
    stored = crates.store.read-write_same path bytes r.storage written;
    others = λ other. crates.store.read-write_other path other bytes r.storage;
    same_encryptor = refl;
  })

module _ {S C F : Type 0} (crates : Crates S C) (trees : JsonTree) where
  record IsSavedTree (tree : Tree) (tree_id : ChunkId) (r saved : Repository S C F) : Type 0 where
    encryptor : Encryptor
    bytes : Bytes
    unlocked : encryptor_of r ≡ ok encryptor
    copy : Tree
    opened : deserialize_tree crates.cipher trees encryptor bytes ≡ ok copy
    same : SameTree copy tree
    written : IsWritten crates (tree_path crates.hex tree_id) bytes r saved

  save_tree-IsSavedTree :
      (nonce : Bytes) (tree : Tree) (tree_id : ChunkId) (r saved : Repository S C F)
      → length nonce ≡ 12
      → save_tree crates trees nonce tree r ≡ (ok tree_id, saved)
      → IsSavedTree tree tree_id r saved
  unfolding save_tree serialize_tree deserialize_tree write_object
  save_tree-IsSavedTree nonce tree tree_id r saved n h =
      let (encryptor, unlocked, h₀) = resume-eq-ok (encryptor_of r) r _ h in
      let (bytes, made, h₁) =
        resume-eq-ok (serialize_tree crates.cipher trees encryptor nonce tree) r _ h₀ in
      let id = from_data crates.hasher bytes in
      let done = crates.store.write (tree_path crates.hex id) bytes r.storage in
      let (u, written, h₂) = resume-eq-ok done.0 (record r { storage = done.1 }) _ h₁ in
      let same : id ≡ tree_id = cc in
      let (copy, opened, like) =
        deserialize_as-serialize_as crates.cipher trees "Failed to serialize tree"
          "Failed to deserialize tree" encryptor nonce tree bytes n made in
      record {
        encryptor = encryptor;
        bytes = bytes;
        unlocked = unlocked;
        copy = copy;
        opened = opened;
        same = like;
        written =
            subst (λ k. IsWritten crates (tree_path crates.hex k) bytes r saved) same
              (write-IsWritten crates (tree_path crates.hex id) bytes r saved written
                (ap (λ run. run.1) h₂));
      }

  load_tree-IsSavedTree :
      (tree : Tree) (tree_id : ChunkId) (r saved now : Repository S C F)
      → (w : IsSavedTree tree tree_id r saved) → encryptor_of now ≡ encryptor_of r
      → crates.store.read (tree_path crates.hex tree_id) now.storage ≡ ok w.bytes
      → load_tree crates trees tree_id now ≡ (ok w.copy, now)
  unfolding load_tree
  load_tree-IsSavedTree tree tree_id r saved now w e stored =
      rw (e, w.unlocked, stored, w.opened) refl

module _ {S C F : Type 0} (crates : Crates S C) (snapshots : Json Snapshot) where
  record IsSavedSnapshot (snapshot : Snapshot) (r saved : Repository S C F) : Type 0 where
    loaded : load_snapshot crates snapshots snapshot.id saved ≡ (ok snapshot, saved)
    others :
        (other : String)
        → snapshot_path snapshot.id ≢ other
        → crates.store.read other saved.storage ≡ crates.store.read other r.storage
    same_encryptor : encryptor_of saved ≡ encryptor_of r

  save_snapshot-IsSavedSnapshot :
      (nonce : Bytes) (snapshot : Snapshot) (r saved : Repository S C F)
      → length nonce ≡ 12
      → save_snapshot crates snapshots nonce snapshot r ≡ (ok tt, saved)
      → IsSavedSnapshot snapshot r saved
  unfolding save_snapshot load_snapshot serialize_snapshot deserialize_snapshot write_object
  save_snapshot-IsSavedSnapshot nonce snapshot r saved n h =
      let (encryptor, unlocked, h₀) = resume-eq-ok (encryptor_of r) r _ h in
      let (bytes, made, h₁) =
        resume-eq-ok (serialize_snapshot crates.cipher snapshots encryptor nonce snapshot) r _ h₀ in
      let w =
        write-IsWritten crates (snapshot_path snapshot.id) bytes r saved (ap (λ run. run.0) h₁)
          (ap (λ run. run.1) h₁) in
      let (copy, opened, same) =
        deserialize_as-serialize_as crates.cipher snapshots "Failed to serialize snapshot"
          "Failed to deserialize snapshot" encryptor nonce snapshot bytes n made in
      record {
        loaded = rw (w.same_encryptor, unlocked, w.stored, opened, same) refl;
        others = w.others;
        same_encryptor = w.same_encryptor;
      }

-- A tree saved under a 12-byte nonce, and then, under a second one, a snapshot with the id that the
-- tree got, are both loaded from the repository: the snapshot as it was, the tree up to the order of the
-- extended attributes of its nodes. Loading changes nothing.
pub load-save_snapshot :
    {S C F : Type 0} (crates : Crates S C) (snapshots : Json Snapshot) (trees : JsonTree)
    (nonce nonce' : Bytes) (tree : Tree) (snapshot : Snapshot) (r between saved : Repository S C F)
    → length nonce ≡ 12
    → length nonce' ≡ 12
    → save_tree crates trees nonce tree r ≡ (ok snapshot.tree, between)
    → save_snapshot crates snapshots nonce' snapshot between ≡ (ok tt, saved)
    → (load_snapshot crates snapshots snapshot.id saved ≡ (ok snapshot, saved))
      × (copy : Tree) × (load_tree crates trees snapshot.tree saved ≡ (ok copy, saved))
      × SameTree copy tree
load-save_snapshot crates snapshots trees nonce nonce' tree snapshot r between saved n n' h h' =
    let w = save_tree-IsSavedTree crates trees nonce tree snapshot.tree r between n h in
    let v = save_snapshot-IsSavedSnapshot crates snapshots nonce' snapshot between saved n' h' in
    let apart = snapshot_path-ne-tree_path crates.hex snapshot.tree snapshot.id in
    (
      v.loaded,
      w.copy,
      load_tree-IsSavedTree crates trees tree snapshot.tree r between saved w
          (v.same_encryptor ∙ w.written.same_encryptor)
          (v.others (tree_path crates.hex snapshot.tree) apart ∙ w.written.stored),
      w.same,
    )
