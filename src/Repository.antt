-- ===== src/Repository.antt =====
-- core/src/repository.rs: packs and chunks through the index, the pack cache and the storage. The locks of
-- the shared fields are held for one step each; a method runs alone here. The pack cache is that of PackCache.antt.
pub mod Coherence
pub mod Saving
pub mod History
pub mod Objects
pub mod Garbage
pub mod Reading
pub mod Untouched
pub mod Verify
pub mod Opening
use ghostsnap.Prelude.{
  ℕ, zero, suc, String, ◌+◌, ◌-◌, ◌%◌, ◌^◌, ◌≡◌, ◌≢◌, Bool, true, false, not, ◌&&◌, Option, none,
  some, List, ltb, nat_beq, if◌then◌else◌,
}
use ghostsnap.Errors.{Error, Result, ok, err, ok_or}
use ghostsnap.Action.{Action, ◌>>=◌, pure, lift, ask, modify}
use ghostsnap.Foreign.{Bytes, Cipher, Hasher, Hex, Zlib}
use ghostsnap.Crypto.{Encryptor}
use ghostsnap.Types.{ChunkId, PackId, to_hex}
use ghostsnap.Index
use ghostsnap.Index.{Index, Bloom, ChunkLocation, PackInfo}
use ghostsnap.Index.Encoding as Encoded
use ghostsnap.Index.Encoding.{IndexCodec}
use ghostsnap.Pack
use ghostsnap.Pack.{PackFile}
use ghostsnap.Pack.Encoding.{
  HeaderCodec, ChunksCodec, Nonces, to_encrypted_bytes, from_encrypted_bytes,
}
use ghostsnap.PackCache.{LruCache, evict}
use ghostsnap.Storage.{RepositoryStorage, pack_path}

-- The crates and the storage that a repository uses.
pub record Crates (S C : Type 0) : Type 0 where
  pub cipher : Cipher
  pub hasher : Hasher
  pub hex : Hex
  pub zlib : Zlib
  pub headers : HeaderCodec
  pub tables : ChunksCodec
  pub indexes : IndexCodec
  pub store : RepositoryStorage S
  pub lru : LruCache C

pub record Repository (S C F : Type 0) : Type 0 where
  pub storage : S
  pub encryptor : Option Encryptor
  pub index : Index F
  pub pack_cache : C
  pub pack_cache_size : ℕ
  pub max_cache_size : ℕ

-- The size that is left after a pack went, if one did: `saturating_sub`.
abbrev pub size_without : Option PackFile → ℕ → ℕ
size_without none cache_size = cache_size
size_without (some p) cache_size = cache_size - Pack.size p

abbrev pub pack_info : PackFile → PackInfo
pack_info p = record {
  id = p.header.pack_id;
  size = p.header.compressed_size;
  chunk_count = p.header.chunk_count;
}

module _ {S C F : Type 0} where
  -- `Repository::encryptor`
  unfoldable pub encryptor_of : Repository S C F → Result Encryptor
  encryptor_of r = ok_or r.encryptor (Error.other "Repository not unlocked")

  unfoldable pub index_pack : PackFile → Repository S C F → Repository S C F
  index_pack p r = record r { index = Index.add_pack (pack_info p) r.index }

  unfoldable pub unindex_pack : PackId → Repository S C F → Repository S C F
  unindex_pack pack_id r = record r { index = (Index.remove_pack pack_id r.index).0 }

module _ {S C F : Type 0} (crates : Crates S C) where
  -- `cache.pop(pack_id)` and the size that goes with it.
  unfoldable pub invalidate : PackId → Repository S C F → Repository S C F
  invalidate pack_id r =
      let popped = crates.lru.pop pack_id r.pack_cache in
      record r { pack_cache = popped.1; pack_cache_size = size_without popped.0 r.pack_cache_size }

  -- What `load_pack` does with a pack it has read. As many rounds as the cache has entries empty it.
  unfoldable pub cache_pack : PackId → PackFile → Repository S C F → Repository S C F
  unfolding evict
  cache_pack pack_id pack r =
      let rounds = crates.lru.len r.pack_cache in
      let kept =
        evict crates.lru r.max_cache_size (Pack.size pack) rounds r.pack_cache r.pack_cache_size in
      record r {
        pack_cache = crates.lru.put pack_id pack kept.0;
        pack_cache_size = (kept.1 + Pack.size pack) % 2 ^ 64;
      }

  -- `cache.get(pack_id)`
  unfoldable pub cache_get : PackId → Action (Repository S C F) (Option PackFile)
  cache_get pack_id r =
      let found = crates.lru.get pack_id r.pack_cache in
      (ok found.0, record r { pack_cache = found.1 })

  unfoldable pub write_object : String → Bytes → Action (Repository S C F) Unit
  write_object path bytes r =
      let done = crates.store.write path bytes r.storage in (done.0, record r { storage = done.1 })

  unfoldable pub delete_object : String → Action (Repository S C F) Unit
  delete_object path r =
      let done = crates.store.delete path r.storage in (done.0, record r { storage = done.1 })

  unfoldable pub load_missing : PackId → Option PackFile → Action (Repository S C F) PackFile
  unfolding encryptor_of cache_pack
  load_missing pack_id (some pack) = pure pack
  load_missing pack_id none = do
    encryptor ← ask encryptor_of
    bytes ← ask (λ r. crates.store.read (pack_path pack_id) r.storage)
    pack ← lift (
        from_encrypted_bytes crates.cipher crates.hasher crates.hex crates.headers crates.tables
          encryptor bytes)
    done ← modify (cache_pack pack_id pack)
    pure pack

  unfoldable pub load_pack : PackId → Action (Repository S C F) PackFile
  unfolding cache_get load_missing
  load_pack pack_id = do hit ← cache_get pack_id; load_missing pack_id hit

module _ {S C F : Type 0} (crates : Crates S C) where
  unfoldable pub save_pack : Nonces → PackFile → Action (Repository S C F) Unit
  unfolding encryptor_of write_object invalidate index_pack
  save_pack nonces p = do
    encryptor ← ask encryptor_of
    bytes ← lift (
        to_encrypted_bytes crates.cipher crates.hasher crates.hex crates.headers crates.tables
          encryptor nonces p)
    written ← write_object crates (pack_path p.header.pack_id) bytes
    dropped ← modify (invalidate crates p.header.pack_id)
    modify (index_pack p)

  unfoldable pub delete_pack : PackId → Action (Repository S C F) Unit
  unfolding invalidate delete_object unindex_pack
  delete_pack pack_id = do
    dropped ← modify (invalidate crates pack_id)
    deleted ← delete_object crates (pack_path pack_id)
    modify (unindex_pack pack_id)

module _ {S C F : Type 0} ⦃b : Bloom F⦄ where
  unfoldable pub has_chunk : ChunkId → Action (Repository S C F) Bool
  has_chunk chunk_id = ask (λ r. ok (Index.has_chunk chunk_id r.index))

  unfoldable pub save_chunk_location : ChunkId → PackId → ℕ → ℕ → Action (Repository S C F) Unit
  save_chunk_location chunk_id pack_id offset length = modify (λ r. record r {
    index =
        Index.add_chunk chunk_id (record { pack_id = pack_id; offset = offset; length = length })
          r.index;
  })

module _ {S C F : Type 0} ⦃b : Bloom F⦄ (crates : Crates S C) where
  unfoldable pub load_chunk_location : ChunkId → Action (Repository S C F) ChunkLocation
  load_chunk_location chunk_id = ask (λ r.
      ok_or (Index.get_chunk chunk_id r.index) (Error.chunk_not_found (to_hex crates.hex chunk_id)))

  unfoldable pub load_chunk : ChunkId → Action (Repository S C F) Bytes
  unfolding load_chunk_location load_pack
  load_chunk chunk_id = do
    location ← load_chunk_location chunk_id
    pack ← load_pack crates location.pack_id
    lift (Pack.get_chunk crates.zlib chunk_id pack)

module _ {S C F : Type 0} (crates : Crates S C) where
  unfoldable pub write_index : Bytes → Action (Repository S C F) Unit
  unfolding encryptor_of write_object
  write_index nonce = do
    encryptor ← ask encryptor_of
    encrypted ←
        ask (λ r. Encoded.to_encrypted_bytes crates.cipher crates.indexes encryptor nonce r.index)
    written ← write_object crates "index/main.idx" encrypted
    modify (λ r. record r { index = Index.mark_clean r.index })

  -- Only a repository that is unlocked and has a dirty index writes it.
  unfoldable pub save_index : Bytes → Action (Repository S C F) Unit
  unfolding encryptor_of write_index
  save_index nonce = do
    encryptor ← ask encryptor_of
    dirty ← ask (λ r. ok (Index.is_dirty r.index))
    if dirty then write_index nonce else pure tt

  unfoldable pub flush_index : Bytes → Action (Repository S C F) Unit
  unfolding write_index
  flush_index nonce = write_index nonce
