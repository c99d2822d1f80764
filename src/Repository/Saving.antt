-- ===== src/Repository/Saving.antt =====
-- `save_pack` and `delete_pack` keep the repository coherent, and what is saved is loaded.
use ghostsnap.Prelude.{
  String, ◌^◌, ◌<◌, ◌≡◌, ◌≢◌, refl, ap, ◌==◌, string_eq, none, length, arith, Bool-cases, inl, inr,
}
use mathlib.Core.Path.{subst}
use ghostsnap.Errors.{Result, ok, err, panic}
use ghostsnap.Action.{resume, resume-eq-ok, modify}
use ghostsnap.Foreign.{Bytes, Zlib}
use ghostsnap.Crypto.{Encryptor}
use ghostsnap.Types.{ChunkId, PackId}
use ghostsnap.Index
use ghostsnap.Pack
use ghostsnap.Pack.{PackFile}
use ghostsnap.Pack.Encoding.{
  Nonces, AreNonces, to_encrypted_bytes, from_encrypted_bytes-to_encrypted_bytes,
}
use ghostsnap.Storage.{pack_path, pack_path_injective}
use ghostsnap.Repository.{
  Crates, Repository, encryptor_of, invalidate, save_pack, delete_pack, write_object, delete_object,
  index_pack, unindex_pack, pack_info,
}
use ghostsnap.Repository.Coherence.{IsCoherent, stored_pack}

-- An answer that a reader of chunks cannot tell from the pack.
pub record IsReadBack (zlib : Zlib) (p : PackFile) (answer : Result PackFile) : Type 0 where
  pub pack : PackFile
  pub is : answer ≡ ok pack
  pub chunks : (k : ChunkId) → Pack.get_chunk zlib k pack ≡ Pack.get_chunk zlib k p

module _ {S C F : Type 0} (crates : Crates S C) where
  -- After `cache.pop(pack_id)` and a change of the storage at that pack's path only, the cache is right.
  pub popped-IsCoherent :
      (pack_id : PackId) (r : Repository S C F) (changed : S)
      → ((path : String)
          → pack_path pack_id ≢ path
          → crates.store.read path changed ≡ crates.store.read path r.storage)
      → IsCoherent crates r
      → IsCoherent crates (record (invalidate crates pack_id r) { storage = changed })
  unfolding invalidate encryptor_of
  popped-IsCoherent pack_id r changed others v = record {
    cached = λ j q e. elim (Bool-cases (pack_id == j)) [
      | inl same ↦
          let is : pack_id ≡ j = ground (arith, string_eq.beq_iff pack_id j) in
          let gone =
            subst (λ k. crates.lru.peek k (crates.lru.pop pack_id r.pack_cache).1 ≡ none) is
              (crates.lru.peek-pop_self pack_id r.pack_cache) in
          absurd (cc)
      | inr other ↦
          let apart : pack_path pack_id ≢ pack_path j = λ is.
            let is' = pack_path_injective pack_id j is in
            ground (arith, string_eq.beq_iff pack_id j, is') in
          rw (others (pack_path j) apart)
            (v.cached j q (crates.lru.peek-pop_other pack_id j q r.pack_cache e))
    ];
  }

  unindexed-IsCoherent :
      (pack_id : PackId) (outcome : Result Unit) (r : Repository S C F)
      → IsCoherent crates r
      → IsCoherent crates (resume (outcome, r) (λ deleted. modify (unindex_pack pack_id))).1
  unfolding unindex_pack encryptor_of
  unindexed-IsCoherent pack_id panic r v = v
  unindexed-IsCoherent pack_id (err failure) r v = v
  unindexed-IsCoherent pack_id (ok u) r v = record { cached = v.cached }

  -- `delete_pack` keeps a repository coherent, whether or not the deletion succeeds.
  pub delete_pack-IsCoherent :
      (pack_id : PackId) (r : Repository S C F)
      → IsCoherent crates r
      → IsCoherent crates (delete_pack crates pack_id r).1
  unfolding delete_pack delete_object invalidate
  delete_pack-IsCoherent pack_id r v =
      let done = crates.store.delete (pack_path pack_id) r.storage in
      unindexed-IsCoherent pack_id done.0 _ (
        popped-IsCoherent pack_id r done.1
          (λ path. crates.store.read-delete_other (pack_path pack_id) path r.storage) v)

  pub record IsSaved (nonces : Nonces) (p : PackFile) (r saved : Repository S C F) : Type 0 where
    pub coherent : IsCoherent crates saved
    pub encryptor : Encryptor
    pub unlocked : encryptor_of r ≡ ok encryptor
    pub same_encryptor : saved.encryptor ≡ r.encryptor
    pub bytes : Bytes
    pub made :
        to_encrypted_bytes crates.cipher crates.hasher crates.hex crates.headers crates.tables
          encryptor nonces p
        ≡ ok bytes
    pub stored : crates.store.read (pack_path p.header.pack_id) saved.storage ≡ ok bytes
    pub index : saved.index ≡ Index.add_pack (pack_info p) r.index

  pub save_pack-IsSaved :
      (nonces : Nonces) (p : PackFile) (r saved : Repository S C F)
      → IsCoherent crates r
      → save_pack crates nonces p r ≡ (ok tt, saved)
      → IsSaved nonces p r saved
  unfolding save_pack write_object invalidate index_pack encryptor_of
  save_pack-IsSaved nonces p r saved v h =
      let path = pack_path p.header.pack_id in
      let (encryptor, unlocked, h₀) = resume-eq-ok (encryptor_of r) r _ h in
      let (bytes, made, h₁) =
        resume-eq-ok
          (to_encrypted_bytes crates.cipher crates.hasher crates.hex crates.headers crates.tables
            encryptor nonces p)
          r _ h₀ in
      let done = crates.store.write path bytes r.storage in
      let (u, written, h₂) = resume-eq-ok done.0 (record r { storage = done.1 }) _ h₁ in
      let left =
        index_pack p (invalidate crates p.header.pack_id (record r { storage = done.1 })) in
      let is : left ≡ saved = ap (λ run. run.1) h₂ in
      subst (IsSaved nonces p r) is (record {
        coherent = record {
          cached =
              (popped-IsCoherent p.header.pack_id r done.1
                (λ other. crates.store.read-write_other path other bytes r.storage) v).cached;
        };
        encryptor = encryptor;
        unlocked = unlocked;
        same_encryptor = refl;
        bytes = bytes;
        made = made;
        stored = crates.store.read-write_same path bytes r.storage written;
        index = refl;
      })

  pub stored_pack-IsReadBack :
      (nonces : Nonces) (p : PackFile) (r saved : Repository S C F)
      → AreNonces nonces
      → (w : IsSaved nonces p r saved) → length w.bytes < 2 ^ 32
      → IsReadBack crates.zlib p (stored_pack crates p.header.pack_id saved)
  unfolding encryptor_of
  stored_pack-IsReadBack nonces p r saved n w small =
      let (q, read, header, table, content, same) =
        from_encrypted_bytes-to_encrypted_bytes crates.cipher crates.hasher crates.hex
          crates.headers crates.tables crates.zlib w.encryptor nonces p w.bytes n w.made small in
      record { pack = q; is = rw (w.same_encryptor, w.unlocked, w.stored) read; chunks = same }
