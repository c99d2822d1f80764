-- ===== src/Repository/Untouched.antt =====
-- What a deletion of other packs and a save of the index leave as it was: a pack, and what the index
-- says of chunks. `load_chunk` sees no more than that.
use ghostsnap.Prelude.{
  ◌≡◌, ◌≢◌, refl, sym, ap, ◌∙◌, some, string_eq, arith, Bool-cases, inl, inr, first_code,
  first_code-append,
}
use Prim.Native.String.{◌++◌}
use mathlib.Core.Path.{subst}
use ghostsnap.Errors
use ghostsnap.Errors.{Error, Result, ok, err, panic, ok_or, Result-cases}
use ghostsnap.Action.{resume, resume-eq-ok, modify, lift}
use ghostsnap.Foreign.{Bytes}
use ghostsnap.Types.{ChunkId, PackId}
use ghostsnap.Index
use ghostsnap.Index.{Bloom, ChunkLocation}
use ghostsnap.Index.Encoding as Encoded
use ghostsnap.Pack
use ghostsnap.Pack.{PackFile}
use ghostsnap.Storage.{pack_path, pack_path_injective}
use ghostsnap.Repository.{
  Crates, Repository, encryptor_of, invalidate, delete_object, write_object, unindex_pack,
  delete_pack, save_index, write_index, load_pack, load_chunk_location, load_chunk,
}
use ghostsnap.Repository.Coherence.{IsCoherent, stored_pack, load_pack-IsLoad}
use ghostsnap.Repository.Saving.{popped-IsCoherent}

index_path-ne-pack_path : (p : PackId) → "index/main.idx" ≢ pack_path p
unfolding pack_path
index_path-ne-pack_path p h =
    let start = first_code-append "d" "ata/" (p ++ ".pack") in
    let codes : 105 ≡ 100 = ap first_code h ∙ start in absurd (omega (arith, codes))

module _ {S C F : Type 0} ⦃b : Bloom F⦄ (crates : Crates S C) where
  pub record IsUntouched (p : PackId) (r r' : Repository S C F) : Type 0 where
    pub coherent : IsCoherent crates r'
    pub stored : stored_pack crates p r' ≡ stored_pack crates p r
    pub found : (k : ChunkId) → Index.get_chunk k r'.index ≡ Index.get_chunk k r.index

  pub IsUntouched-refl :
      (p : PackId) (r : Repository S C F) → IsCoherent crates r → IsUntouched p r r
  IsUntouched-refl p r v = record { coherent = v; stored = refl; found = λ k. refl }

  pub IsUntouched-trans :
      (p : PackId) (r s t : Repository S C F)
      → IsUntouched p r s
      → IsUntouched p s t
      → IsUntouched p r t
  IsUntouched-trans p r s t first second = record {
    coherent = second.coherent;
    stored = second.stored ∙ first.stored;
    found = λ k. second.found k ∙ first.found k;
  }

  unindexed-IsUntouched :
      (p id : PackId) (outcome : Result Unit) (r mid : Repository S C F)
      → IsUntouched p r mid
      → IsUntouched p r (resume (outcome, mid) (λ deleted. modify (unindex_pack id))).1
  unfolding unindex_pack Index.remove_pack Index.get_chunk encryptor_of
  unindexed-IsUntouched p id panic r mid h = h
  unindexed-IsUntouched p id (err failure) r mid h = h
  unindexed-IsUntouched p id (ok u) r mid h = record {
    coherent = record { cached = h.coherent.cached };
    stored = h.stored;
    found = h.found;
  }

  -- The deletion of another pack, also one that fails.
  pub delete_pack-IsUntouched :
      (p id : PackId) (r : Repository S C F)
      → id ≢ p
      → IsCoherent crates r
      → IsUntouched p r (delete_pack crates id r).1
  unfolding delete_pack delete_object invalidate encryptor_of Index.get_chunk
  delete_pack-IsUntouched p id r apart v =
      let done = crates.store.delete (pack_path id) r.storage in
      let other : pack_path id ≢ pack_path p = λ is. apart (pack_path_injective id p is) in
      let mid = record (invalidate crates id r) { storage = done.1 } in
      unindexed-IsUntouched p id done.0 r mid (record {
        coherent =
            popped-IsCoherent crates id r done.1
              (λ path. crates.store.read-delete_other (pack_path id) path r.storage) v;
        stored =
            rw (crates.store.read-delete_other (pack_path id) (pack_path p) r.storage other) refl;
        found = λ k. refl;
      })

  unindexed-get_chunk :
      (k : ChunkId) (id : PackId) (outcome : Result Unit) (mid : Repository S C F)
      → Index.get_chunk k (resume (outcome, mid) (λ deleted. modify (unindex_pack id))).1.index
        ≡ Index.get_chunk k mid.index
  unfolding unindex_pack Index.remove_pack Index.get_chunk
  unindexed-get_chunk k id panic mid = refl
  unindexed-get_chunk k id (err failure) mid = refl
  unindexed-get_chunk k id (ok u) mid = refl

  -- The deletion of a pack takes no chunk from the index.
  pub delete_pack-get_chunk :
      (k : ChunkId) (id : PackId) (r : Repository S C F)
      → Index.get_chunk k (delete_pack crates id r).1.index ≡ Index.get_chunk k r.index
  unfolding delete_pack delete_object invalidate
  delete_pack-get_chunk k id r = unindexed-get_chunk k id _ _

  -- A change of the storage that spares all packs.
  spared-IsUntouched :
      (p : PackId) (r : Repository S C F) (changed : S)
      → ((id : PackId)
          → crates.store.read (pack_path id) changed ≡ crates.store.read (pack_path id) r.storage)
      → IsCoherent crates r
      → IsUntouched p r (record r { storage = changed })
  unfolding encryptor_of Index.get_chunk
  spared-IsUntouched p r changed same v = record {
    coherent = record { cached = λ id q e. rw (same id) (v.cached id q e) };
    stored = rw (same p) refl;
    found = λ k. refl;
  }

  cleaned-IsUntouched :
      (p : PackId) (r mid : Repository S C F)
      → IsUntouched p r mid
      → IsUntouched p r (record mid { index = Index.mark_clean mid.index })
  unfolding encryptor_of Index.get_chunk Index.mark_clean
  cleaned-IsUntouched p r mid h = record {
    coherent = record { cached = h.coherent.cached };
    stored = h.stored;
    found = h.found;
  }

  write_index-IsUntouched :
      (p : PackId) (nonce : Bytes) (r saved : Repository S C F)
      → IsCoherent crates r
      → write_index crates nonce r ≡ (ok tt, saved)
      → IsUntouched p r saved
  unfolding write_index write_object
  write_index-IsUntouched p nonce r saved v h =
      let (encryptor, unlocked, h₀) = resume-eq-ok (encryptor_of r) r _ h in
      let (bytes, made, h₁) =
        resume-eq-ok
          (Encoded.to_encrypted_bytes crates.cipher crates.indexes encryptor nonce r.index) r _
          h₀ in
      let done = crates.store.write "index/main.idx" bytes r.storage in
      let (u, written, h₂) = resume-eq-ok done.0 (record r { storage = done.1 }) _ h₁ in
      let spared =
        spared-IsUntouched p r done.1
          (λ id.
            crates.store.read-write_other "index/main.idx" (pack_path id) bytes r.storage
              (index_path-ne-pack_path id))
          v in
      subst (IsUntouched p r) (ap (λ run. run.1) h₂) (cleaned-IsUntouched p r _ spared)

  pub save_index-IsUntouched :
      (p : PackId) (nonce : Bytes) (r saved : Repository S C F)
      → IsCoherent crates r
      → save_index crates nonce r ≡ (ok tt, saved)
      → IsUntouched p r saved
  unfolding save_index
  save_index-IsUntouched p nonce r saved v h =
      let (encryptor, unlocked, h₀) = resume-eq-ok (encryptor_of r) r _ h in
      elim (Bool-cases (Index.is_dirty r.index)) [
        | inl e ↦ write_index-IsUntouched p nonce r saved v (rw e at h₀)
        | inr e ↦ subst (IsUntouched p r) (ap (λ run. run.1) (rw e at h₀)) (IsUntouched-refl p r v)
      ]

  -- What `load_chunk` reads at a location.
  abbrev pub chunk_at : ChunkLocation → ChunkId → Repository S C F → Result Bytes
  chunk_at location k r =
      Errors.◌>>=◌ (stored_pack crates location.pack_id r) (Pack.get_chunk crates.zlib k)

  loaded_answer :
      (k : ChunkId) (run : Result PackFile × Repository S C F)
      → (resume run (λ pack. lift (Pack.get_chunk crates.zlib k pack))).0
        ≡ Errors.◌>>=◌ run.0 (Pack.get_chunk crates.zlib k)
  loaded_answer k (panic, r) = refl
  loaded_answer k (err failure, r) = refl
  loaded_answer k (ok pack, r) = refl

  pub load_chunk-some :
      (k : ChunkId) (location : ChunkLocation) (r : Repository S C F)
      → IsCoherent crates r
      → Index.get_chunk k r.index ≡ some location
      → (load_chunk crates k r).0 ≡ chunk_at location k r
  unfolding load_chunk load_chunk_location
  load_chunk-some k location r v found = rw found (
      loaded_answer k (load_pack crates location.pack_id r)
      ∙ ap (λ answer. Errors.◌>>=◌ answer (Pack.get_chunk crates.zlib k))
          (load_pack-IsLoad crates location.pack_id r v).answer)

  -- A chunk of a pack that is untouched is loaded as before.
  pub load_chunk-IsUntouched :
      (k : ChunkId) (location : ChunkLocation) (r r' : Repository S C F)
      → IsCoherent crates r
      → Index.get_chunk k r.index ≡ some location
      → IsUntouched location.pack_id r r'
      → (load_chunk crates k r').0 ≡ (load_chunk crates k r).0
  load_chunk-IsUntouched k location r r' v found h =
      load_chunk-some k location r' h.coherent (h.found k ∙ found)
      ∙ ap (λ answer. Errors.◌>>=◌ answer (Pack.get_chunk crates.zlib k)) h.stored
      ∙ sym (load_chunk-some k location r v found)
