-- ===== src/Repository/History.antt =====
-- Runs of the repository's methods on packs and chunks.
use ghostsnap.Prelude.{
  ℕ, ◌^◌, ◌<◌, ◌≡◌, refl, sym, ap, ◌∙◌, list_eq, some, List, [], ◌∷◌, length, arith, lookup-insert,
}
use mathlib.Core.Path.{subst}
use ghostsnap.Errors.{Result, ok, err, panic}
use ghostsnap.Action.{Action, resume, ◌>>=◌, resume-eq-ok, pure, lift}
use ghostsnap.Foreign.{Bytes}
use ghostsnap.Types.{ChunkId, PackId}
use ghostsnap.Index
use ghostsnap.Index.{Index, Bloom, ChunkLocation}
use ghostsnap.Pack
use ghostsnap.Pack.{PackFile}
use ghostsnap.Pack.Encoding.{Nonces, AreNonces}
use ghostsnap.Storage.{pack_path}
use ghostsnap.Repository.{
  Crates, Repository, encryptor_of, load_pack, save_pack, delete_pack, save_chunk_location,
  load_chunk_location, load_chunk,
}
use ghostsnap.Repository.Coherence.{IsCoherent, IsLoad, load_pack-IsLoad}
use ghostsnap.Repository.Saving.{save_pack-IsSaved, delete_pack-IsCoherent, stored_pack-IsReadBack}

pub data Method : Type 0 where
  load_method : PackId → Method
  save_method : Nonces → PackFile → Method
  delete_method : PackId → Method
  location_method : ChunkId → PackId → ℕ → ℕ → Method

resume-lift :
    {R A B : Type 0} (first : Result A) (s : R) (f : A → Result B) {a : A}
    → first ≡ ok a
    → (resume (first, s) (λ t. lift (f t))).0 ≡ f a
resume-lift panic s f h = cc
resume-lift (err failure) s f h = cc
resume-lift (ok a) s f h = cc

resume-pure :
    {R A : Type 0} (first : Result A) (s : R)
    → (resume (first, s) (λ t. pure {R = R} {A = Unit {0}} tt)).1 ≡ s
resume-pure panic s = refl
resume-pure (err failure) s = refl
resume-pure (ok a) s = refl

get_chunk-add_chunk :
    {F : Type 0} ⦃b : Bloom F⦄ (k : ChunkId) (loc : ChunkLocation) (i : Index F)
    → Index.get_chunk k (Index.add_chunk k loc i) ≡ some loc
unfolding Index.get_chunk Index.add_chunk
get_chunk-add_chunk ⦃b = b⦄ k loc i =
    ground (arith, b.check-set_self k i.bloom, lookup-insert k k loc i.chunks, list_eq.beq_iff k k)

module _ {S C F : Type 0} ⦃b : Bloom F⦄ (crates : Crates S C) where
  abbrev pub perform : Method → Action (Repository S C F) Unit
  perform (load_method id) = do pack ← load_pack crates id; pure tt
  perform (save_method nonces p) = save_pack crates nonces p
  perform (delete_method id) = delete_pack crates id
  perform (location_method chunk_id pack_id offset size) =
      save_chunk_location chunk_id pack_id offset size

  -- One after the other, up to the first failure.
  abbrev pub run : List Method → Action (Repository S C F) Unit
  run [] = pure tt
  run (m ∷ ms) = do done ← perform m; run ms

  located-IsCoherent :
      (chunk_id : ChunkId) (pack_id : PackId) (offset size : ℕ) (r : Repository S C F)
      → IsCoherent crates r
      → IsCoherent crates (save_chunk_location chunk_id pack_id offset size r).1
  unfolding save_chunk_location encryptor_of
  located-IsCoherent chunk_id pack_id offset size r v = record { cached = v.cached }

  perform-IsCoherent :
      (m : Method) (r : Repository S C F)
      → IsCoherent crates r
      → (perform m r).0 ≡ ok tt
      → IsCoherent crates (perform m r).1
  perform-IsCoherent (load_method id) r v h =
      subst (IsCoherent crates)
        (sym (resume-pure (load_pack crates id r).0 (load_pack crates id r).1))
        (load_pack-IsLoad crates id r v).coherent
  perform-IsCoherent (save_method nonces p) r v h =
      (save_pack-IsSaved crates nonces p r _ v
        (λ t. (h t, (save_pack crates nonces p r).1))).coherent
  perform-IsCoherent (delete_method id) r v h = delete_pack-IsCoherent crates id r v
  perform-IsCoherent (location_method chunk_id pack_id offset size) r v h =
      located-IsCoherent chunk_id pack_id offset size r v

  run-IsCoherent :
      (ms : List Method) (r last : Repository S C F)
      → IsCoherent crates r
      → run ms r ≡ (ok tt, last)
      → IsCoherent crates last
  run-IsCoherent [] r last v h = subst (IsCoherent crates) (ap (λ x. x.1) h) v
  run-IsCoherent (m ∷ ms) r last v h =
      let (u, done, rest) = resume-eq-ok (perform m r).0 (perform m r).1 (λ t. run ms) h in
      run-IsCoherent ms (perform m r).1 last (perform-IsCoherent m r v done) rest

  -- After a run of loads, saves, deletions and new locations that all succeed, from a repository whose cache
  -- holds stored packs only (an empty one does), `load_pack` answers for every id as the storage does.
  pub load_pack-run :
      (ms : List Method) (r last : Repository S C F)
      → IsCoherent crates r
      → run ms r ≡ (ok tt, last)
      → (id : PackId) → IsLoad crates id last (load_pack crates id last)
  load_pack-run ms r last v h id = load_pack-IsLoad crates id last (run-IsCoherent ms r last v h)

  -- In a coherent repository, when a pack has been saved with success in less than 2^32 bytes under
  -- 12-byte nonces, and a location in it has been given to a chunk, `load_chunk` answers for that chunk as
  -- `get_chunk` of the pack does.
  pub load_chunk-save_pack :
      (nonces : Nonces) (p : PackFile) (r saved : Repository S C F)
      → IsCoherent crates r
      → AreNonces nonces
      → save_pack crates nonces p r ≡ (ok tt, saved)
      → ((bytes : Bytes)
          → crates.store.read (pack_path p.header.pack_id) saved.storage ≡ ok bytes
          → length bytes < 2 ^ 32)
      → (chunk_id : ChunkId) (offset size : ℕ)
      → (load_chunk crates chunk_id
          (save_chunk_location chunk_id p.header.pack_id offset size saved).1).0
        ≡ Pack.get_chunk crates.zlib chunk_id p
  unfolding load_chunk load_chunk_location save_chunk_location encryptor_of
  load_chunk-save_pack nonces p r saved v n h small chunk_id offset size =
      let w = save_pack-IsSaved crates nonces p r saved v h in
      let location : ChunkLocation = record {
        pack_id = p.header.pack_id;
        offset = offset;
        length = size;
      } in
      let found = get_chunk-add_chunk chunk_id location saved.index in
      let located = (save_chunk_location chunk_id p.header.pack_id offset size saved).1 in
      let load =
        load_pack-IsLoad crates p.header.pack_id located
          (located-IsCoherent chunk_id p.header.pack_id offset size saved w.coherent) in
      let back = stored_pack-IsReadBack crates nonces p r saved n w (small w.bytes w.stored) in
      rw found (
        resume-lift (load_pack crates p.header.pack_id located).0
          (load_pack crates p.header.pack_id located).1 (Pack.get_chunk crates.zlib chunk_id)
          (load.answer ∙ back.is)
        ∙ back.chunks chunk_id)
