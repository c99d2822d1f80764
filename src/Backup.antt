-- ===== src/Backup.antt =====
-- cli/src/commands/backup.rs: how the content of one file is stored. The content is given; the state is the
-- repository with the pack manager. `draw` gives the nonces that a pack is saved under.
pub mod Holes
pub mod Scan
pub mod Links
use ghostsnap.Prelude.{
  ℕ, ◌+◌, ◌%◌, ◌^◌, ◌≡◌, sym, ap, ◌∙◌, Bool, true, false, Option, none, some, List, [], ◌∷◌, length,
  Map, if◌then◌else◌,
}
use ghostsnap.Errors.{Result, ok}
use ghostsnap.Action.{Action, ◌>>=◌, pure, lift, resume, resume-eq-ok}
use ghostsnap.Foreign.{Bytes, Hasher}
use ghostsnap.Types.{ChunkId, ChunkRef, PackId}
use ghostsnap.Index
use ghostsnap.Index.{Bloom}
use ghostsnap.Pack.{PackFile, PackedChunk}
use ghostsnap.Pack.Encoding.{Nonces}
use ghostsnap.Pack.Manager as Manager
use ghostsnap.Pack.Manager.{PackManager}
use ghostsnap.Repository.{Crates, Repository, has_chunk, save_pack, save_chunk_location}
use ghostsnap.Chunker
use ghostsnap.Chunker.{Chunk, Chunker, FastCdc, chunk_data}

-- What is pushed to the references of a file for one of its chunks.
abbrev pub ref_of : Hasher → Chunk → ChunkRef
ref_of hasher c = record { id = Chunker.id hasher c; offset = 0; length = length c.bytes % 2 ^ 32 }

abbrev pub refs_of : Hasher → List Chunk → List ChunkRef
refs_of hasher [] = []
refs_of hasher (c ∷ cs) = ref_of hasher c ∷ refs_of hasher cs

refs_eq : (x y : List ChunkRef × ℕ × ℕ) → ok x ≡ ok y → x.0 ≡ y.0
refs_eq x y h = cc

-- A step on the repository, beside the pack manager.
abbrev pub on_repository : {R M A : Type 0} → Action R A → Action (R × M) A
on_repository step s = let done = step s.0 in (done.0, (done.1, s.1))

-- `pack_manager.add_chunk(chunk_id, data)?`; where it fails the manager is abandoned.
abbrev pub on_packs :
    {R A : Type 0} → (PackManager → Result (PackManager × A)) → Action (R × PackManager) A
on_packs step s = resume (step s.1, s) (λ done t. (ok done.1, (t.0, done.0)))

module _ {S C F : Type 0} ⦃b : Bloom F⦄ (crates : Crates S C) (draw : PackId → Nonces) where
  -- `for (chunk_id, chunk_entry) in &pack.chunks`
  unfoldable pub save_locations : PackId → Map ChunkId PackedChunk → Action (Repository S C F) Unit
  unfolding save_chunk_location
  save_locations pack_id [] = pure tt
  save_locations pack_id ((id, entry) ∷ rest) = do
    saved ← save_chunk_location id pack_id entry.offset entry.length
    save_locations pack_id rest

  unfoldable pub save_pack_and_index : PackFile → Action (Repository S C F) Unit
  unfolding save_pack save_locations
  save_pack_and_index pack = do
    saved ← save_pack crates (draw pack.header.pack_id) pack
    save_locations pack.header.pack_id pack.chunks

  abbrev pub save_finished : Option PackFile → Action (Repository S C F) Unit
  save_finished none = pure tt
  save_finished (some pack) = save_pack_and_index pack

  module _ (stamp : ℕ → PackId × ℕ) where
    -- A chunk that the repository does not have goes to the packs, and a full pack is saved.
    unfoldable pub add_new : Bool → Chunk → Action (Repository S C F × PackManager) Unit
    unfolding Manager.add_chunk save_pack_and_index
    add_new true c = pure tt
    add_new false c = do
      finished ← on_packs (Manager.add_chunk crates.zlib stamp (Chunker.id crates.hasher c) c.bytes)
      on_repository (save_finished finished)

    -- The loop over the chunks: the references, and the counts of new and of known chunks.
    unfoldable pub process_chunks :
        List Chunk → ℕ → ℕ → Action (Repository S C F × PackManager) (List ChunkRef × ℕ × ℕ)
    unfolding has_chunk add_new
    process_chunks [] new_count dedup_count = pure ([], new_count, dedup_count)
    process_chunks (c ∷ cs) new_count dedup_count = do
      known ← on_repository (has_chunk (Chunker.id crates.hasher c))
      added ← add_new known c
      rest ←
          process_chunks cs (if known then new_count else (new_count + 1) % 2 ^ 64)
            (if known then (dedup_count + 1) % 2 ^ 64 else dedup_count)
      pure (ref_of crates.hasher c ∷ rest.0, rest.1, rest.2)

    -- `process_file_with_stats`, from the content on.
    unfoldable pub process_file :
        FastCdc → Chunker → Bytes → Action (Repository S C F × PackManager) (List ChunkRef × ℕ × ℕ)
    unfolding chunk_data process_chunks
    process_file fastcdc chunker file_data = do
      chunks ← lift (chunk_data fastcdc chunker file_data)
      process_chunks chunks 0 0

    refs-process_chunks :
        (cs : List Chunk) (n d : ℕ) (result : List ChunkRef × ℕ × ℕ)
        (s s' : Repository S C F × PackManager)
        → process_chunks cs n d s ≡ (ok result, s')
        → result.0 ≡ refs_of crates.hasher cs
    unfolding process_chunks
    refs-process_chunks [] n d result s s' h = cc
    refs-process_chunks (c ∷ cs) n d result s s' h =
        let k = Index.has_chunk (Chunker.id crates.hasher c) s.0.index in
        let added = add_new k c s in
        let (u, is', h₁) = resume-eq-ok added.0 added.1 _ h in
        let more =
          process_chunks cs (if k then n else (n + 1) % 2 ^ 64) (if k then (d + 1) % 2 ^ 64 else d)
            added.1 in
        let (rest, is'', h₂) = resume-eq-ok more.0 more.1 _ h₁ in
        let tail = refs-process_chunks cs _ _ rest added.1 more.1 (ap (λ o. (o, more.1)) is'') in
        let same : ref_of crates.hasher c ∷ rest.0 ≡ result.0 =
          refs_eq (ref_of crates.hasher c ∷ rest.0, rest.1, rest.2) result (ap (λ run. run.0) h₂) in
        sym same ∙ ap (λ refs. ref_of crates.hasher c ∷ refs) tail

    -- A file that was processed with success was cut into chunks, and has one reference for each of them,
    -- in their order, whichever of them the repository had.
    pub refs-process_file :
        (fastcdc : FastCdc) (chunker : Chunker) (bytes : Bytes) (result : List ChunkRef × ℕ × ℕ)
        (s s' : Repository S C F × PackManager)
        → process_file fastcdc chunker bytes s ≡ (ok result, s')
        → (chunks : List Chunk) × (chunk_data fastcdc chunker bytes ≡ ok chunks)
          × (result.0 ≡ refs_of crates.hasher chunks)
    unfolding process_file
    refs-process_file fastcdc chunker bytes result s s' h =
        let (chunks, made, rest) = resume-eq-ok (chunk_data fastcdc chunker bytes) s _ h in
        (chunks, made, refs-process_chunks chunks 0 0 result s s' rest)
