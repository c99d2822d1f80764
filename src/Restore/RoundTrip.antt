-- ===== src/Restore/RoundTrip.antt =====
-- What is restored of a file that was backed up.
use ghostsnap.Prelude.{◌≡◌, refl, sym, ap, ◌∙◌, some, List, [], ◌∷◌, ◌++◌, append_nil, ℕ}
use mathlib.Core.List.{append_assoc}
use ghostsnap.Errors.{Result, ok, err, panic}
use ghostsnap.Action.{resume, lift}
use ghostsnap.Foreign.{Bytes}
use ghostsnap.Types.{ChunkId, ChunkRef, PackId}
use ghostsnap.Index
use ghostsnap.Index.{Bloom, ChunkLocation}
use ghostsnap.Pack
use ghostsnap.Pack.{PackFile}
use ghostsnap.Pack.Encoding.{Nonces}
use ghostsnap.Pack.Manager.{PackManager}
use ghostsnap.Repository.{
  Crates, Repository, encryptor_of, load_chunk, load_chunk_location, load_pack,
}
use ghostsnap.Repository.Coherence.{IsCoherent, IsLoad, stored_pack, load_pack-IsLoad}
use ghostsnap.Repository.Untouched.{chunk_at, load_chunk-some}
use ghostsnap.Chunker
use ghostsnap.Chunker.{Chunk, Chunker, FastCdc, chunk_data, concat, concat-chunk_data}
use ghostsnap.Backup.{refs_of, process_file, refs-process_file}
use ghostsnap.Restore.{read_chunks}

module _ {S C F : Type 0} ⦃b : Bloom F⦄ (crates : Crates S C) where
  -- The repository holds the chunk: the index places it in a pack that has it.
  pub record Holds (r : Repository S C F) (c : Chunk) : Type 0 where
    pub location : ChunkLocation
    pub found : Index.get_chunk (Chunker.id crates.hasher c) r.index ≡ some location
    pub content : chunk_at crates location (Chunker.id crates.hasher c) r ≡ ok c.bytes

  abbrev pub HoldsAll : Repository S C F → List Chunk → Type 0
  HoldsAll r [] = Unit
  HoldsAll r (c ∷ cs) = Holds r c × HoldsAll r cs

  stored_pack-IsLoad :
      (id p : PackId) (r : Repository S C F) (run : Result PackFile × Repository S C F)
      → IsLoad crates id r run
      → stored_pack crates p run.1 ≡ stored_pack crates p r
  unfolding encryptor_of
  stored_pack-IsLoad id p r run load = rw (load.storage, load.encryptor) refl

  Holds-IsLoad :
      (id : PackId) (c : Chunk) (r : Repository S C F) (run : Result PackFile × Repository S C F)
      → IsLoad crates id r run
      → Holds r c
      → Holds run.1 c
  Holds-IsLoad id c r run load h = record {
    location = h.location;
    found = ap (λ i. Index.get_chunk (Chunker.id crates.hasher c) i) load.index ∙ h.found;
    content = rw (stored_pack-IsLoad id h.location.pack_id r run load) h.content;
  }

  HoldsAll-IsLoad :
      (id : PackId) (cs : List Chunk) (r : Repository S C F)
      (run : Result PackFile × Repository S C F)
      → IsLoad crates id r run
      → HoldsAll r cs
      → HoldsAll run.1 cs
  HoldsAll-IsLoad id [] r run load h = tt
  HoldsAll-IsLoad id (c ∷ cs) r run load h =
      (Holds-IsLoad id c r run load h.0, HoldsAll-IsLoad id cs r run load h.1)

  loaded_state :
      (k : ChunkId) (run : Result PackFile × Repository S C F)
      → (resume run (λ pack. lift (Pack.get_chunk crates.zlib k pack))).1 ≡ run.1
  loaded_state k (panic, r) = refl
  loaded_state k (err failure, r) = refl
  loaded_state k (ok pack, r) = refl

  load_chunk-state :
      (k : ChunkId) (location : ChunkLocation) (r : Repository S C F)
      → Index.get_chunk k r.index ≡ some location
      → (load_chunk crates k r).1 ≡ (load_pack crates location.pack_id r).1
  unfolding load_chunk load_chunk_location
  load_chunk-state k location r found =
      rw found (loaded_state k (load_pack crates location.pack_id r))

  read_chunks-HoldsAll :
      (cs : List Chunk) (before : Bytes) (r : Repository S C F)
      → IsCoherent crates r
      → HoldsAll r cs
      → (read_chunks crates (refs_of crates.hasher cs) before r).0 ≡ ok (before ++ concat cs)
  unfolding read_chunks
  read_chunks-HoldsAll [] before r v h = ap ok (sym (append_nil before))
  read_chunks-HoldsAll (c ∷ cs) before r v h =
      let k = Chunker.id crates.hasher c in
      let loaded = load_chunk crates k r in
      let load = load_pack-IsLoad crates h.0.location.pack_id r v in
      let answer : loaded.0 ≡ ok c.bytes =
        load_chunk-some crates k h.0.location r v h.0.found ∙ h.0.content in
      let state : loaded.1 ≡ (load_pack crates h.0.location.pack_id r).1 =
        load_chunk-state k h.0.location r h.0.found in
      let rest =
        read_chunks-HoldsAll cs (before ++ c.bytes) (load_pack crates h.0.location.pack_id r).1
          load.coherent (HoldsAll-IsLoad h.0.location.pack_id cs r _ load h.1) in
      let both : loaded ≡ (ok c.bytes, (load_pack crates h.0.location.pack_id r).1) =
        λ t. (answer t, state t) in
      ap
        (λ run.
          (resume run
            (λ chunk_data. read_chunks crates (refs_of crates.hasher cs) (before ++ chunk_data))).0)
        both
      ∙ rest
      ∙ ap ok (append_assoc before c.bytes (concat cs))

  -- When the content of a file has been processed by a backup with success, then from any coherent
  -- repository that holds its chunks, reading back the references gives the content.
  pub read_chunks-process_file :
      (draw : PackId → Nonces) (stamp : ℕ → PackId × ℕ) (fastcdc : FastCdc) (chunker : Chunker)
      (bytes : Bytes) (result : List ChunkRef × ℕ × ℕ) (s s' : Repository S C F × PackManager)
      (r : Repository S C F)
      → process_file crates draw stamp fastcdc chunker bytes s ≡ (ok result, s')
      → IsCoherent crates r
      → ((chunks : List Chunk) → chunk_data fastcdc chunker bytes ≡ ok chunks → HoldsAll r chunks)
      → (read_chunks crates result.0 [] r).0 ≡ ok bytes
  read_chunks-process_file draw stamp fastcdc chunker bytes result s s' r h v holds =
      let (chunks, made, refs) =
        refs-process_file crates draw stamp fastcdc chunker bytes result s s' h in
      let whole = concat-chunk_data fastcdc chunker bytes chunks made in
      ap (λ rs. (read_chunks crates rs [] r).0) refs
      ∙ read_chunks-HoldsAll chunks [] r v (holds chunks made)
      ∙ ap ok whole
