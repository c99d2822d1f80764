-- ===== src/Job/Pruning/Safety.antt =====
-- What a run of `run_prune` leaves as it was.
use ghostsnap.Prelude.{
  ℕ, ◌≡◌, ◌≢◌, refl, ap, sym, ◌∙◌, String, true, false, string_eq, list_eq, some, List, [], ◌∷◌,
  arith, contains,
}
use mathlib.Core.Path.{subst}
use ghostsnap.Errors.{ok}
use ghostsnap.Action.{◌>>=◌, resume-eq-ok}
use ghostsnap.Foreign.{Bytes}
use ghostsnap.Types.{ChunkId, PackId, SnapshotId}
use ghostsnap.Index
use ghostsnap.Index.{Bloom, ChunkLocation}
use ghostsnap.Snapshot.{Snapshot, Tree}
use ghostsnap.Snapshot.Encoding.{Json, JsonTree}
use ghostsnap.Repository.{Crates, Repository, delete_pack, save_index, load_chunk}
use ghostsnap.Repository.Objects.{list_packs, list_snapshots, load_snapshot, load_tree}
use ghostsnap.Repository.Reading.{list_snapshots-state, list_packs-state}
use ghostsnap.Repository.Coherence.{IsCoherent}
use ghostsnap.Repository.Saving.{delete_pack-IsCoherent}
use ghostsnap.Repository.Untouched.{
  IsUntouched, IsUntouched-refl, IsUntouched-trans, delete_pack-IsUntouched, delete_pack-get_chunk,
  save_index-IsUntouched, load_chunk-IsUntouched,
}
use ghostsnap.Job.Pruning.{find_prunable, delete_all, finish_prune, run_prune, collect_referenced}
use ghostsnap.Job.Pruning.Collecting.{
  uses_chunk, collect_referenced-state, collect_referenced-uses_chunk,
}
use ghostsnap.Job.Pruning.Searching.{
  has_referenced-lookup, get_chunk-lookup, ok-eq, find_prunable-IsFound,
}

module _ {S C F : Type 0} ⦃b : Bloom F⦄ (crates : Crates S C) where
  pub delete_all-IsUntouched :
      (p : PackId) (ids : List PackId) (r r' : Repository S C F)
      → contains p ids ≡ false
      → IsCoherent crates r
      → delete_all crates ids r ≡ (ok tt, r')
      → IsUntouched crates p r r'
  unfolding delete_all
  delete_all-IsUntouched p [] r r' absent v h =
      subst (IsUntouched crates p r) (ap (λ run. run.1) h) (IsUntouched-refl crates p r v)
  delete_all-IsUntouched p (id ∷ ids) r r' absent v h =
      let first = delete_pack crates id r in
      let (u, is, rest) = resume-eq-ok first.0 first.1 _ h in
      let apart : id ≢ p = λ same. ground (arith, absent, same, string_eq.beq_iff id p) in
      let absent' : contains p ids ≡ false = ground (arith, absent) in
      let step = delete_pack-IsUntouched crates p id r apart v in
      IsUntouched-trans crates p r first.1 r' step
        (delete_all-IsUntouched p ids first.1 r' absent' step.coherent rest)

  -- The deletions and the save that end a prune.
  deletions-IsUntouched :
      (p : PackId) (nonce : Bytes) (found : List PackId × ℕ) (result : ℕ × ℕ)
      (r r' : Repository S C F)
      → contains p found.0 ≡ false
      → IsCoherent crates r
      → finish_prune crates nonce found r ≡ (ok result, r')
      → IsUntouched crates p r r'
  unfolding finish_prune
  deletions-IsUntouched p nonce found result r r' absent v h =
      let deleted = delete_all crates found.0 r in
      let (u, all, h₀) = resume-eq-ok deleted.0 deleted.1 _ h in
      let saved = save_index crates nonce deleted.1 in
      let (u', written, h₁) = resume-eq-ok saved.0 saved.1 _ h₀ in
      let gone =
        delete_all-IsUntouched p found.0 r deleted.1 absent v (ap (λ o. (o, deleted.1)) all) in
      let kept =
        save_index-IsUntouched crates p nonce deleted.1 saved.1 gone.coherent
          (ap (λ o. (o, saved.1)) written) in
      subst (IsUntouched crates p r) (ap (λ run. run.1) h₁)
        (IsUntouched-trans crates p r deleted.1 saved.1 gone kept)

  -- From the search of the packs on.
  load_chunk-find_and_finish :
      (nonce : Bytes) (k : ChunkId) (location : ChunkLocation) (referenced : List ChunkId)
      (packs : List PackId) (result : ℕ × ℕ) (r r' : Repository S C F)
      → IsCoherent crates r
      → contains k referenced ≡ true
      → Index.get_chunk k r.index ≡ some location
      → (find_prunable crates referenced packs ([], 0) >>= finish_prune crates nonce) r
        ≡ (ok result, r')
      → (load_chunk crates k r').0 ≡ (load_chunk crates k r).0
  load_chunk-find_and_finish nonce k location referenced packs result r r' v used found h =
      let searched = find_prunable crates referenced packs ([], 0) r in
      let (prunable, is, h₀) = resume-eq-ok searched.0 searched.1 _ h in
      let keep =
        has_referenced-lookup k referenced r.index.chunks location used
          (get_chunk-lookup k location r.index found) in
      let search =
        find_prunable-IsFound crates referenced location.pack_id packs ([], 0) prunable r searched.1
          keep (ap (λ o. (o, searched.1)) is) in
      let v' : IsCoherent crates searched.1 = subst (IsCoherent crates) search.same v in
      let untouched =
        deletions-IsUntouched location.pack_id nonce prunable result searched.1 r'
          (search.spared refl) v' h₀ in
      let found' : Index.get_chunk k searched.1.index ≡ some location =
        subst (λ s. Index.get_chunk k s.index ≡ some location) search.same found in
      load_chunk-IsUntouched crates k location searched.1 r' v' found' untouched
      ∙ ap (λ s. (load_chunk crates k s).0) (sym search.same)

  -- In a coherent repository, where a snapshot is listed that can be read, and its tree too, and a node of
  -- the tree refers to a chunk that the index places in a pack: a run of the job's prune that succeeds
  -- leaves what `load_chunk` answers for that chunk as it was.
  pub load_chunk-run_prune :
      (snapshots : Json Snapshot) (trees : JsonTree) (sort : List String → List String)
      (nonce : Bytes) (ids : List SnapshotId) (id : SnapshotId) (snapshot : Snapshot) (tree : Tree)
      (k : ChunkId) (location : ChunkLocation) (result : ℕ × ℕ) (r r' : Repository S C F)
      → IsCoherent crates r
      → (list_snapshots crates sort r).0 ≡ ok ids
      → contains id ids ≡ true
      → (load_snapshot crates snapshots id r).0 ≡ ok snapshot
      → (load_tree crates trees snapshot.tree r).0 ≡ ok tree
      → uses_chunk k tree.nodes ≡ true
      → Index.get_chunk k r.index ≡ some location
      → run_prune crates snapshots trees sort nonce r ≡ (ok result, r')
      → (load_chunk crates k r').0 ≡ (load_chunk crates k r).0
  unfolding run_prune
  load_chunk-run_prune snapshots trees sort nonce ids id snapshot tree k location result r r' v
        listing within read opened used found h =
      let named = list_snapshots crates sort r in
      let (ids', is, h₀) = resume-eq-ok named.0 named.1 _ h in
      let same = list_snapshots-state crates sort ids' r named.1 (ap (λ o. (o, named.1)) is) in
      let collected = collect_referenced crates snapshots trees ids' [] named.1 in
      let (referenced, is', h₁) = resume-eq-ok collected.0 collected.1 _ h₀ in
      let gathered : collect_referenced crates snapshots trees ids' [] r
          ≡ (ok referenced, collected.1) =
        subst
          (λ s. collect_referenced crates snapshots trees ids' [] s ≡ (ok referenced, collected.1))
          (sym same) (ap (λ o. (o, collected.1)) is') in
      let within' : contains id ids' ≡ true =
        subst (λ names. contains id names ≡ true) (ok-eq (sym listing ∙ is)) within in
      let used' =
        collect_referenced-uses_chunk crates snapshots trees k id snapshot tree ids' [] referenced r
          collected.1 within' read opened used gathered in
      let same' =
        collect_referenced-state crates snapshots trees ids' [] referenced r collected.1 gathered in
      let listed = list_packs crates collected.1 in
      let (packs, is'', h₂) = resume-eq-ok listed.0 listed.1 _ h₁ in
      let start =
        same' ∙ list_packs-state crates packs collected.1 listed.1 (ap (λ o. (o, listed.1)) is'') in
      subst (λ s. (load_chunk crates k r').0 ≡ (load_chunk crates k s).0) (sym start)
        (load_chunk-find_and_finish nonce k location referenced packs result listed.1 r'
          (subst (IsCoherent crates) start v) used'
          (subst (λ s. Index.get_chunk k s.index ≡ some location) start found) h₂)

  delete_all-get_chunk :
      (k : ChunkId) (ids : List PackId) (r r' : Repository S C F)
      → IsCoherent crates r
      → delete_all crates ids r ≡ (ok tt, r')
      → IsCoherent crates r' × (Index.get_chunk k r'.index ≡ Index.get_chunk k r.index)
  unfolding delete_all
  delete_all-get_chunk k [] r r' v h =
      let is = ap (λ run. run.1) h in
      (subst (IsCoherent crates) is v, ap (λ s. Index.get_chunk k s.index) (sym is))
  delete_all-get_chunk k (id ∷ ids) r r' v h =
      let first = delete_pack crates id r in
      let (u, is, rest) = resume-eq-ok first.0 first.1 _ h in
      let (v', others) =
        delete_all-get_chunk k ids first.1 r' (delete_pack-IsCoherent crates id r v) rest in
      (v', others ∙ delete_pack-get_chunk crates k id r)

  -- In a coherent repository, whatever packs a prune has found, if it deletes them and saves the index with
  -- success, then for every chunk, those of the deleted packs included, `get_chunk` of the index answers
  -- as before: no chunk is taken from the index with its pack.
  pub get_chunk-finish_prune :
      (k : ChunkId) (nonce : Bytes) (found : List PackId × ℕ) (result : ℕ × ℕ)
      (r r' : Repository S C F)
      → IsCoherent crates r
      → finish_prune crates nonce found r ≡ (ok result, r')
      → Index.get_chunk k r'.index ≡ Index.get_chunk k r.index
  unfolding finish_prune
  get_chunk-finish_prune k nonce found result r r' v h =
      let deleted = delete_all crates found.0 r in
      let (u, all, h₀) = resume-eq-ok deleted.0 deleted.1 _ h in
      let saved = save_index crates nonce deleted.1 in
      let (u', written, h₁) = resume-eq-ok saved.0 saved.1 _ h₀ in
      let (v', same) =
        delete_all-get_chunk k found.0 r deleted.1 v (ap (λ o. (o, deleted.1)) all) in
      let kept =
        save_index-IsUntouched crates "" nonce deleted.1 saved.1 v'
          (ap (λ o. (o, saved.1)) written) in
      ap (λ run. Index.get_chunk k run.1.index) (sym h₁) ∙ kept.found k ∙ same
