-- ===== src/Prune/Safety.antt =====
-- What the prune command leaves as it was.
use ghostsnap.Prelude.{
  ◌≡◌, ap, sym, ◌∙◌, String, Bool, true, false, some, List, [], ◌∷◌, ◌||◌, contains, length,
  nat_beq, Bool-cases, inl, inr, list_eq, string_eq,
}
use mathlib.Core.Path.{subst}
use ghostsnap.Errors
use ghostsnap.Errors.{Result, ok, err, panic}
use ghostsnap.Action.{resume, caught, resume-eq-ok}
use ghostsnap.Foreign.{Bytes}
use ghostsnap.Types.{ChunkId, PackId, SnapshotId}
use ghostsnap.Index
use ghostsnap.Index.{Bloom, ChunkLocation}
use ghostsnap.Pack
use ghostsnap.Snapshot.{Snapshot}
use ghostsnap.Snapshot.Encoding.{Json, JsonTree}
use ghostsnap.Repository.{Crates, Repository, encryptor_of, load_chunk}
use ghostsnap.Repository.Objects.{load_snapshot, load_tree, list_snapshots}
use ghostsnap.Repository.Garbage.{insert_nodes, collect_from, collect_used_chunks}
use ghostsnap.Repository.Reading.{list_snapshots-state, load_snapshot-state, load_tree-state}
use ghostsnap.Repository.Coherence.{IsCoherent, stored_pack}
use ghostsnap.Repository.Untouched.{save_index-IsUntouched, load_chunk-some}
use ghostsnap.Job.Pruning.{delete_all}
use ghostsnap.Job.Pruning.Searching.{get_chunk-lookup, ok-eq}
use ghostsnap.Job.Pruning.Safety.{delete_all-IsUntouched}
use ghostsnap.Prune.{
  orphaned_among, count_chunks, packs_to_delete, remove_all, prune_orphaned, prune_unreferenced,
  load_tree_of, insert_tree, scan_snapshots, run,
}
use ghostsnap.Prune.Orphans.{contains-orphaned_among, referenced-spared, get_chunk-remove_all}

module _ {S C F : Type 0} ⦃b : Bloom F⦄ (crates : Crates S C) where
  remove_all-IsCoherent :
      (ids : List ChunkId) (r : Repository S C F)
      → IsCoherent crates r
      → IsCoherent crates (record r { index = remove_all ids r.index })
  unfolding encryptor_of
  remove_all-IsCoherent ids r v = record { cached = v.cached }

  prune_orphaned-load_chunk :
      (k : ChunkId) (location : ChunkLocation) (nonce : Bytes) (packs : List PackId)
      (orphaned : List ChunkId) (r r' : Repository S C F)
      → IsCoherent crates r
      → Index.get_chunk k r.index ≡ some location
      → contains location.pack_id packs ≡ false
      → contains k orphaned ≡ false
      → prune_orphaned crates nonce packs orphaned r ≡ (ok tt, r')
      → (load_chunk crates k r').0 ≡ (load_chunk crates k r).0
  unfolding prune_orphaned encryptor_of
  prune_orphaned-load_chunk k location nonce packs orphaned r r' v found spared live h =
      let deleted = delete_all crates packs r in
      let (u, all, h₀) = resume-eq-ok deleted.0 deleted.1 _ h in
      let p = location.pack_id in
      let gone =
        delete_all-IsUntouched crates p packs r deleted.1 spared v (ap (λ o. (o, deleted.1)) all) in
      let mid = record (deleted.1) { index = remove_all orphaned deleted.1.index } in
      let kept =
        save_index-IsUntouched crates p nonce mid r'
          (remove_all-IsCoherent orphaned deleted.1 gone.coherent) h₀ in
      let stored : stored_pack crates p r' ≡ stored_pack crates p r = kept.stored ∙ gone.stored in
      let found' : Index.get_chunk k r'.index ≡ some location =
        kept.found k
        ∙ get_chunk-remove_all k orphaned deleted.1.index live
        ∙ gone.found k
        ∙ found in
      load_chunk-some crates k location r' kept.coherent found'
      ∙ ap (λ answer. Errors.◌>>=◌ answer (Pack.get_chunk crates.zlib k)) stored
      ∙ sym (load_chunk-some crates k location r v found)

  prune_unreferenced-load_chunk :
      (k : ChunkId) (location : ChunkLocation) (dry_run : Bool) (nonce : Bytes)
      (referenced : List ChunkId) (r r' : Repository S C F)
      → IsCoherent crates r
      → Index.get_chunk k r.index ≡ some location
      → contains k referenced ≡ true
      → prune_unreferenced crates dry_run nonce referenced r ≡ (ok tt, r')
      → (load_chunk crates k r').0 ≡ (load_chunk crates k r).0
  unfolding prune_unreferenced
  prune_unreferenced-load_chunk k location dry_run nonce referenced r r' v found used h =
      let chunks = r.index.chunks in
      let orphaned = orphaned_among referenced chunks in
      elim (Bool-cases (nat_beq (length orphaned) 0 || dry_run)) [
        | inl e ↦ ap (λ s. (load_chunk crates k s).0) (sym (ap (λ run. run.1) (rw e at h)))
        | inr e ↦
            prune_orphaned-load_chunk k location nonce
              (packs_to_delete (count_chunks orphaned chunks [])) orphaned r r' v found
              (referenced-spared k location referenced chunks
                (get_chunk-lookup k location r.index found) used)
              (contains-orphaned_among k referenced chunks used) (rw e at h)
      ]

-- Where all snapshots can be read, the scan finds what `collect_used_chunks` finds.
module _ {S C F : Type 0} (crates : Crates S C) (snapshots : Json Snapshot) (trees : JsonTree)
    (sort : List String → List String) where
  scan_snapshots-collect_from :
      (ids : List SnapshotId) (used found : List ChunkId) (r r' : Repository S C F)
      → collect_from crates snapshots trees sort ids used r ≡ (ok found, r')
      → scan_snapshots crates snapshots trees ids used r ≡ (ok found, r)
  unfolding collect_from scan_snapshots load_tree_of insert_tree
  scan_snapshots-collect_from [] used found r r' h = ap (λ run. (run.0, r)) h
  scan_snapshots-collect_from (id ∷ ids) used found r r' h =
      let first = load_snapshot crates snapshots id r in
      let (snapshot, is, h₀) = resume-eq-ok first.0 first.1 _ h in
      let at_first = ap (λ o. (o, first.1)) is in
      let same = load_snapshot-state crates snapshots id snapshot r first.1 at_first in
      let loaded : load_snapshot crates snapshots id r ≡ (ok snapshot, r) =
        at_first ∙ ap (λ s. (ok snapshot, s)) (sym same) in
      let second = load_tree crates trees snapshot.tree first.1 in
      let (tree, is', h₁) = resume-eq-ok second.0 second.1 _ h₀ in
      let at_second = ap (λ o. (o, second.1)) is' in
      let same' = load_tree-state crates trees snapshot.tree tree first.1 second.1 at_second in
      let loaded' : load_tree crates trees snapshot.tree r ≡ (ok tree, r) =
        ap (load_tree crates trees snapshot.tree) same
        ∙ at_second
        ∙ ap (λ s. (ok tree, s)) (sym (same ∙ same')) in
      let both : load_tree_of crates snapshots trees id r ≡ (ok tree, r) =
        ap (λ run. resume run (λ s. load_tree crates trees s.tree)) loaded ∙ loaded' in
      let rest : collect_from crates snapshots trees sort ids (insert_nodes tree.nodes used) r
          ≡ (ok found, r') =
        ap (collect_from crates snapshots trees sort ids (insert_nodes tree.nodes used))
          (same ∙ same')
        ∙ h₁ in
      ap
        (λ run.
          resume (caught run)
            (λ tree. scan_snapshots crates snapshots trees ids (insert_tree tree used)))
        both
      ∙ scan_snapshots-collect_from ids (insert_nodes tree.nodes used) found r r' rest

module _ {S C F : Type 0} ⦃b : Bloom F⦄ (crates : Crates S C) where
  -- In a coherent repository, where all snapshots can be read and one of them uses a chunk that the index
  -- places in a pack, a run of the prune command that succeeds, dry or not, leaves what `load_chunk` answers
  -- for that chunk as it was.
  pub load_chunk-run :
      (snapshots : Json Snapshot) (trees : JsonTree) (sort : List String → List String)
      (dry_run : Bool) (nonce : Bytes) (k : ChunkId) (location : ChunkLocation)
      (referenced : List ChunkId) (r r' : Repository S C F)
      → IsCoherent crates r
      → (collect_used_chunks crates snapshots trees sort r).0 ≡ ok referenced
      → contains k referenced ≡ true
      → Index.get_chunk k r.index ≡ some location
      → run crates snapshots trees sort dry_run nonce r ≡ (ok tt, r')
      → (load_chunk crates k r').0 ≡ (load_chunk crates k r).0
  unfolding run collect_used_chunks
  load_chunk-run snapshots trees sort dry_run nonce k location referenced r r' v used within found
        h =
      let listed = list_snapshots crates sort r in
      let (ids, is, h₀) = resume-eq-ok listed.0 listed.1 _ h in
      let at_list = ap (λ o. (o, listed.1)) is in
      let same = list_snapshots-state crates sort ids r listed.1 at_list in
      let collected = collect_used_chunks crates snapshots trees sort r in
      let (ids', is', c₀) =
        resume-eq-ok listed.0 listed.1 (λ ids. collect_from crates snapshots trees sort ids [])
          (ap (λ o. (o, collected.1)) used) in
      let ids_eq : ids' ≡ ids = ok-eq (sym is' ∙ is) in
      let scanned =
        scan_snapshots-collect_from crates snapshots trees sort ids [] referenced listed.1
          collected.1
          (subst
            (λ l.
              collect_from crates snapshots trees sort l [] listed.1 ≡ (ok referenced, collected.1))
            ids_eq c₀) in
      let h₁ =
        sym
          (ap (λ run. resume run (λ found. prune_unreferenced crates dry_run nonce found)) scanned)
        ∙ h₀ in
      prune_unreferenced-load_chunk crates k location dry_run nonce referenced r r' v found within
        (ap (prune_unreferenced crates dry_run nonce referenced) same ∙ h₁)
