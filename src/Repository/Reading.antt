-- ===== src/Repository/Reading.antt =====
-- The methods of core/src/repository.rs that only read leave the repository as it is.
use ghostsnap.Prelude.{◌≡◌, ap, ◌∙◌, String, List, [], ◌∷◌}
use ghostsnap.Errors.{ok}
use ghostsnap.Action.{resume-eq-ok}
use ghostsnap.Types.{ChunkId, PackId, SnapshotId}
use ghostsnap.Snapshot.{Snapshot, Tree}
use ghostsnap.Snapshot.Encoding.{Json, JsonTree}
use ghostsnap.Repository.{Crates, Repository, encryptor_of}
use ghostsnap.Repository.Objects.{
  snapshot_path, tree_path, load_snapshot, load_tree, list_snapshots, list_packs,
}
use ghostsnap.Repository.Garbage.{insert_nodes, collect_from, collect_used_chunks}

module _ {S C F : Type 0} (crates : Crates S C) where
  pub load_snapshot-state :
      (json : Json Snapshot) (id : SnapshotId) (s : Snapshot) (r r' : Repository S C F)
      → load_snapshot crates json id r ≡ (ok s, r')
      → r ≡ r'
  unfolding load_snapshot
  load_snapshot-state json id s r r' h =
      let (encryptor, unlocked, h₀) = resume-eq-ok (encryptor_of r) r _ h in
      let (bytes, got, h₁) = resume-eq-ok (crates.store.read (snapshot_path id) r.storage) r _ h₀ in
      ap (λ run. run.1) h₁

  pub load_tree-state :
      (json : JsonTree) (id : ChunkId) (t : Tree) (r r' : Repository S C F)
      → load_tree crates json id r ≡ (ok t, r')
      → r ≡ r'
  unfolding load_tree
  load_tree-state json id t r r' h =
      let (encryptor, unlocked, h₀) = resume-eq-ok (encryptor_of r) r _ h in
      let (bytes, got, h₁) =
        resume-eq-ok (crates.store.read (tree_path crates.hex id) r.storage) r _ h₀ in
      ap (λ run. run.1) h₁

  pub list_snapshots-state :
      (sort : List String → List String) (ids : List SnapshotId) (r r' : Repository S C F)
      → list_snapshots crates sort r ≡ (ok ids, r')
      → r ≡ r'
  unfolding list_snapshots
  list_snapshots-state sort ids r r' h =
      let (names, got, h₀) = resume-eq-ok (crates.store.list "snapshots" r.storage) r _ h in
      ap (λ run. run.1) h₀

  pub list_packs-state :
      (ids : List PackId) (r r' : Repository S C F) → list_packs crates r ≡ (ok ids, r') → r ≡ r'
  unfolding list_packs
  list_packs-state ids r r' h =
      let (names, got, h₀) = resume-eq-ok (crates.store.list "data" r.storage) r _ h in
      ap (λ run. run.1) h₀

  pub collect_from-state :
      (snapshots : Json Snapshot) (trees : JsonTree) (sort : List String → List String)
      (ids : List SnapshotId) (used found : List ChunkId) (r r' : Repository S C F)
      → collect_from crates snapshots trees sort ids used r ≡ (ok found, r')
      → r ≡ r'
  unfolding collect_from
  collect_from-state snapshots trees sort [] used found r r' h = ap (λ run. run.1) h
  collect_from-state snapshots trees sort (id ∷ ids) used found r r' h =
      let first = load_snapshot crates snapshots id r in
      let (s, is, h₀) = resume-eq-ok first.0 first.1 _ h in
      let second = load_tree crates trees s.tree first.1 in
      let (t, is', h₁) = resume-eq-ok second.0 second.1 _ h₀ in
      load_snapshot-state snapshots id s r first.1 (ap (λ o. (o, first.1)) is)
      ∙ load_tree-state trees s.tree t first.1 second.1 (ap (λ o. (o, second.1)) is')
      ∙ collect_from-state snapshots trees sort ids (insert_nodes t.nodes used) found second.1 r' h₁

  pub collect_used_chunks-state :
      (snapshots : Json Snapshot) (trees : JsonTree) (sort : List String → List String)
      (found : List ChunkId) (r r' : Repository S C F)
      → collect_used_chunks crates snapshots trees sort r ≡ (ok found, r')
      → r ≡ r'
  unfolding collect_used_chunks
  collect_used_chunks-state snapshots trees sort found r r' h =
      let listed = list_snapshots crates sort r in
      let (ids, is, h₀) = resume-eq-ok listed.0 listed.1 _ h in
      list_snapshots-state sort ids r listed.1 (ap (λ o. (o, listed.1)) is)
      ∙ collect_from-state snapshots trees sort ids [] found listed.1 r' h₀
