-- ===== src/Check/Scan.antt =====
-- What a scan of snapshots and trees that counted no error has seen.
use ghostsnap.Prelude.{
  ℕ, ◌+◌, ◌≡◌, ap, ◌∙◌, sym, true, none, some, List, [], ◌∷◌, contains, set_insert, string_eq,
  list_eq, arith, inl, inr,
}
use mathlib.Core.Path.{subst}
use ghostsnap.Errors.{ok, ok-injective}
use ghostsnap.Action.{resume-eq-ok, attempt-eq-ok}
use ghostsnap.Types.{ChunkId, SnapshotId}
use ghostsnap.Snapshot.{Snapshot, Tree}
use ghostsnap.Snapshot.Encoding.{Json, JsonTree}
use ghostsnap.Repository.{Crates, Repository}
use ghostsnap.Repository.Objects.{load_snapshot, load_tree}
use ghostsnap.Repository.Garbage.{insert_nodes}
use ghostsnap.Repository.Reading.{load_snapshot-state, load_tree-state}
use ghostsnap.Check.{Found, with_tree, check_snapshot, check_snapshots, check_trees}
use ghostsnap.Check.Missing.{contains-insert_nodes}

module _ {S C F : Type 0} (crates : Crates S C) (snapshots : Json Snapshot) (trees : JsonTree) where
  -- A snapshot that can be read, with a tree that can, whose chunks are among those given.
  pub record IsRead (id : SnapshotId) (chunks : List ChunkId) (r : Repository S C F) : Type 0 where
    pub snapshot : Snapshot
    pub tree : Tree
    pub loaded : load_snapshot crates snapshots id r ≡ (ok snapshot, r)
    pub tree_loaded : load_tree crates trees snapshot.tree r ≡ (ok tree, r)
    pub known :
        (k : ChunkId) → contains k (insert_nodes tree.nodes []) ≡ true → contains k chunks ≡ true

  abbrev pub AllRead : List SnapshotId → List ChunkId → Repository S C F → Type 0
  AllRead [] chunks r = Unit
  AllRead (id ∷ ids) chunks r = IsRead id chunks r × AllRead ids chunks r

  -- What one snapshot and those after it leave, if in the end there is no error.
  pub record IsScan (ids : List SnapshotId) (before after : Found) (r r' : Repository S C F)
      : Type 0 where
    pub clean : before.errors ≡ 0
    pub same : r ≡ r'
    pub grown : (k : ChunkId) → contains k before.chunks ≡ true → contains k after.chunks ≡ true
    pub read : AllRead ids after.chunks r

  check_snapshot-clean :
      (snapshot : Snapshot) (before more : Found) (r r' : Repository S C F)
      → check_snapshot crates snapshots trees (some snapshot) before r ≡ (ok more, r')
      → more.errors ≡ 0
      → (tree : Tree) × (load_tree crates trees snapshot.tree r ≡ (ok tree, r))
        × (r ≡ r')
        × (with_tree (some tree) (record before { trees = set_insert snapshot.tree before.trees })
            ≡ more)
  unfolding check_snapshot
  check_snapshot-clean snapshot before more r r' h clean =
      let seen = record before { trees = set_insert snapshot.tree before.trees } in
      let run = load_tree crates trees snapshot.tree r in
      elim (attempt-eq-ok run _ h) [
        | inl (failure, e, p) ↦
            let is : with_tree none seen ≡ more = cc in
            absurd (omega (arith, ap (λ f. f.errors) is, clean))
        | inr (tree, e, p) ↦
            let loaded : run ≡ (ok tree, run.1) = ap (λ o. (o, run.1)) e in
            let same = load_tree-state crates trees snapshot.tree tree r run.1 loaded in
            (
              tree,
              loaded ∙ ap (λ s. (ok tree, s)) (sym same),
              same ∙ ap (λ run. run.1) p,
              ok-injective _ _ (ap (λ run. run.0) p),
            )
      ]

  pub check_snapshots-AllRead :
      (ids : List SnapshotId) (before after : Found) (r r' : Repository S C F)
      → check_snapshots crates snapshots trees ids before r ≡ (ok after, r')
      → after.errors ≡ 0
      → IsScan ids before after r r'
  unfolding check_snapshots check_snapshot
  check_snapshots-AllRead [] before after r r' h clean =
      let is : before ≡ after = cc in
      record {
        clean = ap (λ f. f.errors) is ∙ clean;
        same = ap (λ run. run.1) h;
        grown = λ k u. subst (λ f. contains k f.chunks ≡ true) is u;
        read = tt;
      }
  check_snapshots-AllRead (id ∷ ids) before after r r' h clean =
      let first = load_snapshot crates snapshots id r in
      elim (attempt-eq-ok first _ h) [
        | inl (failure, e, h₀) ↦
            let rest =
              check_snapshots-AllRead ids (record before { errors = before.errors + 1 }) after
                first.1 r' h₀ clean in
            absurd (omega (arith, rest.clean))
        | inr (snapshot, e, h₀) ↦
            let at_first : first ≡ (ok snapshot, first.1) = ap (λ o. (o, first.1)) e in
            let same = load_snapshot-state crates snapshots id snapshot r first.1 at_first in
            let mid = check_snapshot crates snapshots trees (some snapshot) before first.1 in
            let (more, is, h₁) = resume-eq-ok mid.0 mid.1 _ h₀ in
            let rest = check_snapshots-AllRead ids more after mid.1 r' h₁ clean in
            let (tree, tree_loaded, same', is') =
              check_snapshot-clean snapshot before more first.1 mid.1 (ap (λ o. (o, mid.1)) is)
                rest.clean in
            let back = sym (same ∙ same') in
            let chunks : insert_nodes tree.nodes before.chunks ≡ more.chunks =
              ap (λ f. f.chunks) is' in
            record {
              clean = ap (λ f. f.errors) is' ∙ rest.clean;
              same = same ∙ same' ∙ rest.same;
              grown = λ k u.
                  rest.grown k
                    (ground (arith, u, chunks, contains-insert_nodes k tree.nodes before.chunks));
              read = (
                record {
                  snapshot = snapshot;
                  tree = tree;
                  loaded = at_first ∙ ap (λ s. (ok snapshot, s)) (sym same);
                  tree_loaded =
                      ap (load_tree crates trees snapshot.tree) same
                      ∙ tree_loaded
                      ∙ ap (λ s. (ok tree, s)) (sym same);
                  known = λ k u.
                      rest.grown k (
                        ground
                          (arith, u, chunks, contains-insert_nodes k tree.nodes before.chunks));
                },
                subst (AllRead ids after.chunks) back rest.read,
              );
            }
      ]

  pub check_trees-clean :
      (ids : List ChunkId) (errors total : ℕ) (r r' : Repository S C F)
      → check_trees crates trees ids errors r ≡ (ok total, r')
      → total ≡ 0
      → (errors ≡ 0) × (r ≡ r')
  unfolding check_trees
  check_trees-clean [] errors total r r' h clean =
      let is : errors ≡ total = cc in (is ∙ clean, ap (λ run. run.1) h)
  check_trees-clean (id ∷ ids) errors total r r' h clean =
      let first = load_tree crates trees id r in
      elim (attempt-eq-ok first _ h) [
        | inl (failure, e, h₀) ↦
            let rest = check_trees-clean ids (errors + 1) total first.1 r' h₀ clean in
            absurd (omega (arith, rest.0))
        | inr (tree, e, h₀) ↦
            let rest = check_trees-clean ids errors total first.1 r' h₀ clean in
            (
              rest.0,
              load_tree-state crates trees id tree r first.1 (ap (λ o. (o, first.1)) e) ∙ rest.1,
            )
      ]
