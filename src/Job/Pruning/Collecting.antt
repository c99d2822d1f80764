-- ===== src/Job/Pruning/Collecting.antt =====
-- The first loop of `run_prune` of cli/src/commands/job.rs finds the chunks of every snapshot.
use ghostsnap.Prelude.{
  ◌≡◌, refl, sym, ap, ◌∙◌, Bool, true, ◌||◌, ◌==◌, any, list_eq, string_eq, List, [], ◌∷◌, contains,
  set_insert, contains-set_insert, arith, Bool-cases, inl, inr,
}
use mathlib.Core.Path.{subst}
use ghostsnap.Errors.{ok}
use ghostsnap.Action.{resume-eq-ok}
use ghostsnap.Types.{ChunkId, ChunkRef, SnapshotId}
use ghostsnap.Snapshot.{Snapshot, Tree, TreeNode}
use ghostsnap.Snapshot.Encoding.{Json, JsonTree}
use ghostsnap.Repository.{Crates, Repository}
use ghostsnap.Repository.Objects.{load_snapshot, load_tree}
use ghostsnap.Repository.Reading.{load_snapshot-state, load_tree-state}
use ghostsnap.Job.Pruning.{reference_chunks, reference_nodes, collect_referenced}

ok-eq : {A : Type 0} {a a' : A} → ok a ≡ ok a' → a ≡ a'
ok-eq h = cc

-- A tree uses a chunk if a node of it refers to the chunk.
abbrev pub has_ref : ChunkId → List ChunkRef → Bool
has_ref k refs = any (λ c. c.id == k) refs

abbrev pub uses_chunk : ChunkId → List TreeNode → Bool
uses_chunk k nodes = any (λ n. has_ref k n.chunks) nodes

contains-reference_chunks :
    (k : ChunkId) (cs : List ChunkRef) (referenced : List ChunkId)
    → contains k (reference_chunks cs referenced) ≡ (has_ref k cs || contains k referenced)
unfolding reference_chunks
contains-reference_chunks k [] referenced = refl
contains-reference_chunks k (c ∷ cs) referenced = ground (
  arith,
  contains-reference_chunks k cs (set_insert c.id referenced),
  contains-set_insert c.id k referenced,
)

contains-reference_nodes :
    (k : ChunkId) (ns : List TreeNode) (referenced : List ChunkId)
    → contains k (reference_nodes ns referenced) ≡ (uses_chunk k ns || contains k referenced)
unfolding reference_nodes
contains-reference_nodes k [] referenced = refl
contains-reference_nodes k (n ∷ ns) referenced = ground (
  arith,
  contains-reference_nodes k ns (reference_chunks n.chunks referenced),
  contains-reference_chunks k n.chunks referenced,
)

module _ {S C F : Type 0} (crates : Crates S C) (snapshots : Json Snapshot) (trees : JsonTree) where
  -- The steps of one round of the loop.
  record IsRound (id : SnapshotId) (ids : List SnapshotId) (before found : List ChunkId)
      (r r' : Repository S C F) : Type 0 where
    snapshot : Snapshot
    tree : Tree
    snapshot_read : (load_snapshot crates snapshots id r).0 ≡ ok snapshot
    tree_read : (load_tree crates trees snapshot.tree r).0 ≡ ok tree
    rest :
        collect_referenced crates snapshots trees ids (reference_nodes tree.nodes before) r
        ≡ (ok found, r')

  collect_referenced-IsRound :
      (id : SnapshotId) (ids : List SnapshotId) (before found : List ChunkId)
      (r r' : Repository S C F)
      → collect_referenced crates snapshots trees (id ∷ ids) before r ≡ (ok found, r')
      → IsRound id ids before found r r'
  unfolding collect_referenced
  collect_referenced-IsRound id ids before found r r' h =
      let first = load_snapshot crates snapshots id r in
      let (snapshot, is, h₀) = resume-eq-ok first.0 first.1 _ h in
      let same : r ≡ first.1 =
        load_snapshot-state crates snapshots id snapshot r first.1 (ap (λ o. (o, first.1)) is) in
      let second = load_tree crates trees snapshot.tree first.1 in
      let (tree, is', h₁) = resume-eq-ok second.0 second.1 _ h₀ in
      let same' : r ≡ second.1 =
        same
        ∙ load_tree-state crates trees snapshot.tree tree first.1 second.1
            (ap (λ o. (o, second.1)) is') in
      record {
        snapshot = snapshot;
        tree = tree;
        snapshot_read = is;
        tree_read =
            subst (λ s. (load_tree crates trees snapshot.tree s).0 ≡ ok tree) (sym same) is';
        rest =
            subst
              (λ s.
                collect_referenced crates snapshots trees ids (reference_nodes tree.nodes before) s
                ≡ (ok found, r'))
              (sym same') h₁;
      }

  pub collect_referenced-state :
      (ids : List SnapshotId) (before found : List ChunkId) (r r' : Repository S C F)
      → collect_referenced crates snapshots trees ids before r ≡ (ok found, r')
      → r ≡ r'
  unfolding collect_referenced
  collect_referenced-state [] before found r r' h = ap (λ run. run.1) h
  collect_referenced-state (id ∷ ids) before found r r' h =
      let round = collect_referenced-IsRound id ids before found r r' h in
      collect_referenced-state ids (reference_nodes round.tree.nodes before) found r r' round.rest

  -- What was found stays found.
  collect_referenced-contains :
      (k : ChunkId) (ids : List SnapshotId) (before found : List ChunkId) (r r' : Repository S C F)
      → contains k before ≡ true
      → collect_referenced crates snapshots trees ids before r ≡ (ok found, r')
      → contains k found ≡ true
  unfolding collect_referenced
  collect_referenced-contains k [] before found r r' within h =
      let is : before ≡ found = cc in subst (λ s. contains k s ≡ true) is within
  collect_referenced-contains k (id ∷ ids) before found r r' within h =
      let round = collect_referenced-IsRound id ids before found r r' h in
      collect_referenced-contains k ids (reference_nodes round.tree.nodes before) found r r'
        (ground (arith, contains-reference_nodes k round.tree.nodes before, within)) round.rest

  -- A chunk that the tree of a listed snapshot uses is found.
  pub collect_referenced-uses_chunk :
      (k : ChunkId) (id : SnapshotId) (snapshot : Snapshot) (tree : Tree) (ids : List SnapshotId)
      (before found : List ChunkId) (r r' : Repository S C F)
      → contains id ids ≡ true
      → (load_snapshot crates snapshots id r).0 ≡ ok snapshot
      → (load_tree crates trees snapshot.tree r).0 ≡ ok tree
      → uses_chunk k tree.nodes ≡ true
      → collect_referenced crates snapshots trees ids before r ≡ (ok found, r')
      → contains k found ≡ true
  collect_referenced-uses_chunk k id snapshot tree [] before found r r' listed read opened used h =
      cc
  collect_referenced-uses_chunk k id snapshot tree (j ∷ ids) before found r r' listed read opened
        used h =
      let round = collect_referenced-IsRound j ids before found r r' h in
      let next = reference_nodes round.tree.nodes before in
      elim (Bool-cases (j == id)) [
        | inl same ↦
            let is : j ≡ id = (string_eq.beq_iff j id).0 same in
            let snapshot_is : round.snapshot ≡ snapshot = ok-eq (
              sym round.snapshot_read
              ∙ subst (λ i. (load_snapshot crates snapshots i r).0 ≡ ok snapshot) (sym is) read) in
            let tree_is : round.tree ≡ tree = ok-eq (
              sym round.tree_read
              ∙ subst (λ s. (load_tree crates trees s.tree r).0 ≡ ok tree) (sym snapshot_is)
                  opened) in
            let within : uses_chunk k round.tree.nodes ≡ true =
              subst (λ t. uses_chunk k t.nodes ≡ true) (sym tree_is) used in
            collect_referenced-contains k ids next found r r'
              (ground (arith, contains-reference_nodes k round.tree.nodes before, within))
              round.rest
        | inr apart ↦
            collect_referenced-uses_chunk k id snapshot tree ids next found r r'
              (ground (arith, listed, apart)) read opened used round.rest
      ]
