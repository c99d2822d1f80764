-- ===== src/Check/Soundness.antt =====
-- What a check that succeeds has established.
use ghostsnap.Prelude.{
  ℕ, ◌+◌, ◌≡◌, ap, ◌∙◌, sym, String, Bool, true, Option, none, some, List, [], ◌∷◌, contains,
  lookup, string_eq, list_eq, arith,
}
use mathlib.Core.Path.{subst}
use ghostsnap.Errors.{ok}
use ghostsnap.Action.{resume-eq-ok}
use ghostsnap.Types.{ChunkId, PackId, SnapshotId}
use ghostsnap.Index
use ghostsnap.Index.{Bloom, ChunkLocation}
use ghostsnap.Snapshot.{Snapshot, Tree}
use ghostsnap.Snapshot.Encoding.{Json, JsonTree}
use ghostsnap.Repository.{Crates, Repository}
use ghostsnap.Repository.Objects.{load_snapshot, load_tree, list_packs}
use ghostsnap.Repository.Garbage.{insert_nodes}
use ghostsnap.Repository.Reading.{list_snapshots-state, list_packs-state}
use ghostsnap.Repository.Coherence.{IsCoherent}
use ghostsnap.Check.{
  nothing_found, missing_chunks, missing_packs, referenced_packs, verdict, snapshots_to_check,
  check_snapshots, check_trees, check_packs, run,
}
use ghostsnap.Check.Scan.{AllRead, check_snapshots-AllRead, check_trees-clean}
use ghostsnap.Check.Packs.{AllStored, check_packs-clean, check_packs-AllStored}
use ghostsnap.Check.Missing.{has_chunk-missing_chunks, lookup-missing_packs}

snapshots_to_check-state :
    {S C F : Type 0} (crates : Crates S C) (only : Option SnapshotId)
    (sort : List String → List String) (ids : List SnapshotId) (r r' : Repository S C F)
    → snapshots_to_check crates only sort r ≡ (ok ids, r')
    → r ≡ r'
unfolding snapshots_to_check
snapshots_to_check-state crates (some id) sort ids r r' h = ap (λ run. run.1) h
snapshots_to_check-state crates none sort ids r r' h = list_snapshots-state crates sort ids r r' h

verdict-eq-ok : (total : ℕ) → verdict total ≡ ok tt → total ≡ 0
verdict-eq-ok total h = ground (arith, h)

module _ {S C F : Type 0} ⦃b : Bloom F⦄ (crates : Crates S C) (snapshots : Json Snapshot)
    (trees : JsonTree) where
  -- A snapshot can be read, and its tree, and the index has all its chunks.
  pub record IsWhole (r : Repository S C F) (id : SnapshotId) : Type 0 where
    pub snapshot : Snapshot
    pub tree : Tree
    pub loaded : load_snapshot crates snapshots id r ≡ (ok snapshot, r)
    pub tree_loaded : load_tree crates trees snapshot.tree r ≡ (ok tree, r)
    pub indexed :
        (k : ChunkId)
        → contains k (insert_nodes tree.nodes []) ≡ true
        → Index.has_chunk k r.index ≡ true

  abbrev pub AllWhole : Repository S C F → List SnapshotId → Type 0
  AllWhole r [] = Unit
  AllWhole r (id ∷ ids) = IsWhole r id × AllWhole r ids

  AllRead-AllWhole :
      (ids : List SnapshotId) (chunks : List ChunkId) (r : Repository S C F)
      → missing_chunks chunks r.index ≡ 0
      → AllRead crates snapshots trees ids chunks r
      → AllWhole r ids
  AllRead-AllWhole [] chunks r present h = tt
  AllRead-AllWhole (id ∷ ids) chunks r present h = (
    record {
      snapshot = h.0.snapshot;
      tree = h.0.tree;
      loaded = h.0.loaded;
      tree_loaded = h.0.tree_loaded;
      indexed = λ k u. has_chunk-missing_chunks k chunks r.index present (h.0.known k u);
    },
    AllRead-AllWhole ids chunks r present h.1,
  )

  -- What is right in a repository, for the snapshots `ids` and the packs `packs`.
  pub record IsSound (read_data : Bool) (ids : List SnapshotId) (packs : List PackId)
      (r : Repository S C F) : Type 0 where
    pub all_whole : AllWhole r ids
    pub packs_listed : list_packs crates r ≡ (ok packs, r)
    pub placed :
        (k : ChunkId) (location : ChunkLocation)
        → lookup k r.index.chunks ≡ some location
        → contains location.pack_id packs ≡ true
    pub packs_stored : read_data ≡ true → AllStored crates packs r

  -- In a coherent repository, if a check succeeds, then every snapshot that was to be checked (the one that
  -- was named, or all) can be read, with its tree, and the index has every chunk of it; every pack in which
  -- the index places a chunk is in the listing; and if the data was to be read, every listed pack can be
  -- read and decoded.
  pub run-IsSound :
      (sort : List String → List String) (only : Option SnapshotId) (read_data : Bool)
      (r r' : Repository S C F)
      → IsCoherent crates r
      → run crates snapshots trees sort only read_data r ≡ (ok tt, r')
      → (ids : List SnapshotId) × (packs : List PackId) × (snapshots_to_check crates only sort r
          ≡ (ok ids, r))
        × IsSound read_data ids packs r
  unfolding run
  run-IsSound sort only read_data r r' v h =
      let chosen = snapshots_to_check crates only sort r in
      let (ids, is₀, h₀) = resume-eq-ok chosen.0 chosen.1 _ h in
      let at₀ : chosen ≡ (ok ids, chosen.1) = ap (λ o. (o, chosen.1)) is₀ in
      let same₀ = snapshots_to_check-state crates only sort ids r chosen.1 at₀ in
      let scanned = check_snapshots crates snapshots trees ids nothing_found chosen.1 in
      let (found, is₁, h₁) = resume-eq-ok scanned.0 scanned.1 _ h₀ in
      let at₁ : scanned ≡ (ok found, scanned.1) = ap (λ o. (o, scanned.1)) is₁ in
      let rooted = check_trees crates trees found.trees found.errors scanned.1 in
      let (errors, is₂, h₂) = resume-eq-ok rooted.0 rooted.1 _ h₁ in
      let at₂ : rooted ≡ (ok errors, rooted.1) = ap (λ o. (o, rooted.1)) is₂ in
      let missing = missing_chunks found.chunks rooted.1.index in
      let listed = list_packs crates rooted.1 in
      let (packs, is₃, h₃) = resume-eq-ok listed.0 listed.1 _ h₂ in
      let at₃ : listed ≡ (ok packs, listed.1) = ap (λ o. (o, listed.1)) is₃ in
      let same₃ = list_packs-state crates packs rooted.1 listed.1 at₃ in
      let absent = missing_packs packs (referenced_packs listed.1.index.chunks []) in
      let checked = check_packs crates read_data packs (errors + missing + absent) listed.1 in
      let (total, is₄, h₄) = resume-eq-ok checked.0 checked.1 _ h₃ in
      let clean = verdict-eq-ok total (ap (λ run. run.0) h₄) in
      let at₄ : checked ≡ (ok total, checked.1) = ap (λ o. (o, checked.1)) is₄ in
      let sum =
        check_packs-clean crates read_data packs (errors + missing + absent) total listed.1
          checked.1 at₄ clean in
      let (no_errors, same₂) =
        check_trees-clean crates snapshots trees found.trees found.errors errors scanned.1 rooted.1
          at₂ (omega (arith, sum)) in
      let scan =
        check_snapshots-AllRead crates snapshots trees ids nothing_found found chosen.1 scanned.1
          at₁ no_errors in
      let start : r ≡ rooted.1 = same₀ ∙ scan.same ∙ same₂ in
      let present : missing_chunks found.chunks r.index ≡ 0 =
        ap (λ s. missing_chunks found.chunks s.index) start ∙ omega (arith, sum) in
      let reached : r ≡ listed.1 = start ∙ same₃ in
      let none_absent : missing_packs packs (referenced_packs r.index.chunks []) ≡ 0 =
        ap (λ s. missing_packs packs (referenced_packs s.index.chunks [])) reached
        ∙ omega (arith, sum) in
      (
        ids,
        packs,
        at₀ ∙ ap (λ s. (ok ids, s)) (sym same₀),
        record {
          all_whole =
              AllRead-AllWhole ids found.chunks r present
                (subst (AllRead crates snapshots trees ids found.chunks) (sym same₀) scan.read);
          packs_listed = ap (list_packs crates) start ∙ at₃ ∙ ap (λ s. (ok packs, s)) (sym reached);
          placed =
              λ k location h. lookup-missing_packs k location packs r.index.chunks none_absent h;
          packs_stored = λ asked. subst (AllStored crates packs) (sym reached) (
              check_packs-AllStored crates read_data packs (errors + missing + absent) total
                listed.1 checked.1 (subst (IsCoherent crates) reached v) at₄ clean asked);
        },
      )
