-- ===== src/Check.antt =====
-- cli/src/commands/check.rs: the errors that a check counts, and its verdict. The warning about orphaned
-- chunks, which has no part in the verdict, is left out. What is counted was warned of one by one, so the
-- count does not reach 2^64.
pub mod Missing
pub mod Scan
pub mod Packs
pub mod Soundness
use ghostsnap.Prelude.{
  ℕ, ◌+◌, String, Bool, true, false, Option, none, some, List, [], ◌∷◌, contains, set_insert, Map,
  string_eq, list_eq, nat_beq, if◌then◌else◌, is_some,
}
use ghostsnap.Errors.{Error, Result, ok, err}
use ghostsnap.Action.{Action, ◌>>=◌, pure, ask, lift, attempt}
use ghostsnap.Types.{ChunkId, PackId, SnapshotId}
use ghostsnap.Index
use ghostsnap.Index.{Index, Bloom, ChunkLocation}
use ghostsnap.Snapshot.{Snapshot, Tree}
use ghostsnap.Snapshot.Encoding.{Json, JsonTree}
use ghostsnap.Repository.{Crates, Repository, load_pack}
use ghostsnap.Repository.Objects.{load_snapshot, load_tree, list_snapshots, list_packs, pack_exists}
use ghostsnap.Repository.Garbage.{insert_nodes}

-- `errors`, `all_tree_ids` and `all_chunk_ids`.
pub record Found : Type 0 where
  pub errors : ℕ
  pub trees : List ChunkId
  pub chunks : List ChunkId

abbrev pub nothing_found : Found
nothing_found = record { errors = 0; trees = []; chunks = [] }

abbrev pub with_tree : Option Tree → Found → Found
with_tree none found = record found { errors = found.errors + 1 }
with_tree (some tree) found = record found { chunks = insert_nodes tree.nodes found.chunks }

-- The errors with one more where a step failed.
abbrev pub or_error : Bool → ℕ → ℕ
or_error true errors = errors
or_error false errors = errors + 1

unfoldable pub missing_chunks : {F : Type 0} ⦃b : Bloom F⦄ → List ChunkId → Index F → ℕ
missing_chunks [] i = 0
missing_chunks (id ∷ ids) i = or_error (Index.has_chunk id i) (missing_chunks ids i)

unfoldable pub referenced_packs : Map ChunkId ChunkLocation → List PackId → List PackId
unfolding set_insert
referenced_packs [] packs = packs
referenced_packs ((id, location) ∷ chunks) packs =
    referenced_packs chunks (set_insert location.pack_id packs)

-- `referenced_packs.difference(&existing_packs)`
unfoldable pub missing_packs : List PackId → List PackId → ℕ
missing_packs existing [] = 0
missing_packs existing (id ∷ ids) = or_error (contains id existing) (missing_packs existing ids)

abbrev pub verdict : ℕ → Result {0} Unit
verdict errors = if nat_beq errors 0 then ok tt else err (Error.other "Repository check failed")

module _ {S C F : Type 0} (crates : Crates S C) (snapshots : Json Snapshot) (trees : JsonTree) where
  unfoldable pub check_snapshot : Option Snapshot → Found → Action (Repository S C F) Found
  unfolding load_tree insert_nodes set_insert
  check_snapshot none found = pure (record found { errors = found.errors + 1 })
  check_snapshot (some snapshot) found = do
    tree ← attempt (load_tree crates trees snapshot.tree)
    pure (with_tree tree (record found { trees = set_insert snapshot.tree found.trees }))

  unfoldable pub check_snapshots : List SnapshotId → Found → Action (Repository S C F) Found
  unfolding load_snapshot check_snapshot
  check_snapshots [] found = pure found
  check_snapshots (id ∷ ids) found = do
    snapshot ← attempt (load_snapshot crates snapshots id)
    more ← check_snapshot snapshot found
    check_snapshots ids more

module _ {S C F : Type 0} (crates : Crates S C) (trees : JsonTree) where
  unfoldable pub check_trees : List ChunkId → ℕ → Action (Repository S C F) ℕ
  unfolding load_tree
  check_trees [] errors = pure errors
  check_trees (id ∷ ids) errors = do
    tree ← attempt (load_tree crates trees id)
    check_trees ids (or_error (is_some tree) errors)

module _ {S C F : Type 0} (crates : Crates S C) where
  -- `self.snapshot`, or all.
  unfoldable pub snapshots_to_check :
      Option SnapshotId → (List String → List String) → Action (Repository S C F) (List SnapshotId)
  unfolding list_snapshots
  snapshots_to_check (some id) sort = pure (id ∷ [])
  snapshots_to_check none sort = list_snapshots crates sort

  -- With `--read-data` every pack is loaded.
  unfoldable pub read_packs : List PackId → ℕ → Action (Repository S C F) ℕ
  unfolding load_pack
  read_packs [] errors = pure errors
  read_packs (id ∷ ids) errors = do
    pack ← attempt (load_pack crates id)
    read_packs ids (or_error (is_some pack) errors)

  unfoldable pub find_packs : List PackId → ℕ → Action (Repository S C F) ℕ
  unfolding pack_exists
  find_packs [] errors = pure errors
  find_packs (id ∷ ids) errors = do
    found ← pack_exists crates id
    find_packs ids (or_error found errors)

  unfoldable pub check_packs : Bool → List PackId → ℕ → Action (Repository S C F) ℕ
  unfolding read_packs find_packs
  check_packs true ids errors = read_packs ids errors
  check_packs false ids errors = find_packs ids errors

module _ {S C F : Type 0} ⦃b : Bloom F⦄ (crates : Crates S C) (snapshots : Json Snapshot)
    (trees : JsonTree) (sort : List String → List String) where
  unfoldable pub run : Option SnapshotId → Bool → Action (Repository S C F) Unit
  unfolding snapshots_to_check check_snapshots check_trees missing_chunks list_packs missing_packs
      referenced_packs check_packs
  run only read_data = do
    ids ← snapshots_to_check crates only sort
    found ← check_snapshots crates snapshots trees ids nothing_found
    errors ← check_trees crates trees found.trees found.errors
    missing ← ask (λ r. ok (missing_chunks found.chunks r.index))
    packs ← list_packs crates
    absent ← ask (λ r. ok (missing_packs packs (referenced_packs r.index.chunks [])))
    total ← check_packs crates read_data packs (errors + missing + absent)
    lift (verdict total)
