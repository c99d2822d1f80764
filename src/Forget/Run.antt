-- ===== src/Forget/Run.antt =====
-- `run` of cli/src/commands/forget.rs: it reads the snapshots and deletes those to forget.
use ghostsnap.Prelude.{ℕ, String, Option, none, some, List, [], ◌∷◌}
use ghostsnap.Errors.{Result, ok, err, panic}
use ghostsnap.Action.{Action, ◌>>=◌, pure, lift, attempt}
use ghostsnap.Types.{SnapshotId}
use ghostsnap.Snapshot.{Snapshot}
use ghostsnap.Snapshot.Encoding.{Json, deserialize_snapshot}
use ghostsnap.Crypto.{Encryptor}
use ghostsnap.Foreign.{Bytes}
use ghostsnap.Repository.{Crates, Repository}
use ghostsnap.Repository.Objects.{load_snapshot, list_snapshots, delete_snapshot}
use ghostsnap.Forget.{Calendar, SnapshotInfo, ForgetCommand, deletions}

module _ {S C F : Type 0} (crates : Crates S C) where
  -- The loop of the deletions, up to the first error.
  unfoldable pub delete_each : List SnapshotId → Action (Repository S C F) Unit
  unfolding delete_snapshot
  delete_each [] = pure tt
  delete_each (id ∷ ids) = do deleted ← delete_snapshot crates id; delete_each ids

module _ {S C : Type 0} (crates : Crates S C) (json : Json Snapshot) where
  -- What `load_snapshot` answers, from the key and the object.
  answer : Result Encryptor → Result Bytes → Result Snapshot
  answer panic stored = panic
  answer (err failure) stored = err failure
  answer (ok encryptor) panic = panic
  answer (ok encryptor) (err failure) = err failure
  answer (ok encryptor) (ok bytes) = deserialize_snapshot crates.cipher json encryptor bytes

abbrev add_info : SnapshotId → Option Snapshot → List SnapshotInfo → List SnapshotInfo
add_info id none infos = infos
add_info id (some s) infos =
    (record { id = id; time = s.time; hostname = s.hostname; tags = s.tags }) ∷ infos

-- `sort` on the ids is the argument `sort`.
module _ {S C F : Type 0} (crates : Crates S C) (json : Json Snapshot)
    (sort : List String → List String) where
  -- The snapshots that can be loaded: an error passes one over, a panic ends the loop.
  unfoldable pub load_infos : List SnapshotId → Action (Repository S C F) (List SnapshotInfo)
  unfolding load_snapshot
  load_infos [] = pure []
  load_infos (id ∷ ids) = do
    loaded ← attempt (load_snapshot crates json id)
    infos ← load_infos ids
    pure (add_info id loaded infos)

  unfoldable pub read_infos : Action (Repository S C F) (List SnapshotInfo)
  unfolding list_snapshots load_infos
  read_infos = do snapshot_ids ← list_snapshots crates sort; load_infos snapshot_ids

  -- `run` in an open repository, up to the prune that `--prune` asks for.
  unfoldable pub run : Calendar → ForgetCommand → ℕ → Action (Repository S C F) Unit
  unfolding read_infos deletions delete_each
  run cal c now = do
    snapshots ← read_infos
    ids ← lift (deletions cal c now snapshots)
    delete_each crates ids
