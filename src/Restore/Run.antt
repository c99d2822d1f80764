-- ===== src/Restore/Run.antt =====
-- cli/src/commands/restore.rs: the loop over the nodes, and `run` from the snapshot on.
use ghostsnap.Prelude.{
  String, Bool, true, false, ◌&&◌, not, Option, none, some, List, [], ◌∷◌, Map, lookup, string_eq,
  is_some, if◌then◌else◌,
}
use ghostsnap.Errors.{Error, err}
use ghostsnap.Action.{Action, ◌>>=◌, pure, lift, attempt}
use ghostsnap.Index.{Bloom}
use ghostsnap.Snapshot.{Snapshot, TreeNode, NodeType, file, directory, symlink, is_file}
use ghostsnap.Snapshot.Encoding.{Json, JsonTree}
use ghostsnap.Repository.{Crates, Repository}
use ghostsnap.Repository.Objects.{load_snapshot, load_tree}
use ghostsnap.Restore.{verify_file}
use ghostsnap.Restore.Files.{
  FileSystem, RestoreCommand, on_repo, on_files, set_timestamps, restore_directory, restore_symlink,
  restore_hardlink, restore_file,
}
use ghostsnap.Restore.Selection.{by_name, resolve_snapshot_id, select, sort_nodes}
use ghostsnap.Restore.Progress.{
  Progress, add_bytes, count_result, no_progress, note_directory, note_file, skip_node,
}

module _ {S C F D : Type 0} ⦃b : Bloom F⦄ (crates : Crates S C) (files : FileSystem D)
    (cmd : RestoreCommand) where
  -- A hard link whose original has been restored to a path, or has not.
  abbrev pub restore_link : TreeNode → String → Option String → Action (Repository S C F × D) Unit
  restore_link node path none = restore_file crates files cmd node path
  restore_link node path (some original_path) = on_files (restore_hardlink files original_path path)

  -- `--no-hardlinks`
  abbrev pub restore_copy : Option TreeNode → String → Action (Repository S C F × D) Unit
  restore_copy none path = lift (err (Error.other "Hardlink target not found in snapshot tree"))
  restore_copy (some original_node) path = restore_file crates files cmd original_node path

  unfoldable pub restore_as_file :
      Map String TreeNode
      → Map String String
      → TreeNode
      → String
      → Option String
      → Action (Repository S C F × D) Unit
  unfolding restore_file restore_hardlink
  restore_as_file node_by_name restored_files node path none =
      restore_file crates files cmd node path
  restore_as_file node_by_name restored_files node path (some target) =
      if not cmd.no_hardlinks
      then restore_link node path (lookup target restored_files)
      else restore_copy (lookup target node_by_name) path

  -- The `match` on the type of the node, where this is no dry run.
  unfoldable pub restore_node :
      Map String TreeNode
      → Map String String
      → TreeNode
      → String
      → NodeType
      → Action (Repository S C F × D) Unit
  unfolding restore_directory restore_symlink restore_as_file
  restore_node node_by_name restored_files node path directory =
      on_files (restore_directory files cmd node path)
  restore_node node_by_name restored_files node path file =
      restore_as_file node_by_name restored_files node path node.hardlink_target
  restore_node node_by_name restored_files node path symlink =
      on_files (restore_symlink files cmd node path)

  unfoldable pub result_of :
      Bool
      → Map String TreeNode
      → Map String String
      → TreeNode
      → String
      → Action (Repository S C F × D) Unit
  unfolding restore_node
  result_of true node_by_name restored_files node path = pure tt
  result_of false node_by_name restored_files node path =
      restore_node node_by_name restored_files node path node.node_type

  -- `self.verify_file`
  unfoldable pub verify_restored : TreeNode → String → Action (Repository S C F × D) Unit
  unfolding verify_file
  verify_restored node path =
      if is_some node.hardlink_target && not cmd.no_hardlinks then pure tt else (do
        restored_data ← (λ w. (files.read path w.1, w))
        on_repo (verify_file crates cmd.no_hardlinks node restored_data))

  -- `if self.verify && …`, after a result that was no error.
  abbrev pub verify_if : Bool → TreeNode → String → Action (Repository S C F × D) (Option Bool)
  verify_if false node path = pure none
  verify_if true node path = do
    done ← attempt (verify_restored node path)
    pure (some (is_some done))

  -- A node that is not skipped.
  unfoldable pub restore_next :
      Map String TreeNode → TreeNode → String → Progress → Action (Repository S C F × D) Progress
  unfolding result_of verify_restored is_file note_directory note_file count_result
  restore_next node_by_name node path p = do
    result ← attempt (result_of cmd.dry_run node_by_name p.restored_files node path)
    verified ←
        verify_if (is_some result && (cmd.verify && (is_file node && not cmd.dry_run))) node path
    pure (
        add_bytes (is_file node) node.size (
          count_result cmd node (is_some result) verified (
            note_file node.node_type cmd.dry_run node.hardlink_target (is_some result) node.name
              path
              (note_directory node.node_type cmd.dry_run node path
                (add_bytes (is_file node && cmd.dry_run) node.size p)))))

  abbrev pub restore_unless :
      Bool
      → Map String TreeNode
      → TreeNode
      → String
      → Progress
      → Action (Repository S C F × D) Progress
  restore_unless true node_by_name node path p = pure (skip_node node p)
  restore_unless false node_by_name node path p = restore_next node_by_name node path p

  unfoldable pub restore_nodes :
      Map String TreeNode → List TreeNode → Progress → Action (Repository S C F × D) Progress
  unfolding restore_next skip_node
  restore_nodes node_by_name [] p = pure p
  restore_nodes node_by_name (node ∷ nodes) p = do
    let path = files.join cmd.target node.name
    next ← (λ w.
        restore_unless (files.exists_at path w.1 && (not cmd.overwrite && not cmd.dry_run))
          node_by_name node path p w)
    restore_nodes node_by_name nodes next

module _ {D : Type 0} (files : FileSystem D) where
  -- The times of the directories, the last one first; a failure is only logged.
  unfoldable pub restore_times : List (String × TreeNode) → Action D Unit
  unfolding set_timestamps
  restore_times [] = pure tt
  restore_times ((path, node) ∷ directories) = do
    set ← attempt (set_timestamps files path node.mtime)
    restore_times directories

  abbrev pub times_if : Bool → List (String × TreeNode) → Action D Unit
  times_if false directories = pure tt
  times_if true directories = restore_times directories

  abbrev pub make_target : Bool → Bool → String → Action D Unit
  make_target true dry_run target = pure tt
  make_target false true target = pure tt
  make_target false false target = files.create_dir_all target

module _ {S C F D : Type 0} ⦃b : Bloom F⦄ (crates : Crates S C) (files : FileSystem D) where
  -- The nodes that were selected, none of which there may be.
  unfoldable pub restore_selected :
      RestoreCommand → List TreeNode → List TreeNode → Action (Repository S C F × D) Progress
  unfolding by_name sort_nodes restore_nodes restore_times
  restore_selected cmd all [] = pure no_progress
  restore_selected cmd all (node ∷ nodes) = do
    p ← restore_nodes crates files cmd (by_name all []) (sort_nodes (node ∷ nodes)) no_progress
    timed ← on_files (times_if files (not cmd.dry_run && not cmd.no_timestamps) p.directories)
    pure p

module _ {S C F D : Type 0} ⦃b : Bloom F⦄ (crates : Crates S C) (snapshots : Json Snapshot)
    (trees : JsonTree) (sort : List String → List String) (files : FileSystem D) where
  -- `run` with an open repository; the counts are printed.
  unfoldable pub run : RestoreCommand → Action (Repository S C F × D) Progress
  unfolding resolve_snapshot_id load_snapshot load_tree select restore_selected
  run cmd = do
    full_snapshot_id ← on_repo (resolve_snapshot_id crates sort cmd.snapshot_id)
    snapshot ← on_repo (load_snapshot crates snapshots full_snapshot_id)
    made ← on_files (λ d. make_target files (files.exists_at cmd.target d) cmd.dry_run cmd.target d)
    tree ← on_repo (load_tree crates trees snapshot.tree)
    restore_selected crates files cmd tree.nodes (select cmd.paths tree.nodes)
