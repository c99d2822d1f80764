-- ===== src/Restore/DryRun.antt =====
-- What a dry run of a restore leaves alone: the file system.
use ghostsnap.Prelude.{
  ◌≡◌, refl, ap, ◌∙◌, String, Bool, true, false, not, ◌&&◌, Option, List, [], ◌∷◌, Map, arith,
  is_some,
}
use ghostsnap.Errors.{Result, ok, err, panic}
use ghostsnap.Action.{Action, resume, caught, pure}
use ghostsnap.Index.{Bloom}
use ghostsnap.Snapshot.{Snapshot, Tree, TreeNode, is_file}
use ghostsnap.Snapshot.Encoding.{Json, JsonTree}
use ghostsnap.Repository.{Crates, Repository}
use ghostsnap.Repository.Objects.{load_snapshot, load_tree}
use ghostsnap.Restore.Files.{FileSystem, RestoreCommand, on_repo, on_files}
use ghostsnap.Restore.Run.{
  result_of, verify_if, restore_unless, restore_next, restore_nodes, restore_selected, make_target,
  times_if, run,
}
use ghostsnap.Restore.Progress.{Progress, no_progress}
use ghostsnap.Restore.Selection.{by_name, sort_nodes, select, resolve_snapshot_id}

module _ {R D A : Type 0} where
  -- The step leaves the file system as it was.
  abbrev pub IsQuiet : Action (R × D) A → Type 0
  IsQuiet step = (w : R × D) → (step w).1.1 ≡ w.1

  caught-state : (result : Result A × (R × D)) → (caught result).1 ≡ result.1
  caught-state (panic, w) = refl
  caught-state (err failure, w) = refl
  caught-state (ok a, w) = refl

module _ {R D A B : Type 0} where
  resume-IsQuiet :
      (first : Result A × (R × D)) (rest : A → Action (R × D) B) (d : D)
      → first.1.1 ≡ d
      → ((a : A) → IsQuiet (rest a))
      → (resume first rest).1.1 ≡ d
  resume-IsQuiet (panic, w) rest d h each = h
  resume-IsQuiet (err failure, w) rest d h each = h
  resume-IsQuiet (ok a, w) rest d h each = each a w ∙ h

module _ {D : Type 0} (files : FileSystem D) (cmd : RestoreCommand) (dry : cmd.dry_run ≡ true) where
  times_if-IsQuiet :
      (directories : List (String × TreeNode)) (d : D)
      → (times_if files (not cmd.dry_run && not cmd.no_timestamps) directories d).1 ≡ d
  times_if-IsQuiet directories d =
      let none_set : (not cmd.dry_run && not cmd.no_timestamps) ≡ false = ground (arith, dry) in
      rw none_set refl

  make_target-IsQuiet :
      (present : Bool) (target : String) (d : D)
      → (make_target files present cmd.dry_run target d).1 ≡ d
  make_target-IsQuiet true target d = refl
  make_target-IsQuiet false target d = rw dry refl

module _ {S C F D : Type 0} ⦃b : Bloom F⦄ (crates : Crates S C) (files : FileSystem D)
    (cmd : RestoreCommand) (dry : cmd.dry_run ≡ true) where
  result_of-IsQuiet :
      (node_by_name : Map String TreeNode) (restored_files : Map String String) (node : TreeNode)
      (path : String)
      → IsQuiet
          (result_of {F = F} crates files cmd cmd.dry_run node_by_name restored_files node path)
  unfolding result_of
  result_of-IsQuiet node_by_name restored_files node path w = rw dry refl

  verify_if-IsQuiet :
      (result : Option {0} Unit) (node : TreeNode) (path : String)
      → IsQuiet (
          verify_if {F = F} crates files cmd
            (is_some result && (cmd.verify && (is_file node && not cmd.dry_run)))
            node
            path)
  verify_if-IsQuiet result node path w =
      let no_check : (is_some result && (cmd.verify && (is_file node && not cmd.dry_run))) ≡ false =
        ground (arith, dry) in
      rw no_check refl

  restore_next-IsQuiet :
      (node_by_name : Map String TreeNode) (node : TreeNode) (path : String) (p : Progress)
      → IsQuiet (restore_next {F = F} crates files cmd node_by_name node path p)
  unfolding restore_next
  restore_next-IsQuiet node_by_name node path p w =
      let tried =
        result_of {F = F} crates files cmd cmd.dry_run node_by_name p.restored_files node path w in
      resume-IsQuiet (caught tried) _ w.1
        (ap (λ v. v.1) (caught-state tried)
          ∙ result_of-IsQuiet node_by_name p.restored_files node path w)
        (λ result v.
          resume-IsQuiet _ _ v.1 (verify_if-IsQuiet result node path v) (λ verified u. refl))

  restore_unless-IsQuiet :
      (skipped : Bool) (node_by_name : Map String TreeNode) (node : TreeNode) (path : String)
      (p : Progress)
      → IsQuiet (restore_unless {F = F} crates files cmd skipped node_by_name node path p)
  restore_unless-IsQuiet true node_by_name node path p w = refl
  restore_unless-IsQuiet false node_by_name node path p w =
      restore_next-IsQuiet node_by_name node path p w

  restore_nodes-IsQuiet :
      (node_by_name : Map String TreeNode) (nodes : List TreeNode) (p : Progress)
      → IsQuiet (restore_nodes {F = F} crates files cmd node_by_name nodes p)
  unfolding restore_nodes
  restore_nodes-IsQuiet node_by_name [] p w = refl
  restore_nodes-IsQuiet node_by_name (node ∷ nodes) p w =
      resume-IsQuiet _ _ w.1 (restore_unless-IsQuiet _ node_by_name node _ p w)
        (λ next. restore_nodes-IsQuiet node_by_name nodes next)

  restore_selected-IsQuiet :
      (all nodes : List TreeNode) → IsQuiet (restore_selected {F = F} crates files cmd all nodes)
  unfolding restore_selected
  restore_selected-IsQuiet all [] w = refl
  restore_selected-IsQuiet all (node ∷ nodes) w =
      let times : Progress → Action (Repository S C F × D) Unit =
        λ p. on_files (times_if files (not cmd.dry_run && not cmd.no_timestamps) p.directories) in
      resume-IsQuiet
        (restore_nodes crates files cmd (by_name all []) (sort_nodes (node ∷ nodes)) no_progress w)
        (λ p v. resume (times p v) (λ timed. pure p)) w.1
        (restore_nodes-IsQuiet (by_name all []) (sort_nodes (node ∷ nodes)) no_progress w)
        (λ p v.
          resume-IsQuiet (times p v) (λ timed. pure p) v.1
            (times_if-IsQuiet files cmd dry p.directories v.1) (λ timed u. refl))

module _ {S C F D : Type 0} ⦃b : Bloom F⦄ (crates : Crates S C) (snapshots : Json Snapshot)
    (trees : JsonTree) (sort : List String → List String) (files : FileSystem D)
    (cmd : RestoreCommand) (dry : cmd.dry_run ≡ true) where
  -- A dry run of the restore command leaves the file system as it was, whether it succeeds or not.
  pub run-IsQuiet : IsQuiet (run {F = F} crates snapshots trees sort files cmd)
  unfolding run
  run-IsQuiet w =
      let selected : Tree → Action (Repository S C F × D) Progress =
        λ tree. restore_selected crates files cmd tree.nodes (select cmd.paths tree.nodes) in
      let treed : Snapshot → Action (Repository S C F × D) Progress =
        λ snapshot v. resume (on_repo (load_tree crates trees snapshot.tree) v) selected in
      let target : Action (Repository S C F × D) Unit =
        on_files (λ d. make_target files (files.exists_at cmd.target d) cmd.dry_run cmd.target d) in
      let made : Snapshot → Action (Repository S C F × D) Progress =
        λ snapshot v. resume (target v) (λ done. treed snapshot) in
      let loaded : String → Action (Repository S C F × D) Progress =
        λ id v. resume (on_repo (load_snapshot crates snapshots id) v) made in
      resume-IsQuiet (on_repo (resolve_snapshot_id crates sort cmd.snapshot_id) w) loaded w.1 refl
        (λ id v.
          resume-IsQuiet (on_repo (load_snapshot crates snapshots id) v) made v.1 refl
            (λ snapshot u.
              resume-IsQuiet (target u) (λ done. treed snapshot) u.1
                (make_target-IsQuiet files cmd dry (files.exists_at cmd.target u.1) cmd.target u.1)
                (λ done t.
                  resume-IsQuiet (on_repo (load_tree crates trees snapshot.tree) t) selected t.1
                    refl
                    (λ tree.
                      restore_selected-IsQuiet {F = F} crates files cmd dry tree.nodes
                        (select cmd.paths tree.nodes)))))
