-- ===== src/Restore/Progress.antt =====
-- cli/src/commands/restore.rs: what is counted. The bytes for the progress bar are in 64 bits; the other counters
-- count nodes of one tree.
use ghostsnap.Prelude.{
  ℕ, ◌+◌, ◌%◌, ◌^◌, String, Bool, true, false, ◌&&◌, not, Option, none, some, List, [], ◌∷◌, Map,
  insert, string_eq, is_some,
}
use ghostsnap.Snapshot.{TreeNode, NodeType, file, directory, is_file}
use ghostsnap.Restore.Files.{RestoreCommand}

-- The counters of the loop, the directories (the last first) and the files by their names.
pub record Progress : Type 0 where
  pub restored_count : ℕ
  pub skipped_count : ℕ
  pub failed_count : ℕ
  pub verified_count : ℕ
  pub verify_failed_count : ℕ
  pub bytes_restored : ℕ
  pub hardlinks_restored : ℕ
  pub directories : List (String × TreeNode)
  pub restored_files : Map String String

abbrev pub no_progress : Progress
no_progress = record {
  restored_count = 0;
  skipped_count = 0;
  failed_count = 0;
  verified_count = 0;
  verify_failed_count = 0;
  bytes_restored = 0;
  hardlinks_restored = 0;
  directories = [];
  restored_files = [];
}

-- `if node.node_type == NodeType::File { bytes_restored += node.size; … }`
abbrev pub add_bytes : Bool → ℕ → Progress → Progress
add_bytes false size p = p
add_bytes true size p = record p { bytes_restored = (p.bytes_restored + size) % 2 ^ 64 }

unfoldable pub skip_node : TreeNode → Progress → Progress
unfolding is_file
skip_node node p =
    add_bytes (is_file node) node.size (record p { skipped_count = p.skipped_count + 1 })

-- What the branches note down while they restore.
unfoldable pub note_directory : NodeType → Bool → TreeNode → String → Progress → Progress
note_directory directory false node path p = record p { directories = (path, node) ∷ p.directories }
note_directory _ _ node path p = p

unfoldable pub note_file :
    NodeType → Bool → Option String → Bool → String → String → Progress → Progress
note_file file false none true name path p = record p {
  restored_files = insert name path p.restored_files;
}
note_file _ _ _ _ name path p = p

-- The verification that was made, if one was.
abbrev pub count_verified : Option Bool → Progress → Progress
count_verified none p = p
count_verified (some true) p = record p { verified_count = p.verified_count + 1 }
count_verified (some false) p = record p { verify_failed_count = p.verify_failed_count + 1 }

abbrev pub count_hardlink : Bool → Progress → Progress
count_hardlink false p = p
count_hardlink true p = record p { hardlinks_restored = p.hardlinks_restored + 1 }

unfoldable pub count_result : RestoreCommand → TreeNode → Bool → Option Bool → Progress → Progress
count_result cmd node false verified p = record p { failed_count = p.failed_count + 1 }
count_result cmd node true verified p = count_verified verified (
    count_hardlink (is_some node.hardlink_target && not cmd.no_hardlinks)
      (record p { restored_count = p.restored_count + 1 }))
