-- ===== src/Restore/Files.antt =====
-- cli/src/commands/restore.rs: what is written to the file system for one node, on Unix. Paths are texts; a
-- failure that the program only logs (of chown, utimensat, fallocate and the setting of an attribute) is left
-- to the file system.
use ghostsnap.Prelude.{
  ℕ, ◌≡◌, String, Bool, true, false, ◌||◌, Option, none, some, List, [], ◌∷◌, has_code,
  if◌then◌else◌,
}
use ghostsnap.Errors.{Error, Result, ok, err, ok_or}
use ghostsnap.Action.{Action, ◌>>=◌, pure, lift, modify, attempt}
use ghostsnap.Foreign.{Bytes}
use ghostsnap.Index.{Bloom}
use ghostsnap.Snapshot.{TreeNode}
use ghostsnap.Repository.{Crates, Repository}
use ghostsnap.Restore.{restored_content}

-- The calls of std, libc and xattr. `content` is what stands in a file, whoever may read it.
pub record FileSystem (D : Type 0) : Type 0 where
  pub is_root : Bool
  pub parent : String → Option String
  pub join : String → String → String
  pub exists_at : String → D → Bool
  pub has_symlink_metadata : String → D → Bool
  pub create_dir_all : String → Action D Unit
  pub read : String → D → Result Bytes
  pub write : String → Bytes → Action D Unit
  pub remove_file : String → Action D Unit
  pub symlink : String → String → Action D Unit
  pub hard_link : String → String → Action D Unit
  pub set_permissions : String → ℕ → Action D Unit
  pub open_for_writing : String → D → Result {0} Unit
  pub chown : String → ℕ → ℕ → D → D
  pub lchown : String → ℕ → ℕ → D → D
  pub utimensat : String → ℕ → D → D
  pub set_xattr : String → String → Bytes → D → D
  pub punch_hole : String → ℕ → ℕ → D → D
  pub content : String → D → Option Bytes
  pub content-read :
      (p : String) (bytes : Bytes) (d : D) → read p d ≡ ok bytes → content p d ≡ some bytes
  pub content-write :
      (p : String) (bytes : Bytes) (d d' : D)
      → write p bytes d ≡ (ok tt, d')
      → content p d' ≡ some bytes
  pub content-set_permissions :
      (p q : String) (mode : ℕ) (d : D) → content q (set_permissions p mode d).1 ≡ content q d
  pub content-chown :
      (p q : String) (uid gid : ℕ) (d : D) → content q (chown p uid gid d) ≡ content q d
  pub content-utimensat :
      (p q : String) (mtime : ℕ) (d : D) → content q (utimensat p mtime d) ≡ content q d
  pub content-set_xattr :
      (p q name : String) (value : Bytes) (d : D)
      → content q (set_xattr p name value d) ≡ content q d

-- The flags and arguments of the command.
pub record RestoreCommand : Type 0 where
  pub snapshot_id : String
  pub target : String
  pub paths : List String
  pub no_permissions : Bool
  pub no_ownership : Bool
  pub overwrite : Bool
  pub dry_run : Bool
  pub no_xattr : Bool
  pub no_timestamps : Bool
  pub sparse : Bool
  pub verify : Bool
  pub no_hardlinks : Bool

module _ {R : Type 0} where
  -- `if !skip { step }`
  abbrev pub unless : Bool → Action R Unit → Action R Unit
  unless true step = pure tt
  unless false step = step

-- `CString::new`
abbrev pub c_string : {R : Type 0} → String → Action R Unit
c_string path = if has_code 0 path then lift (err (Error.other "NulError")) else pure tt

module _ {D : Type 0} (files : FileSystem D) where
  unfoldable pub set_ownership : String → ℕ → ℕ → Action D Unit
  set_ownership path uid gid =
      unless (if files.is_root then false else true)
        (do checked ← c_string path; modify (files.chown path uid gid))

  unfoldable pub set_timestamps : String → ℕ → Action D Unit
  set_timestamps path mtime = do checked ← c_string path; modify (files.utimensat path mtime)

  unfoldable pub restore_xattrs : String → List (String × Bytes) → Action D Unit
  restore_xattrs path [] = pure tt
  restore_xattrs path ((name, value) ∷ xattrs) = do
    set ← modify (files.set_xattr path name value)
    restore_xattrs path xattrs

  abbrev pub restore_some_xattrs : String → Option (List (String × Bytes)) → Action D Unit
  restore_some_xattrs path none = pure tt
  restore_some_xattrs path (some xattrs) = restore_xattrs path xattrs

  unfoldable pub punch_each : String → List (ℕ × ℕ) → D → D
  punch_each path [] d = d
  punch_each path ((offset, length) ∷ holes) d =
      punch_each path holes (files.punch_hole path offset length d)

  unfoldable pub punch_holes : String → List (ℕ × ℕ) → Action D Unit
  unfolding punch_each
  punch_holes path holes = do
    file ← (λ d. (files.open_for_writing path d, d))
    modify (punch_each path holes)

  abbrev pub punch_some : String → Option (List (ℕ × ℕ)) → Action D Unit
  punch_some path none = pure tt
  punch_some path (some []) = pure tt
  punch_some path (some (hole ∷ holes)) = punch_holes path (hole ∷ holes)

  abbrev pub create_some : Option String → Action D Unit
  create_some none = pure tt
  create_some (some parent) = files.create_dir_all parent

  -- `if let Some(parent) = dest_path.parent() { … }`
  abbrev pub create_parent : String → Action D Unit
  create_parent path = create_some (files.parent path)

  unfoldable pub restore_directory : RestoreCommand → TreeNode → String → Action D Unit
  unfolding set_ownership restore_xattrs
  restore_directory cmd node path = do
    made ← files.create_dir_all path
    permitted ← unless cmd.no_permissions (files.set_permissions path node.mode)
    owned ← unless cmd.no_ownership (set_ownership path node.uid node.gid)
    unless cmd.no_xattr (restore_some_xattrs path node.xattr)

  -- `restore_file` after the content was written.
  unfoldable pub finish_file : RestoreCommand → TreeNode → String → Action D Unit
  unfolding punch_holes set_ownership set_timestamps restore_xattrs
  finish_file cmd node path = do
    punched ← unless (if cmd.sparse then false else true) (punch_some path node.sparse_holes)
    permitted ← unless cmd.no_permissions (files.set_permissions path node.mode)
    owned ← unless cmd.no_ownership (set_ownership path node.uid node.gid)
    dated ← unless cmd.no_timestamps (set_timestamps path node.mtime)
    unless cmd.no_xattr (restore_some_xattrs path node.xattr)

  -- `fs::remove_file(…).await.ok()`
  abbrev pub remove_if : Bool → String → Action D Unit
  remove_if false path = pure tt
  remove_if true path = do removed ← attempt (files.remove_file path); pure tt

  unfoldable pub restore_symlink : RestoreCommand → TreeNode → String → Action D Unit
  restore_symlink cmd node path = do
    link_target ← lift (ok_or node.link_target (Error.other "Symlink has no target"))
    made ← create_parent path
    removed ← (λ d. remove_if (files.exists_at path d || files.has_symlink_metadata path d) path d)
    linked ← files.symlink link_target path
    unless cmd.no_ownership
        (do checked ← c_string path; modify (files.lchown path node.uid node.gid))

  abbrev pub remove_existing : Bool → String → Action D Unit
  remove_existing false path = pure tt
  remove_existing true path = files.remove_file path

  unfoldable pub restore_hardlink : String → String → Action D Unit
  restore_hardlink original_path path = do
    made ← create_parent path
    removed ← (λ d. remove_existing (files.exists_at path d) path d)
    files.hard_link original_path path

-- A step on the repository, and one on the file system, where both are at hand.
module _ {R D A : Type 0} where
  abbrev pub on_repo : Action R A → Action (R × D) A
  on_repo step (r, d) = let run = step r in (run.0, (run.1, d))

  abbrev pub on_files : Action D A → Action (R × D) A
  on_files step (r, d) = let run = step d in (run.0, (r, run.1))

module _ {S C F D : Type 0} ⦃b : Bloom F⦄ (crates : Crates S C) (files : FileSystem D) where
  unfoldable pub restore_file :
      RestoreCommand → TreeNode → String → Action (Repository S C F × D) Unit
  unfolding restored_content finish_file
  restore_file cmd node path = do
    made ← on_files (create_parent files path)
    file_data ← on_repo (restored_content crates node)
    written ← on_files (files.write path file_data)
    on_files (finish_file files cmd node path)
