-- ===== src/Backup/Scan.antt =====
-- cli/src/commands/backup.rs: the scan of `run`, on Unix: which entries of the paths are backed up, as what, and
-- which files are hard links of others. The counters count entries; the sizes are summed in 64 bits.
use ghostsnap.Prelude.{
  ℕ, ◌+◌, ◌%◌, ◌^◌, String, Bool, true, false, ◌&&◌, ◌||◌, not, Option, none, some, List, [], ◌∷◌,
  Map, lookup, insert, any, is_some, list_eq, string_eq, ltb, if◌then◌else◌,
}
use ghostsnap.Errors.{Error, Result, ok, err}
use ghostsnap.Foreign.{Bytes}
use ghostsnap.Snapshot.{TreeNode, NodeType, file, directory, symlink}
use ghostsnap.Backup.Holes.{Metadata, Scanner, read_xattrs, detect_sparse_holes}

-- The compiled patterns of globset.
pub record GlobSet : Type 0 where
  pub is_empty : Bool
  pub is_match : String → Bool

-- The flags that the scan looks at, with the maximum size parsed.
pub record ScanOptions : Type 0 where
  pub exclude_if_present : List String
  pub one_file_system : Bool
  pub no_xattr : Bool
  pub no_hardlinks : Bool
  pub max_file_size : Option ℕ

-- An element of `file_list`.
pub record Item : Type 0 where
  pub path : String
  pub node : TreeNode
  pub is_hardlink : Bool

-- The counters, the paths that were first seen for a device and an inode (as a list of the two), and the
-- items, the last one first.
pub record Scanned : Type 0 where
  pub total_files : ℕ
  pub total_dirs : ℕ
  pub total_symlinks : ℕ
  pub total_hardlinks : ℕ
  pub total_size : ℕ
  pub skipped_large : ℕ
  pub inode_map : Map (List ℕ) String
  pub file_list : List Item

abbrev pub nothing_scanned : Scanned
nothing_scanned = record {
  total_files = 0;
  total_dirs = 0;
  total_symlinks = 0;
  total_hardlinks = 0;
  total_size = 0;
  skipped_large = 0;
  inode_map = [];
  file_list = [];
}

abbrev pub or_zero : Option ℕ → ℕ
or_zero none = 0
or_zero (some n) = n

abbrev pub matches_some : GlobSet → Option String → Bool
matches_some excludes none = false
matches_some excludes (some name) = excludes.is_match name

-- `if let Some(max_size) = max_file_size && metadata.len() > max_size`
abbrev pub is_large : Option ℕ → ℕ → Bool
is_large none len = false
is_large (some max_size) len = ltb max_size len

-- A node with what its type does not matter for.
abbrev pub node_of : NodeType → String → Metadata → Option (List (String × Bytes)) → TreeNode
node_of t name metadata xattr = record {
  name = name;
  node_type = t;
  mode = metadata.mode;
  uid = metadata.uid;
  gid = metadata.gid;
  size = 0;
  mtime = or_zero metadata.modified;
  link_target = none;
  subtree_id = none;
  chunks = [];
  xattr = xattr;
  sparse_holes = none;
  inode = none;
  nlink = none;
  hardlink_target = none;
}

abbrev pub inode_key : Metadata → List ℕ
inode_key metadata = metadata.dev ∷ metadata.inode ∷ []

abbrev pub count_file : Metadata → Scanned → Scanned
count_file metadata s = record s {
  total_files = s.total_files + 1;
  total_size = (s.total_size + metadata.len) % 2 ^ 64;
}

-- `if b { Some(n) } else { None }`
abbrev pub some_if : Bool → ℕ → Option ℕ
some_if false n = none
some_if true n = some n

module _ (scanner : Scanner) where
  unfoldable pub should_exclude : GlobSet → String → Bool
  should_exclude excludes path =
      if excludes.is_empty
      then false
      else (excludes.is_match path || matches_some excludes (scanner.file_name path))

  abbrev pub has_marker : List String → Option String → Bool
  has_marker markers none = false
  has_marker markers (some dir) =
      any (λ marker. scanner.exists_at (scanner.join dir marker)) markers

  unfoldable pub check_exclude_if_present : List String → String → Bool
  check_exclude_if_present [] path = false
  check_exclude_if_present (m ∷ ms) path =
      has_marker (m ∷ ms) (if scanner.is_dir path then some path else scanner.parent path)

  abbrev pub relative_path : String → String → String
  relative_path root path = elim (scanner.strip_prefix_of root path) [
    | none ↦ path
    | some rest ↦ rest
  ]

module _ (scanner : Scanner) where
  -- The item of a file, with the target of a hard link.
  abbrev pub file_item :
      String → String → Metadata → Option (List (String × Bytes)) → Bool → Option String → Item
  file_item path name metadata xattr linked target = record {
    path = path;
    node = record (node_of file name metadata xattr) {
      size = metadata.len;
      sparse_holes = detect_sparse_holes scanner path metadata.len;
      inode = some_if linked metadata.inode;
      nlink = some_if linked (metadata.nlink % 2 ^ 32);
      hardlink_target = target;
    };
    is_hardlink = is_some target;
  }

  -- A file, which may have more than one link; then `first` is what the map tells of its inode.
  unfoldable pub push_file :
      String
      → String
      → Metadata
      → Option (List (String × Bytes))
      → Bool
      → Option String
      → Scanned
      → Scanned
  push_file path name metadata xattr false first s = record (count_file metadata s) {
    file_list = file_item path name metadata xattr false none ∷ s.file_list;
  }
  push_file path name metadata xattr true none s = record (count_file metadata s) {
    inode_map = insert (inode_key metadata) name s.inode_map;
    file_list = file_item path name metadata xattr true none ∷ s.file_list;
  }
  push_file path name metadata xattr true (some first_path) s = record (count_file metadata s) {
    total_hardlinks = s.total_hardlinks + 1;
    file_list = file_item path name metadata xattr true (some first_path) ∷ s.file_list;
  }

module _ (scanner : Scanner) (options : ScanOptions) where
  unfoldable pub push_entry :
      String
      → String
      → Metadata
      → Option (List (String × Bytes))
      → Option NodeType
      → Scanned
      → Scanned
  unfolding push_file
  push_entry path name metadata xattr none s = s
  push_entry path name metadata xattr (some file) s =
      if is_large options.max_file_size metadata.len
      then record s { skipped_large = s.skipped_large + 1 }
      else push_file scanner path name metadata xattr
          (not options.no_hardlinks && ltb 1 (metadata.nlink % 2 ^ 32))
          (lookup (inode_key metadata) s.inode_map) s
  push_entry path name metadata xattr (some directory) s = record s {
    total_dirs = s.total_dirs + 1;
    file_list =
        record { path = path; node = node_of directory name metadata xattr; is_hardlink = false }
        ∷ s.file_list;
  }
  push_entry path name metadata xattr (some symlink) s = record s {
    total_symlinks = s.total_symlinks + 1;
    file_list =
        record {
          path = path;
          node = record (node_of symlink name metadata xattr) {
            link_target = scanner.read_link path;
          };
          is_hardlink = false;
        }
        ∷ s.file_list;
  }

  abbrev pub xattrs_unless : Bool → String → Option (List (String × Bytes))
  xattrs_unless true path = none
  xattrs_unless false path = read_xattrs scanner path

  -- An entry that is not excluded, whose metadata can be read or not.
  abbrev pub push_if : String → String → Option Metadata → Scanned → Scanned
  push_if path name none s = s
  push_if path name (some metadata) s =
      push_entry path name metadata (xattrs_unless options.no_xattr path) metadata.file_type s

  unfoldable pub scan_entry : GlobSet → String → String → Scanned → Scanned
  unfolding should_exclude check_exclude_if_present push_entry read_xattrs
  scan_entry excludes root path s =
      if should_exclude scanner excludes path
      then s
      else (if check_exclude_if_present scanner options.exclude_if_present path
          then s
          else push_if path (relative_path scanner root path) (scanner.metadata path) s)

  unfoldable pub scan_entries : GlobSet → String → List String → Scanned → Scanned
  unfolding scan_entry
  scan_entries excludes root [] s = s
  scan_entries excludes root (path ∷ paths) s =
      scan_entries excludes root paths (scan_entry excludes root path s)

  -- The loop over the paths of the command.
  unfoldable pub scan : GlobSet → List String → Scanned → Result Scanned
  unfolding scan_entries
  scan excludes [] s = ok s
  scan excludes (root ∷ roots) s =
      if not (scanner.exists_at root)
      then err (Error.other "Path does not exist")
      else scan excludes roots
          (scan_entries excludes root (scanner.walk options.one_file_system root) s)
