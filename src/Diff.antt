-- ===== src/Diff.antt =====
-- cli/src/commands/diff.rs: what has changed from one tree to another, by name, and the snapshot that a
-- prefix of an id names (restore.rs and copy.rs have the same function).
pub mod Comparing
pub mod Changes
use Prim.Native.String.{compare, len}
use text.Mathlib.Text.{is_lt, starts_with}
use ghostsnap.Prelude.{
  ℕ, String, Bool, true, false, not, ◌&&◌, ◌||◌, ◌==◌, string_eq, list_eq, list_beq, Option, none,
  some, List, [], ◌∷◌, ◌++◌, map, if◌then◌else◌, nat_beq, leb, retain, Map, lookup, insert,
  contains_key,
}
use ghostsnap.Errors.{Error, Result, ok, err}
use ghostsnap.Action.{Action, ◌>>=◌, pure, lift}
use ghostsnap.Types.{ChunkId, SnapshotId}
use ghostsnap.Snapshot.{NodeType, file, directory, symlink, TreeNode, Tree, Snapshot}
use ghostsnap.Snapshot.Encoding.{Json, JsonTree}
use ghostsnap.Repository.{Crates, Repository}
use ghostsnap.Repository.Objects.{list_snapshots, load_snapshot, load_tree}

pub record FileInfo : Type 0 where
  pub name : String
  pub node_type : NodeType
  pub size : ℕ
  pub mode : ℕ
  pub uid : ℕ
  pub gid : ℕ
  pub mtime : ℕ
  pub chunks : List ChunkId
  pub link_target : Option String

pub data ChangeType : Type 0 where
  added : ChangeType
  removed : ChangeType
  modified : ℕ → ℕ → ChangeType
  type_changed : NodeType → NodeType → ChangeType
  metadata_changed : ChangeType

-- `PartialEq` of the types compared.
abbrev pub same_type : NodeType → NodeType → Bool
same_type file file = true
same_type directory directory = true
same_type symlink symlink = true
same_type _ _ = false

abbrev pub same_chunks : List ChunkId → List ChunkId → Bool
same_chunks [] [] = true
same_chunks [] (y ∷ ys) = false
same_chunks (x ∷ xs) [] = false
same_chunks (x ∷ xs) (y ∷ ys) = list_beq x y && same_chunks xs ys

abbrev pub same_target : Option String → Option String → Bool
same_target none none = true
same_target none (some t) = false
same_target (some s) none = false
same_target (some s) (some t) = s == t

unfoldable pub info_of : TreeNode → FileInfo
info_of n = record {
  name = n.name;
  node_type = n.node_type;
  size = n.size;
  mode = n.mode;
  uid = n.uid;
  gid = n.gid;
  mtime = n.mtime;
  chunks = map (λ c. c.id) n.chunks;
  link_target = n.link_target;
}

-- The map by name; of two nodes with one name the later one stays.
unfoldable pub files_of : List TreeNode → Map String FileInfo → Map String FileInfo
unfolding info_of
files_of [] files = files
files_of (n ∷ ns) files = files_of ns (insert n.name (info_of n) files)

-- The comparison of a file that is in both trees.
unfoldable pub change_of : Bool → FileInfo → FileInfo → Option ChangeType
change_of metadata a b =
    if not (same_type a.node_type b.node_type)
    then some (type_changed a.node_type b.node_type)
    else (if not (same_chunks a.chunks b.chunks)
        then some (modified a.size b.size)
        else (if not (same_target a.link_target b.link_target)
            then some (modified a.size b.size)
            else (if metadata
                  && (not (nat_beq a.mode b.mode)
                      || not (nat_beq a.uid b.uid)
                      || not (nat_beq a.gid b.gid)
                      || not (nat_beq a.mtime b.mtime))
                then some metadata_changed
                else none)))

abbrev pub Change : Type 0
Change = String × ChangeType

-- `for name in files.keys() { if !others.contains_key(name) { … } }`
unfoldable pub missing_in : ChangeType → Map String FileInfo → Map String FileInfo → List Change
missing_in change others [] = []
missing_in change others ((name, info) ∷ files) =
    let rest = missing_in change others files in
    if not (contains_key name others) then (name, change) ∷ rest else rest

abbrev pub push_change : String → Option ChangeType → List Change → List Change
push_change name none changes = changes
push_change name (some change) changes = (name, change) ∷ changes

abbrev pub change_in : Bool → FileInfo → Option FileInfo → Option ChangeType
change_in metadata a none = none
change_in metadata a (some b) = change_of metadata a b

unfoldable pub differing : Bool → Map String FileInfo → Map String FileInfo → List Change
unfolding change_of
differing metadata others [] = []
differing metadata others ((name, info) ∷ files) =
    push_change name (change_in metadata info (lookup name others))
      (differing metadata others files)

-- `changes.sort_by(|a, b| a.0.cmp(&b.0))`
abbrev pub place : Change → List Change → List Change
place c [] = c ∷ []
place c (d ∷ ds) = let rest = place c ds in if is_lt (compare d.0 c.0) then d ∷ rest else c ∷ d ∷ ds

abbrev pub sort_by_name : List Change → List Change
sort_by_name [] = []
sort_by_name (c ∷ cs) = place c (sort_by_name cs)

-- What `run` prints, from the two trees.
unfoldable pub changes : Bool → Tree → Tree → List Change
unfolding files_of missing_in differing
changes metadata tree1 tree2 =
    let files1 = files_of tree1.nodes [] in
    let files2 = files_of tree2.nodes [] in
    sort_by_name (
      missing_in added files1 files2
      ++ (missing_in removed files2 files1 ++ differing metadata files2 files1))

unfoldable pub choose : String → List SnapshotId → Result SnapshotId
choose prefix [] = err (Error.other "No snapshot found with ID starting with the prefix")
choose prefix (id ∷ []) = ok id
choose prefix (id ∷ id' ∷ ids) = err (Error.other "Ambiguous snapshot ID")

module _ {S C F : Type 0} (crates : Crates S C) (sort : List String → List String) where
  unfoldable pub resolve_snapshot_id : String → Action (Repository S C F) SnapshotId
  unfolding list_snapshots choose
  resolve_snapshot_id snapshot_id = if leb 36 (len snapshot_id) then pure snapshot_id else (do
    all_snapshots ← list_snapshots crates sort
    lift (choose snapshot_id (retain (λ id. starts_with id snapshot_id) all_snapshots)))

module _ {S C F : Type 0} (crates : Crates S C) (snapshots : Json Snapshot) (trees : JsonTree)
    (sort : List String → List String) where
  -- `run`, up to the printing.
  unfoldable pub run : Bool → String → String → Action (Repository S C F) (List Change)
  unfolding resolve_snapshot_id load_snapshot load_tree changes
  run metadata snapshot1 snapshot2 = do
    id1 ← resolve_snapshot_id crates sort snapshot1
    id2 ← resolve_snapshot_id crates sort snapshot2
    s1 ← load_snapshot crates snapshots id1
    s2 ← load_snapshot crates snapshots id2
    tree1 ← load_tree crates trees s1.tree
    tree2 ← load_tree crates trees s2.tree
    pure (changes metadata tree1 tree2)
