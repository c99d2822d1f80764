-- ===== src/Tests/WritingTests.antt =====
-- A restore into a file system of contents by path.
use Prim.Native.String.{◌++◌}
use ghostsnap.Prelude.{
  ℕ, ◌+◌, ◌≤◌, ◌≡◌, refl, ap, sym, ◌∙◌, String, true, false, none, some, List, [], ◌∷◌, Map, lookup,
  insert, remove, lookup-insert, is_some, list_eq, string_eq, arith,
}
use mathlib.Core.Path.{subst}
use ghostsnap.Errors.{Error, Result, ok, err, ok_or, ok_or-eq-ok}
use ghostsnap.Foreign.{Bytes}
use ghostsnap.Index
use ghostsnap.Index.{new, add_chunk, has_chunk}
use ghostsnap.Pack
use ghostsnap.Pack.Encoding.{from_encrypted_bytes, check_pack}
use ghostsnap.Pack.Frames.{read_frame, read_exact, from_le_bytes}
use ghostsnap.Pack.Manager as Manager
use ghostsnap.Crypto.{decrypt}
use ghostsnap.Chunker
use ghostsnap.Chunker.{new_default}
use ghostsnap.Snapshot.{TreeNode, file, directory, is_file, is_dir}
use ghostsnap.Storage.{pack_path}
use ghostsnap.Repository.{encryptor_of, load_pack, load_chunk, Repository}
use ghostsnap.Restore.{verify_file, restored_content, compare_content, read_chunks}
use ghostsnap.Restore.RoundTrip.{HoldsAll}
use ghostsnap.Restore.Files.{
  FileSystem, RestoreCommand, restore_file, finish_file, set_timestamps, set_ownership,
  restore_xattrs, restore_directory,
}
use ghostsnap.Restore.Run.{
  run, restore_selected, restore_nodes, restore_next, restore_node, restore_as_file, result_of,
  verify_restored, restore_times,
}
use ghostsnap.Restore.Progress.{Progress, note_directory, note_file, count_result}
use ghostsnap.Restore.Selection.{sort_nodes, place, by_name}
use ghostsnap.Restore.DryRun.{run-IsQuiet}
use ghostsnap.Restore.Counts.{restore_selected-IsCounted}
use ghostsnap.Restore.Written.{content-restore_file-process_file}
use ghostsnap.Tests.Stores.{Slot}
use ghostsnap.Tests.Crates.{sample_value, print}
use ghostsnap.Tests.Packs.{nonces}
use ghostsnap.Tests.ObjectsTests as Objects
use ghostsnap.Tests.ObjectsTests.{start, snapshots, trees}
use ghostsnap.Tests.RestoreTests.{
  bloom, whole_file, content, crates, holding, holding-IsCoherent, holding-Holds, the_chunk, cut,
  ref, processed,
}

abbrev World : Type 0
World = Map String Bytes

written_lem :
    (p : String) (bytes : Bytes) (d d' : World)
    → Path (Result {0} Unit × World) (ok tt, insert p bytes d) (ok tt, d')
    → lookup p d' ≡ some bytes
written_lem p bytes d d' h =
    ap (lookup p) (sym (ap (λ run. run.1) h))
    ∙ rw (lookup-insert p p bytes d) (ground (arith, string_eq.beq_iff p p))

abbrev files : FileSystem World
files = record {
  is_root = true;
  parent = λ p. some "/t";
  join = λ target name. target ++ ("/" ++ name);
  exists_at = λ p d. is_some (lookup p d);
  has_symlink_metadata = λ p d. false;
  create_dir_all = λ p d. (ok tt, insert p [] d);
  read = λ p d. ok_or (lookup p d) (Error.io "not found");
  write = λ p bytes d. (ok tt, insert p bytes d);
  remove_file = λ p d. (ok tt, remove p d);
  symlink = λ target p d. (ok tt, insert p [] d);
  hard_link = λ original p d. (err (Error.io "no links"), d);
  set_permissions = λ p mode d. (ok tt, d);
  open_for_writing = λ p d. ok tt;
  chown = λ p uid gid d. d;
  lchown = λ p uid gid d. d;
  utimensat = λ p mtime d. d;
  set_xattr = λ p name value d. d;
  punch_hole = λ p offset length d. d;
  content = lookup;
  content-read = λ p bytes d h. ok_or-eq-ok _ _ h;
  content-write = written_lem;
  content-set_permissions = λ p q mode d. refl;
  content-chown = λ p q uid gid d. refl;
  content-utimensat = λ p q mtime d. refl;
  content-set_xattr = λ p q name value d. refl;
}

abbrev cmd : RestoreCommand
cmd = record {
  snapshot_id = "s";
  target = "/t";
  paths = [];
  no_permissions = false;
  no_ownership = false;
  overwrite = false;
  dry_run = false;
  no_xattr = false;
  no_timestamps = false;
  sparse = false;
  verify = true;
  no_hardlinks = false;
}

abbrev node : TreeNode
node = record {
  name = "d/f";
  node_type = file;
  mode = 420;
  uid = 0;
  gid = 0;
  size = 1;
  mtime = 7;
  link_target = none;
  subtree_id = none;
  chunks = ref ∷ [];
  xattr = none;
  sparse_holes = none;
  inode = none;
  nlink = none;
  hardlink_target = none;
}

abbrev dir : TreeNode
dir = record node { name = "d"; node_type = directory; chunks = [] }

run-IsQuiet_example :
    (run Objects.crates snapshots trees
      (λ ids. ids)
      files
      (record cmd { dry_run = true })
      (start, [])).1.1
    ≡ []
run-IsQuiet_example =
    run-IsQuiet Objects.crates snapshots trees (λ ids. ids) files (record cmd { dry_run = true })
      refl (start, [])

abbrev restored : Result {0} Unit × (Repository World Slot (List (List ℕ)) × World)
restored = restore_file crates files cmd node "/t/d/f" (holding, [])

restored-ok : restored.0 ≡ ok tt
unfolding restore_file finish_file set_timestamps set_ownership restore_xattrs restored_content
    read_chunks load_chunk load_pack Chunker.id add_chunk new Index.get_chunk encryptor_of pack_path
    from_encrypted_bytes read_frame read_exact from_le_bytes decrypt sample_value check_pack
    Pack.verify_checksum Pack.compute_checksum print Pack.get_chunk Pack.read_entry Pack.slice
restored-ok = refl

content-restore_file-process_file_example : lookup "/t/d/f" restored.1.1 ≡ some content
content-restore_file-process_file_example =
    content-restore_file-process_file crates files cmd (λ id. nonces) (λ n. ("q", 0)) whole_file
      new_default content (ref ∷ [], 0, 1) (holding, Manager.new 100) (holding, Manager.new 100)
      node "/t/d/f" holding restored.1.0 [] restored.1.1 processed refl holding-IsCoherent
      (λ chunks made.
        let is : the_chunk ∷ [] ≡ chunks = cc (cut, made) in
        subst (HoldsAll crates holding) is (holding-Holds, tt))
      refl (ap (λ o. (o, restored.1)) restored-ok)

-- The file comes first here; the directory is restored before it.
abbrev both : Result Progress × (Repository World Slot (List (List ℕ)) × World)
both = restore_selected crates files cmd (node ∷ dir ∷ []) (node ∷ dir ∷ []) (holding, [])

abbrev counted : Progress
counted = record {
  restored_count = 2;
  skipped_count = 0;
  failed_count = 0;
  verified_count = 1;
  verify_failed_count = 0;
  bytes_restored = 1;
  hardlinks_restored = 0;
  directories = ("/t/d", dir) ∷ [];
  restored_files = ("d/f", "/t/d/f") ∷ [];
}

both-ok : both.0 ≡ ok counted
unfolding restore_selected restore_nodes restore_next restore_node restore_as_file result_of
    verify_restored verify_file compare_content sort_nodes place is_dir is_file by_name
    restore_times note_directory note_file count_result restore_directory restore_file finish_file
    set_timestamps set_ownership restore_xattrs restored_content read_chunks load_chunk load_pack
    Chunker.id add_chunk new Index.get_chunk encryptor_of pack_path from_encrypted_bytes read_frame
    read_exact from_le_bytes decrypt sample_value check_pack Pack.verify_checksum
    Pack.compute_checksum print Pack.get_chunk Pack.read_entry Pack.slice
both-ok = refl

restore_selected-IsCounted_example : (2 + 0 + 0 ≡ 2) × (1 + 0 ≤ 2) × (0 ≤ 2)
restore_selected-IsCounted_example =
    restore_selected-IsCounted crates files cmd (node ∷ dir ∷ []) (node ∷ dir ∷ []) counted
      (holding, []) both.1 (ap (λ o. (o, both.1)) both-ok)
