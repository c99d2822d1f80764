-- ===== src/Tests/ScanTests.antt =====
-- The scan of a directory with a file that has two names, and the holes of a sparse file.
use ghostsnap.Prelude.{
  ℕ, ◌≡◌, refl, true, false, Option, none, some, List, [], ◌∷◌, leb, arith, if◌then◌else◌,
}
use ghostsnap.Errors.{ok}
use ghostsnap.Snapshot.{file}
use ghostsnap.Backup.Holes.{Metadata, Scanner, IsStill, AreHoles, find_holes, find_holes-AreHoles}
use ghostsnap.Backup.Scan.{
  GlobSet, ScanOptions, Scanned, nothing_scanned, scan, scan_entries, scan_entry, push_entry,
  push_file, file_item, should_exclude, check_exclude_if_present,
}
use ghostsnap.Backup.Links.{AllLinked, scan-AllLinked}

abbrev metadata : Metadata
metadata = record {
  file_type = some file;
  len = 8;
  mode = 420;
  uid = 0;
  gid = 0;
  inode = 5;
  nlink = 2;
  dev = 1;
  modified = some 9;
}

-- A hole from the second byte to the sixth in every file.
abbrev hole_at : ℕ → Option ℕ
hole_at pos = if leb pos 2 then some 2 else none

abbrev data_at : ℕ → Option ℕ
data_at pos = if leb pos 6 then some 6 else none

abbrev scanner : Scanner
scanner = record {
  walk = λ same root. "/d/a" ∷ "/d/b" ∷ [];
  strip_prefix_of = λ root path. none;
  file_name = λ path. none;
  parent = λ path. none;
  join = λ dir name. name;
  is_dir = λ path. false;
  exists_at = λ path. true;
  metadata = λ path. some metadata;
  read_link = λ path. none;
  list_xattrs = λ path. none;
  get_xattr = λ path name. none;
  to_str = λ name. none;
  can_open = λ path. true;
  seek_hole = λ path pos. hole_at pos;
  seek_data = λ path pos. data_at pos;
}

scanner-IsStill : IsStill scanner "/d/a" 8
scanner-IsStill = record {
  hole_after = λ pos s h. ground (arith, h);
  data_after = λ pos s e h p. (ground (arith, h, p), ground (arith, h, p));
}

find_holes-AreHoles_example :
    (holes : List (ℕ × ℕ)) × (find_holes scanner "/d/a" 8 8 0 ≡ some holes) × AreHoles 8 0 holes
find_holes-AreHoles_example = find_holes-AreHoles scanner "/d/a" 8 scanner-IsStill (omega arith)

abbrev options : ScanOptions
options = record {
  exclude_if_present = [];
  one_file_system = false;
  no_xattr = true;
  no_hardlinks = false;
  max_file_size = some 100;
}

abbrev no_patterns : GlobSet
no_patterns = record { is_empty = true; is_match = λ path. false }

abbrev scanned : Scanned
scanned = record {
  total_files = 2;
  total_dirs = 0;
  total_symlinks = 0;
  total_hardlinks = 1;
  total_size = 16;
  skipped_large = 0;
  inode_map = (1 ∷ 5 ∷ [], "/d/a") ∷ [];
  file_list =
      file_item scanner "/d/b" "/d/b" metadata none true (some "/d/a")
      ∷ file_item scanner "/d/a" "/d/a" metadata none true none
      ∷ [];
}

found : scan scanner options no_patterns ("/d" ∷ []) nothing_scanned ≡ ok scanned
unfolding scan scan_entries scan_entry push_entry push_file should_exclude check_exclude_if_present
found = refl

scan-AllLinked_example : AllLinked scanned.file_list
scan-AllLinked_example = scan-AllLinked scanner options no_patterns ("/d" ∷ []) scanned found
