-- ===== src/Backup/Links.antt =====
-- Which file a hard link of a scan stands for.
use ghostsnap.Prelude.{
  ℕ, ◌≡◌, refl, sym, ap, ◌∙◌, String, Bool, true, false, ◌&&◌, not, Option, none, some, List, [],
  ◌∷◌, lookup, lookup-insert, any, is_some, list_eq, string_eq, ◌==◌, arith, Bool-cases, inl, inr,
  beq_refl,
}
use mathlib.Core.Path.{subst}
use ghostsnap.Errors.{ok, ok-injective}
use ghostsnap.Foreign.{Bytes}
use ghostsnap.Snapshot.{NodeType, file, directory, symlink, is_file}
use ghostsnap.Backup.Holes.{Metadata, Scanner}
use ghostsnap.Backup.Scan.{
  GlobSet, ScanOptions, Item, Scanned, nothing_scanned, inode_key, should_exclude,
  check_exclude_if_present, is_large, push_file, file_item, push_entry, push_if, scan_entry,
  scan_entries, scan, relative_path,
}

-- A file of that name that is no hard link.
abbrev pub is_original : String → Item → Bool
is_original name i =
    is_file i.node
    && (not i.is_hardlink && (not (is_some i.node.hardlink_target) && i.node.name == name))

-- An item after the items before it: it is marked as a hard link when it names a target, which is one of them.
pub record IsLinked (i : Item) (before : List Item) : Type 0 where
  pub marked : i.is_hardlink ≡ is_some i.node.hardlink_target
  pub found :
      (target : String)
      → i.node.hardlink_target ≡ some target
      → any (is_original target) before ≡ true

-- The last item comes first.
abbrev pub AllLinked : List Item → Type 0
AllLinked [] = Unit
AllLinked (i ∷ before) = IsLinked i before × AllLinked before

record IsTracked (s : Scanned) : Type 0 where
  linked : AllLinked s.file_list
  known :
      (key : List ℕ) (name : String)
      → lookup key s.inode_map ≡ some name
      → any (is_original name) s.file_list ≡ true

any-more :
    (name : String) (i : Item) (items : List Item)
    → any (is_original name) items ≡ true
    → any (is_original name) (i ∷ items) ≡ true
any-more name i items h = ground (arith, h)

any-original :
    (i : Item) (items : List Item)
    → is_file i.node ≡ true
    → i.is_hardlink ≡ false
    → i.node.hardlink_target ≡ none
    → any (is_original i.node.name) (i ∷ items) ≡ true
any-original i items f plain alone = rw (f, plain, alone, beq_refl i.node.name) refl

-- An item that is no link, and does not change the map.
push-IsTracked :
    (i : Item) (s t : Scanned)
    → i.is_hardlink ≡ false
    → i.node.hardlink_target ≡ none
    → t.file_list ≡ i ∷ s.file_list
    → t.inode_map ≡ s.inode_map
    → IsTracked s
    → IsTracked t
push-IsTracked i s t plain alone list map v = record {
  linked = subst AllLinked (sym list) (
    record { marked = plain ∙ sym (ap is_some alone); found = λ target h. absurd (cc (alone, h)) },
    v.linked,
  );
  known = λ key name h.
      ap (any (is_original name)) list
      ∙ any-more name i s.file_list (v.known key name (ap (lookup key) (sym map) ∙ h));
}

same-IsTracked :
    (s t : Scanned)
    → t.file_list ≡ s.file_list
    → t.inode_map ≡ s.inode_map
    → IsTracked s
    → IsTracked t
same-IsTracked s t list map v = record {
  linked = subst AllLinked (sym list) v.linked;
  known = λ key name h.
      ap (any (is_original name)) list ∙ v.known key name (ap (lookup key) (sym map) ∙ h);
}

module _ (scanner : Scanner) (options : ScanOptions) where
  push_file-IsTracked :
      (path name : String) (metadata : Metadata) (xattr : Option (List (String × Bytes)))
      (linked : Bool) (first : Option String) (s : Scanned)
      → lookup (inode_key metadata) s.inode_map ≡ first
      → IsTracked s
      → IsTracked (push_file scanner path name metadata xattr linked first s)
  unfolding push_file is_file
  push_file-IsTracked path name metadata xattr false first s e v =
      push-IsTracked (file_item scanner path name metadata xattr false none) s _ refl refl refl refl
        v
  push_file-IsTracked path name metadata xattr true none s e v = record {
    linked = (record { marked = refl; found = λ target h. absurd (cc (h)) }, v.linked);
    known = λ key other h.
        let t = push_file scanner path name metadata xattr true none s in
        let item = file_item scanner path name metadata xattr in
        elim (Bool-cases (inode_key metadata == key)) [
          | inl same ↦
              let is : some name ≡ some other =
                sym (rw (lookup-insert (inode_key metadata) key name s.inode_map, same) refl) ∙ h in
              let named : name ≡ other = cc (is) in
              subst (λ x. any (is_original x) t.file_list ≡ true) named
                (any-original (item true none) s.file_list refl refl refl)
          | inr apart ↦
              let old : lookup key s.inode_map ≡ some other =
                sym (rw (lookup-insert (inode_key metadata) key name s.inode_map, apart) refl)
                ∙ h in
              any-more other (item true none) s.file_list (v.known key other old)
        ];
  }
  push_file-IsTracked path name metadata xattr true (some first_path) s e v = record {
    linked = (
      record {
        marked = refl;
        found = λ target h.
            let is : first_path ≡ target = cc (h) in
            subst (λ t. any (is_original t) s.file_list ≡ true) is
              (v.known (inode_key metadata) first_path e);
      },
      v.linked,
    );
    known = λ key other h.
        any-more other (file_item scanner path name metadata xattr true (some first_path))
          s.file_list (v.known key other h);
  }

  push_entry-IsTracked :
      (path name : String) (metadata : Metadata) (xattr : Option (List (String × Bytes)))
      (t : Option NodeType) (s : Scanned)
      → IsTracked s
      → IsTracked (push_entry scanner options path name metadata xattr t s)
  unfolding push_entry
  push_entry-IsTracked path name metadata xattr none s v = v
  push_entry-IsTracked path name metadata xattr (some file) s v =
      elim (Bool-cases (is_large options.max_file_size metadata.len)) [
        | inl e ↦ rw e (same-IsTracked s _ refl refl v)
        | inr e ↦ rw e (push_file-IsTracked path name metadata xattr _ _ s refl v)
      ]
  push_entry-IsTracked path name metadata xattr (some directory) s v =
      push-IsTracked _ s _ refl refl refl refl v
  push_entry-IsTracked path name metadata xattr (some symlink) s v =
      push-IsTracked _ s _ refl refl refl refl v

  push_if-IsTracked :
      (path name : String) (metadata : Option Metadata) (s : Scanned)
      → IsTracked s
      → IsTracked (push_if scanner options path name metadata s)
  push_if-IsTracked path name none s v = v
  push_if-IsTracked path name (some metadata) s v =
      push_entry-IsTracked path name metadata _ metadata.file_type s v

  scan_entry-IsTracked :
      (excludes : GlobSet) (root path : String) (s : Scanned)
      → IsTracked s
      → IsTracked (scan_entry scanner options excludes root path s)
  unfolding scan_entry
  scan_entry-IsTracked excludes root path s v =
      elim (Bool-cases (should_exclude scanner excludes path)) [
        | inl e ↦ rw e v
        | inr e ↦
            rw e
              (elim (Bool-cases
                (check_exclude_if_present scanner options.exclude_if_present path)) [
                  | inl m ↦ rw m v
                  | inr m ↦ rw m (
                      push_if-IsTracked path (relative_path scanner root path)
                        (scanner.metadata path) s v)
                ])
      ]

  scan_entries-IsTracked :
      (excludes : GlobSet) (root : String) (paths : List String) (s : Scanned)
      → IsTracked s
      → IsTracked (scan_entries scanner options excludes root paths s)
  unfolding scan_entries
  scan_entries-IsTracked excludes root [] s v = v
  scan_entries-IsTracked excludes root (path ∷ paths) s v =
      scan_entries-IsTracked excludes root paths _ (scan_entry-IsTracked excludes root path s v)

  scan-IsTracked :
      (excludes : GlobSet) (roots : List String) (s t : Scanned)
      → IsTracked s
      → scan scanner options excludes roots s ≡ ok t
      → IsTracked t
  unfolding scan
  scan-IsTracked excludes [] s t v h = subst IsTracked (ok-injective s t h) v
  scan-IsTracked excludes (root ∷ roots) s t v h = elim (Bool-cases (scanner.exists_at root)) [
    | inl e ↦
        scan-IsTracked excludes roots _ t
          (scan_entries-IsTracked excludes root (scanner.walk options.one_file_system root) s v)
          (rw e at h)
    | inr e ↦ absurd (cc (rw e at h))
  ]

  -- When the scan of a backup succeeds, each item of its list is marked as a hard link just if it names a target,
  -- and then the target is the name of a file that comes before it in the list and is no hard link itself.
  pub scan-AllLinked :
      (excludes : GlobSet) (roots : List String) (t : Scanned)
      → scan scanner options excludes roots nothing_scanned ≡ ok t
      → AllLinked t.file_list
  scan-AllLinked excludes roots t h =
      let start : IsTracked nothing_scanned = record {
        linked = tt;
        known = λ key name p. absurd (cc (p));
      } in
      (scan-IsTracked excludes roots nothing_scanned t start h).linked
