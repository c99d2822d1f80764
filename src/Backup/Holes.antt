-- ===== src/Backup/Holes.antt =====
-- cli/src/commands/backup.rs: what is asked of the file system in a scan, the holes of a sparse file
-- (`detect_sparse_holes`) and its extended attributes (`read_xattrs`), on Unix.
use ghostsnap.Prelude.{
  ℕ, zero, suc, ◌+◌, ◌-◌, ◌≤◌, ◌<◌, ◌≡◌, refl, String, Bool, true, false, Option, none, some, List,
  [], ◌∷◌, Map, insert, nat_beq, leb, ltb, arith, string_eq, if◌then◌else◌, Option-cases,
  Bool-cases, inl, inr,
}
use mathlib.Core.Path.{subst}
use ghostsnap.Foreign.{Bytes}
use ghostsnap.Snapshot.{NodeType}

-- std's `Metadata`; `modified` is none where the time is unknown or before 1970, and `file_type` where it is
-- something else than a file, a directory or a symbolic link.
pub record Metadata : Type 0 where
  pub file_type : Option NodeType
  pub len : ℕ
  pub mode : ℕ
  pub uid : ℕ
  pub gid : ℕ
  pub inode : ℕ
  pub nlink : ℕ
  pub dev : ℕ
  pub modified : Option ℕ

-- The calls of walkdir, std, xattr and libc, at one state of the file system. `seek_hole` and `seek_data` are
-- `lseek` with a result that is not negative; names of attributes are bytes, of which some are texts.
pub record Scanner : Type 0 where
  pub walk : Bool → String → List String
  pub strip_prefix_of : String → String → Option String
  pub file_name : String → Option String
  pub parent : String → Option String
  pub join : String → String → String
  pub is_dir : String → Bool
  pub exists_at : String → Bool
  pub metadata : String → Option Metadata
  pub read_link : String → Option String
  pub list_xattrs : String → Option (List Bytes)
  pub get_xattr : String → Bytes → Option Bytes
  pub to_str : Bytes → Option String
  pub can_open : String → Bool
  pub seek_hole : String → ℕ → Option ℕ
  pub seek_data : String → ℕ → Option ℕ

abbrev pub add_xattr : Option String → Option Bytes → Map String Bytes → Map String Bytes
add_xattr none value found = found
add_xattr (some name) none found = found
add_xattr (some name) (some value) found = insert name value found

-- `Some`, unless it is empty.
abbrev pub some_unless_empty : {A : Type 0} → List A → Option (List A)
some_unless_empty [] = none
some_unless_empty (x ∷ xs) = some (x ∷ xs)

-- The end of a hole: the next data, or the end of the file.
abbrev pub or_end : ℕ → Option ℕ → ℕ
or_end file_size none = file_size
or_end file_size (some hole_end) = hole_end

abbrev pub cons_hole : Bool → ℕ × ℕ → Option (List (ℕ × ℕ)) → Option (List (ℕ × ℕ))
cons_hole false hole rest = rest
cons_hole true hole none = none
cons_hole true hole (some holes) = some (hole ∷ holes)

module _ (scanner : Scanner) (path : String) where
  unfoldable pub read_each : List Bytes → Map String Bytes → Map String Bytes
  read_each [] found = found
  read_each (name ∷ names) found =
      read_each names (add_xattr (scanner.to_str name) (scanner.get_xattr path name) found)

  unfoldable pub read_xattrs : Option (Map String Bytes)
  unfolding read_each
  read_xattrs = elim (scanner.list_xattrs path) [
    | none ↦ none
    | some names ↦ some_unless_empty (read_each names [])
  ]

module _ (scanner : Scanner) (path : String) (file_size : ℕ) where
  -- The loop from a position on; none where the rounds do not suffice.
  unfoldable pub find_holes : ℕ → ℕ → Option (List (ℕ × ℕ))
  find_holes zero pos = none
  find_holes (suc rounds) pos = elim (scanner.seek_hole path pos) [
    | none ↦ some []
    | some hole_start ↦
        let hole_end = or_end file_size (scanner.seek_data path hole_start) in
        let rest = find_holes rounds hole_end in
        if leb file_size hole_start
        then some []
        else cons_hole (ltb hole_start hole_end) (hole_start, hole_end - hole_start)
            (if leb file_size hole_end then some [] else rest)
  ]

  abbrev pub holes_or_none : Option (List (ℕ × ℕ)) → Option (List (ℕ × ℕ))
  holes_or_none none = none
  holes_or_none (some holes) = some_unless_empty holes

  -- With as many rounds as the file has bytes.
  unfoldable pub detect_sparse_holes : Option (List (ℕ × ℕ))
  unfolding find_holes
  detect_sparse_holes =
      if nat_beq file_size 0
      then none
      else (if scanner.can_open path then holes_or_none (find_holes file_size 0) else none)

  -- What `lseek` documents of a file that does not change: the next hole is not before the position, and data is
  -- sought from a hole on, so that it is found after the start of the hole, and inside the file.
  pub record IsStill : Type 0 where
    pub hole_after : (pos s : ℕ) → scanner.seek_hole path pos ≡ some s → pos ≤ s
    pub data_after :
        (pos s e : ℕ)
        → scanner.seek_hole path pos ≡ some s
        → scanner.seek_data path s ≡ some e
        → (s < e) × (e ≤ file_size)

-- Holes from a position on: none is empty, each begins where the one before has ended or later, and the last
-- ends in the file.
abbrev pub AreHoles : ℕ → ℕ → List (ℕ × ℕ) → Type 0
AreHoles file_size pos [] = Unit
AreHoles file_size pos ((start, length) ∷ holes) =
    (pos ≤ start)
    × (0 < length)
    × (start + length ≤ file_size)
    × AreHoles file_size (start + length) holes

pub record Finds (file_size pos : ℕ) (result : Option (List (ℕ × ℕ))) : Type 0 where
  pub holes : List (ℕ × ℕ)
  pub is : result ≡ some holes
  pub all : AreHoles file_size pos holes

module _ (scanner : Scanner) (path : String) (file_size : ℕ)
    (still : IsStill scanner path file_size) where
  or_end-bounds :
      (pos s : ℕ)
      → scanner.seek_hole path pos ≡ some s
      → s < file_size
      → (s < or_end file_size (scanner.seek_data path s))
        × (or_end file_size (scanner.seek_data path s) ≤ file_size)
  or_end-bounds pos s h small = elim (Option-cases (scanner.seek_data path s)) [
    | inl e ↦ rw e (small, omega arith)
    | inr (x, e) ↦ rw e (still.data_after pos s x h e)
  ]

  cons_hole-Finds :
      (pos s e : ℕ) (rest : Option (List (ℕ × ℕ)))
      → pos ≤ s
      → s < e
      → e ≤ file_size
      → Finds file_size e rest
      → Finds file_size pos (cons_hole (ltb s e) (s, e - s) rest)
  cons_hole-Finds pos s e rest after grows inside found =
      let forward : ltb s e ≡ true = ground (arith, grows) in
      let whole : e ≡ s + (e - s) = omega (arith, grows) in
      rw (forward, found.is)
        (record {
          holes = (s, e - s) ∷ found.holes;
          is = refl;
          all = (
            after,
            omega (arith, grows),
            omega (arith, grows, inside),
            subst (λ x. AreHoles file_size x found.holes) whole found.all,
          );
        })

  find_holes-Finds :
      (rounds pos : ℕ)
      → pos < file_size
      → file_size ≤ pos + rounds
      → Finds file_size pos (find_holes scanner path file_size rounds pos)
  unfolding find_holes
  find_holes-Finds zero pos inside enough = absurd (omega (arith, inside, enough))
  find_holes-Finds (suc rounds) pos inside enough =
      elim (Option-cases (scanner.seek_hole path pos)) [
        | inl h ↦ rw (h, find_holes) (record { holes = []; is = refl; all = tt })
        | inr (s, h) ↦
            rw (h, find_holes)
              (elim (Bool-cases (leb file_size s)) [
                | inl over ↦ rw over (record { holes = []; is = refl; all = tt })
                | inr under ↦
                    let (grows, ends) = or_end-bounds pos s h (ground (arith, under)) in
                    let e = or_end file_size (scanner.seek_data path s) in
                    let after = still.hole_after pos s h in
                    rw under (
                      cons_hole-Finds pos s e _ after grows ends
                        (elim (Bool-cases (leb file_size e)) [
                          | inl last ↦ rw last (record { holes = []; is = refl; all = tt })
                          | inr more ↦ rw more (
                              find_holes-Finds rounds e (ground (arith, more))
                                (omega (arith, enough, after, grows)))
                        ]))
              ])
      ]

  -- For a file that is not empty and does not change while it is asked, the loop over its holes comes to its end
  -- within as many rounds as the file has bytes; no hole is empty, each begins where the one before has ended or
  -- later, and the last ends in the file.
  pub find_holes-AreHoles :
      0 < file_size
      → (holes : List (ℕ × ℕ)) × (find_holes scanner path file_size file_size 0 ≡ some holes)
        × AreHoles file_size 0 holes
  find_holes-AreHoles filled =
      let found = find_holes-Finds file_size 0 filled (omega arith) in
      (found.holes, found.is, found.all)
