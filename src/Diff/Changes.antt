-- ===== src/Diff/Changes.antt =====
-- The changes of `diff`, name by name.
use Prim.Native.String.{compare}
use Prim.Native.Nat.{Ordering}
use text.Mathlib.Text.{is_lt, is_eq}
use ghostsnap.Prelude.{
  String, ◌≡◌, refl, sym, ◌∙◌, Bool, true, false, not, ◌&&◌, ◌==◌, string_eq, Option, none, some,
  List, [], ◌∷◌, ◌++◌, arith, if◌then◌else◌, Map, IsMap, lookup, insert, insert-IsMap,
  lookup-insert, contains_key, is_some, append_nil, Bool-cases, inl, inr,
}
use mathlib.Core.Path.{subst}
use ghostsnap.Snapshot.{TreeNode, Tree}
use ghostsnap.Diff.{
  FileInfo, ChangeType, added, removed, Change, info_of, files_of, missing_in, push_change,
  change_in, change_of, differing, place, sort_by_name, changes,
}
use ghostsnap.Diff.Comparing.{Says, change_of-IsChange}

-- The changes of one name.
abbrev pub of_name : String → List Change → List ChangeType
of_name n [] = []
of_name n ((m, c) ∷ cs) = let rest = of_name n cs in if m == n then c ∷ rest else rest

-- The last node of that name, or what was found before.
abbrev pub last_from : String → List TreeNode → Option TreeNode → Option TreeNode
last_from n [] found = found
last_from n (t ∷ ts) found = last_from n ts (if t.name == n then some t else found)

abbrev pub last_named : String → List TreeNode → Option TreeNode
last_named n ts = last_from n ts none

abbrev pub listed : {A : Type 0} → Option A → List A
listed none = []
listed (some a) = a ∷ []

abbrev expected : Bool → Option FileInfo → Option FileInfo → Option ChangeType
expected metadata none none = none
expected metadata none (some b) = some added
expected metadata (some a) none = some removed
expected metadata (some a) (some b) = change_of metadata a b

info : Option TreeNode → Option FileInfo
info none = none
info (some t) = some (info_of t)

of_name-append :
    (n : String) (cs ds : List Change) → of_name n (cs ++ ds) ≡ of_name n cs ++ of_name n ds
of_name-append n [] ds = refl
of_name-append n ((m, c) ∷ cs) ds = ground (arith, of_name-append n cs ds)

eq_not_lt : (o : Ordering) → is_eq o ≡ true → is_lt o ≡ false
eq_not_lt Ordering.lt h = cc
eq_not_lt Ordering.eq h = refl
eq_not_lt Ordering.gt h = refl

not_before_itself : (d c n : String) → c ≡ n → d ≡ n → is_lt (compare d c) ≡ false
not_before_itself d c n h h' = eq_not_lt (compare d c) ((string_eq.beq_iff d c).1 (h' ∙ sym h))

of_name-place :
    (n : String) (c : Change) (cs : List Change) → of_name n (place c cs) ≡ of_name n (c ∷ cs)
of_name-place n c [] = refl
of_name-place n c (d ∷ ds) = ground (
  arith,
  of_name-place n c ds,
  string_eq.beq_iff c.0 n,
  string_eq.beq_iff d.0 n,
  not_before_itself d.0 c.0 n,
)

of_name-sort_by_name : (n : String) (cs : List Change) → of_name n (sort_by_name cs) ≡ of_name n cs
of_name-sort_by_name n [] = refl
of_name-sort_by_name n (c ∷ cs) =
    of_name-place n c (sort_by_name cs) ∙ (ground (arith, of_name-sort_by_name n cs))

files_of-IsMap :
    (ns : List TreeNode) (files : Map String FileInfo) → IsMap files → IsMap (files_of ns files)
unfolding files_of
files_of-IsMap [] files h = h
files_of-IsMap (n ∷ ns) files h = files_of-IsMap ns _ (insert-IsMap n.name (info_of n) files h)

lookup-files_of :
    (k : String) (ns : List TreeNode) (files : Map String FileInfo) (found : Option TreeNode)
    → lookup k files ≡ info found
    → lookup k (files_of ns files) ≡ info (last_from k ns found)
unfolding files_of info
lookup-files_of k [] files found h = h
lookup-files_of k (n ∷ ns) files found h =
    lookup-files_of k ns (insert n.name (info_of n) files) (if n.name == k then some n else found)
      (ground (arith, h, lookup-insert n.name k (info_of n) files))

of_name-missing_in :
    (n : String) (c : ChangeType) (others files : Map String FileInfo)
    → IsMap files
    → of_name n (missing_in c others files)
      ≡ (if contains_key n files && not (contains_key n others) then c ∷ [] else [])
unfolding missing_in
of_name-missing_in n c others [] u = ground arith
of_name-missing_in n c others ((m, i) ∷ files) u =
    ground (arith, of_name-missing_in n c others files u.1, string_eq.beq_iff m n, u.0)

abbrev changed_in : Bool → Option FileInfo → Option FileInfo → Option ChangeType
changed_in metadata none found = none
changed_in metadata (some a) found = change_in metadata a found

of_name-push_change :
    (n m : String) (c : Option ChangeType) (cs : List Change)
    → of_name n (push_change m c cs) ≡ (if m == n then listed c ++ of_name n cs else of_name n cs)
of_name-push_change n m none cs = ground arith
of_name-push_change n m (some c) cs = refl

of_name-differing :
    (metadata : Bool) (n : String) (others files : Map String FileInfo)
    → IsMap files
    → of_name n (differing metadata others files)
      ≡ listed (changed_in metadata (lookup n files) (lookup n others))
unfolding differing
of_name-differing metadata n others [] u = refl
of_name-differing metadata n others ((m, a) ∷ files) u =
    let rest = of_name-differing metadata n others files u.1 in
    let push =
      of_name-push_change n m (change_in metadata a (lookup m others))
        (differing metadata others files) in
    elim (Bool-cases (m == n)) [
      | inr apart ↦ rw (push, apart) rest
      | inl same ↦
          let is : m ≡ n = (string_eq.beq_iff m n).0 same in
          let none_left : lookup n files ≡ none = subst (λ k. lookup k files ≡ none) is u.0 in
          rw (push, same, rest, none_left, is)
            (append_nil (listed (change_in metadata a (lookup n others))))
    ]

expected-Says :
    (metadata : Bool) (one two : Option TreeNode)
    → Says metadata one two (expected metadata (info one) (info two))
unfolding info
expected-Says metadata none none = refl
expected-Says metadata none (some b) = refl
expected-Says metadata (some a) none = refl
expected-Says metadata (some a) (some b) = change_of-IsChange metadata a b

combined :
    (metadata : Bool) (a b : Option FileInfo)
    → (if is_some b && not (is_some a) then added ∷ [] else [])
        ++ ((if is_some a && not (is_some b) then removed ∷ [] else [])
            ++ listed (changed_in metadata a b))
      ≡ listed (expected metadata a b)
combined metadata none none = refl
combined metadata none (some b) = refl
combined metadata (some a) none = refl
combined metadata (some a) (some b) = refl

-- A name has at most one change, which says how the last nodes of that name in the two trees differ.
pub of_name-changes :
    (metadata : Bool) (tree1 tree2 : Tree) (n : String)
    → (c : Option ChangeType) × (of_name n (changes metadata tree1 tree2) ≡ listed c)
      × Says metadata (last_named n tree1.nodes) (last_named n tree2.nodes) c
unfolding changes
of_name-changes metadata tree1 tree2 n =
    let files1 = files_of tree1.nodes [] in
    let files2 = files_of tree2.nodes [] in
    let u1 = files_of-IsMap tree1.nodes [] tt in
    let u2 = files_of-IsMap tree2.nodes [] tt in
    let new = missing_in added files1 files2 in
    let old = missing_in removed files2 files1 in
    let both = differing metadata files2 files1 in
    let one = last_named n tree1.nodes in
    let two = last_named n tree2.nodes in
    (
      expected metadata (info one) (info two),
      rw
          (
            of_name-sort_by_name n (new ++ (old ++ both)),
            of_name-append n new (old ++ both),
            of_name-append n old both,
            of_name-missing_in n added files1 files2 u2,
            of_name-missing_in n removed files2 files1 u1,
            of_name-differing metadata n files2 files1 u1,
            lookup-files_of n tree1.nodes [] none (unfold info in refl),
            lookup-files_of n tree2.nodes [] none (unfold info in refl),
          )
          (combined metadata (info one) (info two)),
      expected-Says metadata one two,
    )
