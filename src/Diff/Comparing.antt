-- ===== src/Diff/Comparing.antt =====
-- The comparison of two nodes in cli/src/commands/diff.rs, in terms of the fields of the nodes.
use ghostsnap.Prelude.{
  String, string_eq, list_eq, ◌≡◌, ◌≢◌, refl, Bool, true, false, not, ◌&&◌, ◌||◌, Bool-cases, inl,
  inr, ◌⊎◌, ◌↔◌, Option, none, some, List, [], ◌∷◌, map, nat_beq, arith, if◌then◌else◌,
}
use ghostsnap.Types.{ChunkId}
use ghostsnap.Snapshot.{NodeType, file, directory, symlink, TreeNode}
use ghostsnap.Diff.{
  ChangeType, added, removed, modified, type_changed, metadata_changed, same_type, same_chunks,
  same_target, info_of, change_of,
}

abbrev pub chunk_ids : TreeNode → List ChunkId
chunk_ids n = map (λ c. c.id) n.chunks

-- The same type and the same content: chunks and link target.
abbrev pub SameContent : TreeNode → TreeNode → Type 0
SameContent a b =
    (a.node_type ≡ b.node_type) × (chunk_ids a ≡ chunk_ids b) × (a.link_target ≡ b.link_target)

abbrev pub SameMetadata : TreeNode → TreeNode → Type 0
SameMetadata a b = (a.mode ≡ b.mode) × (a.uid ≡ b.uid) × (a.gid ≡ b.gid) × (a.mtime ≡ b.mtime)

-- The change from one node to another: what differs first of type, content and, if it is asked for, mode,
-- owner and time.
pub data IsChange (metadata : Bool) (a b : TreeNode) : Option ChangeType → Type 0 where
  other_type :
      a.node_type ≢ b.node_type
      → IsChange metadata a b (some (type_changed a.node_type b.node_type))
  other_content :
      a.node_type ≡ b.node_type
      → (chunk_ids a ≢ chunk_ids b) ⊎ (a.link_target ≢ b.link_target)
      → IsChange metadata a b (some (modified a.size b.size))
  other_metadata :
      metadata ≡ true
      → SameContent a b
      → ¬ SameMetadata a b
      → IsChange metadata a b (some metadata_changed)
  no_change : SameContent a b → (metadata ≡ false) ⊎ SameMetadata a b → IsChange metadata a b none

-- What a diff is to say of a name, from the last node of that name in each tree.
abbrev pub Says : Bool → Option TreeNode → Option TreeNode → Option ChangeType → Type 0
Says metadata none none c = c ≡ none
Says metadata none (some b) c = c ≡ some added
Says metadata (some a) none c = c ≡ some removed
Says metadata (some a) (some b) c = IsChange metadata a b c

same_type_iff : (s t : NodeType) → (same_type s t ≡ true) ↔ (s ≡ t)
same_type_iff file file = (λ h. refl, λ h. refl)
same_type_iff file directory = (λ h. cc, λ h. cc)
same_type_iff file symlink = (λ h. cc, λ h. cc)
same_type_iff directory file = (λ h. cc, λ h. cc)
same_type_iff directory directory = (λ h. refl, λ h. refl)
same_type_iff directory symlink = (λ h. cc, λ h. cc)
same_type_iff symlink file = (λ h. cc, λ h. cc)
same_type_iff symlink directory = (λ h. cc, λ h. cc)
same_type_iff symlink symlink = (λ h. refl, λ h. refl)

same_chunks_iff : (xs ys : List ChunkId) → (same_chunks xs ys ≡ true) ↔ (xs ≡ ys)
same_chunks_iff [] [] = (λ h. refl, λ h. refl)
same_chunks_iff [] (y ∷ ys) = (λ h. cc, λ h. cc)
same_chunks_iff (x ∷ xs) [] = (λ h. cc, λ h. cc)
same_chunks_iff (x ∷ xs) (y ∷ ys) =
    let heads = list_eq.beq_iff x y in
    let tails = same_chunks_iff xs ys in
    (ground (arith, heads, tails), ground (arith, heads, tails))

same_target_iff : (s t : Option String) → (same_target s t ≡ true) ↔ (s ≡ t)
same_target_iff none none = (λ h. refl, λ h. refl)
same_target_iff none (some t) = (λ h. cc, λ h. cc)
same_target_iff (some s) none = (λ h. cc, λ h. cc)
same_target_iff (some s) (some t) =
    let texts = string_eq.beq_iff s t in (ground (arith, texts), ground (arith, texts))

-- A test that fails for things that are equal if it succeeds.
differ : {P : Type 0} {b : Bool} → (b ≡ true) ↔ P → b ≡ false → ¬ P
differ test h = λ p. let yes = test.1 p in cc

abbrev other : TreeNode → TreeNode → Bool
other a b =
    not (nat_beq a.mode b.mode)
    || not (nat_beq a.uid b.uid)
    || not (nat_beq a.gid b.gid)
    || not (nat_beq a.mtime b.mtime)

other-true : (a b : TreeNode) → other a b ≡ true → ¬ SameMetadata a b
other-true a b h = λ (mode, uid, gid, mtime). ground (arith, h, mode, uid, gid, mtime)

other-false : (a b : TreeNode) → other a b ≡ false → SameMetadata a b
other-false a b h = (ground (arith, h), ground (arith, h), ground (arith, h), ground (arith, h))

other-IsChange :
    (metadata : Bool) (a b : TreeNode)
    → SameContent a b
    → IsChange metadata a b (if metadata && other a b then some metadata_changed else none)
other-IsChange false a b same = no_change same (inl refl)
other-IsChange true a b same = elim (Bool-cases (other a b)) [
  | inl h ↦ rw h (other_metadata refl same (other-true a b h))
  | inr h ↦ rw h (no_change same (inr (other-false a b h)))
]

-- `change_of` finds the change.
pub change_of-IsChange :
    (metadata : Bool) (a b : TreeNode)
    → IsChange metadata a b (change_of metadata (info_of a) (info_of b))
unfolding change_of info_of
change_of-IsChange metadata a b =
    let types = same_type_iff a.node_type b.node_type in
    let chunks = same_chunks_iff (chunk_ids a) (chunk_ids b) in
    let targets = same_target_iff a.link_target b.link_target in
    elim (Bool-cases (same_type a.node_type b.node_type)) [
      | inr e ↦ rw e (other_type (differ types e))
      | inl e ↦ elim (Bool-cases (same_chunks (chunk_ids a) (chunk_ids b))) [
        | inr f ↦ rw (e, f) (other_content (types.0 e) (inl (differ chunks f)))
        | inl f ↦ elim (Bool-cases (same_target a.link_target b.link_target)) [
          | inr g ↦ rw (e, f, g) (other_content (types.0 e) (inr (differ targets g)))
          | inl g ↦ rw (e, f, g) (other-IsChange metadata a b (types.0 e, chunks.0 f, targets.0 g))
        ]
      ]
    ]
