-- ===== src/Prune/Orphans.antt =====
-- A pack that has a chunk which is no orphan is not among the packs to delete.
use ghostsnap.Prelude.{
  ◌≡◌, true, false, Bool, Option, none, some, List, [], ◌∷◌, leb, ltb, contains, Map, lookup,
  lookup-insert, lookup-remove, ◌+◌, ◌==◌, if◌then◌else◌, refl, sym, ◌∙◌, IsMap, insert-IsMap,
  list_eq, string_eq, arith, Bool-cases, inl, inr,
}
use mathlib.Core.Path.{subst}
use ghostsnap.Types.{ChunkId, PackId}
use ghostsnap.Index
use ghostsnap.Index.{Index, Bloom, ChunkLocation}
use ghostsnap.Prune.{
  PackStats, orphaned_among, entry_of, count_chunk, count_chunks, packs_to_delete, remove_all,
}

pub contains-orphaned_among :
    (k : ChunkId) (referenced : List ChunkId) (chunks : Map ChunkId ChunkLocation)
    → contains k referenced ≡ true
    → contains k (orphaned_among referenced chunks) ≡ false
unfolding orphaned_among
contains-orphaned_among k referenced [] h = ground arith
contains-orphaned_among k referenced ((id, location) ∷ chunks) h =
    ground (arith, contains-orphaned_among k referenced chunks h, list_eq.beq_iff id k)

get_chunk-remove_chunk :
    {F : Type 0} ⦃b : Bloom F⦄ (k id : ChunkId) (i : Index F)
    → (id == k) ≡ false
    → Index.get_chunk k (Index.remove_chunk id i).0 ≡ Index.get_chunk k i
unfolding Index.get_chunk Index.remove_chunk
get_chunk-remove_chunk k id i apart = rw (lookup-remove id k i.chunks, apart) refl

-- Fewer orphans than chunks.
abbrev is_partial : Option PackStats → Bool
is_partial none = false
is_partial (some (total, orphaned)) = ltb orphaned total

abbrev is_bounded : Option PackStats → Bool
is_bounded none = true
is_bounded (some (total, orphaned)) = leb orphaned total

is_partial-count_chunk :
    (p q : PackId) (b : Bool) (stats : Map PackId PackStats)
    → is_partial (lookup p stats) ≡ true
    → is_partial (lookup p (count_chunk q b stats)) ≡ true
unfolding count_chunk
is_partial-count_chunk p q b stats h =
    let entry = entry_of (lookup q stats) in
    rw (lookup-insert q p (entry.0 + 1, if b then entry.1 + 1 else entry.1) stats)
      (ground (arith, h, string_eq.beq_iff q p))

is_bounded-count_chunk :
    (p q : PackId) (b : Bool) (stats : Map PackId PackStats)
    → is_bounded (lookup p stats) ≡ true
    → is_bounded (lookup p (count_chunk q b stats)) ≡ true
unfolding count_chunk
is_bounded-count_chunk p q b stats h =
    let entry = entry_of (lookup q stats) in
    rw (lookup-insert q p (entry.0 + 1, if b then entry.1 + 1 else entry.1) stats)
      (ground (arith, h, string_eq.beq_iff q p))

is_partial-count_live :
    (p : PackId) (stats : Map PackId PackStats)
    → is_bounded (lookup p stats) ≡ true
    → is_partial (lookup p (count_chunk p false stats)) ≡ true
unfolding count_chunk
is_partial-count_live p stats h =
    let entry = entry_of (lookup p stats) in
    rw (lookup-insert p p (entry.0 + 1, entry.1) stats) (ground (arith, h, string_eq.beq_iff p p))

is_partial-count_chunks :
    (p : PackId) (orphaned : List ChunkId) (chunks : Map ChunkId ChunkLocation)
    (stats : Map PackId PackStats)
    → is_partial (lookup p stats) ≡ true
    → is_partial (lookup p (count_chunks orphaned chunks stats)) ≡ true
unfolding count_chunks
is_partial-count_chunks p orphaned [] stats h = h
is_partial-count_chunks p orphaned ((id, location) ∷ chunks) stats h =
    is_partial-count_chunks p orphaned chunks _
      (is_partial-count_chunk p location.pack_id (contains id orphaned) stats h)

is_partial-lookup :
    (k : ChunkId) (location : ChunkLocation) (orphaned : List ChunkId)
    (chunks : Map ChunkId ChunkLocation) (stats : Map PackId PackStats)
    → lookup k chunks ≡ some location
    → contains k orphaned ≡ false
    → is_bounded (lookup location.pack_id stats) ≡ true
    → is_partial (lookup location.pack_id (count_chunks orphaned chunks stats)) ≡ true
unfolding count_chunks
is_partial-lookup k location orphaned [] stats found live h = absurd (cc)
is_partial-lookup k location orphaned ((id, l) ∷ chunks) stats found live h =
    elim (Bool-cases (id == k)) [
      | inl e ↦
          let here : l ≡ location = ground (arith, found, e) in
          let alive : contains id orphaned ≡ false =
            subst (λ j. contains j orphaned ≡ false) (sym ((list_eq.beq_iff id k).0 e)) live in
          is_partial-count_chunks location.pack_id orphaned chunks _
            (rw (alive, here) (is_partial-count_live location.pack_id stats h))
      | inr e ↦
          is_partial-lookup k location orphaned chunks _ (rw e at found) live
            (is_bounded-count_chunk location.pack_id l.pack_id (contains id orphaned) stats h)
    ]

count_chunks-IsMap :
    (orphaned : List ChunkId) (chunks : Map ChunkId ChunkLocation) (stats : Map PackId PackStats)
    → IsMap stats
    → IsMap (count_chunks orphaned chunks stats)
unfolding count_chunks count_chunk
count_chunks-IsMap orphaned [] stats h = h
count_chunks-IsMap orphaned ((id, location) ∷ chunks) stats h =
    count_chunks-IsMap orphaned chunks _ (insert-IsMap location.pack_id _ stats h)

contains-packs_to_delete_absent :
    (p : PackId) (stats : Map PackId PackStats)
    → lookup p stats ≡ none
    → contains p (packs_to_delete stats) ≡ false
unfolding packs_to_delete
contains-packs_to_delete_absent p [] h = ground arith
contains-packs_to_delete_absent p ((q, (total, orphaned)) ∷ stats) h =
    ground (arith, h, contains-packs_to_delete_absent p stats)

contains-packs_to_delete :
    (p : PackId) (stats : Map PackId PackStats)
    → IsMap stats
    → is_partial (lookup p stats) ≡ true
    → contains p (packs_to_delete stats) ≡ false
unfolding packs_to_delete
contains-packs_to_delete p [] once h = ground arith
contains-packs_to_delete p ((q, (total, orphaned)) ∷ stats) once h = elim (Bool-cases (q == p)) [
  | inl e ↦
      let is : q ≡ p = (string_eq.beq_iff q p).0 e in
      let gone =
        contains-packs_to_delete_absent p stats (subst (λ id. lookup id stats ≡ none) is once.0) in
      ground (arith, h, e, gone)
  | inr e ↦ ground (arith, h, e, contains-packs_to_delete p stats once.1)
]

-- The pack of a chunk that is referenced is spared.
pub referenced-spared :
    (k : ChunkId) (location : ChunkLocation) (referenced : List ChunkId)
    (chunks : Map ChunkId ChunkLocation)
    → lookup k chunks ≡ some location
    → contains k referenced ≡ true
    → contains location.pack_id
        (packs_to_delete (count_chunks (orphaned_among referenced chunks) chunks []))
      ≡ false
referenced-spared k location referenced chunks found used =
    let orphaned = orphaned_among referenced chunks in
    contains-packs_to_delete location.pack_id (count_chunks orphaned chunks [])
      (count_chunks-IsMap orphaned chunks [] tt)
      (is_partial-lookup k location orphaned chunks [] found
        (contains-orphaned_among k referenced chunks used) refl)

-- An id that is not removed is found as before.
pub get_chunk-remove_all :
    {F : Type 0} ⦃b : Bloom F⦄ (k : ChunkId) (ids : List ChunkId) (i : Index F)
    → contains k ids ≡ false
    → Index.get_chunk k (remove_all ids i) ≡ Index.get_chunk k i
unfolding remove_all
get_chunk-remove_all k [] i h = refl
get_chunk-remove_all k (id ∷ ids) i h =
    let apart : (id == k) ≡ false = ground (arith, h) in
    get_chunk-remove_all k ids (Index.remove_chunk id i).0 (ground (arith, h))
    ∙ get_chunk-remove_chunk k id i apart
