-- ===== src/Check/Missing.antt =====
-- What the chunks and the packs that a check looked for, and did not miss, say of the index.
use ghostsnap.Prelude.{
  ◌≡◌, refl, true, ◌||◌, some, List, [], ◌∷◌, contains, set_insert, contains-set_insert, Map,
  lookup, string_eq, list_eq, arith,
}
use ghostsnap.Types.{ChunkId, ChunkRef, PackId}
use ghostsnap.Index
use ghostsnap.Index.{Index, Bloom, ChunkLocation}
use ghostsnap.Snapshot.{TreeNode}
use ghostsnap.Repository.Garbage.{insert_refs, insert_nodes}
use ghostsnap.Check.{missing_chunks, missing_packs, referenced_packs}

contains-insert_refs :
    (k : ChunkId) (rs : List ChunkRef) (used : List ChunkId)
    → contains k (insert_refs rs used) ≡ (contains k (insert_refs rs []) || contains k used)
unfolding insert_refs
contains-insert_refs k [] used = refl
contains-insert_refs k (r ∷ rs) used = ground (
  arith,
  contains-insert_refs k rs (set_insert r.id used),
  contains-insert_refs k rs (set_insert r.id []),
  contains-set_insert r.id k used,
  contains-set_insert r.id k [],
)

-- A chunk is found if it is one of the nodes' own, or was found before.
pub contains-insert_nodes :
    (k : ChunkId) (ns : List TreeNode) (used : List ChunkId)
    → contains k (insert_nodes ns used) ≡ (contains k (insert_nodes ns []) || contains k used)
unfolding insert_nodes
contains-insert_nodes k [] used = refl
contains-insert_nodes k (n ∷ ns) used = ground (
  arith,
  contains-insert_nodes k ns (insert_refs n.chunks used),
  contains-insert_nodes k ns (insert_refs n.chunks []),
  contains-insert_refs k n.chunks used,
)

pub has_chunk-missing_chunks :
    {F : Type 0} ⦃b : Bloom F⦄ (k : ChunkId) (ids : List ChunkId) (i : Index F)
    → missing_chunks ids i ≡ 0
    → contains k ids ≡ true
    → Index.has_chunk k i ≡ true
unfolding missing_chunks
has_chunk-missing_chunks k [] i h u = cc
has_chunk-missing_chunks k (j ∷ ids) i h u =
    ground (arith, has_chunk-missing_chunks k ids i, list_eq.beq_iff j k)

contains-referenced_packs :
    (p : PackId) (chunks : Map ChunkId ChunkLocation) (packs : List PackId)
    → contains p packs ≡ true
    → contains p (referenced_packs chunks packs) ≡ true
unfolding referenced_packs
contains-referenced_packs p [] packs h = h
contains-referenced_packs p ((j, l) ∷ chunks) packs h =
    contains-referenced_packs p chunks (set_insert l.pack_id packs)
      (ground (arith, h, contains-set_insert l.pack_id p packs))

lookup-referenced_packs :
    (k : ChunkId) (location : ChunkLocation) (chunks : Map ChunkId ChunkLocation)
    (packs : List PackId)
    → lookup k chunks ≡ some location
    → contains location.pack_id (referenced_packs chunks packs) ≡ true
unfolding referenced_packs
lookup-referenced_packs k location [] packs h = absurd (cc)
lookup-referenced_packs k location ((j, l) ∷ chunks) packs h = ground (
  arith,
  lookup-referenced_packs k location chunks (set_insert l.pack_id packs),
  contains-referenced_packs location.pack_id chunks (set_insert l.pack_id packs),
  contains-set_insert l.pack_id location.pack_id packs,
  string_eq.beq_iff l.pack_id location.pack_id,
)

contains-missing_packs :
    (p : PackId) (existing ids : List PackId)
    → missing_packs existing ids ≡ 0
    → contains p ids ≡ true
    → contains p existing ≡ true
unfolding missing_packs
contains-missing_packs p existing [] h u = cc
contains-missing_packs p existing (j ∷ ids) h u =
    ground (arith, contains-missing_packs p existing ids, string_eq.beq_iff j p)

-- Every pack that the index places a chunk in is among those listed.
pub lookup-missing_packs :
    (k : ChunkId) (location : ChunkLocation) (existing : List PackId)
    (chunks : Map ChunkId ChunkLocation)
    → missing_packs existing (referenced_packs chunks []) ≡ 0
    → lookup k chunks ≡ some location
    → contains location.pack_id existing ≡ true
lookup-missing_packs k location existing chunks none_missing h =
    contains-missing_packs location.pack_id existing (referenced_packs chunks []) none_missing
      (lookup-referenced_packs k location chunks [] h)
