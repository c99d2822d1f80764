-- ===== src/Index.antt =====
-- core/src/index.rs: the in-memory chunk index. A Bloom filter stands before the map from chunk ids
-- to locations; the filter is the foreign crate `bloomfilter`, an interface here.
pub mod Invariant
pub mod Refinement
pub mod Dirty
pub mod Encoding
pub mod Sharded
use ghostsnap.Prelude.{
  ℕ, ◌+◌, ◌-◌, ◌*◌, ◌≤◌, ◌≡◌, max, String, Bool, true, false, not, ◌||◌, Option, none, some, List,
  [], ◌∷◌, ltb, if◌then◌else◌, Eq, ◌==◌, string_eq, list_eq, length, contains, Map, keys, values,
  lookup, contains_key, insert, remove, extend, retain_keys,
}
use ghostsnap.Foreign.{Bytes}
use ghostsnap.Types.{ChunkId, PackId, ChunkMetadata}

abbrev pub index_version : ℕ
index_version = 2

abbrev pub bloom_items_count : ℕ
bloom_items_count = 1000000

pub record ChunkLocation : Type 0 where
  pub pack_id : PackId
  pub offset : ℕ
  pub length : ℕ

pub record PackInfo : Type 0 where
  pub id : PackId
  pub size : ℕ
  pub chunk_count : ℕ

-- `Bloom<ChunkID>`: a filter sized for a number of items (at the rate `BLOOM_FP_RATE`). It has false
-- positives, and no false negatives.
pub record Bloom (F : Type 0) : Type 0 where
  pub new_for_fp_rate : ℕ → F
  pub set : ChunkId → F → F
  pub check : ChunkId → F → Bool
  pub check-set_self : (k : ChunkId) (f : F) → check k (set k f) ≡ true
  pub check-set_mono : (k j : ChunkId) (f : F) → check j f ≡ true → check j (set k f) ≡ true

pub record Index (F : Type 0) : Type 0 where
  pub bloom : F
  pub chunks : Map ChunkId ChunkLocation
  pub packs : Map PackId PackInfo
  pub dirty : Bool

module _ {F : Type 0} ⦃b : Bloom F⦄ where
  unfoldable pub new : Index F
  new = record {
    bloom = b.new_for_fp_rate bloom_items_count;
    chunks = [];
    packs = [];
    dirty = false;
  }

  unfoldable pub with_capacity : ℕ → Index F
  with_capacity chunk_capacity = record {
    bloom = b.new_for_fp_rate (max chunk_capacity bloom_items_count);
    chunks = [];
    packs = [];
    dirty = false;
  }

  unfoldable pub add_chunk : ChunkId → ChunkLocation → Index F → Index F
  add_chunk chunk_id location i = record i {
    bloom = b.set chunk_id i.bloom;
    chunks = insert chunk_id location i.chunks;
    dirty = true;
  }

  unfoldable pub add_chunk_metadata : ChunkMetadata → Index F → Index F
  add_chunk_metadata m i =
      add_chunk m.id (record { pack_id = m.pack_id; offset = m.offset; length = m.length }) i

  unfoldable pub might_have_chunk : ChunkId → Index F → Bool
  might_have_chunk id i = b.check id i.bloom

  -- The filter's `no` is final; its `maybe` is decided by the map.
  unfoldable pub has_chunk : ChunkId → Index F → Bool
  has_chunk id i = if not (b.check id i.bloom) then false else contains_key id i.chunks

  unfoldable pub get_chunk : ChunkId → Index F → Option ChunkLocation
  get_chunk id i = if not (b.check id i.bloom) then none else lookup id i.chunks

  -- `for id in keys { bloom.set(id) }`
  unfoldable pub set_all : List ChunkId → F → F
  set_all [] f = f
  set_all (id ∷ ids) f = set_all ids (b.set id f)

  -- The loop of `merge` over the chunks of the other index.
  unfoldable pub merge_chunks : Map ChunkId ChunkLocation → Index F → Index F
  merge_chunks [] i = i
  merge_chunks ((id, loc) ∷ rest) i =
      merge_chunks rest (record i { bloom = b.set id i.bloom; chunks = insert id loc i.chunks })

  unfoldable pub merge : Index F → Index F → Index F
  unfolding merge_chunks
  merge other i =
      let merged = merge_chunks other.chunks i in
      record merged { packs = extend merged.packs other.packs; dirty = true }

  unfoldable pub rebuild_bloom : Index F → Index F
  unfolding set_all
  rebuild_bloom i =
      let bloom_size = max (length i.chunks * 2) bloom_items_count in
      record i { bloom = set_all (keys i.chunks) (b.new_for_fp_rate bloom_size) }

  -- `retain` the used chunks; the filter is rebuilt only if some chunk went.
  unfoldable pub compact : List ChunkId → Index F → Index F × ℕ
  unfolding rebuild_bloom
  compact used_chunks i =
      let kept = record i { chunks = retain_keys (λ id. contains id used_chunks) i.chunks } in
      let removed_count = length i.chunks - length kept.chunks in
      if ltb 0 removed_count
      then (record (rebuild_bloom kept) { dirty = true }, removed_count)
      else (kept, removed_count)

-- The filter and map over the entries in `chunks_in_pack`.
unfoldable pub ids_in : PackId → Map ChunkId ChunkLocation → List ChunkId
ids_in pack_id [] = []
ids_in pack_id ((id, loc) ∷ rest) =
    let others = ids_in pack_id rest in if loc.pack_id == pack_id then id ∷ others else others

module _ {F : Type 0} where
  unfoldable pub add_pack : PackInfo → Index F → Index F
  add_pack info i = record i { packs = insert info.id info i.packs; dirty = true }

  unfoldable pub get_pack : PackId → Index F → Option PackInfo
  get_pack id i = lookup id i.packs

  unfoldable pub chunk_count : Index F → ℕ
  chunk_count i = length i.chunks

  unfoldable pub pack_count : Index F → ℕ
  pack_count i = length i.packs

  unfoldable pub is_dirty : Index F → Bool
  is_dirty i = i.dirty

  unfoldable pub mark_clean : Index F → Index F
  mark_clean i = record i { dirty = false }

  -- The filter keeps the removed id.
  unfoldable pub remove_chunk : ChunkId → Index F → Index F × Option ChunkLocation
  remove_chunk id i = (record i { chunks = remove id i.chunks; dirty = true }, lookup id i.chunks)

  unfoldable pub remove_pack : PackId → Index F → Index F × Option PackInfo
  remove_pack id i = (record i { packs = remove id i.packs; dirty = true }, lookup id i.packs)

  unfoldable pub all_chunk_ids : Index F → List ChunkId
  all_chunk_ids i = keys i.chunks

  unfoldable pub all_pack_ids : Index F → List PackId
  all_pack_ids i = keys i.packs

  unfoldable pub chunks_in_pack : PackId → Index F → List ChunkId
  unfolding ids_in
  chunks_in_pack pack_id i = ids_in pack_id i.chunks
