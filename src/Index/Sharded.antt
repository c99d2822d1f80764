-- ===== src/Index/Sharded.antt =====
-- core/src/index.rs, ShardedIndex: 256 indexes, of which the first byte of an id chooses one. A shard out of
-- range is a panic.
pub mod Shards
pub mod Refinement
use ghostsnap.Prelude.{
  ℕ, zero, suc, ◌+◌, ◌/◌, max, min, Bool, true, false, ◌||◌, Option, none, some, List, [], ◌∷◌, map,
  arith, ltb, leb, if◌then◌else◌, length, get_elem?, set, replicate, any, retain, set_insert, Map,
  keys, lookup, insert, list_eq, string_eq,
}
use ghostsnap.Errors.{Result, ok, panic, ◌>>=◌}
use ghostsnap.Types.{ChunkId, PackId}
use ghostsnap.Index
use ghostsnap.Index.{Index, Bloom, ChunkLocation, PackInfo}

abbrev pub shard_count : ℕ
shard_count = 256

abbrev pub shard_threshold : ℕ
shard_threshold = 1000000

pub record ShardedIndex (F : Type 0) : Type 0 where
  pub shards : List (Index F)
  pub packs : Map PackId PackInfo
  pub dirty : Bool

pub record ShardStats : Type 0 where
  pub total_chunks : ℕ
  pub shards : ℕ
  pub non_empty_shards : ℕ
  pub max_shard_size : ℕ
  pub min_shard_size : ℕ
  pub avg_shard_size : ℕ

-- `chunk_id.as_bytes()[0]`. An id has 32 bytes, so that the first clause is never met.
unfoldable pub shard_index : ChunkId → ℕ
shard_index [] = 0
shard_index (byte ∷ bytes) = byte

-- `shards[i]`
abbrev pub slot : {A : Type 0} → Option A → Result A
slot none = panic
slot (some a) = ok a

unfoldable pub shard_of : {F : Type 0} → ChunkId → ShardedIndex F → Result (Index F)
unfolding shard_index
shard_of id s = slot (get_elem? s.shards (shard_index id))

abbrev pub sum : List ℕ → ℕ
sum [] = 0
sum (n ∷ ns) = n + sum ns

abbrev pub largest : List ℕ → ℕ
largest [] = 0
largest (n ∷ ns) = max n (largest ns)

-- `min().unwrap_or(&0)`
abbrev pub smallest : List ℕ → ℕ
smallest [] = 0
smallest (n ∷ []) = n
smallest (n ∷ m ∷ ns) = min n (smallest (m ∷ ns))

-- Insertion of several ids into a HashSet.
abbrev pub insert_ids : List ChunkId → List ChunkId → List ChunkId
insert_ids [] all = all
insert_ids (id ∷ ids) all = insert_ids ids (set_insert id all)

-- `checked_div(…).unwrap_or(0)`
abbrev pub div_or_zero : ℕ → ℕ → ℕ
div_or_zero n zero = 0
div_or_zero n (suc d) = n / suc d

module _ {F : Type 0} ⦃b : Bloom F⦄ where
  unfoldable pub new : ShardedIndex F
  unfolding Index.new
  new = record { shards = replicate shard_count Index.new; packs = []; dirty = false }

  unfoldable pub add_chunk : ChunkId → ChunkLocation → ShardedIndex F → Result (ShardedIndex F)
  unfolding shard_of Index.add_chunk
  add_chunk id location s = do
    shard ← shard_of id s
    ok (record s {
      shards = set s.shards (shard_index id) (Index.add_chunk id location shard);
      dirty = true;
    })

  -- The loop of `from_index`.
  unfoldable pub distribute : Map ChunkId ChunkLocation → ShardedIndex F → Result (ShardedIndex F)
  unfolding shard_of Index.add_chunk
  distribute [] s = ok s
  distribute ((id, location) ∷ rest) s = do
    shard ← shard_of id s
    distribute rest
        (record s { shards = set s.shards (shard_index id) (Index.add_chunk id location shard) })

  unfoldable pub from_index : Index F → Result (ShardedIndex F)
  unfolding distribute new
  from_index i = do
    sharded ← distribute i.chunks new
    ok (record sharded { packs = i.packs; dirty = true })

  unfoldable pub might_have_chunk : ChunkId → ShardedIndex F → Result Bool
  unfolding shard_of
  might_have_chunk id s = do shard ← shard_of id s; ok (Index.might_have_chunk id shard)

  unfoldable pub has_chunk : ChunkId → ShardedIndex F → Result Bool
  unfolding shard_of
  has_chunk id s = do shard ← shard_of id s; ok (Index.has_chunk id shard)

  unfoldable pub get_chunk : ChunkId → ShardedIndex F → Result (Option ChunkLocation)
  unfolding shard_of
  get_chunk id s = do shard ← shard_of id s; ok (Index.get_chunk id shard)

  unfoldable pub compact : List ChunkId → ShardedIndex F → ShardedIndex F × ℕ
  unfolding Index.compact
  compact used s =
      let compacted = map (λ shard. Index.compact used shard) s.shards in
      let total_removed = sum (map (λ c. c.1) compacted) in
      (
        record s { shards = map (λ c. c.0) compacted; dirty = ltb 0 total_removed || s.dirty },
        total_removed,
      )

module _ {F : Type 0} where
  unfoldable pub add_pack : PackInfo → ShardedIndex F → ShardedIndex F
  add_pack info s = record s { packs = insert info.id info s.packs; dirty = true }

  unfoldable pub get_pack : PackId → ShardedIndex F → Option PackInfo
  get_pack id s = lookup id s.packs

  unfoldable pub chunk_count : ShardedIndex F → ℕ
  chunk_count s = sum (map Index.chunk_count s.shards)

  unfoldable pub pack_count : ShardedIndex F → ℕ
  pack_count s = length s.packs

  unfoldable pub is_dirty : ShardedIndex F → Bool
  is_dirty s = s.dirty || any Index.is_dirty s.shards

  unfoldable pub mark_clean : ShardedIndex F → ShardedIndex F
  unfolding Index.mark_clean
  mark_clean s = record s { shards = map Index.mark_clean s.shards; dirty = false }

  unfoldable pub remove_chunk :
      ChunkId → ShardedIndex F → Result (ShardedIndex F × Option ChunkLocation)
  unfolding shard_of Index.remove_chunk
  remove_chunk id s = do
    shard ← shard_of id s
    let removed = Index.remove_chunk id shard
    ok (record s { shards = set s.shards (shard_index id) removed.0; dirty = true }, removed.1)

  -- `all.extend(shard.all_chunk_ids())`
  unfoldable pub extend_ids : List (Index F) → List ChunkId → List ChunkId
  extend_ids [] all = all
  extend_ids (shard ∷ rest) all = extend_ids rest (insert_ids (Index.all_chunk_ids shard) all)

  unfoldable pub all_chunk_ids : ShardedIndex F → List ChunkId
  unfolding extend_ids
  all_chunk_ids s = extend_ids s.shards []

  unfoldable pub all_pack_ids : ShardedIndex F → List PackId
  all_pack_ids s = keys s.packs

  unfoldable pub shard_stats : ShardedIndex F → ShardStats
  shard_stats s =
      let counts = map Index.chunk_count s.shards in
      let filled = retain (λ c. ltb 0 c) counts in
      let total = sum counts in
      record {
        total_chunks = total;
        shards = shard_count;
        non_empty_shards = length filled;
        max_shard_size = largest counts;
        min_shard_size = smallest filled;
        avg_shard_size = div_or_zero total (length filled);
      }

unfoldable pub should_use_sharding : ℕ → Bool
should_use_sharding count = leb shard_threshold count
