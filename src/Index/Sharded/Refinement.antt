-- ===== src/Index/Sharded/Refinement.antt =====
-- A sharded index refines the same abstract maps as one index: the shards cannot be seen.
use ghostsnap.Prelude.{
  ◌<◌, ◌≡◌, refl, sym, ap, ◌∙◌, ◌==◌, list_eq, string_eq, true, Option, none, some, List, [], ◌∷◌,
  arith, if◌then◌else◌, get_elem?, set, get_elem?-lt, length-replicate, lookup, lookup-insert,
  is_some, contains,
}
use mathlib.Core.Path.{subst}
use ghostsnap.Errors.{Result, ok, ◌>>=◌}
use ghostsnap.Types.{ChunkId, PackId}
use ghostsnap.Index
use ghostsnap.Index.{Index, Bloom, ChunkLocation, PackInfo}
use ghostsnap.Index.Invariant.{IsValid, new-IsValid}
use ghostsnap.Index.Refinement.{
  Op, View, add_chunk_op, add_pack_op, remove_chunk_op, compact_op, mark_clean_op, empty_view,
  abstract_apply, abstract_run, get_chunk-eq-lookup, has_chunk-eq-contains_key,
}
use ghostsnap.Index.Sharded.{
  ShardedIndex, shard_index, shard_of, new, add_chunk, add_pack, remove_chunk, compact, mark_clean,
  get_chunk, has_chunk, get_pack,
}
use ghostsnap.Index.Sharded.Shards.{
  replicated, map-map, Simulates, set-Simulates, view_chunk, map-Simulates,
}

-- The operations that change a sharded index.
pub data ShardedOp : Type 0 where
  add_chunk_in : ChunkId → ChunkLocation → ShardedOp
  add_pack_in : PackInfo → ShardedOp
  remove_chunk_in : ChunkId → ShardedOp
  compact_in : List ChunkId → ShardedOp
  mark_clean_in : ShardedOp

-- The first byte of an id is a byte.
abbrev pub HasShard : ChunkId → Type 0
HasShard id = shard_index id < 256

abbrev pub InShards : ShardedOp → Type 0
InShards (add_chunk_in id location) = HasShard id
InShards (remove_chunk_in id) = HasShard id
InShards _ = Unit

abbrev pub AllInShards : List ShardedOp → Type 0
AllInShards [] = Unit
AllInShards (o ∷ os) = InShards o × AllInShards os

module _ {F : Type 0} ⦃b : Bloom F⦄ where
  abbrev pub as_op : ShardedOp → Op F
  as_op (add_chunk_in id location) = add_chunk_op id location
  as_op (add_pack_in info) = add_pack_op info
  as_op (remove_chunk_in id) = remove_chunk_op id
  as_op (compact_in used) = compact_op used
  as_op mark_clean_in = mark_clean_op

  abbrev pub as_ops : List ShardedOp → List (Op F)
  as_ops [] = []
  as_ops (o ∷ os) = as_op o ∷ as_ops os

  abbrev pub perform : ShardedOp → ShardedIndex F → Result (ShardedIndex F)
  perform (add_chunk_in id location) s = add_chunk id location s
  perform (add_pack_in info) s = ok (add_pack info s)
  perform (remove_chunk_in id) s = do removed ← remove_chunk id s; ok removed.0
  perform (compact_in used) s = ok (compact used s).0
  perform mark_clean_in s = ok (mark_clean s)

  abbrev pub run : List ShardedOp → ShardedIndex F → Result (ShardedIndex F)
  run [] s = ok s
  run (o ∷ os) s = do next ← perform o s; run os next

  record Refines (s : ShardedIndex F) (w : View) : Type 0 where
    shards : Simulates s.shards w
    packs : (p : PackId) → lookup p s.packs ≡ w.pack_at p

  new-Refines : Refines new empty_view
  unfolding new
  new-Refines = record {
    shards = record {
      count = length-replicate 256 (Index.new {F = F});
      valid = λ i shard e. subst IsValid (replicated 256 i (Index.new {F = F}) shard e) new-IsValid;
      chunks = λ k shard e.
          let is = replicated 256 (shard_index k) (Index.new {F = F}) shard e in
          ap (λ (t : Index F). lookup k t.chunks) (sym is) ∙ (unfold Index.new in refl);
    };
    packs = λ p. refl;
  }

  shard_of_lem :
      (id : ChunkId) (s : ShardedIndex F) (w : View)
      → Refines s w
      → HasShard id
      → (shard : Index F) × (shard_of id s ≡ ok shard)
        × (get_elem? s.shards (shard_index id) ≡ some shard)
  unfolding shard_of
  shard_of_lem id s w v small =
      let (shard, at) =
        get_elem?-lt s.shards (shard_index id) (omega (arith, v.shards.count, small)) in
      (shard, rw at refl, at)

  add_chunk-Refines :
      (id : ChunkId) (location : ChunkLocation) (s : ShardedIndex F) (w : View)
      → Refines s w
      → HasShard id
      → (s' : ShardedIndex F) × (add_chunk id location s ≡ ok s')
        × Refines s' (abstract_apply (as_op (add_chunk_in id location)) w)
  unfolding add_chunk
  add_chunk-Refines id location s w v small =
      let (shard, found, at) = shard_of_lem id s w v small in
      let o : Op F = add_chunk_op id location in
      (
        record s {
          shards = set s.shards (shard_index id) (Index.add_chunk id location shard);
          dirty = true;
        },
        rw found refl,
        record {
          shards =
              set-Simulates o tt (shard_index id) shard s.shards w (abstract_apply o w) v.shards
                small at
                (λ k is.
                  let before = v.shards.chunks k shard (rw is at) in
                  view_chunk o tt shard k ∙ (ground (arith, before)))
                (λ k apart. ground (arith, apart, list_eq.beq_iff id k));
          packs = v.packs;
        },
      )

  remove_chunk-Refines :
      (id : ChunkId) (s : ShardedIndex F) (w : View)
      → Refines s w
      → HasShard id
      → (s' : ShardedIndex F) × (old : Option ChunkLocation) × (remove_chunk id s ≡ ok (s', old))
        × Refines s' (abstract_apply (as_op (remove_chunk_in id)) w)
  unfolding remove_chunk
  remove_chunk-Refines id s w v small =
      let (shard, found, at) = shard_of_lem id s w v small in
      let o : Op F = remove_chunk_op id in
      let removed = Index.remove_chunk id shard in
      (
        record s { shards = set s.shards (shard_index id) removed.0; dirty = true },
        removed.1,
        rw found refl,
        record {
          shards =
              set-Simulates o tt (shard_index id) shard s.shards w (abstract_apply o w) v.shards
                small at
                (λ k is.
                  let before = v.shards.chunks k shard (rw is at) in
                  view_chunk o tt shard k ∙ (ground (arith, before)))
                (λ k apart. ground (arith, apart, list_eq.beq_iff id k));
          packs = v.packs;
        },
      )

  compact-Refines :
      (used : List ChunkId) (s : ShardedIndex F) (w : View)
      → Refines s w
      → Refines (compact used s).0 (abstract_apply (as_op (compact_in used)) w)
  unfolding compact
  compact-Refines used s w v = record {
    shards =
        subst (λ xs. Simulates xs (abstract_apply (as_op (compact_in used)) w))
          (sym (map-map (Index.compact used) (λ c. c.0) s.shards))
          (map-Simulates (compact_op used) tt s.shards w _ v.shards
            (λ k shard e. ap (λ found. if contains k used then found else none) e));
    packs = v.packs;
  }

  mark_clean-Refines : (s : ShardedIndex F) (w : View) → Refines s w → Refines (mark_clean s) w
  unfolding mark_clean
  mark_clean-Refines s w v = record {
    shards = map-Simulates mark_clean_op tt s.shards w w v.shards (λ k shard e. e);
    packs = v.packs;
  }

  add_pack-Refines :
      (info : PackInfo) (s : ShardedIndex F) (w : View)
      → Refines s w
      → Refines (add_pack info s) (abstract_apply (as_op (add_pack_in info)) w)
  unfolding add_pack
  add_pack-Refines info s w v = record {
    shards = record { count = v.shards.count; valid = v.shards.valid; chunks = v.shards.chunks };
    packs = λ p.
        lookup-insert info.id p info s.packs
        ∙ ap (λ old. if info.id == p then some info else old) (v.packs p);
  }

  perform-Refines :
      (o : ShardedOp) (s : ShardedIndex F) (w : View)
      → InShards o
      → Refines s w
      → (s' : ShardedIndex F) × (perform o s ≡ ok s') × Refines s' (abstract_apply (as_op o) w)
  perform-Refines (add_chunk_in id location) s w small v = add_chunk-Refines id location s w v small
  perform-Refines (add_pack_in info) s w small v =
      (add_pack info s, refl, add_pack-Refines info s w v)
  perform-Refines (remove_chunk_in id) s w small v =
      let (s', old, ran, v') = remove_chunk-Refines id s w v small in (s', rw ran refl, v')
  perform-Refines (compact_in used) s w small v =
      ((compact used s).0, refl, compact-Refines used s w v)
  perform-Refines mark_clean_in s w small v = (mark_clean s, refl, mark_clean-Refines s w v)

  run-Refines :
      (os : List ShardedOp) (s : ShardedIndex F) (w : View)
      → AllInShards os
      → Refines s w
      → (s' : ShardedIndex F) × (run os s ≡ ok s') × Refines s' (abstract_run (as_ops os) w)
  run-Refines [] s w small v = (s, refl, v)
  run-Refines (o ∷ os) s w small v =
      let (next, ran, v') = perform-Refines o s w small.0 v in
      let (last, rest, v'') = run-Refines os next (abstract_apply (as_op o) w) small.1 v' in
      (last, rw ran rest, v'')

  -- Any history of operations on chunk ids of bytes, from an empty sharded index, ends without a panic, and then
  -- `get_chunk`, `has_chunk` and `get_pack` answer as the abstract maps on which the same history was run.
  pub run_sharded-refines :
      (os : List ShardedOp)
      → AllInShards os
      → (k : ChunkId) (p : PackId) → HasShard k
      → (s : ShardedIndex F) × (run os new ≡ ok s)
        × (get_chunk k s ≡ ok ((abstract_run (as_ops os) empty_view).chunk_at k))
        × (has_chunk k s ≡ ok (is_some ((abstract_run (as_ops os) empty_view).chunk_at k)))
        × (get_pack p s ≡ (abstract_run (as_ops os) empty_view).pack_at p)
  unfolding get_chunk has_chunk get_pack
  run_sharded-refines os small k p within =
      let w = abstract_run (as_ops os) empty_view in
      let (s, ran, v) = run-Refines os new empty_view small new-Refines in
      let (shard, found, at) = shard_of_lem k s w v within in
      let f = (v.shards.valid (shard_index k) shard at).filtered in
      let is = v.shards.chunks k shard at in
      (
        s,
        ran,
        rw found (ap ok (get_chunk-eq-lookup shard f k ∙ is)),
        rw found (ap ok (has_chunk-eq-contains_key shard f k ∙ ap is_some is)),
        v.packs p,
      )
