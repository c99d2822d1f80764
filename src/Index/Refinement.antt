-- ===== src/Index/Refinement.antt =====
-- An index refines a partial function from chunk ids to locations and one from pack ids to pack
-- infos: the filter can never be seen. The operations are data, so that a history is a list.
use ghostsnap.Prelude.{
  ◌≡◌, refl, ap, fun_ext, ◌∙◌, Option, none, some, List, [], ◌∷◌, arith, Bool-cases, Option-cases,
  inl, inr, ltb, length, Map, lookup, contains, contains_key, lookup-insert, lookup-remove,
  lookup-retain_keys, lookup-extend, list_eq, string_eq, Eq, ◌==◌, is_some, ◌-◌, retain_keys,
  if◌then◌else◌, IsMap, extend,
}
use ghostsnap.Types.{ChunkId, PackId}
use ghostsnap.Index.{
  ChunkLocation, PackInfo, Bloom, Index, new, add_chunk, add_pack, remove_chunk, remove_pack,
  mark_clean, merge, compact, has_chunk, get_chunk, get_pack, rebuild_bloom,
}
use ghostsnap.Index.Invariant.{
  Filtered, IsValid, new-IsValid, add_chunk-IsValid, add_pack-IsValid, remove_chunk-IsValid,
  remove_pack-IsValid, mark_clean-IsValid, compact-IsValid, merge-IsValid, merge_chunks_lem,
}

-- The operations that change an index.
pub data Op (F : Type 0) : Type 0 where
  add_chunk_op : ChunkId → ChunkLocation → Op F
  add_pack_op : PackInfo → Op F
  remove_chunk_op : ChunkId → Op F
  remove_pack_op : PackId → Op F
  compact_op : List ChunkId → Op F
  merge_op : Index F → Op F
  mark_clean_op : Op F

-- What a client can look up.
pub record View : Type 0 where
  pub chunk_at : ChunkId → Option ChunkLocation
  pub pack_at : PackId → Option PackInfo

abbrev pub empty_view : View
empty_view = record { chunk_at = λ k. none; pack_at = λ k. none }

abbrev pub update {ℓ κ} :
    {K : Type ℓ} {V : Type κ} ⦃e : Eq K⦄ → K → Option V → (K → Option V) → K → Option V
update k v f j = if k == j then v else f j

abbrev pub override {ℓ} : {V : Type ℓ} → Option V → Option V → Option V
override none old = old
override (some v) old = some v

extended {ℓ κ} :
    {K : Type ℓ} {V : Type κ} ⦃e : Eq K⦄ (k : K) (m n : Map K V)
    → IsMap n
    → lookup k (extend m n) ≡ override (lookup k n) (lookup k m)
extended k m n u = rw (lookup-extend k m n u) (ground arith)

module _ {F : Type 0} ⦃b : Bloom F⦄ where
  abbrev pub apply : Op F → Index F → Index F
  apply (add_chunk_op id loc) i = add_chunk id loc i
  apply (add_pack_op info) i = add_pack info i
  apply (remove_chunk_op id) i = (remove_chunk id i).0
  apply (remove_pack_op id) i = (remove_pack id i).0
  apply (compact_op used) i = (compact used i).0
  apply (merge_op other) i = merge other i
  apply mark_clean_op i = mark_clean i

  abbrev pub run : List (Op F) → Index F → Index F
  run [] i = i
  run (o ∷ os) i = run os (apply o i)

  abbrev pub view : Index F → View
  view i = record { chunk_at = λ k. lookup k i.chunks; pack_at = λ k. lookup k i.packs }

  -- The abstract effect, with no filter, no list and no flag.
  abbrev pub abstract_apply : Op F → View → View
  abstract_apply (add_chunk_op id loc) w = record w { chunk_at = update id (some loc) w.chunk_at }
  abstract_apply (add_pack_op info) w = record w { pack_at = update info.id (some info) w.pack_at }
  abstract_apply (remove_chunk_op id) w = record w { chunk_at = update id none w.chunk_at }
  abstract_apply (remove_pack_op id) w = record w { pack_at = update id none w.pack_at }
  abstract_apply (compact_op used) w = record w {
    chunk_at = λ k. if contains k used then w.chunk_at k else none;
  }
  abstract_apply (merge_op other) w = record {
    chunk_at = λ k. override (lookup k other.chunks) (w.chunk_at k);
    pack_at = λ k. override (lookup k other.packs) (w.pack_at k);
  }
  abstract_apply mark_clean_op w = w

  abbrev pub abstract_run : List (Op F) → View → View
  abstract_run [] w = w
  abstract_run (o ∷ os) w = abstract_run os (abstract_apply o w)

  -- Every index that is merged in is a valid one.
  abbrev pub MergesValid : Op F → Type 0
  MergesValid (merge_op other) = IsValid other
  MergesValid _ = Unit

  abbrev pub AllMergeValid : List (Op F) → Type 0
  AllMergeValid [] = Unit
  AllMergeValid (o ∷ os) = MergesValid o × AllMergeValid os

  pub apply-IsValid : (o : Op F) → MergesValid o → {i : Index F} → IsValid i → IsValid (apply o i)
  apply-IsValid (add_chunk_op id loc) m v = add_chunk-IsValid v id loc
  apply-IsValid (add_pack_op info) m v = add_pack-IsValid v info
  apply-IsValid (remove_chunk_op id) m v = remove_chunk-IsValid v id
  apply-IsValid (remove_pack_op id) m v = remove_pack-IsValid v id
  apply-IsValid (compact_op used) m v = compact-IsValid v used
  apply-IsValid (merge_op other) m v = merge-IsValid v other m
  apply-IsValid mark_clean_op m v = mark_clean-IsValid v

  -- Behind a filter that knows the map, `get_chunk` answers from the map.
  pub get_chunk-eq-lookup :
      (i : Index F) → Filtered i.chunks i.bloom → (k : ChunkId) → get_chunk k i ≡ lookup k i.chunks
  unfolding get_chunk
  get_chunk-eq-lookup i f k = elim (Option-cases (lookup k i.chunks)) [
    | inl e ↦ ground arith
    | inr (loc, e) ↦ rw (f k loc e)
  ]

  pub has_chunk-eq-contains_key :
      (i : Index F)
      → Filtered i.chunks i.bloom
      → (k : ChunkId) → has_chunk k i ≡ contains_key k i.chunks
  unfolding has_chunk
  has_chunk-eq-contains_key i f k = elim (Option-cases (lookup k i.chunks)) [
    | inl e ↦ ground arith
    | inr (loc, e) ↦ rw (f k loc e)
  ]

  -- The two outcomes of `compact` keep the same chunks.
  pub compact_lem :
      (used : List ChunkId) (i : Index F)
      → ((compact used i).0.chunks ≡ retain_keys (λ id. contains id used) i.chunks)
        × ((compact used i).0.packs ≡ i.packs)
        × ((compact used i).1
            ≡ length i.chunks - length (retain_keys (λ id. contains id used) i.chunks))
  unfolding compact rebuild_bloom
  compact_lem used i =
      elim (Bool-cases
        (ltb 0 (length i.chunks - length (retain_keys (λ id. contains id used) i.chunks)))) [
          | inl e ↦ rw e (refl, refl, refl)
          | inr e ↦ rw e (refl, refl, refl)
        ]

  pub view-apply :
      (o : Op F) → MergesValid o → (i : Index F) → view (apply o i) ≡ abstract_apply o (view i)
  unfolding add_chunk add_pack remove_chunk remove_pack mark_clean merge
  view-apply (add_chunk_op id loc) m i = λ t. record {
    chunk_at = fun_ext (λ k. lookup-insert id k loc i.chunks) t;
    pack_at = (view i).pack_at;
  }
  view-apply (add_pack_op info) m i = λ t. record {
    chunk_at = (view i).chunk_at;
    pack_at = fun_ext (λ k. lookup-insert info.id k info i.packs) t;
  }
  view-apply (remove_chunk_op id) m i = λ t. record {
    chunk_at = fun_ext (λ k. lookup-remove id k i.chunks) t;
    pack_at = (view i).pack_at;
  }
  view-apply (remove_pack_op id) m i = λ t. record {
    chunk_at = (view i).chunk_at;
    pack_at = fun_ext (λ k. lookup-remove id k i.packs) t;
  }
  view-apply (compact_op used) m i = λ t. record {
    chunk_at =
        fun_ext {B = λ _. Option ChunkLocation}
          (λ k.
            ap (lookup k) (compact_lem used i).0
            ∙ lookup-retain_keys (λ id. contains id used) k i.chunks)
          t;
    pack_at = λ k. lookup k ((compact_lem used i).1 t);
  }
  view-apply (merge_op other) m i = λ t. record {
    chunk_at =
        fun_ext
          (λ k.
            ap (lookup k) (merge_chunks_lem other.chunks i).0
            ∙ extended k i.chunks other.chunks m.chunks_map)
          t;
    pack_at =
        fun_ext
          (λ k.
            ap (λ (q : Map PackId PackInfo). lookup k (extend q other.packs))
              (merge_chunks_lem other.chunks i).1
            ∙ extended k i.packs other.packs m.packs_map)
          t;
  }
  view-apply mark_clean_op m i = refl

  view-run :
      (os : List (Op F))
      → AllMergeValid os
      → (i : Index F) → view (run os i) ≡ abstract_run os (view i)
  view-run [] m i = refl
  view-run (o ∷ os) m i = view-run os m.1 (apply o i) ∙ ap (abstract_run os) (view-apply o m.0 i)

  -- Every operation, in any order, keeps a valid index valid.
  pub run-IsValid :
      (os : List (Op F)) → AllMergeValid os → (i : Index F) → IsValid i → IsValid (run os i)
  run-IsValid [] m i v = v
  run-IsValid (o ∷ os) m i v = run-IsValid os m.1 (apply o i) (apply-IsValid o m.0 v)

  -- After any history of operations from an empty index in which every merged index is valid,
  -- `get_chunk`, `has_chunk` and `get_pack` answer as the abstract maps do.
  pub run-refines :
      (os : List (Op F))
      → AllMergeValid os
      → (k : ChunkId) (p : PackId)
      → (get_chunk k (run os new) ≡ (abstract_run os empty_view).chunk_at k)
        × (has_chunk k (run os new) ≡ is_some ((abstract_run os empty_view).chunk_at k))
        × (get_pack p (run os new) ≡ (abstract_run os empty_view).pack_at p)
  unfolding new get_pack
  run-refines os m k p =
      let same = view-run os m new in
      let v = run-IsValid os m new new-IsValid in
      (
        get_chunk-eq-lookup _ v.filtered k ∙ ap (λ (w : View). w.chunk_at k) same,
        has_chunk-eq-contains_key _ v.filtered k ∙ ap (λ (w : View). is_some (w.chunk_at k)) same,
        ap (λ (w : View). w.pack_at p) same,
      )
