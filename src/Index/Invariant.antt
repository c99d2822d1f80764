-- ===== src/Index/Invariant.antt =====
-- What makes an index correct: no chunk of the map is unknown to the filter, each map has a key
-- once, and a pack stands under its own id. Every operation keeps it.
use ghostsnap.Prelude.{
  ℕ, ◌≡◌, refl, Bool, true, some, List, [], ◌∷◌, arith, Bool-cases, inl, inr, ltb, length, keys,
  Map, lookup, contains, insert, IsMap, insert-IsMap, remove-IsMap, retain_keys-IsMap, extend-IsMap,
  lookup-insert, lookup-remove, lookup-retain_keys, lookup-extend, contains-keys, extend, list_eq,
  string_eq, ◌-◌, retain_keys,
}
use ghostsnap.Types.{ChunkId, PackId}
use ghostsnap.Index.{
  ChunkLocation, PackInfo, Bloom, Index, new, with_capacity, add_chunk, add_pack, remove_chunk,
  remove_pack, mark_clean, set_all, merge_chunks, merge, compact,
}

abbrev pub IsKeyed : Map PackId PackInfo → Type 0
IsKeyed packs = (id : PackId) (info : PackInfo) → lookup id packs ≡ some info → info.id ≡ id

extend-IsKeyed :
    (m n : Map PackId PackInfo) → IsKeyed m → IsKeyed n → IsMap n → IsKeyed (extend m n)
extend-IsKeyed m n hm hn u id info h =
    ground (arith, lookup-extend id m n u, hm id info, hn id info)

module _ {F : Type 0} ⦃b : Bloom F⦄ where
  abbrev pub Filtered : Map ChunkId ChunkLocation → F → Type 0
  Filtered chunks f =
      (k : ChunkId) (loc : ChunkLocation) → lookup k chunks ≡ some loc → b.check k f ≡ true

  pub record IsValid (i : Index F) : Type 0 where
    pub filtered : Filtered i.chunks i.bloom
    pub chunks_map : IsMap i.chunks
    pub packs_map : IsMap i.packs
    pub keyed : IsKeyed i.packs

  set_all_mono :
      (ids : List ChunkId) (k : ChunkId) (f : F)
      → b.check k f ≡ true
      → b.check k (set_all ids f) ≡ true
  unfolding set_all
  set_all_mono [] k f h = h
  set_all_mono (id ∷ ids) k f h = set_all_mono ids k (b.set id f) (b.check-set_mono id k f h)

  -- After the loop every listed id passes the filter.
  pub set_all-contains :
      (ids : List ChunkId) (k : ChunkId) (f : F)
      → contains k ids ≡ true
      → b.check k (set_all ids f) ≡ true
  unfolding set_all
  set_all-contains [] k f h = cc
  set_all-contains (id ∷ ids) k f h = ground (
    arith,
    list_eq.beq_iff id k,
    set_all-contains ids k (b.set id f),
    set_all_mono ids k (b.set id f),
    b.check-set_self id f,
  )

  -- A filter rebuilt from the keys of a map knows the map.
  pub set_all-Filtered :
      (chunks : Map ChunkId ChunkLocation) (f : F) → Filtered chunks (set_all (keys chunks) f)
  set_all-Filtered chunks f k loc h =
      set_all-contains (keys chunks) k f (ground (arith, contains-keys k chunks))

  insert-Filtered :
      (id : ChunkId) (loc : ChunkLocation) (chunks : Map ChunkId ChunkLocation) (f : F)
      → Filtered chunks f
      → Filtered (insert id loc chunks) (b.set id f)
  insert-Filtered id loc chunks f h k l e = ground (
    arith,
    lookup-insert id k loc chunks,
    list_eq.beq_iff id k,
    h k l,
    b.check-set_self id f,
    b.check-set_mono id k f,
  )

  pub new-IsValid : IsValid new
  unfolding new
  new-IsValid = record {
    filtered = λ k loc h. cc;
    chunks_map = tt;
    packs_map = tt;
    keyed = λ id info h. cc;
  }

  pub with_capacity-IsValid : (n : ℕ) → IsValid (with_capacity n)
  unfolding with_capacity
  with_capacity-IsValid n = record {
    filtered = λ k loc h. cc;
    chunks_map = tt;
    packs_map = tt;
    keyed = λ id info h. cc;
  }

  module _ {i : Index F} (v : IsValid i) where
    pub add_chunk-IsValid : (id : ChunkId) (loc : ChunkLocation) → IsValid (add_chunk id loc i)
    unfolding add_chunk
    add_chunk-IsValid id loc = record {
      filtered = insert-Filtered id loc i.chunks i.bloom v.filtered;
      chunks_map = insert-IsMap id loc i.chunks v.chunks_map;
      packs_map = v.packs_map;
      keyed = v.keyed;
    }

    pub add_pack-IsValid : (info : PackInfo) → IsValid (add_pack info i)
    unfolding add_pack
    add_pack-IsValid info = record {
      filtered = v.filtered;
      chunks_map = v.chunks_map;
      packs_map = insert-IsMap info.id info i.packs v.packs_map;
      keyed = λ id x h. ground (
        arith,
        lookup-insert info.id id info i.packs,
        string_eq.beq_iff info.id id,
        v.keyed id x,
      );
    }

    pub mark_clean-IsValid : IsValid (mark_clean i)
    unfolding mark_clean
    mark_clean-IsValid = record {
      filtered = v.filtered;
      chunks_map = v.chunks_map;
      packs_map = v.packs_map;
      keyed = v.keyed;
    }

    pub remove_chunk-IsValid : (id : ChunkId) → IsValid (remove_chunk id i).0
    unfolding remove_chunk
    remove_chunk-IsValid id = record {
      filtered = λ k loc h. ground (arith, lookup-remove id k i.chunks, v.filtered k loc);
      chunks_map = remove-IsMap id i.chunks v.chunks_map;
      packs_map = v.packs_map;
      keyed = v.keyed;
    }

    pub remove_pack-IsValid : (id : PackId) → IsValid (remove_pack id i).0
    unfolding remove_pack
    remove_pack-IsValid id = record {
      filtered = v.filtered;
      chunks_map = v.chunks_map;
      packs_map = remove-IsMap id i.packs v.packs_map;
      keyed = λ k x h. ground (arith, lookup-remove id k i.packs, v.keyed k x);
    }

    kept-Filtered :
        (used : List ChunkId) → Filtered (retain_keys (λ id. contains id used) i.chunks) i.bloom
    kept-Filtered used k loc h =
        ground (arith, lookup-retain_keys (λ id. contains id used) k i.chunks, v.filtered k loc)

    pub compact-IsValid : (used : List ChunkId) → IsValid (compact used i).0
    unfolding compact
    compact-IsValid used =
        let p : ChunkId → Bool = λ id. contains id used in
        elim (Bool-cases (ltb 0 (length i.chunks - length (retain_keys p i.chunks)))) [
          | inl e ↦ rw e (record {
            filtered = set_all-Filtered (retain_keys p i.chunks) _;
            chunks_map = retain_keys-IsMap p i.chunks v.chunks_map;
            packs_map = v.packs_map;
            keyed = v.keyed;
          })
          | inr e ↦ rw e (record {
            filtered = kept-Filtered used;
            chunks_map = retain_keys-IsMap p i.chunks v.chunks_map;
            packs_map = v.packs_map;
            keyed = v.keyed;
          })
        ]

  -- The loop of `merge` is an `extend` of the map, and leaves the packs alone.
  pub merge_chunks_lem :
      (other : Map ChunkId ChunkLocation) (i : Index F)
      → ((merge_chunks other i).chunks ≡ extend i.chunks other)
        × ((merge_chunks other i).packs ≡ i.packs)
  unfolding merge_chunks
  merge_chunks_lem [] i = (refl, refl)
  merge_chunks_lem ((id, loc) ∷ rest) i =
      merge_chunks_lem rest (record i { bloom = b.set id i.bloom; chunks = insert id loc i.chunks })

  merge_chunks-Filtered :
      (other : Map ChunkId ChunkLocation) (i : Index F)
      → Filtered i.chunks i.bloom
      → Filtered (merge_chunks other i).chunks (merge_chunks other i).bloom
  unfolding merge_chunks
  merge_chunks-Filtered [] i h = h
  merge_chunks-Filtered ((id, loc) ∷ rest) i h =
      merge_chunks-Filtered rest _ (insert-Filtered id loc i.chunks i.bloom h)

  pub merge-IsValid :
      {i : Index F} (v : IsValid i) (other : Index F) → IsValid other → IsValid (merge other i)
  unfolding merge
  merge-IsValid {i} v other w = record {
    filtered = merge_chunks-Filtered other.chunks i v.filtered;
    chunks_map =
        rw (merge_chunks_lem other.chunks i).0 (extend-IsMap i.chunks other.chunks v.chunks_map);
    packs_map =
        rw (merge_chunks_lem other.chunks i).1 (extend-IsMap i.packs other.packs v.packs_map);
    keyed =
        rw (merge_chunks_lem other.chunks i).1
          (extend-IsKeyed i.packs other.packs v.keyed w.keyed w.packs_map);
  }
