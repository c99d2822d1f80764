-- ===== src/PackCache/Eviction.antt =====
-- What the eviction loop of `load_pack` in core/src/repository.rs leaves of the cache.
use ghostsnap.Prelude.{
  ℕ, zero, suc, ◌≡◌, refl, false, some, arith, Bool-cases, inl, inr, List, [], ◌∷◌, ◌++◌, length,
  ◌+◌, ◌≤◌, ◌<◌, ◌%◌, ◌^◌, ap, sym, ◌∙◌, ◌⊎◌,
}
use mathlib.Core.Path.{subst}
use ghostsnap.Pack
use ghostsnap.Types.{PackId}
use ghostsnap.Pack.{PackFile}
use ghostsnap.PackCache.{LruCache, over_limit, evict, evicted_size}

-- The bytes of the packs of a cache.
abbrev pub total_size : List (PackId × PackFile) → ℕ
total_size [] = 0
total_size ((id, p) ∷ es) = Pack.size p + total_size es

module _ {C : Type 0} (lru : LruCache C) (max_cache_size pack_size : ℕ) where
  pub peek-evict :
      (fuel : ℕ) (c : C) (cache_size : ℕ) (j : PackId) (q : PackFile)
      → lru.peek j (evict lru max_cache_size pack_size fuel c cache_size).0 ≡ some q
      → lru.peek j c ≡ some q
  unfolding evict
  peek-evict zero c cache_size j q h = h
  peek-evict (suc fuel) c cache_size j q h =
      elim (Bool-cases (over_limit lru max_cache_size pack_size c cache_size)) [
        | inl e ↦
            let rest =
              peek-evict fuel (lru.pop_lru c).1 (evicted_size (lru.pop_lru c).0 cache_size) j q in
            lru.peek-pop_lru j q c (rest (ground (arith, h, e)))
        | inr e ↦ ground (arith, h, e)
      ]

  -- What the eviction loop is to leave of a cache: the most recently used entries, their total size, and
  -- room for the new pack unless nothing is left.
  pub record IsEvicted (before : C) (after : C × ℕ) : Type 0 where
    gone : List (PackId × PackFile)
    split : lru.entries before ≡ gone ++ lru.entries after.0
    counted : after.1 ≡ total_size (lru.entries after.0)
    room :
        (total_size (lru.entries after.0) + pack_size ≤ max_cache_size) ⊎ (lru.entries after.0 ≡ [])

  stays-IsEvicted :
      (oldest : PackId × PackFile) (es : List (PackId × PackFile)) (c : C)
      → lru.entries c ≡ oldest ∷ es
      → total_size (oldest ∷ es) + pack_size < 2 ^ 64
      → over_limit lru max_cache_size pack_size c (total_size (oldest ∷ es)) ≡ false
      → IsEvicted c (c, total_size (oldest ∷ es))
  unfolding over_limit
  stays-IsEvicted oldest es c is fits within =
      let many : lru.len c ≡ suc (length es) = lru.len-entries c ∙ ap length is in
      let total = total_size (oldest ∷ es) in
      let whole : (total + pack_size) % 2 ^ 64 ≡ total + pack_size = omega (arith, fits) in
      record {
        gone = [];
        split = refl;
        counted = ap total_size (sym is);
        room = rw is (inl (ground (arith, within, many, whole)));
      }

  evict-IsEvicted :
      (es : List (PackId × PackFile)) (c : C)
      → lru.entries c ≡ es
      → total_size es + pack_size < 2 ^ 64
      → IsEvicted c (evict lru max_cache_size pack_size (length es) c (total_size es))
  unfolding evict
  evict-IsEvicted [] c is fits = record {
    gone = [];
    split = refl;
    counted = ap total_size (sym is);
    room = inr is;
  }
  evict-IsEvicted (oldest ∷ es) c is fits =
      elim (Bool-cases (over_limit lru max_cache_size pack_size c (total_size (oldest ∷ es)))) [
        | inl over ↦
            let (popped, left) = lru.pop_lru-entries c oldest es is in
            let size : evicted_size (some oldest) (total_size (oldest ∷ es)) ≡ total_size es =
              omega arith in
            let rest = evict-IsEvicted es (lru.pop_lru c).1 left (omega (arith, fits)) in
            rw (over, popped, size)
              (record {
                gone = oldest ∷ rest.gone;
                split = is ∙ ap (λ xs. oldest ∷ xs) (sym left ∙ rest.split);
                counted = rest.counted;
                room = rest.room;
              })
        | inr within ↦ rw within (stays-IsEvicted oldest es c is fits within)
      ]

  -- When the count of bytes is that of the entries, and together with the new pack it stays below 2^64,
  -- the eviction loop of `load_pack` ends within as many rounds as the cache has entries. It has then
  -- thrown out entries from the least recently used one on and no others, its count is again that of the
  -- entries that are left, and these and the new pack fit into the limit, or nothing is left.
  pub evict_lem :
      (c : C) (cache_size : ℕ)
      → cache_size ≡ total_size (lru.entries c)
      → cache_size + pack_size < 2 ^ 64
      → IsEvicted c (evict lru max_cache_size pack_size (lru.len c) c cache_size)
  evict_lem c cache_size counted fits =
      rw (lru.len-entries c, counted)
        (evict-IsEvicted (lru.entries c) c refl (subst (λ s. s + pack_size < 2 ^ 64) counted fits))
