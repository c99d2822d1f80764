-- ===== src/PackCache.antt =====
-- The pack cache of core/src/repository.rs: the crate `lru`, as an interface, and the eviction loop of
-- `load_pack`.
pub mod Eviction
use ghostsnap.Prelude.{
  ℕ, zero, suc, ◌+◌, ◌-◌, ◌%◌, ◌^◌, ◌≡◌, ◌≢◌, Bool, not, ◌&&◌, Option, none, some, ltb, nat_beq,
  if◌then◌else◌, List, [], ◌∷◌, length,
}
use ghostsnap.Types.{PackId}
use ghostsnap.Pack
use ghostsnap.Pack.{PackFile}

-- `LruCache<PackID, Arc<PackFile>>`. An entry may go whenever another is put: what is promised is that
-- nothing else appears. The entries stand with the least recently used first, as `pop_lru` takes them.
pub record LruCache (C : Type 0) : Type 0 where
  pub peek : PackId → C → Option PackFile
  pub get : PackId → C → Option PackFile × C
  pub put : PackId → PackFile → C → C
  pub pop : PackId → C → Option PackFile × C
  pub pop_lru : C → Option (PackId × PackFile) × C
  pub len : C → ℕ
  pub get_value : (k : PackId) (c : C) → (get k c).0 ≡ peek k c
  pub peek-get : (k j : PackId) (c : C) → peek j (get k c).1 ≡ peek j c
  pub peek-put_self : (k : PackId) (p : PackFile) (c : C) → peek k (put k p c) ≡ some p
  pub peek-put_other :
      (k j : PackId) (p q : PackFile) (c : C)
      → k ≢ j
      → peek j (put k p c) ≡ some q
      → peek j c ≡ some q
  pub peek-pop_self : (k : PackId) (c : C) → peek k (pop k c).1 ≡ none
  pub peek-pop_other :
      (k j : PackId) (q : PackFile) (c : C) → peek j (pop k c).1 ≡ some q → peek j c ≡ some q
  pub peek-pop_lru :
      (j : PackId) (q : PackFile) (c : C) → peek j (pop_lru c).1 ≡ some q → peek j c ≡ some q
  pub entries : C → List (PackId × PackFile)
  pub len-entries : (c : C) → len c ≡ length (entries c)
  pub pop_lru-entries :
      (c : C) (oldest : PackId × PackFile) (rest : List (PackId × PackFile))
      → entries c ≡ oldest ∷ rest
      → ((pop_lru c).0 ≡ some oldest) × (entries (pop_lru c).1 ≡ rest)

abbrev pub evicted_size : Option (PackId × PackFile) → ℕ → ℕ
evicted_size none cache_size = cache_size
evicted_size (some (id, p)) cache_size = cache_size - Pack.size p

module _ {C : Type 0} (lru : LruCache C) (max_cache_size pack_size : ℕ) where
  -- The condition of the eviction loop.
  unfoldable pub over_limit : C → ℕ → Bool
  over_limit c cache_size =
      ltb max_cache_size ((cache_size + pack_size) % 2 ^ 64) && not (nat_beq (lru.len c) 0)

  -- The eviction loop, with at most `fuel` rounds.
  unfoldable pub evict : ℕ → C → ℕ → C × ℕ
  unfolding over_limit
  evict zero c cache_size = (c, cache_size)
  evict (suc fuel) c cache_size =
      let popped = lru.pop_lru c in
      let next = evict fuel popped.1 (evicted_size popped.0 cache_size) in
      if over_limit c cache_size then next else (c, cache_size)
