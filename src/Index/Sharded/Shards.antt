-- ===== src/Index/Sharded/Shards.antt =====
-- The shards of a sharded index, one by one, against the abstract map of the chunks.
use ghostsnap.Prelude.{
  ℕ, zero, suc, ◌<◌, ◌≡◌, ◌≢◌, refl, sym, ap, ◌∙◌, list_eq, string_eq, true, false, some, List, [],
  ◌∷◌, map, arith, Bool-cases, inl, inr, length, get_elem?, set, replicate, length-set,
  get_elem?-set, lookup, nat_beq,
}
use mathlib.Core.Path.{subst}
use ghostsnap.Types.{ChunkId}
use ghostsnap.Index.{Index, Bloom}
use ghostsnap.Index.Invariant.{IsValid}
use ghostsnap.Index.Refinement.{
  Op, View, MergesValid, apply, view, abstract_apply, apply-IsValid, view-apply,
}
use ghostsnap.Index.Sharded.{shard_index}

get_elem?-map :
    {A B : Type 0} (f : A → B) (xs : List A) (i : ℕ) (y : B)
    → get_elem? (map f xs) i ≡ some y
    → (x : A) × (get_elem? xs i ≡ some x) × (f x ≡ y)
get_elem?-map f [] i y h = cc
get_elem?-map f (x ∷ xs) zero y h = (x, refl, cc)
get_elem?-map f (x ∷ xs) (suc i) y h = get_elem?-map f xs i y h

set_same :
    {A : Type 0} (xs : List A) (i j : ℕ) (v x : A)
    → i < length xs
    → nat_beq i j ≡ true
    → get_elem? (set xs i v) j ≡ some x
    → v ≡ x
set_same xs i j v x h same e = let is = get_elem?-set xs i j v h in cc

set_other :
    {A : Type 0} (xs : List A) (i j : ℕ) (v x : A)
    → i < length xs
    → nat_beq i j ≡ false
    → get_elem? (set xs i v) j ≡ some x
    → get_elem? xs j ≡ some x
set_other xs i j v x h apart e = let is = get_elem?-set xs i j v h in cc

pub replicated : {A : Type 0} (n i : ℕ) (a x : A) → get_elem? (replicate n a) i ≡ some x → a ≡ x
replicated zero i a x h = cc
replicated (suc n) zero a x h = cc
replicated (suc n) (suc i) a x h = replicated n i a x h

pub length-map : {A B : Type 0} (f : A → B) (xs : List A) → length (map f xs) ≡ length xs
length-map f [] = refl
length-map f (x ∷ xs) = ap suc (length-map f xs)

pub map-map :
    {A B C : Type 0} (f : A → B) (g : B → C) (xs : List A)
    → map g (map f xs) ≡ map (λ x. g (f x)) xs
map-map f g [] = refl
map-map f g (x ∷ xs) = ap (λ ys. g (f x) ∷ ys) (map-map f g xs)

module _ {F : Type 0} ⦃b : Bloom F⦄ where
  -- Each chunk is where its first byte says, and nowhere else is asked for.
  pub record Simulates (shards : List (Index F)) (w : View) : Type 0 where
    pub count : length shards ≡ 256
    pub valid : (i : ℕ) (shard : Index F) → get_elem? shards i ≡ some shard → IsValid shard
    pub chunks :
        (k : ChunkId) (shard : Index F)
        → get_elem? shards (shard_index k) ≡ some shard
        → lookup k shard.chunks ≡ w.chunk_at k

  -- A change of one shard, of whose chunks the view says the same and of others the same as before.
  pub set-Simulates :
      (o : Op F) (m : MergesValid o) (i : ℕ) (shard : Index F) (shards : List (Index F))
      (w w' : View)
      → Simulates shards w
      → i < 256
      → get_elem? shards i ≡ some shard
      → ((k : ChunkId) → shard_index k ≡ i → lookup k (apply o shard).chunks ≡ w'.chunk_at k)
      → ((k : ChunkId) → shard_index k ≢ i → w.chunk_at k ≡ w'.chunk_at k)
      → Simulates (set shards i (apply o shard)) w'
  set-Simulates o m i shard shards w w' v small at here others =
      let inside : i < length shards = omega (arith, v.count, small) in
      record {
        count = length-set shards i (apply o shard) ∙ v.count;
        valid = λ j other e. elim (Bool-cases (nat_beq i j)) [
          | inl same ↦
              subst IsValid (set_same shards i j (apply o shard) other inside same e)
                (apply-IsValid o m (v.valid i shard at))
          | inr apart ↦ v.valid j other (set_other shards i j (apply o shard) other inside apart e)
        ];
        chunks = λ k other e. elim (Bool-cases (nat_beq i (shard_index k))) [
          | inl same ↦
              subst (λ (t : Index F). lookup k t.chunks ≡ w'.chunk_at k)
                (set_same shards i (shard_index k) (apply o shard) other inside same e)
                (here k (ground (arith, same)))
          | inr apart ↦
              v.chunks k other
                (set_other shards i (shard_index k) (apply o shard) other inside apart e)
              ∙ others k (λ is. ground (arith, apart, is))
        ];
      }

  pub view_chunk :
      (o : Op F) (m : MergesValid o) (shard : Index F) (k : ChunkId)
      → lookup k (apply o shard).chunks ≡ (abstract_apply o (view shard)).chunk_at k
  view_chunk o m shard k = ap (λ (w : View). w.chunk_at k) (view-apply o m shard)

  -- The same change of all shards.
  pub map-Simulates :
      (o : Op F) (m : MergesValid o) (shards : List (Index F)) (w w' : View)
      → Simulates shards w
      → ((k : ChunkId) (shard : Index F)
          → lookup k shard.chunks ≡ w.chunk_at k
          → (abstract_apply o (view shard)).chunk_at k ≡ w'.chunk_at k)
      → Simulates (map (apply o) shards) w'
  map-Simulates o m shards w w' v same = record {
    count = length-map (apply o) shards ∙ v.count;
    valid = λ i after e.
        let (shard, at, is) = get_elem?-map (apply o) shards i after e in
        subst IsValid is (apply-IsValid o m (v.valid i shard at));
    chunks = λ k after e.
        let (shard, at, is) = get_elem?-map (apply o) shards (shard_index k) after e in
        ap (λ (t : Index F). lookup k t.chunks) (sym is)
        ∙ view_chunk o m shard k
        ∙ same k shard (v.chunks k shard at);
  }
