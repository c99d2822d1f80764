-- ===== src/Job/Pruning/Searching.antt =====
-- The search of `run_prune` of cli/src/commands/job.rs for packs without a referenced chunk.
use ghostsnap.Prelude.{
  ℕ, ◌≡◌, ap, true, false, ◌==◌, string_eq, list_eq, Option, none, some, List, [], ◌∷◌, ◌++◌,
  contains-append, arith, contains, Map, lookup, Bool-cases, inl, inr,
}
use mathlib.Core.Path.{subst}
use ghostsnap.Errors.{Result, ok, err, panic}
use ghostsnap.Action.{Action, resume, caught}
use ghostsnap.Types.{ChunkId, PackId}
use ghostsnap.Index
use ghostsnap.Index.{Bloom, ChunkLocation}
use ghostsnap.Repository.{Crates, Repository}
use ghostsnap.Repository.Objects.{pack_size, object_size}
use ghostsnap.Storage.{pack_path}
use ghostsnap.Job.Pruning.{has_referenced, freed_with, find_prunable}

pub has_referenced-lookup :
    (k : ChunkId) (referenced : List ChunkId) (chunks : Map ChunkId ChunkLocation)
    (loc : ChunkLocation)
    → contains k referenced ≡ true
    → lookup k chunks ≡ some loc
    → has_referenced loc.pack_id referenced chunks ≡ true
unfolding has_referenced
has_referenced-lookup k referenced [] loc u h = absurd (cc)
has_referenced-lookup k referenced ((j, l) ∷ chunks) loc u h = ground (
  arith,
  has_referenced-lookup k referenced chunks loc,
  list_eq.beq_iff j k,
  string_eq.beq_iff l.pack_id loc.pack_id,
)

pub get_chunk-lookup :
    {F : Type 0} ⦃b : Bloom F⦄ (k : ChunkId) (location : ChunkLocation) (i : Index.Index F)
    → Index.get_chunk k i ≡ some location
    → lookup k i.chunks ≡ some location
unfolding Index.get_chunk
get_chunk-lookup ⦃b = b⦄ k location i h = elim (Bool-cases (b.check k i.bloom)) [
  | inl e ↦ rw e at h
  | inr e ↦ absurd (ground (arith, e, h))
]

pub ok-eq : {A : Type 0} {a a' : A} → ok a ≡ ok a' → a ≡ a'
ok-eq h = cc

after_size :
    {R A : Type 0} (size : Result ℕ) (r r' : R) (rest : Option ℕ → Action R A) (a : A)
    → resume (caught (size, r)) rest ≡ (ok a, r')
    → (o : Option ℕ) × (rest o r ≡ (ok a, r'))
after_size panic r r' rest a h = cc
after_size (err failure) r r' rest a h = (none, h)
after_size (ok size) r r' rest a h = (some size, h)

module _ {S C F : Type 0} (crates : Crates S C) where
  -- The search changes nothing, and a pack that is to stay is not among those found.
  pub record IsFound (p : PackId) (before after : List PackId × ℕ) (r r' : Repository S C F)
      : Type 0 where
    pub same : r ≡ r'
    pub spared : contains p before.0 ≡ false → contains p after.0 ≡ false

  pub find_prunable-IsFound :
      (referenced : List ChunkId) (p : PackId) (ids : List PackId) (before after : List PackId × ℕ)
      (r r' : Repository S C F)
      → has_referenced p referenced r.index.chunks ≡ true
      → find_prunable crates referenced ids before r ≡ (ok after, r')
      → IsFound p before after r r'
  unfolding find_prunable pack_size object_size
  find_prunable-IsFound referenced p [] before after r r' keep h = record {
    same = ap (λ run. run.1) h;
    spared = λ e. let is : before ≡ after = cc in subst (λ found. contains p found.0 ≡ false) is e;
  }
  find_prunable-IsFound referenced p (id ∷ ids) before after r r' keep h =
      elim (Bool-cases (has_referenced id referenced r.index.chunks)) [
        | inl e ↦ find_prunable-IsFound referenced p ids before after r r' keep (rw e at h)
        | inr e ↦
            let (size, h₀) =
              after_size (crates.store.metadata_size (pack_path id) r.storage) r r' _ after
                (rw e at h) in
            let rest =
              find_prunable-IsFound referenced p ids (before.0 ++ id ∷ [], freed_with size before.1)
                after r r' keep h₀ in
            let apart : (id == p) ≡ false = ground (arith, keep, e, string_eq.beq_iff id p) in
            record {
              same = rest.same;
              spared = λ absent.
                  rest.spared (ground (arith, contains-append p before.0 (id ∷ []), absent, apart));
            }
      ]
