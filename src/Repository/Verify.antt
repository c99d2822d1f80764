-- ===== src/Repository/Verify.antt =====
-- core/src/repository.rs: `verify`, `stats`, `cache_stats` and `migrate`. What `verify` counts is the packs and
-- snapshots of a listing; the chunks of one pack after another are added up in 64 bits.
use ghostsnap.Prelude.{
  ℕ, ◌+◌, ◌%◌, ◌^◌, ◌≡◌, refl, ap, ◌∙◌, sym, String, Bool, true, false, Option, none, some, List,
  [], ◌∷◌, length, nat_beq, inl, inr, if◌then◌else◌,
}
use ghostsnap.Errors.{Error, Result, ok, err, >>=-eq-ok, Result-cases}
use ghostsnap.Action.{Action, ◌>>=◌, pure, attempt, resume, caught}
use ghostsnap.Types.{PackId, SnapshotId}
use ghostsnap.Index
use ghostsnap.Index.{Index}
use ghostsnap.Pack
use ghostsnap.Pack.{PackFile}
use ghostsnap.Pack.Encoding.{verify_checksum-from_encrypted_bytes}
use ghostsnap.Snapshot.{Snapshot}
use ghostsnap.Snapshot.Encoding.{Json}
use ghostsnap.Storage.{pack_path}
use ghostsnap.Repository.{Crates, Repository, encryptor_of, load_pack}
use ghostsnap.Repository.Coherence.{IsCoherent, stored_pack, load_pack-IsLoad}
use ghostsnap.Repository.Objects.{load_snapshot, list_snapshots, list_packs}

pub record VerifyStats : Type 0 where
  pub valid_packs : ℕ
  pub corrupt_packs : ℕ
  pub valid_chunks : ℕ
  pub corrupt_chunks : ℕ
  pub valid_snapshots : ℕ
  pub corrupt_snapshots : ℕ

abbrev pub no_stats : VerifyStats
no_stats = record {
  valid_packs = 0;
  corrupt_packs = 0;
  valid_chunks = 0;
  corrupt_chunks = 0;
  valid_snapshots = 0;
  corrupt_snapshots = 0;
}

abbrev pub count_valid : PackFile → VerifyStats → VerifyStats
count_valid pack stats = record stats {
  valid_packs = stats.valid_packs + 1;
  valid_chunks = (stats.valid_chunks + length pack.chunks) % 2 ^ 64;
}

abbrev pub count_corrupt : PackFile → VerifyStats → VerifyStats
count_corrupt pack stats = record stats {
  corrupt_packs = stats.corrupt_packs + 1;
  corrupt_chunks = (stats.corrupt_chunks + length pack.chunks) % 2 ^ 64;
}

abbrev pub count_snapshot : Option Snapshot → VerifyStats → VerifyStats
count_snapshot none stats = record stats { corrupt_snapshots = stats.corrupt_snapshots + 1 }
count_snapshot (some s) stats = record stats { valid_snapshots = stats.valid_snapshots + 1 }

module _ {S C : Type 0} (crates : Crates S C) where
  -- What a pack adds, which could be loaded or not.
  unfoldable pub count_pack : Bool → Option PackFile → VerifyStats → VerifyStats
  count_pack check_data none stats = record stats { corrupt_packs = stats.corrupt_packs + 1 }
  count_pack true (some pack) stats =
      if Pack.verify_checksum crates.hasher crates.hex pack
      then count_valid pack stats
      else count_corrupt pack stats
  count_pack false (some pack) stats = count_valid pack stats

  count_pack-true :
      (pack : PackFile) (stats : VerifyStats)
      → Pack.verify_checksum crates.hasher crates.hex pack ≡ true
      → count_pack true (some pack) stats ≡ count_pack false (some pack) stats
  unfolding count_pack
  count_pack-true pack stats h = rw h refl

module _ {S C F : Type 0} (crates : Crates S C) where
  unfoldable pub verify_packs :
      Bool → List PackId → VerifyStats → Action (Repository S C F) VerifyStats
  unfolding count_pack
  verify_packs check_data [] stats = pure stats
  verify_packs check_data (id ∷ ids) stats = do
    pack ← attempt (load_pack crates id)
    verify_packs check_data ids (count_pack crates check_data pack stats)

  unfoldable pub verify_snapshots :
      Json Snapshot → List SnapshotId → VerifyStats → Action (Repository S C F) VerifyStats
  unfolding load_snapshot
  verify_snapshots json [] stats = pure stats
  verify_snapshots json (id ∷ ids) stats = do
    snapshot ← attempt (load_snapshot crates json id)
    verify_snapshots json ids (count_snapshot snapshot stats)

  unfoldable pub verify :
      Json Snapshot → (List String → List String) → Bool → Action (Repository S C F) VerifyStats
  unfolding list_packs list_snapshots verify_packs verify_snapshots
  verify json sort check_data = do
    pack_ids ← list_packs crates
    stats ← verify_packs check_data pack_ids no_stats
    snapshot_ids ← list_snapshots crates sort
    verify_snapshots json snapshot_ids stats

pub record RepoStats : Type 0 where
  pub chunk_count : ℕ
  pub pack_count : ℕ

pub record CacheStats : Type 0 where
  pub pack_count : ℕ
  pub total_size : ℕ
  pub max_size : ℕ

module _ {S C F : Type 0} where
  pub stats : Repository S C F → RepoStats
  stats r = record {
    chunk_count = Index.chunk_count r.index;
    pack_count = Index.pack_count r.index;
  }

  pub cache_stats : Crates S C → Repository S C F → CacheStats
  cache_stats crates r = record {
    pack_count = crates.lru.len r.pack_cache;
    total_size = r.pack_cache_size;
    max_size = r.max_cache_size;
  }

-- Of the configuration only the version is looked at.
pub migrate : ℕ → Result Bool
migrate version = if nat_beq version 1 then ok false else err (Error.invalid_format_version version)

module _ {S C F : Type 0} (crates : Crates S C) where
  -- A stored pack has passed its checksum when it was decoded.
  pub verify_checksum-stored_pack :
      (id : PackId) (pack : PackFile) (r : Repository S C F)
      → stored_pack crates id r ≡ ok pack
      → Pack.verify_checksum crates.hasher crates.hex pack ≡ true
  verify_checksum-stored_pack id pack r h =
      let (encryptor, unlocked, h₀) = >>=-eq-ok (encryptor_of r) _ h in
      let (bytes, read, h₁) = >>=-eq-ok (crates.store.read (pack_path id) r.storage) _ h₀ in
      verify_checksum-from_encrypted_bytes crates.cipher crates.hasher crates.hex crates.headers
        crates.tables encryptor bytes pack h₁

  -- The step after a load of a pack.
  abbrev after_load :
      Bool
      → List PackId
      → VerifyStats
      → Result PackFile × Repository S C F
      → Result VerifyStats × Repository S C F
  after_load check_data ids stats run =
      resume (caught run)
        (λ pack. verify_packs crates check_data ids (count_pack crates check_data pack stats))

  verify_packs-true :
      (ids : List PackId) (stats : VerifyStats) (r : Repository S C F)
      → IsCoherent crates r
      → verify_packs crates true ids stats r ≡ verify_packs crates false ids stats r
  unfolding verify_packs
  verify_packs-true [] stats r v = refl
  verify_packs-true (id ∷ ids) stats r v =
      let run = load_pack crates id r in
      let load = load_pack-IsLoad crates id r v in
      elim (Result-cases run.0) [
        | inl e ↦
            ap (λ o. after_load true ids stats (o, run.1)) e
            ∙ sym (ap (λ o. after_load false ids stats (o, run.1)) e)
        | inr (inl (failure, e)) ↦
            ap (λ o. after_load true ids stats (o, run.1)) e
            ∙ unfold count_pack in
              verify_packs-true ids (count_pack crates false none stats) run.1 load.coherent
              ∙ sym (ap (λ o. after_load false ids stats (o, run.1)) e)
        | inr (inr (pack, e)) ↦
            let same =
              count_pack-true crates pack stats
                (verify_checksum-stored_pack id pack r (sym load.answer ∙ e)) in
            ap (λ o. after_load true ids stats (o, run.1)) e
            ∙ ap (λ c. verify_packs crates true ids c run.1) same
            ∙ verify_packs-true ids (count_pack crates false (some pack) stats) run.1 load.coherent
            ∙ sym (ap (λ o. after_load false ids stats (o, run.1)) e)
      ]

  -- In a coherent repository a verification that checks the data tells what one that does not tells, and
  -- leaves the same repository behind: a pack whose checksum is wrong is refused when it is loaded, with or
  -- without the check.
  pub verify-true :
      (json : Json Snapshot) (sort : List String → List String) (r : Repository S C F)
      → IsCoherent crates r
      → verify crates json sort true r ≡ verify crates json sort false r
  unfolding verify list_packs
  verify-true json sort r v = elim (Result-cases (crates.store.list "data" r.storage)) [
    | inl e ↦ rw e refl
    | inr (inl (failure, e)) ↦ rw e refl
    | inr (inr (names, e)) ↦ rw e (
        ap
          (λ run. resume run (λ stats.
            (list_snapshots crates sort) >>= (λ ids. verify_snapshots crates json ids stats)))
          (verify_packs-true _ no_stats r v))
  ]
