-- ===== src/Job/Retention.antt =====
-- cli/src/commands/job.rs, `run_forget`: what a job keeps. The calendar is chrono's.
pub mod Kept
use ghostsnap.Prelude.{
  ℕ, zero, suc, ◌<◌, ◌≡◌, refl, Bool, true, false, not, ◌&&◌, ◌||◌, ◌==◌, string_eq, list_eq,
  Option, none, some, List, [], ◌∷◌, arith, ltb, if◌then◌else◌, length, take, contains, set_insert,
  contains-set_insert, any, sort_newest, min, String, Bool-cases, inl, inr,
}
use ghostsnap.Types.{SnapshotId}
use ghostsnap.Action.{Action, ◌>>=◌, pure}
use ghostsnap.Snapshot.{Snapshot}
use ghostsnap.Snapshot.Encoding.{Json}
use ghostsnap.Repository.{Crates, Repository}
use ghostsnap.Repository.Objects.{load_snapshot, list_snapshots, delete_snapshot}
use ghostsnap.Config.{ResolvedJob, has_retention_policy}

-- The numbers that chrono gives to a time: its day, its ISO week and that week's year, its month, its year.
pub record Dates : Type 0 where
  pub date_naive : ℕ → ℕ
  pub iso_year : ℕ → ℕ
  pub iso_week : ℕ → ℕ
  pub month : ℕ → ℕ
  pub year : ℕ → ℕ

abbrev pub snapshot_time : Snapshot → ℕ
snapshot_time s = s.time

-- `for snapshot in … { keep_ids.insert(snapshot.id.clone()); }`
unfoldable pub insert_all : List Snapshot → List SnapshotId → List SnapshotId
insert_all [] keep = keep
insert_all (s ∷ rest) keep = insert_all rest (set_insert s.id keep)

unfoldable pub keep_last : Option ℕ → List Snapshot → List SnapshotId → List SnapshotId
unfolding insert_all
keep_last none snapshots keep = keep
keep_last (some n) snapshots keep = insert_all (take n snapshots) keep

-- The loop over the snapshots, with the periods seen. A period is a list of numbers.
unfoldable pub keep_distinct :
    (Snapshot → List ℕ) → ℕ → List Snapshot → List (List ℕ) → List SnapshotId → List SnapshotId
keep_distinct key n [] seen keep = keep
keep_distinct key n (s ∷ rest) seen keep =
    let fresh = ltb (length seen) n && not (contains (key s) seen) in
    keep_distinct key n rest (if fresh then key s ∷ seen else seen)
      (if fresh then set_insert s.id keep else keep)

unfoldable pub keep_by :
    (Snapshot → List ℕ) → Option ℕ → List Snapshot → List SnapshotId → List SnapshotId
unfolding keep_distinct
keep_by key none snapshots keep = keep
keep_by key (some n) snapshots keep = keep_distinct key n snapshots [] keep

module _ (dates : Dates) where
  abbrev pub day_key : Snapshot → List ℕ
  day_key s = dates.date_naive s.time ∷ []

  abbrev pub week_key : Snapshot → List ℕ
  week_key s = dates.iso_year s.time ∷ dates.iso_week s.time ∷ []

  abbrev pub month_key : Snapshot → List ℕ
  month_key s = dates.year s.time ∷ dates.month s.time ∷ []

  abbrev pub year_key : Snapshot → List ℕ
  year_key s = dates.year s.time ∷ []

  -- The set `keep_ids`, from the snapshots newest first. `keep_hourly` is not asked.
  unfoldable pub keep_ids : ResolvedJob → List Snapshot → List SnapshotId
  unfolding keep_last keep_by insert_all
  keep_ids job snapshots =
      let keep₀ = keep_last job.keep_last snapshots [] in
      let keep₁ = keep_by day_key job.keep_daily snapshots keep₀ in
      let keep₂ = keep_by week_key job.keep_weekly snapshots keep₁ in
      let keep₃ = keep_by month_key job.keep_monthly snapshots keep₂ in
      let keep₄ = keep_by year_key job.keep_yearly snapshots keep₃ in
      if has_retention_policy job then keep₄ else insert_all snapshots keep₄

module _ {S C F : Type 0} (crates : Crates S C) (json : Json Snapshot) where
  unfoldable pub load_all : List SnapshotId → Action (Repository S C F) (List Snapshot)
  unfolding load_snapshot
  load_all [] = pure []
  load_all (id ∷ ids) = do
    snapshot ← load_snapshot crates json id
    snapshots ← load_all ids
    pure (snapshot ∷ snapshots)

module _ {S C F : Type 0} (crates : Crates S C) where
  abbrev pub delete_unless :
      Bool → SnapshotId → Action (Repository S C F) ℕ → Action (Repository S C F) ℕ
  delete_unless true id rest = rest
  delete_unless false id rest = do
    deleted ← delete_snapshot crates id
    removed ← rest
    pure (suc removed)

  -- The loop that deletes; its count.
  unfoldable pub delete_others : List SnapshotId → List Snapshot → Action (Repository S C F) ℕ
  unfolding delete_snapshot
  delete_others keep [] = pure 0
  delete_others keep (s ∷ rest) = delete_unless (contains s.id keep) s.id (delete_others keep rest)

module _ {S C F : Type 0} (dates : Dates) (crates : Crates S C) (json : Json Snapshot)
    (sort : List String → List String) where
  -- How many ids are kept, and how many snapshots are deleted.
  unfoldable pub run_forget : ResolvedJob → Action (Repository S C F) (ℕ × ℕ)
  unfolding list_snapshots load_all keep_ids delete_others
  run_forget job = do
    ids ← list_snapshots crates sort
    loaded ← load_all crates json ids
    let snapshots = sort_newest snapshot_time loaded
    let keep = keep_ids dates job snapshots
    removed ← delete_others crates keep snapshots
    pure (length keep, removed)
