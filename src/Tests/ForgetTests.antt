-- ===== src/Tests/ForgetTests.antt =====
-- The theorems on snapshots and their retention at concrete inputs.
use ghostsnap.Prelude.{
  ℕ, ◌/◌, ◌≡◌, false, string_eq, none, some, List, [], ◌∷◌, contains, arith, ◌++◌, Map, String, leb,
  if◌then◌else◌,
}
use ghostsnap.Errors.{ok}
use ghostsnap.Types.{SnapshotId, ChunkId}
use ghostsnap.Snapshot.{Snapshot}
use ghostsnap.Forget.{Calendar, SnapshotInfo, ForgetCommand, apply_retention_policies}
use ghostsnap.Forget.Policies.{InRange, is_kept, apply_retention_policies_lem}
use ghostsnap.Foreign.{Bytes}
use ghostsnap.Repository.{Crates, Repository}
use ghostsnap.Repository.Objects.{snapshot_path}
use ghostsnap.Tests.Stores.{map_storage, Slot}
use ghostsnap.Tests.ObjectsTests.{crates, empty, nonce}

abbrev snapshot : Snapshot
snapshot = record {
  id = "s1";
  parent = none;
  tree = [];
  paths = "/home" ∷ [];
  hostname = "h";
  username = "u";
  time = 3;
  tags = "t" ∷ [];
  excludes = [];
}

-- Days of ten ticks, of which only the last has a name of its own.
abbrev calendar : Calendar
calendar = record {
  day_key = λ t. if leb 90 t then "today" else "before";
  month_key = λ t. "m";
  year_key = λ t. "y";
  year = λ t. 1;
  iso_week = λ t. t / 70;
  ticks_per_day = 10;
}

abbrev command : ForgetCommand
command = record {
  keep_last = none;
  keep_daily = some 2;
  keep_weekly = none;
  keep_monthly = none;
  keep_yearly = none;
  tag = [];
  host = some "h";
  dry_run = false;
}

abbrev info : SnapshotId → ℕ → SnapshotInfo
info id time = record { id = id; time = time; hostname = "h"; tags = [] }

abbrev infos : List SnapshotInfo
infos = info "a" 91 ∷ info "b" 95 ∷ info "c" 85 ∷ info "d" 20 ∷ []

in_range : InRange calendar command 100
in_range = record { daily = omega arith; weekly = tt; monthly = tt; yearly = tt }

apply_retention_policies_lem_example :
    (keep : List SnapshotId) × (apply_retention_policies calendar command 100 infos ≡ ok keep)
    × ((id : SnapshotId) → contains id keep ≡ is_kept calendar command 100 infos id)
apply_retention_policies_lem_example =
    apply_retention_policies_lem calendar command 100 in_range infos

-- Two stored snapshots, of which one is kept.
abbrev stored : Repository (Map String Bytes) Slot (List ChunkId)
stored = record empty {
  storage =
      (snapshot_path "snapshot-1", nonce ++ (1 ∷ []))
      ∷ (snapshot_path "snapshot-2", nonce ++ (1 ∷ []))
      ∷ [];
}

abbrev listing_crates : Crates (Map String Bytes) Slot
listing_crates = record crates {
  store = record map_storage { list = λ prefix s. ok ("snapshot-1" ∷ "snapshot-2" ∷ []) };
}

abbrev two_infos : List SnapshotInfo
two_infos = info "snapshot-1" 5 ∷ info "snapshot-2" 5 ∷ []

abbrev keep_one : ForgetCommand
keep_one = record command { keep_last = some 1 }
