-- ===== src/Snapshot/Manager.antt =====
-- core/src/snapshot.rs, `SnapshotManager`: snapshots by id, listed most recent first.
use ghostsnap.Prelude.{
  ℕ, ◌≡◌, refl, ◌∙◌, String, Bool, true, ◌&&◌, ◌==◌, string_eq, Option, List, [], ◌∷◌, retain,
  length, contains, Map, values, lookup, insert, remove, any, sort_newest, IsNewestFirst,
  sort_newest-IsNewestFirst, any-sort_newest, arith,
}
use ghostsnap.Types.{SnapshotId}
use ghostsnap.Snapshot.{Snapshot}

pub record SnapshotManager : Type 0 where
  pub snapshots : Map SnapshotId Snapshot

abbrev pub time_of : Snapshot → ℕ
time_of s = s.time

unfoldable pub new : SnapshotManager
new = record { snapshots = [] }

unfoldable pub add_snapshot : Snapshot → SnapshotManager → SnapshotManager
add_snapshot s m = record { snapshots = insert s.id s m.snapshots }

unfoldable pub get_snapshot : SnapshotId → SnapshotManager → Option Snapshot
get_snapshot id m = lookup id m.snapshots

unfoldable pub remove_snapshot : SnapshotId → SnapshotManager → SnapshotManager × Option Snapshot
remove_snapshot id m = (record { snapshots = remove id m.snapshots }, lookup id m.snapshots)

unfoldable pub snapshot_count : SnapshotManager → ℕ
snapshot_count m = length m.snapshots

unfoldable pub list_snapshots : SnapshotManager → List Snapshot
list_snapshots m = sort_newest time_of (values m.snapshots)

-- The three searches differ in the closure that they filter by.
unfoldable pub find_snapshots_by_hostname : String → SnapshotManager → List Snapshot
find_snapshots_by_hostname hostname m =
    sort_newest time_of (retain (λ s. s.hostname == hostname) (values m.snapshots))

unfoldable pub find_snapshots_by_path : String → SnapshotManager → List Snapshot
find_snapshots_by_path path m =
    sort_newest time_of (retain (λ s. any (λ p. p == path) s.paths) (values m.snapshots))

unfoldable pub find_snapshots_by_tag : String → SnapshotManager → List Snapshot
find_snapshots_by_tag tag m =
    sort_newest time_of (retain (λ s. contains tag s.tags) (values m.snapshots))

any-retain {ℓ} :
    {A : Type ℓ} (p q : A → Bool) (xs : List A) → any p (retain q xs) ≡ any (λ x. q x && p x) xs
any-retain p q [] = refl
any-retain p q (x ∷ xs) = ground (arith, any-retain p q xs)

-- `listed` has, newest first, the managed snapshots that pass `q`: a test holds of some listed one
-- exactly when it holds of some managed one that passes.
pub record IsListing (q : Snapshot → Bool) (m : SnapshotManager) (listed : List Snapshot)
    : Type 0 where
  pub sorted : IsNewestFirst time_of listed
  pub same : (p : Snapshot → Bool) → any p listed ≡ any (λ s. q s && p s) (values m.snapshots)

search-IsListing :
    (q : Snapshot → Bool) (m : SnapshotManager)
    → IsListing q m (sort_newest time_of (retain q (values m.snapshots)))
search-IsListing q m = record {
  sorted = sort_newest-IsNewestFirst time_of (retain q (values m.snapshots));
  same = λ p.
      any-sort_newest time_of p (retain q (values m.snapshots))
      ∙ any-retain p q (values m.snapshots);
}

-- `list_snapshots` and the searches by host, path and tag return, newest first, exactly the managed
-- snapshots: all of them, or those with that host name, that path among theirs, or that tag.
pub listings :
    (m : SnapshotManager) (hostname path tag : String)
    → IsListing (λ s. true) m (list_snapshots m)
      × IsListing (λ s. s.hostname == hostname) m (find_snapshots_by_hostname hostname m)
      × IsListing (λ s. any (λ p. p == path) s.paths) m (find_snapshots_by_path path m)
      × IsListing (λ s. contains tag s.tags) m (find_snapshots_by_tag tag m)
unfolding list_snapshots find_snapshots_by_hostname find_snapshots_by_path find_snapshots_by_tag
listings m hostname path tag = (
  record {
    sorted = sort_newest-IsNewestFirst time_of (values m.snapshots);
    same = λ p. any-sort_newest time_of p (values m.snapshots);
  },
  search-IsListing (λ s. s.hostname == hostname) m,
  search-IsListing (λ s. any (λ p. p == path) s.paths) m,
  search-IsListing (λ s. contains tag s.tags) m,
)
