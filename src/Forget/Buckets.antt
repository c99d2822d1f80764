-- ===== src/Forget/Buckets.antt =====
-- What a retention policy keeps, described without the maps and loops of the code.
use ghostsnap.Prelude.{
  ℕ, ◌-◌, ◌*◌, ◌≤◌, ◌≡◌, refl, Bool, false, not, ◌&&◌, ◌||◌, ◌==◌, string_eq, list_eq, Eq, Option,
  none, some, List, [], ◌∷◌, leb, if◌then◌else◌, contains, set_insert, contains-set_insert, Map,
  values, lookup, contains_key, insert, lookup-insert, any, arith, le→ltb_false,
}
use ghostsnap.Errors.{ok}
use ghostsnap.Types.{SnapshotId}
use ghostsnap.Forget.{SnapshotInfo, cutoff_before, insert_ids, or_insert, first_seen, keep_periods}

abbrev pub has_id : SnapshotId → List SnapshotInfo → Bool
has_id id = any (λ s. s.id == id)

pub contains-insert_ids :
    (id : SnapshotId) (ss : List SnapshotInfo) (keep : List SnapshotId)
    → contains id (insert_ids ss keep) ≡ (has_id id ss || contains id keep)
unfolding insert_ids
contains-insert_ids id [] keep = refl
contains-insert_ids id (s ∷ ss) keep =
    ground
      (arith, contains-insert_ids id ss (set_insert s.id keep), contains-set_insert s.id id keep)

abbrev pub Reaches : ℕ → ℕ → Option ℕ → Type 0
Reaches now period none = Unit
Reaches now period (some n) = n * period ≤ now

module _ {K : Type 0} ⦃e : Eq K⦄ (key : SnapshotInfo → K) (cutoff : ℕ) where
  -- Some snapshot of the list is of that period, and not before the cutoff.
  abbrev pub has_period : K → List SnapshotInfo → Bool
  has_period k = any (λ t. leb cutoff t.time && key t == k)

  -- `id` is the id of a snapshot, not before the cutoff, that no other of its period precedes.
  abbrev pub is_first : SnapshotId → List SnapshotInfo → List SnapshotInfo → Bool
  is_first id before [] = false
  is_first id before (s ∷ rest) =
      (s.id == id && leb cutoff s.time && not (has_period (key s) before))
      || is_first id (s ∷ before) rest

  has_id-insert :
      (id : SnapshotId) (k : K) (s : SnapshotInfo) (seen : Map K SnapshotInfo)
      → lookup k seen ≡ none
      → has_id id (values (insert k s seen)) ≡ (has_id id (values seen) || s.id == id)
  has_id-insert id k s [] h = ground arith
  has_id-insert id k s ((j, t) ∷ seen) h = ground (arith, has_id-insert id k s seen)

  abbrev visit : SnapshotInfo → Map K SnapshotInfo → Map K SnapshotInfo
  visit s seen = if leb cutoff s.time then or_insert (key s) s seen else seen

  module _ (s : SnapshotInfo) (before : List SnapshotInfo) (seen : Map K SnapshotInfo)
      (inv : (k : K) → contains_key k seen ≡ has_period k before) where
    has_id-visit :
        (id : SnapshotId)
        → has_id id (values (visit s seen)) ≡ (
            has_id id (values seen)
            || s.id == id && leb cutoff s.time && not (has_period (key s) before))
    unfolding or_insert
    has_id-visit id = ground (arith, inv (key s), has_id-insert id (key s) s seen)

    contains_key-visit : (k : K) → contains_key k (visit s seen) ≡ has_period k (s ∷ before)
    unfolding or_insert
    contains_key-visit k =
        ground (arith, inv k, inv (key s), lookup-insert (key s) k s seen, e.beq_iff (key s) k)

  first_seen_lem :
      (id : SnapshotId) (snapshots before : List SnapshotInfo) (seen : Map K SnapshotInfo)
      → ((k : K) → contains_key k seen ≡ has_period k before)
      → has_id id (values (first_seen key cutoff snapshots seen))
        ≡ (has_id id (values seen) || is_first id before snapshots)
  unfolding first_seen
  first_seen_lem id [] before seen inv = ground arith
  first_seen_lem id (s ∷ rest) before seen inv =
      let step = has_id-visit s before seen inv id in
      let others =
        first_seen_lem id rest (s ∷ before) (visit s seen) (contains_key-visit s before seen inv) in
      ground (arith, step, others)

module _ {K : Type 0} ⦃e : Eq K⦄ where
  -- One policy, if it is given.
  abbrev pub kept_by : (SnapshotInfo → K) → ℕ → ℕ → Option ℕ → List SnapshotInfo → SnapshotId → Bool
  kept_by key now period none snapshots id = false
  kept_by key now period (some n) snapshots id = is_first key (now - n * period) id [] snapshots

  pub keep_periods_lem :
      (key : SnapshotInfo → K) (now period : ℕ) (policy : Option ℕ) (snapshots : List SnapshotInfo)
      (keep : List SnapshotId)
      → Reaches now period policy
      → (kept : List SnapshotId) × (keep_periods key now period policy snapshots keep ≡ ok kept)
        × ((id : SnapshotId)
            → contains id kept ≡ (contains id keep || kept_by key now period policy snapshots id))
  unfolding keep_periods cutoff_before
  keep_periods_lem key now period none snapshots keep h = (keep, refl, λ id. ground arith)
  keep_periods_lem key now period (some n) snapshots keep h =
      let cutoff = now - n * period in
      let seen = first_seen key cutoff snapshots [] in
      (
        insert_ids (values seen) keep,
        rw (le→ltb_false _ _ h),
        λ id. ground (
          arith,
          contains-insert_ids id (values seen) keep,
          first_seen_lem key cutoff id snapshots [] [] (λ k. refl),
        ),
      )
