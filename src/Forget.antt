-- ===== src/Forget.antt =====
-- cli/src/commands/forget.rs: which snapshots a retention policy keeps, and which are deleted. A time is
-- a number of ticks since the earliest time that chrono can represent, so that `now - Duration`
-- panics exactly when the duration is longer than `now`. The calendar is chrono's.
pub mod Buckets
pub mod Policies
pub mod Plan
pub mod Run
use ghostsnap.Prelude.{
  ℕ, zero, suc, ◌+◌, ◌-◌, ◌*◌, String, Bool, true, false, not, ◌&&◌, ◌||◌, ◌==◌, string_eq, list_eq,
  Eq, Option, none, some, List, [], ◌∷◌, ltb, leb, if◌then◌else◌, retain, length, take, contains,
  set_insert, Map, values, lookup, contains_key, insert, any, sort_newest, is_some,
}
use text.Mathlib.Text.{get?}
use ghostsnap.Errors.{Result, ok, panic, ◌>>=◌}
use ghostsnap.Types.{SnapshotId}

-- The names that chrono gives to the day, month and year of a time, its year and its ISO week; the ticks
-- of a day.
pub record Calendar : Type 0 where
  pub day_key : ℕ → String
  pub month_key : ℕ → String
  pub year_key : ℕ → String
  pub year : ℕ → ℕ
  pub iso_week : ℕ → ℕ
  pub ticks_per_day : ℕ

pub record SnapshotInfo : Type 0 where
  pub id : SnapshotId
  pub time : ℕ
  pub hostname : String
  pub tags : List String

pub record ForgetCommand : Type 0 where
  pub keep_last : Option ℕ
  pub keep_daily : Option ℕ
  pub keep_weekly : Option ℕ
  pub keep_monthly : Option ℕ
  pub keep_yearly : Option ℕ
  pub tag : List String
  pub host : Option String
  pub dry_run : Bool

-- `now - duration`
unfoldable pub cutoff_before : ℕ → ℕ → Result ℕ
cutoff_before now duration = if ltb now duration then panic else ok (now - duration)

-- `for s in snapshots { keep.insert(s.id.clone()) }`
unfoldable pub insert_ids : List SnapshotInfo → List SnapshotId → List SnapshotId
insert_ids [] keep = keep
insert_ids (s ∷ rest) keep = insert_ids rest (set_insert s.id keep)

module _ {K : Type 0} ⦃e : Eq K⦄ where
  -- `seen.entry(key).or_insert(s)`
  unfoldable pub or_insert : K → SnapshotInfo → Map K SnapshotInfo → Map K SnapshotInfo
  or_insert key s seen = if contains_key key seen then seen else insert key s seen

  -- The loop that fills `seen_days` and the like.
  unfoldable pub first_seen :
      (SnapshotInfo → K) → ℕ → List SnapshotInfo → Map K SnapshotInfo → Map K SnapshotInfo
  first_seen key cutoff [] seen = seen
  first_seen key cutoff (s ∷ rest) seen =
      first_seen key cutoff rest (if leb cutoff s.time then or_insert (key s) s seen else seen)

  -- One policy: the first snapshot of each period, from the cutoff on.
  unfoldable pub keep_periods :
      (SnapshotInfo → K)
      → ℕ
      → ℕ
      → Option ℕ
      → List SnapshotInfo
      → List SnapshotId
      → Result (List SnapshotId)
  keep_periods key now period none snapshots keep = ok keep
  keep_periods key now period (some n) snapshots keep = do
    cutoff ← cutoff_before now (n * period)
    ok (insert_ids (values (first_seen key cutoff snapshots [])) keep)

unfoldable pub keep_newest : Option ℕ → List SnapshotInfo → List SnapshotId → List SnapshotId
keep_newest none snapshots keep = keep
keep_newest (some n) snapshots keep = insert_ids (take n snapshots) keep

unfoldable pub no_policy : ForgetCommand → Bool
no_policy c =
    not (is_some c.keep_last)
    && not (is_some c.keep_daily)
    && not (is_some c.keep_weekly)
    && not (is_some c.keep_monthly)
    && not (is_some c.keep_yearly)

module _ (cal : Calendar) where
  -- The text `{year}-W{week}` is determined by the two numbers.
  abbrev pub week_key : SnapshotInfo → List ℕ
  week_key s = cal.year s.time ∷ cal.iso_week s.time ∷ []

  abbrev pub day_of : SnapshotInfo → String
  day_of s = cal.day_key s.time

  abbrev pub month_of : SnapshotInfo → String
  month_of s = cal.month_key s.time

  abbrev pub year_of : SnapshotInfo → String
  year_of s = cal.year_key s.time

  unfoldable pub apply_retention_policies :
      ForgetCommand → ℕ → List SnapshotInfo → Result (List SnapshotId)
  apply_retention_policies c now snapshots = do
    let day = cal.ticks_per_day
    let keep₀ = keep_newest c.keep_last snapshots []
    keep₁ ← keep_periods day_of now day c.keep_daily snapshots keep₀
    keep₂ ← keep_periods week_key now (7 * day) c.keep_weekly snapshots keep₁
    keep₃ ← keep_periods month_of now (31 * day) c.keep_monthly snapshots keep₂
    keep₄ ← keep_periods year_of now (365 * day) c.keep_yearly snapshots keep₃
    ok (if no_policy c then insert_ids snapshots keep₄ else keep₄)

abbrev is_empty {ℓ} : {A : Type ℓ} → List A → Bool
is_empty [] = true
is_empty (x ∷ xs) = false

-- The filter by host and tags.
unfoldable pub passes_filter : ForgetCommand → SnapshotInfo → Bool
passes_filter c s =
    not (elim c.host [ none ↦ false | some host ↦ not (s.hostname == host) ])
    && (is_empty c.tag || any (λ t. contains t s.tags) c.tag)

abbrev pub info_time : SnapshotInfo → ℕ
info_time s = s.time

unfoldable pub sorted_candidates : ForgetCommand → List SnapshotInfo → List SnapshotInfo
unfolding passes_filter
sorted_candidates c snapshots = sort_newest info_time (retain (passes_filter c) snapshots)

abbrev pub ids_of : List SnapshotInfo → List SnapshotId
ids_of [] = []
ids_of (s ∷ rest) = s.id ∷ ids_of rest

-- `&s.id[..8]`: a panic where the id is shorter, or the slice cuts a character.
abbrev slice_of : Option String → Result String
slice_of none = panic
slice_of (some slice) = ok slice

unfoldable pub first_eight : SnapshotId → Result String
first_eight id = slice_of (get? id 0 8)

-- A loop that prints snapshots: what it prints of their ids.
unfoldable pub print_ids : List SnapshotInfo → Result (List String)
unfolding first_eight
print_ids [] = ok []
print_ids (s ∷ rest) = do shown ← first_eight s.id; others ← print_ids rest; ok (shown ∷ others)

-- The ids to forget, when both lists have been printed. With no candidate the policies are not asked.
unfoldable pub forget_ids :
    Calendar → ForgetCommand → ℕ → List SnapshotInfo → Result (List SnapshotId)
unfolding print_ids
forget_ids cal c now [] = ok []
forget_ids cal c now (s ∷ rest) = do
  keep_ids ← apply_retention_policies cal c now (s ∷ rest)
  keeping ← print_ids (retain (λ t. contains t.id keep_ids) (s ∷ rest))
  let forgotten = retain (λ t. not (contains t.id keep_ids)) (s ∷ rest)
  forgetting ← print_ids forgotten
  ok (ids_of forgotten)

-- The ids that `run` is to delete from the repository, in the order of the deletions.
unfoldable pub deletions :
    Calendar → ForgetCommand → ℕ → List SnapshotInfo → Result (List SnapshotId)
unfolding forget_ids sorted_candidates
deletions cal c now snapshots = do
  ids ← forget_ids cal c now (sorted_candidates c snapshots)
  ok (if c.dry_run then [] else ids)
