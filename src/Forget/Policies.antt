-- ===== src/Forget/Policies.antt =====
-- `apply_retention_policies` as a whole: it returns, and keeps the union of what the policies keep.
use ghostsnap.Prelude.{
  ℕ, ◌*◌, ◌≡◌, refl, Bool, false, ◌||◌, ◌&&◌, string_eq, list_eq, Option, none, some, List, [],
  if◌then◌else◌, take, contains, arith, Bool-cases, inl, inr,
}
use ghostsnap.Errors.{ok}
use ghostsnap.Types.{SnapshotId}
use ghostsnap.Forget.{
  Calendar, SnapshotInfo, ForgetCommand, insert_ids, keep_newest, no_policy, week_key, day_of,
  month_of, year_of, apply_retention_policies,
}
use ghostsnap.Forget.Buckets.{has_id, contains-insert_ids, kept_by, Reaches, keep_periods_lem}

abbrev pub kept_last : Option ℕ → List SnapshotInfo → SnapshotId → Bool
kept_last none snapshots id = false
kept_last (some n) snapshots id = has_id id (take n snapshots)

module _ (cal : Calendar) (c : ForgetCommand) (now : ℕ) where
  -- No period of a policy goes back further than chrono can represent.
  pub record InRange : Type 0 where
    pub daily : Reaches now cal.ticks_per_day c.keep_daily
    pub weekly : Reaches now (7 * cal.ticks_per_day) c.keep_weekly
    pub monthly : Reaches now (31 * cal.ticks_per_day) c.keep_monthly
    pub yearly : Reaches now (365 * cal.ticks_per_day) c.keep_yearly

  abbrev pub is_kept : List SnapshotInfo → SnapshotId → Bool
  is_kept snapshots id =
      kept_last c.keep_last snapshots id
      || kept_by (day_of cal) now cal.ticks_per_day c.keep_daily snapshots id
      || kept_by (week_key cal) now (7 * cal.ticks_per_day) c.keep_weekly snapshots id
      || kept_by (month_of cal) now (31 * cal.ticks_per_day) c.keep_monthly snapshots id
      || kept_by (year_of cal) now (365 * cal.ticks_per_day) c.keep_yearly snapshots id
      || no_policy c && has_id id snapshots

  keep_newest_lem :
      (policy : Option ℕ) (snapshots : List SnapshotInfo) (id : SnapshotId)
      → contains id (keep_newest policy snapshots []) ≡ kept_last policy snapshots id
  unfolding keep_newest
  keep_newest_lem none snapshots id = refl
  keep_newest_lem (some n) snapshots id =
      ground (arith, contains-insert_ids id (take n snapshots) [])

  -- Where no policy reaches back further than chrono can, the policies return a set of ids. An id is in
  -- it exactly when it is among the first `keep_last`, or it is the first of its day, of its calendar year and
  -- ISO week number, of its month or of its year among the snapshots not before that policy's cutoff,
  -- or there is no policy at all and it is one of the snapshots.
  pub apply_retention_policies_lem :
      InRange
      → (snapshots : List SnapshotInfo)
      → (keep : List SnapshotId) × (apply_retention_policies cal c now snapshots ≡ ok keep)
        × ((id : SnapshotId) → contains id keep ≡ is_kept snapshots id)
  unfolding apply_retention_policies
  apply_retention_policies_lem r snapshots =
      let day = cal.ticks_per_day in
      let keep₀ = keep_newest c.keep_last snapshots [] in
      let (keep₁, run₁, is₁) =
        keep_periods_lem (day_of cal) now day c.keep_daily snapshots keep₀ r.daily in
      let (keep₂, run₂, is₂) =
        keep_periods_lem (week_key cal) now (7 * day) c.keep_weekly snapshots keep₁ r.weekly in
      let (keep₃, run₃, is₃) =
        keep_periods_lem (month_of cal) now (31 * day) c.keep_monthly snapshots keep₂ r.monthly in
      let (keep₄, run₄, is₄) =
        keep_periods_lem (year_of cal) now (365 * day) c.keep_yearly snapshots keep₃ r.yearly in
      (
        (if no_policy c then insert_ids snapshots keep₄ else keep₄),
        rw (run₁, run₂, run₃, run₄),
        λ id.
            let first = keep_newest_lem c.keep_last snapshots id in
            let all = contains-insert_ids id snapshots keep₄ in
            elim (Bool-cases (no_policy c)) [
              | inl e ↦ rw e (ground (arith, first, is₁ id, is₂ id, is₃ id, is₄ id, all))
              | inr e ↦ rw e (ground (arith, first, is₁ id, is₂ id, is₃ id, is₄ id))
            ],
      )
