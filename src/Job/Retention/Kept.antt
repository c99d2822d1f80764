-- ===== src/Job/Retention/Kept.antt =====
-- Which snapshots `run_forget` keeps, described without its loops and sets.
use ghostsnap.Prelude.{
  ℕ, zero, suc, ◌<◌, ◌≡◌, refl, Bool, true, false, not, ◌&&◌, ◌||◌, ◌==◌, string_eq, list_eq,
  Option, none, some, List, [], ◌∷◌, arith, ltb, if◌then◌else◌, length, take, contains, set_insert,
  contains-set_insert, any, min, Bool-cases, inl, inr,
}
use ghostsnap.Types.{SnapshotId}
use ghostsnap.Snapshot.{Snapshot}
use ghostsnap.Config.{ResolvedJob, has_retention_policy}
use ghostsnap.Job.Retention.{
  Dates, insert_all, keep_last, keep_distinct, keep_by, day_key, week_key, month_key, year_key,
  keep_ids,
}

abbrev pub has_snapshot : SnapshotId → List Snapshot → Bool
has_snapshot id = any (λ s. s.id == id)

pub contains-insert_all :
    (id : SnapshotId) (ss : List Snapshot) (keep : List SnapshotId)
    → contains id (insert_all ss keep) ≡ (has_snapshot id ss || contains id keep)
unfolding insert_all
contains-insert_all id [] keep = refl
contains-insert_all id (s ∷ ss) keep =
    ground
      (arith, contains-insert_all id ss (set_insert s.id keep), contains-set_insert s.id id keep)

module _ (key : Snapshot → List ℕ) (n : ℕ) where
  -- The periods that have a snapshot in the list.
  abbrev pub has_period : List ℕ → List Snapshot → Bool
  has_period k = any (λ t. key t == k)

  -- How many periods have a snapshot in the list.
  abbrev pub periods : List Snapshot → ℕ
  periods [] = 0
  periods (s ∷ rest) =
      let others = periods rest in if has_period (key s) rest then others else suc others

  -- `id` is that of a snapshot with none of its period before it, and fewer than `n` periods.
  abbrev pub leads_period : SnapshotId → List Snapshot → List Snapshot → Bool
  leads_period id before [] = false
  leads_period id before (s ∷ rest) =
      (s.id == id && not (has_period (key s) before) && ltb (periods before) n)
      || leads_period id (s ∷ before) rest

  -- What the set of the periods seen is after the snapshots `before`: they, until there are `n`.
  record IsSeen (before : List Snapshot) (seen : List (List ℕ)) : Type 0 where
    count : length seen ≡ min (periods before) n
    members : (k : List ℕ) → length seen < n → contains k seen ≡ has_period k before

module _ (key : Snapshot → List ℕ) (n : ℕ) where
  visit-IsSeen :
      (s : Snapshot) (before : List Snapshot) (seen : List (List ℕ))
      → IsSeen key n before seen
      → IsSeen key n
          (s ∷ before)
          (if ltb (length seen) n && not (contains (key s) seen) then key s ∷ seen else seen)
  visit-IsSeen s before seen v = record {
    count = ground (arith, v.count, v.members (key s));
    members = λ k few.
        ground (arith, v.count, v.members (key s), v.members k, few, list_eq.beq_iff (key s) k);
  }

  keep_distinct_lem :
      (id : SnapshotId) (ss before : List Snapshot) (seen : List (List ℕ)) (keep : List SnapshotId)
      → IsSeen key n before seen
      → contains id (keep_distinct key n ss seen keep)
        ≡ (contains id keep || leads_period key n id before ss)
  unfolding keep_distinct
  keep_distinct_lem id [] before seen keep v = ground arith
  keep_distinct_lem id (s ∷ ss) before seen keep v =
      let fresh = ltb (length seen) n && not (contains (key s) seen) in
      let others =
        keep_distinct_lem id ss (s ∷ before) _ (if fresh then set_insert s.id keep else keep)
          (visit-IsSeen s before seen v) in
      ground (arith, others, v.count, v.members (key s), contains-set_insert s.id id keep)

abbrev pub led_by : (Snapshot → List ℕ) → Option ℕ → List Snapshot → SnapshotId → Bool
led_by key none snapshots id = false
led_by key (some n) snapshots id = leads_period key n id [] snapshots

abbrev pub among_last : Option ℕ → List Snapshot → SnapshotId → Bool
among_last none snapshots id = false
among_last (some n) snapshots id = has_snapshot id (take n snapshots)

contains-keep_by :
    (key : Snapshot → List ℕ) (policy : Option ℕ) (ss : List Snapshot) (keep : List SnapshotId)
    (id : SnapshotId)
    → contains id (keep_by key policy ss keep) ≡ (contains id keep || led_by key policy ss id)
unfolding keep_by
contains-keep_by key none ss keep id = ground arith
contains-keep_by key (some n) ss keep id =
    keep_distinct_lem key n id ss [] [] keep
      (record { count = omega arith; members = λ k few. refl })

contains-keep_last :
    (policy : Option ℕ) (ss : List Snapshot) (id : SnapshotId)
    → contains id (keep_last policy ss []) ≡ among_last policy ss id
unfolding keep_last
contains-keep_last none ss id = refl
contains-keep_last (some n) ss id = ground (arith, contains-insert_all id (take n ss) [])

module _ (dates : Dates) (job : ResolvedJob) where
  abbrev pub is_kept : List Snapshot → SnapshotId → Bool
  is_kept ss id =
      among_last job.keep_last ss id
      || led_by (day_key dates) job.keep_daily ss id
      || led_by (week_key dates) job.keep_weekly ss id
      || led_by (month_key dates) job.keep_monthly ss id
      || led_by (year_key dates) job.keep_yearly ss id

  -- An id is kept exactly if it is among the first `keep_last`, or leads one of the first periods of a
  -- kind (the day, ISO week, month or year), as many as the job keeps of that kind, or if the job has no
  -- retention policy at all and it is the id of a snapshot.
  pub contains-keep_ids :
      (ss : List Snapshot) (id : SnapshotId)
      → contains id (keep_ids dates job ss)
        ≡ (is_kept ss id || not (has_retention_policy job) && has_snapshot id ss)
  unfolding keep_ids
  contains-keep_ids ss id =
      let keep₀ = keep_last job.keep_last ss [] in
      let keep₁ = keep_by (day_key dates) job.keep_daily ss keep₀ in
      let keep₂ = keep_by (week_key dates) job.keep_weekly ss keep₁ in
      let keep₃ = keep_by (month_key dates) job.keep_monthly ss keep₂ in
      let keep₄ = keep_by (year_key dates) job.keep_yearly ss keep₃ in
      let is₀ = contains-keep_last job.keep_last ss id in
      let is₁ = contains-keep_by (day_key dates) job.keep_daily ss keep₀ id in
      let is₂ = contains-keep_by (week_key dates) job.keep_weekly ss keep₁ id in
      let is₃ = contains-keep_by (month_key dates) job.keep_monthly ss keep₂ id in
      let is₄ = contains-keep_by (year_key dates) job.keep_yearly ss keep₃ id in
      let all = contains-insert_all id ss keep₄ in
      elim (Bool-cases (has_retention_policy job)) [
        | inl e ↦ rw e (ground (arith, is₀, is₁, is₂, is₃, is₄))
        | inr e ↦ rw e (ground (arith, is₀, is₁, is₂, is₃, is₄, all))
      ]

  -- Some policy that `run_forget` asks keeps at least one.
  abbrev pub keeps_one : Option ℕ → Bool
  keeps_one none = false
  keeps_one (some n) = ltb 0 n

  abbrev pub keeps_some : Bool
  keeps_some =
      keeps_one job.keep_last
      || keeps_one job.keep_daily
      || keeps_one job.keep_weekly
      || keeps_one job.keep_monthly
      || keeps_one job.keep_yearly

  led_by-newest :
      (key : Snapshot → List ℕ) (policy : Option ℕ) (s : Snapshot) (rest : List Snapshot)
      → keeps_one policy ≡ true
      → led_by key policy (s ∷ rest) s.id ≡ true
  led_by-newest key none s rest h = ground arith
  led_by-newest key (some n) s rest h = ground (arith, string_eq.beq_iff s.id s.id)

  among_last-newest :
      (policy : Option ℕ) (s : Snapshot) (rest : List Snapshot)
      → keeps_one policy ≡ true
      → among_last policy (s ∷ rest) s.id ≡ true
  among_last-newest none s rest h = ground arith
  among_last-newest (some zero) s rest h = ground arith
  among_last-newest (some (suc n)) s rest h = ground (arith, string_eq.beq_iff s.id s.id)

  -- If some policy other than `keep_hourly` keeps at least one, the newest snapshot is kept.
  pub keep_ids-newest :
      (s : Snapshot) (rest : List Snapshot)
      → keeps_some ≡ true
      → contains s.id (keep_ids dates job (s ∷ rest)) ≡ true
  keep_ids-newest s rest h = ground (
    arith,
    contains-keep_ids (s ∷ rest) s.id,
    among_last-newest job.keep_last s rest,
    led_by-newest (day_key dates) job.keep_daily s rest,
    led_by-newest (week_key dates) job.keep_weekly s rest,
    led_by-newest (month_key dates) job.keep_monthly s rest,
    led_by-newest (year_key dates) job.keep_yearly s rest,
  )
