-- ===== src/Forget/Plan.antt =====
-- Which ids `run` of cli/src/commands/forget.rs is to delete.
use text.Mathlib.Text.{get?}
use ghostsnap.Prelude.{
  ℕ, String, ◌≡◌, refl, ap, ◌∙◌, Bool, true, false, not, ◌&&◌, ◌==◌, string_eq, list_eq, Option,
  none, some, is_some, List, [], ◌∷◌, if◌then◌else◌, retain, contains, arith, any, IsNewestFirst,
  sort_newest-IsNewestFirst, any-sort_newest,
}
use ghostsnap.Errors.{ok}
use ghostsnap.Types.{SnapshotId}
use ghostsnap.Forget.{
  Calendar, SnapshotInfo, ForgetCommand, info_time, passes_filter, sorted_candidates, ids_of,
  first_eight, print_ids, forget_ids, deletions,
}
use ghostsnap.Forget.Buckets.{has_id}
use ghostsnap.Forget.Policies.{InRange, is_kept, apply_retention_policies_lem}

any-retain {ℓ} :
    {A : Type ℓ} (p q : A → Bool) (xs : List A) → any p (retain q xs) ≡ any (λ x. q x && p x) xs
any-retain p q [] = refl
any-retain p q (x ∷ xs) = ground (arith, any-retain p q xs)

contains-ids_of :
    (id : SnapshotId) (keep : List SnapshotId) (ss : List SnapshotInfo)
    → contains id (ids_of (retain (λ t. not (contains t.id keep)) ss))
      ≡ (has_id id ss && not (contains id keep))
contains-ids_of id keep [] = refl
contains-ids_of id keep (s ∷ ss) =
    ground (arith, contains-ids_of id keep ss, string_eq.beq_iff s.id id)

-- The candidates stand newest first, and are the snapshots of the host and with one of the tags that
-- the command names.
pub sorted_candidates_lem :
    (c : ForgetCommand) (snapshots : List SnapshotInfo)
    → IsNewestFirst info_time (sorted_candidates c snapshots)
      × ((p : SnapshotInfo → Bool)
          → any p (sorted_candidates c snapshots) ≡ any (λ s. passes_filter c s && p s) snapshots)
unfolding sorted_candidates
sorted_candidates_lem c snapshots = (
  sort_newest-IsNewestFirst info_time (retain (passes_filter c) snapshots),
  λ p.
      any-sort_newest info_time p (retain (passes_filter c) snapshots)
      ∙ any-retain p (passes_filter c) snapshots,
)

-- The prefix that is printed of an id is there.
abbrev pub is_printable : SnapshotId → Bool
is_printable id = is_some (get? id 0 8)

is_some-true : {A : Type 0} (o : Option A) → is_some o ≡ true → (a : A) × (o ≡ some a)
is_some-true none h = cc
is_some-true (some a) h = (a, refl)

print_ids-printable :
    (ss : List SnapshotInfo)
    → any (λ s. not (is_printable s.id)) ss ≡ false
    → (printed : List String) × (print_ids ss ≡ ok printed)
unfolding print_ids first_eight
print_ids-printable [] h = ([], refl)
print_ids-printable (s ∷ ss) h =
    let (shown, is) = is_some-true (get? s.id 0 8) (ground (arith, h)) in
    let (others, rest) = print_ids-printable ss (ground (arith, h)) in
    (shown ∷ others, rw (is, rest) refl)

any-retain-false {ℓ} :
    {A : Type ℓ} (p q : A → Bool) (xs : List A) → any p xs ≡ false → any p (retain q xs) ≡ false
any-retain-false p q [] h = refl
any-retain-false p q (x ∷ xs) h = ground (arith, h, any-retain-false p q xs)

module _ (cal : Calendar) (c : ForgetCommand) (now : ℕ) where
  forget_ids_lem :
      InRange cal c now
      → (ss : List SnapshotInfo) → any (λ s. not (is_printable s.id)) ss ≡ false
      → (ids : List SnapshotId) × (forget_ids cal c now ss ≡ ok ids)
        × ((id : SnapshotId) → contains id ids ≡ (has_id id ss && not (is_kept cal c now ss id)))
  unfolding forget_ids
  forget_ids_lem r [] h = ([], refl, λ id. refl)
  forget_ids_lem r (s ∷ rest) h =
      let (keep, run, is) = apply_retention_policies_lem cal c now r (s ∷ rest) in
      let stays = λ (t : SnapshotInfo). contains t.id keep in
      let goes = λ (t : SnapshotInfo). not (contains t.id keep) in
      let bad = λ (t : SnapshotInfo). not (is_printable t.id) in
      let kept =
        print_ids-printable (retain stays (s ∷ rest)) (any-retain-false bad stays (s ∷ rest) h) in
      let gone =
        print_ids-printable (retain goes (s ∷ rest)) (any-retain-false bad goes (s ∷ rest) h) in
      (
        ids_of (retain goes (s ∷ rest)),
        rw (run, kept.1, gone.1) refl,
        λ id. contains-ids_of id keep (s ∷ rest) ∙ ap (λ b. has_id id (s ∷ rest) && not b) (is id),
      )

  -- Where the printed prefixes are there, the deletions are those of the candidates that no policy keeps.
  pub deletions_lem :
      InRange cal c now
      → (snapshots : List SnapshotInfo)
      → any (λ s. passes_filter c s && not (is_printable s.id)) snapshots ≡ false
      → (ids : List SnapshotId) × (deletions cal c now snapshots ≡ ok ids)
        × ((id : SnapshotId)
            → contains id ids ≡ (
                not c.dry_run
                && any (λ s. passes_filter c s && s.id == id) snapshots
                && not (is_kept cal c now (sorted_candidates c snapshots) id)))
  unfolding deletions
  deletions_lem r snapshots h =
      let candidates = sorted_candidates c snapshots in
      let sorted = (sorted_candidates_lem c snapshots).1 in
      let (ids, run, is) =
        forget_ids_lem r candidates (sorted (λ s. not (is_printable s.id)) ∙ h) in
      (
        (if c.dry_run then [] else ids),
        rw run refl,
        λ id. ground (arith, is id, sorted (λ s. s.id == id)),
      )
