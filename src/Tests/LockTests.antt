-- ===== src/Tests/LockTests.antt =====
-- The theorem on the lock file at a concrete input.
use native.Mathlib.Decide.{ℕ_discrete}
use ghostsnap.Prelude.{
  String, is_some, ◌≡◌, refl, ◌∙◌, true, string_eq, Option, none, some, [], ◌∷◌, arith, Map, lookup,
  insert, remove, lookup-insert,
}
use ghostsnap.Errors.{Error, Result, ok, err, ok_or}
use ghostsnap.Foreign.{Bytes}
use ghostsnap.Lock.{
  shared, LockInfo, InfoCodec, Process, FileSystem, LockManager, RepositoryLock, new_info,
  is_current_process, is_stale, is_process_alive, is_local_host, create_lock, write_lock, acquire,
}
use ghostsnap.Lock.Exclusion.{acquire-acquire}
use ghostsnap.Tests.Crates.{string_discrete, sample_codec, sample_bytes_self}

abbrev Files : Type 0
Files = Map String Bytes

abbrev moved : Option Bytes → String → String → Files → Result {0} Unit × Files
moved none from to s = (err (Error.io "not found"), s)
moved (some bytes) from to s = (ok tt, insert to bytes (remove from s))

lookup-inserted :
    (path : String) (bytes : Bytes) (s : Files) → lookup path (insert path bytes s) ≡ some bytes
lookup-inserted path bytes s =
    lookup-insert path path bytes s ∙ ground (arith, string_eq.beq_iff path path)

abbrev files : FileSystem Files
files = record {
  exists_at = λ path s. is_some (lookup path s);
  read_to_string = λ path s. ok_or (lookup path s) (Error.io "not found");
  create_dir_all = λ path s. (ok tt, s);
  write = λ path bytes s. (ok tt, insert path bytes s);
  rename = λ from to s. moved (lookup from s) from to s;
  remove_file = λ path s. (ok tt, remove path s);
  renamed = λ from to bytes s written done.
      rw (lookup-inserted from bytes s)
        (rw (lookup-inserted to bytes (remove from (insert from bytes s))) (refl, refl));
}

abbrev manager : LockManager
manager = record { locks_dir = "locks" }

abbrev holder : Process
holder = record { host = some "h"; pid = 1; now = 5; signal = λ pid. true }

abbrev rival : Process
rival = record { host = some "h"; pid = 2; now = 6; signal = λ pid. true }

abbrev info : LockInfo
info = record { lock_type = shared; hostname = "h"; pid = 1; created_at = 5; operation = "restore" }

unfoldable info_discrete : Discrete LockInfo
unfolding string_discrete
info_discrete = hlevel (ℕ_discrete, string_discrete)

abbrev codec : InfoCodec
codec = sample_codec (λ i. Unit) (λ i j. i ≡ j) info_discrete info tt refl

abbrev after : Files
after = ("locks/repo.lock", 1 ∷ []) ∷ []

abbrev lock : RepositoryLock
lock = record { path = "locks/repo.lock"; owned = true }

held : acquire files codec manager holder shared "restore" [] ≡ (ok lock, after)
unfolding acquire create_lock write_lock new_info
held = rw (sample_bytes_self info (info_discrete info info)) refl

acquire-acquire_example :
    acquire files codec manager rival shared "ls" after
    ≡ (err (Error.lock_conflict "Repository locked"), after)
acquire-acquire_example =
    acquire-acquire files codec manager holder rival shared shared "restore" "ls" [] after lock refl
      held (unfold is_current_process new_info in refl)
      (unfold is_stale is_process_alive is_local_host new_info in refl)
