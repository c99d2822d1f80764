-- ===== src/Lock.antt =====
-- core/src/lock.rs: the lock file of a local repository. The file system is an interface; a process is
-- given by what it can ask for: its host's name, its id, the time and the signal 0. Times are in nanoseconds.
pub mod Exclusion
use Prim.Native.String.{◌++◌}
use ghostsnap.Prelude.{
  ℕ, ◌-◌, ◌*◌, ◌/◌, ◌^◌, ◌≡◌, String, Bool, true, false, not, ◌&&◌, Option, none, some, nat_beq,
  ltb, ◌==◌, string_eq, if◌then◌else◌,
}
use ghostsnap.Errors.{Error, Result, ok, err, panic, ok_or}
use ghostsnap.Action.{Action, ◌>>=◌, pure, lift, ask}
use ghostsnap.Foreign.{Bytes, Codec}

abbrev pub stale_timeout_secs : ℕ
stale_timeout_secs = 15 * 60

pub data LockType : Type 0 where
  exclusive shared : LockType

pub record LockInfo : Type 0 where
  pub lock_type : LockType
  pub hostname : String
  pub pid : ℕ
  pub created_at : ℕ
  pub operation : String

abbrev pub InfoCodec : Type 0
InfoCodec = Codec LockInfo (λ i. Unit) (λ i j. i ≡ j)

pub record Process : Type 0 where
  pub host : Option String
  pub pid : ℕ
  pub now : ℕ
  pub signal : ℕ → Bool

-- The calls of `tokio::fs` and `Path::exists`.
pub record FileSystem (S : Type 0) : Type 0 where
  pub exists_at : String → S → Bool
  pub read_to_string : String → S → Result Bytes
  pub create_dir_all : String → S → Result {0} Unit × S
  pub write : String → Bytes → S → Result {0} Unit × S
  pub rename : String → String → S → Result {0} Unit × S
  pub remove_file : String → S → Result {0} Unit × S
  -- What has been written and renamed is there under the new name.
  pub renamed :
      (from to : String) (bytes : Bytes) (s : S)
      → (write from bytes s).0 ≡ ok tt
      → (rename from to (write from bytes s).1).0 ≡ ok tt
      → (exists_at to (rename from to (write from bytes s).1).1 ≡ true)
        × (read_to_string to (rename from to (write from bytes s).1).1 ≡ ok bytes)

abbrev unwrap_or : Option String → String → String
unwrap_or none fallback = fallback
unwrap_or (some name) fallback = name

-- `LockInfo::new`
unfoldable pub new_info : Process → LockType → String → LockInfo
new_info process lock_type operation = record {
  lock_type = lock_type;
  hostname = unwrap_or process.host "unknown";
  pid = process.pid;
  created_at = process.now;
  operation = operation;
}

unfoldable pub is_local_host : Process → LockInfo → Bool
is_local_host process i = elim process.host [
  | some current_host ↦ i.hostname == current_host
  | none ↦ false
]

unfoldable pub is_current_process : Process → LockInfo → Bool
unfolding is_local_host
is_current_process process i = nat_beq i.pid process.pid && is_local_host process i

unfoldable pub is_stale : Process → LockInfo → Bool
is_stale process i = ltb stale_timeout_secs ((process.now - i.created_at) / 10 ^ 9)

-- On Unix. Another host's processes are taken to be alive.
unfoldable pub is_process_alive : Process → LockInfo → Bool
unfolding is_local_host
is_process_alive process i = if not (is_local_host process i) then true else process.signal i.pid

pub record LockManager : Type 0 where
  pub locks_dir : String

pub record RepositoryLock : Type 0 where
  pub path : String
  pub owned : Bool

abbrev pub lock_path : LockManager → String
lock_path m = m.locks_dir ++ "/repo.lock"

-- `with_extension("lock.tmp")`
abbrev pub temp_path : LockManager → String
temp_path m = m.locks_dir ++ "/repo.lock.tmp"

module _ {S : Type 0} (fs : FileSystem S) (codec : InfoCodec) (m : LockManager) where
  unfoldable pub parse_lock : Bytes → Result LockInfo
  parse_lock content = ok_or (codec.from_bytes content) (Error.other "Invalid lock file")

  unfoldable pub read_lock : Action S LockInfo
  unfolding parse_lock
  read_lock = do content ← ask (fs.read_to_string (lock_path m)); lift (parse_lock content)

  unfoldable pub write_lock : LockInfo → Action S Unit
  write_lock info = do
    created ← fs.create_dir_all m.locks_dir
    content ← lift (ok_or (codec.to_bytes info) (Error.serialization "serde_json::Error"))
    written ← fs.write (temp_path m) content
    fs.rename (temp_path m) (lock_path m)

  unfoldable pub create_lock : Process → LockType → String → Action S RepositoryLock
  unfolding write_lock
  create_lock process lock_type operation = do
    written ← write_lock (new_info process lock_type operation)
    pure (record { path = lock_path m; owned = true })

  -- `fs::remove_file(..).await.ok()`
  unfoldable pub remove_stale : Action S Unit
  remove_stale s = (ok tt, (fs.remove_file (lock_path m) s).1)

  -- What `acquire` does about the lock that is there.
  unfoldable pub contend : Process → LockType → String → LockInfo → Action S RepositoryLock
  unfolding is_current_process is_stale is_process_alive create_lock remove_stale
  contend process lock_type operation existing =
      if is_current_process process existing
      then pure (record { path = lock_path m; owned = false })
      else if is_stale process existing && not (is_process_alive process existing)
      then (do removed ← remove_stale; create_lock process lock_type operation)
      else lift (err (Error.lock_conflict "Repository locked"))

  unfoldable pub acquire : Process → LockType → String → Action S RepositoryLock
  unfolding read_lock contend create_lock
  acquire process lock_type operation s =
      if fs.exists_at (lock_path m) s
      then (do existing ← read_lock; contend process lock_type operation existing) s
      else create_lock process lock_type operation s

  -- A conflict is no lock; other errors stay errors.
  unfoldable pub no_conflict : Result RepositoryLock → Result (Option RepositoryLock)
  no_conflict (ok lock) = ok (some lock)
  no_conflict (err (Error.lock_conflict text)) = ok none
  no_conflict (err failure) = err failure
  no_conflict panic = panic

  unfoldable pub try_acquire : Process → LockType → String → Action S (Option RepositoryLock)
  unfolding acquire no_conflict
  try_acquire process lock_type operation s =
      let run = acquire process lock_type operation s in (no_conflict run.0, run.1)

  unfoldable pub is_locked : Action S Bool
  is_locked = ask (λ s. ok (fs.exists_at (lock_path m) s))

  unfoldable pub get_lock_info : Action S (Option LockInfo)
  unfolding read_lock
  get_lock_info s =
      if fs.exists_at (lock_path m) s
      then (do info ← read_lock; pure (some info)) s
      else (ok none, s)

  unfoldable pub force_unlock : Action S Unit
  force_unlock s =
      if fs.exists_at (lock_path m) s then fs.remove_file (lock_path m) s else (ok tt, s)

module _ {S : Type 0} (fs : FileSystem S) where
  unfoldable pub release : RepositoryLock → Action S Unit
  release lock s =
      if lock.owned && fs.exists_at lock.path s then fs.remove_file lock.path s else (ok tt, s)

  -- `drop`: as `release`, the failure ignored.
  unfoldable pub drop_lock : RepositoryLock → S → S
  drop_lock lock s =
      if lock.owned && fs.exists_at lock.path s then (fs.remove_file lock.path s).1 else s
