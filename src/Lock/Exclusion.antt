-- ===== src/Lock/Exclusion.antt =====
-- One process after another at the lock file.
use ghostsnap.Prelude.{◌≡◌, refl, ap, String, true, false, not, ◌&&◌, arith, Bool-cases, inl, inr}
use mathlib.Core.Path.{subst}
use ghostsnap.Errors.{Error, ok, err, ok_or, ok_or-eq-ok}
use ghostsnap.Action.{resume, resume-eq-ok, pure}
use ghostsnap.Lock.{
  LockType, LockInfo, InfoCodec, Process, FileSystem, LockManager, RepositoryLock, lock_path,
  temp_path, new_info, is_current_process, is_stale, is_process_alive, parse_lock, read_lock,
  write_lock, create_lock, remove_stale, contend, acquire,
}

module _ {S : Type 0} (fs : FileSystem S) (codec : InfoCodec) (m : LockManager) where
  -- The lock file is there and can be read.
  pub record IsHeld (info : LockInfo) (s : S) : Type 0 where
    pub there : fs.exists_at (lock_path m) s ≡ true
    pub content : read_lock fs codec m s ≡ (ok info, s)

  write_lock-IsHeld :
      (info : LockInfo) (s after : S)
      → write_lock fs codec m info s ≡ (ok tt, after)
      → IsHeld info after
  unfolding write_lock read_lock parse_lock
  write_lock-IsHeld info s after h =
      let made = fs.create_dir_all m.locks_dir s in
      let (u, created, h₁) = resume-eq-ok made.0 made.1 _ h in
      let (content, printed, h₂) =
        resume-eq-ok (ok_or (codec.to_bytes info) (Error.serialization "serde_json::Error")) made.1
          _ h₁ in
      let wrote = fs.write (temp_path m) content made.1 in
      let (v, written, h₃) =
        resume-eq-ok wrote.0 wrote.1 (λ t. fs.rename (temp_path m) (lock_path m)) h₂ in
      let (there, read) =
        fs.renamed (temp_path m) (lock_path m) content made.1 written (ap (λ x. x.0) h₃) in
      let at : (fs.rename (temp_path m) (lock_path m) wrote.1).1 ≡ after = ap (λ x. x.1) h₃ in
      let (back, parsed, same) =
        codec.read_back info content (ok_or-eq-ok (codec.to_bytes info) _ printed) in
      subst (IsHeld info) at (record { there = there; content = rw (read, parsed, same) refl })

  create_lock-IsHeld :
      (process : Process) (lock_type : LockType) (operation : String) (s after : S)
      (lock : RepositoryLock)
      → create_lock fs codec m process lock_type operation s ≡ (ok lock, after)
      → IsHeld (new_info process lock_type operation) after
  unfolding create_lock
  create_lock-IsHeld process lock_type operation s after lock h =
      let info = new_info process lock_type operation in
      let wrote = write_lock fs codec m info s in
      let (u, done, h₁) =
        resume-eq-ok wrote.0 wrote.1 (λ t. pure (record { path = lock_path m; owned = true })) h in
      subst (IsHeld info) (ap (λ x. x.1) h₁)
        (write_lock-IsHeld info s wrote.1 (λ t. (done t, wrote.1)))

  contend-IsHeld :
      (process : Process) (lock_type : LockType) (operation : String) (existing : LockInfo)
      (s after : S) (lock : RepositoryLock)
      → lock.owned ≡ true
      → contend fs codec m process lock_type operation existing s ≡ (ok lock, after)
      → IsHeld (new_info process lock_type operation) after
  unfolding contend remove_stale
  contend-IsHeld process lock_type operation existing s after lock owned h =
      elim (Bool-cases (is_current_process process existing)) [
        | inl e ↦ ground (arith, e, h, owned)
        | inr e ↦
            elim (Bool-cases
              (is_stale process existing && not (is_process_alive process existing))) [
                | inl g ↦
                    create_lock-IsHeld process lock_type operation
                      (fs.remove_file (lock_path m) s).1 after lock (ground (arith, e, g, h))
                | inr g ↦ ground (arith, e, g, h)
              ]
      ]

  acquire-IsHeld :
      (process : Process) (lock_type : LockType) (operation : String) (s after : S)
      (lock : RepositoryLock)
      → lock.owned ≡ true
      → acquire fs codec m process lock_type operation s ≡ (ok lock, after)
      → IsHeld (new_info process lock_type operation) after
  unfolding acquire read_lock
  acquire-IsHeld process lock_type operation s after lock owned h =
      elim (Bool-cases (fs.exists_at (lock_path m) s)) [
        | inl e ↦
            let seen = read_lock fs codec m s in
            let taken : resume seen (contend fs codec m process lock_type operation)
                ≡ (ok lock, after) =
              ground (arith, e, h) in
            let (existing, read, rest) =
              resume-eq-ok seen.0 seen.1 (contend fs codec m process lock_type operation) taken in
            contend-IsHeld process lock_type operation existing seen.1 after lock owned rest
        | inr e ↦ create_lock-IsHeld process lock_type operation s after lock (ground (arith, e, h))
      ]

  -- Where a process has acquired a lock of its own, another process whose view of that lock is that it is
  -- not its own, and not both stale and dead, gets a conflict and leaves the file system as it is. The
  -- types of the two locks, shared or exclusive, make no difference.
  pub acquire-acquire :
      (process other : Process) (first second : LockType) (operation work : String) (s after : S)
      (lock : RepositoryLock)
      → lock.owned ≡ true
      → acquire fs codec m process first operation s ≡ (ok lock, after)
      → is_current_process other (new_info process first operation) ≡ false
      → (is_stale other (new_info process first operation)
          && not (is_process_alive other (new_info process first operation)))
        ≡ false
      → acquire fs codec m other second work after
        ≡ (err (Error.lock_conflict "Repository locked"), after)
  unfolding acquire contend
  acquire-acquire process other first second operation work s after lock owned h apart kept =
      let held = acquire-IsHeld process first operation s after lock owned h in
      rw (held.there, held.content, apart, kept) refl
