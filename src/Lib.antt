-- ===== src/Lib.antt =====
-- Ghostsnap, a deduplicating backup program with encrypted repositories: a model of its core and the
-- theorems about it.
--
-- The program. A backup cuts files into chunks, named by the hash of their content. New chunks are
-- compressed and appended to a pack file (core/src/pack.rs); the index (core/src/index.rs) says in which pack a
-- chunk is. Packs, trees, snapshots and the index are encrypted (core/src/crypto.rs) and stored as objects
-- by path (core/src/storage.rs). The repository (core/src/repository.rs) ties these together and caches
-- packs. The command line (cli/src) backs up, restores, forgets snapshots by a retention policy and prunes;
-- backends (backends/src) retry calls of cloud services.
--
-- The files:
--   Errors        core/src/error.rs; a Result has a third outcome for a panic
--   Action        asynchronous methods: an outcome and the state left behind, on errors too
--   Foreign       interfaces for the crates: cipher, hash, hex, zlib, codecs, JSON, UTF-8, argon2, with the
--                 laws relied on
--   Crypto        core/src/crypto.rs, Encryptor: nonce and ciphertext in one block
--   Types         core/src/types.rs: ids and chunk metadata
--   Index         core/src/index.rs: the Index, one function for each method; below it Invariant,
--                 Refinement (histories against two abstract maps), Dirty (the flag), Encoding (the file)
--                 and Sharded (ShardedIndex)
--   Pack          core/src/pack.rs: PackFile; below it Contents, Header, Frames, Encoding (the file),
--                 Manager (PackManager) and Repacker
--   Snapshot      core/src/snapshot.rs and the tree nodes of core/src/types.rs; Manager is SnapshotManager,
--                 Encoding the encrypted JSON
--   Storage       the trait of core/src/storage.rs, over an abstract store with laws
--   PackCache     the crate lru as an interface, and the eviction loop of load_pack
--   Repository    core/src/repository.rs: packs and chunks; below it Coherence, Saving,
--                 History, Objects (snapshots and trees), Garbage (used chunks and pruning), Reading and
--                 Untouched (what deletions of other packs leave), Verify (verify, stats, migrate) and
--                 Opening (init_at_location, open_at_location; below it Config, and Legacy, the import of the
--                 index of an old repository)
--   Lock          core/src/lock.rs: the lock file; below it Exclusion
--   Location      the locations of core/src/storage.rs, the transports of core/src/types.rs, and how
--                 core/src/repository.rs resolves one from the other; below it Uri, how a location is printed
--                 and parsed, with Parts, Schemes and Address for its round trip
--   Forget        cli/src/commands/forget.rs; below it Buckets, Policies, Plan (what is to go) and Run
--   Chunker       core/src/chunker.rs, over the crate fastcdc
--   Backup        cli/src/commands/backup.rs: how the content of a file is stored; below it Scan (the entries of
--                 the paths), Holes (sparse files and attributes) and Links (hard links)
--   Restore       cli/src/commands/restore.rs: the content of a file from its chunks; below it Files (what is
--                 written for a node, over an interface of the file system), Selection, Progress and Run (the
--                 command), RoundTrip, Written, DryRun and Counts
--   Diff          cli/src/commands/diff.rs; below it Comparing (two nodes) and Changes (two trees)
--   Check         cli/src/commands/check.rs; below it Missing, Scan and Packs (what a check that
--                 counts no error has seen) and Soundness
--   Prune         cli/src/commands/prune.rs; below it Orphans (what is deleted) and Safety
--   Config        cli/src/config.rs: the configuration of jobs, and a job with the defaults applied
--   Hooks         cli/src/hooks.rs: what becomes of a hook
--   Job           cli/src/commands/job.rs: the order of a job's steps; below it Planning, Retention (run_forget;
--                 Kept is what it keeps), Pruning (run_prune; Collecting and Searching are its loops, Safety
--                 what it leaves), Sequence (what runs after what) and Refusal
--   Retry         backends/src/retry.rs; Outcomes has its theorems
--   Prelude       lists, maps, sorting and texts over the native numbers
--   Tests         concrete instances of every interface, and each theorem applied to them
--
-- Conventions. A HashMap or HashSet is an association list or a list; where the order could matter the
-- theorems hold for every order, and what is read back from a file is the same up to order. A method on `&mut self` returns the changed record. Random ids, nonces and
-- the clock are arguments. Counters that the program keeps in 32 or 64 bits wrap, as in a release build; the
-- length of a byte sequence in memory, and a count of things that are in memory, do not. A cast to 32 bits is a
-- remainder, and theorems that need it bound the length below 2^32. An out-of-range slice, a failed `expect` and
-- an out-of-range date are panics.
--
-- Loops are recursion on lists, on the attempts that are left (Retry), on the bytes of a file (its holes), or,
-- for the eviction loop, on a number of rounds, of which the entries of the cache are enough.
--
-- Not modelled: repacking and cloning a repository, the files of the sharded index, the commands that copy or
-- only print, the loop of a backup over the scanned items, and the stores and backends, which are input and
-- output. Log messages and printing are left out, and methods of one repository or one lock file do not overlap.
mod Prelude
pub mod Errors
pub mod Foreign
pub mod Crypto
pub mod Types
pub mod Index
pub mod Pack
pub mod Snapshot
pub mod Storage
pub mod Action
pub mod PackCache
pub mod Repository
pub mod Lock
pub mod Location
pub mod Forget
pub mod Chunker
pub mod Backup
pub mod Prune
pub mod Check
pub mod Restore
pub mod Diff
pub mod Retry
pub mod Config
pub mod Hooks
pub mod Job
mod Tests
