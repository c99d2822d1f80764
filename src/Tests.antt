-- ===== src/Tests.antt =====
-- The theorems at concrete inputs, with concrete functions in the place of the foreign crates.
mod Crates
mod IndexTests
mod PackTests
mod ForgetTests
mod RetryTests
mod RepositoryTests
mod ObjectsTests
mod PruneTests
mod JobTests
mod RestoreTests
mod DiffTests
mod Packs
mod Stores
mod LockTests
mod LocationTests
mod CheckTests
mod OpeningTests
mod ScanTests
mod WritingTests
