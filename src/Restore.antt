-- ===== src/Restore.antt =====
-- cli/src/commands/restore.rs: the content of a file from its chunks, and its verification; below it what is
-- written to the file system (Files) and the command itself (Run).
pub mod RoundTrip
pub mod Files
pub mod Selection
pub mod Progress
pub mod Run
pub mod DryRun
pub mod Counts
pub mod Written
use ghostsnap.Prelude.{
  ◌≡◌, Bool, true, false, not, ◌&&◌, ◌==◌, list_eq, List, [], ◌∷◌, ◌++◌, length, nat_beq,
  if◌then◌else◌, is_some,
}
use ghostsnap.Errors.{Error, Result, ok, err}
use ghostsnap.Action.{Action, ◌>>=◌, pure, lift}
use ghostsnap.Foreign.{Bytes, Hasher}
use ghostsnap.Types.{ChunkRef}
use ghostsnap.Index.{Bloom}
use ghostsnap.Snapshot.{TreeNode}
use ghostsnap.Repository.{Crates, Repository, load_chunk}

unfoldable pub compare_content : Hasher → Bytes → Bytes → Result {0} Unit
compare_content hasher restored expected =
    if not (nat_beq (length restored) (length expected))
    then err (Error.other "Size mismatch")
    else (if hasher.hash restored == hasher.hash expected
        then ok tt
        else err (Error.other "Hash mismatch"))

module _ {S C F : Type 0} ⦃b : Bloom F⦄ (crates : Crates S C) where
  -- The loop over the chunks, with the data so far.
  unfoldable pub read_chunks : List ChunkRef → Bytes → Action (Repository S C F) Bytes
  unfolding load_chunk
  read_chunks [] file_data = pure file_data
  read_chunks (r ∷ rs) file_data = do
    chunk_data ← load_chunk crates r.id
    read_chunks rs (file_data ++ chunk_data)

  -- The content that `restore_file` writes.
  unfoldable pub restored_content : TreeNode → Action (Repository S C F) Bytes
  unfolding read_chunks
  restored_content node = read_chunks node.chunks []

  -- `restored` is what stands at the destination.
  unfoldable pub verify_file : Bool → TreeNode → Bytes → Action (Repository S C F) Unit
  unfolding restored_content compare_content
  verify_file no_hardlinks node restored =
      if is_some node.hardlink_target && not no_hardlinks then pure tt else (do
        expected ← restored_content node
        lift (compare_content crates.hasher restored expected))
