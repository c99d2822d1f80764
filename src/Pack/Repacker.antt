-- ===== src/Pack/Repacker.antt =====
-- core/src/pack.rs, `Repacker`: a new pack with chosen chunks of an old one, and the choice of packs.
pub mod Extract
use ghostsnap.Prelude.{
  ℕ, ◌+◌, ◌/◌, ◌%◌, ◌^◌, ◌<◌, ◌≤◌, ◌≡◌, refl, sym, ap, ◌∙◌, String, Bool, true, false, ◌||◌, Option,
  none, some, List, [], ◌∷◌, ◌++◌, ◌==◌, string_eq, list_eq, arith, ltb, if◌then◌else◌, Bool-cases,
  Option-cases, inl, inr, length, contains, Map, lookup, is_some,
}
use ghostsnap.Errors.{Error, Result, ok, err, panic, ok_or, ◌>>=◌, >>=-eq-ok}
use ghostsnap.Foreign.{Bytes, Zlib}
use ghostsnap.Types.{ChunkId, PackId}
use ghostsnap.Pack
use ghostsnap.Pack.{PackFile, PackedChunk, slice, decompress_data, add_chunk}

pub record Repacker : Type 0 where
  pub max_pack_size : ℕ
  pub min_pack_size : ℕ

unfoldable pub new : ℕ → Repacker
new max_pack_size = record { max_pack_size = max_pack_size; min_pack_size = max_pack_size / 4 }

abbrev pub unless_empty : PackFile → Map ChunkId PackedChunk → Result (Option PackFile)
unless_empty p [] = ok none
unless_empty p (_ ∷ _) = ok (some p)

module _ (zlib : Zlib) where
  -- The body of `if let Some(chunk_entry)`. The slice is not guarded here.
  unfoldable pub copy_entry : PackFile → ChunkId → PackFile → Option PackedChunk → Result PackFile
  copy_entry source id new_pack none = ok new_pack
  copy_entry source id new_pack (some chunk_entry) = do
    let end = (chunk_entry.offset + chunk_entry.length) % 2 ^ 64
    compressed_data ← slice chunk_entry.offset end source.data_section
    decompressed ← decompress_data zlib compressed_data
    add_chunk zlib id decompressed new_pack

  -- The loop of `extract_chunks`.
  unfoldable pub copy_chunks : PackFile → List ChunkId → PackFile → Result PackFile
  copy_chunks source [] new_pack = ok new_pack
  copy_chunks source (id ∷ ids) new_pack =
      copy_entry source id new_pack (lookup id source.chunks) >>= copy_chunks source ids

  -- The new pack's random id and time are arguments.
  unfoldable pub extract_chunks : PackId → ℕ → PackFile → List ChunkId → Result (Option PackFile)
  extract_chunks pack_id now source [] = ok none
  extract_chunks pack_id now source (id ∷ ids) = do
    new_pack ← copy_chunks source (id ∷ ids) (Pack.new pack_id now)
    unless_empty new_pack new_pack.chunks

unfoldable pub find_repack_candidates : Repacker → List (PackId × ℕ) → List PackId
find_repack_candidates r [] = []
find_repack_candidates r ((id, size) ∷ infos) =
    let rest = find_repack_candidates r infos in
    if ltb size r.min_pack_size then id ∷ rest else rest
