-- ===== src/Pack/Manager.antt =====
-- core/src/pack.rs, `PackManager`: chunks go to a current pack, which is handed out once it is full.
-- The random pack id and the clock of the n-th `start_new_pack` are given by `stamp n`. Where
-- compression fails the error is returned, and the manager is abandoned as its callers do.
pub mod Partition
use ghostsnap.Prelude.{
  ℕ, ◌+◌, ◌%◌, ◌^◌, ◌<◌, ◌≤◌, ◌≡◌, ◌≢◌, refl, sym, ap, ◌∙◌, Bool, true, false, Option, none, some,
  List, [], ◌∷◌, ◌++◌, arith, if◌then◌else◌, Bool-cases, inl, inr, append_nil, leb, leb→le,
}
use mathlib.Core.List.{append_assoc}
use mathlib.Core.Path.{subst}
use ghostsnap.Errors.{Result, ok, ◌>>=◌, >>=-eq-ok}
use ghostsnap.Foreign.{Bytes, Zlib}
use ghostsnap.Types.{ChunkId, PackId}
use ghostsnap.Pack
use ghostsnap.Pack.{PackFile, is_full, size}
use ghostsnap.Pack.Contents.{add_all}

pub record PackManager : Type 0 where
  pub current_pack : Option PackFile
  pub max_pack_size : ℕ
  pub pack_counter : ℕ

unfoldable pub new : ℕ → PackManager
new max_pack_size = record { current_pack = none; max_pack_size = max_pack_size; pack_counter = 0 }

-- No current pack, or a full one.
unfoldable pub needs_new : ℕ → Option PackFile → Bool
unfolding is_full
needs_new max_pack_size none = true
needs_new max_pack_size (some p) = is_full max_pack_size p

unfoldable pub finish_current_pack : PackManager → PackManager × Option PackFile
finish_current_pack m = (record m { current_pack = none }, m.current_pack)

abbrev pub prepend : Option PackFile → List PackFile → List PackFile
prepend none packs = packs
prepend (some p) packs = p ∷ packs

module _ (stamp : ℕ → PackId × ℕ) where
  unfoldable pub start_new_pack : PackManager → PackManager
  start_new_pack m = record m {
    pack_counter = (m.pack_counter + 1) % 2 ^ 64;
    current_pack = some (Pack.new (stamp m.pack_counter).0 (stamp m.pack_counter).1);
  }

module _ (zlib : Zlib) where
  -- `if let Some(pack) = self.current_pack.as_mut() { pack.add_chunk(chunk_id, data)?; }`
  unfoldable pub add_to_current :
      ChunkId → Bytes → PackManager → Option PackFile → Result PackManager
  add_to_current id d m none = ok m
  add_to_current id d m (some p) = do
    q ← Pack.add_chunk zlib id d p
    ok (record m { current_pack = some q })

module _ (zlib : Zlib) (stamp : ℕ → PackId × ℕ) where
  unfoldable pub add_chunk : ChunkId → Bytes → PackManager → Result (PackManager × Option PackFile)
  unfolding needs_new start_new_pack add_to_current
  add_chunk id d m =
      let started = start_new_pack stamp m in
      if needs_new m.max_pack_size m.current_pack
      then (do m' ← add_to_current zlib id d started started.current_pack; ok (m', m.current_pack))
      else (do m' ← add_to_current zlib id d m m.current_pack; ok (m', none))

  -- The loop of the callers: the packs that come out, and the manager at the end.
  unfoldable pub add_chunks :
      List (ChunkId × Bytes) → PackManager → Result (List PackFile × PackManager)
  add_chunks [] m = ok ([], m)
  add_chunks ((id, d) ∷ items) m = do
    (m', finished) ← add_chunk id d m
    (packs, last) ← add_chunks items m'
    ok (prepend finished packs, last)
