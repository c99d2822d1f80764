-- ===== src/Storage.antt =====
-- core/src/storage.rs, `RepositoryStorage`: the trait through which the repository reaches a file system or
-- an object store, and the paths it uses. A store `S` is foreign; the laws are what a store of objects by
-- path promises.
use Prim.Native.String.{◌++◌}
use text.Mathlib.TextLemmas.{native_laws}
use ghostsnap.Prelude.{ℕ, String, Bool, List, ◌≡◌, ◌≢◌}
use ghostsnap.Errors.{Result, ok}
use ghostsnap.Foreign.{Bytes}
use ghostsnap.Types.{PackId}

pub record RepositoryStorage (S : Type 0) : Type 0 where
  pub init : S → Result {0} Unit × S
  pub exists_at : String → S → Result Bool
  pub read : String → S → Result Bytes
  pub write : String → Bytes → S → Result {0} Unit × S
  pub delete : String → S → Result {0} Unit × S
  pub list : String → S → Result (List String)
  -- The size that `metadata` tells.
  pub metadata_size : String → S → Result ℕ
  -- What is written is read, and a write or a delete, also one that fails, leaves other objects alone.
  pub read-write_same :
      (path : String) (bytes : Bytes) (s : S)
      → (write path bytes s).0 ≡ ok tt
      → read path (write path bytes s).1 ≡ ok bytes
  pub read-write_other :
      (path other : String) (bytes : Bytes) (s : S)
      → path ≢ other
      → read other (write path bytes s).1 ≡ read other s
  pub read-delete_other :
      (path other : String) (s : S) → path ≢ other → read other (delete path s).1 ≡ read other s

-- `format!("data/{}.pack", pack_id)`
unfoldable pub pack_path : PackId → String
pack_path pack_id = "data/" ++ (pack_id ++ ".pack")

pub pack_path_injective : (p q : PackId) → pack_path p ≡ pack_path q → p ≡ q
unfolding pack_path
pack_path_injective p q h =
    native_laws.append_cancel_right p q ".pack"
      (native_laws.append_cancel_left "data/" (p ++ ".pack") (q ++ ".pack") h)
