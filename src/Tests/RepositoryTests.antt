-- ===== src/Tests/RepositoryTests.antt =====
-- The theorems on the repository at concrete inputs.
use ghostsnap.Prelude.{
  String, list_eq, ◌^◌, ◌<◌, ◌≡◌, refl, string_eq, none, some, List, [], ◌∷◌, length, arith, Map,
}
use mathlib.Core.Path.{subst}
use ghostsnap.Errors.{ok}
use ghostsnap.Foreign.{Bytes}
use ghostsnap.Types.{ChunkId}
use ghostsnap.Index.{Index, Bloom, new, add_pack, add_chunk}
use ghostsnap.Index.Encoding.{IndexCodec}
use ghostsnap.Pack
use ghostsnap.Pack.{PackFile}
use ghostsnap.PackCache.{evict}
use ghostsnap.PackCache.Eviction.{total_size, IsEvicted, evict_lem}
use ghostsnap.Storage.{pack_path}
use ghostsnap.Repository.{
  Crates, Repository, encryptor_of, write_object, invalidate, index_pack, pack_info, load_pack,
  save_pack, save_chunk_location, load_chunk,
}
use ghostsnap.Repository.Coherence.{IsCoherent, IsLoad, load_pack-IsLoad}
use ghostsnap.Repository.History.{save_method, run, load_pack-run, load_chunk-save_pack}
use ghostsnap.Tests.Stores.{map_storage, Slot, slot_cache}
use ghostsnap.Tests.Crates.{plain_cipher, length_hasher, unary_hex, exact_bloom}
use ghostsnap.Tests.Packs.{
  plain_zlib, id_a, filled, header_codec, table_codec, key, nonces, saved_bytes, saved,
}

-- The loop throws out the one entry.
evict_lem_example :
    IsEvicted slot_cache 4 3
      (some ("p", filled))
      (evict slot_cache 4 3 1 (some ("p", filled)) (total_size (("p", filled) ∷ [])))
unfolding Pack.size
evict_lem_example =
    evict_lem slot_cache 4 3 (some ("p", filled)) (total_size (("p", filled) ∷ [])) refl
      (omega arith)

instance abbrev id_bloom : Bloom (List ChunkId)
id_bloom = exact_bloom

-- A codec that fails: no index is written here.
abbrev no_codec : IndexCodec
no_codec = record {
  to_bytes = λ i. none;
  from_bytes = λ b. none;
  well = λ b i h. cc;
  read_back = λ i b h. cc;
}

abbrev crates : Crates (Map String Bytes) Slot
crates = record {
  cipher = plain_cipher;
  hasher = length_hasher;
  hex = unary_hex;
  zlib = plain_zlib;
  headers = header_codec;
  tables = table_codec;
  indexes = no_codec;
  store = map_storage;
  lru = slot_cache;
}

abbrev fresh : Repository (Map String Bytes) Slot (List ChunkId)
fresh = record {
  storage = [];
  encryptor = some key;
  index = new;
  pack_cache = none;
  pack_cache_size = 0;
  max_cache_size = 100;
}

fresh-IsCoherent : IsCoherent crates fresh
fresh-IsCoherent = record { cached = λ id p h. cc }

abbrev after : Repository (Map String Bytes) Slot (List ChunkId)
after = record fresh {
  storage = (pack_path "p", saved_bytes) ∷ [];
  index = add_pack (pack_info filled) new;
}

saving : save_pack crates nonces filled fresh ≡ (ok tt, after)
unfolding save_pack encryptor_of write_object invalidate index_pack
saving = rw saved refl

stored_small :
    (bytes : Bytes)
    → map_storage.read (pack_path "p") after.storage ≡ ok bytes
    → length bytes < 2 ^ 32
stored_small bytes h =
    let is : saved_bytes ≡ bytes =
      ground (arith, h, string_eq.beq_iff (pack_path "p") (pack_path "p")) in
    subst (λ b. length b < 2 ^ 32) is (omega arith)

load_chunk-save_pack_example :
    (load_chunk crates id_a (save_chunk_location id_a "p" 3 1 after).1).0
    ≡ Pack.get_chunk plain_zlib id_a filled
load_chunk-save_pack_example =
    load_chunk-save_pack crates nonces filled fresh after fresh-IsCoherent
      (record { header = refl; chunks = refl; content = refl }) saving
      (λ bytes h. stored_small bytes h) id_a 3 1

ran : run crates (save_method nonces filled ∷ []) fresh ≡ (ok tt, after)
ran = rw saving refl

load_pack-run_example : IsLoad crates "p" after (load_pack crates "p" after)
load_pack-run_example =
    load_pack-run crates (save_method nonces filled ∷ []) fresh after fresh-IsCoherent ran "p"

load_pack-IsLoad_example : IsLoad crates "p" fresh (load_pack crates "p" fresh)
load_pack-IsLoad_example = load_pack-IsLoad crates "p" fresh fresh-IsCoherent

abbrev placed : Index (List ChunkId)
placed = add_chunk id_a (record { pack_id = "p"; offset = 3; length = 1 }) new
