-- ===== src/Pack/Header.antt =====
-- The counters of a pack's header follow the `add_chunk` calls.
use mathlib.Core.Path.{subst, subst₂}
use ghostsnap.Prelude.{
  ℕ, ◌+◌, ◌%◌, ◌^◌, ◌≡◌, refl, List, [], ◌∷◌, none, arith, length, length-append,
}
use ghostsnap.Errors.{ok, >>=-eq-ok}
use ghostsnap.Foreign.{Bytes, Zlib}
use ghostsnap.Types.{ChunkId, PackId}
use ghostsnap.Pack.{PackFile, new, append_chunk, add_chunk}
use ghostsnap.Pack.Contents.{add_all, add_chunk-eq-ok}

abbrev pub total_length : List (ChunkId × Bytes) → ℕ
total_length [] = 0
total_length ((id, d) ∷ items) = length d + total_length items

-- `count` calls with `total` bytes of data have been made.
pub record Accounts (count total : ℕ) (p : PackFile) : Type 0 where
  pub chunk_count : p.header.chunk_count ≡ count % 2 ^ 32
  pub uncompressed_size : p.header.uncompressed_size ≡ total % 2 ^ 64
  pub compressed_size : p.header.compressed_size ≡ length p.data_section % 2 ^ 64
  pub data_checksum : p.header.data_checksum ≡ none

new-Accounts : (pack_id : PackId) (now : ℕ) → Accounts 0 0 (new pack_id now)
unfolding new
new-Accounts pack_id now = record {
  chunk_count = refl;
  uncompressed_size = refl;
  compressed_size = refl;
  data_checksum = refl;
}

module _ (zlib : Zlib) where
  append_chunk-Accounts :
      (id : ChunkId) (d c : Bytes) {count total : ℕ} {p : PackFile}
      → Accounts count total p
      → Accounts (count + 1) (total + length d) (append_chunk zlib id d c p)
  unfolding append_chunk
  append_chunk-Accounts id d c {p = p} v = record {
    chunk_count = omega (arith, v.chunk_count);
    uncompressed_size = omega (arith, v.uncompressed_size);
    compressed_size = omega (arith, v.compressed_size, length-append p.data_section c);
    data_checksum = refl;
  }

  add_all-Accounts :
      (items : List (ChunkId × Bytes)) {count total : ℕ} (p q : PackFile)
      → add_all zlib items p ≡ ok q
      → Accounts count total p
      → Accounts (count + length items) (total + total_length items) q
  add_all-Accounts [] {count} {total} p q h v =
      let is : p ≡ q = cc in
      subst₂ (λ n t. Accounts n t q) (omega arith) (omega arith) (subst (Accounts count total) is v)
  add_all-Accounts ((id, d) ∷ items) {count} {total} p q h v =
      let (r, first, rest) = >>=-eq-ok (add_chunk zlib id d p) (add_all zlib items) h in
      let (c, made, is) = add_chunk-eq-ok zlib id d p r first in
      let step =
        subst (Accounts (count + 1) (total + length d)) is (append_chunk-Accounts id d c v) in
      subst₂ (λ n t. Accounts n t q) (omega arith) (omega arith)
        (add_all-Accounts items r q rest step)

  -- After a series of `add_chunk` calls on a new pack the header counts the calls modulo 2^32 (a
  -- repeated id counts again), the bytes given and the bytes stored modulo 2^64, and has no checksum.
  pub header-add_all :
      (items : List (ChunkId × Bytes)) (pack_id : PackId) (now : ℕ) (q : PackFile)
      → add_all zlib items (new pack_id now) ≡ ok q
      → Accounts (length items) (total_length items) q
  header-add_all items pack_id now q h =
      subst₂ (λ n t. Accounts n t q) (omega arith) (omega arith)
        (add_all-Accounts items (new pack_id now) q h (new-Accounts pack_id now))
