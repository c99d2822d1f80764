-- ===== src/Index/Encoding.antt =====
-- The file `index/main.idx`: `to_encrypted_bytes` and `from_encrypted_bytes` of core/src/index.rs.
use ghostsnap.Prelude.{
  ℕ, ◌*◌, ◌%◌, ◌^◌, ◌≤◌, max, ◌≡◌, refl, ap, ◌∙◌, sym, some, false, arith, ltb, if◌then◌else◌,
  length, keys, Map, IsMap, SameMap, lookup, list_eq, string_eq,
}
use ghostsnap.Errors.{Error, Result, ok, err, ok_or, ok_or-eq-ok, ◌>>=◌, >>=-eq-ok}
use ghostsnap.Foreign.{Bytes, Cipher, Codec}
use ghostsnap.Crypto.{Encryptor, encrypt, decrypt, decrypt-encrypt}
use ghostsnap.Types.{ChunkId, PackId}
use ghostsnap.Index.{
  ChunkLocation, PackInfo, Bloom, Index, index_version, bloom_items_count, set_all, get_chunk,
  get_pack, is_dirty, chunk_count,
}
use ghostsnap.Index.Invariant.{Filtered, IsValid, set_all-Filtered}
use ghostsnap.Index.Refinement.{get_chunk-eq-lookup}

pub record IndexHeader : Type 0 where
  pub version : ℕ
  pub chunk_count : ℕ
  pub pack_count : ℕ

pub record IndexData : Type 0 where
  pub header : IndexHeader
  pub chunks : Map ChunkId ChunkLocation
  pub packs : Map PackId PackInfo

pub record IsWell (d : IndexData) : Type 0 where
  pub chunks : IsMap d.chunks
  pub packs : IsMap d.packs

pub record IsSame (d e : IndexData) : Type 0 where
  pub header : d.header ≡ e.header
  pub chunks : SameMap d.chunks e.chunks
  pub packs : SameMap d.packs e.packs

abbrev pub IndexCodec : Type 0
IndexCodec = Codec IndexData IsWell IsSame

abbrev pub index_data : {F : Type 0} → Index F → IndexData
index_data i = record {
  header = record {
    version = index_version;
    chunk_count = length i.chunks % 2 ^ 64;
    pack_count = length i.packs % 2 ^ 64;
  };
  chunks = i.chunks;
  packs = i.packs;
}

module _ (F : Type 0) ⦃b : Bloom F⦄ where
  -- The filter is not in the file: it is filled from the keys that were read.
  abbrev pub from_data : IndexData → Index F
  from_data d =
      let bloom_size = max (length d.chunks * 2) bloom_items_count in
      record {
        bloom = set_all (keys d.chunks) (b.new_for_fp_rate bloom_size);
        chunks = d.chunks;
        packs = d.packs;
        dirty = false;
      }

  from_data-Filtered : (d : IndexData) → Filtered d.chunks (from_data d).bloom
  from_data-Filtered d =
      set_all-Filtered d.chunks (b.new_for_fp_rate (max (length d.chunks * 2) bloom_items_count))

module _ (cipher : Cipher) (codec : IndexCodec) {F : Type 0} where
  unfoldable pub to_encrypted_bytes : Encryptor → Bytes → Index F → Result Bytes
  to_encrypted_bytes encryptor nonce i = do
    serialized ← ok_or (codec.to_bytes (index_data i)) (Error.other "Index serialization failed")
    encrypt cipher encryptor nonce serialized

  module _ ⦃b : Bloom F⦄ where
    -- A file of a newer format is refused.
    unfoldable pub check_version : IndexData → Result (Index F)
    check_version d =
        if ltb index_version d.header.version
        then err (Error.other "Index version is newer than supported version")
        else ok (from_data F d)

    check_version-eq-ok : (d : IndexData) (i : Index F) → check_version d ≡ ok i → i ≡ from_data F d
    unfolding check_version
    check_version-eq-ok d i h = ground arith

    unfoldable pub from_encrypted_bytes : Encryptor → Bytes → Result (Index F)
    from_encrypted_bytes encryptor encrypted = do
      serialized ← decrypt cipher encryptor encrypted
      d ← ok_or (codec.from_bytes serialized) (Error.other "Index deserialization failed")
      check_version d

    check_version_le :
        (d : IndexData) (i : Index F) → check_version d ≡ ok i → d.header.version ≤ index_version
    unfolding check_version
    check_version_le d i h = ground (arith, h)

    -- Whatever the file holds, if it is loaded then it was opened and decoded, and its version is not
    -- newer than the supported one. The loaded index has the chunks and packs of the file, each key once,
    -- is clean, and no chunk that it lists is hidden by the rebuilt filter.
    pub from_encrypted_bytes_sound :
        (encryptor : Encryptor) (encrypted : Bytes) (i : Index F)
        → from_encrypted_bytes encryptor encrypted ≡ ok i
        → (serialized : Bytes) × (d : IndexData) × (decrypt cipher encryptor encrypted
            ≡ ok serialized)
          × (codec.from_bytes serialized ≡ some d)
          × (d.header.version ≤ index_version)
          × (i.chunks ≡ d.chunks)
          × (i.packs ≡ d.packs)
          × (is_dirty i ≡ false)
          × ((k : ChunkId) → get_chunk k i ≡ lookup k i.chunks)
          × IsMap i.chunks
          × IsMap i.packs
    unfolding from_encrypted_bytes is_dirty
    from_encrypted_bytes_sound encryptor encrypted i h =
        let (serialized, opened, q) = >>=-eq-ok (decrypt cipher encryptor encrypted) _ h in
        let (d, read, made) = >>=-eq-ok (ok_or (codec.from_bytes serialized) _) check_version q in
        let decoded = ok_or-eq-ok _ _ read in
        let w = codec.well serialized d decoded in
        let is = check_version-eq-ok d i made in
        let listed = get_chunk-eq-lookup (from_data F d) (from_data-Filtered F d) in
        (
          serialized,
          d,
          opened,
          decoded,
          check_version_le d i made,
          ap (λ (j : Index F). j.chunks) is,
          ap (λ (j : Index F). j.packs) is,
          rw is refl,
          rw is listed,
          rw is w.chunks,
          rw is w.packs,
        )

    -- A saved index is loaded with the same chunks, packs and counts, and is valid again.
    pub load-save :
        (encryptor : Encryptor) (nonce encrypted : Bytes) (i : Index F)
        → length nonce ≡ 12
        → IsValid i
        → to_encrypted_bytes encryptor nonce i ≡ ok encrypted
        → (j : Index F) × (from_encrypted_bytes encryptor encrypted ≡ ok j)
          × IsValid j
          × ((k : ChunkId) → get_chunk k j ≡ get_chunk k i)
          × ((p : PackId) → get_pack p j ≡ get_pack p i)
          × (chunk_count j ≡ chunk_count i)
          × (is_dirty j ≡ false)
    unfolding from_encrypted_bytes check_version to_encrypted_bytes get_pack chunk_count is_dirty
    load-save encryptor nonce encrypted i n v h =
        let (serialized, s, e) = >>=-eq-ok _ _ h in
        let (d, read, same) = codec.read_back (index_data i) serialized (ok_or-eq-ok _ _ s) in
        let w = codec.well serialized d read in
        let supported : ltb index_version d.header.version ≡ false =
          rw (ap (λ (t : IndexHeader). t.version) same.header) refl in
        (
          from_data F d,
          rw (decrypt-encrypt cipher encryptor nonce serialized encrypted n e, read, supported),
          record {
            filtered = from_data-Filtered F d;
            chunks_map = w.chunks;
            packs_map = w.packs;
            keyed = λ id info q. v.keyed id info (sym (same.packs.same id) ∙ q);
          },
          λ k.
              get_chunk-eq-lookup (from_data F d) (from_data-Filtered F d) k
              ∙ same.chunks.same k
              ∙ sym (get_chunk-eq-lookup i v.filtered k),
          same.packs.same,
          same.chunks.size,
          refl,
        )
