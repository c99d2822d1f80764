-- ===== src/Pack/Encoding.antt =====
-- A pack file on disk: `to_encrypted_bytes` and `from_encrypted_bytes` of core/src/pack.rs. The random
-- nonces of the three encryptions are arguments.
use mathlib.Core.Path.{subst}
use ghostsnap.Prelude.{
  ◌+◌, ◌^◌, ◌<◌, ◌≡◌, refl, sym, ap, ◌∙◌, true, not, some, ◌++◌, string_eq, list_eq, arith,
  if◌then◌else◌, length, Map, IsMap, SameMap, length-append, beq_refl,
}
use ghostsnap.Errors.{
  Error, Result, ok, err, ok_or, ok_or-eq-ok, ◌>>=◌, >>=-eq-ok, Ensures, Ensures-bind,
}
use ghostsnap.Foreign.{Bytes, Cipher, Codec, Hasher, Hex, Zlib}
use ghostsnap.Crypto.{Encryptor, encrypt, decrypt, decrypt-encrypt}
use ghostsnap.Types.{ChunkId}
use ghostsnap.Pack.{
  PackFile, PackHeader, PackedChunk, get_chunk, compute_checksum, verify_checksum, checksum_of,
}
use ghostsnap.Pack.Frames.{write_frame, read_frame, read_frame-write_frame, length-write_frame}

abbrev pub HeaderCodec : Type 0
HeaderCodec = Codec PackHeader (λ h. Unit) (λ h g. h ≡ g)

abbrev pub ChunksCodec : Type 0
ChunksCodec = Codec (Map ChunkId PackedChunk) IsMap SameMap

pub record Nonces : Type 0 where
  pub header : Bytes
  pub chunks : Bytes
  pub content : Bytes

pub record AreNonces (n : Nonces) : Type 0 where
  pub header : length n.header ≡ 12
  pub chunks : length n.chunks ≡ 12
  pub content : length n.content ≡ 12

module _ (cipher : Cipher) (hasher : Hasher) (hex : Hex) (headers : HeaderCodec)
    (tables : ChunksCodec) where
  unfoldable pub to_encrypted_bytes : Encryptor → Nonces → PackFile → Result Bytes
  to_encrypted_bytes encryptor nonces p = do
    let pack_to_write = compute_checksum hasher hex p
    header_data ← ok_or (headers.to_bytes pack_to_write.header) (Error.other "postcard: header")
    chunks_data ← ok_or (tables.to_bytes pack_to_write.chunks) (Error.other "postcard: chunks")
    encrypted_header ← encrypt cipher encryptor nonces.header header_data
    encrypted_chunks ← encrypt cipher encryptor nonces.chunks chunks_data
    encrypted_data ← encrypt cipher encryptor nonces.content pack_to_write.data_section
    ok (write_frame encrypted_header ++ (write_frame encrypted_chunks ++ encrypted_data))

  -- The end of `from_encrypted_bytes`.
  unfoldable pub check_pack : PackFile → Result PackFile
  check_pack p =
      if not (verify_checksum hasher hex p)
      then err (Error.corrupted_pack p.header.pack_id)
      else ok p

  unfoldable pub from_encrypted_bytes : Encryptor → Bytes → Result PackFile
  from_encrypted_bytes encryptor bytes = do
    (header_encrypted, after_header) ← read_frame bytes
    header_data ← decrypt cipher encryptor header_encrypted
    header ← ok_or (headers.from_bytes header_data) (Error.other "postcard: header")
    (chunks_encrypted, rest) ← read_frame after_header
    chunks_data ← decrypt cipher encryptor chunks_encrypted
    chunks ← ok_or (tables.from_bytes chunks_data) (Error.other "postcard: chunks")
    decrypted_data ← decrypt cipher encryptor rest
    check_pack (record { header = header; chunks = chunks; data_section = decrypted_data })

  check_pack-eq-ok :
      (p q : PackFile) → check_pack p ≡ ok q → (p ≡ q) × (verify_checksum hasher hex p ≡ true)
  unfolding check_pack
  check_pack-eq-ok p q h = ground arith

  check_pack-Ensures :
      (p : PackFile) → Ensures (λ q. verify_checksum hasher hex q ≡ true) (check_pack p)
  check_pack-Ensures p = record {
    returned = λ q h.
        let (is, passed) = check_pack-eq-ok p q h in
        subst (λ t. verify_checksum hasher hex t ≡ true) is passed;
  }

  -- Whatever bytes are loaded, a pack that comes out passes its own checksum.
  pub verify_checksum-from_encrypted_bytes :
      (encryptor : Encryptor) (bytes : Bytes) (q : PackFile)
      → from_encrypted_bytes encryptor bytes ≡ ok q
      → verify_checksum hasher hex q ≡ true
  unfolding from_encrypted_bytes
  verify_checksum-from_encrypted_bytes encryptor bytes q h =
      let ensured : Ensures (λ p. verify_checksum hasher hex p ≡ true)
          (from_encrypted_bytes encryptor bytes) =
        search (Ensures-bind, check_pack-Ensures) depth 12 in
      ensured.returned q h

  check_pack_self : (p : PackFile) → verify_checksum hasher hex p ≡ true → check_pack p ≡ ok p
  unfolding check_pack
  check_pack_self p passed = rw passed

  -- The checksum that `compute_checksum` stores is the one that is verified.
  verify_checksum-compute_checksum :
      (p : PackFile) (header : PackHeader) (chunks : Map ChunkId PackedChunk)
      → header ≡ (compute_checksum hasher hex p).header
      → verify_checksum hasher hex
          (record { header = header; chunks = chunks; data_section = p.data_section })
        ≡ true
  unfolding verify_checksum compute_checksum
  verify_checksum-compute_checksum p header chunks same =
      rw same (beq_refl (checksum_of hasher hex p.data_section))

  -- The parts of a file that `to_encrypted_bytes` returned.
  pub record Written (encryptor : Encryptor) (nonces : Nonces) (p : PackFile) (bytes : Bytes)
      : Type 0 where
    pub header_data : Bytes
    pub chunks_data : Bytes
    pub header : Bytes
    pub chunks : Bytes
    pub content : Bytes
    pub header_made : headers.to_bytes (compute_checksum hasher hex p).header ≡ some header_data
    pub chunks_made : tables.to_bytes (compute_checksum hasher hex p).chunks ≡ some chunks_data
    pub header_sealed : encrypt cipher encryptor nonces.header header_data ≡ ok header
    pub chunks_sealed : encrypt cipher encryptor nonces.chunks chunks_data ≡ ok chunks
    pub content_sealed :
        encrypt cipher encryptor nonces.content (compute_checksum hasher hex p).data_section
        ≡ ok content
    pub joined : write_frame header ++ (write_frame chunks ++ content) ≡ bytes

  to_encrypted_bytes-Written :
      (encryptor : Encryptor) (nonces : Nonces) (p : PackFile) (bytes : Bytes)
      → to_encrypted_bytes encryptor nonces p ≡ ok bytes
      → Written encryptor nonces p bytes
  unfolding to_encrypted_bytes
  to_encrypted_bytes-Written encryptor nonces p bytes h =
      let pack_to_write = compute_checksum hasher hex p in
      let (hd, e₁, h₁) = >>=-eq-ok (ok_or (headers.to_bytes pack_to_write.header) _) _ h in
      let (cd, e₂, h₂) = >>=-eq-ok (ok_or (tables.to_bytes pack_to_write.chunks) _) _ h₁ in
      let (eh, e₃, h₃) = >>=-eq-ok (encrypt cipher encryptor nonces.header hd) _ h₂ in
      let (ec, e₄, h₄) = >>=-eq-ok (encrypt cipher encryptor nonces.chunks cd) _ h₃ in
      let (ed, e₅, h₅) =
        >>=-eq-ok (encrypt cipher encryptor nonces.content pack_to_write.data_section) _ h₄ in
      record {
        header_data = hd;
        chunks_data = cd;
        header = eh;
        chunks = ec;
        content = ed;
        header_made = ok_or-eq-ok _ _ e₁;
        chunks_made = ok_or-eq-ok _ _ e₂;
        header_sealed = e₃;
        chunks_sealed = e₄;
        content_sealed = e₅;
        joined = cc h₅;
      }

  -- With the parts read back, the whole is read back.
  from_frames :
      (encryptor : Encryptor) (hd cd eh ec ed data_section : Bytes) (header : PackHeader)
      (chunks : Map ChunkId PackedChunk)
      → length eh < 2 ^ 32
      → length ec < 2 ^ 32
      → decrypt cipher encryptor eh ≡ ok hd
      → decrypt cipher encryptor ec ≡ ok cd
      → decrypt cipher encryptor ed ≡ ok data_section
      → headers.from_bytes hd ≡ some header
      → tables.from_bytes cd ≡ some chunks
      → from_encrypted_bytes encryptor (write_frame eh ++ (write_frame ec ++ ed))
        ≡ check_pack (record { header = header; chunks = chunks; data_section = data_section })
  unfolding from_encrypted_bytes
  from_frames encryptor hd cd eh ec ed data_section header chunks sh sc dh dc dd rh rc = rw (
    read_frame-write_frame eh (write_frame ec ++ ed) sh,
    dh,
    rh,
    read_frame-write_frame ec ed sc,
    dc,
    rc,
    dd,
  )

  Written-length :
      {encryptor : Encryptor} {nonces : Nonces} {p : PackFile} {bytes : Bytes}
      (w : Written encryptor nonces p bytes)
      → length bytes ≡ length w.header + 4 + (length w.chunks + 4 + length w.content)
  Written-length w = omega (
    arith,
    ap length (sym w.joined),
    length-append (write_frame w.header) (write_frame w.chunks ++ w.content),
    length-append (write_frame w.chunks) w.content,
    length-write_frame w.header,
    length-write_frame w.chunks,
  )

  -- A saved pack of less than 2^32 bytes is loaded with the same table of contents and data section, so
  -- that every `get_chunk` answers as before, and with the same header but for the checksum, which is now there.
  pub from_encrypted_bytes-to_encrypted_bytes :
      (zlib : Zlib) (encryptor : Encryptor) (nonces : Nonces) (p : PackFile) (bytes : Bytes)
      → AreNonces nonces
      → to_encrypted_bytes encryptor nonces p ≡ ok bytes
      → length bytes < 2 ^ 32
      → (q : PackFile) × (from_encrypted_bytes encryptor bytes ≡ ok q)
        × (q.header ≡ (compute_checksum hasher hex p).header)
        × SameMap q.chunks p.chunks
        × (q.data_section ≡ p.data_section)
        × ((k : ChunkId) → get_chunk zlib k q ≡ get_chunk zlib k p)
  unfolding get_chunk compute_checksum
  from_encrypted_bytes-to_encrypted_bytes zlib encryptor nonces p bytes n h small =
      let w = to_encrypted_bytes-Written encryptor nonces p bytes h in
      let (header, header_read, same_header) = headers.read_back _ w.header_data w.header_made in
      let (chunks, chunks_read, same_chunks) = tables.read_back _ w.chunks_data w.chunks_made in
      let q : PackFile = record {
        header = header;
        chunks = chunks;
        data_section = p.data_section;
      } in
      let size = Written-length w in
      let opened =
        from_frames encryptor w.header_data w.chunks_data w.header w.chunks w.content p.data_section
          header chunks (omega arith) (omega arith)
          (decrypt-encrypt cipher encryptor nonces.header w.header_data w.header n.header
            w.header_sealed)
          (decrypt-encrypt cipher encryptor nonces.chunks w.chunks_data w.chunks n.chunks
            w.chunks_sealed)
          (decrypt-encrypt cipher encryptor nonces.content p.data_section w.content n.content
            w.content_sealed)
          header_read chunks_read in
      let passes =
        check_pack_self q (verify_checksum-compute_checksum p header chunks same_header) in
      (
        q,
        subst (λ b. from_encrypted_bytes encryptor b ≡ ok q) w.joined (opened ∙ passes),
        same_header,
        same_chunks,
        refl,
        λ k. rw (same_chunks.same k),
      )
