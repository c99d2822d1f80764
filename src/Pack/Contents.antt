-- ===== src/Pack/Contents.antt =====
-- What a pack holds: after a series of `add_chunk` calls, `get_chunk` returns what was last added
-- under an id, and the header accounts for the data section.
use ghostsnap.Prelude.{
  ℕ, ◌+◌, ◌-◌, ◌%◌, ◌^◌, ◌<◌, ◌≤◌, ◌≡◌, refl, ◌∙◌, sym, ap, Option, none, some, List, [], ◌∷◌, ◌++◌,
  ◌==◌, string_eq, list_eq, arith, if◌then◌else◌, length, take, drop, lookup, lookup-insert,
  take-append_left, drop-append_left, length-append, length-drop, drop-append, take_length,
  Option-cases, Bool-cases, inl, inr, le→ltb_false,
}
use mathlib.Core.Path.{subst}
use ghostsnap.Errors.{Error, Result, ok, ok_or, ok_or-eq-ok, ◌>>=◌, >>=-eq-ok}
use ghostsnap.Foreign.{Bytes, Zlib}
use ghostsnap.Types.{ChunkId, PackId}
use ghostsnap.Pack.{
  entry_of, PackFile, PackedChunk, new, slice, compress_data, decompress_data, append_chunk,
  add_chunk, read_entry, get_chunk,
}

-- An entry inside the data section reads the same bytes when more data follows.
slice-append :
    (start end : ℕ) (bytes more : Bytes)
    → start ≤ end
    → end ≤ length bytes
    → slice start end (bytes ++ more) ≡ slice start end bytes
unfolding slice
slice-append start end bytes more lo hi =
    let same = drop-append_left start bytes more (omega arith) in
    let taken =
      take-append_left (end - start) (drop start bytes) more
        (omega (arith, length-drop start bytes)) in
    ground (arith, length-append bytes more, same, taken)

slice_last :
    (bytes more : Bytes)
    → slice (length bytes) (length bytes + length more) (bytes ++ more) ≡ ok more
unfolding slice
slice_last bytes more =
    let dropped = drop-append bytes more in
    let taken : take (length bytes + length more - length bytes) more ≡ more =
      ap (λ n. take n more) (omega arith) ∙ take_length more in
    ground (arith, length-append bytes more, dropped, taken)

abbrev pub put : ChunkId → Bytes → (ChunkId → Option Bytes) → ChunkId → Option Bytes
put id d f k = if id == k then some d else f k

-- The last data that the series stores under each id, over what was stored before.
abbrev pub put_all : List (ChunkId × Bytes) → (ChunkId → Option Bytes) → ChunkId → Option Bytes
put_all [] f = f
put_all ((id, d) ∷ items) f = put_all items (put id d f)

module _ (zlib : Zlib) where
  -- Inside the data section neither the test nor the slice fails.
  pub read_entry_inside :
      (c : PackedChunk) (bytes : Bytes)
      → c.offset + c.length ≤ length bytes
      → length bytes < 2 ^ 64
      → read_entry zlib c bytes
        ≡ slice c.offset (c.offset + c.length) bytes >>= decompress_data zlib
  unfolding read_entry
  read_entry_inside c bytes h small =
      let end : (c.offset + c.length) % 2 ^ 64 ≡ c.offset + c.length = omega arith in
      rw (end, le→ltb_false _ _ h)

  read_entry-append :
      (c : PackedChunk) (bytes more : Bytes)
      → c.offset + c.length ≤ length bytes
      → length (bytes ++ more) < 2 ^ 64
      → read_entry zlib c (bytes ++ more) ≡ read_entry zlib c bytes
  read_entry-append c bytes more h small =
      let longer = length-append bytes more in
      rw (
        read_entry_inside c (bytes ++ more) (omega arith) small,
        read_entry_inside c bytes h (omega arith),
        slice-append c.offset (c.offset + c.length) bytes more (omega arith) h,
      )

  -- The pack holds `f`: an id with data has an entry inside the data section that reads as that data,
  -- and an id without has no entry.
  pub record Holds (f : ChunkId → Option Bytes) (p : PackFile) : Type 0 where
    pub absent : (k : ChunkId) → f k ≡ none → lookup k p.chunks ≡ none
    pub entry :
        (k : ChunkId) (d : Bytes)
        → f k ≡ some d
        → (c : PackedChunk) × (lookup k p.chunks ≡ some c)
          × (c.offset + c.length ≤ length p.data_section)
          × (read_entry zlib c p.data_section ≡ ok d)

  pub new-Holds : (pack_id : PackId) (now : ℕ) → Holds (λ k. none) (new pack_id now)
  unfolding new
  new-Holds pack_id now = record { absent = λ k e. refl; entry = λ k d e. cc }

  decompressed :
      (d compressed : Bytes)
      → zlib.compress d ≡ some compressed
      → decompress_data zlib compressed ≡ ok d
  unfolding decompress_data
  decompressed d compressed made = rw (zlib.decompress-compress d compressed made)

  append_chunk-Holds :
      (id : ChunkId) (d compressed : Bytes) (f : ChunkId → Option Bytes) (p : PackFile)
      → zlib.compress d ≡ some compressed
      → length (p.data_section ++ compressed) < 2 ^ 32
      → Holds f p
      → Holds (put id d f) (append_chunk zlib id d compressed p)
  unfolding append_chunk
  append_chunk-Holds id d compressed f p made small h = record {
    absent = λ k e.
        ground (
          arith,
          lookup-insert id k (entry_of id d compressed p.data_section) p.chunks,
          h.absent k,
        );
    entry = λ k x e.
        let found = lookup-insert id k (entry_of id d compressed p.data_section) p.chunks in
        let longer = length-append p.data_section compressed in
        elim (Bool-cases (id == k)) [
          | inl same ↦
              let is : d ≡ x = cc (rw same at e) in
              let new_entry = entry_of id d compressed p.data_section in
              let opened : decompress_data zlib compressed ≡ ok d =
                decompressed d compressed made in
              let fits : new_entry.offset + new_entry.length
                  ≡ length p.data_section + length compressed =
                omega arith in
              (
                new_entry,
                found ∙ (rw same),
                omega arith,
                read_entry_inside new_entry (p.data_section ++ compressed) (omega arith)
                      (omega arith)
                    ∙ rw (fits, slice_last p.data_section compressed) (opened ∙ ap ok is),
              )
          | inr other ↦
              let (c, there, inside, reads) = h.entry k x (rw other at e) in
              (
                c,
                found ∙ (rw other there),
                omega arith,
                read_entry-append c p.data_section compressed inside (omega arith) ∙ reads,
              )
        ];
  }

  -- A series of `add_chunk` calls.
  abbrev pub add_all : List (ChunkId × Bytes) → PackFile → Result PackFile
  add_all [] p = ok p
  add_all ((id, d) ∷ items) p = add_chunk zlib id d p >>= add_all items

  pub get_chunk-Holds :
      (f : ChunkId → Option Bytes) (p : PackFile)
      → Holds f p
      → (k : ChunkId) → get_chunk zlib k p ≡ ok_or (f k) (Error.other "Chunk not found in pack")
  unfolding get_chunk
  get_chunk-Holds f p h k = elim (Option-cases (f k)) [
    | inl e ↦ rw (h.absent k e, e)
    | inr (d, e) ↦ let (c, there, inside, reads) = h.entry k d e in rw (there, reads, e)
  ]

  pub add_chunk-eq-ok :
      (id : ChunkId) (d : Bytes) (p q : PackFile)
      → add_chunk zlib id d p ≡ ok q
      → (c : Bytes) × (zlib.compress d ≡ some c) × (append_chunk zlib id d c p ≡ q)
  unfolding add_chunk compress_data
  add_chunk-eq-ok id d p q h =
      let (c, made, rest) =
        >>=-eq-ok (compress_data zlib d) (λ c. ok (append_chunk zlib id d c p)) h in
      (c, ok_or-eq-ok _ _ made, cc)

  -- The data section only grows.
  pub add_all_grows :
      (items : List (ChunkId × Bytes)) (p q : PackFile)
      → add_all items p ≡ ok q
      → length p.data_section ≤ length q.data_section
  unfolding append_chunk
  add_all_grows [] p q h = ground arith
  add_all_grows ((id, d) ∷ items) p q h =
      let (r, first, rest) = >>=-eq-ok (add_chunk zlib id d p) (add_all items) h in
      let (c, made, is) = add_chunk-eq-ok id d p r first in
      let longer : length r.data_section ≡ length (p.data_section ++ c) =
        ap (λ (t : PackFile). length t.data_section) (sym is) in
      omega (arith, add_all_grows items r q rest, length-append p.data_section c)

  pub add_all-Holds :
      (items : List (ChunkId × Bytes)) (f : ChunkId → Option Bytes) (p q : PackFile)
      → add_all items p ≡ ok q
      → length q.data_section < 2 ^ 32
      → Holds f p
      → Holds (put_all items f) q
  unfolding append_chunk
  add_all-Holds [] f p q h small v = let is : p ≡ q = cc in subst (Holds f) is v
  add_all-Holds ((id, d) ∷ items) f p q h small v =
      let (r, first, rest) = >>=-eq-ok (add_chunk zlib id d p) (add_all items) h in
      let (c, made, is) = add_chunk-eq-ok id d p r first in
      let longer : length r.data_section ≡ length (p.data_section ++ c) =
        ap (λ (t : PackFile). length t.data_section) (sym is) in
      let step =
        append_chunk-Holds id d c f p made (omega (arith, add_all_grows items r q rest)) v in
      add_all-Holds items (put id d f) r q rest small (subst (Holds (put id d f)) is step)

  -- If the library compresses every chunk of a series, the series of `add_chunk` calls succeeds.
  pub add_all_total :
      ((d : Bytes) → (c : Bytes) × (zlib.compress d ≡ some c))
      → (items : List (ChunkId × Bytes)) (p : PackFile) → (q : PackFile) × (add_all items p ≡ ok q)
  unfolding add_chunk compress_data
  add_all_total all [] p = (p, refl)
  add_all_total all ((id, d) ∷ items) p =
      let (c, made) = all d in
      let (q, run) = add_all_total all items (append_chunk zlib id d c p) in (q, rw made run)

  -- After a series of `add_chunk` calls on a new pack that end with less than 2^32 bytes of data,
  -- `get_chunk` returns for every id the data last added under it, and an error for an id never added.
  pub get_chunk-add_all :
      (items : List (ChunkId × Bytes)) (pack_id : PackId) (now : ℕ) (q : PackFile)
      → add_all items (new pack_id now) ≡ ok q
      → length q.data_section < 2 ^ 32
      → (k : ChunkId)
      → get_chunk zlib k q
        ≡ ok_or (put_all items (λ j. none) k) (Error.other "Chunk not found in pack")
  get_chunk-add_all items pack_id now q h small =
      get_chunk-Holds _ q
        (add_all-Holds items (λ j. none) (new pack_id now) q h small (new-Holds pack_id now))
