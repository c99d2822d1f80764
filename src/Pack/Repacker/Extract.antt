-- ===== src/Pack/Repacker/Extract.antt =====
-- `extract_chunks` copies exactly the chunks that are asked for and there, without a panic.
use ghostsnap.Prelude.{
  fun_ext, ℕ, ◌+◌, ◌%◌, ◌^◌, ◌<◌, ◌≡◌, refl, sym, ap, ◌∙◌, Option, none, some, List, [], ◌∷◌,
  string_eq, list_eq, arith, if◌then◌else◌, Option-cases, inl, inr, length, contains, Map, insert,
  ◌⊎◌, ◌≢◌, lookup, is_some,
}
use ghostsnap.Errors.{Error, Result, ok, ok_or, ◌>>=◌, >>=-eq-ok}
use ghostsnap.Foreign.{Bytes, Zlib}
use ghostsnap.Types.{ChunkId, PackId}
use ghostsnap.Pack
use ghostsnap.Pack.{PackFile, PackedChunk, slice, decompress_data, add_chunk, get_chunk, read_entry}
use ghostsnap.Pack.Contents.{
  Holds, add_all, put_all, put, read_entry_inside, get_chunk-add_all, add_chunk-eq-ok,
}
use ghostsnap.Pack.Repacker.{copy_entry, copy_chunks, extract_chunks, unless_empty}

abbrev pub with_data : ChunkId → Option Bytes → List (ChunkId × Bytes) → List (ChunkId × Bytes)
with_data id none items = items
with_data id (some d) items = (id, d) ∷ items

-- The chunks of `f` under the ids that are asked for.
abbrev pub wanted : (ChunkId → Option Bytes) → List ChunkId → List (ChunkId × Bytes)
wanted f [] = []
wanted f (id ∷ ids) = with_data id (f id) (wanted f ids)

abbrev pub restrict : List ChunkId → (ChunkId → Option Bytes) → ChunkId → Option Bytes
restrict ids f k = if contains k ids then f k else none

module _ (zlib : Zlib) where
  abbrev copy_to : Option Bytes → ChunkId → PackFile → Result PackFile
  copy_to none id p = ok p
  copy_to (some d) id p = add_chunk zlib id d p

  copy_entry-Holds :
      (f : ChunkId → Option Bytes) (source : PackFile)
      → Holds zlib f source
      → length source.data_section < 2 ^ 64
      → (id : ChunkId) (p : PackFile)
      → copy_entry zlib source id p (lookup id source.chunks) ≡ copy_to (f id) id p
  unfolding copy_entry
  copy_entry-Holds f source h small id p = elim (Option-cases (f id)) [
    | inl e ↦ rw (h.absent id e, e)
    | inr (d, e) ↦
        let (c, there, inside, reads) = h.entry id d e in
        let end : (c.offset + c.length) % 2 ^ 64 ≡ c.offset + c.length = omega arith in
        let (compressed, sliced, opened) =
          >>=-eq-ok (slice c.offset (c.offset + c.length) source.data_section)
            (decompress_data zlib)
            (sym (read_entry_inside zlib c source.data_section inside small) ∙ reads) in
        rw (there, e, end, sliced, opened)
  ]

  copy_chunks-eq-add_all :
      (f : ChunkId → Option Bytes) (source : PackFile)
      → Holds zlib f source
      → length source.data_section < 2 ^ 64
      → (ids : List ChunkId) (p : PackFile)
      → copy_chunks zlib source ids p ≡ add_all zlib (wanted f ids) p
  unfolding copy_chunks
  copy_chunks-eq-add_all f source h small [] p = refl
  copy_chunks-eq-add_all f source h small (id ∷ ids) p =
      let head = copy_entry-Holds f source h small id p in
      elim (Option-cases (f id)) [
        | inl e ↦ rw (head, e) (copy_chunks-eq-add_all f source h small ids p)
        | inr (d, e) ↦
            rw (head, e)
              (ap (λ r. add_chunk zlib id d p >>= r)
                (fun_ext (copy_chunks-eq-add_all f source h small ids)))
      ]

put_all-wanted :
    (f g : ChunkId → Option Bytes) (ids : List ChunkId) (k : ChunkId)
    → put_all (wanted f ids) g k
      ≡ (if contains k ids then (if is_some (f k) then f k else g k) else g k)
put_all-wanted f g [] k = refl
put_all-wanted f g (id ∷ ids) k = elim (Option-cases (f id)) [
  | inl e ↦ rw e (ground (arith, put_all-wanted f g ids k, list_eq.beq_iff id k))
  | inr (d, e) ↦ rw e (ground (arith, put_all-wanted f (put id d g) ids k, list_eq.beq_iff id k))
]

restrict-wanted :
    (f : ChunkId → Option Bytes) (ids : List ChunkId)
    → put_all (wanted f ids) (λ k. none) ≡ restrict ids f
restrict-wanted f ids = fun_ext (λ k. put_all-wanted f (λ j. none) ids k ∙ ground arith)

module _ (zlib : Zlib) where
  -- What comes out of `extract_chunks` and what it means.
  abbrev pub Extracted : List ChunkId → (ChunkId → Option Bytes) → Option PackFile → Type 0
  Extracted ids f none = (k : ChunkId) → restrict ids f k ≡ none
  Extracted ids f (some q) =
      length q.data_section < 2 ^ 32
      → (k : ChunkId)
      → get_chunk zlib k q ≡ ok_or (restrict ids f k) (Error.other "Chunk not found in pack")

  -- A pack to which a chunk was added has a table of contents.
  add_all-ne-nil :
      (items : List (ChunkId × Bytes)) (p q : PackFile)
      → add_all zlib items p ≡ ok q
      → (items ≢ []) ⊎ (p.chunks ≢ [])
      → q.chunks ≢ []
  unfolding Pack.append_chunk
  add_all-ne-nil [] p q h some_chunk =
      let is : p ≡ q = cc in
      λ none_left. elim some_chunk [
        | inl e ↦ e refl
        | inr e ↦ e (ap (λ (t : PackFile). t.chunks) is ∙ none_left)
      ]
  add_all-ne-nil ((id, d) ∷ items) p q h some_chunk =
      let (r, first, rest) = >>=-eq-ok (add_chunk zlib id d p) (add_all zlib items) h in
      let (c, made, is) = add_chunk-eq-ok zlib id d p r first in
      add_all-ne-nil items r q rest
        (inr (λ e. insert-ne-nil _ p.chunks (ap (λ (t : PackFile). t.chunks) is ∙ e)))
    where
      insert-ne-nil : (v : PackedChunk) (m : Map ChunkId PackedChunk) → insert id v m ≢ []
      insert-ne-nil v [] e = cc
      insert-ne-nil v ((j, w) ∷ m) e = ground arith

  unless_empty_cases :
      (q : PackFile) (table : Map ChunkId PackedChunk) (o : Option PackFile)
      → unless_empty q table ≡ ok o
      → ((o ≡ none) × (table ≡ [])) ⊎ (o ≡ some q)
  unless_empty_cases q [] o h = inl (cc, refl)
  unless_empty_cases q (_ ∷ _) o h = inr (cc)

  wanted-eq-nil :
      (f : ChunkId → Option Bytes) (ids : List ChunkId)
      → wanted f ids ≡ []
      → (k : ChunkId) → restrict ids f k ≡ none
  wanted-eq-nil f ids e k =
      sym (ap (λ (g : ChunkId → Option Bytes). g k) (restrict-wanted f ids)) ∙ rw e

  nothing_left :
      (items : List (ChunkId × Bytes)) (p q : PackFile)
      → add_all zlib items p ≡ ok q
      → q.chunks ≡ []
      → items ≡ []
  nothing_left [] p q h e = refl
  nothing_left (x ∷ items) p q h e = absurd (add_all-ne-nil (x ∷ items) p q h (inl (λ t. cc)) e)

  -- From a source pack that holds `f` in less than 2^64 bytes, if `extract_chunks` returns a new pack
  -- of less than 2^32 bytes, then it holds `f` at the ids asked for and nothing else; if it returns
  -- none, then the source holds none of them.
  pub extract_chunks-Extracted :
      (f : ChunkId → Option Bytes) (source : PackFile)
      → Holds zlib f source
      → length source.data_section < 2 ^ 64
      → (pack_id : PackId) (now : ℕ) (ids : List ChunkId) (o : Option PackFile)
      → extract_chunks zlib pack_id now source ids ≡ ok o
      → Extracted ids f o
  unfolding extract_chunks
  extract_chunks-Extracted f source h small pack_id now [] o e =
      let is : o ≡ none = cc in rw is (λ k. refl)
  extract_chunks-Extracted f source h small pack_id now (id ∷ ids) o e =
      let start = Pack.new pack_id now in
      let (q, run, picked) =
        >>=-eq-ok (copy_chunks zlib source (id ∷ ids) start) (λ t. unless_empty t t.chunks) e in
      let added : add_all zlib (wanted f (id ∷ ids)) start ≡ ok q =
        sym (copy_chunks-eq-add_all zlib f source h small (id ∷ ids) start) ∙ run in
      elim (unless_empty_cases q q.chunks o picked) [
        | inl (is, empty) ↦
            rw is
              (wanted-eq-nil f (id ∷ ids) (nothing_left (wanted f (id ∷ ids)) start q added empty))
        | inr is ↦ rw is (λ small' k.
            get_chunk-add_all zlib (wanted f (id ∷ ids)) pack_id now q added small' k
            ∙ ap
                (λ (g : ChunkId → Option Bytes).
                  ok_or (g k) (Error.other "Chunk not found in pack"))
                (restrict-wanted f (id ∷ ids)))
      ]
