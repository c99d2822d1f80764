-- ===== src/Chunker.antt =====
-- core/src/chunker.rs: the cut of a file into chunks, over the crate fastcdc.
use ghostsnap.Prelude.{
  ℕ, zero, suc, ◌+◌, ◌*◌, ◌/◌, ◌-◌, ◌%◌, ◌^◌, ◌≤◌, ◌≡◌, sym, le→ltb_false, refl, ap, ◌∙◌, List, [],
  ◌∷◌, ◌++◌, arith, length, take, drop, ltb, false, true, Bool, Bool-cases, inl, inr, if◌then◌else◌,
}
use mathlib.Core.Path.{subst}
use ghostsnap.Errors.{Result, ok, panic, ◌>>=◌}
use ghostsnap.Foreign.{Bytes, Hasher}
use ghostsnap.Types.{ChunkId}
use ghostsnap.Pack.{slice}

-- Offsets and lengths that follow one another from one position to another.
abbrev pub Covers : ℕ → ℕ → List (ℕ × ℕ) → Type 0
Covers from to [] = from ≡ to
Covers from to ((offset, size) ∷ cuts) =
    (offset ≡ from) × (from + size ≤ to) × Covers (from + size) to cuts

-- The constructor asserts its bounds on the three sizes, which is a panic where they do not hold. With
-- sizes that it accepts the cuts are consecutive and cover the data.
pub record FastCdc : Type 0 where
  pub accepts : ℕ → ℕ → ℕ → Bool
  pub cut : Bytes → ℕ → ℕ → ℕ → List (ℕ × ℕ)
  pub covers :
      (bytes : Bytes) (low avg high : ℕ)
      → accepts low avg high ≡ true
      → Covers 0 (length bytes) (cut bytes low avg high)

pub record Chunker : Type 0 where
  pub min_size : ℕ
  pub avg_size : ℕ
  pub max_size : ℕ

pub record Chunk : Type 0 where
  pub offset : ℕ
  pub length : ℕ
  pub bytes : Bytes

-- The product wraps, as in a release build.
unfoldable pub new : ℕ → Chunker
new avg_size = record {
  min_size = avg_size / 4;
  avg_size = avg_size;
  max_size = avg_size * 4 % 2 ^ 32;
}

unfoldable pub new_default : Chunker
unfolding new
new_default = new (4 * 1024 * 1024)

unfoldable pub id : Hasher → Chunk → ChunkId
id hasher c = hasher.hash c.bytes

unfoldable pub cut_out : Bytes → List (ℕ × ℕ) → Result (List Chunk)
cut_out bytes [] = ok []
cut_out bytes ((offset, size) ∷ cuts) = do
  part ← slice offset (offset + size) bytes
  chunks ← cut_out bytes cuts
  ok ((record { offset = offset; length = size; bytes = part }) ∷ chunks)

unfoldable pub chunk_data : FastCdc → Chunker → Bytes → Result (List Chunk)
unfolding cut_out
chunk_data fastcdc c bytes =
    if fastcdc.accepts c.min_size c.avg_size c.max_size
    then cut_out bytes (fastcdc.cut bytes c.min_size c.avg_size c.max_size)
    else panic

abbrev pub concat : List Chunk → Bytes
concat [] = []
concat (c ∷ cs) = c.bytes ++ concat cs

take-drop : (n : ℕ) (xs : Bytes) → take n xs ++ drop n xs ≡ xs
take-drop zero xs = refl
take-drop (suc n) [] = refl
take-drop (suc n) (x ∷ xs) = ap (λ t. x ∷ t) (take-drop n xs)

drop_nil : (n : ℕ) → drop {A = ℕ} n [] ≡ []
drop_nil zero = refl
drop_nil (suc n) = refl

drop-drop : (m n : ℕ) (xs : Bytes) → drop n (drop m xs) ≡ drop (m + n) xs
drop-drop zero n xs = ap (λ k. drop k xs) (omega arith)
drop-drop (suc m) n [] = drop_nil n ∙ sym (drop_nil (suc m + n))
drop-drop (suc m) n (x ∷ xs) =
    let count : suc (m + n) ≡ suc m + n = omega arith in
    drop-drop m n xs ∙ ap (λ k. drop k (x ∷ xs)) count

drop_length : (xs : Bytes) → drop (length xs) xs ≡ []
drop_length [] = refl
drop_length (x ∷ xs) = drop_length xs

-- What a cut of consecutive parts from a position on amounts to.
record IsCut (bytes : Bytes) (from : ℕ) (outcome : Result (List Chunk)) : Type 0 where
  chunks : List Chunk
  is : outcome ≡ ok chunks
  whole : concat chunks ≡ drop from bytes

slice_lem :
    (from size : ℕ) (bytes : Bytes)
    → from + size ≤ length bytes
    → slice from (from + size) bytes ≡ ok (take size (drop from bytes))
unfolding slice
slice_lem from size bytes h =
    let low : ltb (from + size) from ≡ false = le→ltb_false _ _ (omega arith) in
    let high : ltb (length bytes) (from + size) ≡ false = le→ltb_false _ _ h in
    let count : from + size - from ≡ size = omega arith in rw (low, high, count) refl

cut_out-IsCut :
    (bytes : Bytes) (from : ℕ) (cuts : List (ℕ × ℕ))
    → Covers from (length bytes) cuts
    → IsCut bytes from (cut_out bytes cuts)
unfolding cut_out
cut_out-IsCut bytes from [] h = record {
  chunks = [];
  is = refl;
  whole = rw h (sym (drop_length bytes));
}
cut_out-IsCut bytes from ((offset, size) ∷ cuts) h =
    let rest = cut_out-IsCut bytes (from + size) cuts h.2 in
    let part = take size (drop from bytes) in
    record {
      chunks = (record { offset = from; length = size; bytes = part }) ∷ rest.chunks;
      is = rw (h.0, slice_lem from size bytes h.1, rest.is) refl;
      whole =
          ap (λ t. part ++ t) (rest.whole ∙ sym (drop-drop from size bytes))
          ∙ take-drop size (drop from bytes);
    }

ok-eq : {A : Type 0} {a a' : A} → ok a ≡ ok a' → a ≡ a'
ok-eq h = cc

-- The chunks that `chunk_data` returns are, one after the other, the data.
pub concat-chunk_data :
    (fastcdc : FastCdc) (c : Chunker) (bytes : Bytes) (chunks : List Chunk)
    → chunk_data fastcdc c bytes ≡ ok chunks
    → concat chunks ≡ bytes
unfolding chunk_data
concat-chunk_data fastcdc c bytes chunks h =
    let cuts = fastcdc.cut bytes c.min_size c.avg_size c.max_size in
    elim (Bool-cases (fastcdc.accepts c.min_size c.avg_size c.max_size)) [
      | inl e ↦
          let cut =
            cut_out-IsCut bytes 0 cuts (fastcdc.covers bytes c.min_size c.avg_size c.max_size e) in
          let made : cut_out bytes cuts ≡ ok chunks = rw e at h in
          let same : cut.chunks ≡ chunks = ok-eq (sym cut.is ∙ made) in
          subst (λ cs. concat cs ≡ bytes) same cut.whole
      | inr e ↦ absurd (ground (arith, h, e))
    ]

-- With sizes that the crate accepts it returns chunks.
chunk_data-accepts :
    (fastcdc : FastCdc) (c : Chunker) (bytes : Bytes)
    → fastcdc.accepts c.min_size c.avg_size c.max_size ≡ true
    → (chunks : List Chunk) × (chunk_data fastcdc c bytes ≡ ok chunks)
unfolding chunk_data
chunk_data-accepts fastcdc c bytes e =
    let cut =
      cut_out-IsCut bytes 0 (fastcdc.cut bytes c.min_size c.avg_size c.max_size)
        (fastcdc.covers bytes c.min_size c.avg_size c.max_size e) in
    (cut.chunks, rw e cut.is)
