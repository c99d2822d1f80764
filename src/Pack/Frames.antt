-- ===== src/Pack/Frames.antt =====
-- The length-prefixed frames of a pack file: `u32::to_le_bytes`, `from_le_bytes` and `read_exact`.
use ghostsnap.Prelude.{
  ℕ, ◌+◌, ◌*◌, ◌/◌, ◌%◌, ◌^◌, ◌<◌, ◌≡◌, ◌∙◌, [], ◌∷◌, ◌++◌, arith, ltb, if◌then◌else◌, length, take,
  drop, take-append, drop-append, length-append, le→ltb_false, false,
}
use mathlib.Core.List.{append_assoc}
use ghostsnap.Errors.{Error, Result, ok, err, ◌>>=◌}
use ghostsnap.Foreign.{Bytes}

unfoldable pub to_le_bytes : ℕ → Bytes
to_le_bytes n = n % 256 ∷ (n / 2 ^ 8) % 256 ∷ (n / 2 ^ 16) % 256 ∷ (n / 2 ^ 24) % 256 ∷ []

unfoldable pub from_le_bytes : Bytes → ℕ
from_le_bytes [] = 0
from_le_bytes (x ∷ xs) = x + 256 * from_le_bytes xs

-- A cursor is the rest of the input.
unfoldable pub read_exact : ℕ → Bytes → Result (Bytes × Bytes)
read_exact n input =
    if ltb (length input) n
    then err (Error.other "failed to fill whole buffer")
    else ok (take n input, drop n input)

-- `(section.len() as u32).to_le_bytes()` and the section.
unfoldable pub write_frame : Bytes → Bytes
write_frame section = to_le_bytes (length section % 2 ^ 32) ++ section

unfoldable pub read_frame : Bytes → Result (Bytes × Bytes)
read_frame input = do (u32_buf, rest) ← read_exact 4 input; read_exact (from_le_bytes u32_buf) rest

pub from_le_bytes-to_le_bytes : (n : ℕ) → n < 2 ^ 32 → from_le_bytes (to_le_bytes n) ≡ n
unfolding to_le_bytes from_le_bytes
from_le_bytes-to_le_bytes n h = omega arith

pub length-write_frame : (section : Bytes) → length (write_frame section) ≡ length section + 4
unfolding write_frame to_le_bytes
length-write_frame section = omega arith

pub read_exact-append :
    (front back : Bytes) → read_exact (length front) (front ++ back) ≡ ok (front, back)
unfolding read_exact
read_exact-append front back =
    let long : ltb (length (front ++ back)) (length front) ≡ false =
      le→ltb_false _ _ (omega (arith, length-append front back)) in
    rw (long, take-append front back, drop-append front back)

-- A frame whose section has less than 2^32 bytes is read back, with what follows it left over.
pub read_frame-write_frame :
    (section rest : Bytes)
    → length section < 2 ^ 32
    → read_frame (write_frame section ++ rest) ≡ ok (section, rest)
unfolding read_frame write_frame
read_frame-write_frame section rest h =
    let n = length section % 2 ^ 32 in
    let size : from_le_bytes (to_le_bytes n) ≡ length section =
      from_le_bytes-to_le_bytes n (omega arith) ∙ omega arith in
    let head : read_exact 4 (to_le_bytes n ++ (section ++ rest))
        ≡ ok (to_le_bytes n, section ++ rest) =
      unfold to_le_bytes in read_exact-append (to_le_bytes n) (section ++ rest) in
    rw (append_assoc, head, size) (read_exact-append section rest)
