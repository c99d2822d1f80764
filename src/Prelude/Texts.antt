-- ===== src/Prelude/Texts.antt =====
-- The methods of `str` that the program calls: trimming, a last character taken off, and parsing of a
-- `u64`. A text is read by the codes of its characters.
use Prim.Native.Nat.{ℕ, zero, suc, ◌+◌, ◌-◌, ◌*◌, ◌^◌, ◌/◌, ◌%◌}
use Prim.Native.Char.{Char, code}
use Prim.Native.String.{String, ◌++◌}
use text.Mathlib.TextLemmas.{native_laws}
use mathlib.Core.Path.{◌≡◌, ap}
use mathlib.Core.Bool.{Bool, true, false, ◌&&◌, ◌||◌}
use mathlib.Core.Option.{Option, none, some}
use ghostsnap.Prelude.Tests.{ltb, leb, if◌then◌else◌}
use ghostsnap.Prelude.Equality.{nat_beq, ◌==◌, string_eq}

-- `char::is_whitespace`: the code points with the property White_Space.
abbrev pub is_whitespace : ℕ → Bool
is_whitespace c =
    (leb 9 c && leb c 13)
    || nat_beq c 32
    || nat_beq c 133
    || nat_beq c 160
    || nat_beq c 5760
    || (leb 8192 c && leb c 8202)
    || nat_beq c 8232
    || nat_beq c 8233
    || nat_beq c 8239
    || nat_beq c 8287
    || nat_beq c 12288

abbrev pub is_empty_text : String → Bool
is_empty_text String.[] = true
is_empty_text (String.◌∷◌ c s) = false

abbrev pub trim_start : String → String
trim_start String.[] = String.[]
trim_start (String.◌∷◌ c s) =
    let rest = trim_start s in if is_whitespace (code c) then rest else String.◌∷◌ c s

abbrev pub trim_end : String → String
trim_end String.[] = String.[]
trim_end (String.◌∷◌ c s) =
    let rest = trim_end s in
    if is_empty_text rest && is_whitespace (code c) then String.[] else String.◌∷◌ c rest

abbrev pub trim : String → String
trim s = trim_end (trim_start s)

-- `strip_suffix` with a character, which is given by its code.
abbrev pub strip_last : ℕ → String → Option String
strip_last c String.[] = none
strip_last c (String.◌∷◌ d String.[]) = if nat_beq (code d) c then some String.[] else none
strip_last c (String.◌∷◌ d (String.◌∷◌ d' s)) = elim (strip_last c (String.◌∷◌ d' s)) [
  | none ↦ none
  | some rest ↦ some (String.◌∷◌ d rest)
]

-- The digits of a number, from left to right; a number of 2^64 or more is refused.
abbrev pub parse_digits : ℕ → String → Option ℕ
parse_digits n String.[] = some n
parse_digits n (String.◌∷◌ c s) =
    let next = n * 10 + (code c - 48) in
    let rest = parse_digits next s in
    if leb 48 (code c) && leb (code c) 57 && ltb next (2 ^ 64) then rest else none

abbrev pub parse_nonempty : String → Option ℕ
parse_nonempty String.[] = none
parse_nonempty (String.◌∷◌ c s) = parse_digits 0 (String.◌∷◌ c s)

-- `str::parse::<u64>`, which allows a plus sign.
abbrev pub parse_u64 : String → Option ℕ
parse_u64 String.[] = none
parse_u64 (String.◌∷◌ c s) =
    if nat_beq (code c) 43 then parse_nonempty s else parse_digits 0 (String.◌∷◌ c s)

-- `ends_with` with a text that is not empty.
abbrev pub ends_with : String → String → Bool
ends_with suffix String.[] = false
ends_with suffix (String.◌∷◌ c s) = (String.◌∷◌ c s == suffix) || ends_with suffix s

-- `trim_end_matches` with a text that is not empty: it is taken off as often as it stands at the end.
abbrev pub trim_end_matches : String → String → String
trim_end_matches suffix String.[] = String.[]
trim_end_matches suffix (String.◌∷◌ c s) =
    let kept = String.◌∷◌ c (trim_end_matches suffix s) in
    if kept == suffix then String.[] else kept

-- Texts that begin with different characters are told apart by the codes of these.
abbrev pub first_code : String → ℕ
first_code String.[] = 0
first_code (String.◌∷◌ c s) = code c

pub first_code-append : (c : Char) (s t : String) → first_code (String.◌∷◌ c s ++ t) ≡ code c
first_code-append c s t = ap first_code (native_laws.cons-append c s t)

-- The methods of `str` on one character, which is given by its code.
abbrev pub has_code : ℕ → String → Bool
has_code c String.[] = false
has_code c (String.◌∷◌ d s) = nat_beq (code d) c || has_code c s

-- `strip_prefix`
abbrev pub strip_prefix : String → String → Option String
strip_prefix String.[] s = some s
strip_prefix (String.◌∷◌ c p) String.[] = none
strip_prefix (String.◌∷◌ c p) (String.◌∷◌ d s) =
    let rest = strip_prefix p s in if nat_beq (code c) (code d) then rest else none

-- `trim_start_matches` and `trim_end_matches`
abbrev pub trim_start_code : ℕ → String → String
trim_start_code c String.[] = String.[]
trim_start_code c (String.◌∷◌ d s) =
    let rest = trim_start_code c s in if nat_beq (code d) c then rest else String.◌∷◌ d s

abbrev pub trim_end_code : ℕ → String → String
trim_end_code c String.[] = String.[]
trim_end_code c (String.◌∷◌ d s) =
    let rest = trim_end_code c s in
    if is_empty_text rest && nat_beq (code d) c then String.[] else String.◌∷◌ d rest

abbrev pub with_first : Char → Option (String × String) → Option (String × String)
with_first d none = none
with_first d (some (s, t)) = some (String.◌∷◌ d s, t)

-- `split_once`
abbrev pub split_once : ℕ → String → Option (String × String)
split_once c String.[] = none
split_once c (String.◌∷◌ d s) =
    let rest = with_first d (split_once c s) in
    if nat_beq (code d) c then some (String.[], s) else rest

abbrev pub or_split : Option (String × String) → Option (String × String) → Option (String × String)
or_split none other = other
or_split (some found) other = some found

-- `rsplit_once`: at the last place.
abbrev pub rsplit_once : ℕ → String → Option (String × String)
rsplit_once c String.[] = none
rsplit_once c (String.◌∷◌ d s) =
    or_split (with_first d (rsplit_once c s))
      (if nat_beq (code d) c then some (String.[], s) else none)

-- `str::parse` of an unsigned number below a limit, which allows a plus sign.
abbrev pub parse_below : ℕ → ℕ → String → Option ℕ
parse_below limit n String.[] = some n
parse_below limit n (String.◌∷◌ c s) =
    let next = n * 10 + (code c - 48) in
    let rest = parse_below limit next s in
    if leb 48 (code c) && leb (code c) 57 && ltb next limit then rest else none

abbrev pub parse_some_below : ℕ → String → Option ℕ
parse_some_below limit String.[] = none
parse_some_below limit (String.◌∷◌ c s) = parse_below limit 0 (String.◌∷◌ c s)

abbrev pub parse_u16 : String → Option ℕ
parse_u16 String.[] = none
parse_u16 (String.◌∷◌ c s) =
    if nat_beq (code c) 43
    then parse_some_below (2 ^ 16) s
    else parse_below (2 ^ 16) 0 (String.◌∷◌ c s)

-- The decimal form of a number, in front of a text, with at most so many digits.
abbrev pub digit : ℕ → Char
digit zero = "0"
digit (suc zero) = "1"
digit (suc (suc zero)) = "2"
digit (suc (suc (suc zero))) = "3"
digit (suc (suc (suc (suc zero)))) = "4"
digit (suc (suc (suc (suc (suc zero))))) = "5"
digit (suc (suc (suc (suc (suc (suc zero)))))) = "6"
digit (suc (suc (suc (suc (suc (suc (suc zero))))))) = "7"
digit (suc (suc (suc (suc (suc (suc (suc (suc zero)))))))) = "8"
digit (suc (suc (suc (suc (suc (suc (suc (suc (suc n))))))))) = "9"

unfoldable pub print_decimal : ℕ → ℕ → String → String
print_decimal zero n rest = rest
print_decimal (suc fuel) n rest =
    let here = String.◌∷◌ (digit (n % 10)) rest in
    let more = print_decimal fuel (n / 10) here in if ltb n 10 then here else more
