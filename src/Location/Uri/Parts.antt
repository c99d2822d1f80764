-- ===== src/Location/Uri/Parts.antt =====
-- How the methods of `str` take apart a text that was put together.
use Prim.Native.Char.{Char, code}
use Prim.Native.String.{◌++◌}
use text.Mathlib.TextLemmas.{nil-append, cons-append, append-nil}
use ghostsnap.Prelude.{
  ℕ, zero, suc, ◌+◌, ◌-◌, ◌*◌, ◌/◌, ◌%◌, ◌<◌, ◌≡◌, refl, ap, ◌∙◌, sym, String, Bool, true, false,
  ◌||◌, ◌&&◌, none, some, ◌==◌, string_eq, nat_beq, arith, Bool-cases, inl, inr, is_empty_text,
  has_code, strip_prefix, split_once, rsplit_once, trim_start_code, trim_end_code, first_code,
  digit, print_decimal, parse_below, ltb, leb,
}

abbrev pub Lacks : ℕ → String → Type 0
Lacks c s = has_code c s ≡ false

abbrev pub IsFilled : String → Type 0
IsFilled s = is_empty_text s ≡ false

pub filled-ne-empty : (s : String) → IsFilled s → (s == "") ≡ false
filled-ne-empty s h = elim (Bool-cases (s == "")) [
  | inl e ↦ absurd (cc (ap is_empty_text ((string_eq.beq_iff s "").0 e), h))
  | inr e ↦ e
]

pub filled-append : (s t : String) → IsFilled s → IsFilled (s ++ t)
filled-append String.[] t h = absurd (cc)
filled-append (String.◌∷◌ c s) t h = rw (cons-append c s t) refl

pub filled-append_right : (s t : String) → IsFilled t → IsFilled (s ++ t)
filled-append_right String.[] t h = rw (nil-append t) h
filled-append_right (String.◌∷◌ c s) t h = rw (cons-append c s t) refl

pub first_code-append_filled : (s t : String) → IsFilled s → first_code (s ++ t) ≡ first_code s
first_code-append_filled String.[] t h = absurd (cc)
first_code-append_filled (String.◌∷◌ c s) t h = rw (cons-append c s t) refl

pub first_code-Lacks :
    (c : ℕ) (s : String) → IsFilled s → Lacks c s → nat_beq (first_code s) c ≡ false
first_code-Lacks c String.[] f h = absurd (cc)
first_code-Lacks c (String.◌∷◌ d s) f h = ground (arith, h)

pub has_code-append : (c : ℕ) (s t : String) → has_code c (s ++ t) ≡ (has_code c s || has_code c t)
has_code-append c String.[] t = rw (nil-append t) refl
has_code-append c (String.◌∷◌ d s) t =
    rw (cons-append d s t) (ground (arith, has_code-append c s t))

pub strip_prefix-append : (p q s : String) → strip_prefix (p ++ q) (p ++ s) ≡ strip_prefix q s
strip_prefix-append String.[] q s = rw (nil-append q, nil-append s) refl
strip_prefix-append (String.◌∷◌ c p) q s =
    rw (cons-append c p q, cons-append c p s) (ground (arith, strip_prefix-append p q s))

pub strip_prefix_self : (p s : String) → strip_prefix p (p ++ s) ≡ some s
strip_prefix_self p s =
    ap (λ q. strip_prefix q (p ++ s)) (sym (append-nil p)) ∙ strip_prefix-append p "" s

pub strip_prefix_apart :
    (c : Char) (p s : String)
    → nat_beq (first_code s) (code c) ≡ false
    → strip_prefix (String.◌∷◌ c p) s ≡ none
strip_prefix_apart c p String.[] h = refl
strip_prefix_apart c p (String.◌∷◌ d s) h = ground (arith, h)

pub split_once-append :
    (d : Char) (s t : String)
    → Lacks (code d) s
    → split_once (code d) (s ++ (String.◌∷◌ d String.[] ++ t)) ≡ some (s, t)
split_once-append d String.[] t h =
    rw (nil-append (String.◌∷◌ d String.[] ++ t), cons-append d String.[] t, nil-append t)
      (ground arith)
split_once-append d (String.◌∷◌ e s) t h =
    rw (cons-append e s (String.◌∷◌ d String.[] ++ t)) (ground (arith, h, split_once-append d s t))

pub split_once-Lacks : (c : ℕ) (s : String) → Lacks c s → split_once c s ≡ none
split_once-Lacks c String.[] h = refl
split_once-Lacks c (String.◌∷◌ d s) h = ground (arith, h, split_once-Lacks c s)

pub rsplit_once-Lacks : (c : ℕ) (s : String) → Lacks c s → rsplit_once c s ≡ none
rsplit_once-Lacks c String.[] h = refl
rsplit_once-Lacks c (String.◌∷◌ d s) h = ground (arith, h, rsplit_once-Lacks c s)

pub rsplit_once-append :
    (d : Char) (s t : String)
    → Lacks (code d) t
    → rsplit_once (code d) (s ++ (String.◌∷◌ d String.[] ++ t)) ≡ some (s, t)
rsplit_once-append d String.[] t h =
    rw (nil-append (String.◌∷◌ d String.[] ++ t), cons-append d String.[] t, nil-append t)
      (rw (rsplit_once-Lacks (code d) t h) (ground arith))
rsplit_once-append d (String.◌∷◌ e s) t h =
    rw (cons-append e s (String.◌∷◌ d String.[] ++ t)) (ground (arith, h, rsplit_once-append d s t))

pub trim_start_code_apart :
    (c : ℕ) (s : String) → nat_beq (first_code s) c ≡ false → trim_start_code c s ≡ s
trim_start_code_apart c String.[] h = refl
trim_start_code_apart c (String.◌∷◌ d s) h = ground (arith, h)

pub trim_end_code-Lacks : (c : ℕ) (s : String) → Lacks c s → trim_end_code c s ≡ s
trim_end_code-Lacks c String.[] h = refl
trim_end_code-Lacks c (String.◌∷◌ d s) h = ground (arith, h, trim_end_code-Lacks c s)

pub trim_end_code-append :
    (c : ℕ) (s t : String) → IsFilled t → trim_end_code c t ≡ t → trim_end_code c (s ++ t) ≡ s ++ t
trim_end_code-append c String.[] t f h = rw (nil-append t) h
trim_end_code-append c (String.◌∷◌ d s) t f h =
    rw (cons-append d s t)
      (ground (arith, trim_end_code-append c s t f h, filled-append_right s t f))

code-digit : (n : ℕ) → n < 10 → code (digit n) ≡ n + 48
code-digit zero h = omega (arith, h)
code-digit (suc zero) h = omega (arith, h)
code-digit (suc (suc zero)) h = omega (arith, h)
code-digit (suc (suc (suc zero))) h = omega (arith, h)
code-digit (suc (suc (suc (suc zero)))) h = omega (arith, h)
code-digit (suc (suc (suc (suc (suc zero))))) h = omega (arith, h)
code-digit (suc (suc (suc (suc (suc (suc zero)))))) h = omega (arith, h)
code-digit (suc (suc (suc (suc (suc (suc (suc zero))))))) h = omega (arith, h)
code-digit (suc (suc (suc (suc (suc (suc (suc (suc zero)))))))) h = omega (arith, h)
code-digit (suc (suc (suc (suc (suc (suc (suc (suc (suc n))))))))) h = omega (arith, h)

-- So many digits are enough for the number.
abbrev pub fits : ℕ → ℕ → Bool
fits zero n = false
fits (suc fuel) n = ltb n 10 || fits fuel (n / 10)

parse_below-digit :
    (limit acc m : ℕ) (rest : String)
    → m < 10
    → acc * 10 + m < limit
    → parse_below limit acc (String.◌∷◌ (digit m) rest) ≡ parse_below limit (acc * 10 + m) rest
parse_below-digit limit acc m rest h l =
    let is : m + 48 - 48 ≡ m = omega arith in rw (code-digit m h, is) (ground (arith, h, l))

-- The digits of a number are read to the number, whatever follows them.
pub parse_below-print_decimal :
    (limit fuel n : ℕ) (rest : String)
    → fits fuel n ≡ true
    → n < limit
    → parse_below limit 0 (print_decimal fuel n rest) ≡ parse_below limit n rest
unfolding print_decimal
parse_below-print_decimal limit zero n rest h l = absurd (ground (arith, h))
parse_below-print_decimal limit (suc fuel) n rest h l = elim (Bool-cases (ltb n 10)) [
  | inl e ↦
      let small : n % 10 ≡ n = ground (arith, e) in
      let value : 0 * 10 + n ≡ n = omega arith in
      rw (e, small)
        (parse_below-digit limit 0 n rest (ground (arith, e)) (omega (arith, l))
          ∙ ap (λ m. parse_below limit m rest) value)
  | inr e ↦
      let more = String.◌∷◌ (digit (n % 10)) rest in
      let back : n / 10 * 10 + n % 10 ≡ n = omega arith in
      rw e (
        parse_below-print_decimal limit fuel (n / 10) more (ground (arith, h, e)) (omega (arith, l))
        ∙ parse_below-digit limit (n / 10) (n % 10) rest (omega arith) (omega (arith, l, back))
        ∙ ap (λ m. parse_below limit m rest) back)
]

-- No sign is among the digits, and there is one at least.
pub Lacks-print_decimal :
    (c fuel n : ℕ) (rest : String)
    → leb 48 c && leb c 57 ≡ false
    → Lacks c rest
    → Lacks c (print_decimal fuel n rest)
unfolding print_decimal
Lacks-print_decimal c zero n rest h r = r
Lacks-print_decimal c (suc fuel) n rest h r =
    let m : n % 10 < 10 = omega arith in
    let here : Lacks c (String.◌∷◌ (digit (n % 10)) rest) =
      rw (code-digit (n % 10) m) (ground (arith, h, r)) in
    elim (Bool-cases (ltb n 10)) [
      | inl e ↦ rw e here
      | inr e ↦ rw e (Lacks-print_decimal c fuel (n / 10) _ h here)
    ]

pub filled-print_decimal :
    (fuel n : ℕ) (rest : String) → IsFilled rest → IsFilled (print_decimal fuel n rest)
unfolding print_decimal
filled-print_decimal zero n rest h = h
filled-print_decimal (suc fuel) n rest h = elim (Bool-cases (ltb n 10)) [
  | inl e ↦ rw e refl
  | inr e ↦ rw e (filled-print_decimal fuel (n / 10) _ refl)
]
