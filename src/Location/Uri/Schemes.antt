-- ===== src/Location/Uri/Schemes.antt =====
-- How an input is parsed by its scheme, and its parts by their slashes.
use Prim.Native.Char.{Char, code}
use Prim.Native.String.{◌++◌}
use text.Mathlib.TextLemmas.{append_assoc}
use ghostsnap.Prelude.{
  ℕ, ◌≡◌, refl, ap, ◌∙◌, String, true, false, Option, none, some, ◌==◌, string_eq, nat_beq,
  Bool-cases, inl, inr, strip_prefix, split_once, trim_end_code, first_code, is_empty_text,
}
use mathlib.Core.Path.{subst}
use ghostsnap.Errors.{Error, Result, ok}
use ghostsnap.Location.{RepositoryLocation, local}
use ghostsnap.Location.Uri.{
  trim_slashes, with_path, or_whole, split_bucket_prefix, parse, try_scheme, parse_s3_location,
  parse_azure_location, parse_rclone_location, parse_sftp_location,
}
use ghostsnap.Location.Uri.Parts.{
  Lacks, IsFilled, filled-ne-empty, filled-append, first_code-append_filled, first_code-Lacks,
  strip_prefix-append, strip_prefix_self, strip_prefix_apart, split_once-append, split_once-Lacks,
  trim_start_code_apart, trim_end_code-Lacks, trim_end_code-append,
}

-- A part between slashes.
pub record IsPart (s : String) : Type 0 where
  pub filled : IsFilled s
  pub whole : Lacks b'/' s

abbrev pub EndsWell : String → Type 0
EndsWell s = trim_end_code b'/' s ≡ s

is_empty-eq : (s : String) → is_empty_text s ≡ true → s ≡ ""
is_empty-eq String.[] h = refl
is_empty-eq (String.◌∷◌ c s) h = cc

module _ (head tail : String) (part : IsPart head) where
  pub filled-with_path : IsFilled (with_path head tail)
  filled-with_path = elim (Bool-cases (tail == "")) [
    | inl e ↦ rw e part.filled
    | inr e ↦ rw e (filled-append head ("/" ++ tail) part.filled)
  ]

  pub first_code-with_path : first_code (with_path head tail) ≡ first_code head
  first_code-with_path = elim (Bool-cases (tail == "")) [
    | inl e ↦ rw e refl
    | inr e ↦ rw e (first_code-append_filled head ("/" ++ tail) part.filled)
  ]

  pub split_once-with_path :
      or_whole (with_path head tail) (split_once b'/' (with_path head tail)) ≡ (head, tail)
  split_once-with_path = elim (Bool-cases (tail == "")) [
    | inl e ↦
        let is : tail ≡ "" = (string_eq.beq_iff tail "").0 e in
        rw e (rw (split_once-Lacks b'/' head part.whole, is) refl)
    | inr e ↦ rw e (rw (split_once-append "/" head tail part.whole) refl)
  ]

  pub EndsWell-with_path : EndsWell tail → EndsWell (with_path head tail)
  EndsWell-with_path h = elim (Bool-cases (tail == "")) [
    | inl e ↦ rw e (trim_end_code-Lacks b'/' head part.whole)
    | inr e ↦
        let long : IsFilled tail = elim (Bool-cases (is_empty_text tail)) [
          | inl f ↦ absurd (cc (e, (string_eq.beq_iff tail "").1 (is_empty-eq tail f)))
          | inr f ↦ f
        ] in
        rw e (
          subst EndsWell (append_assoc head "/" tail)
            (trim_end_code-append b'/' (head ++ "/") tail long h))
  ]

  pub trim_slashes-with_path :
      EndsWell tail → trim_slashes (with_path head tail) ≡ with_path head tail
  trim_slashes-with_path h =
      let apart = first_code-Lacks b'/' head part.filled part.whole in
      let start : nat_beq (first_code (with_path head tail)) b'/' ≡ false =
        ap (λ c. nat_beq c b'/') first_code-with_path ∙ apart in
      ap (trim_end_code b'/') (trim_start_code_apart b'/' (with_path head tail) start)
      ∙ EndsWell-with_path h

  pub split_bucket_prefix-with_path :
      (failure : Error)
      → EndsWell tail
      → split_bucket_prefix failure (with_path head tail) ≡ ok (head, tail)
  unfolding split_bucket_prefix
  split_bucket_prefix-with_path failure h =
      rw
        (
          trim_slashes-with_path h,
          split_once-with_path,
          filled-ne-empty (with_path head tail) filled-with_path,
          filled-ne-empty head part.filled,
        )
        refl

  -- No scheme with two slashes stands before such a text.
  pub strip_prefix_slashes :
      (scheme : String) → strip_prefix (scheme ++ "//") (scheme ++ with_path head tail) ≡ none
  strip_prefix_slashes scheme =
      strip_prefix-append scheme "//" (with_path head tail)
      ∙ strip_prefix_apart "/" "/" (with_path head tail) (
          ap (λ c. nat_beq c b'/') first_code-with_path
          ∙ first_code-Lacks b'/' head part.filled part.whole)

try_scheme-some :
    (scheme : String) (f : String → Result RepositoryLocation) (input rest : String)
    (otherwise : Result RepositoryLocation)
    → strip_prefix scheme input ≡ some rest
    → try_scheme scheme f input otherwise ≡ f rest
unfolding try_scheme
try_scheme-some scheme f input rest otherwise h = rw (h, try_scheme) refl

try_scheme-none :
    (scheme : String) (f : String → Result RepositoryLocation) (input : String)
    (otherwise : Result RepositoryLocation)
    → strip_prefix scheme input ≡ none
    → try_scheme scheme f input otherwise ≡ otherwise
unfolding try_scheme
try_scheme-none scheme f input otherwise h = rw (h, try_scheme) refl

-- A scheme with another first letter.
apart :
    (c : Char) (p name rest : String)
    → IsFilled name
    → nat_beq (first_code name) (code c) ≡ false
    → strip_prefix (String.◌∷◌ c p) (name ++ rest) ≡ none
apart c p name rest f h =
    strip_prefix_apart c p (name ++ rest)
      (ap (λ k. nat_beq k (code c)) (first_code-append_filled name rest f) ∙ h)

-- And one that begins with the same letter.
sftp-apart :
    (q rest : String)
    → nat_beq (first_code q) b'3' ≡ true
    → strip_prefix ("s" ++ q) ("sftp:" ++ rest) ≡ strip_prefix q ("ftp:" ++ rest)
sftp-apart q rest h =
    ap (strip_prefix ("s" ++ q)) (append_assoc "s" "ftp:" rest)
    ∙ strip_prefix-append "s" q ("ftp:" ++ rest)

module _ (var : String → Option String) (rest : String) where
  pub parse_s3 :
      strip_prefix "s3://" ("s3:" ++ rest) ≡ none
      → parse var ("s3:" ++ rest) ≡ parse_s3_location rest
  unfolding parse
  parse_s3 h =
      try_scheme-none "s3://" _ _ _ h
      ∙ try_scheme-some "s3:" _ _ rest _ (strip_prefix_self "s3:" rest)

  pub parse_azure :
      strip_prefix "azure://" ("azure:" ++ rest) ≡ none
      → parse var ("azure:" ++ rest) ≡ parse_azure_location rest
  unfolding parse
  parse_azure h =
      try_scheme-none "s3://" _ _ _ (apart "s" "3://" "azure:" rest refl refl)
      ∙ try_scheme-none "s3:" _ _ _ (apart "s" "3:" "azure:" rest refl refl)
      ∙ try_scheme-none "azure://" _ _ _ h
      ∙ try_scheme-some "azure:" _ _ rest _ (strip_prefix_self "azure:" rest)

  pub parse_rclone :
      strip_prefix "rclone://" ("rclone:" ++ rest) ≡ none
      → parse var ("rclone:" ++ rest) ≡ parse_rclone_location rest
  unfolding parse
  parse_rclone h =
      try_scheme-none "s3://" _ _ _ (apart "s" "3://" "rclone:" rest refl refl)
      ∙ try_scheme-none "s3:" _ _ _ (apart "s" "3:" "rclone:" rest refl refl)
      ∙ try_scheme-none "azure://" _ _ _ (apart "a" "zure://" "rclone:" rest refl refl)
      ∙ try_scheme-none "azure:" _ _ _ (apart "a" "zure:" "rclone:" rest refl refl)
      ∙ try_scheme-none "rclone://" _ _ _ h
      ∙ try_scheme-some "rclone:" _ _ rest _ (strip_prefix_self "rclone:" rest)

  pub parse_sftp :
      strip_prefix "sftp://" ("sftp:" ++ rest) ≡ none
      → parse var ("sftp:" ++ rest) ≡ parse_sftp_location rest
  unfolding parse
  parse_sftp h =
      try_scheme-none "s3://" _ _ _
        (sftp-apart "3://" rest refl ∙ apart "3" "://" "ftp:" rest refl refl)
      ∙ try_scheme-none "s3:" _ _ _
          (sftp-apart "3:" rest refl ∙ apart "3" ":" "ftp:" rest refl refl)
      ∙ try_scheme-none "azure://" _ _ _ (apart "a" "zure://" "sftp:" rest refl refl)
      ∙ try_scheme-none "azure:" _ _ _ (apart "a" "zure:" "sftp:" rest refl refl)
      ∙ try_scheme-none "rclone://" _ _ _ (apart "r" "clone://" "sftp:" rest refl refl)
      ∙ try_scheme-none "rclone:" _ _ _ (apart "r" "clone:" "sftp:" rest refl refl)
      ∙ try_scheme-none "b2://" _ _ _ (apart "b" "2://" "sftp:" rest refl refl)
      ∙ try_scheme-none "b2:" _ _ _ (apart "b" "2:" "sftp:" rest refl refl)
      ∙ try_scheme-none "minio://" _ _ _ (apart "m" "inio://" "sftp:" rest refl refl)
      ∙ try_scheme-none "minio:" _ _ _ (apart "m" "inio:" "sftp:" rest refl refl)
      ∙ try_scheme-none "sftp://" _ _ _ h
      ∙ try_scheme-some "sftp:" _ _ rest _ (strip_prefix_self "sftp:" rest)

  -- An absolute path.
  pub parse_local : first_code rest ≡ b'/' → parse var rest ≡ ok (local rest)
  unfolding parse
  parse_local h =
      let slash = λ (c : ℕ) (e : nat_beq b'/' c ≡ false).
        let t : nat_beq (first_code rest) c ≡ false = ap (λ k. nat_beq k c) h ∙ e in t in
      try_scheme-none "s3://" _ _ _ (strip_prefix_apart "s" "3://" rest (slash b's' refl))
      ∙ try_scheme-none "s3:" _ _ _ (strip_prefix_apart "s" "3:" rest (slash b's' refl))
      ∙ try_scheme-none "azure://" _ _ _ (strip_prefix_apart "a" "zure://" rest (slash b'a' refl))
      ∙ try_scheme-none "azure:" _ _ _ (strip_prefix_apart "a" "zure:" rest (slash b'a' refl))
      ∙ try_scheme-none "rclone://" _ _ _ (strip_prefix_apart "r" "clone://" rest (slash b'r' refl))
      ∙ try_scheme-none "rclone:" _ _ _ (strip_prefix_apart "r" "clone:" rest (slash b'r' refl))
      ∙ try_scheme-none "b2://" _ _ _ (strip_prefix_apart "b" "2://" rest (slash b'b' refl))
      ∙ try_scheme-none "b2:" _ _ _ (strip_prefix_apart "b" "2:" rest (slash b'b' refl))
      ∙ try_scheme-none "minio://" _ _ _ (strip_prefix_apart "m" "inio://" rest (slash b'm' refl))
      ∙ try_scheme-none "minio:" _ _ _ (strip_prefix_apart "m" "inio:" rest (slash b'm' refl))
      ∙ try_scheme-none "sftp://" _ _ _ (strip_prefix_apart "s" "ftp://" rest (slash b's' refl))
      ∙ try_scheme-none "sftp:" _ _ _ (strip_prefix_apart "s" "ftp:" rest (slash b's' refl))
