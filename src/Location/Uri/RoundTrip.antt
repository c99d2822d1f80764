-- ===== src/Location/Uri/RoundTrip.antt =====
-- A location that was printed is parsed back.
use Prim.Native.String.{◌++◌}
use text.Mathlib.TextLemmas.{append_assoc}
use ghostsnap.Prelude.{
  ◌≡◌, refl, ap, ◌∙◌, sym, String, Option, ◌==◌, string_eq, Bool-cases, inl, inr, first_code,
}
use ghostsnap.Errors.{ok}
use ghostsnap.Location.{RepositoryLocation, local, s3, azure, rclone, sftp}
use ghostsnap.Location.Uri.{
  with_path, new_s3, display, parse, parse_s3_location, parse_azure_location, parse_rclone_location,
  display_s3, display_azure, display_rclone, display_sftp,
}
use ghostsnap.Location.Uri.Parts.{IsFilled, filled-ne-empty, filled-append, split_once-append}
use ghostsnap.Location.Uri.Schemes.{
  IsPart, EndsWell, filled-with_path, split_once-with_path, EndsWell-with_path,
  trim_slashes-with_path, split_bucket_prefix-with_path, strip_prefix_slashes, parse_s3,
  parse_azure, parse_rclone, parse_sftp, parse_local,
}
use ghostsnap.Location.Uri.Address.{
  IsAddress, authority, authority-IsPart, parse_sftp_location-with_path,
}

-- What can be printed without loss: names without slashes, a path that does not end in one, and nothing that
-- is not printed; locally an absolute path.
unfoldable pub IsPlain : RepositoryLocation → Type 0
IsPlain (local path) = first_code path ≡ b'/'
IsPlain (s3 l) = IsPart l.bucket × EndsWell l.prefix × (l ≡ new_s3 l.bucket l.prefix)
IsPlain (azure l) = IsPart l.account_name × IsPart l.container × EndsWell l.prefix
IsPlain (rclone l) = IsPart l.remote × EndsWell l.path
IsPlain (sftp l) = IsAddress l

with_path_filled :
    (head tail : String) → IsFilled tail → with_path head tail ≡ head ++ ("/" ++ tail)
with_path_filled head tail f = rw (filled-ne-empty tail f) refl

with_path_assoc :
    (head middle tail : String)
    → IsFilled middle
    → with_path (head ++ ("/" ++ middle)) tail ≡ with_path head (with_path middle tail)
with_path_assoc head middle tail f = elim (Bool-cases (tail == "")) [
  | inl e ↦ rw e (sym (with_path_filled head middle f))
  | inr e ↦
      let long : IsFilled (middle ++ ("/" ++ tail)) = filled-append middle ("/" ++ tail) f in
      rw e (
        append_assoc head ("/" ++ middle) ("/" ++ tail)
        ∙ ap (λ t. head ++ t) (append_assoc "/" middle ("/" ++ tail))
        ∙ sym (with_path_filled head (middle ++ ("/" ++ tail)) long))
]

parse_azure_location-with_path :
    (account_name container prefix : String)
    → IsPart account_name
    → IsPart container
    → EndsWell prefix
    → parse_azure_location (with_path account_name (with_path container prefix))
      ≡ ok (azure (record { account_name = account_name; container = container; prefix = prefix }))
unfolding parse_azure_location
parse_azure_location-with_path account_name container prefix a c p =
    let tail = with_path container prefix in
    let w = with_path account_name tail in
    rw
      (
        trim_slashes-with_path account_name tail a (EndsWell-with_path container prefix c p),
        filled-ne-empty w (filled-with_path account_name tail a),
        with_path_filled account_name tail (filled-with_path container prefix c),
        split_once-append "/" account_name tail a.whole,
        split_once-with_path container prefix c,
      )
      refl

-- Every location of which all can be printed (a local one with an absolute path, any other with non-empty names
-- that hold no separator, a prefix that does not end in a slash, and no endpoint, region or encryption) is
-- parsed back from what `display` prints, whatever the environment.
pub parse-display :
    (var : String → Option String) (l : RepositoryLocation)
    → IsPlain l
    → parse var (display l) ≡ ok l
unfolding display IsPlain
parse-display var (local path) h = parse_local var path h
parse-display var (s3 l) h =
    unfold display_s3 in
    (parse_s3 var (with_path l.bucket l.prefix) (strip_prefix_slashes l.bucket l.prefix h.0 "s3:")
      ∙ unfold parse_s3_location in
        rw (split_bucket_prefix-with_path l.bucket l.prefix h.0 _ h.1)
          (ap (λ x. ok (s3 x)) (sym h.2)))
parse-display var (azure l) h =
    unfold display_azure in
    (let tail = with_path l.container l.prefix in
      ap (λ t. parse var ("azure:" ++ t))
        (with_path_assoc l.account_name l.container l.prefix h.1.filled)
      ∙ parse_azure var (with_path l.account_name tail)
          (strip_prefix_slashes l.account_name tail h.0 "azure:")
      ∙ parse_azure_location-with_path l.account_name l.container l.prefix h.0 h.1 h.2)
parse-display var (rclone l) h =
    unfold display_rclone in
    (parse_rclone var (with_path l.remote l.path)
        (strip_prefix_slashes l.remote l.path h.0 "rclone:")
      ∙ unfold parse_rclone_location in
        rw (split_bucket_prefix-with_path l.remote l.path h.0 _ h.1) refl)
parse-display var (sftp l) h =
    unfold display_sftp in
    (parse_sftp var (with_path (authority l h) l.path)
        (strip_prefix_slashes (authority l h) l.path (authority-IsPart l h) "sftp:")
      ∙ parse_sftp_location-with_path l h)
