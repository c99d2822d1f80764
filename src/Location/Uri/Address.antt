-- ===== src/Location/Uri/Address.antt =====
-- How the address of an SFTP server is parsed: a user, a host and a port.
use Prim.Native.String.{◌++◌}
use text.Mathlib.TextLemmas.{nil-append, append-nil, append_assoc}
use ghostsnap.Prelude.{
  ℕ, ◌^◌, ◌<◌, ◌≡◌, refl, ap, ◌∙◌, String, true, false, some, ◌==◌, string_eq, nat_beq, arith,
  Bool-cases, inl, inr, split_once, rsplit_once, print_decimal, parse_u16, parse_below, suc, ◌/◌,
  ◌&&◌, ltb, leb, trim_start_code,
}
use ghostsnap.Errors.{ok}
use ghostsnap.Location.{SftpLocation, sftp}
use ghostsnap.Location.Uri.{
  with_path, user_part, port_part, or_no_user, host_and_port, parse_authority, parse_sftp_location,
}
use ghostsnap.Location.Uri.Parts.{
  Lacks, IsFilled, filled-ne-empty, filled-append, filled-append_right, first_code-Lacks,
  has_code-append, split_once-append, split_once-Lacks, rsplit_once-append, rsplit_once-Lacks,
  trim_start_code_apart, parse_below-print_decimal, Lacks-print_decimal, filled-print_decimal, fits,
}
use ghostsnap.Location.Uri.Schemes.{
  IsPart, filled-with_path, first_code-with_path, split_once-with_path,
}

-- The address of an SFTP server.
module _ (l : SftpLocation) where
  pub record IsAddress : Type 0 where
    pub host_filled : IsFilled l.host
    pub host_slash : Lacks b'/' l.host
    pub host_at : Lacks b'@' l.host
    pub host_colon : Lacks b':' l.host
    pub user_slash : Lacks b'/' l.user
    pub user_at : Lacks b'@' l.user
    pub port_small : l.port < 2 ^ 16

filled_decimal : (fuel n : ℕ) → IsFilled (print_decimal (suc fuel) n "")
unfolding print_decimal
filled_decimal fuel n = elim (Bool-cases (ltb n 10)) [
  | inl e ↦ rw e refl
  | inr e ↦ rw e (filled-print_decimal fuel (n / 10) _ refl)
]

parse_u16_plain : (s : String) → IsFilled s → Lacks b'+' s → parse_u16 s ≡ parse_below (2 ^ 16) 0 s
parse_u16_plain String.[] f h = absurd (cc)
parse_u16_plain (String.◌∷◌ c s) f h = ground (arith, h)

five_fit : (n : ℕ) → n < 2 ^ 16 → fits 5 n ≡ true
five_fit n h = ground (arith, h)

parse_u16-print_decimal : (n : ℕ) → n < 2 ^ 16 → parse_u16 (print_decimal 5 n "") ≡ some n
parse_u16-print_decimal n h =
    parse_u16_plain (print_decimal 5 n "") (filled_decimal 4 n)
      (Lacks-print_decimal b'+' 5 n "" refl refl)
    ∙ parse_below-print_decimal (2 ^ 16) 5 n "" (five_fit n h) h

Lacks-port_part :
    (c port : ℕ) → leb 48 c && leb c 57 ≡ false → nat_beq b':' c ≡ false → Lacks c (port_part port)
Lacks-port_part c port h e = elim (Bool-cases (nat_beq port 22)) [
  | inl p ↦ rw p refl
  | inr p ↦ rw p (
      has_code-append c ":" (print_decimal 5 port "")
      ∙ ground (arith, e, Lacks-print_decimal c 5 port "" h refl))
]

Lacks-append : (c : ℕ) (s t : String) → Lacks c s → Lacks c t → Lacks c (s ++ t)
Lacks-append c s t h k = has_code-append c s t ∙ ground (arith, h, k)

Lacks-user_part :
    (c : ℕ) (user : String) → Lacks c user → nat_beq b'@' c ≡ false → Lacks c (user_part user)
Lacks-user_part c user h e = elim (Bool-cases (user == "")) [
  | inl p ↦ rw p refl
  | inr p ↦ rw p (Lacks-append c user "@" h (ground (arith, e)))
]

module _ (l : SftpLocation) (v : IsAddress l) where
  abbrev host_port : String
  host_port = l.host ++ port_part l.port

  abbrev pub authority : String
  authority = user_part l.user ++ host_port

  pub authority-IsPart : IsPart authority
  authority-IsPart = record {
    filled =
        filled-append_right (user_part l.user) host_port
          (filled-append l.host (port_part l.port) v.host_filled);
    whole =
        Lacks-append b'/' (user_part l.user) host_port
          (Lacks-user_part b'/' l.user v.user_slash refl)
          (Lacks-append b'/' l.host (port_part l.port) v.host_slash
            (Lacks-port_part b'/' l.port refl refl));
  }

  split_user : or_no_user authority (split_once b'@' authority) ≡ (l.user, host_port)
  split_user = elim (Bool-cases (l.user == "")) [
    | inl e ↦
        let none_there : Lacks b'@' host_port =
          Lacks-append b'@' l.host (port_part l.port) v.host_at
            (Lacks-port_part b'@' l.port refl refl) in
        let is : l.user ≡ "" = (string_eq.beq_iff l.user "").0 e in
        rw e (rw (nil-append host_port) (rw (split_once-Lacks b'@' host_port none_there, is) refl))
    | inr e ↦ rw e (
        rw (append_assoc l.user "@" host_port)
          (rw (split_once-append "@" l.user host_port v.user_at) refl))
  ]

  split_port : host_and_port host_port (rsplit_once b':' host_port) ≡ ok (l.host, l.port)
  split_port = elim (Bool-cases (nat_beq l.port 22)) [
    | inl e ↦
        let is : l.port ≡ 22 = ground (arith, e) in
        rw e (rw (append-nil l.host) (rw (rsplit_once-Lacks b':' l.host v.host_colon, is) refl))
    | inr e ↦ rw e (
        rw
          (rsplit_once-append ":" l.host (print_decimal 5 l.port "")
            (Lacks-print_decimal b':' 5 l.port "" refl refl))
          (rw (parse_u16-print_decimal l.port v.port_small) refl))
  ]

  parse_authority-address : parse_authority authority l.path ≡ ok (sftp l)
  unfolding parse_authority
  parse_authority-address =
      rw
        (
          split_user,
          filled-ne-empty host_port (filled-append l.host (port_part l.port) v.host_filled),
          split_port,
        )
        refl

  trim_start-address :
      trim_start_code b'/' (with_path authority l.path) ≡ with_path authority l.path
  trim_start-address = trim_start_code_apart b'/' (with_path authority l.path) (
      ap (λ c. nat_beq c b'/') (first_code-with_path authority l.path authority-IsPart)
      ∙ first_code-Lacks b'/' authority authority-IsPart.filled authority-IsPart.whole)

  pub parse_sftp_location-with_path : parse_sftp_location (with_path authority l.path) ≡ ok (sftp l)
  unfolding parse_sftp_location
  parse_sftp_location-with_path =
      rw
        (
          trim_start-address,
          split_once-with_path authority l.path authority-IsPart,
          filled-ne-empty (with_path authority l.path)
              (filled-with_path authority l.path authority-IsPart),
        )
        parse_authority-address
