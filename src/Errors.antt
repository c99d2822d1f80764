-- ===== src/Errors.antt =====
-- core/src/error.rs: the error type and its `Result`, with a third outcome for a panic. Messages that
-- quote the text of a foreign error keep the program's own part of it.
use ghostsnap.Prelude.{ℕ, String, ◌≡◌, refl, ◌⊎◌, inl, inr, Option, none, some}

pub data Error : Type 0 where
  io : String → Error
  serialization : String → Error
  encryption : String → Error
  repository_not_found : String → Error
  repository_exists : String → Error
  invalid_format_version : ℕ → Error
  corrupted_pack : String → Error
  snapshot_not_found : String → Error
  invalid_password : Error
  backend : String → Error
  chunk_not_found : String → Error
  lock_conflict : String → Error
  other : String → Error

-- `panic` stands for an out-of-range slice, a failed `expect` and the like.
pub data Result {ℓ} (T : Type ℓ) : Type ℓ where
  panic : Result T
  err : Error → Result T
  ok : T → Result T

-- The operator `?`: the rest of the block runs on the value, if there is one.
infixl 5 ◌>>=◌
abbrev pub ◌>>=◌ {ℓ κ} : {T : Type ℓ} {U : Type κ} → Result T → (T → Result U) → Result U
◌>>=◌ panic rest = panic
◌>>=◌ (err failure) rest = err failure
◌>>=◌ (ok value) rest = rest value

-- `ok_or`, and `map_err` on the outcome of a foreign call.
abbrev pub ok_or {ℓ} : {T : Type ℓ} → Option T → Error → Result T
ok_or (some value) failure = ok value
ok_or none failure = err failure

module _ {ℓ κ} {T : Type ℓ} {U : Type κ} where
  -- A block that returned has run its first step and its rest.
  pub >>=-eq-ok :
      (first : Result T) (rest : T → Result U) {u : U}
      → first >>= rest ≡ ok u
      → (t : T) × (first ≡ ok t) × (rest t ≡ ok u)
  >>=-eq-ok panic rest ran = cc
  >>=-eq-ok (err failure) rest ran = cc
  >>=-eq-ok (ok t) rest ran = (t, refl, ran)

pub ok-injective {ℓ} : {T : Type ℓ} (t u : T) → ok t ≡ ok u → t ≡ u
ok-injective t u h = cc

pub ok_or-eq-ok {ℓ} :
    {T : Type ℓ} (o : Option T) (failure : Error) {t : T} → ok_or o failure ≡ ok t → o ≡ some t
ok_or-eq-ok none failure h = cc
ok_or-eq-ok (some value) failure h = cc

-- Whatever value `r` returns satisfies `P`; an error or a panic satisfies it too.
pub record Ensures {ℓ κ} {T : Type ℓ} (P : T → Type κ) (r : Result T) : Type (ℓ ⊔ κ) where
  pub returned : (t : T) → r ≡ ok t → P t

pub Ensures-bind {ℓ κ μ} :
    {T : Type ℓ} {U : Type κ} {P : U → Type μ} (first : Result T) (rest : T → Result U)
    → ((t : T) → first ≡ ok t → Ensures P (rest t))
    → Ensures P (first >>= rest)
Ensures-bind panic rest each = record { returned = λ u ran. cc }
Ensures-bind (err failure) rest each = record { returned = λ u ran. cc }
Ensures-bind (ok t) rest each = each t refl

pub Result-cases {ℓ} :
    {T : Type ℓ} (r : Result T)
    → (r ≡ panic) ⊎ (((failure : Error) × (r ≡ err failure)) ⊎ ((t : T) × (r ≡ ok t)))
Result-cases panic = inl refl
Result-cases (err failure) = inr (inl (failure, refl))
Result-cases (ok t) = inr (inr (t, refl))
