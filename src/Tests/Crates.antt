-- ===== src/Tests/Crates.antt =====
-- Concrete functions that behave as the interfaces of Foreign.antt ask.
use ghostsnap.Prelude.{
  ℕ, zero, suc, ◌%◌, replicate, nat_beq, ap, ◌∙◌, ◌+◌, ◌≡◌, refl, Option, none, some, List, [], ◌∷◌,
  arith, length, contains, list_eq, ◌==◌, inl, inr, list_beq, sym, list_beq_refl, Bool-cases,
  string_eq, beq-eq, if◌then◌else◌, String,
}
use Prim.Native.Char.{code}
use native.Mathlib.Decide.{ℕ_discrete}
use mathlib.Core.Path.{subst}
use text.Mathlib.TextEquality.{eq_iff}
use ghostsnap.Foreign.{Bytes, Cipher, Hasher, Hex, Codec}
use ghostsnap.Types.{ChunkId}
use ghostsnap.Index.{Bloom}
use ghostsnap.Index.Encoding.{IndexData}

-- A cipher that changes nothing.
abbrev pub plain_cipher : Cipher
plain_cipher = record {
  seal = λ key nonce plain. some plain;
  unseal = λ key nonce sealed. some sealed;
  unseal-seal = λ key nonce plain sealed h. cc;
}

-- A hash that knows nothing but the length.
abbrev pub length_hasher : Hasher
length_hasher = record { hash = λ d. replicate 32 (length d % 256); length-hash = λ d. refl }

-- A printer of bytes: each as so many `a`, and a `b`.
unfoldable pub unary : ℕ → String → String
unary zero s = String.◌∷◌ "b" s
unary (suc n) s = String.◌∷◌ "a" (unary n s)

unfoldable pub print : Bytes → String
unfolding unary
print [] = ""
print (x ∷ xs) = unary x (print xs)

pub scan : ℕ → String → Bytes
scan n String.[] = []
scan n (String.◌∷◌ c s) =
    let next = scan 0 s in
    let more = scan (suc n) s in if nat_beq (code c) b'b' then n ∷ next else more

pub scan-unary : (n m : ℕ) (s : String) → scan n (unary m s) ≡ (n + m) ∷ scan 0 s
unfolding scan unary
scan-unary n zero s = ap (λ t. t ∷ scan 0 s) (omega arith)
scan-unary n (suc m) s = scan-unary (suc n) m s ∙ ap (λ t. t ∷ scan 0 s) (omega arith)

pub scan-print : (b : Bytes) → scan 0 (print b) ≡ b
unfolding print
scan-print [] = unfold scan in refl
scan-print (x ∷ xs) = rw (scan-unary 0 x (print xs), scan-print xs) (ap (λ t. t ∷ xs) (omega arith))

abbrev pub unary_hex : Hex
unary_hex = record {
  encode = print;
  decode = λ s. some (scan 0 s);
  decode-encode = λ b. ap some (scan-print b);
}

-- A filter that keeps every id.
abbrev pub exact_bloom : Bloom (List ChunkId)
exact_bloom = record {
  new_for_fp_rate = λ n. [];
  set = λ k f. k ∷ f;
  check = λ k f. contains k f;
  check-set_self = λ k f. ground (arith, list_beq_refl k);
  check-set_mono = λ k j f h. ground arith;
}

unfoldable pub string_discrete : Discrete String
string_discrete s t = elim (Bool-cases (s == t)) [
  | inl e ↦ yes (beq-eq s t e)
  | inr e ↦ no (λ p. ground (arith, eq_iff s t))
]

unfoldable pub index_data_discrete : Discrete IndexData
unfolding string_discrete
index_data_discrete = hlevel (ℕ_discrete, string_discrete)

-- A codec that can write the one value `sample`.
module _ {A : Type 0} (sample : A) where
  pub sample_bytes : {P : Type 0} → Dec P → Option Bytes
  sample_bytes (yes p) = some (1 ∷ [])
  sample_bytes (no p) = none

  unfoldable pub sample_value : Bytes → Option A
  sample_value bytes = if list_beq bytes (1 ∷ []) then some sample else none

  pub sample_bytes_self : (d : Dec (sample ≡ sample)) → sample_bytes d ≡ some (1 ∷ [])
  unfolding sample_bytes
  sample_bytes_self (yes p) = refl
  sample_bytes_self (no p) = absurd (p refl)

  pub sample_value-sample_bytes :
      (a : A) (d : Dec (a ≡ sample)) (bytes : Bytes)
      → sample_bytes d ≡ some bytes
      → (sample_value bytes ≡ some sample) × (a ≡ sample)
  unfolding sample_bytes sample_value
  sample_value-sample_bytes a (yes p) bytes h = let is : bytes ≡ 1 ∷ [] = cc in (rw is, p)
  sample_value-sample_bytes a (no p) bytes h = cc

  pub sample_value-eq-some : (bytes : Bytes) (a : A) → sample_value bytes ≡ some a → a ≡ sample
  unfolding sample_value
  sample_value-eq-some bytes a h = ground arith

module _ {A : Type 0} (Well : A → Type 0) (Same : A → A → Type 0) (equal : Discrete A) (sample : A)
    (well : Well sample) (same : Same sample sample) where
  abbrev pub sample_codec : Codec A Well Same
  sample_codec = record {
    to_bytes = λ a. sample_bytes sample (equal a sample);
    from_bytes = sample_value sample;
    well = λ bytes a h. subst Well (sym (sample_value-eq-some sample bytes a h)) well;
    read_back = λ a bytes h.
        let (read, is) = sample_value-sample_bytes sample a (equal a sample) bytes h in
        (sample, read, subst (Same sample) (sym is) same);
  }
