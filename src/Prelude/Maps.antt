-- ===== src/Prelude/Maps.antt =====
-- A HashMap as an association list in which a key stands once (`IsMap`). The order of the entries
-- is the order in which the program happens to iterate, which the statements do not fix.
use Prim.Native.Nat.{◌+◌, ◌≤◌}
use mathlib.Core.Path.{◌≡◌, refl}
use mathlib.Core.Bool.{Bool}
use mathlib.Core.Option.{Option, none, some}
use mathlib.Core.List.{List, [], ◌∷◌, ◌++◌}
use native.Mathlib.Omega.{arith}
use ghostsnap.Prelude.Tests.{if◌then◌else◌, is_some}
use ghostsnap.Prelude.Equality.{Eq, ◌==◌}
use ghostsnap.Prelude.Lists.{length, contains}

abbrev pub Map {ℓ κ} : Type ℓ → Type κ → Type (ℓ ⊔ κ)
Map K V = List (K × V)

module _ {ℓ κ} {K : Type ℓ} {V : Type κ} where
  abbrev pub keys : Map K V → List K
  keys [] = []
  keys ((k, v) ∷ m) = k ∷ keys m

  abbrev pub values : Map K V → List V
  values [] = []
  values ((k, v) ∷ m) = v ∷ values m

  -- `retain` with a closure on the key.
  abbrev pub retain_keys : (K → Bool) → Map K V → Map K V
  retain_keys p [] = []
  retain_keys p ((k, v) ∷ m) = let rest = retain_keys p m in if p k then (k, v) ∷ rest else rest

  pub length-retain_keys : (p : K → Bool) (m : Map K V) → length (retain_keys p m) ≤ length m
  length-retain_keys p [] = omega arith
  length-retain_keys p ((j, w) ∷ m) = ground (arith, length-retain_keys p m)

module _ {ℓ κ} {K : Type ℓ} {V : Type κ} ⦃e : Eq K⦄ where
  abbrev pub lookup : K → Map K V → Option V
  lookup k [] = none
  lookup k ((j, v) ∷ m) = if j == k then some v else lookup k m

  abbrev pub contains_key : K → Map K V → Bool
  contains_key k m = is_some (lookup k m)

  abbrev pub insert : K → V → Map K V → Map K V
  insert k v [] = (k, v) ∷ []
  insert k v ((j, w) ∷ m) = let rest = insert k v m in if j == k then (k, v) ∷ m else (j, w) ∷ rest

  abbrev pub remove : K → Map K V → Map K V
  remove k [] = []
  remove k ((j, v) ∷ m) = let rest = remove k m in if j == k then rest else (j, v) ∷ rest

  -- `extend`, and a loop of insertions.
  abbrev pub extend : Map K V → Map K V → Map K V
  extend m [] = m
  extend m ((k, v) ∷ other) = extend (insert k v m) other

  -- Every key stands once.
  abbrev pub IsMap : Map K V → Type κ
  IsMap [] = Unit
  IsMap ((k, v) ∷ m) = (lookup k m ≡ none) × IsMap m

  -- Two maps with the same content, in whatever order.
  pub record SameMap (m n : Map K V) : Type (ℓ ⊔ κ) where
    pub same : (k : K) → lookup k m ≡ lookup k n
    pub size : length m ≡ length n

  pub SameMap-refl : (m : Map K V) → SameMap m m
  SameMap-refl m = record { same = λ k. refl; size = refl }

  pub lookup-insert :
      (k j : K) (v : V) (m : Map K V)
      → lookup j (insert k v m) ≡ (if k == j then some v else lookup j m)
  lookup-insert k j v [] = refl
  lookup-insert k j v ((i, w) ∷ m) =
      ground (arith, e.beq_iff k j, e.beq_iff i k, e.beq_iff i j, lookup-insert k j v m)

  pub lookup-remove :
      (k j : K) (m : Map K V) → lookup j (remove k m) ≡ (if k == j then none else lookup j m)
  lookup-remove k j [] = ground arith
  lookup-remove k j ((i, w) ∷ m) =
      ground (arith, e.beq_iff k j, e.beq_iff i k, e.beq_iff i j, lookup-remove k j m)

  pub lookup-retain_keys :
      (p : K → Bool) (k : K) (m : Map K V)
      → lookup k (retain_keys p m) ≡ (if p k then lookup k m else none)
  lookup-retain_keys p k [] = ground arith
  lookup-retain_keys p k ((j, v) ∷ m) = ground (arith, e.beq_iff j k, lookup-retain_keys p k m)

  pub lookup-append :
      (k : K) (m n : Map K V)
      → lookup k (m ++ n) ≡ (if contains_key k m then lookup k m else lookup k n)
  lookup-append k [] n = refl
  lookup-append k ((j, v) ∷ m) n = ground (arith, lookup-append k m n)

  pub contains-keys : (k : K) (m : Map K V) → contains k (keys m) ≡ contains_key k m
  contains-keys k [] = refl
  contains-keys k ((j, v) ∷ m) = ground (arith, contains-keys k m)

  pub insert-IsMap : (k : K) (v : V) (m : Map K V) → IsMap m → IsMap (insert k v m)
  insert-IsMap k v [] h = (refl, tt)
  insert-IsMap k v ((j, w) ∷ m) h =
      ground (arith, e.beq_iff j k, e.beq_iff k j, insert-IsMap k v m, lookup-insert k j v m)

  pub remove-IsMap : (k : K) (m : Map K V) → IsMap m → IsMap (remove k m)
  remove-IsMap k [] h = tt
  remove-IsMap k ((j, w) ∷ m) h = ground (arith, remove-IsMap k m, lookup-remove k j m)

  pub retain_keys-IsMap : (p : K → Bool) (m : Map K V) → IsMap m → IsMap (retain_keys p m)
  retain_keys-IsMap p [] h = tt
  retain_keys-IsMap p ((j, w) ∷ m) h =
      ground (arith, retain_keys-IsMap p m, lookup-retain_keys p j m)

  pub extend-IsMap : (m n : Map K V) → IsMap m → IsMap (extend m n)
  extend-IsMap m [] h = h
  extend-IsMap m ((k, v) ∷ n) h = extend-IsMap (insert k v m) n (insert-IsMap k v m h)

  -- The entries of `n` win; a key stands once in `n`.
  pub lookup-extend :
      (k : K) (m n : Map K V)
      → IsMap n
      → lookup k (extend m n) ≡ (if contains_key k n then lookup k n else lookup k m)
  lookup-extend k m [] h = refl
  lookup-extend k m ((j, v) ∷ n) h =
      ground (arith, e.beq_iff j k, lookup-extend k (insert j v m) n h.1, lookup-insert j k v m)

  pub length-insert :
      (k : K) (v : V) (m : Map K V)
      → length (insert k v m) ≡ length m + (if contains_key k m then 0 else 1)
  length-insert k v [] = refl
  length-insert k v ((j, w) ∷ m) = ground (arith, length-insert k v m)

  pub length-remove_absent :
      (k : K) (m : Map K V) → lookup k m ≡ none → length (remove k m) ≡ length m
  length-remove_absent k [] h = refl
  length-remove_absent k ((j, w) ∷ m) h = ground (arith, length-remove_absent k m)

  pub length-remove :
      (k : K) (m : Map K V)
      → IsMap m
      → length (remove k m) + (if contains_key k m then 1 else 0) ≡ length m
  length-remove k [] h = refl
  length-remove k ((j, w) ∷ m) h =
      ground (arith, length-remove k m h.1, length-remove_absent k m, e.beq_iff j k)

pub ruleset map_laws = (lookup-insert, lookup-remove, lookup-retain_keys, contains-keys)
