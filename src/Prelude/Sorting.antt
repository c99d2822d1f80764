-- ===== src/Prelude/Sorting.antt =====
-- `sort_by_key(|x| Reverse(key(x)))`: a stable sort, greatest key first.
use Prim.Native.Nat.{ℕ, ◌≤◌}
use mathlib.Core.Path.{◌≡◌, refl}
use mathlib.Core.Bool.{Bool, false, ◌||◌}
use mathlib.Core.List.{List, [], ◌∷◌}
use native.Mathlib.Omega.{arith}
use ghostsnap.Prelude.Tests.{ltb, if◌then◌else◌}

-- A test on some element of a list: `iter().any`.
abbrev pub any {ℓ} : {A : Type ℓ} → (A → Bool) → List A → Bool
any p [] = false
any p (x ∷ xs) = p x || any p xs

module _ {ℓ} {A : Type ℓ} (key : A → ℕ) where
  -- Before the first element with a key that is not greater, so that equal keys keep their order.
  abbrev pub place : A → List A → List A
  place x [] = x ∷ []
  place x (y ∷ ys) = let rest = place x ys in if ltb (key x) (key y) then y ∷ rest else x ∷ y ∷ ys

  abbrev pub sort_newest : List A → List A
  sort_newest [] = []
  sort_newest (x ∷ xs) = place x (sort_newest xs)

  -- Each element's key is at least that of all that follow.
  abbrev pub AllBelow : ℕ → List A → Type 0
  AllBelow n [] = Unit
  AllBelow n (x ∷ xs) = (key x ≤ n) × AllBelow n xs

  abbrev pub IsNewestFirst : List A → Type 0
  IsNewestFirst [] = Unit
  IsNewestFirst (x ∷ xs) = AllBelow (key x) xs × IsNewestFirst xs

  AllBelow-mono : (m n : ℕ) (xs : List A) → m ≤ n → AllBelow m xs → AllBelow n xs
  AllBelow-mono m n [] h b = tt
  AllBelow-mono m n (x ∷ xs) h b = (omega arith, AllBelow-mono m n xs h b.1)

  place-AllBelow :
      (n : ℕ) (x : A) (xs : List A) → key x ≤ n → AllBelow n xs → AllBelow n (place x xs)
  place-AllBelow n x [] h b = (h, tt)
  place-AllBelow n x (y ∷ ys) h b = ground (arith, place-AllBelow n x ys)

  place-IsNewestFirst : (x : A) (xs : List A) → IsNewestFirst xs → IsNewestFirst (place x xs)
  place-IsNewestFirst x [] h = (tt, tt)
  place-IsNewestFirst x (y ∷ ys) h = ground (
    arith,
    place-IsNewestFirst x ys,
    place-AllBelow (key y) x ys,
    AllBelow-mono (key y) (key x) ys,
  )

  pub sort_newest-IsNewestFirst : (xs : List A) → IsNewestFirst (sort_newest xs)
  sort_newest-IsNewestFirst [] = tt
  sort_newest-IsNewestFirst (x ∷ xs) =
      place-IsNewestFirst x (sort_newest xs) (sort_newest-IsNewestFirst xs)

  any-place : (p : A → Bool) (x : A) (xs : List A) → any p (place x xs) ≡ (p x || any p xs)
  any-place p x [] = refl
  any-place p x (y ∷ ys) = ground (arith, any-place p x ys)

  -- A sort keeps what stands in the list.
  pub any-sort_newest : (p : A → Bool) (xs : List A) → any p (sort_newest xs) ≡ any p xs
  any-sort_newest p [] = refl
  any-sort_newest p (x ∷ xs) = rw (any-place p x (sort_newest xs), any-sort_newest p xs)
