-- ===== src/Prelude/Lists.antt =====
-- Lists measured by native numbers, under the library's names.
use Prim.Native.Nat.{ℕ, zero, suc, ◌+◌, ◌≤◌, min}
use mathlib.Core.Path.{◌≡◌, refl, ap}
use mathlib.Core.Bool.{Bool, true, ◌&&◌}
use mathlib.Core.List.{List, [], ◌∷◌, ◌++◌}
use native.Mathlib.Omega.{arith}

module _ {ℓ} {A : Type ℓ} where
  abbrev pub length : List A → ℕ
  length [] = 0
  length (a ∷ rest) = suc (length rest)

  abbrev pub take : ℕ → List A → List A
  take zero rest = []
  take (suc k) [] = []
  take (suc k) (a ∷ rest) = a ∷ take k rest

  abbrev pub drop : ℕ → List A → List A
  drop zero rest = rest
  drop (suc k) [] = []
  drop (suc k) (a ∷ rest) = drop k rest

  abbrev pub all : (A → Bool) → List A → Bool
  all p [] = true
  all p (a ∷ rest) = p a && all p rest

  abbrev pub All {κ} : (A → Type κ) → List A → Type κ
  All P [] = Unit
  All P (a ∷ rest) = P a × All P rest

  pub length-append : (rest ys : List A) → length (rest ++ ys) ≡ length rest + length ys
  length-append [] ys = omega arith
  length-append (a ∷ rest) ys = omega (arith, length-append rest ys)

  pub length-take : (k : ℕ) (rest : List A) → length (take k rest) ≡ min k (length rest)
  length-take zero rest = omega arith
  length-take (suc k) [] = omega arith
  length-take (suc k) (a ∷ rest) = omega (arith, length-take k rest)

  pub take-append-drop : (k : ℕ) (rest : List A) → take k rest ++ drop k rest ≡ rest
  take-append-drop zero rest = refl
  take-append-drop (suc k) [] = refl
  take-append-drop (suc k) (a ∷ rest) = rw (take-append-drop k rest)

  pub take_of_length-le : (k : ℕ) (rest : List A) → length rest ≤ k → take k rest ≡ rest
  take_of_length-le zero [] h = refl
  take_of_length-le zero (a ∷ rest) h = absurd (omega arith)
  take_of_length-le (suc k) [] h = refl
  take_of_length-le (suc k) (a ∷ rest) h = ap (◌∷◌ a) (take_of_length-le k rest (omega arith))
