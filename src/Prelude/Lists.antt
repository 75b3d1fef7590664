-- ===== src/Prelude/Lists.antt =====
-- Lists and association lists: membership tests, lookup and filtering, with the laws shared by the
-- proofs about database rows, header fields and enumerations.
use Prim.Native.Nat.{ℕ, suc}
use Prim.Native.String.{String}
use mathlib.Core.Path.{◌≡◌, refl}
use mathlib.Core.Logic.{◌⊎◌}
use mathlib.Core.Bool.{Bool, false, ◌||◌}
use mathlib.Core.Option.{Option, none, some}
use mathlib.Core.List.{List, [], ◌∷◌}
use native.Mathlib.Omega.{arith}
use text.Mathlib.Text.{◌==◌}
use l.Prelude.Tests.{if◌then◌else◌}

-- slices.Contains, and the key test `_, ok := m[k]` of a map that is used as a set.
abbrev pub contains : List String → String → Bool
contains [] s = false
contains (x ∷ xs) s = s == x || contains xs s

module _ {ℓ} {A : Type ℓ} where
  abbrev pub length : List A → ℕ
  length [] = 0
  length (x ∷ xs) = suc (length xs)

  abbrev pub lookup : String → List (String × A) → Option A
  lookup k [] = none
  lookup k ((j, v) ∷ m) = if j == k then some v else lookup k m

  -- The first element that passes the test.
  abbrev pub find : (A → Bool) → List A → Option A
  find p [] = none
  find p (x ∷ xs) = if p x then some x else find p xs

  -- The elements that fail the test.
  abbrev pub reject : (A → Bool) → List A → List A
  reject p [] = []
  reject p (x ∷ xs) = let rest = reject p xs in if p x then rest else x ∷ rest

  abbrev pub any : (A → Bool) → List A → Bool
  any p [] = false
  any p (x ∷ xs) = p x || any p xs

  -- A test that nothing passes rejects nothing.
  pub reject_of_not_any : (p : A → Bool) (xs : List A) → any p xs ≡ false → reject p xs ≡ xs
  reject_of_not_any p [] h = refl
  reject_of_not_any p (x ∷ xs) h = ground (arith, reject_of_not_any p xs)

abbrev pub Member : {A : Type 0} → A → List A → Type 0
Member a [] = ⊥
Member a (x ∷ xs) = (a ≡ x) ⊎ Member a xs

abbrev pub or_empty : Option String → String
or_empty none = ""
or_empty (some s) = s

-- m[k] of a map with text values: the zero value "" if the key is missing.
abbrev pub index_or_empty : String → List (String × String) → String
index_or_empty k m = or_empty (lookup k m)
