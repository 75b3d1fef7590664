-- ===== src/Sql/Unique.antt =====
-- Rows of a table under a UNIQUE column: a row that was inserted is the only one with its value.
use mathlib.Core.List.{◌++◌}
use l.Prelude.{◌≡◌, Bool, true, false, List, [], ◌∷◌, inl, inr, arith}
use l.Prelude.Lists.{any, reject, Member}

module _ {A : Type 0} (p : A → Bool) where
  pub any-concat : (xs : List A) (x : A) → p x ≡ true → any p (xs ++ x ∷ []) ≡ true
  any-concat [] x h = ground arith
  any-concat (y ∷ xs) x h = ground (arith, any-concat xs x h)

  -- Where no earlier element passes the test, one that passes it is the last.
  pub eq-last_of_Member :
      (xs : List A) (x a : A) → any p xs ≡ false → Member a (xs ++ x ∷ []) → p a ≡ true → a ≡ x
  eq-last_of_Member [] x a none_before (inl same) h = same
  eq-last_of_Member [] x a none_before (inr impossible) h = absurd impossible
  eq-last_of_Member (y ∷ xs) x a none_before (inl same) h = ground arith
  eq-last_of_Member (y ∷ xs) x a none_before (inr later) h =
      ground (arith, eq-last_of_Member xs x a)

  -- The deletion of the one element that passes the test, which is the last.
  pub reject-concat :
      (xs : List A) (x : A) → any p xs ≡ false → p x ≡ true → reject p (xs ++ x ∷ []) ≡ xs
  reject-concat [] x none_before h = ground arith
  reject-concat (y ∷ xs) x none_before h = ground (arith, reject-concat xs x)
