-- ===== src/Sql/Keys.antt =====
-- Rows of a table looked up by a UNIQUE column: what an insertion and a deletion do to the first row
-- that passes a test which no two rows pass.
use mathlib.Core.List.{◌++◌}
use l.Prelude.{
  ◌≡◌, refl, Bool, true, false, ◌&&◌, List, [], ◌∷◌, Option, none, some, inl, inr, arith,
  if◌then◌else◌, Bool-cases,
}
use l.Prelude.Lists.{any, find, reject, Member}

-- A value, unless it passes the test.
abbrev pub unless : {A : Type 0} → (A → Bool) → Option A → Option A
unless u none = none
unless u (some x) = if u x then none else some x

module _ {A : Type 0} (p : A → Bool) where
  -- No two elements pass the test.
  abbrev pub AtMostOnce : List A → Type 0
  AtMostOnce [] = Unit
  AtMostOnce (x ∷ xs) = (p x ≡ true → any p xs ≡ false) × AtMostOnce xs

  pub any-concat_miss :
      (xs : List A) (x : A) → any p xs ≡ false → p x ≡ false → any p (xs ++ x ∷ []) ≡ false
  any-concat_miss [] x h miss = ground arith
  any-concat_miss (y ∷ xs) x h miss = ground (arith, any-concat_miss xs x)

  pub any-reject : (q : A → Bool) (xs : List A) → any p xs ≡ false → any p (reject q xs) ≡ false
  any-reject q [] h = refl
  any-reject q (x ∷ xs) h = ground (arith, any-reject q xs)

  pub find-concat_miss : (xs : List A) (x : A) → p x ≡ false → find p (xs ++ x ∷ []) ≡ find p xs
  find-concat_miss [] x miss = ground arith
  find-concat_miss (y ∷ xs) x miss = ground (arith, find-concat_miss xs x miss)

  pub find-concat_hit :
      (xs : List A) (x : A) → any p xs ≡ false → p x ≡ true → find p (xs ++ x ∷ []) ≡ some x
  find-concat_hit [] x h hit = ground arith
  find-concat_hit (y ∷ xs) x h hit = ground (arith, find-concat_hit xs x)

  pub find_of_not_any : (xs : List A) → any p xs ≡ false → find p xs ≡ none
  find_of_not_any [] h = refl
  find_of_not_any (x ∷ xs) h = ground (arith, find_of_not_any xs)

  pub find-reject_other :
      (q : A → Bool) (xs : List A)
      → ((x : A) → p x ≡ true → q x ≡ false)
      → find p (reject q xs) ≡ find p xs
  find-reject_other q [] apart = refl
  find-reject_other q (x ∷ xs) apart = ground (arith, find-reject_other q xs apart, apart x)

  -- A deletion of what passes both tests.
  pub find-reject_both :
      (q u : A → Bool) (xs : List A)
      → ((x : A) → q x ≡ (p x && u x))
      → AtMostOnce xs
      → find p (reject q xs) ≡ unless u (find p xs)
  find-reject_both q u [] same once = refl
  find-reject_both q u (x ∷ xs) same (once, later) = ground (
    arith,
    find-reject_both q u xs same later,
    same x,
    once,
    find_of_not_any (reject q xs),
    any-reject q xs,
  )

  pub find_of_Member :
      (xs : List A) (a : A) → Member a xs → p a ≡ true → AtMostOnce xs → find p xs ≡ some a
  find_of_Member [] a listed hit once = absurd listed
  find_of_Member (x ∷ xs) a (inl same) hit once = ground arith
  find_of_Member (x ∷ xs) a (inr later) hit (once, rest) = elim (Bool-cases (p x)) [
    | inl first ↦ cc (find_of_Member xs a later hit rest, find_of_not_any xs (once first))
    | inr other ↦ rw other (find_of_Member xs a later hit rest)
  ]

  pub AtMostOnce-concat :
      (xs : List A) (x : A)
      → AtMostOnce xs
      → (p x ≡ true → any p xs ≡ false)
      → AtMostOnce (xs ++ x ∷ [])
  AtMostOnce-concat [] x once new = (λ h. refl, tt)
  AtMostOnce-concat (y ∷ xs) x (once, rest) new = (
    λ h. elim (Bool-cases (p x)) [
      | inl hit ↦ ground (arith, new hit)
      | inr miss ↦ any-concat_miss xs x (once h) miss
    ],
    AtMostOnce-concat xs x rest (λ h. ground (arith, new h)),
  )

  pub AtMostOnce-reject : (q : A → Bool) (xs : List A) → AtMostOnce xs → AtMostOnce (reject q xs)
  AtMostOnce-reject q [] once = tt
  AtMostOnce-reject q (x ∷ xs) (once, rest) = elim (Bool-cases (q x)) [
    | inl gone ↦ rw gone (AtMostOnce-reject q xs rest)
    | inr kept ↦ rw kept (λ h. any-reject q xs (once h), AtMostOnce-reject q xs rest)
  ]
