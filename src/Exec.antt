-- ===== src/Exec.antt =====
-- Functions that act on a state and may return an error. What was written before an error stays
-- written: the state comes back beside the error too.
pub mod Inversion
pub mod Moves
use l.Prelude.{String, Option, none, some, Bool, true, false}
use l.Errors.{Error, wrapped}

pub data Result {ℓ} (A : Type ℓ) : Type ℓ where
  ok : A → Result A
  err : Error → Result A

abbrev pub Exec {ℓ} : Type ℓ → Type ℓ → Type ℓ
Exec S A = S → Result A × S

-- `if err != nil { return fmt.Errorf("…: %w", err) }`
abbrev pub wrap {ℓ} : {A : Type ℓ} → String → Result A → Result A
wrap prefix (ok a) = ok a
wrap prefix (err e) = err (wrapped prefix e)

module _ {ℓ} {S A : Type ℓ} where
  unfoldable pub pure : A → Exec S A
  pure a s = (ok a, s)

  unfoldable pub fail : Error → Exec S A
  fail e s = (err e, s)

  -- A computation that reads and writes no state.
  unfoldable pub lift : Result A → Exec S A
  lift r s = (r, s)

  -- A call whose error is returned under a prefix.
  unfoldable pub wrapping : String → Exec S A → Exec S A
  wrapping prefix m s = let (r, s') = m s in (wrap prefix r, s')

  -- A call whose error is returned as another error.
  unfoldable pub mapping : (Error → Error) → Exec S A → Exec S A
  mapping f m s = let (r, s') = m s in (elim r [ ok a ↦ ok a | err e ↦ err (f e) ], s')

-- `if err := check(); err != nil { return fmt.Errorf("…: %w", err) }`
unfoldable pub require : {S : Type 0} → String → Option Error → Exec S Unit
require prefix none s = (ok tt, s)
require prefix (some e) s = (err (wrapped prefix e), s)

module _ {ℓ} {S A B : Type ℓ} where
  abbrev pub settle : Result A → (A → Exec S B) → Exec S B
  settle (ok a) f s = f a s
  settle (err e) f s = (err e, s)

  infixl 10 ◌>>=◌ ◌>>◌
  -- Opening this opens the actions above too.
  unfoldable pub ◌>>=◌ : Exec S A → (A → Exec S B) → Exec S B
  unfolding pure fail lift wrapping mapping require
  ◌>>=◌ m f s = let (r, s') = m s in settle r f s'

  abbrev pub ◌>>◌ : Exec S A → Exec S B → Exec S B
  m >> n = m >>= λ _. n
