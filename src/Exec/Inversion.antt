-- ===== src/Exec/Inversion.antt =====
-- What follows from the success of a composed function: each of its parts has succeeded.
use l.Prelude.{Bool, true, false, if◌then◌else◌, String, ◌≡◌, refl, Option, none, some, ap}
use l.Errors.{Error}
use l.Exec.{
  Result, ok, err, Exec, pure, fail, wrap, settle, lift, wrapping, mapping, require, ◌>>=◌,
}

module _ {ℓ} {S A B : Type ℓ} where
  settled :
      (p : Result A × S) (f : A → Exec S B) {b : B} {s' : S}
      → settle p.0 f p.1 ≡ (ok b, s')
      → (a : A) × (s : S) × (p ≡ (ok a, s)) × (f a s ≡ (ok b, s'))
  settled (ok a, s) f h = (a, s, refl, h)
  settled (err e, s) f h = cc

  bind-eq-ok :
      (m : Exec S A) (f : A → Exec S B) (s : S) {b : B} {s' : S}
      → (m >>= f) s ≡ (ok b, s')
      → (a : A) × (s₁ : S) × (m s ≡ (ok a, s₁)) × (f a s₁ ≡ (ok b, s'))
  unfolding ◌>>=◌
  bind-eq-ok m f s h = settled (m s) f h

  -- A sequence goes on from the success of its first part, and stops at its error.
  pub bind-of-ok :
      (m : Exec S A) (f : A → Exec S B) (s : S) {a : A} {s₁ : S}
      → m s ≡ (ok a, s₁)
      → (m >>= f) s ≡ f a s₁
  unfolding ◌>>=◌
  bind-of-ok m f s h = rw h

  pub bind-of-err :
      (m : Exec S A) (f : A → Exec S B) (s : S) {e : Error} {s₁ : S}
      → m s ≡ (err e, s₁)
      → (m >>= f) s ≡ (err e, s₁)
  unfolding ◌>>=◌
  bind-of-err m f s h = rw h

module _ {ℓ} {S A : Type ℓ} where
  unwrapped :
      (prefix : String) (p : Result A × S) {a : A} {s : S}
      → Path (Result A × S) (wrap prefix p.0, p.1) (ok a, s)
      → p ≡ (ok a, s)
  unwrapped prefix (ok a, s) h = h
  unwrapped prefix (err e, s) h = cc

  pub wrapping-eq-ok :
      (prefix : String) (m : Exec S A) (s : S) {a : A} {s' : S}
      → wrapping prefix m s ≡ (ok a, s')
      → m s ≡ (ok a, s')
  unfolding wrapping
  wrapping-eq-ok prefix m s h = unwrapped prefix (m s) h

  pub wrapping-of-ok :
      (prefix : String) (m : Exec S A) (s : S) {a : A} {s' : S}
      → m s ≡ (ok a, s')
      → wrapping prefix m s ≡ (ok a, s')
  unfolding wrapping
  wrapping-of-ok prefix m s h = rw h

  pub wrapping-of-err :
      (prefix : String) (m : Exec S A) (s : S) {e : Error} {s' : S}
      → m s ≡ (err e, s')
      → wrapping prefix m s ≡ (err (Error.wrapped prefix e), s')
  unfolding wrapping
  wrapping-of-err prefix m s h = rw h

  unmapped :
      (g : Error → Error) (p : Result A × S) {a : A} {s : S}
      → Path (Result A × S) (elim p.0 [ ok a ↦ ok a | err e ↦ err (g e) ], p.1) (ok a, s)
      → p ≡ (ok a, s)
  unmapped g (ok a, s) h = h
  unmapped g (err e, s) h = cc

  pub mapping-eq-ok :
      (g : Error → Error) (m : Exec S A) (s : S) {a : A} {s' : S}
      → mapping g m s ≡ (ok a, s')
      → m s ≡ (ok a, s')
  unfolding mapping
  mapping-eq-ok g m s h = unmapped g (m s) h

  pub lift-eq-ok :
      (r : Result A) (s : S) {a : A} {s' : S} → lift r s ≡ (ok a, s') → (r ≡ ok a) × (s ≡ s')
  unfolding lift
  lift-eq-ok r s h = (ap (λ p. p.0) h, ap (λ p. p.1) h)

-- A check that passed found no error.
pub require-eq-ok :
    {S : Type 0} (prefix : String) (o : Option Error) (s : S) {s' : S}
    → require prefix o s ≡ (ok tt, s')
    → (o ≡ none) × (s ≡ s')
unfolding require
require-eq-ok prefix none s h = (refl, ap (λ p. p.1) h)
require-eq-ok prefix (some e) s h = cc

-- The same, handed to what follows: the steps of a `do` block are taken apart one after the other.
module _ {S A B C : Type 0} where
  pub on_bind :
      (m : Exec S A) (f : A → Exec S B) (s : S) {b : B} {s' : S}
      → (m >>= f) s ≡ (ok b, s')
      → ((a : A) (s₁ : S) → m s ≡ (ok a, s₁) → f a s₁ ≡ (ok b, s') → C)
      → C
  on_bind m f s h use_it = let (a, s₁, p, q) = bind-eq-ok m f s h in use_it a s₁ p q

  pub on_wrapping :
      (prefix : String) (m : Exec S A) (f : A → Exec S B) (s : S) {b : B} {s' : S}
      → (wrapping prefix m >>= f) s ≡ (ok b, s')
      → ((a : A) (s₁ : S) → m s ≡ (ok a, s₁) → f a s₁ ≡ (ok b, s') → C)
      → C
  on_wrapping prefix m f s h use_it =
      on_bind (wrapping prefix m) f s h λ a s₁ p q. use_it a s₁ (wrapping-eq-ok prefix m s p) q

  pub on_mapping :
      (g : Error → Error) (m : Exec S A) (f : A → Exec S B) (s : S) {b : B} {s' : S}
      → (mapping g m >>= f) s ≡ (ok b, s')
      → ((a : A) (s₁ : S) → m s ≡ (ok a, s₁) → f a s₁ ≡ (ok b, s') → C)
      → C
  on_mapping g m f s h use_it =
      on_bind (mapping g m) f s h λ a s₁ p q. use_it a s₁ (mapping-eq-ok g m s p) q

  pub on_lift :
      (prefix : String) (r : Result A) (f : A → Exec S B) (s : S) {b : B} {s' : S}
      → (wrapping prefix (lift r) >>= f) s ≡ (ok b, s')
      → ((a : A) → r ≡ ok a → f a s ≡ (ok b, s') → C)
      → C
  unfolding ◌>>=◌
  on_lift prefix (ok a) f s h use_it = use_it a refl h
  on_lift prefix (err e) f s h use_it = cc

module _ {S B C : Type 0} where
  pub on_require :
      (prefix : String) (o : Option Error) (f : Unit → Exec S B) (s : S) {b : B} {s' : S}
      → (require prefix o >>= f) s ≡ (ok b, s')
      → (o ≡ none → f tt s ≡ (ok b, s') → C)
      → C
  unfolding ◌>>=◌
  on_require prefix none f s h use_it = use_it refl h
  on_require prefix (some e) f s h use_it = cc

  -- A computation that ends a block.
  pub on_last_lift :
      (prefix : String) (r : Result B) (s : S) {b : B} {s' : S}
      → wrapping prefix (lift r) s ≡ (ok b, s')
      → (r ≡ ok b → s ≡ s' → C)
      → C
  unfolding wrapping lift
  on_last_lift prefix (ok a) s h use_it = use_it (ap (λ p. p.0) h) (ap (λ p. p.1) h)
  on_last_lift prefix (err e) s h use_it = cc

  -- An early return of an error was not taken.
  pub on_guard :
      (b : Bool) (e : Error) (m : Exec S B) (s : S) {x : B} {s' : S}
      → (if b then fail e else m) s ≡ (ok x, s')
      → (b ≡ false → m s ≡ (ok x, s') → C)
      → C
  unfolding fail
  on_guard true e m s h use_it = cc
  on_guard false e m s h use_it = use_it refl h

  pub on_pure : (a : B) (s : S) {b : B} {s' : S} → pure a s ≡ (ok b, s') → (a ≡ b → s ≡ s' → C) → C
  unfolding pure
  on_pure a s h use_it = use_it (cc) (ap (λ p. p.1) h)

  pub on_if :
      (b : Bool) (m n : Exec S B) (s : S) {x : B} {s' : S}
      → (if b then m else n) s ≡ (ok x, s')
      → (b ≡ true → m s ≡ (ok x, s') → C)
      → (b ≡ false → n s ≡ (ok x, s') → C)
      → C
  on_if true m n s h on_true on_false = on_true refl h
  on_if false m n s h on_true on_false = on_false refl h
