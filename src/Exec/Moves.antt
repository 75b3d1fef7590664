-- ===== src/Exec/Moves.antt =====
-- How an action moves the state, whether it returns or fails: one rule for each way to build an
-- action, for a relation that is reflexive and transitive.
use mathlib.Core.Path.{subst}
use l.Prelude.{String, ap, ◌≡◌, Option, none, some, Bool, true, false, if◌then◌else◌}
use l.Errors.{Error}
use l.Exec.{Result, ok, err, Exec, pure, fail, lift, wrapping, mapping, require, settle, ◌>>=◌}

pub record IsPreorder {S : Type 0} (R : S → S → Type 0) : Type 0 where
  pub stay : (s : S) → R s s
  pub chain : (s t u : S) → R s t → R t u → R s u

pub record Moves {S A : Type 0} (R : S → S → Type 0) (m : Exec S A) : Type 0 where
  pub at : (s : S) → R s (m s).1

-- The state that a run has reached.
pub moved :
    {S A : Type 0} {R : S → S → Type 0} (m : Exec S A) (s : S) {r : Result A} {s' : S}
    → Moves R m
    → m s ≡ (r, s')
    → R s s'
moved {R} m s h e = subst (R s) (ap (λ p. p.1) e) (h.at s)

module _ {S : Type 0} {R : S → S → Type 0} (order : IsPreorder R) where
  module _ {A : Type 0} where
    pub Moves-pure : (a : A) → Moves R (pure a)
    unfolding pure
    Moves-pure a = record { at = λ s. order.stay s }

    pub Moves-fail : (e : Error) → Moves R (fail {A = A} e)
    unfolding fail
    Moves-fail e = record { at = λ s. order.stay s }

    pub Moves-lift : (r : Result A) → Moves R (lift r)
    unfolding lift
    Moves-lift r = record { at = λ s. order.stay s }

    pub Moves-wrapping : (prefix : String) (m : Exec S A) → Moves R m → Moves R (wrapping prefix m)
    unfolding wrapping
    Moves-wrapping prefix m h = record { at = λ s. h.at s }

    pub Moves-mapping : (g : Error → Error) (m : Exec S A) → Moves R m → Moves R (mapping g m)
    unfolding mapping
    Moves-mapping g m h = record { at = λ s. h.at s }

    pub Moves-if :
        (b : Bool) (m n : Exec S A) → Moves R m → Moves R n → Moves R (if b then m else n)
    Moves-if true m n hm hn = hm
    Moves-if false m n hm hn = hn

  pub Moves-require : (prefix : String) (o : Option Error) → Moves R (require prefix o)
  unfolding require
  Moves-require prefix none = record { at = λ s. order.stay s }
  Moves-require prefix (some e) = record { at = λ s. order.stay s }

  module _ {A B : Type 0} where
    settle-moves :
        (s t : S) (r : Result A) (f : A → Exec S B)
        → R s t
        → ((a : A) → Moves R (f a))
        → R s (settle r f t).1
    settle-moves s t (ok a) f h hf = order.chain s t _ h ((hf a).at t)
    settle-moves s t (err e) f h hf = h

    pub Moves-bind :
        (m : Exec S A) (f : A → Exec S B)
        → Moves R m
        → ((a : A) → Moves R (f a))
        → Moves R (m >>= f)
    unfolding ◌>>=◌
    Moves-bind m f hm hf = record {
      at = λ s. let (r, t) = m s in settle-moves s t r f (hm.at s) hf;
    }

pub ruleset moves_rules = (
  Moves-pure, Moves-fail, Moves-lift, Moves-wrapping, Moves-mapping, Moves-if, Moves-require,
  Moves-bind,
)
