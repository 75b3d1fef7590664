-- ===== src/Strings/Laws.antt =====
-- Laws of strings.Split that the proofs about paths and addresses use.
use mathlib.Core.List.{List, [], ◌∷◌}
use Prim.Native.Char.{Char, code}
use Prim.Native.String.{◌++◌}
use Prim.Native.String.append
use l.Prelude.{
  ℕ, String, ◌≡◌, ◌≢◌, refl, sym, ◌∙◌, ne→str_ne, Bool, true, false, not, ◌&&◌, eqb, arith,
}
use l.Strings.{split, onto_first, trim_right, is_space}

onto_first-ne-nil : (c : Char) (ps : List String) → onto_first c ps ≢ []
onto_first-ne-nil c [] = cc
onto_first-ne-nil c (p ∷ ps) = cc

-- Splitting yields at least one part.
pub split-ne-nil : (sep : ℕ) (s : String) → split sep s ≢ []
unfolding split
split-ne-nil sep String.[] = cc
split-ne-nil sep (String.◌∷◌ c s) = ground (arith, onto_first-ne-nil c (split sep s))

-- No code point of the text passes the test.
abbrev pub none_of : (ℕ → Bool) → String → Bool
none_of p String.[] = true
none_of p (String.◌∷◌ c s) = not (p (code c)) && none_of p s

both : (a b : Bool) → (a && b) ≡ true → (a ≡ true) × (b ≡ true)
both a b h = ground arith

eq-false_of_not : (a : Bool) → not a ≡ true → a ≡ false
eq-false_of_not a h = ground arith

-- A text that has none of what is trimmed stays as it is.
pub trim_right-none_of : (p : ℕ → Bool) (s : String) → none_of p s ≡ true → trim_right p s ≡ s
unfolding trim_right
trim_right-none_of p String.[] h = refl
trim_right-none_of p (String.◌∷◌ c s) h =
    let (head, tail) = both (not (p (code c))) (none_of p s) h in
    rw (trim_right-none_of p s tail, eq-false_of_not (p (code c)) head) (ground arith)

pub split-none_of :
    (sep : ℕ) (s : String) → none_of (λ c. eqb c sep) s ≡ true → split sep s ≡ s ∷ []
unfolding split
split-none_of sep String.[] h = refl
split-none_of sep (String.◌∷◌ c s) h =
    let (head, tail) = both (not (eqb (code c) sep)) (none_of (λ d. eqb d sep) s) h in
    rw (eq-false_of_not (eqb (code c) sep) head, split-none_of sep s tail)

-- The first part is what stands before the first separator.
pub split-first :
    (sep : ℕ) (s : String) (c : Char) (rest : String)
    → none_of (λ d. eqb d sep) s ≡ true
    → eqb (code c) sep ≡ true
    → split sep (s ++ String.◌∷◌ c rest) ≡ s ∷ split sep rest
unfolding split
split-first sep String.[] c rest h here = rw (append.nil (String.◌∷◌ c rest), here)
split-first sep (String.◌∷◌ d s) c rest h here =
    let (head, tail) = both (not (eqb (code d) sep)) (none_of (λ e. eqb e sep) s) h in
    rw (
      append.cons d s (String.◌∷◌ c rest),
      eq-false_of_not (eqb (code d) sep) head,
      split-first sep s c rest tail here,
    )

not_space : (c : ℕ) → not (is_space c) ≡ true → not (eqb c b' ') ≡ true
not_space c h = ground arith

-- A text without white space has no blank.
pub no_blank : (s : String) → none_of is_space s ≡ true → none_of (λ c. eqb c b' ') s ≡ true
no_blank String.[] h = refl
no_blank (String.◌∷◌ c s) h =
    let (head, tail) = both (not (is_space (code c))) (none_of is_space s) h in
    rw (not_space (code c) head, no_blank s tail)

append-ne-nil : (s t : String) → t ≢ "" → s ++ t ≢ ""
append-ne-nil String.[] t some_t h = some_t (sym (append.nil t) ∙ h)
append-ne-nil (String.◌∷◌ c s) t some_t h = let grown = sym (append.cons c s t) ∙ h in cc

-- Nothing is trimmed on the right of a text that ends in one which is kept.
pub trim_right-append :
    (p : ℕ → Bool) (s t : String) → t ≢ "" → none_of p t ≡ true → trim_right p (s ++ t) ≡ s ++ t
unfolding trim_right
trim_right-append p String.[] t some_t kept = rw (append.nil t) (trim_right-none_of p t kept)
trim_right-append p (String.◌∷◌ c s) t some_t kept = rw (
  append.cons c s t,
  trim_right-append p s t some_t kept,
  ne→str_ne (s ++ t) "" (append-ne-nil s t some_t),
)

-- The first part before a separator that stands as a text of its own.
pub split-one :
    (sep : ℕ) (s : String) (c : Char) (rest : String)
    → none_of (λ d. eqb d sep) s ≡ true
    → eqb (code c) sep ≡ true
    → split sep (s ++ (String.◌∷◌ c "" ++ rest)) ≡ s ∷ split sep rest
split-one sep s c rest clean here =
    rw (append.cons c "" rest, append.nil rest) (split-first sep s c rest clean here)
