-- ===== src/Gateway/Mdwr/Bearer.antt =====
-- The Authorization header that a client sends, read back by JWTAuth of api-gateway/internal/mdwr/jwt.go.
use Prim.Native.String.{◌++◌, ◌∷◌}
use Prim.Native.Char.{Char}
use Prim.Native.String.append
use mathlib.Core.List
use l.Prelude.{String, ◌≡◌, ◌≢◌, true, inr, eqb, ne→str_ne}
use l.Strings.{split, trim_left, trim_right, trim_space, is_space}
use l.Strings.Laws.{none_of, trim_right-none_of, split-none_of, no_blank}
use l.Gateway.Mdwr.{bearer_token}

abbrev after_bearer : String → String
after_bearer t = "B" ∷ ("e" ∷ ("a" ∷ ("r" ∷ ("e" ∷ ("r" ∷ (" " ∷ t))))))

spelled : (t : String) → "Bearer " ++ t ≡ after_bearer t
spelled t = rw (
  append.cons "B" "earer " t,
  append.cons "e" "arer " t,
  append.cons "a" "rer " t,
  append.cons "r" "er " t,
  append.cons "e" "r " t,
  append.cons "r" " " t,
  append.cons " " "" t,
  append.nil t,
)

cons_ne : (c : Char) (s : String) → (c ∷ s) ≢ ""
cons_ne c s = cc

kept :
    (c : Char) (s : String)
    → s ≢ ""
    → trim_right is_space s ≡ s
    → trim_right is_space (c ∷ s) ≡ c ∷ s
unfolding trim_right
kept c s some_text same = rw (same, ne→str_ne s "" some_text)

trimmed :
    (token : String)
    → token ≢ ""
    → none_of is_space token ≡ true
    → trim_space (after_bearer token) ≡ after_bearer token
unfolding trim_space trim_left
trimmed token some_token clean = kept _ _ (cons_ne _ _) (
    kept _ _ (cons_ne _ _) (
      kept _ _ (cons_ne _ _) (
        kept _ _ (cons_ne _ _) (
          kept _ _ (cons_ne _ _) (
            kept _ _ (cons_ne _ _)
              (kept _ _ some_token (trim_right-none_of is_space token clean)))))))

parts :
    (token : String)
    → none_of (λ c. eqb c b' ') token ≡ true
    → split b' ' (after_bearer token) ≡ List.◌∷◌ "Bearer" (List.◌∷◌ token List.[])
unfolding split
parts token whole = rw (split-none_of b' ' token whole)

-- A token without white space, sent after "Bearer ", is found again.
pub bearer_token-Bearer :
    (token : String)
    → token ≢ ""
    → none_of is_space token ≡ true
    → bearer_token ("Bearer " ++ token) ≡ inr token
bearer_token-Bearer token some_token clean = rw (
  spelled token,
  trimmed token some_token clean,
  parts token (no_blank token clean),
  ne→str_ne (after_bearer token) "" (cons_ne _ _),
)
