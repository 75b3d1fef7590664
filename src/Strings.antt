-- ===== src/Strings.antt =====
-- The functions of Go's packages strings and unicode/utf8 that the source calls. A text is its
-- sequence of code points; `len` of Prim.Native.String is Go's len, in bytes of UTF-8, and `count`
-- is utf8.RuneCountInString.
pub mod Laws
use Prim.Native.Char.{Char, code}
use Prim.Native.String.{[], ◌∷◌, ◌++◌}
use mathlib.Core.List
use l.Prelude.{
  ℕ, ◌+◌, String, Bool, true, false, ◌&&◌, ◌||◌, List, Option, none, some, leb, ltb, eqb, ◌==◌,
  if◌then◌else◌, ◌≡◌, refl,
}

-- One more character at the head of the first part.
abbrev pub onto_first : Char → List String → List String
onto_first c List.[] = List.◌∷◌ (c ∷ []) List.[]
onto_first c (List.◌∷◌ p ps) = List.◌∷◌ (c ∷ p) ps

-- strings.Split(s, sep) for a separator of one ASCII character, given by its code.
unfoldable pub split : ℕ → String → List String
split sep [] = List.◌∷◌ "" List.[]
split sep (c ∷ s) =
    let rest = split sep s in if eqb (code c) sep then List.◌∷◌ "" rest else onto_first c rest

-- strings.TrimLeftFunc and strings.TrimRightFunc
unfoldable pub trim_left : (ℕ → Bool) → String → String
trim_left p [] = ""
trim_left p (c ∷ s) = let rest = trim_left p s in if p (code c) then rest else c ∷ s

unfoldable pub trim_right : (ℕ → Bool) → String → String
trim_right p [] = ""
trim_right p (c ∷ s) =
    let rest = trim_right p s in if rest == "" && p (code c) then "" else c ∷ rest

-- strings.Join
unfoldable pub join : String → List String → String
join sep List.[] = ""
join sep (List.◌∷◌ p List.[]) = p
join sep (List.◌∷◌ p (List.◌∷◌ q ps)) = p ++ (sep ++ join sep (List.◌∷◌ q ps))

-- unicode.IsSpace
abbrev pub is_space : ℕ → Bool
is_space c =
    (leb 9 c && leb c 13)
    || eqb c 32
    || eqb c 0x85
    || eqb c 0xA0
    || eqb c 0x1680
    || (leb 0x2000 c && leb c 0x200a)
    || eqb c 0x2028
    || eqb c 0x2029
    || eqb c 0x202f
    || eqb c 0x205f
    || eqb c 0x3000

-- strings.TrimSpace
unfoldable pub trim_space : String → String
unfolding trim_left trim_right
trim_space s = trim_right is_space (trim_left is_space s)

-- strings.Trim(s, c) for a cutset of one ASCII character.
unfoldable pub trim : ℕ → String → String
unfolding trim_left trim_right
trim sep s = trim_right (eqb sep) (trim_left (eqb sep) s)

-- The runes of a text: what `for _, r := range s` goes through.
abbrev pub runes : String → List ℕ
runes [] = List.[]
runes (c ∷ s) = List.◌∷◌ (code c) (runes s)

split_tests :
    (split b'/' "a/bc//" ≡ List.◌∷◌ "a" (List.◌∷◌ "bc" (List.◌∷◌ "" (List.◌∷◌ "" List.[]))))
    × (trim b'/' "//a/b/" ≡ "a/b")
    × (trim_space " \tBearer x \n" ≡ "Bearer x")
unfolding split trim trim_space
split_tests = (refl, refl, refl)
