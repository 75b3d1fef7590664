-- ===== src/Protos/Address.antt =====
-- _validateEmail and _validateHostname of the generated validation
-- (protos/generated-user/user-service.pb.validate.go). The parsers of net/mail and net/url are
-- parameters: the address or the scheme that a text has for them.
use Prim.Native.Char.{code}
use Prim.Native.String.{len}
use l.Prelude.{
  ℕ, ◌+◌, String, Bool, true, false, ◌&&◌, ◌||◌, List, [], ◌∷◌, Option, none, some, leb, ltb, eqb,
  ◌==◌, if◌then◌else◌, ◌≡◌, refl,
}
use l.Errors.{Error, text}
use l.Exec.{Result, ok, err}
use l.Strings.{split, runes}

-- net/mail.ParseAddress: the Address field of the result. net/url.Parse: the Scheme of the result.
pub record Parsers : Type 0 where
  pub parse_address : String → Result String
  pub parse_url : String → Result String

-- strings.ToLower on one rune. Only A to Z and the two runes named here have an ASCII letter for
-- their lower case; any other rune stays outside ASCII, and the caller refuses it either way.
abbrev to_lower : ℕ → ℕ
to_lower c =
    if leb b'A' c && leb c b'Z'
    then c + 32
    else if eqb c 0x212A
    then b'k'
    else if eqb c 0x130
    then b'i'
    else c

abbrev to_lowers : List ℕ → List ℕ
to_lowers [] = []
to_lowers (c ∷ cs) = to_lower c ∷ to_lowers cs

-- len of the UTF-8 text of the runes
abbrev byte_length : List ℕ → ℕ
byte_length [] = 0
byte_length (c ∷ cs) =
    (if ltb c 0x80 then 1 else if ltb c 0x800 then 2 else if ltb c 0x10000 then 3 else 4)
    + byte_length cs

abbrev last_is : ℕ → List ℕ → Bool
last_is c [] = false
last_is c (d ∷ []) = eqb d c
last_is c (d ∷ e ∷ cs) = last_is c (e ∷ cs)

abbrev first_is : ℕ → List ℕ → Bool
first_is c [] = false
first_is c (d ∷ cs) = eqb d c

abbrev all_host_runes : List ℕ → Bool
all_host_runes [] = true
all_host_runes (r ∷ rs) =
    ((leb b'a' r && leb r b'z') || (leb b'0' r && leb r b'9') || eqb r b'-') && all_host_runes rs

-- One part of a host name, in lower case. The message of the last test also quotes the rune.
host_part : List ℕ → Option Error
host_part part =
    if eqb (byte_length part) 0 || ltb 63 (byte_length part)
    then some (text "hostname part must be non-empty and cannot exceed 63 characters")
    else if first_is b'-' part
    then some (text "hostname parts cannot begin with hyphens")
    else if last_is b'-' part
    then some (text "hostname parts cannot end with hyphens")
    else if all_host_runes part
    then none
    else some (text "hostname parts can only contain alphanumeric characters or hyphens")

-- The loop over the parts: the first error is returned.
host_parts : List String → Option Error
host_parts [] = none
host_parts (part ∷ parts) =
    let rest = host_parts parts in
    elim (host_part (to_lowers (runes part))) [ none ↦ rest | some e ↦ some e ]

-- strings.TrimSuffix(host, ".")
trim_dot : String → String
trim_dot String.[] = ""
trim_dot (String.◌∷◌ c s) =
    let rest = trim_dot s in if s == "" && eqb (code c) b'.' then "" else String.◌∷◌ c rest

-- _validateHostname. Lowering a text changes no "." and makes none, so it is done part by part.
unfoldable pub validate_hostname : String → Option Error
unfolding host_part host_parts trim_dot
validate_hostname host =
    if ltb 253 (len host)
    then some (text "hostname cannot exceed 253 characters")
    else host_parts (split b'.' (trim_dot host))

-- strings.SplitN(s, "@", 2): the part before the first @, and the part after it.
split_at : String → String × String
split_at String.[] = ("", "")
split_at (String.◌∷◌ c s) =
    let rest = split_at s in if eqb (code c) b'@' then ("", s) else (String.◌∷◌ c (rest.0), rest.1)

-- _validateEmail. The Address of a parsed mail address holds an @, so `parts[1]` is there.
unfoldable pub validate_email : Parsers → String → Option Error
unfolding validate_hostname split_at
validate_email p addr = elim (p.parse_address addr) [
  | err e ↦ some e
  | ok a ↦
      if ltb 254 (len a)
      then some (text "email addresses cannot exceed 254 characters")
      else if ltb 64 (len (split_at a).0)
      then some (text "email address local phrase cannot exceed 64 characters")
      else validate_hostname (split_at a).1
]

host_tests :
    (validate_hostname "Duck.com." ≡ none)
    × (validate_hostname "-duck.com" ≡ some (text "hostname parts cannot begin with hyphens"))
    × (validate_hostname "a..b"
        ≡ some (text "hostname part must be non-empty and cannot exceed 63 characters"))
unfolding validate_hostname split
host_tests = (refl, refl, refl)
