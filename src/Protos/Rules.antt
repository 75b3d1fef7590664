-- ===== src/Protos/Rules.antt =====
-- What the generated Validate methods share: the checks of one field, and how `validate(all)` collects
-- their errors (protos/generated-user/user-service.pb.validate.go and
-- protos/generated-order/order-service.pb.validate.go).
pub mod Verdicts
use Prim.Native.String.{count}
use mathlib.Core.Option
use l.Prelude.{
  ℕ, zero, suc, String, Bool, true, false, not, ◌&&◌, ◌||◌, List, [], ◌∷◌, Option, none, some, leb,
  eqb, ◌==◌, if◌then◌else◌, ◌≡◌, refl,
}
use l.Prelude.Lists.{contains}
use l.Errors.{Error, text, invalid, invalid_because}
use l.Exec.{ok, err}
use l.Strings.{runes}
use l.Protos.Address.{Parsers, validate_email}

-- The result of `validate(all)`: nil, the first error, or all of them in a MultiError.
pub data Verdict : Type 0 where
  accepted : Verdict
  rejected : Error → Verdict
  rejected_all : Error → List Error → Verdict

abbrev pub errors_of : List (Option Error) → List Error
errors_of [] = []
errors_of (none ∷ checks) = errors_of checks
errors_of (some e ∷ checks) = e ∷ errors_of checks

abbrev pub conclude : Bool → List Error → Verdict
conclude all [] = accepted
conclude true (e ∷ es) = rejected_all e es
conclude false (e ∷ es) = rejected e

-- The checks of the fields in order: without `all` the first failure is returned at once.
unfoldable pub run_checks : Bool → List (Option Error) → Verdict
run_checks all checks = conclude all (errors_of checks)

-- The error that `Validate` returns, if any.
unfoldable pub to_error : Verdict → Option Error
to_error accepted = none
to_error (rejected e) = some e
to_error (rejected_all e es) = some e

abbrev pub roles : List String
roles = "admin" ∷ "dev" ∷ "guest" ∷ []

abbrev pub order_types : List String
order_types = "comments" ∷ "likes" ∷ "views" ∷ []

-- `if bad { return XValidationError{field, reason} }`
abbrev pub field_check : Bool → Error → Option Error
field_check good e = if good then none else some e

abbrev pub check_role : String → String → String → Option Error
check_role message field value =
    field_check (contains roles value)
      (invalid message field "value must be in list [admin dev guest]")

abbrev is_hex : ℕ → Bool
is_hex c = (leb b'0' c && leb c b'9') || (leb b'a' c && leb c b'f') || (leb b'A' c && leb c b'F')

-- `n` hexadecimal digits, then what `rest` accepts.
hex_then : ℕ → (List ℕ → Bool) → List ℕ → Bool
hex_then zero rest cs = rest cs
hex_then (suc n) rest [] = false
hex_then (suc n) rest (c ∷ cs) = is_hex c && hex_then n rest cs

dash_then : (List ℕ → Bool) → List ℕ → Bool
dash_then rest [] = false
dash_then rest (c ∷ cs) = eqb c b'-' && rest cs

at_end : List ℕ → Bool
at_end [] = true
at_end (c ∷ cs) = false

-- ^[0-9a-fA-F]{8}-[0-9a-fA-F]{4}-[0-9a-fA-F]{4}-[0-9a-fA-F]{4}-[0-9a-fA-F]{12}$
unfoldable pub uuid_pattern : String → Bool
unfolding hex_then dash_then at_end
uuid_pattern s =
    hex_then 8
      (dash_then (
        hex_then 4
          (dash_then (hex_then 4 (dash_then (hex_then 4 (dash_then (hex_then 12 at_end))))))))
      (runes s)

-- _validateUuid
unfoldable pub validate_uuid : String → Option Error
unfolding uuid_pattern
validate_uuid uuid = if uuid_pattern uuid then none else some (text "invalid uuid format")

abbrev pub because : String → String → String → Option Error → Option Error
because message field reason cause = Option.map (invalid_because message field reason) cause

unfoldable pub check_uuid : String → String → String → Option Error
unfolding validate_uuid
check_uuid message field value =
    because message field "value must be a valid UUID" (validate_uuid value)

unfoldable pub check_min_runes : ℕ → String → String → String → String → Option Error
check_min_runes least message field reason value =
    field_check (leb least (count value)) (invalid message field reason)

unfoldable pub check_email : Parsers → String → String → String → Option Error
unfolding validate_email
check_email p message field value =
    because message field "value must be a valid email address" (validate_email p value)

-- url.Parse and IsAbs, which is Scheme != ""
unfoldable pub check_uri : Parsers → String → String → String → Option Error
check_uri p message field value = elim (p.parse_url value) [
  | err e ↦ some (invalid_because message field "value must be a valid URI" e)
  | ok scheme ↦ field_check (not (scheme == "")) (invalid message field "value must be absolute")
]

uuid_tests :
    (uuid_pattern "408683b6-b476-4471-950f-63599ed51bd6" ≡ true)
    × (uuid_pattern "408683b6-b476-4471-950f-63599ed51bd" ≡ false)
    × (uuid_pattern "me" ≡ false)
unfolding uuid_pattern
uuid_tests = (refl, refl, refl)
