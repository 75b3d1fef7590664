-- ===== src/Protos/Rules/Verdicts.antt =====
-- How `validate(false)` and `validate(true)` of the generated files relate, and what a pass means.
use l.Prelude.{
  ℕ, ◌≤◌, String, Bool, true, false, List, [], ◌∷◌, Option, none, some, ◌≡◌, refl, leb, arith,
}
use l.Errors.{Error}
use l.Protos.Rules.{
  run_checks, to_error, errors_of, conclude, field_check, because, check_uuid, validate_uuid,
  uuid_pattern,
}

first_of_all : (es : List Error) → to_error (conclude false es) ≡ to_error (conclude true es)
unfolding to_error
first_of_all [] = refl
first_of_all (e ∷ es) = refl

-- `Validate` returns the first of the errors that `ValidateAll` collects, and both accept the same
-- messages.
pub run_checks-first :
    (checks : List (Option Error))
    → to_error (run_checks false checks) ≡ to_error (run_checks true checks)
unfolding run_checks to_error
run_checks-first checks = first_of_all (errors_of checks)

abbrev pub AllPass : List (Option Error) → Type 0
AllPass [] = Unit
AllPass (check ∷ checks) = (check ≡ none) × AllPass checks

-- A verdict without an error: every check has passed.
pub run_checks-AllPass :
    (all : Bool) (checks : List (Option Error))
    → to_error (run_checks all checks) ≡ none
    → AllPass checks
unfolding run_checks to_error
run_checks-AllPass all [] h = tt
run_checks-AllPass all (none ∷ checks) h = (refl, run_checks-AllPass all checks h)
run_checks-AllPass true (some e ∷ checks) h = cc
run_checks-AllPass false (some e ∷ checks) h = cc

pub field_check-none : (good : Bool) (e : Error) → field_check good e ≡ none → good ≡ true
field_check-none true e h = refl
field_check-none false e h = cc

pub because-none :
    (message field reason : String) (cause : Option Error)
    → because message field reason cause ≡ none
    → cause ≡ none
because-none message field reason none h = refl
because-none message field reason (some e) h = cc

pub leb→≤ : (a b : ℕ) → leb a b ≡ true → a ≤ b
leb→≤ a b h = ground arith

uuid_pattern-of_none : (s : String) → validate_uuid s ≡ none → uuid_pattern s ≡ true
unfolding validate_uuid
uuid_pattern-of_none s h = ground arith

-- A value that passes the check of a UUID is one.
pub check_uuid-none :
    (message field value : String)
    → check_uuid message field value ≡ none
    → uuid_pattern value ≡ true
unfolding check_uuid
check_uuid-none message field value h =
    uuid_pattern-of_none value (because-none message field _ (validate_uuid value) h)
