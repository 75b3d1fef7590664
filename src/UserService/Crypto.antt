-- ===== src/UserService/Crypto.antt =====
-- user-service/internal/crypto/crypto.go
pub mod Tokens
use l.Prelude.{ℕ, ◌+◌, ◌*◌, String, Bool, true, false, [], ◌∷◌, Option, none, some, if◌then◌else◌}
use l.Prelude.Int.{ℤ, lt_ℕ}
use l.Prelude.Lists.{lookup}
use l.Errors.{Error}
use l.Errors
use l.Exec.{Result, ok, err, Exec}
use l.Libs.{Host, Bcrypt, text, int64, float64, MapClaims, Method, hmac, not_hmac, Jwt}

pub record UserInfo : Type 0 where
  pub role : String
  pub user_id : String

-- UserInfo{}
abbrev pub no_user : UserInfo
no_user = record { role = ""; user_id = "" }

module _ {K : Type 0} (host : Host K) (bcrypt : Bcrypt K) where
  -- Hash
  unfoldable pub hash : String → Exec K String
  hash source = bcrypt.generate source

  -- CheckPswd
  unfoldable pub check_pswd : String → String → Bool
  check_pswd hashed password = elim (bcrypt.compare_hash hashed password) [
    | none ↦ true
    | some e ↦ false
  ]

-- 15 * time.Minute, in seconds
abbrev pub token_seconds : ℕ
token_seconds = 15 * 60

abbrev pub claims_of : String → String → ℕ → MapClaims
claims_of user_id role exp =
    ("role", text role) ∷ ("user_id", text user_id) ∷ ("exp", int64 exp) ∷ []

-- The key function of ExtJWT.
abbrev pub key_of : String → Method → Result String
key_of secret hmac = ok secret
key_of secret not_hmac = err (Errors.text "Invalid jwt token")

-- claims[key].(string)
abbrev pub string_claim : String → MapClaims → Option String
string_claim key claims = elim (lookup key claims) [
  | none ↦ none
  | some v ↦ elim v [ text s ↦ some s | _ ↦ none ]
]

-- claims[key].(float64), as the int64 that it converts to
abbrev pub float_claim : String → MapClaims → Option ℤ
float_claim key claims = elim (lookup key claims) [
  | none ↦ none
  | some v ↦ elim v [ float64 z ↦ some z | _ ↦ none ]
]

-- The clock is read only if the claim is there. A function of Go returns the data beside the error.
abbrev check_exp : UserInfo → ℕ → Option ℤ → UserInfo × Option Error
check_exp info now none = (no_user, some (Errors.text "Failed to extract exp from JWT token"))
check_exp info now (some exp) =
    if lt_ℕ exp now then (info, some (Errors.text "Token has expired")) else (info, none)

abbrev check_role : String → Option String → MapClaims → ℕ → UserInfo × Option Error
check_role user_id none claims now = (
  record { role = ""; user_id = user_id },
  some (Errors.text "Failed to extract role from JWT token"),
)
check_role user_id (some role) claims now =
    check_exp (record { role = role; user_id = user_id }) now (float_claim "exp" claims)

abbrev check_user_id : Option String → MapClaims → ℕ → UserInfo × Option Error
check_user_id none claims now =
    (no_user, some (Errors.text "Failed to extract user_id from JWT token"))
check_user_id (some user_id) claims now = check_role user_id (string_claim "role" claims) claims now

-- What ExtJWT makes of the parsed token at a time.
abbrev pub read_token : Result (Option MapClaims) → ℕ → UserInfo × Option Error
read_token (err e) now = (no_user, some e)
read_token (ok none) now = (no_user, some (Errors.text "Failed to extract data from JWT token"))
read_token (ok (some claims)) now = check_user_id (string_claim "user_id" claims) claims now

module _ {K : Type 0} (host : Host K) (jwt : Jwt) (secret : String) where
  -- GenJWT
  unfoldable pub gen_jwt : String → String → Exec K String
  gen_jwt user_id role k =
      let (now, k') = host.now k in
      (jwt.sign (claims_of user_id role (now + token_seconds)) secret, k')

  -- ExtJWT. The model reads the clock at every call; the source only to compare it.
  unfoldable pub ext_jwt : String → K → (UserInfo × Option Error) × K
  ext_jwt token k =
      let (now, k') = host.now k in (read_token (jwt.parse token (key_of secret)) now, k')
