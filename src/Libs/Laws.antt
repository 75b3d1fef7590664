-- ===== src/Libs/Laws.antt =====
-- What the proofs assume of uuid, bcrypt and golang-jwt, in documented terms.
use l.Prelude.{ℕ, String, ◌≡◌, ◌≤◌, true, [], ◌∷◌, none, some}
use l.Prelude.Int.{pos}
use l.Exec.{Result, ok}
use l.Protos.Rules.{uuid_pattern}
use l.Libs.{Host, Bcrypt, ClaimValue, text, int64, float64, other, MapClaims, Method, hmac, Jwt}

-- encoding/json keeps a string, and reads any number back as a float64.
abbrev pub json_value : ClaimValue → ClaimValue
json_value (text s) = text s
json_value (int64 n) = float64 (pos n)
json_value (float64 z) = float64 z
json_value other = other

abbrev pub json_claims : MapClaims → MapClaims
json_claims [] = []
json_claims ((k, v) ∷ claims) = (k, json_value v) ∷ json_claims claims

-- Integers up to this one are exact as float64.
abbrev pub max_exact : ℕ
max_exact = 9007199254740992

abbrev pub IsExact : MapClaims → Type 0
IsExact [] = Unit
IsExact ((k, int64 n) ∷ claims) = (n ≤ max_exact) × IsExact claims
IsExact ((k, _) ∷ claims) = IsExact claims

-- A token that was signed with HS256 parses, under a key function that gives the same key for HMAC,
-- to its claims.
pub record IsJwt (j : Jwt) : Type 0 where
  pub parse-sign :
      (claims : MapClaims) (key token : String) (key_of : Method → Result String)
      → IsExact claims
      → j.sign claims key ≡ ok token
      → key_of hmac ≡ ok key
      → j.parse token key_of ≡ ok (some (json_claims claims))

pub record IsBcrypt {K : Type 0} (b : Bcrypt K) : Type 0 where
  pub compare-generate :
      (password hash : String) (k k' : K)
      → b.generate password k ≡ (ok hash, k')
      → b.compare_hash hash password ≡ none

pub record IsHost {K : Type 0} (h : Host K) : Type 0 where
  pub new_uuid-pattern : (k : K) → uuid_pattern (h.new_uuid k).0 ≡ true
