-- ===== src/Libs.antt =====
-- What the user service takes from outside the repository, besides the database and Redis: random
-- identifiers and the clock of the host, bcrypt, golang-jwt (user-service/internal/crypto/crypto.go),
-- and the state that a request acts on. `K` is the state of the host: its random source and clock.
pub mod Laws
pub mod Zoom
use l.Prelude.{ℕ, String, List, Option}
use l.Prelude.Int.{ℤ}
use l.Errors.{Error}
use l.Exec.{Result, Exec, wrap}
use l.Sql.{Postgres}
use l.Redis.{Redis}
use l.Protos.Address.{Parsers}

pub record Host (K : Type 0) : Type 0 where
  -- uuid.New().String(), uuid.NewString()
  pub new_uuid : K → String × K
  -- time.Now().Unix()
  pub now : K → ℕ × K

pub record Bcrypt (K : Type 0) : Type 0 where
  -- GenerateFromPassword with bcrypt.DefaultCost, on texts
  pub generate : String → Exec K String
  -- CompareHashAndPassword
  pub compare_hash : String → String → Option Error

-- A value of a jwt.MapClaims. A float64 is kept as the int64 that the source converts it to, the
-- only use that it makes of one.
pub data ClaimValue : Type 0 where
  text : String → ClaimValue
  int64 : ℕ → ClaimValue
  float64 : ℤ → ClaimValue
  other : ClaimValue

abbrev pub MapClaims : Type 0
MapClaims = List (String × ClaimValue)

-- Whether token.Method is a *jwt.SigningMethodHMAC.
pub data Method : Type 0 where
  hmac not_hmac : Method

pub record Jwt : Type 0 where
  -- NewWithClaims(SigningMethodHS256, claims).SignedString(key)
  pub sign : MapClaims → String → Result String
  -- Parse with WithoutClaimsValidation, given the function that chooses the key: the Claims of the
  -- token, `none` if they are no MapClaims
  pub parse : String → (Method → Result String) → Result (Option MapClaims)

pub record Libs (K S D Q Tx : Type 0) : Type 0 where
  pub host : Host K
  pub bcrypt : Bcrypt K
  pub jwt : Jwt
  pub redis : Redis S
  pub pg : Postgres D Q Tx
  pub parsers : Parsers
  -- the environment variable JWT_SECRET
  pub jwt_secret : String

-- What one request of the user service acts on.
pub record World (K S D : Type 0) : Type 0 where
  pub host : K
  pub sessions : S
  pub db : D

module _ {K S D A : Type 0} where
  unfoldable pub on_host : Exec K A → Exec (World K S D) A
  on_host m w = let (r, k) = m w.host in (r, record w { host = k })

  unfoldable pub on_redis : Exec S A → Exec (World K S D) A
  on_redis m w = let (r, s) = m w.sessions in (r, record w { sessions = s })

  unfoldable pub on_db : Exec D A → Exec (World K S D) A
  on_db m w = let (r, d) = m w.db in (r, record w { db = d })
