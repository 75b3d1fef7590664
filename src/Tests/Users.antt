-- ===== src/Tests/Users.antt =====
-- The theorems on the user service, at concrete inputs.
use l.Prelude.{eq_iff, ℕ, String, ◌≡◌, refl, [], ◌∷◌, none, some, arith}
use l.Errors.{Error}
use l.Exec.{ok, err}
use l.Sql.{Stmt, text}
use l.Libs.{Libs, World}
use l.Protos.Address.{Parsers}
use l.Protos.User.{
  RegReq, RegRes, LogReq, LogRes, ExtJwtDataReq, ExtJwtDataRes, reg_req_error, log_req_error,
  ext_jwt_data_req_error,
}
use l.UserService.Server.{reg_user, log_user_handler, ext_jwt_data}
use l.UserService.Server.Registration.{Registered, reg_user-Registered}
use l.UserService.Server.Access.{Backed, ext_jwt_data-Backed}
use l.UserService.Server.Login.{Issued, log_user-reg_user, ext_jwt_data-issued}
use l.UserService.Crypto.{UserInfo, ext_jwt, gen_jwt}
use l.UserService.Crypto.Tokens.{ext_jwt-gen_jwt}
use l.Tests.Store.{Db, postgres}
use l.Tests.Store.Queries.{postgres-IsUp}
use l.Tests.Store.Transactions.{postgres-IsPostgres}
use l.Tests.Store
use l.Tests.Cache.{Cache, redis, redis-IsRedis, redis-IsUp}
use l.Tests.Cache
use l.Tests.Tokens.{uuid, host, bcrypt, jwt, jwt-IsJwt, jwt-Signs, bcrypt-IsBcrypt, spell_all}

abbrev pub parsers : Parsers
parsers = record { parse_address = λ s. ok s; parse_url = λ s. ok "https" }

abbrev pub libs : Libs ℕ Cache Db Stmt (Unit {0})
libs = record {
  host = host;
  bcrypt = bcrypt;
  jwt = jwt;
  redis = redis;
  pg = postgres;
  parsers = parsers;
  jwt_secret = "secret";
}

abbrev pub empty : World ℕ Cache Db
empty = record {
  host = 100;
  sessions = record { hashes = λ k. []; counters = λ k. 0; ttls = λ k. none };
  db = record { tables = λ t. []; begun = none; left_open = 0 };
}

abbrev pub ann : RegReq
ann = record { name = "ann"; email = "a@b.co"; role = "guest"; password = "12345678" }

abbrev pub token_of_ann : String
token_of_ann = spell_all "secret" uuid "guest" 1000

abbrev pub res_of_ann : RegRes
res_of_ann = record { token = token_of_ann; session_key = uuid }

abbrev pub with_ann : World ℕ Cache Db
with_ann = record {
  host = 100;
  sessions = record {
    hashes = Cache.set uuid (("id", uuid) ∷ ("role", "guest") ∷ []) (λ k. []);
    counters = λ k. 0;
    ttls = Cache.set uuid (some 2592000) (λ k. none);
  };
  db = record {
    tables =
        Store.put "users"
          ((("id", text uuid)
              ∷ ("user_name", text "anna@b.co")
              ∷ ("role", text "guest")
              ∷ ("pswd", text "$2a$12345678")
              ∷ [])
            ∷ [])
          (λ t. []);
    begun = none;
    left_open = 0;
  };
}

pub ann_registered : reg_user libs ann empty ≡ (ok res_of_ann, with_ann)
unfolding reg_user l.Exec.◌>>=◌ reg_req_error l.Protos.Rules.check_email l.Strings.split
    l.Protos.Rules.check_min_runes l.Libs.on_host l.Libs.on_redis l.Libs.on_db
ann_registered = refl

reg_user-Registered_example :
    (reg_req_error parsers ann ≡ none)
    × Registered libs Cache.view Store.view redis-IsRedis postgres-IsPostgres bcrypt-IsBcrypt ann
        res_of_ann empty with_ann
reg_user-Registered_example =
    reg_user-Registered libs Cache.view Store.view redis-IsRedis postgres-IsPostgres bcrypt-IsBcrypt
      ann empty ann_registered

ann_effect :
    Registered libs Cache.view Store.view redis-IsRedis postgres-IsPostgres bcrypt-IsBcrypt ann
      res_of_ann empty with_ann
ann_effect =
    (reg_user-Registered libs Cache.view Store.view redis-IsRedis postgres-IsPostgres
      bcrypt-IsBcrypt ann empty ann_registered).1

abbrev login : LogReq
login = record { name = "ann"; email = "a@b.co"; password = "12345678" }

login_valid : log_req_error parsers login ≡ none
unfolding log_req_error l.Protos.Rules.check_email l.Strings.split l.Protos.Rules.check_min_runes
login_valid = refl

log_user-reg_user_example :
    (res : LogRes) × (w' : World ℕ Cache Db) × (log_user_handler libs login with_ann ≡ (ok res, w'))
    × Issued libs Cache.view Store.view redis-IsRedis postgres-IsPostgres bcrypt-IsBcrypt redis-IsUp
        postgres-IsUp
        (jwt-Signs "secret")
        ann_effect.id
        "guest"
        res
        w'
log_user-reg_user_example =
    log_user-reg_user libs Cache.view Store.view redis-IsRedis postgres-IsPostgres bcrypt-IsBcrypt
      redis-IsUp postgres-IsUp (jwt-Signs "secret") ann res_of_ann empty with_ann with_ann login
      ann_effect refl login_valid refl refl

abbrev pub ask : ExtJwtDataReq
ask = record { token = token_of_ann; session_key = uuid }

abbrev pub told : ExtJwtDataRes
told = record { role = "guest"; user_id = uuid; token = token_of_ann }

pub ann_told : ext_jwt_data libs ask with_ann ≡ (ok told, with_ann)
unfolding ext_jwt_data l.Exec.◌>>=◌ ext_jwt_data_req_error l.Protos.Rules.check_min_runes
    l.Protos.Rules.check_uuid l.Libs.on_redis l.Libs.on_host
ann_told = refl

ext_jwt_data-Backed_example :
    (info : UserInfo) × ((ext_jwt host jwt "secret" token_of_ann 100).0 ≡ (info, none))
    × Backed libs Cache.view redis-IsRedis ask told info with_ann.sessions
ext_jwt_data-Backed_example =
    ext_jwt_data-Backed libs Cache.view redis-IsRedis ask with_ann ann_told

ann_issued : gen_jwt host jwt "secret" uuid "guest" 100 ≡ (ok token_of_ann, 100)
unfolding gen_jwt
ann_issued = refl

ask_valid : ext_jwt_data_req_error ask ≡ none
unfolding ext_jwt_data_req_error l.Protos.Rules.check_min_runes l.Protos.Rules.check_uuid
ask_valid = refl

ext_jwt_data-issued_example :
    (token : String) × (w' : World ℕ Cache Db) × (ext_jwt_data libs ask with_ann
      ≡ (ok (record { role = "guest"; user_id = uuid; token = token }), w'))
    × (gen_jwt host jwt "secret" uuid "guest" (ext_jwt host jwt "secret" ask.token with_ann.host).1
        ≡ (ok token, w'.host))
ext_jwt_data-issued_example =
    ext_jwt_data-issued libs Cache.view Store.view redis-IsRedis postgres-IsPostgres bcrypt-IsBcrypt
      redis-IsUp postgres-IsUp (jwt-Signs "secret") jwt-IsJwt ask uuid "guest" 100 100 with_ann
      (λ h. ground (arith, eq_iff uuid "")) (λ h. ground (arith, eq_iff "guest" "")) ann_issued
      (refl, refl) ask_valid (omega arith) (omega arith)

ext_jwt-gen_jwt_example :
    (ext_jwt host jwt "secret" token_of_ann 2000).0
    ≡ (record { role = "guest"; user_id = uuid }, some (Error.text "Token has expired"))
ext_jwt-gen_jwt_example =
    ext_jwt-gen_jwt host jwt "secret" jwt-IsJwt uuid "guest" token_of_ann 100 100 2000 (omega arith)
      ann_issued
