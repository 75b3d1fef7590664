-- ===== src/Tests/Backends.antt =====
-- The user service behind the gateway, at concrete inputs.
use Prim.Native.String.{◌++◌}
use l.Prelude.{ℕ, ◌+◌, String, ◌≡◌, refl, [], ◌∷◌, Option, none, some, false, arith}
use l.Errors.{Error, Code}
use l.Exec.{ok}
use l.Exec
use l.UserService.Crypto.{gen_jwt}
use l.UserService.Sessions.{store_session}
use l.UserService.Sessions.Keys.{store_session-Stored}
use l.UserService.Repo.{add_user}
use l.UserService.Repo.Accounts.{add_user-Inserted}
use l.UserService.Server.Registration.{Registered}
use l.Libs.{World}
use l.Libs.Laws.{IsHost}
use l.Protos.User.{RegRes, LogRes, ExtJwtDataRes, reg_req_error}
use l.Gateway.Http.{Request, Reply}
use l.Gateway.Backend.{Responses}
use l.Gateway.Users.{RegBody}
use l.Gateway.Breaker.{Phase}
use l.Gateway.Backend.Registration.{register_route, register_route-reg_user}
use l.Gateway.Backend.OwnAccount.{delete_route, del_user-reg_user}
use l.Tests.Store.{Db, postgres}
use l.Tests.Store.Queries.{postgres-IsUp}
use l.Tests.Store.Transactions.{postgres-IsPostgres, postgres-IsTxUp}
use l.Tests.Store
use l.Tests.Cache.{Cache, redis-IsRedis, redis-IsUp}
use l.Tests.Cache
use l.Tests.Tokens.{uuid, host, jwt, jwt-IsJwt, jwt-Signs, bcrypt-IsBcrypt}
use l.Tests.Users.{libs, empty, ann, token_of_ann, res_of_ann, with_ann, ann_registered}
use l.Tests.Gateways.{some_id}
use l.Tests.Routes.{strict, strict-AllHidden}
use l.Tests.Breakers.{Cb, start, is_open, run_cb, run_cb-IsGobreaker}
use l.Tests.Breakers

-- The responses as values of one type.
data Response : Type 0 where
  reg : RegRes → Response
  log : LogRes → Response
  ext : ExtJwtDataRes → Response
  del : Response

abbrev responses : Responses Response
responses = record {
  reg_res = record {
    box = Response.reg;
    assert_type = λ v. elim v [ reg r ↦ some r | _ ↦ none ];
    same_type = λ a. refl;
  };
  log_res = record {
    box = Response.log;
    assert_type = λ v. elim v [ log r ↦ some r | _ ↦ none ];
    same_type = λ a. refl;
  };
  ext_jwt_data_res = record {
    box = Response.ext;
    assert_type = λ v. elim v [ ext r ↦ some r | _ ↦ none ];
    same_type = λ a. refl;
  };
  del_user_res = record {
    box = λ _. Response.del;
    assert_type = λ v. elim v [ del ↦ some tt | _ ↦ none ];
    same_type = λ a. refl;
  };
}

abbrev from_error : Error → Option Code
from_error e = none

host-IsHost : IsHost host
unfolding l.Protos.Rules.uuid_pattern
host-IsHost = record { new_uuid-pattern = λ k. refl }

abbrev delete_me : Request
delete_me = record {
  method = "DELETE";
  url = "/api/users/del/me";
  path = "/api/users/del/me";
  remote_addr = "10.0.0.1:5000";
  headers = ("Authorization", "Bearer " ++ token_of_ann) ∷ [];
  cookies = ("session_key", uuid) ∷ [];
  params = ("delUserId", "me") ∷ [];
  context = [];
}

abbrev route : Request → ℕ × (Cb × World ℕ Cache Db) → Reply × (ℕ × (Cb × World ℕ Cache Db))
route =
    delete_route libs from_error (λ n w. w) run_cb (λ A m. m) responses Breakers.view is_open
      "UserService" run_cb-IsGobreaker (λ A m w a w' h. h) false strict strict-AllHidden
      (λ m. (uuid, m)) (λ label m. m + 1) (λ svc op m. m + 1) Cache.view Store.view redis-IsRedis
      postgres-IsPostgres bcrypt-IsBcrypt jwt-IsJwt host-IsHost redis-IsUp postgres-IsUp
      (postgres-IsTxUp 20) (jwt-Signs "secret")

abbrev ann_hashed : String
ann_hashed = "$2a$12345678"

stored : store_session libs.redis uuid uuid "guest" empty.sessions ≡ (ok uuid, with_ann.sessions)
unfolding store_session Exec.◌>>=◌
stored = refl

inserted : add_user postgres uuid "anna@b.co" "guest" ann_hashed empty.db ≡ (ok tt, with_ann.db)
unfolding add_user Exec.◌>>=◌
inserted = refl

issued : gen_jwt host jwt "secret" uuid "guest" 100 ≡ (ok token_of_ann, 100)
unfolding gen_jwt
issued = refl

-- The registration of ann, at the time 100.
abbrev ann_at_100 :
    Registered libs Cache.view Store.view redis-IsRedis postgres-IsPostgres bcrypt-IsBcrypt ann
      res_of_ann empty with_ann
ann_at_100 = record {
  id = uuid;
  hashed = ann_hashed;
  id_drawn = (100, refl);
  key_drawn = (100, refl);
  stored =
      (store_session-Stored libs.redis Cache.view redis-IsRedis uuid uuid "guest" empty.sessions
        stored).1;
  added =
      add_user-Inserted postgres Store.view postgres-IsPostgres uuid "anna@b.co" "guest" ann_hashed
        empty.db inserted;
  password_kept = refl;
  host_at_issue = 100;
  host_after = 100;
  issued = issued;
}

ann_valid : reg_req_error libs.parsers ann ≡ none
unfolding reg_req_error l.Protos.Rules.check_email l.Strings.split l.Protos.Rules.check_min_runes
ann_valid = refl

del_user-reg_user_example :
    (m' : ℕ) × (b' : Cb) × (u' : World ℕ Cache Db) × (route delete_me (0, (start, with_ann))
      ≡ (Reply.status 200, (m', (b', u'))))
    × (u'.db.tables "users" ≡ [])
    × (u'.sessions.hashes uuid ≡ [])
del_user-reg_user_example =
    del_user-reg_user libs from_error (λ n w. w) run_cb (λ A m. m) responses Breakers.view is_open
      "UserService" run_cb-IsGobreaker (λ A m w a w' h. h) false strict strict-AllHidden
      (λ m. (uuid, m)) (λ label m. m + 1) (λ svc op m. m + 1) Cache.view Store.view redis-IsRedis
      postgres-IsPostgres bcrypt-IsBcrypt jwt-IsJwt host-IsHost redis-IsUp postgres-IsUp
      (postgres-IsTxUp 20) (jwt-Signs "secret") ann res_of_ann empty with_ann ann_at_100 delete_me 0
      start with_ann ann_valid refl refl (omega arith) (omega arith) (omega arith) (omega arith)
      refl refl refl refl refl some_id refl

abbrev register_me : Request
register_me = record {
  method = "POST";
  url = "/api/users/reg";
  path = "/api/users/reg";
  remote_addr = "10.0.0.1:5000";
  headers = [];
  cookies = [];
  params = [];
  context = [];
}

abbrev ann_body : RegBody
ann_body = record { name = "ann"; role = "guest"; email = "a@b.co"; pswd = "12345678" }

register_route-reg_user_example :
    (m' : ℕ) × (b' : Cb) × (register_route libs from_error
        (λ n w. w)
        run_cb
        (λ A m. m)
        responses
        Breakers.view
        is_open
        "UserService"
        run_cb-IsGobreaker
        (λ A m w a w' h. h)
        false
        (λ fields. none)
        (λ m. (uuid, m))
        (λ label m. m + 1)
        (λ svc op m. m + 1)
        (λ r. ok ann_body)
        register_me
        (0, (start, empty))
      ≡ (Reply.json 200 (("token", token_of_ann) ∷ []) (some uuid), (m', (b', with_ann))))
    × (b'.0 ≡ Phase.state_closed)
register_route-reg_user_example =
    register_route-reg_user libs from_error (λ n w. w) run_cb (λ A m. m) responses Breakers.view
      is_open "UserService" run_cb-IsGobreaker (λ A m w a w' h. h) false (λ fields. none)
      (λ m. (uuid, m)) (λ label m. m + 1) (λ svc op m. m + 1) (λ r. ok ann_body) register_me 0 start
      empty with_ann ann_body res_of_ann refl refl refl ann_registered refl
