-- ===== src/UserService/Server/Login.antt =====
-- Logging in to a registered account, and reading a token that was issued
-- (LogUser and ExtJWTData of user-service/main.go).
use Prim.Native.String.{◌++◌}
use l.Prelude.{ℕ, ◌+◌, ◌≤◌, String, ◌≡◌, ◌≢◌, refl, none, ◌∙◌, ltb, arith, ne→str_ne, true, false}
use l.Exec.{ok, pure, ◌>>=◌}
use l.Exec.Inversion.{bind-of-ok, wrapping-of-ok}
use l.Sql.Laws.{IsPostgres}
use l.Sql.Laws
use l.Sql.Schema.{unique_columns}
use l.Redis.{IsRedis}
use l.Redis
use l.Libs.{Libs, World, Jwt, on_db, on_host}
use l.Libs.Laws.{IsBcrypt, IsJwt, max_exact}
use l.Libs.Zoom.{on_redis-of-ok, on_host-of-ok}
use l.Protos.User.{RegReq, RegRes, LogReq, LogRes, ExtJwtDataReq}
use l.Protos.User.{log_req_error, ext_jwt_data_req_error}
use l.UserService.Crypto.{gen_jwt, ext_jwt, check_pswd, token_seconds, claims_of}
use l.UserService.Crypto.Tokens.{ext_jwt-gen_jwt}
use l.UserService.Repo.{User}
use l.UserService.Repo.Accounts.{log_user-Inserted}
use l.UserService.Sessions.{store_session}
use l.UserService.Sessions.Keys.{
  HasSession, HasSession-of_Stored, store_session-Stored, store_session_up, validate_up,
}
use l.UserService.Server.{
  new_id, new_session, issue_session, admit_user, renew, answer, ext_jwt_data, log_user_handler,
}
use l.UserService.Server.Registration.{Registered}

-- Signing the claims of a user does not fail.
abbrev pub Signs : Jwt → String → Type 0
Signs jwt secret =
    (id role : String) (exp : ℕ)
    → (token : String) × (jwt.sign (claims_of id role exp) secret ≡ ok token)

module _ {K S D Q Tx : Type 0} (x : Libs K S D Q Tx) (sv : Redis.View S) (dv : Laws.View D Tx)
    (redis : IsRedis x.redis sv) (pg : IsPostgres x.pg dv unique_columns)
    (bcrypt : IsBcrypt x.bcrypt) (redis_up : Redis.IsUp x.redis sv)
    (pg_up : Laws.IsUp x.pg dv unique_columns) (signs : Signs x.jwt x.jwt_secret) where
  pub gen_jwt_up :
      (id role : String) (k : K)
      → (token : String) × (gen_jwt x.host x.jwt x.jwt_secret id role k
          ≡ (ok token, (x.host.now k).1))
  unfolding gen_jwt
  gen_jwt_up id role k =
      let (token, signed) = signs id role ((x.host.now k).0 + token_seconds) in (token, rw signed)

  pub new_session_up :
      (id role : String) (w : World K S D)
      → (sk : String) × (w' : World K S D) × (new_session x id role w ≡ (ok sk, w'))
        × HasSession sv w'.sessions sk id role
  unfolding new_session new_id on_host
  new_session_up id role w =
      let (sk, k) = x.host.new_uuid w.host in
      let (s, stored) = store_session_up x.redis sv redis redis_up sk id role w.sessions in
      (
        sk,
        record w { host = k; sessions = s },
        bind-of-ok (new_id x) _ w refl
            ∙ on_redis-of-ok (store_session x.redis sk id role) (record w { host = k }) stored,
        HasSession-of_Stored x.redis sv redis sk id role _ _
            (store_session-Stored x.redis sv redis sk id role w.sessions stored).1,
      )

  -- A session and a token for the user.
  pub record Issued (id role : String) (res : LogRes) (w' : World K S D) : Type 0 where
    pub session : HasSession sv w'.sessions res.session_key id role
    pub host_at_issue : K
    pub host_after : K
    pub token_issued :
        gen_jwt x.host x.jwt x.jwt_secret id role host_at_issue ≡ (ok res.token, host_after)

  issue_session_up :
      (user : User) (w : World K S D)
      → (res : LogRes) × (w' : World K S D) × (issue_session x user w ≡ (ok res, w'))
        × Issued user.id user.role res w'
  unfolding issue_session pure
  issue_session_up user w =
      let (sk, w₁, made, session) = new_session_up user.id user.role w in
      let (token, signed) = gen_jwt_up user.id user.role w₁.host in
      (
        record { token = token; session_key = sk },
        record w₁ { host = (x.host.now w₁.host).1 },
        bind-of-ok _ _ w (wrapping-of-ok _ _ w made)
            ∙ bind-of-ok _ _ w₁ (
                wrapping-of-ok _ _ w₁
                  (on_host-of-ok (gen_jwt x.host x.jwt x.jwt_secret user.id user.role) w₁ signed)),
        record {
          session = session;
          host_at_issue = w₁.host;
          host_after = (x.host.now w₁.host).1;
          token_issued = signed;
        },
      )

  check_pswd-matching :
      (hashed password : String)
      → x.bcrypt.compare_hash hashed password ≡ none
      → check_pswd x.host x.bcrypt hashed password ≡ true
  unfolding check_pswd
  check_pswd-matching hashed password h = rw (h, check_pswd)

  admit_user_up :
      (password : String) (user : User) (w : World K S D)
      → x.bcrypt.compare_hash user.pswd password ≡ none
      → (res : LogRes) × (w' : World K S D) × (admit_user x password user w ≡ (ok res, w'))
        × Issued user.id user.role res w'
  unfolding admit_user
  admit_user_up password user w matching =
      let (res, w', issued, effect) = issue_session_up user w in
      (res, w', rw (check_pswd-matching user.pswd password matching) issued, effect)

  -- After a registration, and while PostgreSQL and Redis are up and signing does not fail, LogUser
  -- succeeds for every valid request that has the registered password and whose name and email,
  -- joined, are the registered name and email joined. It issues a session and a token for the
  -- registered user and role. The users are as the registration left them; the host and the sessions
  -- may have changed.
  pub log_user-reg_user :
      (reg : RegReq) (reg_res : RegRes) (w₀ w₁ w₂ : World K S D) (req : LogReq)
      (registered : Registered x sv dv redis pg bcrypt reg reg_res w₀ w₁)
      → w₂.db ≡ w₁.db
      → log_req_error x.parsers req ≡ none
      → req.name ++ req.email ≡ reg.name ++ reg.email
      → req.password ≡ reg.password
      → (res : LogRes) × (w' : World K S D) × (log_user_handler x req w₂ ≡ (ok res, w'))
        × Issued registered.id reg.role res w'
  unfolding log_user_handler on_db ◌>>=◌
  log_user-reg_user reg reg_res w₀ w₁ w₂ req r same_db valid same_name same_pswd =
      let user : User = record { id = r.id; role = reg.role; pswd = r.hashed } in
      let (d, found) =
        log_user-Inserted x.pg dv pg pg_up r.id (reg.name ++ reg.email) reg.role r.hashed
          reg.password w₀.db w₁.db r.added in
      let (res, w', admitted, effect) =
        admit_user_up reg.password user (record w₂ { db = d }) r.password_kept in
      (res, w', rw (valid, same_name, same_pswd, same_db, found) admitted, effect)

  renew_up :
      (jwt : IsJwt x.jwt) (req : ExtJwtDataReq) (id role : String) (w : World K S D)
      → HasSession sv w.sessions req.session_key id role
      → (token : String) × (w' : World K S D) × (renew x req
            (record { role = role; user_id = id })
            w
          ≡ (ok (record { role = role; user_id = id; token = token }), w'))
        × (gen_jwt x.host x.jwt x.jwt_secret id role w.host ≡ (ok token, w'.host))
  unfolding renew pure
  renew_up jwt req id role w session =
      let (s, valid) =
        validate_up x.redis sv redis redis_up req.session_key id role w.sessions session in
      let (token, signed) = gen_jwt_up id role w.host in
      (
        token,
        record w { host = (x.host.now w.host).1; sessions = s },
        bind-of-ok _ _ w (wrapping-of-ok _ _ w (on_redis-of-ok _ w valid))
            ∙ bind-of-ok _ _ (record w { sessions = s })
                (wrapping-of-ok _ _ (record w { sessions = s })
                  (on_host-of-ok (gen_jwt x.host x.jwt x.jwt_secret id role)
                    (record w { sessions = s }) signed)),
        signed,
      )

  -- While Redis is up and signing does not fail, ExtJWTData answers a valid request with an issued
  -- token, at most 15 minutes after its issue, and the session of its user: with that user and role,
  -- which are not empty, and the token that GenJWT issues for them after the request's has been read.
  pub ext_jwt_data-issued :
      (jwt : IsJwt x.jwt) (req : ExtJwtDataReq) (id role : String) (k k' : K) (w : World K S D)
      → id ≢ ""
      → role ≢ ""
      → gen_jwt x.host x.jwt x.jwt_secret id role k ≡ (ok req.token, k')
      → HasSession sv w.sessions req.session_key id role
      → ext_jwt_data_req_error req ≡ none
      → (x.host.now k).0 + token_seconds ≤ max_exact
      → (x.host.now w.host).0 ≤ (x.host.now k).0 + token_seconds
      → (token : String) × (w' : World K S D) × (ext_jwt_data x req w
          ≡ (ok (record { role = role; user_id = id; token = token }), w'))
        × (gen_jwt x.host x.jwt x.jwt_secret id role
              (ext_jwt x.host x.jwt x.jwt_secret req.token w.host).1
            ≡ (ok token, w'.host))
  unfolding ext_jwt_data answer ◌>>=◌
  ext_jwt_data-issued jwt req id role k k' w has_id has_role issued session valid fits in_time =
      let read =
        ext_jwt-gen_jwt x.host x.jwt x.jwt_secret jwt id role req.token k k' w.host fits issued in
      let fresh : ltb ((x.host.now k).0 + token_seconds) (x.host.now w.host).0 ≡ false =
        ground arith in
      let (token, w', renewed, signed) =
        renew_up jwt req id role
          (record w { host = (ext_jwt x.host x.jwt x.jwt_secret req.token w.host).1 }) session in
      (
        token,
        w',
        rw (valid, read, fresh) (rw (ne→str_ne id "" has_id, ne→str_ne role "" has_role) renewed),
        signed,
      )
