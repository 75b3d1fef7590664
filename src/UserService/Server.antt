-- ===== src/UserService/Server.antt =====
-- user-service/main.go: the handlers of the gRPC service. A handler takes the request and the world,
-- and returns the response or the error that gRPC sends back, and the world that it leaves.
pub mod Access
pub mod Registration
pub mod Login
pub mod OwnAccount
pub mod Users
pub mod Duplicates
use Prim.Native.String.{◌++◌}
use l.Prelude.{String, not, ◌&&◌, Option, none, some, ◌==◌, if◌then◌else◌}
use l.Errors.{Error, as_pq}
use l.Errors
use l.Exec.{ok, Exec, pure, fail, wrapping, mapping, require, ◌>>=◌, ◌>>◌}
use l.Libs.{Libs, World, on_host, on_redis, on_db}
use l.Protos.User.{
  RegReq, RegRes, LogReq, LogRes, ExtJwtDataReq, ExtJwtDataRes, DelUserReq, reg_req_error,
  log_req_error, ext_jwt_data_req_error, del_user_req_error,
}
use l.UserService.Crypto.{UserInfo, hash, check_pswd, gen_jwt, ext_jwt}
use l.UserService.Repo.{User, add_user, log_user}
use l.UserService.Repo
use l.UserService.Sessions.{store_session, validate, del_session}

-- The error of RegUser for an error of AddUser: `as_pq` is errors.As into a *pq.Error.
abbrev pub add_user_error : Error → Error
add_user_error e = elim (as_pq e) [
  | none ↦ Errors.wrapped "UserService.ReqUser: add user: " e
  | some code ↦
      if code == "23505"
      then Errors.text "UserService.ReqUser: user with this email or username already exists"
      else Errors.wrapped "UserService.ReqUser: add user: " e
]

module _ {K S D Q Tx : Type 0} (x : Libs K S D Q Tx) where
  new_id : Exec (World K S D) String
  new_id = on_host (λ k. let (id, k') = x.host.new_uuid k in (ok id, k'))

  -- NewSession of redis.go: the key is drawn from the host, then stored.
  unfoldable pub new_session : String → String → Exec (World K S D) String
  unfolding new_id store_session
  new_session id role = do sk ← new_id; on_redis (store_session x.redis sk id role)

  -- RegUser
  unfoldable pub reg_user : RegReq → Exec (World K S D) RegRes
  unfolding new_id new_session hash gen_jwt add_user
  reg_user req = do
    require "UserService.ReqUser validate: " (reg_req_error x.parsers req)
    id ← new_id
    hashed ←
        wrapping "UserService.ReqUser: hash password: "
          (on_host (hash x.host x.bcrypt req.password))
    token ←
        wrapping "UserService.ReqUser: generate jwt: "
          (on_host (gen_jwt x.host x.jwt x.jwt_secret id req.role))
    session_key ← wrapping "UserService.ReqUser: new session: " (new_session id req.role)
    mapping add_user_error (on_db (add_user x.pg id (req.name ++ req.email) req.role hashed))
    pure (record { token = token; session_key = session_key })

  -- The end of LogUser, after the password was checked.
  unfoldable pub issue_session : User → Exec (World K S D) LogRes
  unfolding new_session gen_jwt
  issue_session user = do
    session_key ← wrapping "UserService.LogUser: new session: " (new_session user.id user.role)
    token ←
        wrapping "UserService.LogUser: generate jwt: "
          (on_host (gen_jwt x.host x.jwt x.jwt_secret user.id user.role))
    pure (record { token = token; session_key = session_key })

  -- The rest of LogUser, for the user that was found and the password of the request.
  unfoldable pub admit_user : String → User → Exec (World K S D) LogRes
  unfolding issue_session
  admit_user password user =
      if not (check_pswd x.host x.bcrypt user.pswd password)
      then fail (Errors.text "UserService.LogUser: check password: Invalid password")
      else issue_session user

  -- LogUser
  unfoldable pub log_user_handler : LogReq → Exec (World K S D) LogRes
  unfolding log_user admit_user
  log_user_handler req = do
    require "UserService.LogUser validate: " (log_req_error x.parsers req)
    user ←
        wrapping "UserService.LogUser: login user: "
          (on_db (log_user x.pg (req.name ++ req.email) req.password))
    admit_user req.password user

  -- The branch of ExtJWTData for a token that names a user and a role.
  unfoldable pub renew : ExtJwtDataReq → UserInfo → Exec (World K S D) ExtJwtDataRes
  unfolding gen_jwt validate
  renew req info = do
    wrapping "UserService.ExtJWTData: validate: "
        (on_redis (validate x.redis info.user_id info.role req.session_key))
    token ←
        wrapping "UserService.ExtJWTData: generate jwt: "
          (on_host (gen_jwt x.host x.jwt x.jwt_secret info.user_id info.role))
    pure (record { role = info.role; user_id = info.user_id; token = token })

  -- What ExtJWTData does with the result of ExtJWT.
  unfoldable pub answer : ExtJwtDataReq → UserInfo → Option Error → Exec (World K S D) ExtJwtDataRes
  unfolding renew
  answer req info (some e) = fail (Errors.wrapped "UserService.ExtJWTData: extract jwt: " e)
  answer req info none =
      if not (info.user_id == "") && not (info.role == "")
      then renew req info
      else pure (record { role = info.role; user_id = info.user_id; token = req.token })

  -- ExtJWTData
  unfoldable pub ext_jwt_data : ExtJwtDataReq → Exec (World K S D) ExtJwtDataRes
  unfolding ext_jwt answer
  ext_jwt_data req = do
    require "UserService.ExtJWTData validate: " (ext_jwt_data_req_error req)
    (λ w.
        let ((info, e), k) = ext_jwt x.host x.jwt x.jwt_secret req.token w.host in
        answer req info e (record w { host = k }))

  -- DelUser
  unfoldable pub del_user : DelUserReq → Exec (World K S D) Unit
  unfolding del_session Repo.del_user
  del_user req = do
    require "UserService.DelUser validate: " (del_user_req_error req)
    wrapping "UserService.DelUser: delete session: "
        (on_redis (del_session x.redis req.session_key))
    wrapping "UserService.DelUser: delete user: "
        (on_db (Repo.del_user x.pg req.user_id req.role req.del_user_id))
