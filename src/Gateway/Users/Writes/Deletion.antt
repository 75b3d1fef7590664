-- ===== src/Gateway/Users/Writes/Deletion.antt =====
-- delUser of api-gateway/internal/users/handler.go on the ResponseWriter, with regUser and logUser.
use l.Prelude.{String, Bool, true, false, ◌||◌, Option, none, some, ◌==◌, refl, if◌then◌else◌}
use Prim.Native.String.append
use l.Prelude.Lists.{lookup}
use l.Errors.{Error, error_text}
use l.Exec.{Result, ok, err}
use l.Gateway.Http.{UserInfo, Key, Request, Reply, value, as_user}
use l.Gateway.Mdwr.{request_id}
use l.Gateway.Service.Writer.{Writer, Spelling, fresh, http_error, write_header, validate}
use l.Gateway.Users.{
  Validator, UsersRpc, RegBody, LogBody, reg_user, log_user, del_user, del_fields, del_request,
  del_with_cookie, replied,
}
use l.Gateway.Users.Writes.{
  Shows, Agree, unless_refused, validated-Agree, write_reg_user, write_log_user,
  write_handlers-Agree,
}

-- The status 200 or the error of a call.
abbrev pub write_status : {W A : Type 0} → Result A × W → Writer → Writer × W
write_status (ok done, w) x = (write_header 200 x, w)
write_status (err e, w) x = (http_error e 500 x, w)

module _ {W : Type 0} (spelling : Spelling) (mode : String) where
  if-Agree :
      (b : Bool) (p p' : Reply × W) (q q' : Writer × W)
      → Agree spelling mode p q
      → Agree spelling mode p' q'
      → Agree spelling mode (if b then p else p') (if b then q else q')
  if-Agree true p p' q q' h h' = h
  if-Agree false p p' q q' h h' = h'

  pub status-Agree :
      {A : Type 0} (answer : Result A × W)
      → Agree spelling mode (replied (λ done. Reply.status 200) answer) (write_status answer fresh)
  unfolding Shows
  status-Agree (ok done, w) = ((refl, refl), refl)
  status-Agree (err e, w) = ((refl, append.nil _), refl)

module _ {W : Type 0} (spelling : Spelling) (mode : String) (merged : Bool) (validator : Validator)
    (rpc : UsersRpc W) where
  -- delUser from the session cookie on
  abbrev pub write_with_cookie : Request → UserInfo → Option String → Writer → W → Writer × W
  write_with_cookie r user none x w = (x, w)
  write_with_cookie r user (some sk) x w =
      let q = del_request merged validator rpc r user sk in
      unless_refused spelling mode (validate validator (del_fields merged validator rpc q) x)
        (λ x₁ w₁. write_status (rpc.del_user q w₁) x₁) w

  -- delUser
  unfoldable pub write_del_user : Request → Writer → W → Writer × W
  write_del_user r x w =
      if request_id merged r == ""
      then (http_error (Error.text "internal error") 500 x, w)
      else (let user = as_user (value merged r Key.user_key) in
          if user.user_id == "" || user.role == ""
          then (http_error (Error.text "unauthorized") 401 x, w)
          else write_with_cookie r user (lookup "session_key" r.cookies) x w)

  abbrev Agrees : Reply × W → Writer × W → Type 0
  Agrees = Agree spelling mode

  cookie-Agree :
      (r : Request) (user : UserInfo) (cookie : Option String) (w : W)
      → Agrees
          (del_with_cookie merged validator rpc r user cookie w)
          (write_with_cookie r user cookie fresh w)
  unfolding Shows
  cookie-Agree r user none w = ((refl, refl), refl)
  cookie-Agree r user (some sk) w =
      let q = del_request merged validator rpc r user sk in
      validated-Agree spelling mode (validator (del_fields merged validator rpc q)) _ _ w
        (status-Agree spelling mode (rpc.del_user q w))

  -- What regUser, logUser and delUser send for a request, each in the order of its calls on the
  -- writer, is the reply of the handler, for which the handler leaves the same state: one status, the
  -- header that belongs to it and was set before it, with the session cookie of SetSession where
  -- regUser or logUser succeeds and nowhere else, and the body.
  pub users_handlers-Agree :
      (bind_reg : Request → Result RegBody) (bind_log : Request → Result LogBody) (r : Request)
      (w : W)
      → Agrees
          (reg_user merged validator rpc bind_reg r w)
          (write_reg_user spelling mode merged validator rpc bind_reg r fresh w)
        × Agrees
            (log_user merged validator rpc bind_log r w)
            (write_log_user spelling mode merged validator rpc bind_log r fresh w)
        × Agrees (del_user merged validator rpc r w) (write_del_user r fresh w)
  unfolding del_user write_del_user Shows error_text
  users_handlers-Agree bind_reg bind_log r w =
      let (reg, log) =
        write_handlers-Agree spelling mode merged validator rpc bind_reg bind_log r w in
      let user = as_user (value merged r Key.user_key) in
      (
        reg,
        log,
        if-Agree spelling mode (request_id merged r == "") _ _ _ _ ((refl, append.nil _), refl)
            (if-Agree spelling mode (user.user_id == "" || user.role == "") _ _ _ _
              ((refl, append.nil _), refl)
              (cookie-Agree r user (lookup "session_key" r.cookies) w)),
      )
