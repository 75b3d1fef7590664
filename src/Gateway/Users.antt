-- ===== src/Gateway/Users.antt =====
-- api-gateway/internal/users/handler.go: the HTTP handlers of the users group. A call of user-service
-- through service.Execute is a parameter for each method; the request id that it carries is a field
-- that the messages in protos do not have, and is left out. The decoding of a body and the validator
-- are parameters.
pub mod Deletion
pub mod Session
pub mod Writes
use l.Prelude.{
  ℕ, String, Bool, true, false, ◌||◌, List, [], ◌∷◌, Option, none, some, ◌==◌, if◌then◌else◌,
}
use l.Prelude.Int.{ℤ}
use l.Prelude.Lists.{lookup, or_empty}
use l.Errors.{Error, error_text}
use l.Exec.{Result, ok, err, Exec}
use l.Protos.User.{RegReq, RegRes, LogReq, LogRes, ExtJwtDataReq, ExtJwtDataRes, DelUserReq}
use l.Gateway.Http.{UserInfo, Key, Request, Reply, Handler, value, as_user}
use l.Gateway.Mdwr.{request_id}

pub data FieldValue : Type 0 where
  text : String → FieldValue
  int : ℤ → FieldValue

-- A field of a struct given to validator.Struct, with its `validate` tag, "" if it has none.
pub record Field : Type 0 where
  pub exported : Bool
  pub tag : String
  pub value : FieldValue

-- validator.Struct
abbrev pub Validator : Type 0
Validator = List Field → Option Error

abbrev pub open_field : String → FieldValue → Field
open_field tag v = record { exported = true; tag = tag; value = v }

abbrev pub hidden_field : String → String → Field
hidden_field tag s = record { exported = false; tag = tag; value = FieldValue.text s }

-- The JSON bodies of regUser and logUser.
pub record RegBody : Type 0 where
  pub name : String
  pub role : String
  pub email : String
  pub pswd : String

pub record LogBody : Type 0 where
  pub name : String
  pub email : String
  pub pswd : String

-- The methods of the client, each through service.Execute and the breaker of the client.
pub record UsersRpc (W : Type 0) : Type 0 where
  pub reg_user : RegReq → Exec W RegRes
  pub log_user : LogReq → Exec W LogRes
  pub ext_jwt_data : ExtJwtDataReq → Exec W ExtJwtDataRes
  pub del_user : DelUserReq → Exec W Unit

-- http.Error with the text of an error.
abbrev pub refuse : {W : Type 0} → ℕ → Error → W → Reply × W
refuse code e w = (Reply.error code (error_text e), w)

-- The checks of Bind and Validate before a call, with a 400 for either.
abbrev pub checked :
    {W A : Type 0} → Validator → Result A → (A → List Field) → (A → W → Reply × W) → W → Reply × W
checked validator body fields next w = elim body [
  | err e ↦ refuse 400 e w
  | ok b ↦ elim (validator (fields b)) [ some e ↦ refuse 400 e w | none ↦ next b w ]
]

-- The reply for the result of a call: a 500 for an error.
abbrev pub replied : {W A : Type 0} → (A → Reply) → Result A × W → Reply × W
replied shown (ok res, w) = (shown res, w)
replied shown (err e, w) = refuse 500 e w

module _ {W : Type 0} (merged : Bool) (validator : Validator) (rpc : UsersRpc W) where
  abbrev pub reg_fields : RegBody → List Field
  reg_fields b =
      open_field "required,min=2,max=50" (FieldValue.text b.name)
      ∷ open_field "oneof=admin user guest dev" (FieldValue.text b.role)
      ∷ open_field "email" (FieldValue.text b.email)
      ∷ open_field "required,min=8" (FieldValue.text b.pswd)
      ∷ []

  -- regUser
  unfoldable pub reg_user : (Request → Result RegBody) → Handler W
  reg_user bind r w =
      checked validator (bind r) reg_fields
        (λ b w₁.
          replied (λ res. Reply.json 200 (("token", res.token) ∷ []) (some res.session_key))
            (rpc.reg_user
              (record { name = b.name; email = b.email; role = b.role; password = b.pswd }) w₁))
        w

  abbrev pub log_fields : LogBody → List Field
  log_fields b =
      open_field "required,min=2,max=50" (FieldValue.text b.name)
      ∷ open_field "email" (FieldValue.text b.email)
      ∷ open_field "required,min=8" (FieldValue.text b.pswd)
      ∷ []

  -- logUser
  unfoldable pub log_user : (Request → Result LogBody) → Handler W
  log_user bind r w =
      checked validator (bind r) log_fields
        (λ b w₁.
          replied (λ res. Reply.json 200 (("token", res.token) ∷ []) (some res.session_key))
            (rpc.log_user (record { name = b.name; email = b.email; password = b.pswd }) w₁))
        w

  -- The user to delete: "me" is the caller.
  abbrev pub target : Request → UserInfo → String
  target r user =
      let id = or_empty (lookup "delUserId" r.params) in if id == "me" then user.user_id else id

  abbrev pub del_fields : DelUserReq → List Field
  del_fields q =
      hidden_field "required,len=36" q.session_key
      ∷ hidden_field "oneof=admin user guest dev" q.role
      ∷ hidden_field "required,len=36" q.user_id
      ∷ hidden_field "required,len=36" q.del_user_id
      ∷ []

  abbrev pub del_request : Request → UserInfo → String → DelUserReq
  del_request r user sk = record {
    role = user.role;
    user_id = user.user_id;
    del_user_id = target r user;
    session_key = sk;
  }

  -- delUser from the session cookie on. A missing cookie returns with nothing written, which net/http
  -- sends as a status 200.
  abbrev pub del_with_cookie : Request → UserInfo → Option String → W → Reply × W
  del_with_cookie r user none w = (Reply.status 200, w)
  del_with_cookie r user (some sk) w = elim (validator (del_fields (del_request r user sk))) [
    | some e ↦ refuse 400 e w
    | none ↦ replied (λ done. Reply.status 200) (rpc.del_user (del_request r user sk) w)
  ]

  -- delUser
  unfoldable pub del_user : Handler W
  del_user r w =
      if request_id merged r == ""
      then (Reply.error 500 "internal error", w)
      else (let user = as_user (value merged r Key.user_key) in
          if user.user_id == "" || user.role == ""
          then (Reply.error 401 "unauthorized", w)
          else del_with_cookie r user (lookup "session_key" r.cookies) w)

  -- ExtJWTData. Its fields are not exported, and their tag is `validator`, which is not read. The
  -- token of the answer is dropped.
  unfoldable pub ext_jwt_data : String → String → String → Exec W UserInfo
  ext_jwt_data token sk rq w = elim (validator (hidden_field "" token ∷ hidden_field "" sk ∷ [])) [
    | some e ↦ (err e, w)
    | none ↦
        (let (res, w') = rpc.ext_jwt_data (record { token = token; session_key = sk }) w in
          elim res [
            | err e ↦ (err e, w')
            | ok data' ↦ (ok (record { role = data'.role; user_id = data'.user_id }), w')
          ])
  ]

  -- extUserId
  unfoldable pub ext_user_id : Handler W
  unfolding ext_jwt_data
  ext_user_id r w = elim (lookup "session_key" r.cookies) [
    | none ↦ (Reply.error 400 "http: named cookie not present", w)
    | some sk ↦
        (let (res, w') = ext_jwt_data (or_empty (lookup "token" r.params)) sk "" w in
          elim res [
            | err e ↦ refuse 400 e w'
            | ok user ↦ (Reply.json 200 (("user_id", user.user_id) ∷ []) none, w')
          ])
  ]
