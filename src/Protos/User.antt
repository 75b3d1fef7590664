-- ===== src/Protos/User.antt =====
-- The messages of users.UserService (protos/user-service.proto) with the `validate(all)` of each
-- (protos/generated-user/user-service.pb.validate.go). A getter returns the field; the receiver of
-- a method is never nil here, since gRPC hands a server a message.
pub mod Accepted
use Prim.Native.String.{count}
use l.Prelude.{String, Bool, List, ◌&&◌, [], ◌∷◌, Option, leb}
use l.Errors.{Error, invalid}
use l.Protos.Address.{Parsers}
use l.Protos.Rules.{
  Verdict, accepted, run_checks, to_error, field_check, check_role, check_uuid, check_min_runes,
  check_email,
}

pub record RegReq : Type 0 where
  pub name : String
  pub email : String
  pub role : String
  pub password : String

pub record RegRes : Type 0 where
  pub token : String
  pub session_key : String

pub record LogReq : Type 0 where
  pub name : String
  pub email : String
  pub password : String

pub record LogRes : Type 0 where
  pub token : String
  pub session_key : String

pub record ExtJwtDataReq : Type 0 where
  pub token : String
  pub session_key : String

pub record ExtJwtDataRes : Type 0 where
  pub role : String
  pub user_id : String
  pub token : String

pub record DelUserReq : Type 0 where
  pub role : String
  pub user_id : String
  pub del_user_id : String
  pub session_key : String

abbrev pub check_name : String → String → Option Error
check_name message name =
    field_check (leb 2 (count name) && leb (count name) 50)
      (invalid message "Name" "value length must be between 2 and 50 runes, inclusive")

abbrev pub reg_req_checks : Parsers → RegReq → List (Option Error)
reg_req_checks p m =
    check_name "RegReq" m.name
    ∷ check_email p "RegReq" "Email" m.email
    ∷ check_role "RegReq" "Role" m.role
    ∷ check_min_runes 8 "RegReq" "Password" "value length must be at least 8 runes" m.password
    ∷ []

unfoldable pub validate_reg_req : Parsers → Bool → RegReq → Verdict
unfolding run_checks
validate_reg_req p all m = run_checks all (reg_req_checks p m)

abbrev pub too_short : String
too_short = "value length must be at least 100 runes"

unfoldable pub validate_reg_res : Bool → RegRes → Verdict
unfolding run_checks
validate_reg_res all m = run_checks all (
    check_min_runes 100 "RegRes" "Token" too_short m.token
    ∷ check_uuid "RegRes" "SessionKey" m.session_key
    ∷ [])

unfoldable pub validate_log_req : Parsers → Bool → LogReq → Verdict
unfolding run_checks
validate_log_req p all m = run_checks all (
    check_name "LogReq" m.name
    ∷ check_email p "LogReq" "Email" m.email
    ∷ check_min_runes 8 "LogReq" "Password" "value length must be at least 8 runes" m.password
    ∷ [])

unfoldable pub validate_log_res : Bool → LogRes → Verdict
unfolding run_checks
validate_log_res all m = run_checks all (
    check_min_runes 100 "LogRes" "Token" too_short m.token
    ∷ check_uuid "LogRes" "SessionKey" m.session_key
    ∷ [])

unfoldable pub validate_ext_jwt_data_req : Bool → ExtJwtDataReq → Verdict
unfolding run_checks
validate_ext_jwt_data_req all m = run_checks all (
    check_min_runes 100 "ExtJWTDataReq" "Token" too_short m.token
    ∷ check_uuid "ExtJWTDataReq" "SessionKey" m.session_key
    ∷ [])

-- The proto file puts no rule on user_id.
unfoldable pub validate_ext_jwt_data_res : Bool → ExtJwtDataRes → Verdict
unfolding run_checks
validate_ext_jwt_data_res all m = run_checks all (
    check_role "ExtJWTDataRes" "Role" m.role
    ∷ check_min_runes 100 "ExtJWTDataRes" "Token" too_short m.token
    ∷ [])

-- The proto file puts no rule on del_user_id.
abbrev pub del_user_req_checks : DelUserReq → List (Option Error)
del_user_req_checks m =
    check_role "DelUserReq" "Role" m.role
    ∷ check_uuid "DelUserReq" "UserId" m.user_id
    ∷ check_uuid "DelUserReq" "SessionKey" m.session_key
    ∷ []

unfoldable pub validate_del_user_req : Bool → DelUserReq → Verdict
unfolding run_checks
validate_del_user_req all m = run_checks all (del_user_req_checks m)

-- The message has no field.
unfoldable pub validate_del_user_res : Bool → Verdict
validate_del_user_res all = accepted

-- The methods Validate of the requests.
unfoldable pub reg_req_error : Parsers → RegReq → Option Error
unfolding validate_reg_req to_error
reg_req_error p m = to_error (validate_reg_req p Bool.false m)

unfoldable pub log_req_error : Parsers → LogReq → Option Error
unfolding validate_log_req to_error
log_req_error p m = to_error (validate_log_req p Bool.false m)

unfoldable pub ext_jwt_data_req_error : ExtJwtDataReq → Option Error
unfolding validate_ext_jwt_data_req to_error
ext_jwt_data_req_error m = to_error (validate_ext_jwt_data_req Bool.false m)

unfoldable pub del_user_req_error : DelUserReq → Option Error
unfolding validate_del_user_req to_error
del_user_req_error m = to_error (validate_del_user_req Bool.false m)
