-- ===== src/Protos/Violation.antt =====
-- The error types that protos/generated-user/user-service.pb.validate.go and
-- protos/generated-order/order-service.pb.validate.go declare for each message M: the struct
-- MValidationError with its methods, and the list MMultiError with its own.
pub mod Texts
use Prim.Native.String.{◌++◌}
use l.Prelude.{
  String, Bool, true, false, List, [], ◌∷◌, Option, none, some, if◌then◌else◌, ◌≡◌, refl,
}
use l.Strings.{join}
use l.Errors.{Error, error_text, invalid, invalid_because}

-- The struct MValidationError.
pub record Violation : Type 0 where
  pub field : String
  pub reason : String
  pub cause : Option Error
  pub key : Bool

-- The methods of MMultiError and MValidationError.
pub record ErrorTypes : Type 0 where
  pub multi_error : List Error → String
  pub all_errors : List Error → List Error
  pub field : Violation → String
  pub reason : Violation → String
  pub cause : Violation → Option Error
  pub key : Violation → Bool
  pub error_name : Violation → String
  pub error : Violation → String

abbrev pub texts : List Error → List String
texts [] = []
texts (e ∷ es) = error_text e ∷ texts es

-- Error of MMultiError
unfoldable pub multi_text : List Error → String
unfolding join
multi_text es = join "; " (texts es)

abbrev pub cause_text : Option Error → String
cause_text none = ""
cause_text (some e) = " | caused by: " ++ error_text e

-- Error of MValidationError; the format is "invalid %sM.%s: %s%s".
unfoldable pub violation_text : String → Violation → String
violation_text message v =
    "invalid "
    ++ ((if v.key then "key for " else "")
        ++ (message ++ ("." ++ (v.field ++ (": " ++ (v.reason ++ cause_text v.cause))))))

unfoldable pub error_types : String → ErrorTypes
unfolding multi_text violation_text
error_types message = record {
  multi_error = multi_text;
  all_errors = λ es. es;
  field = λ v. v.field;
  reason = λ v. v.reason;
  cause = λ v. v.cause;
  key = λ v. v.key;
  error_name = λ v. message ++ "ValidationError";
  error = violation_text message;
}

-- The violation as the value of the interface `error` that the checks of Protos.Rules return. They
-- leave `key` unset.
abbrev pub raised : String → Violation → Error
raised message v = elim v.cause [
  | none ↦ invalid message v.field v.reason
  | some e ↦ invalid_because message v.field v.reason e
]

-- The messages of both services.
pub data Message : Type 0 where
  reg_req reg_res log_req log_res ext_jwt_data_req ext_jwt_data_res : Message
  del_user_req del_user_res add_order_req add_order_res : Message
  order_info_req order_info_res del_order_req del_order_res : Message

unfoldable pub reg_req_errors : ErrorTypes
unfolding error_types
reg_req_errors = error_types "RegReq"

unfoldable pub reg_res_errors : ErrorTypes
unfolding error_types
reg_res_errors = error_types "RegRes"

unfoldable pub log_req_errors : ErrorTypes
unfolding error_types
log_req_errors = error_types "LogReq"

unfoldable pub log_res_errors : ErrorTypes
unfolding error_types
log_res_errors = error_types "LogRes"

unfoldable pub ext_jwt_data_req_errors : ErrorTypes
unfolding error_types
ext_jwt_data_req_errors = error_types "ExtJWTDataReq"

unfoldable pub ext_jwt_data_res_errors : ErrorTypes
unfolding error_types
ext_jwt_data_res_errors = error_types "ExtJWTDataRes"

unfoldable pub del_user_req_errors : ErrorTypes
unfolding error_types
del_user_req_errors = error_types "DelUserReq"

unfoldable pub del_user_res_errors : ErrorTypes
unfolding error_types
del_user_res_errors = error_types "DelUserRes"

unfoldable pub add_order_req_errors : ErrorTypes
unfolding error_types
add_order_req_errors = error_types "AddOrderReq"

unfoldable pub add_order_res_errors : ErrorTypes
unfolding error_types
add_order_res_errors = error_types "AddOrderRes"

unfoldable pub order_info_req_errors : ErrorTypes
unfolding error_types
order_info_req_errors = error_types "OrderInfoReq"

unfoldable pub order_info_res_errors : ErrorTypes
unfolding error_types
order_info_res_errors = error_types "OrderInfoRes"

unfoldable pub del_order_req_errors : ErrorTypes
unfolding error_types
del_order_req_errors = error_types "DelOrderReq"

unfoldable pub del_order_res_errors : ErrorTypes
unfolding error_types
del_order_res_errors = error_types "DelOrderRes"

abbrev pub message_name : Message → String
message_name Message.reg_req = "RegReq"
message_name Message.reg_res = "RegRes"
message_name Message.log_req = "LogReq"
message_name Message.log_res = "LogRes"
message_name Message.ext_jwt_data_req = "ExtJWTDataReq"
message_name Message.ext_jwt_data_res = "ExtJWTDataRes"
message_name Message.del_user_req = "DelUserReq"
message_name Message.del_user_res = "DelUserRes"
message_name Message.add_order_req = "AddOrderReq"
message_name Message.add_order_res = "AddOrderRes"
message_name Message.order_info_req = "OrderInfoReq"
message_name Message.order_info_res = "OrderInfoRes"
message_name Message.del_order_req = "DelOrderReq"
message_name Message.del_order_res = "DelOrderRes"

-- The error types of a message.
unfoldable pub errors_of_message : Message → ErrorTypes
unfolding reg_req_errors reg_res_errors log_req_errors log_res_errors ext_jwt_data_req_errors
    ext_jwt_data_res_errors del_user_req_errors del_user_res_errors add_order_req_errors
    add_order_res_errors order_info_req_errors order_info_res_errors del_order_req_errors
    del_order_res_errors
errors_of_message Message.reg_req = reg_req_errors
errors_of_message Message.reg_res = reg_res_errors
errors_of_message Message.log_req = log_req_errors
errors_of_message Message.log_res = log_res_errors
errors_of_message Message.ext_jwt_data_req = ext_jwt_data_req_errors
errors_of_message Message.ext_jwt_data_res = ext_jwt_data_res_errors
errors_of_message Message.del_user_req = del_user_req_errors
errors_of_message Message.del_user_res = del_user_res_errors
errors_of_message Message.add_order_req = add_order_req_errors
errors_of_message Message.add_order_res = add_order_res_errors
errors_of_message Message.order_info_req = order_info_req_errors
errors_of_message Message.order_info_res = order_info_res_errors
errors_of_message Message.del_order_req = del_order_req_errors
errors_of_message Message.del_order_res = del_order_res_errors

key_text :
    reg_req_errors.error
      (record { field = "Name"; reason = "no"; cause = some (Error.text "why"); key = true })
    ≡ "invalid key for RegReq.Name: no | caused by: why"
unfolding reg_req_errors error_text
key_text = refl
