-- ===== src/Protos/Order.antt =====
-- The messages of orders.OrderService (protos/order-service.proto) with the `validate(all)` of each
-- (protos/generated-order/order-service.pb.validate.go). A timestamp is the text that the database
-- has for it, `none` for a nil pointer.
pub mod Accepted
use l.Prelude.{String, Bool, false, List, [], ◌∷◌, Option, none, some}
use l.Prelude.Int.{ℤ, is_positive}
use l.Prelude.Lists.{contains}
use l.Errors.{Error, invalid}
use l.Protos.Address.{Parsers}
use l.Protos.Rules.{
  Verdict, accepted, run_checks, to_error, field_check, order_types, check_role, check_uuid,
  check_uri,
}

pub record AddOrderReq : Type 0 where
  pub user_id : String
  pub user_role : String
  pub target_url : String
  pub order_type : String
  pub quantity : ℤ
  pub service_url : String

pub record AddOrderRes : Type 0 where
  pub id : String

pub record OrderInfoReq : Type 0 where
  pub id : String
  pub user_id : String

pub record OrderInfoRes : Type 0 where
  pub user_id : String
  pub user_role : String
  pub status : String
  pub target_url : String
  pub service_url : String
  pub order_type : String
  pub created_at : Option String
  pub updated_at : Option String

pub record DelOrderReq : Type 0 where
  pub id : String
  pub user_id : String
  pub role : String

-- The values of OrderInfoRes.status.
abbrev pub order_statuses : List String
order_statuses = "done" ∷ "cancelled" ∷ "processing" ∷ []

abbrev check_order_type : String → String → Option Error
check_order_type message value =
    field_check (contains order_types value)
      (invalid message "OrderType" "value must be in list [comments likes views]")

abbrev check_present : String → Option String → Option Error
check_present field none = some (invalid "OrderInfoRes" field "value is required")
check_present field (some t) = none

abbrev pub add_order_req_checks : Parsers → AddOrderReq → List (Option Error)
add_order_req_checks p m =
    check_uuid "AddOrderReq" "UserId" m.user_id
    ∷ check_role "AddOrderReq" "UserRole" m.user_role
    ∷ check_uri p "AddOrderReq" "TargetUrl" m.target_url
    ∷ check_order_type "AddOrderReq" m.order_type
    ∷ field_check (is_positive m.quantity)
        (invalid "AddOrderReq" "Quantity" "value must be greater than 0")
    ∷ check_uri p "AddOrderReq" "ServiceUrl" m.service_url
    ∷ []

unfoldable pub validate_add_order_req : Parsers → Bool → AddOrderReq → Verdict
unfolding run_checks
validate_add_order_req p all m = run_checks all (add_order_req_checks p m)

unfoldable pub validate_add_order_res : Bool → AddOrderRes → Verdict
unfolding run_checks
validate_add_order_res all m = run_checks all (check_uuid "AddOrderRes" "Id" m.id ∷ [])

unfoldable pub validate_order_info_req : Bool → OrderInfoReq → Verdict
unfolding run_checks
validate_order_info_req all m =
    run_checks all
      (check_uuid "OrderInfoReq" "Id" m.id ∷ check_uuid "OrderInfoReq" "UserId" m.user_id ∷ [])

unfoldable pub validate_order_info_res : Parsers → Bool → OrderInfoRes → Verdict
unfolding run_checks
validate_order_info_res p all m = run_checks all (
    check_uuid "OrderInfoRes" "UserId" m.user_id
    ∷ check_role "OrderInfoRes" "UserRole" m.user_role
    ∷ field_check (contains order_statuses m.status)
        (invalid "OrderInfoRes" "Status" "value must be in list [done cancelled processing]")
    ∷ check_uri p "OrderInfoRes" "TargetUrl" m.target_url
    ∷ check_uri p "OrderInfoRes" "ServiceUrl" m.service_url
    ∷ check_order_type "OrderInfoRes" m.order_type
    ∷ check_present "CreatedAt" m.created_at
    ∷ check_present "UpdatedAt" m.updated_at
    ∷ [])

unfoldable pub validate_del_order_req : Bool → DelOrderReq → Verdict
unfolding run_checks
validate_del_order_req all m = run_checks all (
    check_uuid "DelOrderReq" "Id" m.id
    ∷ check_uuid "DelOrderReq" "UserId" m.user_id
    ∷ check_role "DelOrderReq" "Role" m.role
    ∷ [])

-- The message has no field.
unfoldable pub validate_del_order_res : Bool → Verdict
validate_del_order_res all = accepted

-- The methods Validate of the requests.
unfoldable pub add_order_req_error : Parsers → AddOrderReq → Option Error
unfolding validate_add_order_req to_error
add_order_req_error p m = to_error (validate_add_order_req p false m)

unfoldable pub order_info_req_error : OrderInfoReq → Option Error
unfolding validate_order_info_req to_error
order_info_req_error m = to_error (validate_order_info_req false m)

unfoldable pub del_order_req_error : DelOrderReq → Option Error
unfolding validate_del_order_req to_error
del_order_req_error m = to_error (validate_del_order_req false m)
