-- ===== src/Gateway/Orders.antt =====
-- api-gateway/internal/orders/handler.go: the HTTP handlers of the orders group. A call of
-- order-service through service.Execute is a parameter for each method, as are the decoding of a body
-- and the validator.
pub mod Writes
use Prim.Native.String.{◌++◌}
use l.Prelude.{String, Bool, List, [], ◌∷◌, Option, none, some}
use l.Prelude.Int.{ℤ}
use l.Prelude.Lists.{lookup, or_empty}
use l.Errors.{error_text}
use l.Exec.{Result, ok, err, Exec}
use l.Protos.Order.{AddOrderReq, AddOrderRes, OrderInfoReq, OrderInfoRes, DelOrderReq}
use l.Gateway.Http.{UserInfo, Key, CtxValue, Request, Reply, Handler, value}
use l.Gateway.Users.{FieldValue, Field, Validator, open_field, hidden_field, refuse, replied}

pub record OrderBody : Type 0 where
  pub target_url : String
  pub service_url : String
  pub order_type : String
  pub quantity : ℤ

pub record OrdersRpc (W : Type 0) : Type 0 where
  pub add_order : AddOrderReq → Exec W AddOrderRes
  pub order_info : OrderInfoReq → Exec W OrderInfoRes
  pub del_order : DelOrderReq → Exec W Unit

-- `v.(string)` and `v.(ck.UserInfo)` with one result: a panic where the type is another.
abbrev pub must_text : {W : Type 0} → Option CtxValue → (String → W → Reply × W) → W → Reply × W
must_text (some (CtxValue.text s)) next w = next s w
must_text _ next w = (Reply.panic, w)

abbrev pub must_user : {W : Type 0} → Option CtxValue → (UserInfo → W → Reply × W) → W → Reply × W
must_user (some (CtxValue.user u)) next w = next u w
must_user _ next w = (Reply.panic, w)

-- `ui, ok := v.(ck.UserInfo)`: a 401 where the value is no user.
abbrev pub user_or_401 : {W : Type 0} → Option CtxValue → (UserInfo → W → Reply × W) → W → Reply × W
user_or_401 (some (CtxValue.user u)) next w = next u w
user_or_401 _ next w = (Reply.error 401 "user not authorized", w)

module _ {W : Type 0} (merged : Bool) (validator : Validator) (rpc : OrdersRpc W) where
  abbrev pub add_fields : UserInfo → OrderBody → List Field
  add_fields user b =
      hidden_field "required,len=36" user.user_id
      ∷ open_field "url" (FieldValue.text b.target_url)
      ∷ open_field "url" (FieldValue.text b.service_url)
      ∷ open_field "oneof=comments likes views" (FieldValue.text b.order_type)
      ∷ open_field "gt=1" (FieldValue.int b.quantity)
      ∷ []

  -- addOrder after the body was decoded. The role of the user is not sent.
  abbrev pub add_for : OrderBody → UserInfo → W → Reply × W
  add_for b user w = elim (validator (add_fields user b)) [
    | some e ↦ refuse 400 e w
    | none ↦
        replied (λ res. Reply.json 200 (("id", res.id) ∷ []) none)
          (rpc.add_order
            (record {
              user_id = user.user_id;
              user_role = "";
              target_url = b.target_url;
              service_url = b.service_url;
              order_type = b.order_type;
              quantity = b.quantity;
            })
            w)
  ]

  -- addOrder
  unfoldable pub add_order : (Request → Result OrderBody) → Handler W
  add_order bind r w =
      must_text (value merged r Key.req_key)
        (λ rq w₁. elim (bind r) [
          | err e ↦ refuse 400 e w₁
          | ok b ↦ user_or_401 (value merged r Key.user_key) (add_for b) w₁
        ])
        w

  abbrev pub order_id : Request → String
  order_id r = or_empty (lookup "orderID" r.params)

  -- OrderInfo: CreatedAt.String() and UpdatedAt.String() are the parameter `time_text`.
  abbrev pub shown : (Option String → String) → OrderInfoRes → Reply
  shown time_text res =
      Reply.json 200
        (("user_id", res.user_id)
          ∷ ("status", res.status)
          ∷ ("target_url", res.target_url)
          ∷ ("service_url", res.service_url)
          ∷ ("order_type", res.order_type)
          ∷ ("created_at", time_text res.created_at)
          ∷ ("updated_at", time_text res.updated_at)
          ∷ [])
        none

  -- orderInfo: the user is looked up under the text "userInfo".
  unfoldable pub order_info : (Option String → String) → Handler W
  order_info time_text r w =
      must_user (value merged r (Key.name "userInfo"))
        (λ user. must_text (value merged r Key.req_key) λ rq w₁.
          elim (validator (
            hidden_field "required,len=36" (order_id r)
            ∷ hidden_field "required,len=36" user.user_id
            ∷ [])) [
              | some e ↦ refuse 400 e w₁
              | none ↦
                  replied (shown time_text)
                    (rpc.order_info (record { id = order_id r; user_id = user.user_id }) w₁)
            ])
        w

  -- delOrder: the second http.Error on a refused validation adds its text to the body.
  unfoldable pub del_order : Handler W
  del_order r w =
      must_user (value merged r (Key.name "userInfo"))
        (λ user. must_text (value merged r Key.req_key) λ rq w₁.
          elim (validator (
            hidden_field "required,len=36" (order_id r)
            ∷ hidden_field "oneof=admin user guest dev" user.role
            ∷ hidden_field "required,len=36" user.user_id
            ∷ [])) [
              | some e ↦ (Reply.error 400 (error_text e ++ ("\n" ++ error_text e)), w₁)
              | none ↦
                  replied (λ done. Reply.status 200)
                    (rpc.del_order
                      (record { id = order_id r; role = user.role; user_id = user.user_id }) w₁)
            ])
        w
