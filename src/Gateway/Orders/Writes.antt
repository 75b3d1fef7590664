-- ===== src/Gateway/Orders/Writes.antt =====
-- addOrder, orderInfo and delOrder of api-gateway/internal/orders/handler.go on the ResponseWriter, in
-- the order of their calls; no writer is left where the handler panics.
pub mod Replies
use l.Prelude.{String, Bool, List, [], ◌∷◌, Option, none, some}
use l.Errors.{Error}
use l.Exec.{Result, ok, err}
use l.Protos.Order.{OrderInfoRes}
use l.Gateway.Http.{UserInfo, Key, CtxValue, Request, value}
use l.Gateway.Service.Writer.{Writer, Spelling, http_error, json, validate}
use l.Gateway.Users.{Field, Validator, hidden_field}
use l.Gateway.Users.Writes.{unless_refused}
use l.Gateway.Users.Writes.Deletion.{write_status}
use l.Gateway.Orders.{OrderBody, OrdersRpc, add_fields, order_id}

module _ {W : Type 0} where
  -- A writer that is left.
  abbrev pub kept : Writer × W → Option Writer × W
  kept (x, w) = (some x, w)

  -- The type assertions of must_text, must_user and user_or_401.
  abbrev pub write_text : Option CtxValue → (String → Option Writer × W) → W → Option Writer × W
  write_text (some (CtxValue.text s)) next w = next s
  write_text _ next w = (none, w)

  abbrev pub write_user : Option CtxValue → (UserInfo → Option Writer × W) → W → Option Writer × W
  write_user (some (CtxValue.user u)) next w = next u
  write_user _ next w = (none, w)

  abbrev pub write_or_401 : Option CtxValue → (UserInfo → Writer × W) → Writer → W → Writer × W
  write_or_401 (some (CtxValue.user u)) next x w = next u
  write_or_401 _ next x w = (http_error (Error.text "user not authorized") 401 x, w)

  -- In delOrder the error of Validate, which has written it, is written once more.
  abbrev pub refused_again : Option Error × Writer → (Writer → W → Writer × W) → W → Writer × W
  refused_again (some e, x) next w = (http_error e 400 x, w)
  refused_again (none, x) next w = next x w

  -- The JSON of an answer or the error of a call.
  abbrev pub write_json :
      {A : Type 0} → Spelling → (A → List (String × String)) → Result A × W → Writer → Writer × W
  write_json spelling fields (err e, w) x = (http_error e 500 x, w)
  write_json spelling fields (ok res, w) x = (json spelling 200 (fields res) x, w)

module _ {W : Type 0} (spelling : Spelling) (merged : Bool) (validator : Validator)
    (rpc : OrdersRpc W) where
  abbrev pub write_for : OrderBody → Writer → W → UserInfo → Writer × W
  write_for b x w user =
      unless_refused spelling "" (validate validator (add_fields merged validator rpc user b) x)
        (λ x₁ w₁.
          write_json spelling (λ res. ("id", res.id) ∷ [])
            (rpc.add_order
              (record {
                user_id = user.user_id;
                user_role = "";
                target_url = b.target_url;
                service_url = b.service_url;
                order_type = b.order_type;
                quantity = b.quantity;
              })
              w₁)
            x₁)
        w

  abbrev pub write_bound : Result OrderBody → Option CtxValue → Writer → W → Writer × W
  write_bound (err e) user x w = (http_error e 400 x, w)
  write_bound (ok b) user x w = write_or_401 user (write_for b x w) x w

  -- addOrder
  unfoldable pub write_add_order :
      (Request → Result OrderBody) → Request → Writer → W → Option Writer × W
  write_add_order bind r x w =
      write_text (value merged r Key.req_key)
        (λ rq. kept (write_bound (bind r) (value merged r Key.user_key) x w)) w

  abbrev pub info_fields : (Option String → String) → OrderInfoRes → List (String × String)
  info_fields time_text res =
      ("user_id", res.user_id)
      ∷ ("status", res.status)
      ∷ ("target_url", res.target_url)
      ∷ ("service_url", res.service_url)
      ∷ ("order_type", res.order_type)
      ∷ ("created_at", time_text res.created_at)
      ∷ ("updated_at", time_text res.updated_at)
      ∷ []

  abbrev pub order_info_fields : Request → UserInfo → List Field
  order_info_fields r user =
      hidden_field "required,len=36" (order_id merged validator rpc r)
      ∷ hidden_field "required,len=36" user.user_id
      ∷ []

  -- orderInfo
  unfoldable pub write_order_info :
      (Option String → String) → Request → Writer → W → Option Writer × W
  write_order_info time_text r x w =
      write_user (value merged r (Key.name "userInfo"))
        (λ user.
          write_text (value merged r Key.req_key)
            (λ rq. kept (
              unless_refused spelling "" (validate validator (order_info_fields r user) x)
                (λ x₁ w₁.
                  write_json spelling (info_fields time_text)
                    (rpc.order_info
                      (record { id = order_id merged validator rpc r; user_id = user.user_id }) w₁)
                    x₁)
                w))
            w)
        w

  abbrev pub del_order_fields : Request → UserInfo → List Field
  del_order_fields r user =
      hidden_field "required,len=36" (order_id merged validator rpc r)
      ∷ hidden_field "oneof=admin user guest dev" user.role
      ∷ hidden_field "required,len=36" user.user_id
      ∷ []

  -- delOrder
  unfoldable pub write_del_order : Request → Writer → W → Option Writer × W
  write_del_order r x w =
      write_user (value merged r (Key.name "userInfo"))
        (λ user.
          write_text (value merged r Key.req_key)
            (λ rq. kept (
              refused_again (validate validator (del_order_fields r user) x)
                (λ x₁ w₁.
                  write_status
                    (rpc.del_order
                      (record {
                        id = order_id merged validator rpc r;
                        role = user.role;
                        user_id = user.user_id;
                      })
                      w₁)
                    x₁)
                w))
            w)
        w
