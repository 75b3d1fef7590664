-- ===== src/Gateway/Backend/NoOrders.antt =====
-- addOrder of api-gateway/internal/orders/handler.go in front of order-service.
use l.Prelude.{ℕ, String, ◌≡◌, refl, ap, ◌∙◌, Bool, false, Option, none, some, ◌⊎◌, inl, inr}
use l.Prelude.Lists.{contains}
use l.Errors.{Error, Code, error_text, wrapped}
use l.Exec.{Result, ok, err, Exec, require, ◌>>=◌}
use l.Libs.{Host}
use l.Sql.{Postgres}
use l.Protos.Address.{Parsers}
use l.Protos.Rules.{roles}
use l.Protos.Order.{AddOrderReq, AddOrderRes, add_order_req_error}
use l.Protos.Order.Accepted.{add_order_req_error-none}
use l.OrderService.Server.{OrderWorld, add_order_handler}
use l.Gateway.Backend.{OrderResponses, Boxed, call, orders_rpc}
use l.Gateway.Http.{UserInfo, Key, CtxValue, Request, Reply, value}
use l.Gateway.Users.{Validator, refuse}
use l.Gateway.Orders.{OrderBody, OrdersRpc, add_fields, add_for, add_order, user_or_401, must_text}
use l.Gateway.Service.Retries.{IsBreaker, execute-rpc}
use l.Gateway.Service.Failures.{Fails, rpc-Fails}

-- What is assumed of the network: a call reaches the service or does not, and an answer is one that
-- the service has given.
pub record IsNetwork {W : Type 0} (dial : (A : Type 0) → Exec W A → Exec W A) : Type 1 where
  pub one_call :
      (A : Type 0) (m : Exec W A) (w : W) → ((dial A m w).1 ≡ w) ⊎ ((dial A m w).1 ≡ (m w).1)
  pub no_answer_made_up :
      (A : Type 0) (m : Exec W A) (w : W) (a : A) → (dial A m w).0 ≡ ok a → (m w).0 ≡ ok a

-- The message of a body: the role of the user is not sent.
abbrev order_of : OrderBody → UserInfo → AddOrderReq
order_of body user = record {
  user_id = user.user_id;
  user_role = "";
  target_url = body.target_url;
  service_url = body.service_url;
  order_type = body.order_type;
  quantity = body.quantity;
}

module _ {K D Q Tx B Any : Type 0} (host : Host K) (parsers : Parsers) (pg : Postgres D Q Tx)
    (from_error : Error → Option Code) (sleep : ℕ → OrderWorld K D → OrderWorld K D)
    (sleep_keeps : (n : ℕ) (w : OrderWorld K D) → (sleep n w).db ≡ w.db)
    (execute_any : Exec (OrderWorld K D) Any → Exec (B × OrderWorld K D) Any)
    (breaker : IsBreaker execute_any)
    (dial : (A : Type 0) → Exec (OrderWorld K D) A → Exec (OrderWorld K D) A)
    (network : IsNetwork dial) (responses : OrderResponses Any) where
  -- A request without a role is refused, and nothing changes.
  refused :
      (req : AddOrderReq) (w : OrderWorld K D)
      → contains roles req.user_role ≡ false
      → (e : Error) × (add_order_handler host parsers pg req w ≡ (err e, w))
  unfolding add_order_handler ◌>>=◌ require
  refused req w no_role = checked (add_order_req_error parsers req) refl
    where
      checked :
          (o : Option Error)
          → add_order_req_error parsers req ≡ o
          → (e : Error) × (add_order_handler host parsers pg req w ≡ (err e, w))
      checked none passed =
          let (_, role, _, _, _, _) = add_order_req_error-none parsers req passed in cc
      checked (some e) failed = (wrapped "OrderService.ReqUser validate: " e, rw failed refl)

  dialled-Fails :
      (req : AddOrderReq)
      → contains roles req.user_role ≡ false
      → (w : OrderWorld K D)
      → Fails (λ u. u.db) w (dial AddOrderRes (add_order_handler host parsers pg req) w)
  dialled-Fails req no_role w =
      answer (dial AddOrderRes (add_order_handler host parsers pg req) w).0 refl
    where
      stays : (dial AddOrderRes (add_order_handler host parsers pg req) w).1 ≡ w
      stays = elim (network.one_call AddOrderRes (add_order_handler host parsers pg req) w) [
        | inl unsent ↦ unsent
        | inr sent ↦ sent ∙ ap (λ p. p.1) (refused req w no_role).1
      ]

      answer :
          (r : Result AddOrderRes)
          → (dial AddOrderRes (add_order_handler host parsers pg req) w).0 ≡ r
          → Fails (λ u. u.db) w (dial AddOrderRes (add_order_handler host parsers pg req) w)
      answer (ok a) got =
          let made =
            network.no_answer_made_up AddOrderRes (add_order_handler host parsers pg req) w a got in
          let denied = ap (λ p. p.0) (refused req w no_role).1 in cc
      answer (err e) got = (
        e,
        (dial AddOrderRes (add_order_handler host parsers pg req) w).1,
        ap (λ r. (r, (dial AddOrderRes (add_order_handler host parsers pg req) w).1)) got,
        ap (λ u. u.db) stays,
      )

  -- Through the breaker and the retries.
  called-Fails :
      {A : Type 0} (boxed : Boxed A Any) (m : Exec (OrderWorld K D) A)
      → ((w : OrderWorld K D) → Fails (λ u. u.db) w (dial A m w))
      → (b : B) (w : OrderWorld K D)
      → Fails (λ u. u.1.db) (b, w) (call from_error sleep execute_any dial boxed m (b, w))
  unfolding call
  called-Fails {A} boxed m fails b w =
      let (b', outcome) =
        execute-rpc from_error sleep execute_any boxed.box boxed.assert_type breaker boxed.same_type
          (dial A m) b w in
      elim outcome [
        | inl (e, closed) ↦ (e, (b', w), closed, refl)
        | inr ran ↦
            let (e, w', failed, same) =
              rpc-Fails from_error sleep (dial A m) (λ u. u.db) sleep_keeps fails w in
            (e, (b', w'), ran ∙ ap (λ p. (p.0, (b', p.1))) failed, same)
      ]

  module _ {M : Type 0} (merged : Bool) (validator : Validator)
      (bind : Request → Result OrderBody) where
    abbrev rpc_here : OrdersRpc (M × (B × OrderWorld K D))
    rpc_here = orders_rpc host parsers pg from_error sleep execute_any dial responses

    -- The reply is an error, or the handler panics; the database of order-service is as before.
    abbrev pub AddsNothing : M × (B × OrderWorld K D) → Reply × (M × (B × OrderWorld K D)) → Type 0
    AddsNothing s result =
        (((code : ℕ) × (text : String) × (result.0 ≡ Reply.error code text))
          ⊎ (result.0 ≡ Reply.panic))
        × (result.1.1.1.db ≡ s.1.1.db)

    for_user :
        (body : OrderBody) (user : UserInfo) (m : M) (b : B) (w : OrderWorld K D)
        → AddsNothing (m, (b, w)) (add_for merged validator rpc_here body user (m, (b, w)))
    for_user body user m b w =
        judged (validator (add_fields merged validator rpc_here user body)) refl
      where
        judged :
            (o : Option Error)
            → validator (add_fields merged validator rpc_here user body) ≡ o
            → AddsNothing (m, (b, w)) (add_for merged validator rpc_here body user (m, (b, w)))
        judged (some e) invalid = rw (invalid, add_for) (inl (400, error_text e, refl), refl)
        judged none valid =
            let req : AddOrderReq = order_of body user in
            let (e, (b', w'), failed, same) =
              called-Fails responses.add_order_res (add_order_handler host parsers pg req)
                (dialled-Fails req refl) b w in
            rw (valid, add_for, failed) (inl (500, error_text e, refl), same)

    -- Whatever the context of a request holds, also with a user in it, addOrder adds no order and does
    -- not succeed: its reply is an error, or it panics, and the database of order-service is as it
    -- was, while the network makes up no answers and the breaker refuses or runs a call.
    pub add_order-AddsNothing :
        (r : Request) (m : M) (b : B) (w : OrderWorld K D)
        → AddsNothing (m, (b, w)) (add_order merged validator rpc_here bind r (m, (b, w)))
    unfolding add_order
    add_order-AddsNothing r m b w = with_id (value merged r Key.req_key) refl
      where
        with_user :
            (body : OrderBody) (o : Option CtxValue)
            → AddsNothing
                (m, (b, w))
                (user_or_401 o (add_for merged validator rpc_here body) (m, (b, w)))
        with_user body (some (CtxValue.user u)) = for_user body u m b w
        with_user body (some (CtxValue.text s)) = (inl (401, "user not authorized", refl), refl)
        with_user body none = (inl (401, "user not authorized", refl), refl)

        with_body :
            (o : Result OrderBody)
            → AddsNothing
                (m, (b, w))
                (elim o as (λ o. Reply × (M × (B × OrderWorld K D))) [
                  | err e ↦ refuse 400 e (m, (b, w))
                  | ok body ↦
                      user_or_401
                        (value merged r Key.user_key)
                        (add_for merged validator rpc_here body)
                        (m, (b, w))
                ])
        with_body (err e) = (inl (400, error_text e, refl), refl)
        with_body (ok body) = with_user body (value merged r Key.user_key)

        with_id :
            (o : Option CtxValue)
            → value merged r Key.req_key ≡ o
            → AddsNothing (m, (b, w)) (add_order merged validator rpc_here bind r (m, (b, w)))
        with_id (some (CtxValue.text s)) found = rw (found, must_text) (with_body (bind r))
        with_id (some (CtxValue.user u)) found = rw found (inr refl, refl)
        with_id none found = rw found (inr refl, refl)
