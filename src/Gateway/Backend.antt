-- ===== src/Gateway/Backend.antt =====
-- The services behind the gateway: the clients of api-gateway/internal/users/users.go and of
-- api-gateway/internal/orders/orders.go, whose calls go through service.Execute and the breaker to the
-- handlers of user-service/main.go and order-service/main.go. The network is the parameter `dial`. The
-- state is the gateway's own part `M` (identifiers and metrics), the breaker, and the world of the
-- service.
pub mod Calls
pub mod OwnAccount
pub mod LostAnswer
pub mod NoOrders
pub mod Registration
use l.Prelude.{ℕ, String, ◌≡◌, Option, some}
use l.Errors.{Error, Code}
use l.Exec.{ok, Exec}
use l.Libs.{Libs, World, Host}
use l.Sql.{Postgres}
use l.Protos.Address.{Parsers}
use l.Protos.Order.{AddOrderRes, OrderInfoRes}
use l.OrderService.Server.{OrderWorld, add_order_handler, order_info_handler, del_order_handler}
use l.Gateway.Orders.{OrdersRpc}
use l.Protos.User.{RegRes, LogRes, ExtJwtDataRes}
use l.UserService.Server.{reg_user, log_user_handler, ext_jwt_data, del_user}
use l.Gateway.Service.{execute}
use l.Gateway.Users.{UsersRpc}

-- A type of responses inside the type `Any`: a value of it keeps its type.
pub record Boxed (A Any : Type 0) : Type 0 where
  pub box : A → Any
  pub assert_type : Any → Option A
  pub same_type : (a : A) → assert_type (box a) ≡ some a

pub record Responses (Any : Type 0) : Type 0 where
  pub reg_res : Boxed RegRes Any
  pub log_res : Boxed LogRes Any
  pub ext_jwt_data_res : Boxed ExtJwtDataRes Any
  pub del_user_res : Boxed Unit Any

-- A call on one part of the state.
abbrev pub beside : {M T A : Type 0} → Exec T A → Exec (M × T) A
beside m (g, t) = let (r, t') = m t in (r, (g, t'))

-- One call of a client through service.Execute.
module _ {W B Any : Type 0} (from_error : Error → Option Code) (sleep : ℕ → W → W)
    (execute_any : Exec W Any → Exec (B × W) Any) (dial : (A : Type 0) → Exec W A → Exec W A) where
  unfoldable pub call : {A : Type 0} → Boxed A Any → Exec W A → Exec (B × W) A
  unfolding execute
  call {A} boxed m = execute from_error sleep execute_any boxed.box boxed.assert_type (dial A m)

module _ {K S D Q Tx B Any : Type 0} (x : Libs K S D Q Tx) (from_error : Error → Option Code)
    (sleep : ℕ → World K S D → World K S D)
    (execute_any : Exec (World K S D) Any → Exec (B × World K S D) Any)
    (dial : (A : Type 0) → Exec (World K S D) A → Exec (World K S D) A)
    (responses : Responses Any) where
  abbrev here : {A : Type 0} → Boxed A Any → Exec (World K S D) A → Exec (B × World K S D) A
  here boxed m = call from_error sleep execute_any dial boxed m

  -- The users client of the gateway.
  abbrev pub users_rpc : {M : Type 0} → UsersRpc (M × (B × World K S D))
  users_rpc = record {
    reg_user = λ q. beside (here responses.reg_res (reg_user x q));
    log_user = λ q. beside (here responses.log_res (log_user_handler x q));
    ext_jwt_data = λ q. beside (here responses.ext_jwt_data_res (ext_jwt_data x q));
    del_user = λ q. beside (here responses.del_user_res (del_user x q));
  }

pub record OrderResponses (Any : Type 0) : Type 0 where
  pub add_order_res : Boxed AddOrderRes Any
  pub order_info_res : Boxed OrderInfoRes Any
  pub del_order_res : Boxed Unit Any

module _ {K D Q Tx B Any : Type 0} (host : Host K) (parsers : Parsers) (pg : Postgres D Q Tx)
    (from_error : Error → Option Code) (sleep : ℕ → OrderWorld K D → OrderWorld K D)
    (execute_any : Exec (OrderWorld K D) Any → Exec (B × OrderWorld K D) Any)
    (dial : (A : Type 0) → Exec (OrderWorld K D) A → Exec (OrderWorld K D) A)
    (responses : OrderResponses Any) where
  abbrev there : {A : Type 0} → Boxed A Any → Exec (OrderWorld K D) A → Exec (B × OrderWorld K D) A
  there boxed m = call from_error sleep execute_any dial boxed m

  -- The orders client of the gateway.
  abbrev pub orders_rpc : {M : Type 0} → OrdersRpc (M × (B × OrderWorld K D))
  orders_rpc = record {
    add_order = λ q. beside (there responses.add_order_res (add_order_handler host parsers pg q));
    order_info =
        λ q. beside (there responses.order_info_res (order_info_handler host parsers pg q));
    del_order = λ q. beside (there responses.del_order_res (del_order_handler host parsers pg q));
  }
