-- ===== src/OrderService/Server.antt =====
-- order-service/main.go: the handlers of the gRPC service.
pub mod Orders
pub mod Shown
use l.Prelude.{String, some}
use l.Exec.{ok, Exec, pure, wrapping, require, ◌>>=◌, ◌>>◌}
use l.Sql.{Postgres}
use l.Protos.Address.{Parsers}
use l.Protos.Order.{
  AddOrderReq, AddOrderRes, OrderInfoReq, OrderInfoRes, DelOrderReq, add_order_req_error,
  order_info_req_error, del_order_req_error,
}
use l.OrderService.Repo.{Order, add_order, order_info, del_order}
use l.Libs.{Host}

-- What one request of the order service acts on.
pub record OrderWorld (K D : Type 0) : Type 0 where
  pub host : K
  pub db : D

module _ {K D A : Type 0} where
  unfoldable pub on_db : Exec D A → Exec (OrderWorld K D) A
  on_db m w = let (r, d) = m w.db in (r, record w { db = d })

-- &db.Order{…}: Status and the two times are left zero.
abbrev pub new_order : String → AddOrderReq → Order
new_order id req = record {
  id = id;
  user_id = req.user_id;
  user_rl = req.user_role;
  status = "";
  target_url = req.target_url;
  service_url = req.service_url;
  order_type = req.order_type;
  quantity = req.quantity;
  created_at = "";
  updated_at = "";
}

abbrev pub info_of : Order → OrderInfoRes
info_of order = record {
  user_id = order.user_id;
  user_role = order.user_rl;
  status = order.status;
  target_url = order.target_url;
  service_url = order.service_url;
  order_type = order.order_type;
  created_at = some order.created_at;
  updated_at = some order.updated_at;
}

module _ {K D Q Tx : Type 0} (host : Host K) (parsers : Parsers) (pg : Postgres D Q Tx) where
  unfoldable pub new_id : Exec (OrderWorld K D) String
  new_id w = let (id, k) = host.new_uuid w.host in (ok id, record w { host = k })

  -- AddOrder
  unfoldable pub add_order_handler : AddOrderReq → Exec (OrderWorld K D) AddOrderRes
  unfolding new_id add_order
  add_order_handler req = do
    require "OrderService.ReqUser validate: " (add_order_req_error parsers req)
    id ← new_id
    wrapping "OrderService.ReqUser: add order: " (on_db (add_order pg (new_order id req)))
    pure (record { id = id })

  -- OrderInfo
  unfoldable pub order_info_handler : OrderInfoReq → Exec (OrderWorld K D) OrderInfoRes
  unfolding order_info
  order_info_handler req = do
    require "OrderService.OrderInfo validate: " (order_info_req_error req)
    order ←
        wrapping "OrderService.OrderInfo: order info: " (on_db (order_info pg req.id req.user_id))
    pure (info_of order)

  -- DelOrder
  unfoldable pub del_order_handler : DelOrderReq → Exec (OrderWorld K D) Unit
  unfolding del_order
  del_order_handler req = do
    require "OrderService.DelOrder validate: " (del_order_req_error req)
    wrapping "OrderService.DelOrder: delete order: "
        (on_db (del_order pg req.id req.user_id req.role))
