-- ===== src/Gateway/Clients.antt =====
-- The interface Service of api-gateway/internal/service/service.go and the clients that implement it:
-- UsersClient of api-gateway/internal/users/users.go and ordersClient of
-- api-gateway/internal/orders/orders.go. The connection of gRPC, the stubs on it and the collectors of
-- Prometheus are parameters.
pub mod Counters
use Prim.Native.String.{◌++◌}
use l.Prelude.{String, Bool, List, [], ◌∷◌, Option, none, some}
use l.Exec.{Result, ok, err}
use l.Gateway.Http.{Request, Handler}
use l.Gateway.Users.{
  Validator, UsersRpc, RegBody, LogBody, reg_user, log_user, del_user, ext_user_id,
}
use l.Gateway.Orders.{OrderBody, OrdersRpc, add_order, order_info, del_order}

-- What is registered at a router of chi: a method and a pattern, a pattern for any method, and a router
-- at a path.
pub data Entry (W : Type 0) : Type 0 where
  method : String → String → Handler W → Entry W
  handle : String → Handler W → Entry W
  mount : String → Handler W → Entry W

-- The collectors, by their names: CounterVec.WithLabelValues(label).Inc(), and
-- HistogramVec.WithLabelValues(service, operation).Observe of the time since the timer was made.
pub record Prometheus (W : Type 0) : Type 0 where
  pub inc : String → String → W → W
  pub observe : String → String → String → W → W

-- The interface Service; its Close is in Shutdown. A timer is what happens when its duration is
-- observed, a counter what Inc does to it, and the gauge its name.
pub record Service (W : Type 0) : Type 0 where
  pub get_name : String
  pub register_routes : List (Entry W)
  pub new_timer : String → String → W → W
  pub get_counter : String → W → W
  pub get_active : String

-- The structs UsersClient and ordersClient: `hist`, `counter` and `active` by the names that they are
-- registered under, and the stub with its breaker.
pub record Client (Rpc : Type 0) : Type 0 where
  pub name : String
  pub hist : String
  pub counter : String
  pub active : String
  pub rpc : Rpc

-- resTime
abbrev pub res_time : String
res_time = "seconds_for_operation"

-- newCounter and newGauge of users.go and of orders.go, by the names that they register
abbrev pub users_counter : String
users_counter = "users_operation_total"

abbrev pub users_gauge : String
users_gauge = "users_active_operations"

abbrev pub orders_counter : String
orders_counter = "orders_operation_total"

abbrev pub orders_gauge : String
orders_gauge = "orders_active_operations"

module _ {Conn Rpc : Type 0} (new_conn : String → Result Conn) (stub : String → Conn → Rpc) where
  abbrev pub made_users : String → Result Conn → Option (Client Rpc)
  made_users hist (err e) = none
  made_users hist (ok conn) = some (record {
    name = "users";
    hist = hist;
    counter = users_counter;
    active = users_gauge;
    rpc = stub "UserService" conn;
  })

  -- New of users.go, for the values of US_HOST and US_PORT; `none` is the end of the program by
  -- log.Fatal. The stub has a breaker of the given name.
  unfoldable pub new_users : String → String → String → Option (Client Rpc)
  new_users hist host port = made_users hist (new_conn (host ++ (":" ++ port)))

  abbrev pub made_orders : String → Result Conn → Option (Client Rpc)
  made_orders hist (err e) = none
  made_orders hist (ok conn) = some (record {
    name = "orders";
    hist = hist;
    counter = orders_counter;
    active = orders_gauge;
    rpc = stub "OrderService" conn;
  })

  -- New of orders.go, for the values of OS_HOST and OS_PORT
  unfoldable pub new_orders : String → String → String → Option (Client Rpc)
  new_orders hist host port = made_orders hist (new_conn (host ++ (":" ++ port)))

module _ {W : Type 0} (merged : Bool) (validator : Validator) (bind_reg : Request → Result RegBody)
    (bind_log : Request → Result LogBody) where
  -- RegisterRoutes of users.go
  abbrev pub users_routes : UsersRpc W → List (Entry W)
  users_routes rpc =
      Entry.method "POST" "/reg" (reg_user merged validator rpc bind_reg)
      ∷ Entry.method "POST" "/log" (log_user merged validator rpc bind_log)
      ∷ Entry.method "DELETE" "/del/{delUserId}" (del_user merged validator rpc)
      ∷ Entry.method "GET" "/extUserId/{token}" (ext_user_id merged validator rpc)
      ∷ []

  -- UsersClient as a Service
  abbrev pub users_service : Prometheus W → Client (UsersRpc W) → Service W
  users_service prometheus uc = record {
    get_name = uc.name;
    register_routes = users_routes uc.rpc;
    new_timer = prometheus.observe uc.hist;
    get_counter = prometheus.inc uc.counter;
    get_active = uc.active;
  }

module _ {W : Type 0} (merged : Bool) (validator : Validator)
    (bind_order : Request → Result OrderBody) (time_text : Option String → String) where
  -- RegisterRoutes of orders.go
  abbrev pub orders_routes : OrdersRpc W → List (Entry W)
  orders_routes rpc =
      Entry.method "POST" "/" (add_order merged validator rpc bind_order)
      ∷ Entry.method "GET" "/{orderID}" (order_info merged validator rpc time_text)
      ∷ Entry.method "DELETE" "/del/{orderID}" (del_order merged validator rpc)
      ∷ []

  -- ordersClient as a Service
  abbrev pub orders_service : Prometheus W → Client (OrdersRpc W) → Service W
  orders_service prometheus os = record {
    get_name = os.name;
    register_routes = orders_routes os.rpc;
    new_timer = prometheus.observe os.hist;
    get_counter = prometheus.inc os.counter;
    get_active = os.active;
  }
