-- ===== src/Tests/Collectors.antt =====
-- The counters of the gateway, at a request for which there is no order.
use l.Prelude.{ℕ, ◌+◌, String, ◌≡◌, refl, true, [], some, arith}
use l.Errors
use l.Exec.{Result, ok, err}
use l.Gateway.Http.{Request, Reply}
use l.Gateway.Orders.{OrderBody, OrdersRpc}
use l.Gateway.Routers.{orders_group}
use l.Gateway.Clients.{Prometheus, Client, res_time, new_orders}
use l.Gateway.Clients.Counters.{IsPrometheus, hits, orders_group-series}
use l.Tests.Tokens.{uuid}
use l.Tests.Routes.{strict, time_text}

-- What every counter has under every label.
abbrev Registry : Type 0
Registry = String → String → ℕ

abbrev prometheus : Prometheus Registry
prometheus = record { inc = λ c l w d m. w d m + hits c d l m; observe = λ h s o w. w }

prometheus-IsPrometheus : IsPrometheus prometheus (λ w. w)
prometheus-IsPrometheus = record {
  inc_value = λ c l w d m. refl;
  observe_value = λ h s o w d m. refl;
}

abbrev down : OrdersRpc Registry
down = record {
  add_order = λ q w. (err (Errors.text "down"), w);
  order_info = λ q w. (err (Errors.text "down"), w);
  del_order = λ q w. (err (Errors.text "down"), w);
}

abbrev os : Client (OrdersRpc Registry)
os = record {
  name = "orders";
  hist = res_time;
  counter = "orders_operation_total";
  active = "orders_active_operations";
  rpc = down;
}

abbrev dialled : String → Result String
dialled address = ok address

os_made : new_orders dialled (λ breaker conn. down) res_time "orders" "50052" ≡ some os
unfolding new_orders
os_made = refl

abbrev probe : Request
probe = record {
  method = "GET";
  url = "/api/orders/probe1";
  path = "/api/orders/probe1";
  remote_addr = "10.0.0.1:5000";
  headers = [];
  cookies = [];
  params = [];
  context = [];
}

abbrev none_counted : Registry
none_counted d m = 0

abbrev no_order : Request → Result OrderBody
no_order r = err (Errors.text "EOF")

abbrev after_probe : Registry
unfolding orders_group
after_probe =
    (orders_group true (λ w. (uuid, w)) (prometheus.inc "orders_operation_total")
      (prometheus.observe res_time) (λ r w. (Reply.status 404, w)) probe none_counted).1

orders_group-series_example :
    (after_probe "orders_operation_total" "orders_probe1" ≡ 1)
    × (after_probe "orders_operation_total" "orders" ≡ 1)
    × ((m : String) → after_probe "users_operation_total" m ≡ 0)
unfolding after_probe
orders_group-series_example =
    orders_group-series prometheus (λ w. w) prometheus-IsPrometheus true strict no_order time_text
      (λ w. (uuid, w)) dialled (λ breaker conn. down) (λ r w. (Reply.status 404, w))
      (λ r w d m. refl) (λ w d m. refl) res_time "orders" "50052" "probe1" os probe none_counted
      os_made refl refl (λ h. cc) (omega arith)
