-- ===== src/Gateway/Clients/Counters.antt =====
-- What Metrics does to the collectors that New of users.go and orders.go registers.
use Prim.Native.String.{◌++◌, len}
use text.Mathlib.TextLemmas.{append_assoc, append-nil, append_cancel_left}
use Prim.Native.String.append
use l.Prelude.{
  eq_refl, ne→str_ne, ℕ, ◌+◌, ◌<◌, [], ◌∷◌, eqb, String, ◌≡◌, ◌≢◌, refl, sym, ap, ◌∙◌, Bool, true,
  Option, none, some, ◌==◌, ◌&&◌, if◌then◌else◌, arith,
}
use l.Exec.{Result, ok, err}
use l.Gateway.Http.{Request, Handler, Key, CtxValue, with_value}
use l.Gateway.Mdwr.{
  metrics, request_id_mdwr, path_parts, svc_name, oper, set_header, request_id_header,
}
use l.Gateway.Mdwr.Labels.{path_parts-group}
use l.Gateway.Users.{Validator}
use l.Gateway.Orders.{OrderBody, OrdersRpc}
use l.Gateway.Routers.{orders_group}
use l.Strings.Laws.{none_of}
use l.Gateway.Clients.{
  Prometheus, Client, made_users, made_orders, new_users, new_orders, orders_service,
}

abbrev of_client : {Rpc : Type 0} → (Client Rpc → String) → Option (Client Rpc) → String
of_client f none = ""
of_client f (some c) = f c

module _ {Conn Rpc : Type 0} (new_conn : String → Result Conn) (stub : String → Conn → Rpc) where
  made_users-fields :
      (hist : String) (conn : Result Conn) (uc : Client Rpc)
      → made_users new_conn stub hist conn ≡ some uc
      → (uc.name ≡ "users") × (uc.counter ≡ "users_operation_total")
  made_users-fields hist (err e) uc made = cc
  made_users-fields hist (ok conn) uc made =
      (ap (of_client (λ c. c.name)) (sym made), ap (of_client (λ c. c.counter)) (sym made))

  made_orders-fields :
      (hist : String) (conn : Result Conn) (os : Client Rpc)
      → made_orders new_conn stub hist conn ≡ some os
      → (os.name ≡ "orders") × (os.counter ≡ "orders_operation_total")
  made_orders-fields hist (err e) os made = cc
  made_orders-fields hist (ok conn) os made =
      (ap (of_client (λ c. c.name)) (sym made), ap (of_client (λ c. c.counter)) (sym made))

  -- The client that New returns goes by the name and the counter of its service.
  pub new_users-fields :
      (hist host port : String) (uc : Client Rpc)
      → new_users new_conn stub hist host port ≡ some uc
      → (uc.name ≡ "users") × (uc.counter ≡ "users_operation_total")
  unfolding new_users
  new_users-fields hist host port uc made = made_users-fields hist _ uc made

  pub new_orders-fields :
      (hist host port : String) (os : Client Rpc)
      → new_orders new_conn stub hist host port ≡ some os
      → (os.name ≡ "orders") × (os.counter ≡ "orders_operation_total")
  unfolding new_orders
  new_orders-fields hist host port os made = made_orders-fields hist _ os made

-- The value of a counter under a label.
abbrev pub Values : Type 0 → Type 0
Values W = W → String → String → ℕ

-- Documented behaviour: Inc adds one to the counter of the label, and Observe touches no counter.
pub record IsPrometheus {W : Type 0} (prometheus : Prometheus W) (value : Values W) : Type 0 where
  pub inc_value :
      (c l : String) (w : W) (d m : String)
      → value (prometheus.inc c l w) d m ≡ value w d m + (if d == c && m == l then 1 else 0)
  pub observe_value :
      (h s o : String) (w : W) (d m : String) → value (prometheus.observe h s o w) d m ≡ value w d m

-- What one Inc of the counter c under the label l adds to that of d under m.
abbrev pub hits : String → String → String → String → ℕ
hits c d l m = if d == c && m == l then 1 else 0

orders_label : (s : String) → "orders_" ++ s ≢ "orders"
orders_label s same =
    let rest : "_" ++ s ≡ "" =
      append_cancel_left "orders" ("_" ++ s) ""
        (sym (append_assoc "orders" "_" s) ∙ same ∙ sym (append-nil "orders")) in
    let grown = sym (append.cons "_" "" s) ∙ rest in cc

module _ {W : Type 0} (prometheus : Prometheus W) (value : Values W)
    (laws : IsPrometheus prometheus value) (inner : Handler W)
    (keeps : (r : Request) (w : W) (d m : String) → value (inner r w).1 d m ≡ value w d m) where
  pub metrics-counts :
      (counter hist : String) (r : Request) (w : W) (d m : String)
      → let svc = svc_name (path_parts r) in
        let op = oper r.method (path_parts r) in
        value (metrics (prometheus.inc counter) (prometheus.observe hist) inner r w).1 d m
        ≡ value w d m + (hits counter d svc m + hits counter d (svc ++ ("_" ++ op)) m)
  unfolding metrics
  metrics-counts counter hist r w d m =
      let svc = svc_name (path_parts r) in
      let op = oper r.method (path_parts r) in
      let after = laws.observe_value hist svc op in
      let first = laws.inc_value counter svc w d m in
      let second = laws.inc_value counter (svc ++ ("_" ++ op)) (prometheus.inc counter svc w) d m in
      let kept =
        keeps r (prometheus.inc counter (svc ++ ("_" ++ op)) (prometheus.inc counter svc w)) d m in
      after _ d m ∙ kept ∙ omega (arith, first, second)

-- The operation of a short path text under a group is that text.
oper-short : (method svc s : String) → len s < 32 → oper method ("api" ∷ svc ∷ s ∷ []) ≡ s
oper-short method svc s short = ground arith

module _ {W Conn : Type 0} (prometheus : Prometheus W) (value : Values W)
    (laws : IsPrometheus prometheus value) (merged : Bool) (validator : Validator)
    (bind_order : Request → Result OrderBody) (time_text : Option String → String)
    (new_uuid : W → String × W) (new_conn : String → Result Conn)
    (stub : String → Conn → OrdersRpc W) (inner : Handler W)
    (keeps : (r : Request) (w : W) (d m : String) → value (inner r w).1 d m ≡ value w d m)
    (keeps_id : (w : W) (d m : String) → value (new_uuid w).1 d m ≡ value w d m) where
  counted :
      (hist host port s : String) (os : Client (OrdersRpc W)) (r : Request) (w : W)
      → new_orders new_conn stub hist host port ≡ some os
      → r.path ≡ "/api/orders/" ++ s
      → none_of (λ c. eqb c b'/') s ≡ true
      → s ≢ ""
      → len s < 32
      → (d m : String)
      → let svc = orders_service merged validator bind_order time_text prometheus os in
        value (orders_group merged new_uuid svc.get_counter svc.new_timer inner r w).1 d m
        ≡ value w d m
          + (hits "orders_operation_total" d "orders" m
              + hits "orders_operation_total" d ("orders_" ++ s) m)
  unfolding orders_group request_id_mdwr
  counted hist host port s os r w made here clean some_s short d m =
      let (_, counter) = new_orders-fields new_conn stub hist host port os made in
      let (id, w₁) = new_uuid w in
      let q = set_header request_id_header id (with_value Key.req_key (CtxValue.text id) r) in
      let parts : path_parts q ≡ "api" ∷ "orders" ∷ s ∷ [] =
        path_parts-group q "orders" s
          (here
            ∙ append_assoc "/api/" "orders/" s
            ∙ ap (λ t. "/api/" ++ t) (append_assoc "orders" "/" s))
          refl clean some_s in
      let values = metrics-counts prometheus value laws inner keeps os.counter os.hist q w₁ d m in
      values
      ∙ rw (parts, counter, oper-short r.method "orders" s short, keeps_id w d m)
          (rw (append_assoc "orders" "_" s) refl)

  -- Behind the group of orders, for the client that New returns, every text of a path without a slash
  -- and shorter than 32 bytes is a label of its own: a request for it adds one to the counter of
  -- orders under "orders_" and the text, one under "orders", and nothing to a counter of users,
  -- whether or not there is a route for it, or a user.
  pub orders_group-series :
      (hist host port s : String) (os : Client (OrdersRpc W)) (r : Request) (w : W)
      → new_orders new_conn stub hist host port ≡ some os
      → r.path ≡ "/api/orders/" ++ s
      → none_of (λ c. eqb c b'/') s ≡ true
      → s ≢ ""
      → len s < 32
      → let svc = orders_service merged validator bind_order time_text prometheus os in
        let after = (orders_group merged new_uuid svc.get_counter svc.new_timer inner r w).1 in
        (value after "orders_operation_total" ("orders_" ++ s)
          ≡ value w "orders_operation_total" ("orders_" ++ s) + 1)
        × (value after "orders_operation_total" "orders"
            ≡ value w "orders_operation_total" "orders" + 1)
        × ((m : String) → value after "users_operation_total" m ≡ value w "users_operation_total" m)
  orders_group-series hist host port s os r w made here clean some_s short =
      let total = counted hist host port s os r w made here clean some_s short in
      let apart = ne→str_ne ("orders_" ++ s) "orders" (orders_label s) in
      let apart' = ne→str_ne "orders" ("orders_" ++ s) (λ e. orders_label s (sym e)) in
      (
        total "orders_operation_total" ("orders_" ++ s) ∙ rw (apart, eq_refl ("orders_" ++ s)) refl,
        total "orders_operation_total" "orders" ∙ rw apart' refl,
        λ m. total "users_operation_total" m ∙ omega arith,
      )
