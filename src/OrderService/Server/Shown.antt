-- ===== src/OrderService/Server/Shown.antt =====
-- OrderInfo of order-service/main.go after AddOrder.
use l.Prelude.{String, ◌≡◌, refl, ap, ◌∙◌, List, [], ◌∷◌, none, some, eq_refl}
use l.Exec.{ok, ◌>>=◌}
use l.Sql.{Value, text, select, Postgres}
use l.Sql.Laws.{View, IsPostgres, IsUp, Inserted, matches, has, project}
use l.Sql.Schema.{unique_columns}
use l.Sql.Unique.{any-concat, eq-last_of_Member}
use l.Libs.{Host}
use l.Protos.Address.{Parsers}
use l.Protos.Order.{AddOrderReq, AddOrderRes, OrderInfoReq, OrderInfoRes, order_info_req_error}
use l.OrderService.Repo.{Order, info_columns, order_fields, scan_order, order_info}
use l.OrderService.Repo.Statements.{order_row}
use l.OrderService.Server.{
  OrderWorld, on_db, new_order, info_of, add_order_handler, order_info_handler,
}
use l.OrderService.Server.Orders.{add_order_handler-Inserted}
use l.OrderService.Ledger.Rows.{or_false, both_hold}

-- What OrderInfo shows of an order that was added at a time.
abbrev pub info_at : String → AddOrderReq → OrderInfoRes
info_at now req = record {
  user_id = req.user_id;
  user_role = req.user_role;
  status = "processed";
  target_url = req.target_url;
  service_url = req.service_url;
  order_type = req.order_type;
  created_at = some now;
  updated_at = some now;
}

module _ {D Q Tx : Type 0} (pg : Postgres D Q Tx) (v : View D Tx)
    (laws : IsPostgres pg v unique_columns) (up : IsUp pg v unique_columns) where
  order_info_of_row :
      (id user_id : String) (d : D) (query : Q) (vs : List Value) (order : Order) {d' : D}
      → pg.to_sql (select info_columns "orders" (("id", text id) ∷ ("user_id", text user_id) ∷ []))
        ≡ ok query
      → pg.query_row query order_fields d ≡ (ok vs, d')
      → scan_order vs ≡ ok order
      → order_info pg id user_id d ≡ (ok order, d')
  unfolding order_info ◌>>=◌
  order_info_of_row id user_id d query vs order built found scanned = rw (built, found, scanned)

  -- In a table where the order was added last, OrderInfo finds it for its user.
  order_info-Inserted :
      (now id : String) (req : AddOrderReq) (d d₁ d₂ : D)
      → Inserted v (unique_columns "orders") "orders" (order_row now (new_order id req)) d d₁
      → v.rows d₂ "orders" ≡ v.rows d₁ "orders"
      → (order : Order) × (d₃ : D) × (order_info pg id req.user_id d₂ ≡ (ok order, d₃))
        × (info_of order ≡ info_at now req)
  order_info-Inserted now id req d d₁ d₂ added same =
      let conditions : List (String × Value) =
        ("id", text id) ∷ ("user_id", text req.user_id) ∷ [] in
      let (query, built) = up.to_sql_up (select info_columns "orders" conditions) in
      let new = order_row now (new_order id req) in
      let rows : v.rows d₂ "orders" ≡ _ = same ∙ added.added in
      let listed =
        any-concat (matches conditions) (v.rows d "orders") new
          (rw (eq_refl id, eq_refl req.user_id) refl) in
      let (vs, d₃, found) =
        up.select_up info_columns "orders" conditions query order_fields d₂ built refl
          (rw rows listed) in
      let (result, _, _) =
        laws.select_ok info_columns "orders" conditions query order_fields d₂ d₃ vs built found in
      let (has_id, _) = both_hold _ _ result.matching in
      let same_row =
        eq-last_of_Member (λ row. has row "id" (text id)) (v.rows d "orders") new result.row
          (or_false _ added.no_clash) (rw rows at result.listed) has_id in
      let values = result.selected ∙ ap (project info_columns) same_row in
      (
        _,
        d₃,
        order_info_of_row id req.user_id d₂ query vs _ built found (ap scan_order values),
        refl,
      )

module _ {K D Q Tx : Type 0} (host : Host K) (parsers : Parsers) (pg : Postgres D Q Tx)
    (v : View D Tx) (laws : IsPostgres pg v unique_columns) (up : IsUp pg v unique_columns) where
  order_info_handler_up :
      (req : OrderInfoReq) (order : Order) (w : OrderWorld K D) {d : D}
      → order_info_req_error req ≡ none
      → order_info pg req.id req.user_id w.db ≡ (ok order, d)
      → order_info_handler host parsers pg req w ≡ (ok (info_of order), record w { db = d })
  unfolding order_info_handler on_db ◌>>=◌
  order_info_handler_up req order w valid found = rw (valid, found)

  -- While PostgreSQL is up, OrderInfo shows the user of an order that AddOrder has accepted what was
  -- ordered, with the status "processed" and the time of the insertion as created_at and updated_at,
  -- if the orders are still as AddOrder left them and the request, with the returned id, is valid.
  pub order_info_handler-add_order_handler :
      (req : AddOrderReq) (res : AddOrderRes) (w w₁ w₂ : OrderWorld K D)
      → add_order_handler host parsers pg req w ≡ (ok res, w₁)
      → v.rows w₂.db "orders" ≡ v.rows w₁.db "orders"
      → order_info_req_error (record { id = res.id; user_id = req.user_id }) ≡ none
      → (now : String) × (w₃ : OrderWorld K D) × (order_info_handler host parsers pg
            (record { id = res.id; user_id = req.user_id })
            w₂
          ≡ (ok (info_at now req), w₃))
  order_info_handler-add_order_handler req res w w₁ w₂ adds same valid =
      let (now, inserted, _, _) = add_order_handler-Inserted host parsers pg v laws req w adds in
      let (order, d, found, shows) =
        order_info-Inserted pg v laws up now res.id req w.db w₁.db w₂.db inserted same in
      let shown : OrderInfoReq = record { id = res.id; user_id = req.user_id } in
      (
        now,
        record w₂ { db = d },
        order_info_handler_up shown order w₂ valid found
            ∙ ap (λ i. (ok i, record w₂ { db = d })) shows,
      )
