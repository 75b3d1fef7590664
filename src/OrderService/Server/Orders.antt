-- ===== src/OrderService/Server/Orders.antt =====
-- The handlers of order-service/main.go: what a client can do with an order.
use l.Prelude.{String, List, [], ◌∷◌, ◌≡◌, ◌≢◌, refl, ap, sym, true}
use l.Prelude.Lists.{reject}
use l.Exec.{ok, Exec}
use l.Exec.Inversion.{on_require, on_bind, on_wrapping, on_pure, wrapping-eq-ok}
use l.Sql.{Value, text, Postgres}
use l.Sql.Laws.{View, IsPostgres, Found, Inserted, Quiet, has, project}
use l.Sql.Schema.{unique_columns}
use l.Protos.Address.{Parsers}
use l.Protos.Order.{AddOrderReq, AddOrderRes, OrderInfoReq, OrderInfoRes, DelOrderReq}
use l.Libs.{Host}
use l.OrderService.Repo.{Order, info_columns, scan_order}
use l.OrderService.Repo.Statements.{order_row, add_order-Inserted, order_info-Found}
use l.OrderService.Repo.Deletion.{del_order-eq-ok, owned}
use l.OrderService.Server.{
  OrderWorld, on_db, new_order, info_of, new_id, add_order_handler, order_info_handler,
  del_order_handler,
}

module _ {K D Q Tx : Type 0} (host : Host K) (parsers : Parsers) (pg : Postgres D Q Tx)
    (v : View D Tx) (laws : IsPostgres pg v unique_columns) where
  on_db-eq-ok :
      {A : Type 0} (m : Exec D A) (w : OrderWorld K D) {a : A} {w' : OrderWorld K D}
      → on_db m w ≡ (ok a, w')
      → m w.db ≡ (ok a, w'.db)
  unfolding on_db
  on_db-eq-ok m w h = ap (λ p. (p.0, p.1.db)) h

  -- DelOrder that succeeds was not asked for with the role admin, and deletes exactly the rows with
  -- the id and the user of the request.
  pub del_order_handler-eq-ok :
      (req : DelOrderReq) (w : OrderWorld K D) {w' : OrderWorld K D}
      → del_order_handler host parsers pg req w ≡ (ok tt, w')
      → (req.role ≢ "admin")
        × (v.rows w'.db "orders" ≡ reject (owned req.id req.user_id) (v.rows w.db "orders"))
  unfolding del_order_handler
  del_order_handler-eq-ok req w h = on_require _ _ _ w h λ valid h₁.
      del_order-eq-ok pg v unique_columns laws req.id req.user_id req.role w.db
        (on_db-eq-ok _ w (wrapping-eq-ok _ _ w h₁))

  pub add_order_handler-Inserted :
      (req : AddOrderReq) (w : OrderWorld K D) {res : AddOrderRes} {w' : OrderWorld K D}
      → add_order_handler host parsers pg req w ≡ (ok res, w')
      → (now : String) × Inserted v
          (unique_columns "orders")
          "orders"
          (order_row now (new_order res.id req))
          w.db
          w'.db
        × (has (order_row now (new_order res.id req)) "status" (text "processed") ≡ true)
        × (project ("created_at" ∷ "updated_at" ∷ []) (order_row now (new_order res.id req))
            ≡ text now ∷ text now ∷ [])
  unfolding add_order_handler new_id
  add_order_handler-Inserted req w {res} h = on_require _ _ _ w h λ valid h₁.
      on_bind _ _ w h₁ λ id w₁ drawn h₂. on_wrapping _ _ _ w₁ h₂ λ _ w₂ added h₃.
        on_pure _ w₂ h₃ λ same same_world.
          let (now, stored) =
            add_order-Inserted pg v laws (new_order id req) w₁.db (on_db-eq-ok _ w₁ added) in
          let drawn_db : w₁.db ≡ w.db = ap (λ p. p.1.db) (sym drawn) in
          let same_id : id ≡ res.id = ap (λ r. r.id) same in
          (now, rw (same_id, drawn_db, ap (λ p. p.db) same_world) at stored, refl, refl)

  -- OrderInfo answers from the columns of a listed order with the id and the user of the request,
  -- and changes nothing.
  pub order_info_handler-Found :
      (req : OrderInfoReq) (w : OrderWorld K D) {res : OrderInfoRes} {w' : OrderWorld K D}
      → order_info_handler host parsers pg req w ≡ (ok res, w')
      → (vs : List Value) × (order : Order) × Found info_columns
          (("id", text req.id) ∷ ("user_id", text req.user_id) ∷ [])
          (v.rows w.db "orders")
          vs
        × (scan_order vs ≡ ok order)
        × (res ≡ info_of order)
        × Quiet v w.db w'.db
  unfolding order_info_handler
  order_info_handler-Found req w h = on_require _ _ _ w h λ valid h₁.
      on_wrapping _ _ _ w h₁ λ order w₁ found h₂. on_pure _ w₁ h₂ λ same same_world.
        let (vs, row, scanned, quiet) =
          order_info-Found pg v laws req.id req.user_id w.db (on_db-eq-ok _ w found) in
        (vs, order, row, scanned, sym same, rw (ap (λ p. p.db) same_world) at quiet)
