-- ===== src/OrderService/Repo/Statements.antt =====
-- AddOrder and OrderInfo of order-service/internal/db/db.go.
use mathlib.Core.List.{List}
use l.Prelude.{String, ◌≡◌, [], ◌∷◌}
use l.Exec.{ok}
use l.Exec.Inversion.{on_lift, on_wrapping, on_last_lift, wrapping-eq-ok}
use l.Sql.{Value, text, Postgres}
use l.Sql.Laws.{Row, View, IsPostgres, Found, Inserted, Quiet, new_row}
use l.Sql.Schema.{unique_columns}
use l.OrderService.Repo.{
  Order, order_columns, order_values, info_columns, scan_order, add_order, order_info,
}

-- The row of an order that is added at a time: the columns of AddOrder, and created_at and updated_at.
abbrev pub order_row : String → Order → Row
order_row now order = new_row now "orders" order_columns (order_values order)

module _ {D Q Tx : Type 0} (pg : Postgres D Q Tx) (v : View D Tx)
    (laws : IsPostgres pg v unique_columns) where
  -- AddOrder adds one row, and no other order has its id.
  pub add_order-Inserted :
      (order : Order) (d : D) {d' : D}
      → add_order pg order d ≡ (ok tt, d')
      → (now : String) × Inserted v (unique_columns "orders") "orders" (order_row now order) d d'
  unfolding add_order
  add_order-Inserted order d h = on_lift _ _ _ d h λ query built h₁.
      laws.insert_ok "orders" order_columns _ query d _ built (wrapping-eq-ok _ _ d h₁)

  -- OrderInfo returns the columns of a listed order with the id and the user of the request, and
  -- changes nothing.
  pub order_info-Found :
      (id user_id : String) (d : D) {order : Order} {d' : D}
      → order_info pg id user_id d ≡ (ok order, d')
      → (vs : List Value) × Found info_columns
          (("id", text id) ∷ ("user_id", text user_id) ∷ [])
          (v.rows d "orders")
          vs
        × (scan_order vs ≡ ok order)
        × Quiet v d d'
  unfolding order_info
  order_info-Found id user_id d h = on_lift _ _ _ d h λ query built h₁.
      on_wrapping _ _ _ d h₁ λ row d₁ got h₂. on_last_lift _ _ d₁ h₂ λ scanned same.
        let (found, _, quiet) = laws.select_ok _ _ _ query _ d d₁ row built got in
        (row, found, scanned, rw same at quiet)
