-- ===== src/OrderService/Repo.antt =====
-- order-service/internal/db/db.go: the orders in PostgreSQL.
pub mod Connections
pub mod Deletion
pub mod Statements
use l.Prelude.{String, true, false, not, List, [], ◌∷◌, ◌==◌, ◌&&◌, if◌then◌else◌}
use l.Prelude.Int.{ℤ}
use l.Errors
use l.Exec.{Result, ok, err, Exec, pure, fail, lift, wrapping, ◌>>=◌, ◌>>◌}
use l.Sql.{Value, text, int, insert, select, delete, Dest, fields, Postgres}

-- A timestamp is the text that the database has for it.
pub record Order : Type 0 where
  pub id : String
  pub user_id : String
  pub user_rl : String
  pub status : String
  pub target_url : String
  pub service_url : String
  pub order_type : String
  pub quantity : ℤ
  pub created_at : String
  pub updated_at : String

abbrev pub order_columns : List String
order_columns =
    "id" ∷ "user_id" ∷ "user_role" ∷ "status" ∷ "service_url" ∷ "target_url" ∷ "order_type"
    ∷ "quantity" ∷ []

-- The columns created_at and updated_at are set by the database.
abbrev pub order_values : Order → List Value
order_values o =
    text o.id
    ∷ text o.user_id
    ∷ text o.user_rl
    ∷ text "processed"
    ∷ text o.service_url
    ∷ text o.target_url
    ∷ text o.order_type
    ∷ int o.quantity
    ∷ []

abbrev pub info_columns : List String
info_columns =
    "user_id" ∷ "user_role" ∷ "status" ∷ "target_url" ∷ "service_url" ∷ "order_type" ∷ "created_at"
    ∷ "updated_at" ∷ []

-- StructScan into an empty Order: the fields of the columns that were not selected stay zero.
abbrev pub scan_order : List Value → Result Order
scan_order
      (text user_id
        ∷ text user_role
        ∷ text status
        ∷ text target_url
        ∷ text service_url
        ∷ text order_type
        ∷ text created_at
        ∷ text updated_at
        ∷ []) =
    ok (record {
      id = "";
      user_id = user_id;
      user_rl = user_role;
      status = status;
      target_url = target_url;
      service_url = service_url;
      order_type = order_type;
      quantity = ℤ.pos 0;
      created_at = created_at;
      updated_at = updated_at;
    })
scan_order _ = err (Errors.text "sql: Scan error")

-- The fields of Order with their `db` tags, all exported.
abbrev pub order_fields : Dest
order_fields = fields (
    ("id", true)
    ∷ ("user_id", true)
    ∷ ("user_role", true)
    ∷ ("status", true)
    ∷ ("target_url", true)
    ∷ ("service_url", true)
    ∷ ("order_type", true)
    ∷ ("quantity", true)
    ∷ ("created_at", true)
    ∷ ("updated_at", true)
    ∷ [])

-- The fields of the local struct of getUserInfo, userID and userRl: none is exported.
abbrev pub owner_fields : Dest
owner_fields = fields (("user_id", false) ∷ ("user_role", false) ∷ [])

-- The local struct of getUserInfo: the user and the role of the order.
abbrev pub scan_owner : List Value → Result (String × String)
scan_owner (text user_id ∷ text user_role ∷ []) = ok (user_id, user_role)
scan_owner _ = err (Errors.text "sql: Scan error")

-- The condition of the DELETE.
abbrev pub deleted_rows : String → String → String → List (String × Value)
deleted_rows id user_id role =
    if not (role == "admin")
    then ("id", text id) ∷ ("user_id", text user_id) ∷ []
    else ("id", text id) ∷ []

module _ {D Q Tx : Type 0} (pg : Postgres D Q Tx) where
  -- AddOrder
  unfoldable pub add_order : Order → Exec D Unit
  add_order order = do
    query ←
        wrapping "OrderRepository.AddOrder: create query: "
          (lift (pg.to_sql (insert "orders" order_columns (order_values order))))
    wrapping "OrderRepository.AddOrder: execure query: " (pg.exec query)

  -- OrderInfo
  unfoldable pub order_info : String → String → Exec D Order
  order_info id user_id = do
    query ← wrapping "OrderRepository.OrderInfo: create query: " (
        lift (
          pg.to_sql
            (select info_columns "orders" (("id", text id) ∷ ("user_id", text user_id) ∷ []))))
    row ← wrapping "OrderRepository.OrderInfo: execute query: " (pg.query_row query order_fields)
    wrapping "OrderRepository.OrderInfo: execute query: " (lift (scan_order row))

  -- getUserInfo
  unfoldable pub get_user_info : String → Tx → Exec D (String × String)
  get_user_info order_id tx = do
    query ← wrapping "OrderRepository.getUserInfo: create tx query: " (
        lift
          (pg.to_sql (select ("user_id" ∷ "user_role" ∷ []) "orders" (("id", text order_id) ∷ []))))
    row ←
        wrapping "OrderRepository.getUserInfo: execute tx query: " (pg.tx_get tx query owner_fields)
    wrapping "OrderRepository.getUserInfo: execute tx query: " (lift (scan_owner row))

  -- The branch of DelOrder for an admin.
  unfoldable pub check_owner : String → String → String → Tx → Exec D Unit
  unfolding get_user_info
  check_owner id user_id role tx = do
    owner ← wrapping "OrderRepository.DelOrder: get user info: " (get_user_info id tx)
    (if not (user_id == owner.0) && role == owner.1
        then fail (
            Errors.text "OrderRepository.DelOrder: match role's: Admin cannot delete admin's order")
        else pure tt)

  -- DelOrder from the transaction on.
  unfoldable pub delete_in_tx : String → String → String → Tx → Exec D Unit
  unfolding check_owner
  delete_in_tx id user_id role tx = do
    (if not (role == "admin") then pure tt else check_owner id user_id role tx)
    query ← lift (pg.to_sql (delete "orders" (deleted_rows id user_id role)))
    pg.tx_exec tx query
    pg.commit tx

  -- `defer tx.Rollback()`: the rollback runs when the body has returned.
  unfoldable pub with_rollback : Tx → Exec D Unit → Exec D Unit
  with_rollback tx body d = let (r, d') = body d in (r, pg.rollback tx d')

  -- DelOrder
  unfoldable pub del_order : String → String → String → Exec D Unit
  unfolding delete_in_tx with_rollback
  del_order id user_id role = do
    tx ← wrapping "OrderRepository.DelOrder: create transaction: " pg.begin
    with_rollback tx (delete_in_tx id user_id role tx)
