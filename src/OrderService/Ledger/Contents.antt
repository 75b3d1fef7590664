-- ===== src/OrderService/Ledger/Contents.antt =====
-- What the rows of the orders say, in every history of the handlers of order-service/main.go.
use mathlib.Core.Path.{subst}
use l.Prelude.{String, ◌≡◌, refl, sym, Bool, true, false, not, ◌&&◌, List, none, some}
use l.Prelude.Int.{is_positive}
use l.Prelude.Lists.{lookup, any, contains}
use l.Exec.{ok}
use l.Exec.Inversion.{on_require}
use l.Sql.{text, int, Postgres}
use l.Sql.Laws.{Row, View, IsPostgres, has}
use l.Sql.Keys.{any-concat_miss, any-reject}
use l.Sql.Schema.{unique_columns}
use l.Libs.{Host}
use l.Protos.Address.{Parsers}
use l.Protos.Rules.{roles, order_types}
use l.Protos.Order.{AddOrderReq, AddOrderRes, add_order_req_error}
use l.Protos.Order.Accepted.{add_order_req_error-none}
use l.OrderService.Repo.Statements.{order_row}
use l.OrderService.Repo.Deletion.{owned}
use l.OrderService.Server.{OrderWorld, new_order, add_order_handler}
use l.OrderService.Server.Orders.{
  add_order_handler-Inserted, order_info_handler-Found, del_order_handler-eq-ok,
}
use l.OrderService.Ledger.{Call, Answer}
use l.OrderService.Ledger.Refinement.{History, Answered, orders}

-- A quantity above zero.
abbrev pub has_quantity : Row → Bool
has_quantity row = elim (lookup "quantity" row) [ some (int z) ↦ is_positive z | _ ↦ false ]

-- One of the roles, one of the types, a quantity, and the status that AddOrder sets.
abbrev pub is_order : Row → Bool
is_order row =
    any (λ role. has row "user_role" (text role)) roles
    && any (λ kind. has row "order_type" (text kind)) order_types
    && has_quantity row
    && has row "status" (text "processed")

abbrev pub AllOrders : List Row → Type 0
AllOrders rows = any (λ row. not (is_order row)) rows ≡ false

new_order-is_order :
    (now id : String) (req : AddOrderReq)
    → contains roles req.user_role ≡ true
    → contains order_types req.order_type ≡ true
    → is_positive req.quantity ≡ true
    → is_order (order_row now (new_order id req)) ≡ true
new_order-is_order now id req role kind quantity = rw (role, kind, quantity) refl

module _ {K D Q Tx : Type 0} (host : Host K) (parsers : Parsers) (pg : Postgres D Q Tx)
    (v : View D Tx) (laws : IsPostgres pg v unique_columns) where
  add_order_handler-valid :
      (req : AddOrderReq) (w : OrderWorld K D) {res : AddOrderRes} {w' : OrderWorld K D}
      → add_order_handler host parsers pg req w ≡ (ok res, w')
      → add_order_req_error parsers req ≡ none
  unfolding add_order_handler
  add_order_handler-valid req w h = on_require _ _ _ w h λ valid _. valid

  AllOrders-Answered :
      (call : Call) (result : Answer) (w w' : OrderWorld K D)
      → Answered host parsers pg v laws call result w w'
      → AllOrders (orders host parsers pg v laws w)
      → AllOrders (orders host parsers pg v laws w')
  AllOrders-Answered (Call.add req) (Answer.added res) w w' h all =
      let (_, role, _, kind, quantity, _) =
        add_order_req_error-none parsers req (add_order_handler-valid req w h) in
      let (now, inserted, _, _) = add_order_handler-Inserted host parsers pg v laws req w h in
      subst AllOrders (sym inserted.added) (
        any-concat_miss (λ row. not (is_order row)) (orders host parsers pg v laws w)
          (order_row now (new_order res.id req)) all
          (rw (new_order-is_order now res.id req role kind quantity)))
  AllOrders-Answered (Call.info req) (Answer.shown res) w w' h all =
      let (_, _, _, _, _, quiet) = order_info_handler-Found host parsers pg v laws req w h in
      subst AllOrders (sym (quiet.rows_kept "orders")) all
  AllOrders-Answered (Call.del req) Answer.deleted w w' h all =
      let (_, left) = del_order_handler-eq-ok host parsers pg v laws req w h in
      subst AllOrders (sym left) (
        any-reject (λ row. not (is_order row)) (owned req.id req.user_id)
          (orders host parsers pg v laws w) all)
  AllOrders-Answered (Call.add req) (Answer.shown res) w w' h all = absurd h
  AllOrders-Answered (Call.add req) Answer.deleted w w' h all = absurd h
  AllOrders-Answered (Call.info req) (Answer.added res) w w' h all = absurd h
  AllOrders-Answered (Call.info req) Answer.deleted w w' h all = absurd h
  AllOrders-Answered (Call.del req) (Answer.added res) w w' h all = absurd h
  AllOrders-Answered (Call.del req) (Answer.shown res) w w' h all = absurd h

  -- In every history of answered calls, between which the orders stay the same: if each order has one of
  -- the roles, one of the three types, a quantity above zero and the status "processed", it stays
  -- so. No call gives an order another status.
  pub History-AllOrders :
      (w w' : OrderWorld K D) (log : List (Call × Answer))
      → History host parsers pg v laws w log w'
      → AllOrders (orders host parsers pg v laws w)
      → AllOrders (orders host parsers pg v laws w')
  History-AllOrders w w' log (History.over _) all = all
  History-AllOrders w w' log (History.idle _ w₁ _ _ same rest) all =
      History-AllOrders w₁ w' log rest (subst AllOrders (sym same) all)
  History-AllOrders w w' log (History.answer _ w₁ _ call result rest_log h rest) all =
      History-AllOrders w₁ w' rest_log rest (AllOrders-Answered call result w w₁ h all)
