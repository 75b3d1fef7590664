-- ===== src/OrderService/Ledger/Refinement.antt =====
-- The handlers of order-service/main.go keep the ledger: every history of answered calls replays on it.
use mathlib.Core.Path.{subst}
use l.Prelude.{◌≡◌, refl, sym, ap, ◌∙◌, false, List, [], ◌∷◌, str_eq→eq}
use l.Prelude.Lists.{any}
use l.Sql.{Postgres}
use l.Sql.Laws.{Row, View, IsPostgres}
use l.Sql.Schema.{unique_columns}
use l.Sql.Keys.{AtMostOnce-concat, AtMostOnce-reject, find_of_not_any, find_of_Member}
use l.Exec.{ok}
use l.Protos.Address.{Parsers}
use l.Protos.Order.{AddOrderReq, AddOrderRes, OrderInfoReq, OrderInfoRes, DelOrderReq}
use l.Libs.{Host}
use l.OrderService.Repo.Statements.{order_row}
use l.OrderService.Server.{
  OrderWorld, new_order, add_order_handler, order_info_handler, del_order_handler,
}
use l.OrderService.Server.Orders.{
  add_order_handler-Inserted, order_info_handler-Found, del_order_handler-eq-ok,
}
use l.OrderService.Ledger.Rows.{
  with_id, ledger_of, HasUniqueIds, or_false, both_hold, entered, struck,
}
use l.OrderService.Ledger.{Call, Answer, Does, Replay}

module _ {K D Q Tx : Type 0} (host : Host K) (parsers : Parsers) (pg : Postgres D Q Tx)
    (v : View D Tx) (laws : IsPostgres pg v unique_columns) where
  -- A call of the service that is answered.
  abbrev pub Answered : Call → Answer → OrderWorld K D → OrderWorld K D → Type 0
  Answered (Call.add req) (Answer.added res) w w' =
      add_order_handler host parsers pg req w ≡ (ok res, w')
  Answered (Call.info req) (Answer.shown res) w w' =
      order_info_handler host parsers pg req w ≡ (ok res, w')
  Answered (Call.del req) Answer.deleted w w' =
      del_order_handler host parsers pg req w ≡ (ok tt, w')
  Answered _ _ _ _ = ⊥

  abbrev pub orders : OrderWorld K D → List Row
  orders w = v.rows w.db "orders"

  -- The calls that were answered, in order. Between them the orders stay the same, as they do at a
  -- request that is refused, while the host and the rest of the database may change.
  pub data History : OrderWorld K D → List (Call × Answer) → OrderWorld K D → Type 0 where
    over : (w : OrderWorld K D) → History w [] w
    idle :
        (w w₁ w₂ : OrderWorld K D) (log : List (Call × Answer))
        → orders w₁ ≡ orders w
        → History w₁ log w₂
        → History w log w₂
    answer :
        (w w₁ w₂ : OrderWorld K D) (call : Call) (result : Answer) (log : List (Call × Answer))
        → Answered call result w w₁
        → History w₁ log w₂
        → History w ((call, result) ∷ log) w₂

  -- What one call does.
  abbrev Kept : Call → Answer → OrderWorld K D → OrderWorld K D → Type 0
  Kept call result w w' =
      Does (ledger_of (orders w)) call result (ledger_of (orders w')) × HasUniqueIds (orders w')

  add-Kept :
      (req : AddOrderReq) (res : AddOrderRes) (w w' : OrderWorld K D)
      → HasUniqueIds (orders w)
      → add_order_handler host parsers pg req w ≡ (ok res, w')
      → Kept (Call.add req) (Answer.added res) w w'
  add-Kept req res w w' unique h =
      let (now, inserted, _, _) = add_order_handler-Inserted host parsers pg v laws req w h in
      let new = order_row now (new_order res.id req) in
      let free : any (with_id res.id) (orders w) ≡ false = or_false _ inserted.no_clash in
      (
        (
          now,
          find_of_not_any (with_id res.id) (orders w) free,
          ap ledger_of inserted.added ∙ entered res.id new (orders w) refl free,
        ),
        subst HasUniqueIds (sym inserted.added) (λ id.
            AtMostOnce-concat (with_id id) (orders w) new (unique id)
              (λ same. rw (sym (str_eq→eq res.id id same)) free)),
      )

  info-Kept :
      (req : OrderInfoReq) (res : OrderInfoRes) (w w' : OrderWorld K D)
      → HasUniqueIds (orders w)
      → order_info_handler host parsers pg req w ≡ (ok res, w')
      → Kept (Call.info req) (Answer.shown res) w w'
  info-Kept req res w w' unique h =
      let (vs, order, found, scanned, same, quiet) =
        order_info_handler-Found host parsers pg v laws req w h in
      let (has_id, is_theirs) = both_hold _ _ found.matching in
      let here =
        find_of_Member (with_id req.id) (orders w) found.row found.listed has_id (unique req.id) in
      (
        (
          found.row,
          order,
          here,
          is_theirs,
          rw (sym found.selected) scanned,
          same,
          ap ledger_of (quiet.rows_kept "orders"),
        ),
        subst HasUniqueIds (sym (quiet.rows_kept "orders")) unique,
      )

  del-Kept :
      (req : DelOrderReq) (w w' : OrderWorld K D)
      → HasUniqueIds (orders w)
      → del_order_handler host parsers pg req w ≡ (ok tt, w')
      → Kept (Call.del req) Answer.deleted w w'
  del-Kept req w w' unique h =
      let (not_admin, left) = del_order_handler-eq-ok host parsers pg v laws req w h in
      (
        (not_admin, ap ledger_of left ∙ struck req.id req.user_id (orders w) unique),
        subst HasUniqueIds (sym left)
            (λ id. AtMostOnce-reject (with_id id) _ (orders w) (unique id)),
      )

  one-Kept :
      (call : Call) (result : Answer) (w w' : OrderWorld K D)
      → HasUniqueIds (orders w)
      → Answered call result w w'
      → Kept call result w w'
  one-Kept (Call.add req) (Answer.added res) w w' unique h = add-Kept req res w w' unique h
  one-Kept (Call.info req) (Answer.shown res) w w' unique h = info-Kept req res w w' unique h
  one-Kept (Call.del req) Answer.deleted w w' unique h = del-Kept req w w' unique h
  one-Kept (Call.add req) (Answer.shown res) w w' unique h = absurd h
  one-Kept (Call.add req) Answer.deleted w w' unique h = absurd h
  one-Kept (Call.info req) (Answer.added res) w w' unique h = absurd h
  one-Kept (Call.info req) Answer.deleted w w' unique h = absurd h
  one-Kept (Call.del req) (Answer.added res) w w' unique h = absurd h
  one-Kept (Call.del req) (Answer.shown res) w w' unique h = absurd h

  -- The service refines the ledger: from orders with unique ids, every history of answered calls,
  -- between which the orders stay the same, is a history of the ledger with the same calls and
  -- answers. AddOrder enters the order under an id that was free, with
  -- the time as created_at and updated_at; OrderInfo shows the order of the id,
  -- which belongs to the user, and changes nothing; DelOrder is never an admin's, and strikes the order
  -- of the id if it belongs to the user. The ids stay unique.
  pub History-Replay :
      (w w' : OrderWorld K D) (log : List (Call × Answer))
      → HasUniqueIds (orders w)
      → History w log w'
      → Replay (ledger_of (orders w)) log (ledger_of (orders w')) × HasUniqueIds (orders w')
  History-Replay w w' log unique (History.over _) = (refl, unique)
  History-Replay w w' log unique (History.idle _ w₁ _ _ same rest) =
      let (replay, unique') =
        History-Replay w₁ w' log (subst HasUniqueIds (sym same) unique) rest in
      (subst (λ rows. Replay (ledger_of rows) log (ledger_of (orders w'))) same replay, unique')
  History-Replay w w' log unique (History.answer _ w₁ _ call result rest_log h rest) =
      let (does, unique₁) = one-Kept call result w w₁ unique h in
      let (replay, unique') = History-Replay w₁ w' rest_log unique₁ rest in
      ((ledger_of (orders w₁), does, replay), unique')
