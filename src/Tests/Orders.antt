-- ===== src/Tests/Orders.antt =====
-- The theorems on the order service, at concrete inputs.
use l.Prelude.{ℕ, String, ◌≡◌, ◌≢◌, refl, [], ◌∷◌, List, none, some}
use l.Prelude.Int.{pos}
use l.Prelude.Lists.{reject}
use l.Exec.{ok}
use l.Sql.{text}
use l.Sql.Schema.{unique_columns}
use l.Protos.Order.{AddOrderReq, AddOrderRes, OrderInfoReq, OrderInfoRes, DelOrderReq}
use l.OrderService.Repo.{del_order}
use l.OrderService.Repo.Connections.{del_order-open_txs}
use l.OrderService.Repo.Deletion.{owned}
use l.OrderService.Server.{
  OrderWorld, info_of, add_order_handler, order_info_handler, del_order_handler,
}
use l.OrderService.Server.Orders.{del_order_handler-eq-ok}
use l.OrderService.Server.Shown.{info_at, order_info_handler-add_order_handler}
use l.OrderService.Ledger.{Call, Answer, Replay}
use l.OrderService.Ledger.Rows.{ledger_of, HasUniqueIds}
use l.OrderService.Ledger.Refinement.{History, History-Replay}
use l.OrderService.Ledger.Contents.{AllOrders, History-AllOrders}
use l.Protos.Rules.{roles, order_types, uuid_pattern}
use l.Protos.Order.{order_info_req_error}
use l.Tests.Store.Queries.{postgres-IsUp}
use l.Tests.Store.{Db, postgres}
use l.Tests.Store.Transactions.{postgres-IsPostgres}
use l.Tests.Store
use l.Tests.Tokens.{uuid, host}
use l.Tests.Users.{parsers}

abbrev empty : OrderWorld ℕ Db
empty = record { host = 100; db = record { tables = λ t. []; begun = none; left_open = 0 } }

abbrev like : AddOrderReq
like = record {
  user_id = uuid;
  user_role = "guest";
  target_url = "https://a.co";
  service_url = "https://b.co";
  order_type = "likes";
  quantity = pos 5;
}

abbrev like_id : AddOrderRes
like_id = record { id = uuid }

like_added :
    add_order_handler host parsers postgres like empty
    ≡ (ok like_id, (add_order_handler host parsers postgres like empty).1)
unfolding add_order_handler l.Exec.◌>>=◌ l.Protos.Order.add_order_req_error
    l.Protos.Rules.check_uuid l.Protos.Rules.check_uri l.OrderService.Server.on_db
like_added = refl

abbrev one_order : OrderWorld ℕ Db
one_order = record {
  host = 100;
  db = record {
    tables =
        Store.put "orders"
          ((("id", text uuid)
              ∷ ("user_id", text uuid)
              ∷ ("user_role", text "guest")
              ∷ ("status", text "processed")
              ∷ ("target_url", text "https://a.co")
              ∷ ("service_url", text "https://b.co")
              ∷ ("order_type", text "likes")
              ∷ ("created_at", text "now")
              ∷ ("updated_at", text "now")
              ∷ [])
            ∷ [])
          (λ t. []);
    begun = none;
    left_open = 0;
  };
}

abbrev look : OrderInfoReq
look = record { id = uuid; user_id = uuid }

abbrev shown : OrderInfoRes
shown = record {
  user_id = uuid;
  user_role = "guest";
  status = "processed";
  target_url = "https://a.co";
  service_url = "https://b.co";
  order_type = "likes";
  created_at = some "now";
  updated_at = some "now";
}

look_valid : order_info_req_error look ≡ none
unfolding order_info_req_error l.Protos.Rules.check_uuid
look_valid = refl

order_shown : order_info_handler host parsers postgres look one_order ≡ (ok shown, one_order)
unfolding order_info_handler l.Exec.◌>>=◌ l.Protos.Order.order_info_req_error
    l.Protos.Rules.check_uuid l.OrderService.Server.on_db
order_shown = refl

abbrev drop : DelOrderReq
drop = record { id = uuid; role = "guest"; user_id = uuid }

order_dropped :
    del_order_handler host parsers postgres drop one_order
    ≡ (ok tt, (del_order_handler host parsers postgres drop one_order).1)
unfolding del_order_handler l.Exec.◌>>=◌ l.Protos.Order.del_order_req_error
    l.Protos.Rules.check_uuid l.OrderService.Server.on_db
order_dropped = refl

del_order_handler-eq-ok_example :
    (drop.role ≢ "admin")
    × ((del_order_handler host parsers postgres drop one_order).1.db.tables "orders"
        ≡ reject (owned uuid uuid) (one_order.db.tables "orders"))
del_order_handler-eq-ok_example =
    del_order_handler-eq-ok host parsers postgres Store.view postgres-IsPostgres drop one_order
      order_dropped

del_order-open_txs_example :
    Store.view.open_txs (del_order postgres uuid uuid "admin" one_order.db).1
    ≡ Store.view.open_txs one_order.db
del_order-open_txs_example =
    del_order-open_txs postgres Store.view unique_columns postgres-IsPostgres uuid uuid "admin"
      one_order.db

abbrev with_like : OrderWorld ℕ Db
with_like = (add_order_handler host parsers postgres like empty).1

abbrev without_like : OrderWorld ℕ Db
without_like = (del_order_handler host parsers postgres drop with_like).1

-- The order that was just added is shown, with the time of its insertion.
like_shown : order_info_handler host parsers postgres look with_like ≡ (ok shown, with_like)
unfolding order_info_handler add_order_handler l.Exec.◌>>=◌ l.Protos.Order.order_info_req_error
    l.Protos.Order.add_order_req_error l.Protos.Rules.check_uuid l.Protos.Rules.check_uri
    l.OrderService.Server.on_db
like_shown = refl

like_dropped : del_order_handler host parsers postgres drop with_like ≡ (ok tt, without_like)
unfolding del_order_handler add_order_handler l.Exec.◌>>=◌ l.Protos.Order.del_order_req_error
    l.Protos.Order.add_order_req_error l.Protos.Rules.check_uuid l.Protos.Rules.check_uri
    l.OrderService.Server.on_db
like_dropped = refl

abbrev add_show_delete : List (Call × Answer)
add_show_delete =
    (Call.add like, Answer.added like_id)
    ∷ (Call.info look, Answer.shown shown)
    ∷ (Call.del drop, Answer.deleted)
    ∷ []

add_show_delete_history :
    History host parsers postgres Store.view postgres-IsPostgres empty add_show_delete without_like
add_show_delete_history = History.answer empty with_like without_like _ _ _ like_added (
    History.answer with_like with_like without_like _ _ _ like_shown (
      History.answer with_like without_like without_like _ _ _ like_dropped
        (History.over without_like)))

History-Replay_example :
    Replay (ledger_of []) add_show_delete (ledger_of (without_like.db.tables "orders"))
    × HasUniqueIds (without_like.db.tables "orders")
History-Replay_example =
    History-Replay host parsers postgres Store.view postgres-IsPostgres empty without_like
      add_show_delete (λ id. tt) add_show_delete_history

History-AllOrders_example : AllOrders (with_like.db.tables "orders")
History-AllOrders_example =
    History-AllOrders host parsers postgres Store.view postgres-IsPostgres empty with_like
      ((Call.add like, Answer.added like_id) ∷ (Call.info look, Answer.shown shown) ∷ [])
      (History.answer empty with_like with_like _ _ _ like_added
        (History.answer with_like with_like with_like _ _ _ like_shown (History.over with_like)))
      refl

order_info_handler-add_order_handler_example :
    (now : String) × (w₃ : OrderWorld ℕ Db) × (order_info_handler host parsers postgres
        (record { id = uuid; user_id = uuid })
        with_like
      ≡ (ok (info_at now like), w₃))
order_info_handler-add_order_handler_example =
    order_info_handler-add_order_handler host parsers postgres Store.view postgres-IsPostgres
      postgres-IsUp like like_id empty with_like with_like like_added refl look_valid
