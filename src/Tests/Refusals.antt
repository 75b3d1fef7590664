-- ===== src/Tests/Refusals.antt =====
-- An order of a user through the gateway, at concrete inputs.
use l.Prelude.{ℕ, false, ◌+◌, refl, [], ◌∷◌, Option, none, some, inr}
use l.Errors.{Error, Code}
use l.Exec.{Exec}
use l.Protos.Order.{AddOrderRes, OrderInfoRes}
use l.OrderService.Server.{OrderWorld}
use l.Gateway.Http.{Key, CtxValue, Request}
use l.Gateway.Users.{Validator}
use l.Gateway.Orders.{OrdersRpc, add_order}
use l.Gateway.Service.Retries.{IsBreaker}
use l.Gateway.Backend.{OrderResponses, orders_rpc}
use l.Gateway.Backend.NoOrders.{IsNetwork, AddsNothing, add_order-AddsNothing}
use l.Tests.Store.{Db, postgres}
use l.Tests.Tokens.{uuid, host}
use l.Tests.Users.{parsers}
use l.Tests.Routes.{bind}

data Response : Type 0 where
  add : AddOrderRes → Response
  info : OrderInfoRes → Response
  del : Response

abbrev responses : OrderResponses Response
responses = record {
  add_order_res = record {
    box = add;
    assert_type = λ v. elim v [ add r ↦ some r | _ ↦ none ];
    same_type = λ a. refl;
  };
  order_info_res = record {
    box = info;
    assert_type = λ v. elim v [ info r ↦ some r | _ ↦ none ];
    same_type = λ a. refl;
  };
  del_order_res = record {
    box = λ _. del;
    assert_type = λ v. elim v [ del ↦ some tt | _ ↦ none ];
    same_type = λ a. refl;
  };
}

abbrev empty : OrderWorld ℕ Db
empty = record { host = 100; db = record { tables = λ t. []; begun = none; left_open = 0 } }

-- A breaker that counts its calls and refuses none.
abbrev counting : Exec (OrderWorld ℕ Db) Response → Exec (ℕ × OrderWorld ℕ Db) Response
counting fn (b, s) = ((fn s).0, (b + 1, (fn s).1))

counting-IsBreaker : IsBreaker counting
counting-IsBreaker = record { refuses_or_runs = λ fn b s. (b + 1, inr refl) }

abbrev sound : (A : Type 0) → Exec (OrderWorld ℕ Db) A → Exec (OrderWorld ℕ Db) A
sound A m = m

sound-IsNetwork : IsNetwork sound
sound-IsNetwork = record { one_call = λ A m w. inr refl; no_answer_made_up = λ A m w a h. h }

abbrev lenient : Validator
lenient fields = none

-- A request with a user in its context.
abbrev like : Request
like = record {
  method = "POST";
  url = "/api/orders/";
  path = "/api/orders/";
  remote_addr = "10.0.0.1:5000";
  headers = [];
  cookies = [];
  params = [];
  context =
      (Key.user_key, CtxValue.user (record { role = "guest"; user_id = uuid }))
      ∷ (Key.req_key, CtxValue.text uuid)
      ∷ [];
}

abbrev no_code : Error → Option Code
no_code e = none

abbrev rpc_here : OrdersRpc (ℕ × (ℕ × OrderWorld ℕ Db))
rpc_here = orders_rpc host parsers postgres no_code (λ n w. w) counting sound responses

add_order-AddsNothing_example :
    AddsNothing host parsers postgres no_code
      (λ n w. w)
      (λ n w. refl)
      counting
      counting-IsBreaker
      sound
      sound-IsNetwork
      responses
      false
      lenient
      bind
      (0, (0, empty))
      (add_order false lenient rpc_here bind like (0, (0, empty)))
add_order-AddsNothing_example =
    add_order-AddsNothing host parsers postgres no_code (λ n w. w) (λ n w. refl) counting
      counting-IsBreaker sound sound-IsNetwork responses false lenient bind like 0 0 empty
