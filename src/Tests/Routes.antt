-- ===== src/Tests/Routes.antt =====
-- The theorems on the groups of the gateway, at concrete inputs.
use l.Prelude.{
  ℕ, ◌+◌, String, ◌≡◌, ◌⊎◌, refl, [], ◌∷◌, List, Option, none, some, true, if◌then◌else◌,
}
use l.Prelude.Int.{pos}
use l.Errors.{Error}
use l.Exec.{Result, ok, err}
use l.Gateway.Http.{Request, Reply}
use l.Gateway.Users.{Field, Validator, UsersRpc}
use l.Gateway.Users
use l.Gateway.Orders.{OrderBody, OrdersRpc, add_order, order_info, del_order}
use l.Gateway.Routers.{orders_group}
use l.Gateway.Routers.Groups.{Untouched, orders_group-add_order, orders_group-panic}
use l.Gateway.Users.Deletion.{AllHidden}
use l.Tests.Tokens.{uuid}
use l.Tests.Gateways.{get, new_uuid}

-- It refuses a struct that has an exported field.
abbrev pub strict : Validator
strict [] = none
strict (f ∷ fields) =
    let rest = strict fields in if f.exported then some (Error.text "required") else rest

pub strict-AllHidden : (fields : List Field) → AllHidden fields → strict fields ≡ none
strict-AllHidden [] hidden = refl
strict-AllHidden (f ∷ fields) (first, rest) = rw first (strict-AllHidden fields rest)

abbrev pub count : String → ℕ → ℕ
count label w = w + 1

abbrev pub observe : String → String → ℕ → ℕ
observe svc op w = w + 1

-- A service that answers, and counts in steps of a hundred.
abbrev pub orders_rpc : OrdersRpc ℕ
orders_rpc = record {
  add_order = λ q w. (ok (record { id = uuid }), w + 100);
  order_info = λ q w. (err (Error.text "no order"), w + 100);
  del_order = λ q w. (ok tt, w + 100);
}

abbrev pub users_rpc : UsersRpc ℕ
users_rpc = record {
  reg_user = λ q w. (ok (record { token = "t"; session_key = uuid }), w + 100);
  log_user = λ q w. (ok (record { token = "t"; session_key = uuid }), w + 100);
  ext_jwt_data = λ q w. (ok (record { role = "guest"; user_id = uuid; token = "t" }), w + 100);
  del_user = λ q w. (ok tt, w + 100);
}

abbrev pub bind : Request → Result OrderBody
bind r = ok (record {
  target_url = "https://a.co";
  service_url = "https://b.co";
  order_type = "likes";
  quantity = pos 5;
})

orders_group-add_order_example :
    let result =
      orders_group true new_uuid count observe (add_order true strict orders_rpc bind) get 0 in
    (code : ℕ) × (text : String) × ((code ≡ 400) ⊎ (code ≡ 401))
    × (result.0 ≡ Reply.error code text)
    × Untouched true new_uuid count observe get 0 result.1
orders_group-add_order_example =
    orders_group-add_order true new_uuid count observe strict orders_rpc bind get 0 refl

abbrev pub time_text : Option String → String
time_text none = ""
time_text (some s) = s

orders_group-panic_example :
    let info =
      orders_group true new_uuid count observe
        (order_info true strict orders_rpc time_text)
        get
        0 in
    let deletion =
      orders_group true new_uuid count observe (del_order true strict orders_rpc) get 0 in
    ((info.0 ≡ Reply.panic) × Untouched true new_uuid count observe get 0 info.1)
    × ((deletion.0 ≡ Reply.panic) × Untouched true new_uuid count observe get 0 deletion.1)
orders_group-panic_example =
    orders_group-panic true new_uuid count observe strict orders_rpc time_text get 0 refl
