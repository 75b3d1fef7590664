-- ===== src/Tests/Sessions.antt =====
-- A browser that reads one cookie, and what the handlers write at concrete inputs.
use l.Prelude.{
  ℕ, String, Bool, true, false, ◌&&◌, ◌||◌, not, List, [], ◌∷◌, Option, none, some, ◌≡◌, ◌==◌, refl,
  ltb, if◌then◌else◌,
}
use l.Prelude.Lists.{lookup}
use l.Exec.{Result, ok, err}
use l.Protos.User.{RegReq, RegRes, LogReq, LogRes}
use l.Gateway.Http.{Key, CtxValue, Request, with_value}
use l.Gateway.Service.Writer.{Cookie, Spelling, Writer, fresh}
use l.Gateway.Users.{UsersRpc, RegBody, LogBody, Validator, reg_user, log_user, del_user}
use l.Gateway.Users.Writes.{Agree, write_reg_user, write_log_user}
use l.Gateway.Users.Writes.Deletion.{write_del_user, users_handlers-Agree}
use l.Gateway.Users.Session.{Browser}
use l.Tests.Tokens.{uuid}
use l.Tests.Gateways.{get}
use l.Tests.Routes.{users_rpc, orders_rpc, bind}
use l.Errors.{Error, error_text}
use l.Gateway.Orders.{add_order, order_info, del_order}
use l.Gateway.Orders.Writes.{write_add_order, write_order_info, write_del_order}
use l.Gateway.Orders.Writes.Replies.{Answers, orders_handlers-Answers}

-- It knows one value and one age, and tells a secure cookie by its text.
abbrev spelling : Spelling
spelling = record {
  cookie_text = λ c. if c.secure then "secure" else "open";
  json_text = λ fields. "{}";
}

abbrev Spelled : Cookie → Type 0
Spelled c = (c.name ≡ "session_key") × (c.value ≡ uuid) × (c.max_age ≡ 86400)

abbrev jar : Bool → List (String × String)
jar shown = if shown then ("session_key", uuid) ∷ [] else []

abbrev read : Option String → ℕ → Bool → List (String × String)
read none age https = []
read (some t) age https = jar (ltb age 86400 && (not (t == "secure") || https))

abbrev browser : Browser
browser header age https = read (lookup "Set-Cookie" header) age https

abbrev posted : Request
posted = record get { method = "POST"; url = "/api/users/reg"; path = "/api/users/reg" }

abbrev lenient : Validator
lenient fields = none

abbrev bind_reg : Request → Result RegBody
bind_reg r = ok (record { name = "ann"; role = "guest"; email = "ann@a.co"; pswd = "12345678" })

abbrev bind_log : Request → Result LogBody
bind_log r = ok (record { name = "ann"; email = "ann@a.co"; pswd = "12345678" })

abbrev issued : RegRes
issued = record { token = "t"; session_key = uuid }

abbrev register_one : RegReq → Bool → Result RegRes × Bool
register_one q false = (ok issued, true)
register_one q true = (err (Error.text "User already exists"), true)

abbrev log_one : LogReq → Bool → Result LogRes × Bool
log_one q true = (ok (record { token = "t"; session_key = uuid }), true)
log_one q false = (err (Error.text "sql: no rows in result set"), false)

-- user-service with one user at most: the state says whether it is registered.
abbrev one_user : UsersRpc Bool
one_user = record {
  reg_user = register_one;
  log_user = log_one;
  ext_jwt_data = λ q w. (err (Error.text "unknown"), w);
  del_user = λ q w. (err (Error.text "unknown"), w);
}

abbrev register : Writer
register =
    (write_reg_user spelling "production" true lenient one_user bind_reg posted fresh false).0

abbrev logging_in : Request
logging_in = record get { method = "POST"; url = "/api/users/log"; path = "/api/users/log" }

abbrev log_in : Writer
log_in =
    (write_log_user spelling "production" true lenient one_user bind_log logging_in fresh true).0

-- Without a request id, delUser answers with a 500.
users_handlers-Agree_example :
    Agree spelling "production"
      (reg_user true lenient users_rpc bind_reg posted 0)
      (write_reg_user spelling "production" true lenient users_rpc bind_reg posted fresh 0)
    × Agree spelling "production"
        (log_user true lenient users_rpc bind_log posted 0)
        (write_log_user spelling "production" true lenient users_rpc bind_log posted fresh 0)
    × Agree spelling "production"
        (del_user true lenient users_rpc posted 0)
        (write_del_user spelling "production" true lenient users_rpc posted fresh 0)
users_handlers-Agree_example =
    users_handlers-Agree spelling "production" true lenient users_rpc bind_reg bind_log posted 0

abbrev time_text : Option String → String
time_text t = "now"

-- A request for the deletion of an order by a user, with a validator that accepts nothing.
abbrev deletion : Request
deletion =
    with_value (Key.name "userInfo") (CtxValue.user (record { role = "guest"; user_id = uuid }))
      (with_value Key.req_key (CtxValue.text "rq") get)

abbrev refusing : Validator
refusing fields = some (Error.text "bad")

-- The error is written twice.
del_order_twice : write_del_order spelling true refusing orders_rpc deletion fresh 0 ≡ (
  some (record {
    header =
        ("X-Content-Type-Options", "nosniff") ∷ ("Content-Type", "text/plain; charset=utf-8") ∷ [];
    sent = some (
      400,
      ("X-Content-Type-Options", "nosniff") ∷ ("Content-Type", "text/plain; charset=utf-8") ∷ [],
    );
    body = "bad\nbad\n";
  }),
  0,
)
unfolding write_del_order error_text
del_order_twice = refl

orders_handlers-Answers_example :
    Answers spelling
      (add_order true refusing orders_rpc bind deletion 0)
      (write_add_order spelling true refusing orders_rpc bind deletion fresh 0)
    × Answers spelling
        (order_info true refusing orders_rpc time_text deletion 0)
        (write_order_info spelling true refusing orders_rpc time_text deletion fresh 0)
    × Answers spelling
        (del_order true refusing orders_rpc deletion 0)
        (write_del_order spelling true refusing orders_rpc deletion fresh 0)
orders_handlers-Answers_example =
    orders_handlers-Answers spelling true refusing orders_rpc bind time_text deletion 0
