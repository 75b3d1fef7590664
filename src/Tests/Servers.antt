-- ===== src/Tests/Servers.antt =====
-- The server of the gateway, at concrete inputs.
use Prim.Native.String.{◌++◌}
use l.Prelude.{
  ℕ, ◌+◌, String, Option, some, ◌≡◌, ◌≢◌, refl, List, [], ◌∷◌, Bool, true, false, ◌==◌, inl, inr,
  none, if◌then◌else◌, ◌⊎◌,
}
use l.Errors
use l.Exec.{Result, ok, err}
use l.Gateway.Http.{Request, Reply, Handler}
use l.Gateway.Mdwr.{path_parts, svc_name, rate_key}
use l.Gateway.Users.{RegBody, LogBody}
use l.Gateway.Server.{CorsOptions, Chi, cors_options, new_server}
use l.Gateway.Clients.{Entry, Prometheus, Client, res_time, new_users, new_orders}
use l.Gateway.Users.{UsersRpc}
use l.Gateway.Orders.{OrdersRpc}
use l.Gateway.Server.Replies.{IsChi, new_server-ne-panic}
use l.Tests.Cache.{Cache, redis}
use l.Tests.Tokens.{uuid}
use l.Tests.Gateways.{new_uuid}
use l.Tests.Routes.{strict, orders_rpc, users_rpc, bind, time_text}

-- The first entry of the method, or of the service of the path.
abbrev mux : List (Entry ℕ) → Handler ℕ
mux [] r w = (Reply.status 404, w)
mux (Entry.method m pattern h ∷ rest) r w =
    let later = mux rest r w in if r.method == m then h r w else later
mux (Entry.handle path h ∷ rest) r w =
    let later = mux rest r w in if r.path == path then h r w else later
mux (Entry.mount path h ∷ rest) r w =
    let later = mux rest r w in
    if path == "/"
    then h r w
    else if path == "/api/" ++ svc_name (path_parts r)
    then h r w
    else later

abbrev cors : CorsOptions → Handler ℕ → Handler ℕ
cors options h r w = if r.method == "OPTIONS" then (Reply.status 204, w) else h r w

abbrev calmed : Reply → Reply
calmed Reply.panic = Reply.status 500
calmed reply = reply

abbrev chi : Chi ℕ
chi = record {
  mux = mux;
  cors = cors;
  recoverer = λ h r w. (calmed (h r w).0, (h r w).1);
  compress = λ level h. h;
  throttle = λ limit h. h;
}

calmed-ne-panic : (reply : Reply) → calmed reply ≢ Reply.panic
calmed-ne-panic Reply.panic h = cc
calmed-ne-panic (Reply.error code s) h = cc
calmed-ne-panic (Reply.json code fields cookie) h = cc
calmed-ne-panic (Reply.status code) h = cc

cors_reply :
    (b : Bool) (own passed : Reply × ℕ)
    → ((if b then own else passed).0 ≡ passed.0) ⊎ ((if b then own else passed).0 ≡ own.0)
cors_reply true own passed = inr refl
cors_reply false own passed = inl refl

chi-IsChi : IsChi chi
chi-IsChi = record {
  cors_reply = λ options h r w.
      elim (cors_reply (r.method == "OPTIONS") (Reply.status 204, w) (h r w)) [
        | inl same ↦ inl same
        | inr own ↦ inr (204, own)
      ];
  recoverer_reply = λ h r w. calmed-ne-panic (h r w).0;
}

abbrev look : Request
look = record {
  method = "GET";
  url = "/api/orders/" ++ uuid;
  path = "/api/orders/" ++ uuid;
  remote_addr = "[2001:db8::1]:443";
  headers = [];
  cookies = [];
  params = ("orderID", uuid) ∷ [];
  context = [];
}

rate_key_test : rate_key look ≡ "rl:[2001"
unfolding l.Strings.split
rate_key_test = refl

cors_tests :
    ((cors_options ",https://shop.example" "GET").allowed_origins ≡ "*" ∷ [])
    × ((cors_options "https://shop.example,https://b.example" "").allowed_origins
        ≡ "https://shop.example" ∷ "https://b.example" ∷ [])
unfolding cors_options
cors_tests = (refl, refl)

abbrev no_reg : Request → Result RegBody
no_reg r = err (Errors.text "EOF")

abbrev no_log : Request → Result LogBody
no_log r = err (Errors.text "EOF")

abbrev empty : Cache
empty = record { hashes = λ k. []; counters = λ k. 0; ttls = λ k. none }

-- The state counts what Prometheus is told.
abbrev prometheus : Prometheus ℕ
prometheus = record { inc = λ c l w. w + 1; observe = λ h s o w. w + 1 }

abbrev dialled : String → Result String
dialled address = ok address

abbrev uc : Option (Client (UsersRpc ℕ))
uc = new_users dialled (λ breaker conn. users_rpc) res_time "users" "50051"

abbrev os : Option (Client (OrdersRpc ℕ))
os = new_orders dialled (λ breaker conn. orders_rpc) res_time "orders" "50052"

abbrev page : Handler ℕ
page r w = (Reply.status 200, w)

abbrev made : {A : Type 0} → A → Option A → A
made a none = a
made a (some b) = b

abbrev started : Option (Handler (Cache × ℕ))
unfolding new_server new_users new_orders
started =
    new_server true strict no_reg no_log bind time_text new_uuid chi prometheus page redis (ok tt)
      "*" "*" uc os

is_started : started ≡ some (made (λ r w. (Reply.panic, w)) started)
unfolding started
is_started = refl

new_server-ne-panic_example :
    (made (λ r w. (Reply.panic, w)) started look (empty, 0)).0 ≢ Reply.panic
unfolding new_server started
new_server-ne-panic_example =
    new_server-ne-panic redis chi chi-IsChi true strict no_reg no_log bind time_text new_uuid
      prometheus page (ok tt) "*" "*" uc os (made (λ r w. (Reply.panic, w)) started) look empty 0
      is_started
