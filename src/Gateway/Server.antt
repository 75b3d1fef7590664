-- ===== src/Gateway/Server.antt =====
-- NewServer of api-gateway/internal/routers/routers.go: the middleware of the server in its order, the
-- groups and the routes of the clients. chi, go-chi/cors and the middleware of chi are parameters, of
-- the state that the handlers act on, as are the decoding of bodies and the handler of Prometheus.
pub mod Replies
use Prim.Native.String.{◌++◌}
use mathlib.Core.List.{◌++◌ as append}
use l.Prelude.{ℕ, String, Bool, true, List, [], ◌∷◌, ◌==◌, Option, none, some, if◌then◌else◌}
use l.Exec.{Result, ok, err, Exec}
use l.Strings.{split}
use l.Redis.{Redis}
use l.Gateway.Http.{UserInfo, Request, Reply, Handler}
use l.Gateway.Mdwr.{item, jwt_auth, request_id_mdwr, metrics, rate_limit}
use l.Gateway.Users.{Validator, UsersRpc, RegBody, LogBody, ext_jwt_data}
use l.Gateway.Orders.{OrderBody, OrdersRpc}
use l.Gateway.Clients.{Entry, Prometheus, Service, Client, users_service, orders_service}

-- cors.Options
pub record CorsOptions : Type 0 where
  pub max_age : ℕ
  pub allow_credentials : Bool
  pub allowed_origins : List String
  pub allowed_methods : List String

-- The elements of an environment variable, or a star where the first is empty.
abbrev pub or_star : String → List String
or_star variable = let parts = split b',' variable in if item 0 parts == "" then "*" ∷ [] else parts

-- The options that NewServer makes of CORS_ORIGINS and CORS_METHODS.
unfoldable pub cors_options : String → String → CorsOptions
unfolding split
cors_options cors_origins cors_methods = record {
  max_age = 3600;
  allow_credentials = true;
  allowed_origins = or_star cors_origins;
  allowed_methods = or_star cors_methods;
}

abbrev pub gzip_level : ℕ
gzip_level = 5

abbrev pub max_concurrency_requests : ℕ
max_concurrency_requests = 10

-- The middleware of other packages, and a router with its entries.
pub record Chi (W : Type 0) : Type 0 where
  pub mux : List (Entry W) → Handler W
  pub cors : CorsOptions → Handler W → Handler W
  pub recoverer : Handler W → Handler W
  pub compress : ℕ → Handler W → Handler W
  pub throttle : ℕ → Handler W → Handler W

module _ {W : Type 0} (merged : Bool) (validator : Validator) (bind_reg : Request → Result RegBody)
    (bind_log : Request → Result LogBody) (bind_order : Request → Result OrderBody)
    (time_text : Option String → String) (new_uuid : W → String × W) (chi : Chi W) where
  -- The middleware of activateMdwr for one service; `ext` is the ExtJWTData of the users client.
  unfoldable pub group :
      (String → String → String → Exec W UserInfo) → Service W → Handler W → Handler W
  unfolding request_id_mdwr jwt_auth metrics
  group ext svc inner =
      let counted = metrics svc.get_counter svc.new_timer inner in
      request_id_mdwr new_uuid
        (if svc.get_name == "users" then jwt_auth merged ext counted else counted)

  -- routing: each group at its path, and the routes of its service at "/" of it.
  unfoldable pub mounted :
      (String → String → String → Exec W UserInfo) → List (Service W) → List (Entry W)
  unfolding group
  mounted ext [] = []
  mounted ext (svc ∷ svcs) =
      Entry.mount ("/api/" ++ svc.get_name)
        (group ext svc (chi.mux (Entry.mount "/" (chi.mux svc.register_routes) ∷ [])))
      ∷ mounted ext svcs

  -- The handler of "/"; the text that it writes is left out.
  abbrev root : Handler W
  root r w = (Reply.status 200, w)

  module _ (prometheus : Prometheus W) (metrics_page : Handler W) where
    abbrev pub services : Client (UsersRpc W) → Client (OrdersRpc W) → List (Service W)
    services uc os =
        users_service merged validator bind_reg bind_log prometheus uc
        ∷ orders_service merged validator bind_order time_text prometheus os
        ∷ []

    -- The router of the server, with what routing and NewServer register.
    unfoldable pub routes : Client (UsersRpc W) → Client (OrdersRpc W) → Handler W
    unfolding mounted
    routes uc os = chi.mux (
        append (mounted (ext_jwt_data merged validator uc.rpc) (services uc os))
          (Entry.method "GET" "/" root ∷ Entry.handle "/metrics" metrics_page ∷ []))

    -- The middleware of the server in its order, for the values of CORS_ORIGINS and CORS_METHODS.
    unfoldable pub server :
        {S : Type 0}
        → Redis S
        → String
        → String
        → Client (UsersRpc W)
        → Client (OrdersRpc W)
        → Handler (S × W)
    unfolding routes rate_limit cors_options
    server redis cors_origins cors_methods uc os = rate_limit redis (
        chi.cors (cors_options cors_origins cors_methods) (
          chi.recoverer
            (chi.compress gzip_level (chi.throttle max_concurrency_requests (routes uc os)))))

    -- NewServer, for the Redis server of the limiter with the answer to the Ping of NewRl, and for what
    -- users.New and orders.New return; `none` is the end of the program by log.Fatal.
    unfoldable pub new_server :
        {S : Type 0}
        → Redis S
        → Result (Unit {0})
        → String
        → String
        → Option (Client (UsersRpc W))
        → Option (Client (OrdersRpc W))
        → Option (Handler (S × W))
    unfolding server
    new_server redis (err e) cors_origins cors_methods uc os = none
    new_server redis (ok done) cors_origins cors_methods none os = none
    new_server redis (ok done) cors_origins cors_methods (some uc) none = none
    new_server redis (ok done) cors_origins cors_methods (some uc) (some os) =
        some (server redis cors_origins cors_methods uc os)
