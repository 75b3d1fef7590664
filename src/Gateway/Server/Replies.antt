-- ===== src/Gateway/Server/Replies.antt =====
-- What the middleware of NewServer (api-gateway/internal/routers/routers.go) makes of the replies of the
-- handlers.
use Prim.Native.Char.{code}
use l.Prelude.{
  ℕ, String, ◌≡◌, ◌≢◌, ◌⊎◌, inl, inr, refl, sym, ◌∙◌, Bool, Option, none, some, ltb, Bool-cases,
}
use mathlib.Core.Path.{subst}
use l.Exec.{Result, ok, err, Exec}
use l.Redis.{Redis}
use l.Gateway.Http.{UserInfo, Request, Reply, Handler}
use l.Gateway.Mdwr.{rate_limit, limited, rate_key, max_rate}
use l.Gateway.Users.{Validator, UsersRpc, RegBody, LogBody}
use l.Gateway.Orders.{OrderBody, OrdersRpc}
use l.Gateway.Routers.{users_group, orders_group}
use l.Gateway.Server.{CorsOptions, Chi, group, server, new_server}
use l.Gateway.Clients.Counters.{new_users-fields, new_orders-fields}
use l.Gateway.Clients.{Prometheus, Client, new_users, new_orders, users_service, orders_service}

-- Documented behaviour: cors answers a preflight request by itself, with a status, and hands on any
-- other; Recoverer answers for a handler that panics.
pub record IsChi {W : Type 0} (chi : Chi W) : Type 0 where
  pub cors_reply :
      (options : CorsOptions) (h : Handler W) (r : Request) (w : W)
      → ((chi.cors options h r w).0 ≡ (h r w).0)
        ⊎ ((code : ℕ) × ((chi.cors options h r w).0 ≡ Reply.status code))
  pub recoverer_reply :
      (h : Handler W) (r : Request) (w : W) → (chi.recoverer h r w).0 ≢ Reply.panic

module _ {S W : Type 0} (redis : Redis S) where
  limited-ne-panic :
      (key : String) (passed : Reply × W) (w : W) (counted : Result ℕ) (s : S)
      → passed.0 ≢ Reply.panic
      → (limited redis key passed w counted s).0 ≢ Reply.panic
  limited-ne-panic key passed w (err e) s calm = calm
  limited-ne-panic key passed w (ok n) s calm = elim (Bool-cases (ltb max_rate n)) [
    | inl over ↦ rw over (λ h. cc)
    | inr under ↦ rw under calm
  ]

  rate_limit-ne-panic :
      (h : Handler W) (r : Request) (s : S) (w : W)
      → (h r w).0 ≢ Reply.panic
      → (rate_limit redis h r (s, w)).0 ≢ Reply.panic
  unfolding rate_limit
  rate_limit-ne-panic h r s w calm =
      limited-ne-panic (rate_key r) (h r w) w (redis.incr (rate_key r) s).0
        (redis.incr (rate_key r) s).1 calm

-- Behind the limiter, cors and Recoverer, no handler panics.
recovered :
    {S W : Type 0} (redis : Redis S) (chi : Chi W) (laws : IsChi chi) (options : CorsOptions)
    (inner : Handler W) (r : Request) (s : S) (w : W)
    → (rate_limit redis (chi.cors options (chi.recoverer inner)) r (s, w)).0 ≢ Reply.panic
recovered redis chi laws options inner r s w =
    rate_limit-ne-panic redis (chi.cors options (chi.recoverer inner)) r s w λ panics.
      elim (laws.cors_reply options (chi.recoverer inner) r w) [
        | inl same ↦ laws.recoverer_reply inner r w (sym same ∙ panics)
        | inr (code, own) ↦ cc
      ]

module _ {S W : Type 0} (redis : Redis S) (chi : Chi W) (laws : IsChi chi) (merged : Bool)
    (validator : Validator) (bind_reg : Request → Result RegBody)
    (bind_log : Request → Result LogBody) (bind_order : Request → Result OrderBody)
    (time_text : Option String → String) (new_uuid : W → String × W) (prometheus : Prometheus W)
    (metrics_page : Handler W) where
  -- If NewServer returns a server, it answers every request with a reply, whatever the handlers do: the
  -- panic of a handler does not reach net/http.
  pub new_server-ne-panic :
      (ping : Result (Unit {0})) (cors_origins cors_methods : String)
      (uc : Option (Client (UsersRpc W))) (os : Option (Client (OrdersRpc W))) (h : Handler (S × W))
      (r : Request) (s : S) (w : W)
      → new_server merged validator bind_reg bind_log bind_order time_text new_uuid chi prometheus
          metrics_page redis ping cors_origins cors_methods uc os
        ≡ some h
      → (h r (s, w)).0 ≢ Reply.panic
  unfolding new_server
  new_server-ne-panic (err e) cors_origins cors_methods uc os h r s w started = cc
  new_server-ne-panic (ok done) cors_origins cors_methods none os h r s w started = cc
  new_server-ne-panic (ok done) cors_origins cors_methods (some uc) none h r s w started = cc
  new_server-ne-panic (ok done) cors_origins cors_methods (some uc) (some os) h r s w started =
      let same : server merged validator bind_reg bind_log bind_order time_text new_uuid chi
            prometheus metrics_page redis cors_origins cors_methods uc os
          ≡ h =
        cc in
      subst (λ g. (g r (s, w)).0 ≢ Reply.panic) same (recovered redis chi laws _ _ r s w)

module _ {W : Type 0} (merged : Bool) (validator : Validator) (bind_reg : Request → Result RegBody)
    (bind_log : Request → Result LogBody) (bind_order : Request → Result OrderBody)
    (time_text : Option String → String) (new_uuid : W → String × W) (chi : Chi W)
    (prometheus : Prometheus W) where
  -- The groups of the services that New makes are those of the theorems about users_group and
  -- orders_group.
  group-users :
      {Conn : Type 0} (new_conn : String → Result Conn) (stub : String → Conn → UsersRpc W)
      (hist host port : String) (uc : Client (UsersRpc W))
      (ext : String → String → String → Exec W UserInfo) (inner : Handler W)
      → new_users new_conn stub hist host port ≡ some uc
      → let svc = users_service merged validator bind_reg bind_log prometheus uc in
        group merged validator bind_reg bind_log bind_order time_text new_uuid chi ext svc inner
        ≡ users_group merged new_uuid svc.get_counter svc.new_timer ext inner
  unfolding group users_group
  group-users new_conn stub hist host port uc ext inner made =
      let (name, _) = new_users-fields new_conn stub hist host port uc made in rw name refl

  group-orders :
      {Conn : Type 0} (new_conn : String → Result Conn) (stub : String → Conn → OrdersRpc W)
      (hist host port : String) (os : Client (OrdersRpc W))
      (ext : String → String → String → Exec W UserInfo) (inner : Handler W)
      → new_orders new_conn stub hist host port ≡ some os
      → let svc = orders_service merged validator bind_order time_text prometheus os in
        group merged validator bind_reg bind_log bind_order time_text new_uuid chi ext svc inner
        ≡ orders_group merged new_uuid svc.get_counter svc.new_timer inner
  unfolding group orders_group
  group-orders new_conn stub hist host port os ext inner made =
      let (name, _) = new_orders-fields new_conn stub hist host port os made in rw name refl
