-- ===== src/Gateway/Mdwr.antt =====
-- The middleware of api-gateway/internal/mdwr: jwt.go, request.go and rl.go. Logging is left out; the
-- Prometheus counters and timers are parameters.
pub mod Auth
pub mod Labels
pub mod Bearer
pub mod Limit
pub mod Concurrent
use Prim.Native.String.{len, ◌++◌}
use l.Prelude.{
  ℕ, zero, suc, String, Bool, true, false, not, ◌&&◌, ◌||◌, List, [], ◌∷◌, Option, none, some, ◌==◌,
  ◌⊎◌, inl, inr, if◌then◌else◌, ltb, leb, eqb,
}
use l.Prelude.Lists.{contains, length, lookup, or_empty}
use l.Errors.{Error, error_text}
use l.Exec.{Result, ok, err, Exec}
use l.Strings.{split, trim, trim_space}
use l.Redis.{Redis}
use l.Gateway.Http.{
  UserInfo, Key, CtxValue, Request, Reply, Handler, header, value, as_text, with_value,
}

-- isPublicRoute
abbrev pub is_public_route : String → Bool
is_public_route path = contains ("/api/users/reg" ∷ "/api/users/log" ∷ "/metrics" ∷ "/" ∷ []) path

abbrev pub request_id_header : String
request_id_header = "X-Request-ID"

-- The n-th element of a slice, where it has one.
abbrev pub item : ℕ → List String → String
item n [] = ""
item zero (x ∷ xs) = x
item (suc n) (x ∷ xs) = item n xs

-- The checks of JWTAuth on the Authorization header: the token, or the text of the error.
abbrev pub bearer_token : String → String ⊎ String
bearer_token auth_header =
    if auth_header == ""
    then inl "Authorization header required"
    else (let parts = split b' ' (trim_space auth_header) in
        if ltb (length parts) 2 || not (item 0 parts == "Bearer")
        then inl "Invalid Authorization format"
        else inr (item 1 parts))

-- The request that JWTAuth passes on.
abbrev pub authorized : String → UserInfo → Request → Request
authorized rq found r =
    with_value Key.user_key (CtxValue.user found) (with_value Key.req_key (CtxValue.text rq) r)

module _ (merged : Bool) where
  -- The request id of JWTAuth and of delUser: that of the context, or that of the header.
  abbrev pub request_id : Request → String
  request_id r =
      let rq = as_text (value merged r Key.req_key) in
      if rq == "" then header r request_id_header else rq

module _ {W : Type 0} where
  -- JWTAuth from the check of the request id on. `ext` is ExtJWTData of the users client.
  abbrev pub admit :
      (String → String → String → Exec W UserInfo)
      → Handler W
      → String
      → String
      → String
      → Handler W
  admit ext next token sk rq r w =
      if rq == ""
      then (Reply.error 500 "internal error", w)
      else (let (found, w') = ext token sk rq w in
          elim found [
            | ok user ↦ next (authorized rq user r) w'
            | err e ↦ (Reply.error 500 (error_text e), w')
          ])

  -- JWTAuth
  unfoldable pub jwt_auth :
      Bool → (String → String → String → Exec W UserInfo) → Handler W → Handler W
  jwt_auth merged ext next r w =
      if is_public_route r.url then next r w else elim (bearer_token (header r "Authorization")) [
        | inl problem ↦ (Reply.error 400 problem, w)
        | inr token ↦ elim (lookup "session_key" r.cookies) [
          | none ↦ (Reply.error 400 "http: named cookie not present", w)
          | some sk ↦ admit ext next token sk (request_id merged r) r w
        ]
      ]

-- r.Header.Set
abbrev pub set_header : String → String → Request → Request
set_header h v r = record r { headers = (h, v) ∷ r.headers }

module _ {W : Type 0} where
  -- RequestID

  unfoldable pub request_id_mdwr : (W → String × W) → Handler W → Handler W
  request_id_mdwr new_uuid next r w =
      let (id, w') = new_uuid w in
      next (set_header request_id_header id (with_value Key.req_key (CtxValue.text id) r)) w'

-- The labels of Metrics: the service and the operation of a path.
abbrev pub svc_name : List String → String
svc_name parts =
    if leb 2 (length parts) && item 0 parts == "api"
    then item 1 parts
    else if leb 1 (length parts) && item 0 parts == "api"
    then "api"
    else if leb 1 (length parts) && not (item 0 parts == "")
    then item 0 parts
    else "root"

abbrev pub oper : String → List String → String
oper method parts =
    if eqb (length parts) 1
    then if item 0 parts == "api" then "api" else "root"
    else if eqb (length parts) 2 && item 0 parts == "api"
    then if method == "POST" then "post" else "root"
    else if leb 3 (length parts)
    then if leb 32 (len (item 2 parts)) then "by_uuid" else item 2 parts
    else "root"

abbrev pub path_parts : Request → List String
path_parts r = split b'/' (trim b'/' r.path)

-- Metrics. `count` is GetCounter(label).Inc(), `observe` the timer of the two labels, observed when
-- the handler has returned.
unfoldable pub metrics :
    {W : Type 0} → (String → W → W) → (String → String → W → W) → Handler W → Handler W
metrics count observe next r w =
    let parts = path_parts r in
    let svc = svc_name parts in
    let op = oper r.method parts in
    let (reply, w') = next r (count (svc ++ "_" ++ op) (count svc w)) in (reply, observe svc op w')

abbrev pub max_rate : ℕ
max_rate = 50

-- time.Minute, in seconds
abbrev pub exp : ℕ
exp = 60

abbrev pub rate_key : Request → String
rate_key r = "rl:" ++ item 0 (split b':' r.remote_addr)

module _ {S W : Type 0} (redis : Redis S) where
  -- The rest of the middleware once Redis has answered; `passed` is what the handler does, which
  -- is used on the branches that call it.
  abbrev pub limited : String → Reply × W → W → Result ℕ → S → Reply × (S × W)
  limited key passed w (err e) s₁ = (passed.0, (s₁, passed.1))
  limited key passed w (ok count) s₁ =
      let s₂ = if eqb count 1 then (redis.expire_key key exp s₁).1 else s₁ in
      if ltb max_rate count
      then (Reply.error 429 "Too many requests", (s₂, w))
      else (passed.0, (s₂, passed.1))

  -- rateLimiter.Middleware. Redis is the part `S` of the state beside `W`.
  unfoldable pub rate_limit : Handler W → Handler (S × W)
  rate_limit next r (s, w) =
      let (counted, s₁) = redis.incr (rate_key r) s in limited (rate_key r) (next r w) w counted s₁
