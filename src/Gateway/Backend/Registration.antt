-- ===== src/Gateway/Backend/Registration.antt =====
-- A registration through the gateway: regUser of api-gateway/internal/users/handler.go behind its group,
-- and RegUser of user-service/main.go.
use Prim.Native.String.{◌++◌}
use l.Prelude.{ℕ, String, ◌≡◌, ap, ◌∙◌, Bool, true, List, [], ◌∷◌, Option, none, some}
use l.Errors.{Error, Code}
use l.Exec.{Result, ok, Exec}
use l.Libs.{Libs, World}
use l.Protos.User.{RegReq, RegRes}
use l.UserService.Server.{reg_user}
use l.Gateway.Http.{Key, CtxValue, Request, Reply, with_value}
use l.Gateway.Mdwr.{
  is_public_route, path_parts, svc_name, oper, set_header, request_id_header, request_id_mdwr,
  jwt_auth, metrics,
}
use l.Gateway.Breaker.{Phase, BreakerView, IsGobreaker, new_cb}
use l.Gateway.Users.{Field, Validator, UsersRpc, RegBody, reg_fields, checked, replied}
use l.Gateway.Users
use l.Gateway.Routers.{users_group}
use l.Gateway.Backend.{Responses, users_rpc}
use l.Gateway.Backend.Calls.{Delivers, call-of-ok}

-- The message that regUser sends for a body.
abbrev pub reg_req_of : RegBody → RegReq
reg_req_of body = record {
  name = body.name;
  email = body.email;
  role = body.role;
  password = body.pswd;
}

-- A body that is decoded and valid goes on.
checked-passes :
    {W A : Type 0} (validator : Validator) (decoded : Result A) (fields : A → List Field)
    (next : A → W → Reply × W) (w : W) (a : A)
    → decoded ≡ ok a
    → validator (fields a) ≡ none
    → checked validator decoded fields next w ≡ next a w
checked-passes validator decoded fields next w a is_ok valid = rw (is_ok, checked, valid)

module _ {W : Type 0} (merged : Bool) (validator : Validator) (rpc : UsersRpc W)
    (bind : Request → Result RegBody) where
  -- regUser replies with what user-service returns.
  reg_user-asks :
      (q : Request) (w w' : W) (body : RegBody) (res : RegRes)
      → bind q ≡ ok body
      → validator (reg_fields merged validator rpc body) ≡ none
      → rpc.reg_user (reg_req_of body) w ≡ (ok res, w')
      → Users.reg_user merged validator rpc bind q w
        ≡ (Reply.json 200 (("token", res.token) ∷ []) (some res.session_key), w')
  unfolding Users.reg_user
  reg_user-asks q w w' body res decoded valid registered =
      checked-passes validator (bind q) (reg_fields merged validator rpc)
        (λ b w₁.
          replied (λ res. Reply.json 200 (("token", res.token) ∷ []) (some res.session_key))
            (rpc.reg_user (reg_req_of b) w₁))
        w body decoded valid
      ∙ ap (replied (λ res. Reply.json 200 (("token", res.token) ∷ []) (some res.session_key)))
          registered

-- The request that RequestID passes on.
abbrev pub with_id : String → Request → Request
with_id id r = set_header request_id_header id (with_value Key.req_key (CtxValue.text id) r)

module _ {K S D Q Tx B Any : Type 0} (x : Libs K S D Q Tx) (from_error : Error → Option Code)
    (sleep : ℕ → World K S D → World K S D)
    (execute_any : Exec (World K S D) Any → Exec (B × World K S D) Any)
    (dial : (A : Type 0) → Exec (World K S D) A → Exec (World K S D) A) (responses : Responses Any)
    (v : BreakerView B (World K S D)) (open_state : Error) (name : String)
    (breaker : IsGobreaker (new_cb name) execute_any v open_state) (delivers : Delivers dial)
    {M : Type 0} (merged : Bool) (validator : Validator) (new_id : M → String × M)
    (tick : String → M → M) (time : String → String → M → M) (bind : Request → Result RegBody) where
  abbrev rpc_here : UsersRpc (M × (B × World K S D))
  rpc_here = users_rpc x from_error sleep execute_any dial responses

  -- The users group of the gateway in front of the service, with regUser as its handler.
  abbrev pub register_route : Request → M × (B × World K S D) → Reply × (M × (B × World K S D))
  register_route =
      users_group merged (λ w. let (id, m) = new_id w.0 in (id, (m, w.1)))
        (λ label w. (tick label w.0, w.1)) (λ svc op w. (time svc op w.0, w.1))
        (Users.ext_jwt_data merged validator rpc_here)
        (Users.reg_user merged validator rpc_here bind)

  -- On a public route, without any token, a body that the gateway decodes and validates reaches
  -- user-service while the network is up and the breaker is closed. If RegUser succeeds for it, the
  -- reply has the status 200, the returned token, and the returned session key as its cookie;
  -- the service is left as RegUser leaves it, and the breaker closed.
  pub register_route-reg_user :
      (r : Request) (m : M) (b : B) (u u' : World K S D) (body : RegBody) (res : RegRes)
      → is_public_route r.url ≡ true
      → bind (with_id (new_id m).0 r) ≡ ok body
      → validator (reg_fields merged validator rpc_here body) ≡ none
      → reg_user x (reg_req_of body) u ≡ (ok res, u')
      → v.phase b ≡ Phase.state_closed
      → (m' : M) × (b' : B) × (register_route r (m, (b, u))
          ≡ (Reply.json 200 (("token", res.token) ∷ []) (some res.session_key), (m', (b', u'))))
        × (v.phase b' ≡ Phase.state_closed)
  unfolding users_group request_id_mdwr jwt_auth metrics
  register_route-reg_user r m b u u' body res public decoded valid registered closed =
      let (b', called, closed') =
        call-of-ok x from_error sleep execute_any dial responses v open_state name breaker delivers
          responses.reg_res (reg_user x (reg_req_of body)) b u closed registered in
      let svc = svc_name (path_parts r) in
      let op = oper r.method (path_parts r) in
      let m₂ = tick (svc ++ "_" ++ op) (tick svc (new_id m).1) in
      (
        time svc op m₂,
        b',
        rw public (
            ap (λ (p : Reply × (M × (B × World K S D))). (p.0, (time svc op p.1.0, p.1.1)))
              (reg_user-asks merged validator rpc_here bind (with_id (new_id m).0 r) (m₂, (b, u))
                (m₂, (b', u')) body res decoded valid (ap (λ p. (p.0, (m₂, p.1))) called))),
        closed',
      )
