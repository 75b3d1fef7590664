-- ===== src/Gateway/Backend/OwnAccount.antt =====
-- A user registers with user-service and deletes its account through the gateway.
use Prim.Native.String.{◌++◌, count}
use mathlib.Core.Path.{subst}
use mathlib.Core.List.{List}
use l.Prelude.{
  ℕ, ◌+◌, ◌≤◌, ◌<◌, String, ◌≡◌, ◌≢◌, sym, ap, ◌∙◌, Bool, true, false, [], ◌∷◌, Option, none, some,
  arith,
}
use l.Prelude.Lists.{index_or_empty, lookup, contains, reject}
use l.Errors.{Error, Code}
use l.Exec.{ok, Exec}
use l.Exec.Moves.{moved}
use l.Strings.{is_space}
use l.Strings.Laws.{none_of}
use l.Sql.{text}
use l.Sql.Laws.{IsPostgres, IsTxUp, matches, clash}
use l.Sql.Laws
use l.Sql.Schema.{unique_columns}
use l.Redis.{IsRedis}
use l.Redis
use l.Libs.{Libs, World}
use l.Libs.Laws.{IsBcrypt, IsJwt, IsHost, max_exact}
use l.Protos.Rules.{roles, uuid_pattern}
use l.Protos.User.{RegReq, RegRes, DelUserReq, ExtJwtDataReq, reg_req_error}
use l.Protos.User.Accepted.{reg_req_error-none, ext_jwt_data_req_error-of}
use l.UserService.Crypto.{token_seconds}
use l.UserService.Sessions.Keys.{HasSession-of_Stored}
use l.UserService.Repo.Accounts.{reject_added}
use l.UserService.Server.{ext_jwt_data, del_user}
use l.UserService.Server.Registration.{Registered}
use l.UserService.Server.Login.{Signs, ext_jwt_data-issued}
use l.UserService.Server.OwnAccount.{ext_jwt_data-SameDb, del_user-own}
use l.Gateway.Http.{UserInfo, Request, Reply, header}
use l.Gateway.Mdwr.{is_public_route, path_parts, svc_name, oper}
use l.Gateway.Mdwr.Bearer.{bearer_token-Bearer}
use l.Gateway.Breaker.{Phase, BreakerView, IsGobreaker, new_cb}
use l.Gateway.Users.{Field, Validator, UsersRpc, del_request}
use l.Gateway.Users
use l.Gateway.Users.Deletion.{AllHidden, ext_jwt_data-answered}
use l.Gateway.Routers.{users_group}
use l.Gateway.Routers.Accepted.{users_group-deletes}
use l.Gateway.Backend.{Responses, users_rpc}
use l.Gateway.Backend.Calls.{Delivers, call-of-ok}

-- A role that is listed, and a text that is a UUID, is not empty.
listed_role : (role : String) → contains roles role ≡ true → role ≢ ""
listed_role role h e = cc (rw e at h)

some_uuid : (id : String) → uuid_pattern id ≡ true → id ≢ ""
unfolding uuid_pattern
some_uuid id h e = cc (rw e at h)

some_token : (token : String) → 100 ≤ count token → token ≢ ""
some_token token long e = let short : 100 ≤ count "" = rw e at long in absurd (omega (arith, short))

module _ {K S D Q Tx B Any : Type 0} (x : Libs K S D Q Tx) (from_error : Error → Option Code)
    (sleep : ℕ → World K S D → World K S D)
    (execute_any : Exec (World K S D) Any → Exec (B × World K S D) Any)
    (dial : (A : Type 0) → Exec (World K S D) A → Exec (World K S D) A) (responses : Responses Any)
    (v : BreakerView B (World K S D)) (open_state : Error) (name : String)
    (breaker : IsGobreaker (new_cb name) execute_any v open_state) (delivers : Delivers dial) where
  module _ {M : Type 0} (merged : Bool) (validator : Validator)
      (hidden : (fields : List Field) → AllHidden fields → validator fields ≡ none) where
    abbrev rpc_here : UsersRpc (M × (B × World K S D))
    rpc_here = users_rpc x from_error sleep execute_any dial responses

    -- JWTAuth gets the user that user-service answers.
    ext_accepts :
        (token sk rq : String) (m : M) (b : B) (u u' : World K S D) (id role renewed : String)
        → v.phase b ≡ Phase.state_closed
        → ext_jwt_data x (record { token = token; session_key = sk }) u
          ≡ (ok (record { role = role; user_id = id; token = renewed }), u')
        → (b' : B) × (Users.ext_jwt_data merged validator rpc_here token sk rq (m, (b, u))
            ≡ (ok (record { role = role; user_id = id }), (m, (b', u'))))
          × (v.phase b' ≡ Phase.state_closed)
    ext_accepts token sk rq m b u u' id role renewed closed answered =
        let (b', called, closed') =
          call-of-ok x from_error sleep execute_any dial responses v open_state name breaker
            delivers responses.ext_jwt_data_res
            (ext_jwt_data x (record { token = token; session_key = sk })) b u closed answered in
        (
          b',
          ext_jwt_data-answered merged validator hidden rpc_here token sk rq (m, (b, u)) _ _
              (ap (λ p. (p.0, (m, p.1))) called),
          closed',
        )

    deletes :
        (req : DelUserReq) (m : M) (b : B) (u u' : World K S D)
        → v.phase b ≡ Phase.state_closed
        → del_user x req u ≡ (ok tt, u')
        → (b' : B) × (rpc_here.del_user req (m, (b, u)) ≡ (ok tt, (m, (b', u'))))
    deletes req m b u u' closed deleted =
        let (b', called, _) =
          call-of-ok x from_error sleep execute_any dial responses v open_state name breaker
            delivers responses.del_user_res (del_user x req) b u closed deleted in
        (b', ap (λ p. (p.0, (m, p.1))) called)

    module _ (new_id : M → String × M) (tick : String → M → M) (time : String → String → M → M)
        (sv : Redis.View S) (dv : Laws.View D Tx) (redis : IsRedis x.redis sv)
        (pg : IsPostgres x.pg dv unique_columns) (bcrypt : IsBcrypt x.bcrypt) (jwt : IsJwt x.jwt)
        (host : IsHost x.host) (redis_up : Redis.IsUp x.redis sv)
        (pg_up : Laws.IsUp x.pg dv unique_columns) {limit : ℕ}
        (tx_up : IsTxUp x.pg dv unique_columns limit) (signs : Signs x.jwt x.jwt_secret) where
      drawn_uuid : (id : String) → (k : K) × ((x.host.new_uuid k).0 ≡ id) → uuid_pattern id ≡ true
      drawn_uuid id (k, same) = subst (λ s. uuid_pattern s ≡ true) same (host.new_uuid-pattern k)

      -- The token and the session of a registration are accepted while they are valid.
      recognised :
          (reg : RegReq) (res : RegRes) (u₀ u₁ u : World K S D)
          (a : Registered x sv dv redis pg bcrypt reg res u₀ u₁)
          → contains roles reg.role ≡ true
          → sv.hash u.sessions res.session_key ≡ sv.hash u₁.sessions res.session_key
          → (x.host.now a.host_at_issue).0 + token_seconds ≤ max_exact
          → (x.host.now u.host).0 ≤ (x.host.now a.host_at_issue).0 + token_seconds
          → 100 ≤ count res.token
          → (renewed : String) × (u' : World K S D) × (ext_jwt_data x
                (record { token = res.token; session_key = res.session_key })
                u
              ≡ (ok (record { role = reg.role; user_id = a.id; token = renewed }), u'))
            × (u'.db ≡ u.db)
      recognised reg res u₀ u₁ u a good_role same_session fits in_time long =
          let req : ExtJwtDataReq = record { token = res.token; session_key = res.session_key } in
          let stored =
            HasSession-of_Stored x.redis sv redis res.session_key a.id reg.role _ _ a.stored in
          let session =
            subst (λ h. (index_or_empty "id" h ≡ a.id) × (index_or_empty "role" h ≡ reg.role))
              (sym same_session) stored in
          let valid = ext_jwt_data_req_error-of req long (drawn_uuid res.session_key a.key_drawn) in
          let (renewed, u', answered, _) =
            ext_jwt_data-issued x sv dv redis pg bcrypt redis_up pg_up signs jwt req a.id reg.role
              a.host_at_issue a.host_after u (some_uuid a.id (drawn_uuid a.id a.id_drawn))
              (listed_role reg.role good_role) a.issued session valid fits in_time in
          (renewed, u', answered, moved _ u (ext_jwt_data-SameDb x req) answered)

      -- The users group of the gateway in front of the service, with delUser as its handler.
      abbrev pub delete_route : Request → M × (B × World K S D) → Reply × (M × (B × World K S D))
      delete_route =
          users_group merged (λ w. let (id, m) = new_id w.0 in (id, (m, w.1)))
            (λ label w. (tick label w.0, w.1)) (λ svc op w. (time svc op w.0, w.1))
            (Users.ext_jwt_data merged validator rpc_here)
            (Users.del_user merged validator rpc_here)

      -- A user whose valid registration has had its effects can delete its account through the gateway.
      -- The request is on a route that is not public, has the returned token as bearer and the
      -- returned session key as cookie, and names "me"; it comes while the session is there, at most
      -- 15 minutes after the token was issued, with the users as the registration left them.
      -- PostgreSQL, Redis and the network are up, the breaker is closed, fewer transactions are open
      -- than the pool has connections, and the token has at least 100 runes and no white space. Then
      -- the status is 200, the users are those before the registration, and the session is gone.
      pub del_user-reg_user :
          (reg : RegReq) (res : RegRes) (u₀ u₁ : World K S D)
          (a : Registered x sv dv redis pg bcrypt reg res u₀ u₁) (r : Request) (m : M) (b : B)
          (u : World K S D)
          → reg_req_error x.parsers reg ≡ none
          → dv.rows u.db "users" ≡ dv.rows u₁.db "users"
          → sv.hash u.sessions res.session_key ≡ sv.hash u₁.sessions res.session_key
          → dv.open_txs u.db < limit
          → (x.host.now a.host_at_issue).0 + token_seconds ≤ max_exact
          → (x.host.now u.host).0 ≤ (x.host.now a.host_at_issue).0 + token_seconds
          → 100 ≤ count res.token
          → none_of is_space res.token ≡ true
          → is_public_route r.url ≡ false
          → header r "Authorization" ≡ "Bearer " ++ res.token
          → lookup "session_key" r.cookies ≡ some res.session_key
          → lookup "delUserId" r.params ≡ some "me"
          → (new_id m).0 ≢ ""
          → v.phase b ≡ Phase.state_closed
          → (m' : M) × (b' : B) × (u' : World K S D) × (delete_route r (m, (b, u))
              ≡ (Reply.status 200, (m', (b', u'))))
            × (dv.rows u'.db "users" ≡ dv.rows u₀.db "users")
            × (sv.hash u'.sessions res.session_key ≡ [])
      del_user-reg_user reg res u₀ u₁ a r m b u valid same_rows same_session room fits in_time long
            clean guarded bearer cookie me some_id closed =
          let (_, _, _, good_role, _) = reg_req_error-none x.parsers reg valid in
          let good_id = drawn_uuid a.id a.id_drawn in
          let (renewed, u₂, answered, same_db) =
            recognised reg res u₀ u₁ u a good_role same_session fits in_time long in
          let (b₂, accepted, closed₂) =
            ext_accepts res.token res.session_key (new_id m).0 (new_id m).1 b u u₂ a.id reg.role
              renewed closed answered in
          let (u₃, own, rows, gone) =
            del_user-own x sv dv redis pg redis_up pg_up tx_up a.id reg.role res.session_key u₂
              good_role good_id (drawn_uuid res.session_key a.key_drawn) (rw same_db room) in
          let user : UserInfo = record { role = reg.role; user_id = a.id } in
          let svc = svc_name (path_parts r) in
          let op = oper r.method (path_parts r) in
          let m₂ = tick (svc ++ "_" ++ op) (tick svc (new_id m).1) in
          let (b₃, deleted) = deletes _ m₂ b₂ u₂ u₃ closed₂ own in
          let passes =
            users_group-deletes merged validator hidden rpc_here
              (Users.ext_jwt_data merged validator rpc_here)
              (λ w. let (id, n) = new_id w.0 in (id, (n, w.1))) (λ label w. (tick label w.0, w.1))
              (λ svc op w. (time svc op w.0, w.1)) r (m, (b, u)) res.token res.session_key user _ _
              guarded some_id
              (rw bearer (bearer_token-Bearer res.token (some_token res.token long) clean)) cookie
              accepted (some_uuid a.id good_id) (listed_role reg.role good_role) (rw me deleted) in
          (
            time svc op m₂,
            b₃,
            u₃,
            passes,
            rows
                ∙ ap (λ d. reject (matches (("id", text a.id) ∷ [])) (dv.rows d "users")) same_db
                ∙ ap (reject (matches (("id", text a.id) ∷ []))) same_rows
                ∙ reject_added dv a.id (reg.name ++ reg.email) reg.role a.hashed u₀.db u₁.db
                    a.added,
            gone,
          )
