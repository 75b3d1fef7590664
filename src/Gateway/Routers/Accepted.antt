-- ===== src/Gateway/Routers/Accepted.antt =====
-- A deletion that the users group of api-gateway/internal/routers/routers.go lets through.
use Prim.Native.String.{◌++◌}
use l.Prelude.{String, ◌≡◌, ◌≢◌, ap, ◌∙◌, Bool, false, List, none, some, inr, sym}
use l.Prelude.Lists.{lookup}
use l.Exec.{ok, Exec}
use l.Gateway.Http.{UserInfo, Request, Reply, header}
use l.Gateway.Mdwr.{is_public_route, bearer_token, metrics, path_parts, svc_name, oper}
use l.Gateway.Mdwr.Auth.{passed_on, jwt_auth-accepts}
use l.Gateway.Users.{Field, Validator, UsersRpc, del_user, del_request, replied}
use l.Gateway.Users.Deletion.{AllHidden, del_user-asks}
use l.Gateway.Routers.{users_group}

module _ {W : Type 0} (merged : Bool) (validator : Validator)
    (hidden : (fields : List Field) → AllHidden fields → validator fields ≡ none) (rpc : UsersRpc W)
    (ext : String → String → String → Exec W UserInfo) (new_uuid : W → String × W)
    (count : String → W → W) (observe : String → String → W → W) where
  -- The state in which Metrics calls the handler.
  abbrev pub entered : Request → W → W
  entered r w =
      let svc = svc_name (path_parts r) in
      count (svc ++ "_" ++ oper r.method (path_parts r)) (count svc w)

  -- The state once the handler has returned.
  abbrev pub observed : Request → W → W
  observed r w = observe (svc_name (path_parts r)) (oper r.method (path_parts r)) w

  -- A request with a bearer token and a session that user-service accepts for a user with an id and
  -- a role gets the status 200 when user-service deletes the user that it names.
  pub users_group-deletes :
      (r : Request) (w : W) (token sk : String) (user : UserInfo) (w₂ w₃ : W)
      → is_public_route r.url ≡ false
      → (new_uuid w).0 ≢ ""
      → bearer_token (header r "Authorization") ≡ inr token
      → lookup "session_key" r.cookies ≡ some sk
      → ext token sk (new_uuid w).0 (new_uuid w).1 ≡ (ok user, w₂)
      → user.user_id ≢ ""
      → user.role ≢ ""
      → rpc.del_user (del_request merged validator rpc r user sk) (entered r w₂) ≡ (ok tt, w₃)
      → users_group merged new_uuid count observe ext (del_user merged validator rpc) r w
        ≡ (Reply.status 200, observed r w₃)
  unfolding users_group metrics
  users_group-deletes r w token sk user w₂ w₃ guarded some_id bearer cookie accepted has_id has_role
        deleted =
      let (passes, same_id) =
        jwt_auth-accepts merged ext new_uuid (metrics count observe (del_user merged validator rpc))
          r w token sk user w₂ guarded some_id bearer cookie accepted in
      let q = passed_on merged ext new_uuid (new_uuid w).0 user r in
      let ran =
        del_user-asks merged validator hidden rpc q sk (entered r w₂)
          (λ e. some_id (sym same_id ∙ e)) has_id has_role cookie in
      passes
      ∙ ap (λ (p : Reply × W). (p.0, observed r p.1))
          (ran ∙ ap (replied (λ done. Reply.status 200)) deleted)
