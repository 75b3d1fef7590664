-- ===== src/Gateway/Routers/Deletion.antt =====
-- The deletion of a user behind the middleware of the users group in api-gateway/internal/routers/routers.go.
use Prim.Native.String.{◌++◌}
use l.Prelude.{String, ◌≡◌, Bool, List, none, some, ◌⊎◌, inr}
use l.Prelude.Lists.{lookup}
use l.Exec.{ok, Exec}
use l.Gateway.Http.{UserInfo, Request, Reply, header}
use l.Gateway.Mdwr.{bearer_token, path_parts, svc_name, oper}
use l.Gateway.Users.{Field, Validator, UsersRpc, del_user, del_request, replied}
use l.Gateway.Users.Deletion.{AllHidden}

module _ {W : Type 0} (merged : Bool) (validator : Validator)
    (hidden : (fields : List Field) → AllHidden fields → validator fields ≡ none)
    (rpc : UsersRpc W) where
  module _ (ext : String → String → String → Exec W UserInfo) (new_uuid : W → String × W)
      (count : String → W → W) (observe : String → String → W → W) where
    -- The state in which Metrics calls the handler.
    abbrev pub counted : Request → W → W
    counted q w =
        let svc = svc_name (path_parts q) in
        count (svc ++ "_" ++ oper q.method (path_parts q)) (count svc w)

    -- The deletion that a request asks user-service for, once the token of its Authorization header
    -- and the session key of its cookie were accepted: that of the user in its path, or of the caller
    -- for "me", in the name of the user of the token and with the session key, in the state that the
    -- acceptance and the counters leave.
    pub record Asked (r : Request) (id : String) (w₁ : W) (reply : Reply) : Type 0 where
      pub token : String
      pub session_key : String
      pub user : UserInfo
      pub after : W
      pub bearer : bearer_token (header r "Authorization") ≡ inr token
      pub cookie : lookup "session_key" r.cookies ≡ some session_key
      pub accepted : ext token session_key id w₁ ≡ (ok user, after)
      pub asked :
          (user.user_id ≡ "")
          ⊎ (user.role ≡ "")
          ⊎ (reply
              ≡ (replied
                  (λ done. Reply.status 200)
                  (rpc.del_user
                    (del_request merged validator rpc r user session_key)
                    (counted r after))).0)
