-- ===== src/Gateway/Routers.antt =====
-- api-gateway/internal/routers/routers.go: the middleware that activateMdwr puts in front of each
-- group, in its order. The group of users alone has JWTAuth.
pub mod Groups
pub mod Deletion
pub mod Accepted
use l.Prelude.{String, Bool}
use l.Exec.{Exec}
use l.Gateway.Http.{UserInfo, Handler}
use l.Gateway.Mdwr.{jwt_auth, request_id_mdwr, metrics}

module _ {W : Type 0} (merged : Bool) (new_uuid : W → String × W) (count : String → W → W)
    (observe : String → String → W → W) where
  unfoldable pub users_group : (String → String → String → Exec W UserInfo) → Handler W → Handler W
  unfolding request_id_mdwr jwt_auth metrics
  users_group ext h = request_id_mdwr new_uuid (jwt_auth merged ext (metrics count observe h))

  unfoldable pub orders_group : Handler W → Handler W
  unfolding request_id_mdwr metrics
  orders_group h = request_id_mdwr new_uuid (metrics count observe h)
