-- ===== src/UserService/Sessions.antt =====
-- user-service/internal/db/redis.go: the sessions in Redis.
pub mod Keys
use l.Prelude.{ℕ, ◌*◌, String, not, ◌||◌, List, [], ◌∷◌, ◌==◌, if◌then◌else◌}
use Prim.Native.String.{◌++◌}
use l.Prelude.Lists.{index_or_empty}
use l.Errors
use l.Exec.{Exec, pure, fail, wrapping, require, ◌>>=◌, ◌>>◌}
use l.Redis.{Redis, hset, expire}

-- time.Hour*720, in seconds
abbrev pub session_seconds : ℕ
session_seconds = 720 * 3600

abbrev pub session_fields : String → String → List (String × String)
session_fields id role = ("id", id) ∷ ("role", role) ∷ []

module _ {S : Type 0} (redis : Redis S) where
  -- NewSession, after it has drawn the key `sk`
  unfoldable pub store_session : String → String → String → Exec S String
  store_session sk id role = do
    require "UserRedisRepository.NewSession: tx add entry: "
        (redis.queue_error (hset sk (session_fields id role)))
    require "UserRedisRepository.NewSession: tx expire entry: "
        (redis.queue_error (expire sk session_seconds))
    wrapping "UserRedisRepository.NewSession: new session: "
        (redis.exec_pipeline (hset sk (session_fields id role) ∷ expire sk session_seconds ∷ []))
    pure sk

  -- Validate
  unfoldable pub validate : String → String → String → Exec S Unit
  validate id role sk = do
    fields ← wrapping "UserRedisRepository.Validate: get all: " (redis.hgetall sk)
    (if not (index_or_empty "id" fields == id) || not (index_or_empty "role" fields == role)
        then fail (
            Errors.wrapped "UserRedisRepository.Validate: match data: " (
              Errors.text (
                "Data are different: "
                ++ (id
                    ++ (": "
                        ++ (index_or_empty "id" fields
                            ++ (" | " ++ (role ++ (": " ++ index_or_empty "role" fields)))))))))
        else pure tt)

  -- DelSession
  unfoldable pub del_session : String → Exec S Unit
  del_session sk = wrapping "UserRedisRepository.DelSession: delete session: " (redis.del sk)
