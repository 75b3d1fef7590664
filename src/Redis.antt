-- ===== src/Redis.antt =====
-- The Redis server as user-service/internal/db/redis.go and api-gateway/internal/mdwr/rl.go see it,
-- through the calls of go-redis that they make, which are parameters. `S` is the state of the server.
use l.Prelude.{ℕ, ◌+◌, String, ◌≡◌, ◌≢◌, List, [], ◌∷◌, Option, none, some}
use l.Prelude.Lists.{lookup}
use l.Errors.{Error}
use l.Exec.{Exec, ok}

-- A command that a pipeline queues; a time is in seconds.
pub data Command : Type 0 where
  hset : String → List (String × String) → Command
  expire : String → ℕ → Command

pub record Redis (S : Type 0) : Type 0 where
  -- the Err of a command at the time when it is queued
  pub queue_error : Command → Option Error
  -- the Exec of a TxPipeline: MULTI, the queued commands, EXEC
  pub exec_pipeline : List Command → Exec S Unit
  -- HGetAll: the fields of a hash, an empty map if the key is missing
  pub hgetall : String → Exec S (List (String × String))
  pub del : String → Exec S Unit
  pub incr : String → Exec S ℕ
  pub expire_key : String → ℕ → Exec S Unit

-- What can be said of a state: the fields of the hash at a key, the counter at a key, and whether a
-- key has a time to live.
pub record View (S : Type 0) : Type 0 where
  pub hash : S → String → List (String × String)
  pub counter : S → String → ℕ
  pub ttl : S → String → Option ℕ

-- HSET writes the given fields of the hash and keeps the others.
abbrev pub overlay : Option String → Option String → Option String
overlay none old = old
overlay (some v) old = some v

-- A session is stored and given a time to live, and nothing else changes.
pub record Stored {S : Type 0} (v : View S) (k : String) (fields : List (String × String))
    (seconds : ℕ) (s s' : S) : Type 0 where
  pub written :
      (f : String) → lookup f (v.hash s' k) ≡ overlay (lookup f fields) (lookup f (v.hash s k))
  pub expires : v.ttl s' k ≡ some seconds
  pub others_kept : (j : String) → j ≢ k → v.hash s' j ≡ v.hash s j

module _ {S : Type 0} (r : Redis S) (v : View S) where
  -- Documented behaviour of the commands, where they return no error.
  pub record IsRedis : Type 0 where
    pub pipeline_ok :
        (k : String) (fields : List (String × String)) (seconds : ℕ) (s s' : S)
        → r.exec_pipeline (hset k fields ∷ expire k seconds ∷ []) s ≡ (ok tt, s')
        → Stored v k fields seconds s s'
    pub hgetall_ok :
        (k : String) (fields : List (String × String)) (s s' : S)
        → r.hgetall k s ≡ (ok fields, s')
        → (f : String) → lookup f fields ≡ lookup f (v.hash s k)
    pub del_ok :
        (k : String) (s s' : S)
        → r.del k s ≡ (ok tt, s')
        → (v.hash s' k ≡ []) × ((j : String) → j ≢ k → v.hash s' j ≡ v.hash s j)
    pub incr_ok :
        (k : String) (n : ℕ) (s s' : S)
        → r.incr k s ≡ (ok n, s')
        → (n ≡ v.counter s k + 1)
          × (v.counter s' k ≡ n)
          × ((j : String) → j ≢ k → v.counter s' j ≡ v.counter s j)
    -- INCR leaves every time to live as it is.
    pub incr_ttl :
        (k : String) (n : ℕ) (s s' : S)
        → r.incr k s ≡ (ok n, s')
        → (j : String) → v.ttl s' j ≡ v.ttl s j
    -- EXPIRE changes no value.
    pub expire_counter :
        (k : String) (seconds : ℕ) (s : S) (j : String)
        → v.counter (r.expire_key k seconds s).1 j ≡ v.counter s j

  -- The server is up: no command returns an error.
  pub record IsUp : Type 0 where
    pub queue_up : (c : Command) → r.queue_error c ≡ none
    pub pipeline_up : (cs : List Command) (s : S) → (s' : S) × (r.exec_pipeline cs s ≡ (ok tt, s'))
    pub hgetall_up :
        (k : String) (s : S)
        → (fields : List (String × String)) × (s' : S) × (r.hgetall k s ≡ (ok fields, s'))
    pub del_up : (k : String) (s : S) → (s' : S) × (r.del k s ≡ (ok tt, s'))
